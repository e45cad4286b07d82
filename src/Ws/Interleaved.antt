-- ===== src/Ws/Interleaved.antt =====
-- backend/msm/ws/connection.py: a batch is sent while messages of the client are handled, at each await.
use minecraft_server_manager.Prelude.{
  ℕ, ◌≡◌, refl, ap, ◌∙◌, inl, inr, Bool-cases, Bool, true, false, ◌&&◌, not, Option, none, some,
  List, [], ◌∷◌, append-nil, All, any, last?, nat_eq, ◌==◌, if◌then◌else◌, add, insert, erase,
  discard, lookup, lookup-insert, lookup-erase,
}
use minecraft_server_manager.Prelude.Int.{ℤ}
use minecraft_server_manager.Core.LogLine.{LogLine}
use minecraft_server_manager.Core.Permissions.{PermissionSet, server_view, console_read}
use minecraft_server_manager.Runtime.RingBuffer.{tail}
use minecraft_server_manager.Bus.{Event}
use minecraft_server_manager.Ws.{
  MessageType, pong, subscribed, unsubscribed, server_status, server_log, log_truncated, Channel,
  Payload, object, empty, payload, lines, missed, channels, Body, all_channels, Connection, send,
  send_error, cursor, cursor_at, flush,
}
use minecraft_server_manager.Ws.Dialogue.{
  Request, not_an_object, unknown_type, ping, ask_subscribe, ask_unsubscribe, handle, subscribe,
  subscribe_with, unsubscribe, open_channels, send_backlog, backlog_lines, send_lines, announce,
  truncation, requested_channels, is_status, is_logs, add_channels, remove_channels, ServerView,
  granted, refused,
}
use minecraft_server_manager.Ws.Cursor.{
  lines_of, frame_lines, send-lines, IsAway, SendsInOrder, flush-InOrder,
}

-- Does a message ask to follow this server, or not to follow it any more?
abbrev pub names_server : ℕ → Request → Bool
names_server id (ask_subscribe (some other) asked resume_from access view) = id == other
names_server id (ask_unsubscribe (some other)) = id == other
names_server id _ = false

-- Messages of the client that are handled one after the other.
abbrev pub handle_all : List Request → Connection → Connection
handle_all [] c = c
handle_all (request ∷ requests) c = handle_all requests (handle request c)

-- No line of the server is sent, and its cursor does not move.
record IsUntouched (id : ℕ) (c c' : Connection) : Type 0 where
  quiet : lines_of id c'.sent ≡ lines_of id c.sent
  still : cursor id c' ≡ cursor id c

IsUntouched-trans :
    (id : ℕ) (c c' c'' : Connection)
    → IsUntouched id c c'
    → IsUntouched id c' c''
    → IsUntouched id c c''
IsUntouched-trans id c c' c'' h k = record { quiet = k.quiet ∙ h.quiet; still = k.still ∙ h.still }

send-IsUntouched :
    (id : ℕ) (type : MessageType) (body : Body) (server_id : Option ℕ) (c : Connection)
    → frame_lines id server_id body ≡ []
    → IsUntouched id c (send type body server_id c)
send-IsUntouched id type body server_id c h =
    let (kept, sent) = send-lines id type body server_id c in
    record {
      quiet = elim sent [ inl e ↦ e | inr e ↦ e ∙ rw h (append-nil _) ];
      still = ap (λ d. cursor_at (lookup id d)) kept;
    }

module _ (id other : ℕ) (apart : (id == other) ≡ false) where
  other_frame : (body : Body) → frame_lines id (some other) body ≡ []
  other_frame body = rw apart refl

  moved_other :
      (n : ℕ) (c : Connection)
      → cursor id (record c { log_cursor = insert other n c.log_cursor }) ≡ cursor id c
  moved_other n c = rw (lookup-insert other id n c.log_cursor, apart) refl

  send_lines-IsUntouched :
      (ls : List LogLine) (final : Option LogLine) (view : ServerView) (c : Connection)
      → IsUntouched id c (send_lines other ls final view c)
  send_lines-IsUntouched ls none view c = record {
    quiet = refl;
    still = moved_other view.log_seq c;
  }
  send_lines-IsUntouched ls (some final) view c =
      let moved = record c { log_cursor = insert other final.seq c.log_cursor } in
      IsUntouched-trans id c moved (send server_log (lines ls true) (some other) moved)
        (record { quiet = refl; still = moved_other final.seq c })
        (send-IsUntouched id server_log (lines ls true) (some other) moved
          (other_frame (lines ls true)))

  announce-IsUntouched : (n : Option ℕ) (c : Connection) → IsUntouched id c (announce other n c)
  announce-IsUntouched none c = record { quiet = refl; still = refl }
  announce-IsUntouched (some n) c =
      send-IsUntouched id log_truncated (missed n) (some other) c (other_frame (missed n))

  send_backlog-IsUntouched :
      (resume_from : Option ℤ) (view : ServerView) (c : Connection)
      → IsUntouched id c (send_backlog other resume_from view c)
  unfolding send_backlog
  send_backlog-IsUntouched resume_from view c =
      let ls = backlog_lines resume_from view.buffer in
      IsUntouched-trans id c (send_lines other ls (last? ls) view c) _
        (send_lines-IsUntouched ls (last? ls) view c)
        (announce-IsUntouched (truncation resume_from (tail view.buffer 1)) _)

  open_channels-IsUntouched :
      (chs : List Channel) (resume_from : Option ℤ) (view : ServerView) (c : Connection)
      → IsUntouched id c (open_channels other chs resume_from view c)
  unfolding open_channels
  open_channels-IsUntouched chs resume_from view c =
      let opened = record c {
        subscription = add_channels other chs c.subscription;
        subscribed = add other c.subscribed;
      } in
      let c2 = send subscribed (channels chs) (some other) opened in
      let told : IsUntouched id c c2 =
        IsUntouched-trans id c opened c2 (record { quiet = refl; still = refl })
          (send-IsUntouched id subscribed (channels chs) (some other) opened
            (other_frame (channels chs))) in
      let snapshot = payload (object view.snapshot) in
      let c3 = if any is_status chs then send server_status snapshot (some other) c2 else c2 in
      let shown : IsUntouched id c c3 = elim (Bool-cases (any is_status chs)) [
        | inl status ↦ rw status (
            IsUntouched-trans id c c2 (send server_status snapshot (some other) c2) told
              (send-IsUntouched id server_status snapshot (some other) c2 (other_frame snapshot)))
        | inr hidden ↦ rw hidden told
      ] in
      elim (Bool-cases (any is_logs chs)) [
        | inl reads ↦ rw reads (
            IsUntouched-trans id c c3 (send_backlog other resume_from view c3) shown
              (send_backlog-IsUntouched resume_from view c3))
        | inr quiet ↦ rw quiet shown
      ]

  subscribe_with-IsUntouched :
      (rights : PermissionSet) (asked : List (Option Channel)) (resume_from : Option ℤ)
      (view : Option ServerView) (c : Connection)
      → IsUntouched id c (subscribe_with rights other asked resume_from view c)
  unfolding send_error
  subscribe_with-IsUntouched rights asked resume_from none c =
      elim (Bool-cases (rights server_view)) [
        | inl sees ↦ rw sees (send-IsUntouched id _ _ none c refl)
        | inr blind ↦ rw blind (send-IsUntouched id _ _ none c refl)
      ]
  subscribe_with-IsUntouched rights asked resume_from (some view) c =
      elim (Bool-cases (rights server_view)) [
        | inl sees ↦
            elim (Bool-cases
              (any is_logs (requested_channels asked) && not (rights console_read))) [
                | inl kept_out ↦ rw (sees, kept_out) (send-IsUntouched id _ _ none c refl)
                | inr fine ↦
                    rw (sees, fine)
                      (open_channels-IsUntouched (requested_channels asked) resume_from view c)
              ]
        | inr blind ↦ rw blind (send-IsUntouched id _ _ none c refl)
      ]

handle-IsUntouched :
    (id : ℕ) (request : Request) (c : Connection)
    → names_server id request ≡ false
    → IsUntouched id c (handle request c)
unfolding handle send_error subscribe unsubscribe
handle-IsUntouched id not_an_object c h = send-IsUntouched id _ _ none c refl
handle-IsUntouched id unknown_type c h = send-IsUntouched id _ _ none c refl
handle-IsUntouched id ping c h = send-IsUntouched id pong empty none c refl
handle-IsUntouched id (ask_subscribe none asked resume_from access view) c h =
    send-IsUntouched id _ _ none c refl
handle-IsUntouched id (ask_subscribe (some other) asked resume_from (refused code) view) c h =
    send-IsUntouched id _ _ none c refl
handle-IsUntouched id (ask_subscribe (some other) asked resume_from (granted rights) view) c h =
    subscribe_with-IsUntouched id other h rights asked resume_from view c
handle-IsUntouched id (ask_unsubscribe none) c h = record { quiet = refl; still = refl }
handle-IsUntouched id (ask_unsubscribe (some other)) c h =
    let erased = record c {
      subscription = remove_channels other all_channels c.subscription;
      subscribed = discard other c.subscribed;
      log_cursor = erase other c.log_cursor;
    } in
    IsUntouched-trans id c erased _
      (record { quiet = refl; still = rw (lookup-erase other id c.log_cursor, h) refl })
      (send-IsUntouched id unsubscribed empty (some other) erased (other_frame id other h empty))

handle_all-IsAway :
    (id : ℕ) (requests : List Request)
    → All (λ request. names_server id request ≡ false) requests
    → IsAway id (handle_all requests)
handle_all-IsAway id [] h c = (refl, refl)
handle_all-IsAway id (request ∷ requests) h c =
    let first = handle-IsUntouched id request c h.0 in
    let (quiet, still) = handle_all-IsAway id requests h.1 (handle request c) in
    (quiet ∙ first.quiet, still ∙ first.still)

-- Whatever events a batch holds, whatever messages of the client are handled at each await of its
-- sends, and whether or not the client is still there: as long as none of these messages asks to
-- follow a given server, or not to follow it any more, the console lines that leave of this server
-- while the batch is sent have numbers above the cursor that it had, each above the one before, up to
-- the new cursor.
pub flush-SendsInOrder :
    (id : ℕ) (during later : ℕ → List Request) (batch : List (Event Payload)) (c : Connection)
    → ((n : ℕ) → All (λ request. names_server id request ≡ false) (during n))
    → ((n : ℕ) → All (λ request. names_server id request ≡ false) (later n))
    → SendsInOrder id c (flush (λ n. handle_all (during n)) (λ n. handle_all (later n)) batch c).0
flush-SendsInOrder id during later batch c early late =
    flush-InOrder id (λ n. handle_all (during n)) (λ n. handle_all (later n)) batch c
      (λ n. handle_all-IsAway id (during n) (early n))
      (λ n. handle_all-IsAway id (later n) (late n))
