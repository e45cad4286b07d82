-- ===== src/Ws/Rights.antt =====
-- Without the permission to read a console, a client is not subscribed to its lines.
use minecraft_server_manager.Prelude.{
  ℕ, ◌≡◌, refl, sym, ap, ◌∙◌, inl, inr, Bool-cases, false, Option, none, some, List, [], ◌∷◌, ◌++◌,
  append-nil, append_assoc, Text, codes, decimal, any, text_eq, text_eq-append, ends_with_char,
  ends_with_char-append, add, nat_eq, arith,
}
use minecraft_server_manager.Prelude.Int.{ℤ}
use minecraft_server_manager.Core.Permissions.{PermissionSet, server_view, console_read}
use minecraft_server_manager.Bus.{Subscription, matches, matches_any, add_topic, server_topic, dot}
use minecraft_server_manager.Ws.{
  MessageType, subscribed, server_status, Channel, status, logs, stats, players, events, backups,
  channel_events, Payload, object, Body, channels, payload, Connection, send, send_error,
}
use minecraft_server_manager.Ws.Cursor.{lines_of, body_lines, frame_lines, send-lines}
use minecraft_server_manager.Ws.Dialogue.{
  ServerView, granted, add_events, add_channels, is_status, is_logs, requested_channels,
  open_channels, subscribe,
}

-- The topic of the console lines of a server.
abbrev pub log_topic : ℕ → Text
log_topic id = server_topic id (codes "log")

topic_split :
    (id : ℕ) (event : Text)
    → server_topic id event ≡ (codes "server." ++ decimal id) ++ (dot ∷ event)
unfolding server_topic
topic_split id event = sym (append_assoc (codes "server.") (decimal id) (dot ∷ event))

-- The topic of another event is not heard as that of the lines.
other_topic :
    (id : ℕ) (c : ℕ) (cs : Text)
    → ends_with_char dot (c ∷ cs) ≡ false
    → text_eq (codes "log") (c ∷ cs) ≡ false
    → matches_any (server_topic id (c ∷ cs) ∷ []) (log_topic id) ≡ false
unfolding matches_any
other_topic id c cs h k =
    let p = codes "server." ++ decimal id in
    let ends : ends_with_char dot (server_topic id (c ∷ cs)) ≡ false =
      ap (ends_with_char dot) (topic_split id (c ∷ cs))
      ∙ ends_with_char-append dot p dot (c ∷ cs)
      ∙ h in
    let differs : text_eq (log_topic id) (server_topic id (c ∷ cs)) ≡ false =
      rw
        (
          topic_split id (c ∷ cs),
          topic_split id (codes "log"),
          text_eq-append p (dot ∷ codes "log") (dot ∷ c ∷ cs),
        )
        k in
    rw (ends, differs) refl

matches-snoc :
    (ts : List Text) (t topic : Text)
    → matches_any (t ∷ []) topic ≡ false
    → matches_any (ts ++ t ∷ []) topic ≡ matches_any ts topic
unfolding matches_any
matches-snoc [] t topic h = h
matches-snoc (u ∷ ts) t topic h = rw (matches-snoc ts t topic h) refl

add_topic-matches :
    (t topic : Text) (s : Subscription Payload)
    → matches_any (t ∷ []) topic ≡ false
    → matches (add_topic t s) topic ≡ matches s topic
unfolding matches add_topic
add_topic-matches t topic s h = elim (Bool-cases (any (text_eq t) s.topics)) [
  | inl known ↦ rw known refl
  | inr new ↦ rw new (matches-snoc s.topics t topic h)
]

abbrev Others : ℕ → List Text → Type 0
Others id [] = Unit
Others id (e ∷ es) = (matches_any (server_topic id e ∷ []) (log_topic id) ≡ false) × Others id es

add_events-matches :
    (id : ℕ) (es : List Text) (s : Subscription Payload)
    → Others id es
    → matches (add_events id es s) (log_topic id) ≡ matches s (log_topic id)
add_events-matches id [] s h = refl
add_events-matches id (e ∷ es) s h =
    add_events-matches id es (add_topic (server_topic id e) s) h.1
    ∙ add_topic-matches (server_topic id e) (log_topic id) s h.0

channel-Others : (id : ℕ) (ch : Channel) → is_logs ch ≡ false → Others id (channel_events ch)
channel-Others id status h = (
  other_topic id b's' (codes "tatus") refl refl,
  (
    other_topic id b'c' (codes "rash") refl refl,
    (other_topic id b'r' (codes "estart_scheduled") refl refl, tt),
  ),
)
channel-Others id logs h = absurd (ground arith)
channel-Others id stats h = (other_topic id b's' (codes "tats") refl refl, tt)
channel-Others id players h = (
  other_topic id b'p' (codes "layers") refl refl,
  (
    other_topic id b'p' (codes "layer_join") refl refl,
    (other_topic id b'p' (codes "layer_leave") refl refl, tt),
  ),
)
channel-Others id events h = (other_topic id b'e' (codes "vent_run") refl refl, tt)
channel-Others id backups h = (other_topic id b'b' (codes "ackup") refl refl, tt)

add_channels-matches :
    (id : ℕ) (chs : List Channel) (s : Subscription Payload)
    → any is_logs chs ≡ false
    → matches (add_channels id chs s) (log_topic id) ≡ matches s (log_topic id)
add_channels-matches id [] s h = refl
add_channels-matches id (ch ∷ chs) s h =
    add_channels-matches id chs (add_events id (channel_events ch) s) (ground arith)
    ∙ add_events-matches id (channel_events ch) s (channel-Others id ch (ground arith))

-- Nothing of any console is sent, and the lines of one server are heard as before.
pub record IsSilent (id : ℕ) (c c' : Connection) : Type 0 where
  pub sent : (other : ℕ) → lines_of other c'.sent ≡ lines_of other c.sent
  pub heard : matches c'.subscription (log_topic id) ≡ matches c.subscription (log_topic id)

IsSilent-trans :
    (id : ℕ) (c c' c'' : Connection) → IsSilent id c c' → IsSilent id c' c'' → IsSilent id c c''
IsSilent-trans id c c' c'' h k = record {
  sent = λ other. k.sent other ∙ h.sent other;
  heard = k.heard ∙ h.heard;
}

no_lines :
    (other : ℕ) (server_id : Option ℕ) (body : Body)
    → body_lines body ≡ []
    → frame_lines other server_id body ≡ []
no_lines other none body h = refl
no_lines other (some id) body h = ground arith

send-subscription :
    (type : MessageType) (body : Body) (server_id : Option ℕ) (c : Connection)
    → (send type body server_id c).subscription ≡ c.subscription
unfolding send
send-subscription type body server_id c = ground arith

send-IsSilent :
    (id : ℕ) (type : MessageType) (body : Body) (server_id : Option ℕ) (c : Connection)
    → body_lines body ≡ []
    → IsSilent id c (send type body server_id c)
send-IsSilent id type body server_id c h = record {
  sent = λ other. elim (send-lines other type body server_id c).1 [
    | inl e ↦ e
    | inr e ↦ e ∙ rw (no_lines other server_id body h) (append-nil _)
  ];
  heard = ap (λ s. matches s (log_topic id)) (send-subscription type body server_id c);
}

open_channels-IsSilent :
    (id : ℕ) (chs : List Channel) (resume_from : Option ℤ) (view : ServerView) (c : Connection)
    → any is_logs chs ≡ false
    → IsSilent id c (open_channels id chs resume_from view c)
unfolding open_channels
open_channels-IsSilent id chs resume_from view c h =
    let c1 = record c {
      subscription = add_channels id chs c.subscription;
      subscribed = add id c.subscribed;
    } in
    let c2 = send subscribed (channels chs) (some id) c1 in
    let opened : IsSilent id c c1 = record {
      sent = λ other. refl;
      heard = add_channels-matches id chs c.subscription h;
    } in
    let told =
      IsSilent-trans id c c1 c2 opened
        (send-IsSilent id subscribed (channels chs) (some id) c1 refl) in
    elim (Bool-cases (any is_status chs)) [
      | inl shown ↦
          let body = payload (object view.snapshot) in
          rw (h, shown)
            (IsSilent-trans id c c2 (send server_status body (some id) c2) told
              (send-IsSilent id server_status body (some id) c2 refl))
      | inr hidden ↦ rw (h, hidden) told
    ]

-- A client whose permissions on a server do not include the reading of its console, and that asks to
-- follow it, in whatever way, is sent no message of console lines by the request (neither a history
-- nor the lines it missed), and its connection does not begin to match the topic on which the server's
-- console lines are published. What an event of another channel carries is not looked at: the event of
-- a crash, of the status channel, has the last console lines in its payload.
pub subscribe-IsSilent :
    (id : ℕ) (asked : List (Option Channel)) (resume_from : Option ℤ) (rights : PermissionSet)
    (view : Option ServerView) (c : Connection)
    → rights console_read ≡ false
    → IsSilent id c (subscribe (some id) asked resume_from (granted rights) view c)
unfolding subscribe send_error
subscribe-IsSilent id asked resume_from rights none c h = elim (Bool-cases (rights server_view)) [
  | inl sees ↦ rw sees (send-IsSilent id _ _ none c refl)
  | inr blind ↦ rw blind (send-IsSilent id _ _ none c refl)
]
subscribe-IsSilent id asked resume_from rights (some view) c h =
    elim (Bool-cases (rights server_view)) [
      | inl sees ↦ elim (Bool-cases (any is_logs (requested_channels asked))) [
        | inl reads ↦ rw (sees, reads, h) (send-IsSilent id _ _ none c refl)
        | inr quiet ↦
            rw (sees, quiet)
              (open_channels-IsSilent id (requested_channels asked) resume_from view c quiet)
      ]
      | inr blind ↦ rw blind (send-IsSilent id _ _ none c refl)
    ]
