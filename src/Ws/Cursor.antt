-- ===== src/Ws/Cursor.antt =====
-- The console lines that a batch sends of one server, and its cursor (ws/connection.py, _flush).
use minecraft_server_manager.Prelude.{
  ℕ, ◌+◌, ◌≤◌, ◌<◌, ◌≡◌, ◌⊎◌, inl, inr, refl, sym, ap, subst, length, ◌∙◌, Bool-cases, Bool, true,
  false, Option, none, some, List, [], ◌∷◌, ◌++◌, append-nil, append_assoc, text_key, arith,
  if◌then◌else◌, leb, ◌==◌, nat_eq, Dict, lookup, insert, lookup-insert, IsUnique, insert-IsUnique,
  absent-lookup,
}
use minecraft_server_manager.Core.LogLine.{LogLine}
use minecraft_server_manager.Bus.{Event}
use minecraft_server_manager.Ws.{
  MessageType, server_log, Payload, line, object, Body, lines, payload, Frame, Connection, send,
  Groups, lines_for, cursor_at, cursor, gather, collect_one, collect_as, then_collect, collect,
  send_groups, finish_flush, flush, split_topic, topic_to_message,
}

-- Numbers between two bounds, each above the one before.
abbrev pub Ascends : ℕ → List ℕ → ℕ → Type 0
Ascends low [] high = low ≤ high
Ascends low (n ∷ ns) high = (low < n) × Ascends n ns high

Ascends-append :
    (low : ℕ) (ns : List ℕ) (middle : ℕ) (ms : List ℕ) (high : ℕ)
    → Ascends low ns middle
    → Ascends middle ms high
    → Ascends low (ns ++ ms) high
Ascends-append low [] middle [] high h k = omega arith
Ascends-append low [] middle (m ∷ ms) high h k = (omega arith, k.1)
Ascends-append low (n ∷ ns) middle ms high h k = (h.0, Ascends-append n ns middle ms high h.1 k)

Ascends-le : (low : ℕ) (ns : List ℕ) (high : ℕ) → Ascends low ns high → low ≤ high
Ascends-le low [] high h = h
Ascends-le low (n ∷ ns) high h = omega (arith, Ascends-le n ns high h.1)

abbrev pub numbers : List LogLine → List ℕ
numbers [] = []
numbers (l ∷ ls) = l.seq ∷ numbers ls

numbers-append : (ls ms : List LogLine) → numbers (ls ++ ms) ≡ numbers ls ++ numbers ms
numbers-append [] ms = refl
numbers-append (l ∷ ls) ms = ap (λ ns. l.seq ∷ ns) (numbers-append ls ms)

abbrev pub body_lines : Body → List LogLine
body_lines (lines ls backlog) = ls
body_lines _ = []

abbrev pub frame_lines : ℕ → Option ℕ → Body → List LogLine
frame_lines id none body = []
frame_lines id (some other) body = if id == other then body_lines body else []

-- The lines of a server in the frames sent so far.
abbrev pub lines_of : ℕ → List Frame → List LogLine
lines_of id [] = []
lines_of id (f ∷ fs) = frame_lines id f.server_id f.body ++ lines_of id fs

lines_of-snoc :
    (id : ℕ) (fs : List Frame) (f : Frame)
    → lines_of id (fs ++ f ∷ []) ≡ lines_of id fs ++ frame_lines id f.server_id f.body
lines_of-snoc id [] f = append-nil (frame_lines id f.server_id f.body)
lines_of-snoc id (g ∷ fs) f =
    ap (λ ls. frame_lines id g.server_id g.body ++ ls) (lines_of-snoc id fs f)
    ∙ sym (
        append_assoc (frame_lines id g.server_id g.body) (lines_of id fs)
          (frame_lines id f.server_id f.body))

-- A frame either leaves with its lines, or not at all; no cursor moves.
pub send-lines :
    (id : ℕ) (type : MessageType) (body : Body) (server_id : Option ℕ) (c : Connection)
    → ((send type body server_id c).log_cursor ≡ c.log_cursor)
      × ((lines_of id (send type body server_id c).sent ≡ lines_of id c.sent)
          ⊎ (lines_of id (send type body server_id c).sent
              ≡ lines_of id c.sent ++ frame_lines id server_id body))
unfolding send
send-lines id type body server_id c = elim (Bool-cases c.closed) [
  | inl closed ↦ rw closed (refl, inl refl)
  | inr going ↦ elim (Bool-cases c.reachable) [
    | inl reachable ↦
        rw (going, reachable)
          (
            refl,
            inr (
                lines_of-snoc id c.sent
                  (record { type = type; server_id = server_id; seq = c.seq + 1; body = body })),
          )
    | inr gone ↦ rw (going, gone) (refl, inl refl)
  ]
]

-- What is handled meanwhile does not touch a server: it sends no line of it, and leaves its cursor.
abbrev pub IsAway : ℕ → (Connection → Connection) → Type 0
IsAway id f =
    (c : Connection)
    → (lines_of id (f c).sent ≡ lines_of id c.sent) × (cursor id (f c) ≡ cursor id c)

-- The lines gathered for a server.
abbrev gathered : ℕ → Groups → List LogLine
gathered id groups = lines_for (lookup id groups)

send_groups-lines :
    (id : ℕ) (during : ℕ → Connection → Connection) (groups : Groups) (c : Connection)
    → ((n : ℕ) → IsAway id (during n))
    → IsUnique groups
    → (cursor id (send_groups during groups c) ≡ cursor id c)
      × ((lines_of id (send_groups during groups c).sent ≡ lines_of id c.sent)
          ⊎ (lines_of id (send_groups during groups c).sent
              ≡ lines_of id c.sent ++ gathered id groups))
unfolding send_groups
send_groups-lines id during [] c away h = (refl, inl refl)
send_groups-lines id during ((other, ls) ∷ rest) c away h =
    let c' = send server_log (lines ls false) (some other) c in
    let next = during other c' in
    let (quiet, still) = away other c' in
    let (same, first) = send-lines id server_log (lines ls false) (some other) c in
    let (kept, later) = send_groups-lines id during rest next away h.1 in
    (
      kept ∙ still ∙ ap (λ d. cursor_at (lookup id d)) same,
      elim (Bool-cases (id == other)) [
        | inl mine ↦
            let gone : lookup id rest ≡ none = ground (arith, absent-lookup id rest) in
            let later' : lines_of id (send_groups during rest next).sent ≡ lines_of id c'.sent =
              elim later [ inl e ↦ e ∙ quiet | inr e ↦ e ∙ rw gone (append-nil _) ∙ quiet ] in
            elim first [ inl e ↦ inl (later' ∙ e) | inr e ↦ inr (later' ∙ e ∙ rw mine refl) ]
        | inr others ↦
            let first' : lines_of id next.sent ≡ lines_of id c.sent = elim first [
              | inl e ↦ quiet ∙ e
              | inr e ↦ quiet ∙ e ∙ rw others (append-nil _)
            ] in
            elim later [ inl e ↦ inl (e ∙ first') | inr e ↦ inr (e ∙ rw (first', others) refl) ]
      ],
    )

-- What the first pass does for one server: nothing is sent for it, and the lines that are gathered
-- climb from its cursor to its new cursor.
abbrev Gathers : ℕ → Groups → Connection → Groups → Connection → Type 0
Gathers id groups c groups' c' =
    (new : List LogLine) × (gathered id groups' ≡ gathered id groups ++ new)
    × (lines_of id c'.sent ≡ lines_of id c.sent)
    × Ascends (cursor id c) (numbers new) (cursor id c')

insert-own :
    {V : Type 0}
    → (id other : ℕ) (v : V) (d : Dict ℕ V) → (id == other) ≡ true
    → lookup id (insert other v d) ≡ some v
insert-own id other v d h = rw (lookup-insert other id v d, h) refl

insert-other :
    {V : Type 0}
    → (id other : ℕ) (v : V) (d : Dict ℕ V) → (id == other) ≡ false
    → lookup id (insert other v d) ≡ lookup id d
insert-other id other v d h = rw (lookup-insert other id v d, h) refl

gather-Gathers :
    (id other : ℕ) (l : LogLine) (groups : Groups) (c : Connection)
    → let (groups', c') = gather other l groups c in Gathers id groups c groups' c'
unfolding gather
gather-Gathers id other l groups c = elim (Bool-cases (leb l.seq (cursor other c))) [
  | inl seen ↦ rw seen ([], sym (append-nil _), refl, omega arith)
  | inr new ↦ elim (Bool-cases (id == other)) [
    | inl mine ↦
        let same : other ≡ id = ground arith in
        rw
          (
            new,
            insert-own id other (lines_for (lookup other groups) ++ l ∷ []) groups mine,
            insert-own id other l.seq c.log_cursor mine,
          )
          (
            l ∷ [],
            ap (λ o. lines_for (lookup o groups) ++ l ∷ []) same,
            refl,
            (ground arith, omega arith),
          )
    | inr others ↦
        rw
          (
            new,
            insert-other id other (lines_for (lookup other groups) ++ l ∷ []) groups others,
            insert-other id other l.seq c.log_cursor others,
          )
          ([], sym (append-nil _), refl, omega arith)
  ]
]

gather-IsUnique :
    (other : ℕ) (l : LogLine) (groups : Groups) (c : Connection)
    → IsUnique groups
    → IsUnique (gather other l groups c).0
unfolding gather
gather-IsUnique other l groups c h = elim (Bool-cases (leb l.seq (cursor other c))) [
  | inl seen ↦ rw seen h
  | inr new ↦ rw new (insert-IsUnique other _ groups h)
]

-- The result of the first pass, for one server: if it fails the cursor is not lower.
abbrev Collects : ℕ → Groups → Connection → Option Groups × Connection → Type 0
Collects id groups c (none, c') =
    (lines_of id c'.sent ≡ lines_of id c.sent) × (cursor id c ≤ cursor id c')
Collects id groups c (some groups', c') = IsUnique groups' × Gathers id groups c groups' c'

no_lines : (id : ℕ) (server_id : Option ℕ) (p : Payload) → frame_lines id server_id (payload p) ≡ []
no_lines id none p = refl
no_lines id (some other) p = ground arith

send-Gathers :
    (id : ℕ) (type : MessageType) (server_id : Option ℕ) (p : Payload) (groups : Groups)
    (c : Connection)
    → Gathers id groups c groups (send type (payload p) server_id c)
send-Gathers id type server_id p groups c =
    let (kept, sent) = send-lines id type (payload p) server_id c in
    (
      [],
      sym (append-nil _),
      elim sent [ inl e ↦ e | inr e ↦ e ∙ rw (no_lines id server_id p) (append-nil _) ],
      rw kept (omega arith),
    )

away-Gathers :
    (id : ℕ) (f : Connection → Connection) (groups : Groups) (c : Connection) (groups' : Groups)
    (c' : Connection)
    → IsAway id f
    → Gathers id groups c groups' c'
    → Gathers id groups c groups' (f c')
away-Gathers id f groups c groups' c' away (new, g, l, a) =
    let (quiet, still) = away c' in
    (new, g, quiet ∙ l, subst (Ascends (cursor id c) (numbers new)) (sym still) a)

collect_one-Collects :
    (id : ℕ) (is_log : Bool) (type : MessageType) (server_id : Option ℕ) (p : Payload)
    (meanwhile : Connection → Connection) (groups : Groups) (c : Connection)
    → IsAway id meanwhile
    → IsUnique groups
    → Collects id groups c (collect_one is_log type server_id p meanwhile groups c)
unfolding collect_one
collect_one-Collects id true type (some other) (line l) meanwhile groups c away h =
    (gather-IsUnique other l groups c h, gather-Gathers id other l groups c)
collect_one-Collects id true type (some other) (object o) meanwhile groups c away h =
    (refl, omega arith)
collect_one-Collects id true type none p meanwhile groups c away h =
    (h, away-Gathers id meanwhile groups c groups _ away (send-Gathers id type none p groups c))
collect_one-Collects id false type server_id p meanwhile groups c away h = (
  h,
  away-Gathers id meanwhile groups c groups _ away (send-Gathers id type server_id p groups c),
)

collect_as-Collects :
    (id : ℕ) (type : Option MessageType) (server_id : Option ℕ) (p : Payload)
    (meanwhile : Connection → Connection) (groups : Groups) (c : Connection)
    → IsAway id meanwhile
    → IsUnique groups
    → Collects id groups c (collect_as type server_id p meanwhile groups c)
unfolding collect_as
collect_as-Collects id none server_id p meanwhile groups c away h =
    (h, ([], sym (append-nil _), refl, omega arith))
collect_as-Collects id (some type) server_id p meanwhile groups c away h =
    collect_one-Collects id _ type server_id p meanwhile groups c away h

Collects-trans :
    (id : ℕ) (groups : Groups) (c : Connection) (groups' : Groups) (c' : Connection)
    (y : Option Groups × Connection)
    → Gathers id groups c groups' c'
    → Collects id groups' c' y
    → Collects id groups c y
Collects-trans id groups c groups' c' (none, c'') (new, g, l, a) k =
    (k.0 ∙ l, omega (arith, Ascends-le _ _ _ a))
Collects-trans id groups c groups' c' (some groups'', c'') (new, g, l, a) (u, (new', g', l', a')) =
    (
      u,
      (
        new ++ new',
        g' ∙ ap (λ ls. ls ++ new') g ∙ append_assoc _ new new',
        l' ∙ l,
        rw (numbers-append new new') (Ascends-append _ (numbers new) _ (numbers new') _ a a'),
      ),
    )

then-Collects :
    (id : ℕ) (groups : Groups) (c : Connection) (x : Option Groups × Connection)
    (rest : Groups → Connection → Option Groups × Connection)
    → Collects id groups c x
    → ((groups' : Groups) (c' : Connection)
        → IsUnique groups'
        → Collects id groups' c' (rest groups' c'))
    → Collects id groups c (then_collect x rest)
then-Collects id groups c (none, c') rest h k = h
then-Collects id groups c (some groups', c') rest h k =
    Collects-trans id groups c groups' c' (rest groups' c') h.1 (k groups' c' h.0)

collect-Collects :
    (id : ℕ) (during : ℕ → Connection → Connection) (batch : List (Event Payload)) (groups : Groups)
    (c : Connection)
    → ((n : ℕ) → IsAway id (during n))
    → IsUnique groups
    → Collects id groups c (collect during batch groups c)
unfolding collect
collect-Collects id during [] groups c away h = (h, ([], sym (append-nil _), refl, omega arith))
collect-Collects id during (e ∷ es) groups c away h =
    let (server_id, suffix) = split_topic e.topic in
    let type = lookup suffix topic_to_message in
    then-Collects id groups c (collect_as type server_id e.payload (during (length es)) groups c)
      (collect during es)
      (collect_as-Collects id type server_id e.payload (during (length es)) groups c
        (away (length es)) h)
      (λ groups' c' u. collect-Collects id during es groups' c' away u)

-- The lines that a step sends of one server, between the cursors before and after it.
abbrev pub SendsInOrder : ℕ → Connection → Connection → Type 0
SendsInOrder id c c' =
    (new : List LogLine) × (lines_of id c'.sent ≡ lines_of id c.sent ++ new)
    × Ascends (cursor id c) (numbers new) (cursor id c')

finish-SendsInOrder :
    (id : ℕ) (later : ℕ → Connection → Connection) (c : Connection) (x : Option Groups × Connection)
    → ((n : ℕ) → IsAway id (later n))
    → Collects id [] c x
    → SendsInOrder id c (finish_flush later x).0
finish-SendsInOrder id later c (none, c') away (l, a) = ([], l ∙ sym (append-nil _), a)
finish-SendsInOrder id later c (some groups, c') away (u, (new, g, l, a)) =
    let (kept, sent) = send_groups-lines id later groups c' away u in
    elim sent [
      | inl e ↦ ([], e ∙ l ∙ sym (append-nil _), rw kept (Ascends-le _ _ _ a))
      | inr e ↦ (new, e ∙ rw (g, l) refl, rw kept a)
    ]

-- Whatever is done, at each await of a batch, with the client's messages, as long as it neither sends
-- console lines of a server nor moves its cursor: the batch sends console lines of this server with
-- numbers above its cursor, each above the one before, up to its new cursor.
pub flush-InOrder :
    (id : ℕ) (during later : ℕ → Connection → Connection) (batch : List (Event Payload))
    (c : Connection)
    → ((n : ℕ) → IsAway id (during n))
    → ((n : ℕ) → IsAway id (later n))
    → SendsInOrder id c (flush during later batch c).0
unfolding flush
flush-InOrder id during later batch c early late =
    finish-SendsInOrder id later c (collect during batch [] c) late
      (collect-Collects id during batch [] c early tt)
