-- ===== src/Runtime/Server/Presence.antt =====
-- What server_runtime.py announces of the players.
use minecraft_server_manager.Prelude.{
  ℕ, ◌≤◌, ◌≡◌, refl, ◌↔◌, true, false, Option, none, some, [], ◌∷◌, length, Text, Dict, lookup,
  has_key, insert, erase, member, add, lookup-insert, has_key-insert, has_key-erase,
  length-erase_le, length-discard_le, ltb→lt, ap, ◌∙◌, member-add, length-insert_le, beq_refl,
  arith, ltb, if◌then◌else◌, text_key, Bool-cases, inl, inr,
}
use minecraft_server_manager.Runtime.Server.Model.{Players}
use minecraft_server_manager.Runtime.Server.Players.{
  max_pending_uuids, join, leave, again, keep_uuid, drop_oldest, remember_uuid,
}

-- The two memories stay within their bounds.
pub record IsBounded (p : Players) : Type 0 where
  pub pending : length p.pending_uuids ≤ max_pending_uuids
  pub left : length p.recently_left ≤ max_pending_uuids

has_key-keep_uuid :
    (u : Text) (c : ℕ) (cs : Text) (known : Option Text) (d : Dict Text (Option Text))
    → has_key u d ≡ true
    → has_key u (keep_uuid u (c ∷ cs) known d) ≡ true
has_key-keep_uuid u c cs none d h = rw (has_key-insert, beq_refl u) refl
has_key-keep_uuid u c cs (some []) d h = rw (has_key-insert, beq_refl u) refl
has_key-keep_uuid u c cs (some (k ∷ ks)) d h = h

has_key-again :
    (u : Text) (uuid : Option Text) (known : Option (Option Text)) (d : Dict Text (Option Text))
    → has_key u d ≡ true
    → has_key u (again u uuid known d) ≡ true
has_key-again u none known d h = h
has_key-again u (some []) known d h = h
has_key-again u (some (c ∷ cs)) none d h = h
has_key-again u (some (c ∷ cs)) (some known) d h = has_key-keep_uuid u c cs known d h

again-known :
    (u : Text) (uuid : Option Text) (c : ℕ) (cs : Text) (d : Dict Text (Option Text))
    → again u uuid (some (some (c ∷ cs))) d ≡ d
again-known u none c cs d = refl
again-known u (some []) c cs d = refl
again-known u (some (k ∷ ks)) c cs d = refl

join-present :
    (u : Text) (p : Players)
    → has_key u p.online ≡ true
    → ((join u p).1 ≡ [])
      × ((join u p).0.online ≡ again u (lookup u p.pending_uuids) (lookup u p.online) p.online)
unfolding join
join-present u p h = (rw h refl, rw h refl)

join-absent :
    (u : Text) (p : Players)
    → has_key u p.online ≡ false
    → (join u p).0.online ≡ insert u (lookup u p.pending_uuids) p.online
unfolding join
join-absent u p h = rw h refl

-- A player who has arrived is online.
join-online : (u : Text) (p : Players) → has_key u (join u p).0.online ≡ true
join-online u p = elim (Bool-cases (has_key u p.online)) [
  | inl present ↦
      rw ((join-present u p present).1)
        (has_key-again u (lookup u p.pending_uuids) (lookup u p.online) p.online present)
  | inr absent ↦ rw (join-absent u p absent, has_key-insert, beq_refl u) refl
]

-- An arrival that is announced twice is published once: right after an arrival the same name
-- publishes nothing, and stays online.
pub join_twice :
    (u : Text) (p : Players)
    → ((join u (join u p).0).1 ≡ []) × (has_key u (join u (join u p).0).0.online ≡ true)
join_twice u p = ((join-present u (join u p).0 (join-online u p)).0, join-online u (join u p).0)

leave-gone :
    (u : Text) (p : Players)
    → has_key u p.online ≡ true
    → let left = add u p.recently_left in
      ((leave u p).0.online ≡ erase u p.online)
      × ((leave u p).0.recently_left ≡ (if ltb max_pending_uuids (length left) then [] else left))
unfolding leave
leave-gone u p h = (rw h refl, rw h refl)

leave-quiet :
    (u : Text) (p : Players)
    → has_key u p.online ≡ false
    → ((leave u p).1 ≡ []) ↔ (member u p.recently_left ≡ true)
unfolding leave
leave-quiet u p h = elim (Bool-cases (member u p.recently_left)) [
  | inl known ↦ rw (h, known) (λ e. refl, λ e. refl)
  | inr new ↦ rw (h, new) (λ e. cc, λ e. cc)
]

-- The repetition of a departure publishes nothing exactly if the memory of departures, with this
-- one, had not passed its bound and been emptied.
pub leave_twice_iff :
    (u : Text) (p : Players)
    → has_key u p.online ≡ true
    → ((leave u (leave u p).0).1 ≡ []) ↔ (length (add u p.recently_left) ≤ max_pending_uuids)
leave_twice_iff u p h =
    let q = (leave u p).0 in
    let gone : has_key u q.online ≡ false =
      rw ((leave-gone u p h).0, has_key-erase, beq_refl u) refl in
    let quiet = leave-quiet u q gone in
    let known : member u (add u p.recently_left) ≡ true = rw (member-add, beq_refl u) refl in
    elim (Bool-cases (ltb max_pending_uuids (length (add u p.recently_left)))) [
      | inl over ↦
          let emptied : q.recently_left ≡ [] = (leave-gone u p h).1 ∙ rw over refl in
          (λ e. cc (quiet.0 e), λ le. absurd (omega (arith, ltb→lt _ _ over)))
      | inr within ↦
          let kept : q.recently_left ≡ add u p.recently_left =
            (leave-gone u p h).1 ∙ rw within refl in
          (λ e. ground arith, λ le. quiet.1 (ap (member u) kept ∙ known))
    ]

remember-present :
    (u uuid : Text) (p : Players)
    → has_key u p.online ≡ true
    → (remember_uuid u uuid p).online ≡ insert u (some uuid) p.online
unfolding remember_uuid
remember-present u uuid p h = rw h refl

remember-absent :
    (u uuid : Text) (p : Players)
    → has_key u p.online ≡ false
    → ((remember_uuid u uuid p).online ≡ p.online)
      × (lookup u (remember_uuid u uuid p).pending_uuids ≡ some uuid)
unfolding remember_uuid
remember-absent u uuid p h = (rw h refl, rw (h, lookup-insert, beq_refl u) refl)

-- A UUID that is announced for a name, before or after the name's arrival, is the one kept for it
-- once it has arrived.
pub join-remember_uuid :
    (u : Text) (c : ℕ) (cs : Text) (p : Players)
    → lookup u (join u (remember_uuid u (c ∷ cs) p)).0.online ≡ some (some (c ∷ cs))
join-remember_uuid u c cs p =
    let q = remember_uuid u (c ∷ cs) p in
    elim (Bool-cases (has_key u p.online)) [
      | inl present ↦
          let same = remember-present u (c ∷ cs) p present in
          let here : has_key u q.online ≡ true = rw (same, has_key-insert, beq_refl u) refl in
          let found : lookup u q.online ≡ some (some (c ∷ cs)) =
            rw (same, lookup-insert, beq_refl u) refl in
          rw
            (
              (join-present u q here).1,
              found,
              again-known u (lookup u q.pending_uuids) c cs q.online,
            )
            found
      | inr absent ↦
          let (same, pending) = remember-absent u (c ∷ cs) p absent in
          let away : has_key u q.online ≡ false = rw same absent in
          rw (join-absent u q away, pending, lookup-insert, beq_refl u) refl
    ]

join-IsBounded : (u : Text) (p : Players) → IsBounded p → IsBounded (join u p).0
unfolding join
join-IsBounded u p h =
    ground (arith, length-erase_le u p.pending_uuids, length-discard_le u p.recently_left)

leave-IsBounded : (u : Text) (p : Players) → IsBounded p → IsBounded (leave u p).0
unfolding leave
leave-IsBounded u p h = ground arith

remember_uuid-IsBounded :
    (u uuid : Text) (p : Players) → IsBounded p → IsBounded (remember_uuid u uuid p)
unfolding remember_uuid
remember_uuid-IsBounded u uuid p h = ground (
  arith,
  length-insert_le u uuid (drop_oldest p.pending_uuids),
  length-insert_le u uuid p.pending_uuids,
)

-- An arrival, a departure and the announcement of a UUID each keep both memories, of departures and
-- of early UUIDs, within their bound of 64 entries.
pub presence-IsBounded :
    (u uuid : Text) (p : Players)
    → IsBounded p
    → IsBounded (join u p).0 × IsBounded (leave u p).0 × IsBounded (remember_uuid u uuid p)
presence-IsBounded u uuid p h =
    (join-IsBounded u p h, leave-IsBounded u p h, remember_uuid-IsBounded u uuid p h)
