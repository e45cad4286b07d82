-- ===== src/Prelude/Dicts.antt =====
-- Python's dict, in insertion order, and set, over any key with a Boolean equality.
use Prim.Native.Nat.{suc, ◌≤◌}
use mathlib.Core.Path.{◌≡◌, refl, ap}
use mathlib.Core.Logic.{inl, inr}
use mathlib.Core.Bool.{Bool, true, false, ◌||◌, not}
use mathlib.Core.List.{List, [], ◌∷◌, ◌++◌}
use mathlib.Core.Option.{Option, none, some}
use native.Mathlib.Omega.{arith}
use minecraft_server_manager.Prelude.Tests.{Eq, if◌then◌else◌, Bool-cases}
use minecraft_server_manager.Prelude.Lists.{length, keep, any, length-append, length-keep}

abbrev pub Dict {ℓ} : Type ℓ → Type ℓ → Type ℓ
Dict K V = List (K × V)

module _ {ℓ} {K V : Type ℓ} ⦃e : Eq K⦄ where
  -- `d.get(k)`
  abbrev pub lookup : K → Dict K V → Option V
  lookup k [] = none
  lookup k ((j, v) ∷ d) = if e.beq k j then some v else lookup k d

  -- `k in d`
  abbrev pub has_key : K → Dict K V → Bool
  has_key k [] = false
  has_key k ((j, v) ∷ d) = e.beq k j || has_key k d

  -- `d[k] = v`: a key keeps its place, a new one comes last.
  abbrev pub insert : K → V → Dict K V → Dict K V
  insert k v [] = (k, v) ∷ []
  insert k v ((j, w) ∷ d) = if e.beq k j then (j, v) ∷ d else (j, w) ∷ insert k v d

  -- `d.pop(k, None)`
  abbrev pub erase : K → Dict K V → Dict K V
  erase k [] = []
  erase k ((j, v) ∷ d) = let rest = erase k d in if e.beq k j then rest else (j, v) ∷ rest

  pub lookup-insert :
      (k j : K) (v : V) (d : Dict K V)
      → lookup j (insert k v d) ≡ (if e.beq j k then some v else lookup j d)
  lookup-insert k j v [] = refl
  lookup-insert k j v ((i, w) ∷ d) =
      ground (arith, e.beq_iff k i, e.beq_iff j i, e.beq_iff j k, lookup-insert k j v d)

  pub lookup-erase :
      (k j : K) (d : Dict K V) → lookup j (erase k d) ≡ (if e.beq j k then none else lookup j d)
  lookup-erase k j [] = ground arith
  lookup-erase k j ((i, w) ∷ d) =
      ground (arith, e.beq_iff k i, e.beq_iff j i, e.beq_iff j k, lookup-erase k j d)

  pub has_key-insert :
      (k j : K) (v : V) (d : Dict K V) → has_key j (insert k v d) ≡ (e.beq j k || has_key j d)
  has_key-insert k j v [] = ground arith
  has_key-insert k j v ((i, w) ∷ d) =
      ground (arith, e.beq_iff k i, e.beq_iff j i, e.beq_iff j k, has_key-insert k j v d)

  pub has_key-erase :
      (k j : K) (d : Dict K V) → has_key j (erase k d) ≡ (if e.beq j k then false else has_key j d)
  has_key-erase k j [] = ground arith
  has_key-erase k j ((i, w) ∷ d) =
      ground (arith, e.beq_iff k i, e.beq_iff j i, e.beq_iff j k, has_key-erase k j d)

  -- A key that is present has a value.
  pub has_key-lookup : (k : K) (d : Dict K V) → has_key k d ≡ true → (v : V) × (lookup k d ≡ some v)
  has_key-lookup k [] h = cc
  has_key-lookup k ((i, w) ∷ d) h = elim (Bool-cases (e.beq k i)) [
    | inl same ↦ (w, rw same refl)
    | inr other ↦ rw other (has_key-lookup k d (ground arith))
  ]

  pub length-insert_le : (k : K) (v : V) (d : Dict K V) → length (insert k v d) ≤ suc (length d)
  length-insert_le k v [] = omega arith
  length-insert_le k v ((i, w) ∷ d) = ground (arith, length-insert_le k v d)

  pub length-erase_le : (k : K) (d : Dict K V) → length (erase k d) ≤ length d
  length-erase_le k [] = omega arith
  length-erase_le k ((i, w) ∷ d) = ground (arith, length-erase_le k d)

module _ {ℓ} {K : Type ℓ} ⦃e : Eq K⦄ where
  -- `k in s`, `s.add(k)`, `s.discard(k)` on a set.
  abbrev pub member : K → List K → Bool
  member k s = any (e.beq k) s

  abbrev pub add : K → List K → List K
  add k s = if member k s then s else s ++ k ∷ []

  abbrev pub discard : K → List K → List K
  discard k s = keep (λ j. not (e.beq k j)) s

  member-snoc : (k j : K) (s : List K) → member j (s ++ k ∷ []) ≡ (e.beq j k || member j s)
  member-snoc k j [] = refl
  member-snoc k j (i ∷ s) = ground (arith, member-snoc k j s)

  member-cong : (k j : K) (s : List K) → e.beq j k ≡ true → member j s ≡ member k s
  member-cong k j s h = ap (λ x. member x s) ((e.beq_iff j k).0 h)

  pub member-add : (k j : K) (s : List K) → member j (add k s) ≡ (e.beq j k || member j s)
  member-add k j s = elim (Bool-cases (member k s)) [
    | inl old ↦ rw old (elim (Bool-cases (e.beq j k)) [
      | inl same ↦ rw (same, member-cong k j s same, old) refl
      | inr other ↦ rw other refl
    ])
    | inr new ↦ rw new (member-snoc k j s)
  ]

  pub member-discard :
      (k j : K) (s : List K) → member j (discard k s) ≡ (if e.beq j k then false else member j s)
  member-discard k j [] = ground arith
  member-discard k j (i ∷ s) =
      ground (arith, e.beq_iff k i, e.beq_iff j i, e.beq_iff j k, member-discard k j s)

  pub length-add_le : (k : K) (s : List K) → length (add k s) ≤ suc (length s)
  length-add_le k s = ground (arith, length-append s (k ∷ []))

  pub length-discard_le : (k : K) (s : List K) → length (discard k s) ≤ length s
  length-discard_le k s = length-keep (λ j. not (e.beq k j)) s

  pub beq_refl : (k : K) → e.beq k k ≡ true
  beq_refl k = (e.beq_iff k k).1 refl

module _ {ℓ} {K V : Type ℓ} ⦃e : Eq K⦄ where
  -- No key occurs twice.
  abbrev pub IsUnique : Dict K V → Type ℓ
  IsUnique [] = Unit
  IsUnique ((k, v) ∷ d) = (has_key k d ≡ false) × IsUnique d

  pub insert-IsUnique : (k : K) (v : V) (d : Dict K V) → IsUnique d → IsUnique (insert k v d)
  insert-IsUnique k v [] h = (refl, tt)
  insert-IsUnique k v ((j, w) ∷ d) h = elim (Bool-cases (e.beq k j)) [
    | inl same ↦ rw same h
    | inr other ↦ rw other (
      ground (arith, has_key-insert k j v d, e.beq_iff j k, e.beq_iff k j),
      insert-IsUnique k v d h.1,
    )
  ]

  pub absent-lookup : (k : K) (d : Dict K V) → has_key k d ≡ false → lookup k d ≡ none
  absent-lookup k [] h = refl
  absent-lookup k ((j, v) ∷ d) h = ground (arith, absent-lookup k d)
