-- ===== src/Minecraft/Properties/Changes.antt =====
-- properties.py: a change is read back, and touches no other key.
use minecraft_server_manager.Prelude.{
  ℕ, zero, suc, ◌+◌, length, length-append, Bool, true, false, not, Option, none, some, List, [],
  ◌∷◌, ◌++◌, all, Text, text_eq, text_eq_iff, Bool-cases, Option-cases, ◌≡◌, refl, ap, sym, ◌∙◌,
  subst, arith, inl, inr,
}
use minecraft_server_manager.Prelude.Trim.{strip}
use minecraft_server_manager.Minecraft.Properties.{
  is_separator, starts_key, longer_key, before_separator, trimmed, read_line, entry_at, later_or,
  last_entry, set_at, property_line, Applied, write_change,
}

-- A key that the format can hold: its first character may start one, it has no separator, and no
-- blank around it.
abbrev pub starts_property : Text → Bool
starts_property [] = false
starts_property (c ∷ cs) = starts_key c

abbrev pub IsPropertyKey : Text → Type 0
IsPropertyKey key =
    (starts_property key ≡ true) × (all (λ c. not (is_separator c)) key ≡ true) × (strip key ≡ key)

before_separator-key :
    (key value : Text)
    → all (λ c. not (is_separator c)) key ≡ true
    → before_separator (key ++ 61 ∷ value) ≡ some (key, value)
before_separator-key [] value h = refl
before_separator-key (c ∷ key) value h =
    let plain : is_separator c ≡ false = ground arith in
    let shape : before_separator ((c ∷ key) ++ 61 ∷ value)
        ≡ longer_key c (before_separator (key ++ 61 ∷ value)) =
      rw plain refl in
    shape ∙ ap (longer_key c) (before_separator-key key value (ground arith))

read_line-property_line :
    (key value : Text)
    → IsPropertyKey key
    → strip value ≡ value
    → read_line (property_line key value) ≡ some (key, value)
unfolding read_line
read_line-property_line [] value h t = absurd (let bad = h.0 in cc)
read_line-property_line (c ∷ key) value h t =
    let scan = before_separator-key (c ∷ key) value h.1 in
    let shape : read_line (property_line (c ∷ key) value)
        ≡ trimmed (before_separator ((c ∷ key) ++ 61 ∷ value)) =
      rw h.0 refl in
    shape ∙ ap trimmed scan ∙ ap (λ k. some (k, strip value)) h.2 ∙ ap (λ v. some (c ∷ key, v)) t

some_injective : {A : Type 0} {x y : A} → some x ≡ some y → x ≡ y
some_injective e = cc

entry_at-same :
    (key value : Text) (index : ℕ) → entry_at key index (some (key, value)) ≡ some (value, index)
entry_at-same key value index = rw ((text_eq_iff key key).1 refl) refl

entry_at-other :
    (key other value : Text) (index : ℕ)
    → text_eq other key ≡ false
    → entry_at other index (some (key, value)) ≡ none
entry_at-other key other value index h = rw h refl

-- An entry that is found has the key; another key has none at that line.
entry_at-found :
    (key other : Text) (index : ℕ) (entry : Option (Text × Text)) {old : Text} {n : ℕ}
    → entry_at key index entry ≡ some (old, n)
    → text_eq other key ≡ false
    → (n ≡ index) × (entry_at other index entry ≡ none)
entry_at-found key other index none h d = absurd (let bad = h in cc)
entry_at-found key other index (some (k, value)) h d = elim (Bool-cases (text_eq key k)) [
  | inl same ↦
      let e = (text_eq_iff key k).0 same in
      (
        ap (λ p. p.1) (some_injective (sym (rw same at h))),
        rw (subst (λ j. text_eq other j ≡ false) e d) refl,
      )
  | inr different ↦ absurd (let bad = rw different at h in cc)
]

-- The line of the last entry of a key is replaced: the key has the new value there, and every other
-- key what it had.
last_entry-set_at :
    (key other line value : Text) (index : ℕ) (lines : List Text) {old : Text} {n : ℕ}
    → read_line line ≡ some (key, value)
    → text_eq other key ≡ false
    → last_entry key index lines ≡ some (old, n)
    → (j : ℕ) × (n ≡ index + j)
      × (last_entry key index (set_at j line lines) ≡ some (value, n))
      × (last_entry other index (set_at j line lines) ≡ last_entry other index lines)
unfolding last_entry
last_entry-set_at key other line value index [] r d h = absurd (let bad = h in cc)
last_entry-set_at key other line value index (l ∷ lines) {old} {n} r d h =
    elim (Option-cases (last_entry key (index + 1) lines)) [
      | inl nothing ↦
          let here : entry_at key index (read_line l) ≡ some (old, n) =
            sym (ap (λ o. later_or o (entry_at key index (read_line l))) nothing) ∙ h in
          let (number, free) = entry_at-found key other index (read_line l) here d in
          (
            0,
            number ∙ omega arith,
            ap (λ o. later_or o (entry_at key index (read_line line))) nothing
                ∙ ap (λ e. entry_at key index e) r
                ∙ entry_at-same key value index
                ∙ ap (λ m. some (value, m)) (sym number),
            ap (λ e. later_or (last_entry other (index + 1) lines) (entry_at other index e)) r
                ∙ ap (later_or (last_entry other (index + 1) lines))
                    (entry_at-other key other value index d ∙ sym free),
          )
      | inr ((v, m), found) ↦
          let same : some (v, m) ≡ some (old, n) =
            sym (ap (λ o. later_or o (entry_at key index (read_line l))) found) ∙ h in
          let (j, number, new, kept) =
            last_entry-set_at key other line value (index + 1) lines r d (found ∙ same) in
          (
            suc j,
            number ∙ omega arith,
            ap (λ o. later_or o (entry_at key index (read_line l))) new,
            ap (λ o. later_or o (entry_at other index (read_line l))) kept,
          )
    ]

last_entry-append :
    (key other line value : Text) (index : ℕ) (lines : List Text)
    → read_line line ≡ some (key, value)
    → text_eq other key ≡ false
    → (last_entry key index (lines ++ line ∷ []) ≡ some (value, index + length lines))
      × (last_entry other index (lines ++ line ∷ []) ≡ last_entry other index lines)
unfolding last_entry
last_entry-append key other line value index [] r d = (
  ap (λ e. entry_at key index e) r
      ∙ entry_at-same key value index
      ∙ ap (λ n. some (value, n)) (omega arith),
  ap (λ e. entry_at other index e) r ∙ entry_at-other key other value index d,
)
last_entry-append key other line value index (l ∷ lines) r d =
    let (new, kept) = last_entry-append key other line value (index + 1) lines r d in
    (
      ap (λ o. later_or o (entry_at key index (read_line l))) new
          ∙ ap (λ n. some (value, n)) (omega arith),
      ap (λ o. later_or o (entry_at other index (read_line l))) kept,
    )

length-set_at :
    (n : ℕ) (line : Text) (lines : List Text) → length (set_at n line lines) ≡ length lines
length-set_at n line [] = refl
length-set_at zero line (l ∷ lines) = refl
length-set_at (suc n) line (l ∷ lines) = ap suc (length-set_at n line lines)

-- Where the new value stands: at the line of the last entry of the key, no line being added; or, where
-- the key had none, on one more line, the last.
abbrev pub IsPlaced : List Text → List Text → Text → Text → Option (Text × ℕ) → Type 0
IsPlaced before after key value (some (old, n)) =
    (last_entry key 0 after ≡ some (value, n)) × (length after ≡ length before)
IsPlaced before after key value none =
    (last_entry key 0 after ≡ some (value, length before)) × (length after ≡ length before + 1)

-- What the entry of a key holds after a change: the value, in its place, and the others theirs.
abbrev pub IsChanged : List Text → List Text → Text → Text → Text → Type 0
IsChanged before after key value other =
    IsPlaced before after key value (last_entry key 0 before)
    × (last_entry other 0 after ≡ last_entry other 0 before)

-- The change of a key that the format can hold, to a value without blanks around it, is read back
-- from the lines: where the key had an entry, its last entry has the value, at the same line, and the
-- file as many lines as before; where it had none, its entry is one more line, the last of the file.
-- The entry of every other key is what it was, at the same line.
pub write_change-IsChanged :
    (a : Applied) (key value other : Text)
    → IsPropertyKey key
    → strip value ≡ value
    → text_eq other key ≡ false
    → IsChanged a.lines (write_change a.lines key value a).lines key value other
unfolding write_change
write_change-IsChanged a key value other k t d = elim (Option-cases (last_entry key 0 a.lines)) [
  | inl absent ↦
      let (new, kept) =
        last_entry-append key other (property_line key value) value 0 a.lines
          (read_line-property_line key value k t) d in
      rw absent (
        (
          new ∙ ap (λ n. some (value, n)) (omega arith),
          length-append a.lines (property_line key value ∷ []),
        ),
        kept,
      )
  | inr ((old, n), found) ↦ elim (Bool-cases (text_eq old value)) [
    | inl same ↦
        rw (found, same)
          ((found ∙ ap (λ v. some (v, n)) ((text_eq_iff old value).0 same), refl), refl)
    | inr changes ↦
        let (j, number, new, kept) =
          last_entry-set_at key other (property_line key value) value 0 a.lines
            (read_line-property_line key value k t) d found in
        let place : j ≡ n = omega (arith, number) in
        rw (found, changes)
          (subst
            (λ m.
              ((last_entry key 0 (set_at m (property_line key value) a.lines) ≡ some (value, n))
                × (length (set_at m (property_line key value) a.lines) ≡ length a.lines))
              × (last_entry other 0 (set_at m (property_line key value) a.lines)
                  ≡ last_entry other 0 a.lines))
            place ((new, length-set_at j (property_line key value) a.lines), kept))
  ]
]
