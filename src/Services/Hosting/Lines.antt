-- ===== src/Services/Hosting/Lines.antt =====
-- hosting_service.py: what enforce_properties does with one line of server.properties.
use minecraft_server_manager.Prelude.{
  ℕ, true, false, none, some, List, [], ◌∷◌, ◌++◌, all, All, Text, text_eq, text_eq_iff, text_key,
  Dict, lookup, Bool-cases, Option-cases, ◌≡◌, refl, ap, sym, ◌∙◌, arith, inl, inr,
}
use minecraft_server_manager.Prelude.Trim.{strip, is_space, is_empty, drop_while}
use minecraft_server_manager.Services.Hosting.{
  is_key_char, take_while, match_line, assignment, Pass, enforce_entry, keep_line, enforce_known,
  enforce_match, enforce_line,
}

key_char-solid : (c : ℕ) → is_key_char c ≡ true → is_space c ≡ false
unfolding is_key_char is_space
key_char-solid c h = ground arith

-- A key of the file: characters of a key, at least one.
abbrev pub IsKey : Text → Type 0
IsKey key = (all is_key_char key ≡ true) × (is_empty key ≡ false)

take_while-key :
    (key rest : Text)
    → all is_key_char key ≡ true
    → is_key_char 61 ≡ false
    → (take_while is_key_char (key ++ 61 ∷ rest) ≡ key)
      × (drop_while is_key_char (key ++ 61 ∷ rest) ≡ 61 ∷ rest)
take_while-key [] rest h e = rw e (refl, refl)
take_while-key (c ∷ key) rest h e =
    let mine : is_key_char c ≡ true = ground arith in
    let ih = take_while-key key rest (ground arith) e in rw mine (ap (λ t. c ∷ t) ih.0, ih.1)

drop_blanks-key :
    (key rest : Text) → IsKey key → drop_while is_space (key ++ 61 ∷ rest) ≡ key ++ 61 ∷ rest
drop_blanks-key [] rest h = absurd (let bad = h.1 in cc)
drop_blanks-key (c ∷ key) rest h =
    let mine : is_key_char c ≡ true = ground arith in rw (key_char-solid c mine) refl

not_key_char : is_key_char 61 ≡ false
unfolding is_key_char
not_key_char = refl

equals-solid : is_space 61 ≡ false
unfolding is_space
equals-solid = refl

-- The line `key=value` is read back.
match_line-assignment :
    (key value : Text) → IsKey key → match_line (assignment (key, value)) ≡ some (key, strip value)
unfolding match_line
match_line-assignment key value h =
    let scan = take_while-key key value h.0 not_key_char in
    rw (drop_blanks-key key value h, scan.0, scan.1, h.1, equals-solid) refl

-- No line sets a key of the targets to another value.
abbrev pub IsSettledLine : Dict Text Text → Text → Type 0
IsSettledLine targets line =
    (key value target : Text)
    → match_line line ≡ some (key, value)
    → lookup key targets ≡ some target
    → value ≡ target

-- Entries whose key is one, whose value has no blank around it, and which the targets hold.
abbrev AreEntries : Dict Text Text → Dict Text Text → Type 0
AreEntries targets entries =
    All (λ e. IsKey e.0 × (strip e.1 ≡ e.1) × (lookup e.0 targets ≡ some e.1)) entries

pub some_injective : {A : Type 0} {x y : A} → some x ≡ some y → x ≡ y
some_injective e = cc

pub assignment-IsSettledLine :
    (targets : Dict Text Text) (key value : Text)
    → IsKey key
    → strip value ≡ value
    → lookup key targets ≡ some value
    → IsSettledLine targets (assignment (key, value))
assignment-IsSettledLine targets key value k s l key' value' target m l' =
    let read = sym (match_line-assignment key value k) ∙ m in
    let same = some_injective read in
    let same_key : key ≡ key' = ap (λ e. e.0) same in
    let same_value : strip value ≡ value' = ap (λ e. e.1) same in
    let same_target = sym l ∙ ap (λ j. lookup j targets) same_key ∙ l' in
    sym same_value ∙ s ∙ some_injective same_target

-- The targets have keys and values of the file, and every key its own value.
abbrev pub AreTargets : Dict Text Text → Type 0
AreTargets targets =
    (key target : Text) → lookup key targets ≡ some target → IsKey key × (strip target ≡ target)

abbrev pub put : Text → List Text → List Text → Pass → Pass
put line found changed rest = record {
  lines = line ∷ rest.lines;
  found = found ++ rest.found;
  changed = changed ++ rest.changed;
}

enforce_line-entry :
    (targets : Dict Text Text) (line key value target : Text) (rest : Pass)
    → match_line line ≡ some (key, value)
    → lookup key targets ≡ some target
    → enforce_line targets line rest ≡ enforce_entry line key value target rest
unfolding enforce_line
enforce_line-entry targets line key value target rest m l =
    ap (λ o. enforce_match targets line o rest) m ∙ ap (λ o. enforce_known line key value o rest) l

enforce_line-free :
    (targets : Dict Text Text) (line key value : Text) (rest : Pass)
    → match_line line ≡ some (key, value)
    → lookup key targets ≡ none
    → enforce_line targets line rest ≡ keep_line line rest
unfolding enforce_line
enforce_line-free targets line key value rest m l =
    ap (λ o. enforce_match targets line o rest) m ∙ ap (λ o. enforce_known line key value o rest) l

enforce_line-plain :
    (targets : Dict Text Text) (line : Text) (rest : Pass)
    → match_line line ≡ none
    → enforce_line targets line rest ≡ keep_line line rest
unfolding enforce_line
enforce_line-plain targets line rest m = ap (λ o. enforce_match targets line o rest) m

enforce_entry-same :
    (line key value target : Text) (rest : Pass)
    → text_eq value target ≡ true
    → enforce_entry line key value target rest ≡ put line (key ∷ []) [] rest
enforce_entry-same line key value target rest h = rw h refl

enforce_entry-other :
    (line key value target : Text) (rest : Pass)
    → text_eq value target ≡ false
    → enforce_entry line key value target rest
      ≡ put (assignment (key, target)) (key ∷ []) (key ∷ []) rest
enforce_entry-other line key value target rest h = rw h refl

pub enforce_line-assignment :
    (targets : Dict Text Text) (key target : Text) (rest : Pass)
    → IsKey key
    → strip target ≡ target
    → lookup key targets ≡ some target
    → enforce_line targets (assignment (key, target)) rest
      ≡ put (assignment (key, target)) (key ∷ []) [] rest
enforce_line-assignment targets key target rest k s l =
    enforce_line-entry targets (assignment (key, target)) key (strip target) target rest
      (match_line-assignment key target k) l
    ∙ enforce_entry-same (assignment (key, target)) key (strip target) target rest
        ((text_eq_iff (strip target) target).1 s)

-- What becomes of a line: the new line is settled, and stays as it is.
abbrev pub LineFact : Dict Text Text → Text → Type 0
LineFact targets line =
    (line' : Text) × (found : List Text) × (changed : List Text) × ((rest : Pass)
      → enforce_line targets line rest ≡ put line' found changed rest)
    × ((rest : Pass) → enforce_line targets line' rest ≡ put line' found [] rest)
    × IsSettledLine targets line'

pub line_fact :
    (targets : Dict Text Text) → AreTargets targets → (line : Text) → LineFact targets line
line_fact targets good line = elim (Option-cases (match_line line)) [
  | inl m ↦ (
    line,
    [],
    [],
    λ rest. enforce_line-plain targets line rest m,
    λ rest. enforce_line-plain targets line rest m,
    λ key value target m' l. absurd (let bad = sym m ∙ m' in cc),
  )
  | inr ((key, value), m) ↦ elim (Option-cases (lookup key targets)) [
    | inl l ↦ (
      line,
      [],
      [],
      λ rest. enforce_line-free targets line key value rest m l,
      λ rest. enforce_line-free targets line key value rest m l,
      λ key' value' target m' l'. absurd (
          let same = ap (λ e. e.0) (some_injective (sym m ∙ m')) in
          let bad = sym l ∙ ap (λ k. lookup k targets) same ∙ l' in cc),
    )
    | inr (target, l) ↦ entry_fact targets good line key value target m l
  ]
]
  where
    entry_fact :
        (targets : Dict Text Text)
        → AreTargets targets
        → (line key value target : Text) → match_line line ≡ some (key, value)
        → lookup key targets ≡ some target
        → LineFact targets line
    entry_fact targets good line key value target m l = elim (Bool-cases (text_eq value target)) [
      | inl same ↦
          let keeps : (rest : Pass) → enforce_line targets line rest ≡ put line (key ∷ []) [] rest =
            λ rest.
              enforce_line-entry targets line key value target rest m l
              ∙ enforce_entry-same line key value target rest same in
          (
            line,
            key ∷ [],
            [],
            keeps,
            keeps,
            λ key' value' target' m' l'.
                let e = some_injective (sym m ∙ m') in
                sym (ap (λ p. p.1) e)
                ∙ (text_eq_iff value target).0 same
                ∙ some_injective (sym l ∙ ap (λ k. lookup k targets) (ap (λ p. p.0) e) ∙ l'),
          )
      | inr other ↦
          let (k, s) = good key target l in
          (
            assignment (key, target),
            key ∷ [],
            key ∷ [],
            λ rest.
                enforce_line-entry targets line key value target rest m l
                ∙ enforce_entry-other line key value target rest other,
            λ rest. enforce_line-assignment targets key target rest k s l,
            assignment-IsSettledLine targets key target k s l,
          )
    ]
