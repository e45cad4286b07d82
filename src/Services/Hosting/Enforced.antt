-- ===== src/Services/Hosting/Enforced.antt =====
-- hosting_service.py: after enforce_properties every enforced key has its value, and a second call
-- changes nothing.
use minecraft_server_manager.Prelude.{
  any, ℕ, true, false, ◌||◌, some, List, [], ◌∷◌, ◌++◌, All, Text, text_eq, text_eq_iff, text_key,
  decimal, IsDigit, decimal-digits, Dict, lookup, member, Bool-cases, ◌≡◌, refl, ap, sym, ◌∙◌,
  subst, arith, inl, inr, append_assoc, append-nil,
}
use minecraft_server_manager.Prelude.Trim.{strip, is_space, is_empty, drop_while, rstrip}
use minecraft_server_manager.Services.Hosting.{
  is_key_char, wanted, assignment, Pass, enforce_line, enforce_lines, missing, assignments,
  entry_keys, enforce_properties,
}
use minecraft_server_manager.Services.Hosting.Lines.{
  IsKey, IsSettledLine, AreTargets, put, some_injective, line_fact, enforce_line-assignment,
  assignment-IsSettledLine,
}
use minecraft_server_manager.Services.Hosting.Found.{sets_key, enforce_lines-found}

abbrev settled_pass : Pass → Pass
settled_pass p = record p { changed = [] }

-- The lines of a first pass: a second pass finds the same keys and corrects none of them.
enforce_lines_again :
    (targets : Dict Text Text)
    → AreTargets targets
    → (lines : List Text)
    → (enforce_lines targets (enforce_lines targets lines).lines
        ≡ settled_pass (enforce_lines targets lines))
      × All (IsSettledLine targets) (enforce_lines targets lines).lines
unfolding enforce_lines
enforce_lines_again targets good [] = (refl, tt)
enforce_lines_again targets good (line ∷ lines) =
    let (line', found, changed, first, again, settled) = line_fact targets good line in
    let (ih, all_settled) = enforce_lines_again targets good lines in
    let pass = enforce_lines targets lines in
    (
      ap (λ p. enforce_lines targets p.lines) (first pass)
          ∙ again (enforce_lines targets pass.lines)
          ∙ ap (λ p. put line' found [] p) ih
          ∙ ap settled_pass (sym (first pass)),
      subst (λ p. All (IsSettledLine targets) p.lines) (sym (first pass)) (settled, all_settled),
    )

abbrev join : Pass → Pass → Pass
join p q = record {
  lines = p.lines ++ q.lines;
  found = p.found ++ q.found;
  changed = p.changed ++ q.changed;
}

enforce_lines-append :
    (targets : Dict Text Text)
    → AreTargets targets
    → (xs ys : List Text)
    → enforce_lines targets (xs ++ ys) ≡ join (enforce_lines targets xs) (enforce_lines targets ys)
unfolding enforce_lines
enforce_lines-append targets good [] ys = refl
enforce_lines-append targets good (line ∷ xs) ys =
    let (line', found, changed, first, again, settled) = line_fact targets good line in
    let pass = enforce_lines targets xs in
    let more = enforce_lines targets ys in
    ap (enforce_line targets line) (enforce_lines-append targets good xs ys)
    ∙ first (join pass more)
    ∙ ap
        (λ l. record {
          lines = line' ∷ (pass.lines ++ more.lines);
          found = l;
          changed = changed ++ (pass.changed ++ more.changed);
        })
        (sym (append_assoc found pass.found more.found))
    ∙ ap
        (λ l. record {
          lines = line' ∷ (pass.lines ++ more.lines);
          found = (found ++ pass.found) ++ more.found;
          changed = l;
        })
        (sym (append_assoc changed pass.changed more.changed))
    ∙ ap (λ p. join p more) (sym (first pass))

abbrev AreGood : Dict Text Text → Type 0
AreGood entries = All (λ e. IsKey e.0 × (strip e.1 ≡ e.1)) entries

AreGood-AreTargets : (entries : Dict Text Text) → AreGood entries → AreTargets entries
AreGood-AreTargets [] h key target l = absurd (let bad = l in cc)
AreGood-AreTargets ((k, v) ∷ entries) h key target l = elim (Bool-cases (text_eq key k)) [
  | inl same ↦
      let e = (text_eq_iff key k).0 same in
      let t : v ≡ target = some_injective (rw same at l) in
      (subst (λ j. IsKey j) (sym e) h.0.0, subst (λ u. strip u ≡ u) t h.0.1)
  | inr other ↦ AreGood-AreTargets entries h.1 key target (rw other at l)
]

-- Each of the entries is in the targets.
abbrev Holds : Dict Text Text → Dict Text Text → Type 0
Holds targets entries = All (λ e. lookup e.0 targets ≡ some e.1) entries

enforce_lines-assignments :
    (targets : Dict Text Text)
    → AreTargets targets
    → (entries : Dict Text Text) → Holds targets entries
    → (enforce_lines targets (assignments entries)
        ≡ record { lines = assignments entries; found = entry_keys entries; changed = [] })
      × All (IsSettledLine targets) (assignments entries)
unfolding enforce_lines
enforce_lines-assignments targets good [] h = (refl, tt)
enforce_lines-assignments targets good ((key, value) ∷ entries) h =
    let (ih, settled) = enforce_lines-assignments targets good entries h.1 in
    let (k, s) = good key value h.0 in
    (
      ap (enforce_line targets (assignment (key, value))) ih
          ∙ enforce_line-assignment targets key value _ k s h.0,
      (assignment-IsSettledLine targets key value k s h.0, settled),
    )

missing-Holds :
    (targets entries : Dict Text Text) (found : List Text)
    → Holds targets entries
    → Holds targets (missing entries found)
unfolding missing
missing-Holds targets [] found h = tt
missing-Holds targets ((key, value) ∷ entries) found h = elim (Bool-cases (member key found)) [
  | inl old ↦ rw (old, missing) (missing-Holds targets entries found h.1)
  | inr new ↦ rw (new, missing) (h.0, missing-Holds targets entries found h.1)
]

member-append : (k : Text) (xs ys : List Text) → member k (xs ++ ys) ≡ (member k xs || member k ys)
member-append k [] ys = refl
member-append k (x ∷ xs) ys = ground (arith, member-append k xs ys)

text_eq_self : (k : Text) → text_eq k k ≡ true
text_eq_self k = (text_eq_iff k k).1 refl

-- With the missing keys added, none is missing.
missing-covered :
    (entries : Dict Text Text) (found more : List Text)
    → ((k : Text) → member k (entry_keys (missing entries found)) ≡ true → member k more ≡ true)
    → missing entries (found ++ more) ≡ []
unfolding missing
missing-covered [] found more h = refl
missing-covered ((key, value) ∷ entries) found more h = elim (Bool-cases (member key found)) [
  | inl old ↦
      let here : member key (found ++ more) ≡ true =
        member-append key found more ∙ ap (λ b. b || member key more) old in
      rw here (missing-covered entries found more (λ k m. h k (rw (old, missing) m)))
  | inr new ↦
      let listed : member key more ≡ true = h key (rw (new, missing) (member_here key _)) in
      let here : member key (found ++ more) ≡ true = member-append key found more ∙ ground arith in
      rw here (
        missing-covered entries found more
          (λ k m. h k (rw (new, missing) (member_later k key _ m))))
]
  where
    member_here : (k : Text) (ks : List Text) → member k (k ∷ ks) ≡ true
    member_here k ks = rw (text_eq_self k) refl

    member_later : (k j : Text) (ks : List Text) → member k ks ≡ true → member k (j ∷ ks) ≡ true
    member_later k j ks h = ground arith

digit-solid : (c : ℕ) → IsDigit c → is_space c ≡ false
unfolding is_space
digit-solid c h = ground arith

strip-solid : (s : Text) → All IsDigit s → strip s ≡ s
unfolding strip
strip-solid s h = ap rstrip (starts s h) ∙ ends s h
  where
    starts : (s : Text) → All IsDigit s → drop_while is_space s ≡ s
    starts [] h = refl
    starts (c ∷ cs) h = rw (digit-solid c h.0) refl

    ends : (s : Text) → All IsDigit s → rstrip s ≡ s
    ends [] h = refl
    ends (c ∷ cs) h = elim (Bool-cases (is_empty cs)) [
      | inl one ↦ rw (ends cs h.1, digit-solid c h.0, one) refl
      | inr more ↦ rw (ends cs h.1, digit-solid c h.0, more) refl
    ]

wanted-AreGood : (port : ℕ) → AreGood (wanted port)
unfolding wanted is_key_char strip is_space
wanted-AreGood port = (
  ((refl, refl), strip-solid (decimal port) (decimal-digits port)),
  (((refl, refl), refl), (((refl, refl), refl), tt)),
)

wanted-Holds : (port : ℕ) → Holds (wanted port) (wanted port)
unfolding wanted
wanted-Holds port = (refl, (refl, (refl, tt)))

All-append : (P : Text → Type 0) (xs ys : List Text) → All P xs → All P ys → All P (xs ++ ys)
All-append P [] ys h k = k
All-append P (x ∷ xs) ys h k = (h.0, All-append P xs ys h.1 k)

-- Where no entry is missing, every key was found.
none_missing-found :
    (entries : Dict Text Text) (found : List Text)
    → missing entries found ≡ []
    → All (λ e. member e.0 found ≡ true) entries
unfolding missing
none_missing-found [] found h = tt
none_missing-found ((key, value) ∷ entries) found h = elim (Bool-cases (member key found)) [
  | inl old ↦ (old, none_missing-found entries found (rw (old, missing) at h))
  | inr new ↦ let bad = rw (new, missing) at h in cc
]

All-map :
    (P Q : Text × Text → Type 0)
    → ((e : Text × Text) → P e → Q e)
    → (entries : Dict Text Text) → All P entries
    → All Q entries
All-map P Q f [] h = tt
All-map P Q f (e ∷ entries) h = (f e h.0, All-map P Q f entries h.1)

-- Of the lines that the function itself reads as `key=value` (those that match_line accepts; a line
-- that separates the key by a colon or by a blank is not one of them, though Minecraft reads it): after
-- the call each of the three keys is set by such a line, no such line sets one of them to another value
-- than the one that is imposed, and a second call corrects nothing and leaves the lines as they are.
pub enforce_properties_twice :
    (lines : List Text) (port : ℕ)
    → All (λ e. any (sets_key e.0) (enforce_properties lines port).1 ≡ true) (wanted port)
      × All (IsSettledLine (wanted port)) (enforce_properties lines port).1
      × (enforce_properties (enforce_properties lines port).1 port
          ≡ ([], (enforce_properties lines port).1))
unfolding enforce_properties
enforce_properties_twice lines port =
    let targets = wanted port in
    let good = AreGood-AreTargets targets (wanted-AreGood port) in
    let pass = enforce_lines targets lines in
    let added = missing targets pass.found in
    let (again, settled) = enforce_lines_again targets good lines in
    let (new, new_settled) =
      enforce_lines-assignments targets good added
        (missing-Holds targets targets pass.found (wanted-Holds port)) in
    let second : enforce_lines targets (pass.lines ++ assignments added) ≡ record {
      lines = pass.lines ++ assignments added;
      found = pass.found ++ entry_keys added;
      changed = [];
    } =
      enforce_lines-append targets good pass.lines (assignments added)
      ∙ ap (λ p. join p (enforce_lines targets (assignments added))) again
      ∙ ap (λ p. join (settled_pass pass) p) new in
    let none_missing = missing-covered targets pass.found (entry_keys added) (λ k h. h) in
    let after = pass.lines ++ assignments added in
    let all_found =
      none_missing-found targets (enforce_lines targets after).found
        (ap (λ p. missing targets p.found) second ∙ none_missing) in
    (
      All-map _ _ (λ e h. enforce_lines-found targets e.0 after h) targets all_found,
      All-append _ pass.lines (assignments added) settled new_settled,
      ap
            (λ p. (
              p.changed ++ entry_keys (missing targets p.found),
              p.lines ++ assignments (missing targets p.found),
            ))
            second
          ∙ ap (λ m. (entry_keys m, (pass.lines ++ assignments added) ++ assignments m))
              none_missing
          ∙ ap (λ l. ([], l)) (append-nil (pass.lines ++ assignments added)),
    )
