-- ===== src/Services/Hosting/Found.antt =====
-- hosting_service.py: a key that enforce_properties finds is set by a line of the file.
use minecraft_server_manager.Prelude.{
  Bool, true, false, ◌||◌, Option, none, some, List, [], ◌∷◌, Text, text_eq, text_key, Dict, lookup,
  Bool-cases, ◌≡◌, refl, inl, inr, ◌⊎◌, any, member,
}
use minecraft_server_manager.Services.Hosting.{
  match_line, Pass, enforce_entry, enforce_known, enforce_match, enforce_line, enforce_lines,
}

-- Does a line set a key?
abbrev pub sets_match : Text → Option (Text × Text) → Bool
sets_match key none = false
sets_match key (some (k, v)) = text_eq key k

abbrev pub sets_key : Text → Text → Bool
sets_key key line = sets_match key (match_line line)

enforce_entry-found :
    (key line k value target : Text) (rest : Pass)
    → member key (enforce_entry line k value target rest).found ≡ true
    → (text_eq key k ≡ true) ⊎ (member key rest.found ≡ true)
enforce_entry-found key line k value target rest h = elim (Bool-cases (text_eq value target)) [
  | inl same ↦ either (text_eq key k) _ (rw same at h)
  | inr other ↦ either (text_eq key k) _ (rw other at h)
]
  where
    either : (a b : Bool) → (a || b) ≡ true → (a ≡ true) ⊎ (b ≡ true)
    either true b e = inl refl
    either false b e = inr e

enforce_known-found :
    (key line k value : Text) (target : Option Text) (rest : Pass)
    → member key (enforce_known line k value target rest).found ≡ true
    → (text_eq key k ≡ true) ⊎ (member key rest.found ≡ true)
enforce_known-found key line k value none rest h = inr h
enforce_known-found key line k value (some target) rest h =
    enforce_entry-found key line k value target rest h

enforce_match-found :
    (targets : Dict Text Text) (key line : Text) (m : Option (Text × Text)) (rest : Pass)
    → member key (enforce_match targets line m rest).found ≡ true
    → (sets_match key m ≡ true) ⊎ (member key rest.found ≡ true)
enforce_match-found targets key line none rest h = inr h
enforce_match-found targets key line (some (k, value)) rest h =
    enforce_known-found key line k value (lookup k targets) rest h

-- A key that was found is one that a line sets.
pub enforce_lines-found :
    (targets : Dict Text Text) (key : Text) (lines : List Text)
    → member key (enforce_lines targets lines).found ≡ true
    → any (sets_key key) lines ≡ true
unfolding enforce_lines enforce_line
enforce_lines-found targets key [] h = cc
enforce_lines-found targets key (line ∷ lines) h =
    elim (enforce_match-found targets key line (match_line line) (enforce_lines targets lines) h) [
      | inl here ↦ rw here refl
      | inr later ↦
          let rest = enforce_lines-found targets key lines later in
          or_right (sets_key key line) rest
    ]
  where
    or_right : (a : Bool) {b : Bool} → b ≡ true → (a || b) ≡ true
    or_right true e = refl
    or_right false e = e
