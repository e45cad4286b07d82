-- ===== src/Schedule/Rules/Days.antt =====
-- rules.py: the days of a weekly rule, in order and without repetition.
use minecraft_server_manager.Prelude.{
  ℕ, suc, ◌≤◌, true, false, List, [], ◌∷◌, ltb, ◌==◌, All, Bool-cases, ◌≡◌, refl, ap, ◌∙◌, arith,
  inl, inr,
}
use minecraft_server_manager.Prelude.Trim.{is_empty}
use minecraft_server_manager.Schedule.Rules.{insert_day, sorted_set}

-- Days in ascending order, without repetition, all at least `low`.
abbrev pub IsAscending : ℕ → List ℕ → Type 0
IsAscending low [] = Unit
IsAscending low (d ∷ ds) = (low ≤ d) × IsAscending (suc d) ds

abbrev pub AreDays : List ℕ → Type 0
AreDays days = IsAscending 0 days × All (λ d. d ≤ 6) days

insert_day-IsAscending :
    (low d : ℕ) (ds : List ℕ) → low ≤ d → IsAscending low ds → IsAscending low (insert_day d ds)
insert_day-IsAscending low d [] h a = (h, tt)
insert_day-IsAscending low d (e ∷ es) h a = elim (Bool-cases (ltb d e)) [
  | inl less ↦ rw less (h, (ground arith, a.1))
  | inr more ↦ elim (Bool-cases (d == e)) [
    | inl same ↦ rw (more, same) a
    | inr other ↦ rw (more, other) (a.0, insert_day-IsAscending (suc e) d es (ground arith) a.1)
  ]
]

pub sorted_set-IsAscending : (ds : List ℕ) → IsAscending 0 (sorted_set ds)
sorted_set-IsAscending [] = tt
sorted_set-IsAscending (d ∷ ds) =
    insert_day-IsAscending 0 d (sorted_set ds) (omega arith) (sorted_set-IsAscending ds)

insert_day-first : (d : ℕ) (ds : List ℕ) → IsAscending (suc d) ds → insert_day d ds ≡ d ∷ ds
insert_day-first d [] a = refl
insert_day-first d (e ∷ es) a = let less : ltb d e ≡ true = ground arith in rw less refl

pub sorted_set-fixed : (low : ℕ) (ds : List ℕ) → IsAscending low ds → sorted_set ds ≡ ds
sorted_set-fixed low [] a = refl
sorted_set-fixed low (d ∷ ds) a =
    ap (insert_day d) (sorted_set-fixed (suc d) ds a.1) ∙ insert_day-first d ds a.1

insert_day-bound :
    (d : ℕ) (ds : List ℕ) → d ≤ 6 → All (λ e. e ≤ 6) ds → All (λ e. e ≤ 6) (insert_day d ds)
insert_day-bound d [] h a = (h, tt)
insert_day-bound d (e ∷ es) h a = elim (Bool-cases (ltb d e)) [
  | inl less ↦ rw less (h, a)
  | inr more ↦ elim (Bool-cases (d == e)) [
    | inl same ↦ rw (more, same) a
    | inr other ↦ rw (more, other) (a.0, insert_day-bound d es h a.1)
  ]
]

pub sorted_set-bound : (ds : List ℕ) → All (λ e. e ≤ 6) ds → All (λ e. e ≤ 6) (sorted_set ds)
sorted_set-bound [] a = tt
sorted_set-bound (d ∷ ds) a = insert_day-bound d (sorted_set ds) a.0 (sorted_set-bound ds a.1)

insert_day-full : (d : ℕ) (ds : List ℕ) → is_empty (insert_day d ds) ≡ false
insert_day-full d [] = refl
insert_day-full d (e ∷ es) = elim (Bool-cases (ltb d e)) [
  | inl less ↦ rw less refl
  | inr more ↦ elim (Bool-cases (d == e)) [
    | inl same ↦ rw (more, same) refl
    | inr other ↦ rw (more, other) refl
  ]
]

pub sorted_set-full : (ds : List ℕ) → is_empty (sorted_set ds) ≡ is_empty ds
sorted_set-full [] = refl
sorted_set-full (d ∷ ds) = insert_day-full d (sorted_set ds)
