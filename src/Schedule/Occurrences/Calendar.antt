-- ===== src/Schedule/Occurrences/Calendar.antt =====
-- rules.py: the next occurrence of a daily or weekly rule is found within the days searched.
use minecraft_server_manager.Prelude.{
  ℕ, zero, suc, ◌+◌, ◌-◌, ◌*◌, ◌/◌, ◌%◌, ◌≤◌, ◌<◌, Bool, true, false, ◌&&◌, Option, some, ltb, ◌==◌,
  if◌then◌else◌, nat_eq, Bool-cases, Option-cases, ◌≡◌, refl, ap, sym, ◌∙◌, subst, arith, inl, inr,
}
use minecraft_server_manager.Prelude.Fallible.{done}
use minecraft_server_manager.Schedule.Rules.{Rule}
use minecraft_server_manager.Schedule.Occurrences.{
  Zone, hour_us, day_us, first_valid, time_of, at_local, weekday, allowed, search_day, or_cannot,
  local_day_of, next_calendar,
}

-- The offset of the zone's local time never grows by more than a day, as in every zone of the time
-- zone database.
abbrev pub IsSteady : Zone → Type 0
IsSteady z = (naive t : ℕ) → naive + t ≤ z.utc_of naive + z.local_of t + day_us

first_valid-late :
    (z : Zone) (naive extra tries t : ℕ)
    → first_valid z naive extra tries ≡ some t
    → (n : ℕ) × (naive ≤ n) × (t ≡ z.utc_of n)
unfolding first_valid
first_valid-late z naive extra zero t h = cc
first_valid-late z naive extra (suc tries) t h =
    elim (Bool-cases (z.local_of (z.utc_of (naive + extra * hour_us)) == naive + extra * hour_us)) [
      | inl valid ↦ (naive + extra * hour_us, omega arith, some_injective (sym (rw valid at h)))
      | inr gap ↦ first_valid-late z naive (extra + 1) tries t (rw gap at h)
    ]
  where
    some_injective : {a b : ℕ} → some a ≡ some b → a ≡ b
    some_injective e = cc

-- The instant of a day is that of a local time at or after the one wanted.
at_local-late :
    (z : Zone) (day : ℕ) (rule : Rule)
    → (n : ℕ) × (day + time_of rule ≤ n) × (at_local z day rule ≡ z.utc_of n)
unfolding at_local
at_local-late z day rule =
    let naive = day + time_of rule in
    elim (Bool-cases (z.local_of (z.utc_of naive) == naive)) [
      | inl valid ↦ (naive, omega arith, rw valid refl)
      | inr gap ↦ elim (Option-cases (first_valid z naive 1 3)) [
        | inl nothing ↦ (naive, omega arith, rw (gap, nothing) refl)
        | inr (t, found) ↦
            let (n, late, e) = first_valid-late z naive 1 3 t found in (n, late, rw (gap, found) e)
      ]
    ]

-- From the second day on, every day's instant comes after the reference.
at_local-after :
    (z : Zone) (rule : Rule) (reference offset : ℕ)
    → IsSteady z
    → 2 ≤ offset
    → reference < at_local z (local_day_of z reference + offset * day_us) rule
at_local-after z rule reference offset steady h =
    let (n, late, e) = at_local-late z (local_day_of z reference + offset * day_us) rule in
    let bound = steady n reference in subst (λ t. reference < t) (sym e) (omega arith)

day_start : (x d : ℕ) → (x - x % day_us + d * day_us) / day_us ≡ x / day_us + d
day_start x d = omega arith

reach_weekday : (q w : ℕ) → w < 7 → (d : ℕ) × (2 ≤ d) × (d ≤ 8) × ((q + d) % 7 ≡ w)
reach_weekday q w h = (2 + (w + 7 - (q + 2) % 7) % 7, omega arith, omega arith, omega arith)

-- Is a day of the search allowed, and its instant later than the reference?
abbrev pub is_due : Zone → Rule → ℕ → ℕ → ℕ → Bool
is_due z rule local_day reference d =
    allowed rule (weekday (local_day + d * day_us))
    && ltb reference (at_local z (local_day + d * day_us) rule)

-- The result of the search: the instant of the first day that is due.
abbrev pub IsFirstDue : Zone → Rule → ℕ → ℕ → ℕ → ℕ → Type 0
IsFirstDue z rule local_day reference offset t =
    (d : ℕ) × (offset ≤ d)
    × (is_due z rule local_day reference d ≡ true)
    × (t ≡ at_local z (local_day + d * day_us) rule)
    × ((e : ℕ) → offset ≤ e → e < d → is_due z rule local_day reference e ≡ false)

choose :
    (a b : Bool) (t : ℕ) (rest : Option ℕ)
    → (if a then (if b then some t else rest) else rest) ≡ (if a && b then some t else rest)
choose true b t rest = refl
choose false b t rest = refl

search_day-finds :
    (z : Zone) (rule : Rule) (local_day reference offset left d : ℕ)
    → offset ≤ d
    → d < offset + left
    → is_due z rule local_day reference d ≡ true
    → (t : ℕ) × (search_day z rule local_day reference offset left ≡ some t)
      × IsFirstDue z rule local_day reference offset t
unfolding search_day
search_day-finds z rule local_day reference offset zero d lo hi due = absurd (omega arith)
search_day-finds z rule local_day reference offset (suc left) d lo hi due =
    let day = local_day + offset * day_us in
    let step =
      choose (allowed rule (weekday day)) (ltb reference (at_local z day rule))
        (at_local z day rule) (search_day z rule local_day reference (offset + 1) left) in
    elim (Bool-cases (is_due z rule local_day reference offset)) [
      | inl now ↦ (
        at_local z day rule,
        step ∙ rw now refl,
        (offset, omega arith, now, refl, λ e a b. absurd (omega arith)),
      )
      | inr early ↦ elim (Bool-cases (d == offset)) [
        | inl same ↦
            let e : d ≡ offset = ground arith in
            let bad = sym due ∙ ap (is_due z rule local_day reference) e ∙ early in
            absurd (let no_bool = bad in cc)
        | inr later ↦
            let (t, found, (k, a, b, c, first)) =
              search_day-finds z rule local_day reference (offset + 1) left d (ground arith)
                (omega arith) due in
            (
              t,
              step ∙ rw early found,
              (
                k,
                omega arith,
                b,
                c,
                λ e lo' hi'. elim (Bool-cases (e == offset)) [
                  | inl same ↦
                      let eq : e ≡ offset = ground arith in
                      ap (is_due z rule local_day reference) eq ∙ early
                  | inr other ↦ first e (ground arith) hi'
                ],
              ),
            )
      ]
    ]

lt_true : (a b : ℕ) → a < b → ltb a b ≡ true
lt_true a b h = ground arith

-- A rule of any kind but an interval, with a day of the week that it allows, has a next occurrence
-- in every zone whose offset never grows by more than a day: the nine days searched are enough. It
-- comes after the reference, on an allowed day, and no earlier day of the search is due.
pub next_calendar-IsFirstDue :
    (z : Zone) (rule : Rule) (reference w : ℕ)
    → IsSteady z
    → w < 7
    → allowed rule w ≡ true
    → (t : ℕ) × (next_calendar z rule reference ≡ done t)
      × IsFirstDue z rule (local_day_of z reference) reference 0 t
      × (reference < t)
unfolding next_calendar
next_calendar-IsFirstDue z rule reference w steady small allows =
    let local_day = local_day_of z reference in
    let (d, lo, hi, e) = reach_weekday (z.local_of reference / day_us) w small in
    let at_weekday : weekday (local_day + d * day_us) ≡ w =
      ap (λ x. x % 7) (day_start (z.local_of reference) d) ∙ e in
    let late = lt_true _ _ (at_local-after z rule reference d steady lo) in
    let due : is_due z rule local_day reference d ≡ true =
      rw (ap (allowed rule) at_weekday, allows, late) refl in
    let (t, found, (k, a, b, c, first)) =
      search_day-finds z rule local_day reference 0 9 d (omega arith) (omega arith) due in
    (t, ap or_cannot found, (k, a, b, c, first), subst (λ u. reference < u) (sym c) (due_late _ b))
  where
    due_late : {n m : ℕ} (p : Bool) → (p && ltb n m) ≡ true → n < m
    due_late p h = ground arith
