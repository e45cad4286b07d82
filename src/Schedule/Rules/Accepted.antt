-- ===== src/Schedule/Rules/Accepted.antt =====
-- rules.py: what holds of a rule that was accepted.
use minecraft_server_manager.Prelude.{
  ℕ, ◌≤◌, true, false, ◌&&◌, Option, none, some, List, [], ◌∷◌, leb, All, Text, Bool-cases, ◌≡◌,
  ◌≢◌, refl, ap, sym, ◌∙◌, subst, arith, inl, inr,
}
use minecraft_server_manager.Prelude.Int.{ℤ, pos, negsuc}
use minecraft_server_manager.Prelude.Fallible.{Fallible, done, >>=-done, done_injective}
use minecraft_server_manager.Prelude.Trim.{is_empty}
use minecraft_server_manager.Schedule.Rules.{
  TriggerKind, interval, daily, weekly, Rule, Scalar, DaysValue, day_list, not_a_list, RawRule,
  ScheduleError, Python, min_interval_minutes, max_interval_minutes, trigger_of, timezone_of,
  to_int, int_at, between, all_days, check_days, days_of, minute_of, interval_rule, timed_rule,
  parse_interval, chosen_days, parse_timed, parse_kind, check_zone, parse_rule, invalid_day,
  invalid_time,
}
use minecraft_server_manager.Schedule.Rules.Days.{
  AreDays, sorted_set-IsAscending, sorted_set-bound, sorted_set-full,
}

-- What the fields of a rule hold, by its kind.
abbrev pub HasFields : TriggerKind → Rule → Type 0
HasFields interval r =
    (min_interval_minutes ≤ r.interval_minutes)
    × (r.interval_minutes ≤ max_interval_minutes)
    × (r ≡ interval_rule r.interval_minutes r.timezone)
HasFields daily r =
    (r.hour ≤ 23) × (r.minute ≤ 59) × (r ≡ timed_rule daily r.hour r.minute [] r.timezone)
HasFields weekly r =
    (r.hour ≤ 23)
    × (r.minute ≤ 59)
    × (is_empty r.days ≡ false)
    × AreDays r.days
    × (r ≡ timed_rule weekly r.hour r.minute r.days r.timezone)

abbrev pub IsRule : Python → Rule → Type 0
IsRule py r =
    (py.zone_known r.timezone ≡ true) × (is_empty r.timezone ≡ false) × HasFields r.trigger r

between-done :
    (low high : ℕ) (error : ScheduleError) (n : ℤ) {m : ℕ}
    → between low high error n ≡ done m
    → (low ≤ m) × (m ≤ high)
between-done low high error (negsuc n) h = cc
between-done low high error (pos n) {m} h = elim (Bool-cases (leb low n && leb n high)) [
  | inl inside ↦
      let same : n ≡ m = done_injective (rw inside at h) in rw (← same) (ground arith, ground arith)
  | inr outside ↦ let bad = rw outside at h in cc
]
  where
    done_injective : {a b : ℕ} → ◌≡◌ {A = Fallible ScheduleError ℕ} (done a) (done b) → a ≡ b
    done_injective e = cc

check_days-bound :
    (ns : List ℤ) {ds : List ℕ}
    → check_days ns ≡ done ds
    → All (λ d. d ≤ 6) ds × (is_empty ds ≡ is_empty ns)
unfolding check_days
check_days-bound [] h =
    subst (λ l. All (λ d. d ≤ 6) l × (is_empty l ≡ true)) (done_injective h) (tt, refl)
check_days-bound (n ∷ ns) h =
    let (day, a, h1) = >>=-done (between 0 6 invalid_day n) _ h in
    let (rest, b, h2) = >>=-done (check_days ns) _ h1 in
    let ih = check_days-bound ns b in
    subst (λ l. All (λ d. d ≤ 6) l × (is_empty l ≡ false)) (done_injective h2)
      (((between-done 0 6 invalid_day n a).1, ih.0), refl)

all_days-full :
    (py : Python) (s : Scalar) (ss : List Scalar) {ns : List ℤ}
    → all_days py (s ∷ ss) ≡ done ns
    → is_empty ns ≡ false
unfolding all_days
all_days-full py s ss h =
    let (n, a, h1) = >>=-done (to_int py s) _ h in
    let (rest, b, h2) = >>=-done (all_days py ss) _ h1 in
    subst (λ l. is_empty l ≡ false) (done_injective h2) refl

days_of-AreDays :
    (py : Python) (raw : Option DaysValue) {ds : List ℕ}
    → days_of py raw ≡ done ds
    → AreDays ds × (is_empty ds ≡ false)
unfolding days_of
days_of-AreDays py none h = cc
days_of-AreDays py (some not_a_list) h = cc
days_of-AreDays py (some (day_list [])) h = cc
days_of-AreDays py (some (day_list (s ∷ ss))) h =
    let (ns, a, h1) = >>=-done (all_days py (s ∷ ss)) _ h in
    let (ds, b, h2) = >>=-done (check_days ns) _ h1 in
    let (bound, full) = check_days-bound ns b in
    subst (λ l. AreDays l × (is_empty l ≡ false)) (done_injective h2)
      (
        (sorted_set-IsAscending ds, sorted_set-bound ds bound),
        sorted_set-full ds ∙ full ∙ all_days-full py s ss a,
      )

parse_interval-HasFields :
    (py : Python) (raw : RawRule) (zone : Text) {r : Rule}
    → parse_interval py raw zone ≡ done r
    → HasFields r.trigger r × (r.timezone ≡ zone)
unfolding parse_interval
parse_interval-HasFields py raw zone h =
    let (n, a, h1) = >>=-done (int_at py raw.raw_interval) _ h in
    let (minutes, b, h2) = >>=-done (between min_interval_minutes max_interval_minutes _ n) _ h1 in
    let (lo, hi) = between-done min_interval_minutes max_interval_minutes _ n b in
    subst (λ r. HasFields r.trigger r × (r.timezone ≡ zone)) (done_injective h2)
      ((lo, hi, refl), refl)

parse_timed-HasFields :
    (py : Python) (kind : TriggerKind) (raw : RawRule) (zone : Text) {r : Rule}
    → kind ≢ interval
    → parse_timed py kind raw zone ≡ done r
    → HasFields r.trigger r × (r.timezone ≡ zone)
unfolding parse_timed
parse_timed-HasFields py kind raw zone timed h =
    let (hh, a, h1) = >>=-done (int_at py raw.raw_hour) _ h in
    let (mm, b, h2) = >>=-done (int_at py (minute_of raw.raw_minute)) _ h1 in
    let (hour, c, h3) = >>=-done (between 0 23 invalid_time hh) _ h2 in
    let (minute, d, h4) = >>=-done (between 0 59 invalid_time mm) _ h3 in
    let (days, e, h5) = >>=-done (chosen_days py kind raw.raw_days) _ h4 in
    subst (λ r. HasFields r.trigger r × (r.timezone ≡ zone)) (done_injective h5)
      (
        fields kind timed hour minute days (between-done 0 23 invalid_time hh c).1
            (between-done 0 59 invalid_time mm d).1 e,
        refl,
      )
  where
    fields :
        (kind : TriggerKind)
        → kind ≢ interval
        → (hour minute : ℕ) (days : List ℕ) → hour ≤ 23
        → minute ≤ 59
        → chosen_days py kind raw.raw_days ≡ done days
        → HasFields kind (timed_rule kind hour minute days zone)
    fields interval timed hour minute days a b e = absurd (timed refl)
    fields daily timed hour minute days a b e =
        (a, b, ap (λ l. timed_rule daily hour minute l zone) (sym (done_injective e)))
    fields weekly timed hour minute days a b e =
        let (are, full) = days_of-AreDays py raw.raw_days e in (a, b, full, are, refl)

timezone_of-full : (raw : Option Text) → is_empty (timezone_of raw) ≡ false
timezone_of-full none = refl
timezone_of-full (some name) = elim (Bool-cases (is_empty name)) [
  | inl nothing ↦ rw nothing refl
  | inr full ↦ rw (full, full) refl
]

check_zone-done :
    (py : Python) (zone : Text) {z : Text}
    → check_zone py zone ≡ done z
    → (py.zone_known zone ≡ true) × (zone ≡ z)
check_zone-done py zone h = elim (Bool-cases (py.zone_known zone)) [
  | inl known ↦ (known, done_injective (rw known at h))
  | inr strange ↦ let bad = rw strange at h in cc
]

parse_kind-HasFields :
    (py : Python) (raw : RawRule) (zone : Text) (kind : TriggerKind) {r : Rule}
    → parse_kind py raw zone kind ≡ done r
    → HasFields r.trigger r × (r.timezone ≡ zone)
parse_kind-HasFields py raw zone interval h = parse_interval-HasFields py raw zone h
parse_kind-HasFields py raw zone daily h = parse_timed-HasFields py daily raw zone (λ e. cc) h
parse_kind-HasFields py raw zone weekly h = parse_timed-HasFields py weekly raw zone (λ e. cc) h

-- A rule that is accepted, from whatever input, is of a known time zone and within the bounds of
-- its kind: an interval of 5 to 43200 minutes, or a time of day, and for a weekly rule at least one
-- day, in ascending order without repetition, all from 0 to 6.
pub parse_rule-IsRule :
    (py : Python) (raw : Option RawRule) {r : Rule} → parse_rule py raw ≡ done r → IsRule py r
unfolding parse_rule
parse_rule-IsRule py none h = cc
parse_rule-IsRule py (some raw) h =
    let (kind, a, h1) = >>=-done (trigger_of (py.upper raw.raw_trigger)) _ h in
    let (zone, b, h2) = >>=-done (check_zone py (timezone_of raw.raw_timezone)) _ h1 in
    let (known, same) = check_zone-done py (timezone_of raw.raw_timezone) b in
    let (fields, at_zone) = parse_kind-HasFields py raw zone kind h2 in
    let zone_is = same ∙ sym at_zone in
    (
      subst (λ t. py.zone_known t ≡ true) zone_is known,
      subst (λ t. is_empty t ≡ false) zone_is (timezone_of-full raw.raw_timezone),
      fields,
    )
