-- ===== src/Schedule/Occurrences.antt =====
-- backend/msm/schedule/rules.py: the next occurrence of a rule. Instants and local times are whole
-- microseconds; a local time is counted from the start of a Monday. The conversions of a time zone
-- are zoneinfo's and stand as parameters.
pub mod Next
pub mod Calendar
use minecraft_server_manager.Prelude.{
  ℕ, zero, suc, ◌+◌, ◌-◌, ◌*◌, ◌/◌, ◌%◌, Bool, true, false, Option, none, some, List, [], ◌∷◌, ltb,
  leb, ◌==◌, if◌then◌else◌, member, nat_eq,
}
use minecraft_server_manager.Prelude.Fallible.{Fallible, done, failed}
use minecraft_server_manager.Schedule.Rules.{
  TriggerKind, interval, daily, weekly, Rule, ScheduleError, cannot_schedule,
}

-- `utc_of`: the instant of a local time, the first one if it comes twice; `local_of`: the local time
-- of an instant.
pub record Zone : Type 0 where
  pub utc_of : ℕ → ℕ
  pub local_of : ℕ → ℕ

abbrev pub minute_us : ℕ
minute_us = 60000000

abbrev pub hour_us : ℕ
hour_us = 3600000000

abbrev pub day_us : ℕ
day_us = 86400000000

-- The first hour, of those still to be tried, at which the local time exists.
unfoldable pub first_valid : Zone → ℕ → ℕ → ℕ → Option ℕ
first_valid z naive extra zero = none
first_valid z naive extra (suc tries) =
    let rest = first_valid z naive (extra + 1) tries in
    let shifted = naive + extra * hour_us in
    if z.local_of (z.utc_of shifted) == shifted then some (z.utc_of shifted) else rest

abbrev pub or_else : Option ℕ → ℕ → ℕ
or_else none n = n
or_else (some m) n = m

abbrev pub time_of : Rule → ℕ
time_of rule = rule.hour * hour_us + rule.minute * minute_us

unfoldable pub at_local : Zone → ℕ → Rule → ℕ
unfolding first_valid
at_local z day rule =
    let naive = day + time_of rule in
    if z.local_of (z.utc_of naive) == naive
    then z.utc_of naive
    else or_else (first_valid z naive 1 3) (z.utc_of naive)

abbrev pub anchor_of : Option ℕ → ℕ → ℕ
anchor_of none reference = reference
anchor_of (some last_run) reference = last_run

unfoldable pub next_interval : Rule → ℕ → Option ℕ → ℕ
next_interval rule reference last_run =
    let step = rule.interval_minutes * minute_us in
    let anchor = anchor_of last_run reference in
    if leb (anchor + step) reference
    then anchor + step * ((reference - anchor) / step + 1)
    else anchor + step

abbrev pub weekday : ℕ → ℕ
weekday day = (day / day_us) % 7

abbrev pub allowed : Rule → ℕ → Bool
allowed rule weekday = elim rule.trigger [ weekly ↦ member weekday rule.days | _ ↦ ltb weekday 7 ]

-- The loop over the offsets that are left.
unfoldable pub search_day : Zone → Rule → ℕ → ℕ → ℕ → ℕ → Option ℕ
search_day z rule local_day reference offset zero = none
search_day z rule local_day reference offset (suc left) =
    let rest = search_day z rule local_day reference (offset + 1) left in
    let day = local_day + offset * day_us in
    if allowed rule (weekday day)
    then (if ltb reference (at_local z day rule) then some (at_local z day rule) else rest)
    else rest

abbrev pub or_cannot : Option ℕ → Fallible ScheduleError ℕ
or_cannot none = failed cannot_schedule
or_cannot (some t) = done t

abbrev pub local_day_of : Zone → ℕ → ℕ
local_day_of z reference = z.local_of reference - z.local_of reference % day_us

unfoldable pub next_calendar : Zone → Rule → ℕ → Fallible ScheduleError ℕ
unfolding search_day
next_calendar z rule reference =
    or_cannot (search_day z rule (local_day_of z reference) reference 0 9)

abbrev pub next_of : TriggerKind → Zone → Rule → ℕ → Option ℕ → Fallible ScheduleError ℕ
next_of interval z rule reference last_run = done (next_interval rule reference last_run)
next_of kind z rule reference last_run = next_calendar z rule reference

unfoldable pub next_occurrence : Zone → Rule → ℕ → Option ℕ → Fallible ScheduleError ℕ
unfolding next_interval next_calendar
next_occurrence z rule reference last_run = next_of rule.trigger z rule reference last_run
