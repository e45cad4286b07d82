-- ===== src/Schedule/Rules/Stored.antt =====
-- rules.py: a rule that was accepted is stored and read back as it is.
use minecraft_server_manager.Prelude.{
  ℕ, ◌≤◌, true, false, ◌&&◌, Option, some, List, [], ◌∷◌, leb, All, map, ◌≡◌, refl, ap, sym, arith,
}
use minecraft_server_manager.Prelude.Int.{pos}
use minecraft_server_manager.Prelude.Fallible.{done}
use minecraft_server_manager.Prelude.Trim.{is_empty}
use minecraft_server_manager.Schedule.Rules.{
  TriggerKind, interval, daily, weekly, Rule, day_list, RawRule, ScheduleError, Python,
  min_interval_minutes, max_interval_minutes, trigger_of, to_int, between, all_days, check_days,
  days_of, parse_interval, parse_timed, parse_kind, parse_rule, trigger_value, numbers, to_dict,
  invalid_day, invalid_time, interval_out_of_range,
}
use minecraft_server_manager.Schedule.Rules.Days.{AreDays, sorted_set-fixed}
use minecraft_server_manager.Schedule.Rules.Accepted.{IsRule, HasFields, parse_rule-IsRule}

between-keeps :
    (low high : ℕ) (error : ScheduleError) (n : ℕ)
    → low ≤ n
    → n ≤ high
    → between low high error (pos n) ≡ done n
between-keeps low high error n a b =
    let inside : (leb low n && leb n high) ≡ true = ground arith in rw inside refl

numbers-all : (py : Python) (ds : List ℕ) → all_days py (numbers ds) ≡ done (map pos ds)
unfolding all_days to_int
numbers-all py [] = refl
numbers-all py (d ∷ ds) = rw (numbers-all py ds) refl

check_days-keeps : (ds : List ℕ) → All (λ d. d ≤ 6) ds → check_days (map pos ds) ≡ done ds
unfolding check_days
check_days-keeps [] h = refl
check_days-keeps (d ∷ ds) h =
    rw (between-keeps 0 6 invalid_day d (omega arith) h.0, check_days-keeps ds h.1) refl

days_of-keeps :
    (py : Python) (ds : List ℕ)
    → AreDays ds
    → is_empty ds ≡ false
    → days_of py (some (day_list (numbers ds))) ≡ done ds
unfolding days_of
days_of-keeps py [] h full = cc
days_of-keeps py (d ∷ ds) h full =
    rw (numbers-all py (d ∷ ds), check_days-keeps (d ∷ ds) h.1)
      (ap done (sorted_set-fixed 0 (d ∷ ds) h.0))

-- `str.upper` keeps the three names, which are in capitals.
abbrev pub KeepsNames : Python → Type 0
KeepsNames py = (kind : TriggerKind) → py.upper (trigger_value kind) ≡ trigger_value kind

trigger_of-trigger_value : (kind : TriggerKind) → trigger_of (trigger_value kind) ≡ done kind
unfolding trigger_of trigger_value
trigger_of-trigger_value interval = refl
trigger_of-trigger_value daily = refl
trigger_of-trigger_value weekly = refl

parse_kind-to_dict :
    (py : Python) (r : Rule) (kind : TriggerKind)
    → HasFields kind r
    → parse_kind py (to_dict r) r.timezone kind ≡ done r
unfolding parse_interval parse_timed to_dict to_int
parse_kind-to_dict py r interval (lo, hi, e) =
    rw
      (between-keeps min_interval_minutes max_interval_minutes
        (interval_out_of_range (pos r.interval_minutes)) r.interval_minutes lo hi)
      (ap done (sym e))
parse_kind-to_dict py r daily (h, m, e) =
    rw
      (
        between-keeps 0 23 invalid_time r.hour (omega arith) h,
        between-keeps 0 59 invalid_time r.minute (omega arith) m,
      )
      (ap done (sym e))
parse_kind-to_dict py r weekly (h, m, full, are, e) =
    rw
      (
        between-keeps 0 23 invalid_time r.hour (omega arith) h,
        between-keeps 0 59 invalid_time r.minute (omega arith) m,
        days_of-keeps py r.days are full,
      )
      (ap done (sym e))

to_dict-parse :
    (py : Python) (r : Rule)
    → KeepsNames py
    → IsRule py r
    → parse_rule py (some (to_dict r)) ≡ done r
unfolding parse_rule to_dict
to_dict-parse py r names (known, full, fields) =
    rw (names r.trigger, trigger_of-trigger_value r.trigger, full, known)
      (parse_kind-to_dict py r r.trigger fields)

-- A rule that was accepted is read back as the same rule from the dict that to_dict stores of it.
pub parse_rule_again :
    (py : Python) (raw : Option RawRule) {r : Rule}
    → KeepsNames py
    → parse_rule py raw ≡ done r
    → parse_rule py (some (to_dict r)) ≡ done r
parse_rule_again py raw {r} names h = to_dict-parse py r names (parse_rule-IsRule py raw h)
