-- ===== src/Schedule/Tests.antt =====
-- Rules and occurrences on concrete values.
use minecraft_server_manager.Prelude.{ℕ, ◌<◌, ◌≡◌, refl, true, none, some, [], ◌∷◌, codes, arith}
use minecraft_server_manager.Prelude.Int.{pos}
use minecraft_server_manager.Prelude.Fallible.{done}
use minecraft_server_manager.Schedule.Rules.{
  weekly, Rule, number, day_list, RawRule, Python, parse_rule, to_dict, interval_rule, timed_rule,
  to_int, all_days, check_days, days_of,
}
use minecraft_server_manager.Schedule.Rules.Stored.{KeepsNames, parse_rule_again}
use minecraft_server_manager.Schedule.Occurrences.{Zone, local_day_of, next_calendar}
use minecraft_server_manager.Schedule.Occurrences.Calendar.{
  IsSteady, IsFirstDue, next_calendar-IsFirstDue,
}

-- Texts as they are, no text a number, every zone known.
abbrev plain_python : Python
plain_python = record { upper = λ t. t; int_of_text = λ t. none; zone_known = λ t. true }

abbrev raw_weekly : RawRule
raw_weekly = record {
  raw_trigger = codes "WEEKLY";
  raw_timezone = none;
  raw_interval = none;
  raw_hour = some (number (pos 3));
  raw_minute = some (number (pos 30));
  raw_days = some (day_list (number (pos 3) ∷ number (pos 0) ∷ number (pos 3) ∷ []));
}

abbrev two_days : Rule
two_days = timed_rule weekly 3 30 (0 ∷ 3 ∷ []) (codes "UTC")

two_days_parsed : parse_rule plain_python (some raw_weekly) ≡ done two_days
unfolding parse_rule days_of to_int all_days check_days
two_days_parsed = refl

plain_names : KeepsNames plain_python
plain_names = λ kind. refl

parse_rule_again_example : parse_rule plain_python (some (to_dict two_days)) ≡ done two_days
parse_rule_again_example =
    parse_rule_again plain_python (some raw_weekly) plain_names two_days_parsed

abbrev every_ten : Rule
every_ten = interval_rule 10 (codes "UTC")

abbrev utc_zone : Zone
utc_zone = record { utc_of = λ t. t; local_of = λ t. t }

utc_zone-IsSteady : IsSteady utc_zone
utc_zone-IsSteady = λ naive t. omega arith

next_calendar-IsFirstDue_example :
    (t : ℕ) × (next_calendar utc_zone two_days 1000 ≡ done t)
    × IsFirstDue utc_zone two_days (local_day_of utc_zone 1000) 1000 0 t
    × (1000 < t)
next_calendar-IsFirstDue_example =
    next_calendar-IsFirstDue utc_zone two_days 1000 3 utc_zone-IsSteady (omega arith) refl
