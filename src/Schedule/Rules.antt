-- ===== src/Schedule/Rules.antt =====
-- backend/msm/schedule/rules.py: the rules of the scheduled tasks, read and stored. `str.upper`,
-- `int` of a text and the knowledge of time zones are Python's and stand as parameters.
pub mod Days
pub mod Accepted
pub mod Stored
use minecraft_server_manager.Prelude.{
  ℕ, zero, suc, ◌+◌, ◌*◌, Bool, true, false, ◌&&◌, Option, none, some, List, [], ◌∷◌, ltb, leb,
  ◌==◌, if◌then◌else◌, Text, text_eq, codes, member, nat_eq, all,
}
use minecraft_server_manager.Prelude.Int.{ℤ, pos, negsuc}
use minecraft_server_manager.Prelude.Fallible.{Fallible, done, failed, ◌>>=◌}
use minecraft_server_manager.Prelude.Trim.{is_empty}

pub data TriggerKind : Type 0 where
  interval : TriggerKind
  daily : TriggerKind
  weekly : TriggerKind

pub record Rule : Type 0 where
  pub trigger : TriggerKind
  pub interval_minutes : ℕ
  pub hour : ℕ
  pub minute : ℕ
  pub days : List ℕ
  pub timezone : Text

-- A value that `int` is called on: a number, a text, or what it refuses.
pub data Scalar : Type 0 where
  number : ℤ → Scalar
  text : Text → Scalar
  other : Scalar

-- The value of the key "days": a list, or anything else.
pub data DaysValue : Type 0 where
  day_list : List Scalar → DaysValue
  not_a_list : DaysValue

-- A rule as the interface sends it or the database holds it. A key that is missing is `none`;
-- trigger and time zone are the texts that `str` makes of them.
pub record RawRule : Type 0 where
  pub raw_trigger : Text
  pub raw_timezone : Option Text
  pub raw_interval : Option Scalar
  pub raw_hour : Option Scalar
  pub raw_minute : Option Scalar
  pub raw_days : Option DaysValue

pub data ScheduleError : Type 0 where
  invalid_rule : ScheduleError
  unknown_trigger : Text → ScheduleError
  unknown_zone : Text → ScheduleError
  not_a_whole_number : ScheduleError
  interval_out_of_range : ℤ → ScheduleError
  invalid_time : ScheduleError
  no_day_selected : ScheduleError
  invalid_day : ScheduleError
  cannot_schedule : ScheduleError

pub record Python : Type 0 where
  pub upper : Text → Text
  pub int_of_text : Text → Option ℤ
  pub zone_known : Text → Bool

abbrev pub min_interval_minutes : ℕ
min_interval_minutes = 5

abbrev pub max_interval_minutes : ℕ
max_interval_minutes = 43200

abbrev pub utc : Text
utc = codes "UTC"

unfoldable pub trigger_of : Text → Fallible ScheduleError TriggerKind
trigger_of name =
    if text_eq name (codes "INTERVAL")
    then done interval
    else if text_eq name (codes "DAILY")
    then done daily
    else if text_eq name (codes "WEEKLY")
    then done weekly
    else failed (unknown_trigger name)

abbrev pub timezone_of : Option Text → Text
timezone_of none = utc
timezone_of (some name) = if is_empty name then utc else name

abbrev pub or_not_a_number : Option ℤ → Fallible ScheduleError ℤ
or_not_a_number none = failed not_a_whole_number
or_not_a_number (some n) = done n

-- `_int`
unfoldable pub to_int : Python → Scalar → Fallible ScheduleError ℤ
to_int py (number n) = done n
to_int py (text t) = or_not_a_number (py.int_of_text t)
to_int py other = failed not_a_whole_number

abbrev pub int_at : Python → Option Scalar → Fallible ScheduleError ℤ
int_at py none = failed not_a_whole_number
int_at py (some s) = to_int py s

-- `low <= n <= high` of a signed number that is then at least 0.
abbrev pub between : ℕ → ℕ → ScheduleError → ℤ → Fallible ScheduleError ℕ
between low high error (pos n) = if leb low n && leb n high then done n else failed error
between low high error (negsuc n) = failed error

unfoldable pub all_days : Python → List Scalar → Fallible ScheduleError (List ℤ)
all_days py [] = done []
all_days py (s ∷ ss) = do n ← to_int py s; ns ← all_days py ss; done (n ∷ ns)

unfoldable pub check_days : List ℤ → Fallible ScheduleError (List ℕ)
check_days [] = done []
check_days (n ∷ ns) = do day ← between 0 6 invalid_day n; rest ← check_days ns; done (day ∷ rest)

-- A day into a list in ascending order without repetition, and `sorted(set(days))`.
abbrev pub insert_day : ℕ → List ℕ → List ℕ
insert_day d [] = d ∷ []
insert_day d (e ∷ es) =
    let rest = insert_day d es in
    if ltb d e then d ∷ e ∷ es else if d == e then e ∷ es else e ∷ rest

abbrev pub sorted_set : List ℕ → List ℕ
sorted_set [] = []
sorted_set (d ∷ ds) = insert_day d (sorted_set ds)

unfoldable pub days_of : Python → Option DaysValue → Fallible ScheduleError (List ℕ)
days_of py none = failed no_day_selected
days_of py (some not_a_list) = failed no_day_selected
days_of py (some (day_list [])) = failed no_day_selected
days_of py (some (day_list (s ∷ ss))) = do
  numbers ← all_days py (s ∷ ss)
  days ← check_days numbers
  done (sorted_set days)

-- A missing minute is 0; a value that is there must be a number.
abbrev pub minute_of : Option Scalar → Option Scalar
minute_of none = some (number (pos 0))
minute_of (some s) = some s

-- The fields that a rule does not use have their defaults.
abbrev pub interval_rule : ℕ → Text → Rule
interval_rule minutes zone = record {
  trigger = interval;
  interval_minutes = minutes;
  hour = 4;
  minute = 0;
  days = [];
  timezone = zone;
}

abbrev pub timed_rule : TriggerKind → ℕ → ℕ → List ℕ → Text → Rule
timed_rule kind hour minute days zone = record {
  trigger = kind;
  interval_minutes = 60;
  hour = hour;
  minute = minute;
  days = days;
  timezone = zone;
}

unfoldable pub parse_interval : Python → RawRule → Text → Fallible ScheduleError Rule
parse_interval py raw zone = do
  n ← int_at py raw.raw_interval
  minutes ← between min_interval_minutes max_interval_minutes (interval_out_of_range n) n
  done (interval_rule minutes zone)

abbrev pub chosen_days : Python → TriggerKind → Option DaysValue → Fallible ScheduleError (List ℕ)
chosen_days py weekly raw = days_of py raw
chosen_days py kind raw = done []

-- Both numbers are read before either is compared.
unfoldable pub parse_timed : Python → TriggerKind → RawRule → Text → Fallible ScheduleError Rule
parse_timed py kind raw zone = do
  h ← int_at py raw.raw_hour
  m ← int_at py (minute_of raw.raw_minute)
  hour ← between 0 23 invalid_time h
  minute ← between 0 59 invalid_time m
  days ← chosen_days py kind raw.raw_days
  done (timed_rule kind hour minute days zone)

abbrev pub parse_kind : Python → RawRule → Text → TriggerKind → Fallible ScheduleError Rule
parse_kind py raw zone interval = parse_interval py raw zone
parse_kind py raw zone kind = parse_timed py kind raw zone

abbrev pub check_zone : Python → Text → Fallible ScheduleError Text
check_zone py zone = if py.zone_known zone then done zone else failed (unknown_zone zone)

-- `none` is a value that is not an object.
unfoldable pub parse_rule : Python → Option RawRule → Fallible ScheduleError Rule
unfolding trigger_of parse_interval parse_timed
parse_rule py none = failed invalid_rule
parse_rule py (some raw) = do
  kind ← trigger_of (py.upper raw.raw_trigger)
  zone ← check_zone py (timezone_of raw.raw_timezone)
  parse_kind py raw zone kind

unfoldable pub trigger_value : TriggerKind → Text
trigger_value interval = codes "INTERVAL"
trigger_value daily = codes "DAILY"
trigger_value weekly = codes "WEEKLY"

abbrev pub numbers : List ℕ → List Scalar
numbers [] = []
numbers (d ∷ ds) = number (pos d) ∷ numbers ds

unfoldable pub to_dict : Rule → RawRule
unfolding trigger_value
to_dict r = record {
  raw_trigger = trigger_value r.trigger;
  raw_timezone = some r.timezone;
  raw_interval = some (number (pos r.interval_minutes));
  raw_hour = some (number (pos r.hour));
  raw_minute = some (number (pos r.minute));
  raw_days = some (day_list (numbers r.days));
}
