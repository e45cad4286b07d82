-- ===== src/Services/Hosting.antt =====
-- backend/msm/services/hosting_service.py: quotas, ports and enforced properties of the servers that
-- accounts create. What the database and the supervisor answer is an argument.
pub mod Ports
pub mod Lines
pub mod Found
pub mod Enforced
pub mod Quotas
use minecraft_server_manager.Prelude.{
  ℕ, zero, suc, ◌+◌, ◌-◌, Bool, true, false, ◌&&◌, ◌||◌, not, Option, none, some, List, [], ◌∷◌,
  ◌++◌, ltb, leb, ◌==◌, if◌then◌else◌, Text, text_key, text_eq, codes, decimal, is_digit, Dict,
  lookup, member, add, nat_eq, is_some,
}
use minecraft_server_manager.Prelude.Fallible.{Fallible, done, failed, ◌>>=◌, ◌>>◌}
use minecraft_server_manager.Prelude.Trim.{strip, is_space, is_empty, drop_while}

-- Limits of an account; `none` is no limit.
pub record Quota : Type 0 where
  pub max_servers : Option ℕ
  pub max_memory_per_server_mb : Option ℕ
  pub max_memory_total_mb : Option ℕ
  pub max_disk_mb : Option ℕ

abbrev pub default_quota : Quota
default_quota = record {
  max_servers = some 2;
  max_memory_per_server_mb = some 4096;
  max_memory_total_mb = some 6144;
  max_disk_mb = some 20480;
}

-- A key that is there sets the limit, null included; another keeps it.
abbrev pub override : Option (Option ℕ) → Option ℕ → Option ℕ
override none base = base
override (some value) base = value

-- `Quota.from_dict`: a missing dict is an empty one, a missing base the default.
unfoldable pub quota_from_dict : Dict Text (Option ℕ) → Quota → Quota
quota_from_dict given base = record {
  max_servers = override (lookup (codes "max_servers") given) base.max_servers;
  max_memory_per_server_mb =
      override (lookup (codes "max_memory_per_server_mb") given) base.max_memory_per_server_mb;
  max_memory_total_mb =
      override (lookup (codes "max_memory_total_mb") given) base.max_memory_total_mb;
  max_disk_mb = override (lookup (codes "max_disk_mb") given) base.max_disk_mb;
}

pub record HostingSettings : Type 0 where
  pub port_min : ℕ
  pub port_max : ℕ
  pub quota : Quota

pub data HostingError : Type 0 where
  invalid_port_range : HostingError
  no_free_port : ℕ → ℕ → HostingError
  server_limit_reached : ℕ → HostingError
  too_much_memory : ℕ → HostingError
  not_enough_memory_left : ℕ → ℕ → HostingError
  disk_space_used_up : ℕ → HostingError

-- The guard of `save`.
unfoldable pub check_port_range : HostingSettings → Fallible HostingError (Unit {0})
check_port_range h =
    if leb 1024 h.port_min && leb h.port_min h.port_max && leb h.port_max 65535
    then done tt
    else failed invalid_port_range

-- The loop over `range(first, first + count)`.
unfoldable pub first_free : List ℕ → ℕ → ℕ → Option ℕ
first_free used first zero = none
first_free used first (suc count) =
    let rest = first_free used (first + 1) count in if member first used then rest else some first

abbrev pub or_no_port : HostingSettings → Option ℕ → Fallible HostingError ℕ
or_no_port h none = failed (no_free_port h.port_min h.port_max)
or_no_port h (some port) = done port

-- The ports of the servers and those reserved are one list.
unfoldable pub allocate_port : HostingSettings → List ℕ → List ℕ → Fallible HostingError ℕ
unfolding first_free
allocate_port h used reserved =
    or_no_port h (first_free (used ++ reserved) h.port_min (h.port_max + 1 - h.port_min))

pub record Account : Type 0 where
  pub is_admin : Bool
  pub own_quota : Dict Text (Option ℕ)

unfoldable pub quota_for : HostingSettings → Account → Option Quota
quota_for h user = if user.is_admin then none else some (quota_from_dict user.own_quota h.quota)

abbrev pub within : Option ℕ → (ℕ → Bool) → (ℕ → HostingError) → Fallible HostingError (Unit {0})
within none exceeds error = done tt
within (some limit) exceeds error = if exceeds limit then failed (error limit) else done tt

unfoldable pub check_memory : Quota → ℕ → Fallible HostingError (Unit {0})
check_memory q memory_max_mb =
    within q.max_memory_per_server_mb (λ limit. ltb limit memory_max_mb) too_much_memory

abbrev pub check_quota_creation : Option Quota → ℕ → ℕ → ℕ → Fallible HostingError (Unit {0})
check_quota_creation none owned pending memory_max_mb = done tt
check_quota_creation (some q) owned pending memory_max_mb =
    within q.max_servers (λ limit. leb limit (owned + pending)) server_limit_reached
    >> check_memory q memory_max_mb

-- `owned` is the number of servers that the account has.
unfoldable pub check_creation :
    HostingSettings → Account → ℕ → ℕ → ℕ → Fallible HostingError (Unit {0})
unfolding check_memory
check_creation h user owned pending memory_max_mb =
    check_quota_creation (quota_for h user) owned pending memory_max_mb

-- A server of an account, as the checks read it: its maximal memory, 0 if unset, and whether its
-- runtime is running.
pub record Owned : Type 0 where
  pub memory_max_mb : ℕ
  pub is_running : Bool

-- `usage_of(...).memory_online_mb`
unfoldable pub memory_online : List Owned → ℕ
memory_online [] = 0
memory_online (s ∷ ss) =
    let rest = memory_online ss in if s.is_running then s.memory_max_mb + rest else rest

abbrev pub check_total : Option Quota → ℕ → Fallible HostingError (Unit {0})
check_total none needed = done tt
check_total (some q) needed =
    within q.max_memory_total_mb (λ limit. ltb limit needed) (not_enough_memory_left needed)

abbrev pub quota_of_owner : HostingSettings → Option Account → Option Quota
quota_of_owner h none = none
quota_of_owner h (some owner) = quota_for h owner

unfoldable pub check_start :
    HostingSettings → Option Account → List Owned → Owned → Fallible HostingError (Unit {0})
unfolding memory_online
check_start h owner owned server =
    check_total (quota_of_owner h owner) (memory_online owned + server.memory_max_mb)

abbrev pub check_used : Option Quota → ℕ → Fallible HostingError (Unit {0})
check_used none used = done tt
check_used (some q) used = within q.max_disk_mb (λ limit. leb limit used) disk_space_used_up

-- `used` is what disk_mb measures, in whole megabytes.
unfoldable pub check_disk : HostingSettings → Option Account → ℕ → Fallible HostingError (Unit {0})
check_disk h owner used = check_used (quota_of_owner h owner) used

-- `[A-Za-z0-9.\-]`
unfoldable pub is_key_char : ℕ → Bool
is_key_char c =
    (leb 65 c && leb c 90) || (leb 97 c && leb c 122) || is_digit c || (c == 46) || (c == 45)

abbrev pub take_while : (ℕ → Bool) → Text → Text
take_while p [] = []
take_while p (c ∷ cs) = let rest = take_while p cs in if p c then c ∷ rest else []

abbrev pub after_equals : Text → Text → Option (Text × Text)
after_equals key [] = none
after_equals key (c ∷ cs) = if c == 61 then some (key, strip cs) else none

-- `^\s*([A-Za-z0-9.\-]+)\s*=\s*(.*)$`: the key, and the value without blanks around it.
unfoldable pub match_line : Text → Option (Text × Text)
match_line line =
    let text = drop_while is_space line in
    let key = take_while is_key_char text in
    if is_empty key
    then none
    else after_equals key (drop_while is_space (drop_while is_key_char text))

unfoldable pub wanted : ℕ → Dict Text Text
wanted port =
    (codes "server-port", decimal port)
    ∷ (codes "enable-rcon", codes "false")
    ∷ (codes "enable-query", codes "false")
    ∷ []

abbrev pub assignment : Text × Text → Text
assignment (key, value) = key ++ 61 ∷ value

-- The lines, the keys found and the keys corrected, so far.
pub record Pass : Type 0 where
  pub lines : List Text
  pub found : List Text
  pub changed : List Text

-- A line with an enforced key: kept if it has the value, replaced otherwise.
abbrev pub enforce_entry : Text → Text → Text → Text → Pass → Pass
enforce_entry line key value target rest =
    if text_eq value target
    then record rest { lines = line ∷ rest.lines; found = key ∷ rest.found }
    else record {
      lines = assignment (key, target) ∷ rest.lines;
      found = key ∷ rest.found;
      changed = key ∷ rest.changed;
    }

abbrev pub keep_line : Text → Pass → Pass
keep_line line rest = record rest { lines = line ∷ rest.lines }

abbrev pub enforce_known : Text → Text → Text → Option Text → Pass → Pass
enforce_known line key value none rest = keep_line line rest
enforce_known line key value (some target) rest = enforce_entry line key value target rest

abbrev pub enforce_match : Dict Text Text → Text → Option (Text × Text) → Pass → Pass
enforce_match targets line none rest = keep_line line rest
enforce_match targets line (some (key, value)) rest =
    enforce_known line key value (lookup key targets) rest

unfoldable pub enforce_line : Dict Text Text → Text → Pass → Pass
enforce_line targets line rest = enforce_match targets line (match_line line) rest

unfoldable pub enforce_lines : Dict Text Text → List Text → Pass
enforce_lines targets [] = record { lines = []; found = []; changed = [] }
enforce_lines targets (line ∷ lines) = enforce_line targets line (enforce_lines targets lines)

-- The entries whose key was not found.
unfoldable pub missing : Dict Text Text → List Text → Dict Text Text
missing [] found = []
missing ((key, value) ∷ targets) found =
    let rest = missing targets found in if member key found then rest else (key, value) ∷ rest

abbrev pub assignments : Dict Text Text → List Text
assignments [] = []
assignments (entry ∷ entries) = assignment entry ∷ assignments entries

abbrev pub entry_keys : Dict Text Text → List Text
entry_keys [] = []
entry_keys ((key, value) ∷ entries) = key ∷ entry_keys entries

-- The keys corrected and the lines of the file after it; the file is written if a key was.
unfoldable pub enforce_properties : List Text → ℕ → List Text × List Text
unfolding enforce_line enforce_lines missing
enforce_properties lines port =
    let targets = wanted port in
    let pass = enforce_lines targets lines in
    let added = missing targets pass.found in
    (pass.changed ++ entry_keys added, pass.lines ++ assignments added)
