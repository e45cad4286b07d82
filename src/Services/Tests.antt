-- ===== src/Services/Tests.antt =====
-- Quotas, ports and enforced properties on concrete values.
use minecraft_server_manager.Prelude.{
  any, ℕ, ◌≤◌, ◌≡◌, ◌⊎◌, refl, true, false, some, List, [], ◌∷◌, ◌++◌, All, member, nat_eq, Text,
  codes, decimal,
}
use minecraft_server_manager.Prelude.Fallible.{done, failed}
use minecraft_server_manager.Prelude.Trim.{strip, is_space}
use minecraft_server_manager.Services.Hosting.{
  default_quota, quota_from_dict, HostingSettings, no_free_port, allocate_port, Account, quota_for,
  quota_of_owner, Owned, memory_online, check_start, enforce_properties, wanted, match_line,
  is_key_char,
}
use minecraft_server_manager.Services.Hosting.Ports.{IsFirstFree, allocate_port_lem}
use minecraft_server_manager.Services.Hosting.Quotas.{launched, check_start-within}
use minecraft_server_manager.Services.Hosting.Lines.{IsSettledLine}
use minecraft_server_manager.Services.Hosting.Found.{sets_key}
use minecraft_server_manager.Services.Hosting.Enforced.{enforce_properties_twice}

abbrev two_ports : HostingSettings
two_ports = record { port_min = 25565; port_max = 25566; quota = default_quota }

allocate_port_lem_example :
    ((port : ℕ) × (allocate_port two_ports (25565 ∷ []) [] ≡ done port)
      × IsFirstFree ((25565 ∷ []) ++ []) 25565 port
      × (port ≤ 25566))
    ⊎ ((allocate_port two_ports (25565 ∷ []) [] ≡ failed (no_free_port 25565 25566))
        × ((p : ℕ) → 25565 ≤ p → p ≤ 25566 → member p ((25565 ∷ []) ++ []) ≡ true))
allocate_port_lem_example = allocate_port_lem two_ports (25565 ∷ []) []

second_port : allocate_port two_ports (25565 ∷ []) [] ≡ done 25566
unfolding allocate_port
second_port = refl

abbrev player : Account
player = record { is_admin = false; own_quota = [] }

abbrev small_server : Owned
small_server = record { memory_max_mb = 2048; is_running = true }

abbrev new_server : Owned
new_server = record { memory_max_mb = 4096; is_running = false }

player_quota : quota_of_owner two_ports (some player) ≡ some default_quota
unfolding quota_for quota_from_dict
player_quota = refl

granted_start :
    check_start two_ports (some player) (small_server ∷ new_server ∷ []) new_server ≡ done tt
unfolding check_start quota_for quota_from_dict
granted_start = refl

check_start-within_example : memory_online (small_server ∷ launched new_server ∷ []) ≤ 6144
check_start-within_example =
    check_start-within two_ports (some player) (small_server ∷ []) [] new_server default_quota 6144
      player_quota refl refl granted_start

abbrev own_lines : List Text
own_lines = codes "motd=Hello" ∷ codes " server-port = 25575" ∷ codes "enable-rcon:true" ∷ []

enforce_properties_twice_example :
    All (λ e. any (sets_key e.0) (enforce_properties own_lines 25566).1 ≡ true) (wanted 25566)
    × All (IsSettledLine (wanted 25566)) (enforce_properties own_lines 25566).1
    × (enforce_properties (enforce_properties own_lines 25566).1 25566
        ≡ ([], (enforce_properties own_lines 25566).1))
enforce_properties_twice_example = enforce_properties_twice own_lines 25566

-- A key before a colon is not seen, although Minecraft reads it.
abbrev colon_lines : List Text
colon_lines =
    codes "server-port=25566"
    ∷ codes "enable-rcon=false"
    ∷ codes "enable-query=false"
    ∷ codes "enable-rcon:true"
    ∷ []

colon_kept : (enforce_properties colon_lines 25566).0 ≡ []
unfolding enforce_properties wanted match_line is_key_char is_space strip decimal
colon_kept = refl
