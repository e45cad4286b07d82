-- ===== src/Core/Permissions.antt =====
-- backend/msm/core/permissions.py: atomic permissions, the roles, and the permissions they give.
-- A frozenset of permissions is its membership test.
pub mod Oversight
use minecraft_server_manager.Prelude.{Bool, true, false, ◌||◌, Option, none, some}

pub data Permission : Type 0 where
  server_view server_create server_edit server_delete server_register server_launch : Permission
  server_autostart server_members server_start server_stop server_restart server_kill : Permission
  console_read console_write console_dangerous player_view player_kick player_ban player_op :
      Permission
  player_kill player_give player_teleport file_read file_upload file_delete file_toggle : Permission
  config_read config_write properties_write event_run event_run_destructive event_edit : Permission
  backup_create backup_restore audit_view user_view user_ban user_manage settings_manage :
      Permission
  system_view : Permission

-- The global role of an account.
pub data Role : Type 0 where
  admin moderator user : Role

-- The role of an account on one server.
pub data ServerRole : Type 0 where
  owner server_admin viewer : ServerRole

abbrev pub PermissionSet : Type 0
PermissionSet = Permission → Bool

infixl 30 ◌∪◌
abbrev pub ◌∪◌ : PermissionSet → PermissionSet → PermissionSet
◌∪◌ a b p = a p || b p

abbrev nothing : PermissionSet
nothing p = false

-- `OPERATE_PERMISSIONS`
unfoldable pub operate_permissions : PermissionSet
operate_permissions server_view = true
operate_permissions server_edit = true
operate_permissions server_start = true
operate_permissions server_stop = true
operate_permissions server_restart = true
operate_permissions server_kill = true
operate_permissions console_read = true
operate_permissions console_write = true
operate_permissions console_dangerous = true
operate_permissions player_view = true
operate_permissions player_kick = true
operate_permissions player_ban = true
operate_permissions player_op = true
operate_permissions player_kill = true
operate_permissions player_give = true
operate_permissions player_teleport = true
operate_permissions file_read = true
operate_permissions file_upload = true
operate_permissions file_delete = true
operate_permissions file_toggle = true
operate_permissions config_read = true
operate_permissions config_write = true
operate_permissions properties_write = true
operate_permissions event_run = true
operate_permissions event_run_destructive = true
operate_permissions event_edit = true
operate_permissions backup_create = true
operate_permissions backup_restore = true
operate_permissions _ = false

abbrev ownership : PermissionSet
ownership server_delete = true
ownership server_members = true
ownership _ = false

abbrev view_only : PermissionSet
view_only server_view = true
view_only _ = false

-- `SERVER_ROLE_PERMISSIONS`
unfoldable pub server_role_permissions : ServerRole → PermissionSet
unfolding operate_permissions
server_role_permissions owner = operate_permissions ∪ ownership
server_role_permissions server_admin = operate_permissions
server_role_permissions viewer = view_only

abbrev admin_oversight : PermissionSet
admin_oversight server_view = true
admin_oversight server_stop = true
admin_oversight server_kill = true
admin_oversight server_delete = true
admin_oversight server_autostart = true
admin_oversight server_launch = true
admin_oversight server_register = true
admin_oversight _ = false

abbrev moderator_oversight : PermissionSet
moderator_oversight server_view = true
moderator_oversight server_stop = true
moderator_oversight server_kill = true
moderator_oversight _ = false

-- `OVERSIGHT_PERMISSIONS`
unfoldable pub oversight_permissions : Role → PermissionSet
oversight_permissions admin = admin_oversight
oversight_permissions moderator = moderator_oversight
oversight_permissions user = nothing

abbrev moderator_global : PermissionSet
moderator_global server_create = true
moderator_global audit_view = true
moderator_global user_view = true
moderator_global user_ban = true
moderator_global _ = false

abbrev create_only : PermissionSet
create_only server_create = true
create_only _ = false

-- `GLOBAL_PERMISSIONS` and `global_permissions`
unfoldable pub global_permissions : Role → PermissionSet
global_permissions admin = λ p. true
global_permissions moderator = moderator_global
global_permissions user = create_only

unfoldable pub server_permissions : Role → Option ServerRole → PermissionSet
unfolding oversight_permissions server_role_permissions
server_permissions role none = oversight_permissions role
server_permissions role (some r) = oversight_permissions role ∪ server_role_permissions r

unfoldable pub sees_every_server : Role → Bool
unfolding oversight_permissions
sees_every_server role = oversight_permissions role server_view
