-- ===== src/Core/Permissions/Oversight.antt =====
-- What each pair of roles may do on a server (core/permissions.py).
use minecraft_server_manager.Prelude.{◌≡◌, ◌⊎◌, ◌↔◌, true, Option, none, some, ◌||◌, is_some, arith}
use minecraft_server_manager.Core.Permissions.{
  Permission, Role, ServerRole, admin, moderator, user, owner, server_admin, viewer, server_view,
  server_stop, server_kill, server_members, operate_permissions, server_permissions,
  sees_every_server,
}

-- Without a role on a server, no account holds more of the operating permissions on it (editing,
-- starting, console, players, files, backups...) than seeing, stopping and killing it, whatever its
-- global role.
pub stranger_cannot_operate :
    (role : Role) (p : Permission)
    → operate_permissions p ≡ true
    → server_permissions role none p ≡ true
    → (p ≡ server_view) ⊎ ((p ≡ server_stop) ⊎ (p ≡ server_kill))
unfolding operate_permissions server_permissions
stranger_cannot_operate admin p h k = ground arith
stranger_cannot_operate moderator p h k = ground arith
stranger_cannot_operate user p h k = ground arith

-- An account may share a server exactly when it owns it, whatever its global role.
pub only_owner_shares :
    (role : Role) (r : Option ServerRole)
    → (server_permissions role r server_members ≡ true) ↔ (r ≡ some owner)
unfolding server_permissions
only_owner_shares admin r = (λ h. ground arith, λ h. ground arith)
only_owner_shares moderator r = (λ h. ground arith, λ h. ground arith)
only_owner_shares user r = (λ h. ground arith, λ h. ground arith)

-- An account sees a server exactly when it has a role on it or its global role sees every server.
pub server_view_iff :
    (role : Role) (r : Option ServerRole)
    → server_permissions role r server_view ≡ (is_some r || sees_every_server role)
unfolding server_permissions sees_every_server
server_view_iff admin r = ground arith
server_view_iff moderator r = ground arith
server_view_iff user r = ground arith

-- On a server a viewer can do no more than its admin, and an admin no more than its owner, with
-- any global role.
pub server_roles_nested :
    (role : Role) (p : Permission)
    → (server_permissions role none p ≡ true → server_permissions role (some viewer) p ≡ true)
      × (server_permissions role (some viewer) p ≡ true
          → server_permissions role (some server_admin) p ≡ true)
      × (server_permissions role (some server_admin) p ≡ true
          → server_permissions role (some owner) p ≡ true)
unfolding server_permissions
server_roles_nested admin p = (λ h. ground arith, λ h. ground arith, λ h. ground arith)
server_roles_nested moderator p = (λ h. ground arith, λ h. ground arith, λ h. ground arith)
server_roles_nested user p = (λ h. ground arith, λ h. ground arith, λ h. ground arith)
