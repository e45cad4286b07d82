-- ===== src/Security/Access.antt =====
-- backend/msm/security/rbac.py and backend/msm/security/access.py: the rights of an account on MSM and
-- on one server.
pub mod Visible
use minecraft_server_manager.Prelude.{
  ℕ, ◌≡◌, ◌↔◌, Bool, true, false, ◌&&◌, Option, none, some, List, ◌==◌, ==_iff, Eq, arith,
  if◌then◌else◌, Dict, lookup,
}
use minecraft_server_manager.Prelude.Fallible.{Fallible, done, failed}
use minecraft_server_manager.Core.Permissions.{
  Permission, PermissionSet, Role, ServerRole, owner, server_view, global_permissions,
  server_permissions,
}

-- What the rights depend on of an account and of a server.
pub record User : Type 0 where
  pub id : ℕ
  pub role : Role
  pub is_active : Bool
  pub is_banned : Bool

pub record OwnedServer : Type 0 where
  pub id : ℕ
  pub owner_id : ℕ

-- A row of `server_members` is found by the account and the server that it stands for.
abbrev pub same_pair : ℕ × ℕ → ℕ × ℕ → Bool
same_pair (a, b) (c, d) = (a == c) && (b == d)

pub same_pair_iff : (p q : ℕ × ℕ) → (same_pair p q ≡ true) ↔ (p ≡ q)
same_pair_iff (a, b) (c, d) = ground arith

instance abbrev pub pair_key : Eq (ℕ × ℕ)
pair_key = record { beq = same_pair; beq_iff = same_pair_iff }

abbrev pub Members : Type 0
Members = Dict (ℕ × ℕ) ServerRole

pub record AccessContext : Type 0 where
  pub user_id : ℕ
  pub role : Role
  pub permissions : PermissionSet
  pub server_id : Option ℕ
  pub server_role : Option ServerRole

pub data AccessError : Type 0 where
  permission_denied : Permission → Option ℕ → AccessError
  server_not_found : ℕ → AccessError

-- `AccessContext.has` and `AccessContext.require`
abbrev pub has : AccessContext → Permission → Bool
has c p = c.permissions p

abbrev pub require : AccessContext → Permission → Fallible AccessError (Unit {0})
require c p = if has c p then done tt else failed (permission_denied p c.server_id)

unfoldable pub build_context : User → AccessContext
build_context u = record {
  user_id = u.id;
  role = u.role;
  permissions = global_permissions u.role;
  server_id = none;
  server_role = none;
}

abbrev pub server_role_of : User → OwnedServer → Option ServerRole → Option ServerRole
server_role_of u s member_role = if s.owner_id == u.id then some owner else member_role

unfoldable pub build_server_context : User → OwnedServer → Option ServerRole → AccessContext
build_server_context u s member_role = record {
  user_id = u.id;
  role = u.role;
  permissions = server_permissions u.role (server_role_of u s member_role);
  server_id = some s.id;
  server_role = server_role_of u s member_role;
}

-- `server_context`: the membership of the owner is not read.
unfoldable pub server_context : Members → User → OwnedServer → AccessContext
unfolding build_server_context
server_context members u s =
    build_server_context u s (if s.owner_id == u.id then none else lookup (u.id, s.id) members)

unfoldable pub visible_server_context :
    Members → User → OwnedServer → Fallible AccessError AccessContext
unfolding server_context
visible_server_context members u s =
    if has (server_context members u s) server_view
    then done (server_context members u s)
    else failed (server_not_found s.id)
