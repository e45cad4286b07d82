-- ===== src/Services/Members.antt =====
-- backend/msm/services/member_service.py: a server shared with other accounts, and the rows of
-- `server_members` (backend/msm/db/repositories/server_repo.py).
pub mod Owners
mod Tests
use minecraft_server_manager.Prelude.{
  ℕ, Bool, true, false, ◌&&◌, ◌||◌, not, Option, none, some, List, [], ◌∷◌, ◌==◌, if◌then◌else◌,
  is_some, Text, Dict, lookup, insert, erase, all,
}
use minecraft_server_manager.Prelude.Fallible.{Fallible, refuse_if, done, failed, ◌>>=◌, ◌>>◌}
use minecraft_server_manager.Prelude.Trim.{strip}
use minecraft_server_manager.Core.Permissions.{
  Permission, ServerRole, owner, server_admin, viewer, server_members,
}
use minecraft_server_manager.Security.Access.{
  User, OwnedServer, Members, pair_key, AccessContext, has,
}

pub data MemberError : Type 0 where
  not_permitted : Permission → MemberError
  invalid_role account_not_found account_owns_server member_not_found : MemberError

pub data MemberAction : Type 0 where
  member_added member_updated member_removed : MemberAction

-- `role in SHAREABLE_ROLES`
abbrev pub is_shareable : ServerRole → Bool
is_shareable owner = false
is_shareable server_admin = true
is_shareable viewer = true

-- `ServerMemberRepository.upsert`: the row is made or its role changed.
unfoldable pub upsert : ℕ → ℕ → ServerRole → Members → Members
upsert user_id server_id role members = insert (user_id, server_id) role members

-- `ServerMemberRepository.delete` of the row of an account on a server
unfoldable pub delete_member : ℕ → ℕ → Members → Members
delete_member user_id server_id members = erase (user_id, server_id) members

-- An account that a server can be shared with.
abbrev find_active : Option User → Fallible MemberError User
find_active none = failed account_not_found
find_active (some u) = if not u.is_active || u.is_banned then failed account_not_found else done u

abbrev require_members : AccessContext → Fallible MemberError (Unit {0})
require_members context =
    refuse_if (not (has context server_members)) (not_permitted server_members)

abbrev action_of : Option ServerRole → MemberAction
action_of none = member_added
action_of (some role) = member_updated

-- `UserRepository.get_by_username` is an argument. What is returned is the action of the audit, the
-- account and the rows.
module _ (by_username : Text → Option User) where
  unfoldable pub share :
      OwnedServer
      → Text
      → ServerRole
      → AccessContext
      → Members
      → Fallible MemberError (MemberAction × User × Members)
  unfolding upsert
  share server username role context members = do
    require_members context
    refuse_if (not (is_shareable role)) invalid_role
    user ← find_active (by_username (strip username))
    refuse_if (user.id == server.owner_id) account_owns_server
    done (
      action_of (lookup (user.id, server.id) members),
      user,
      upsert user.id server.id role members,
    )

abbrev or_not_found : Option ServerRole → Fallible MemberError (Unit {0})
or_not_found none = failed member_not_found
or_not_found (some role) = done tt

unfoldable pub remove : OwnedServer → ℕ → AccessContext → Members → Fallible MemberError Members
unfolding delete_member
remove server user_id context members = do
  require_members context
  or_not_found (lookup (user_id, server.id) members)
  done (delete_member user_id server.id members)
