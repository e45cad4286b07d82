-- ===== src/Services/Members/Tests.antt =====
-- A server of account 1, shared with account 2.
use minecraft_server_manager.Prelude.{
  ℕ, ◌≡◌, refl, true, false, ◌||◌, Option, some, is_some, [], ◌∷◌, ◌==◌, if◌then◌else◌, Text, codes,
  lookup,
}
use minecraft_server_manager.Prelude.Fallible.{done, failed}
use minecraft_server_manager.Prelude.Trim.{strip, is_space}
use minecraft_server_manager.Core.Permissions.{
  user, viewer, server_admin, oversight_permissions, operate_permissions, server_role_permissions,
  server_permissions, sees_every_server, server_members,
}
use minecraft_server_manager.Security.Access.{
  User, OwnedServer, Members, pair_key, server_not_found, build_server_context, server_context,
  visible_server_context,
}
use minecraft_server_manager.Security.Access.Visible.{visible_server_context-members}
use minecraft_server_manager.Services.Members.{
  member_added, not_permitted, upsert, share, delete_member, remove,
}
use minecraft_server_manager.Services.Members.Owners.{
  IsShared, share-IsShared, IsRemoved, remove-IsRemoved,
}

abbrev account : ℕ → User
account n = record { id = n; role = user; is_active = true; is_banned = false }

abbrev home : OwnedServer
home = record { id = 7; owner_id = 1 }

abbrev everyone : Text → Option User
everyone username = some (account 2)

abbrev shared_with_two : Members
shared_with_two = ((2, 7), server_admin) ∷ []

share-IsShared_example :
    IsShared home server_admin (account 1) [] (member_added, account 2, shared_with_two)
unfolding share upsert strip is_space server_context build_server_context server_permissions
    server_role_permissions oversight_permissions operate_permissions
share-IsShared_example =
    share-IsShared everyone home (codes "two") server_admin (account 1) []
      (member_added, account 2, shared_with_two) refl refl

-- An admin of the server may not share it.
admin_refused :
    share everyone home
      (codes "three")
      viewer
      (server_context shared_with_two (account 2) home)
      shared_with_two
    ≡ failed (not_permitted server_members)
unfolding share upsert strip is_space server_context build_server_context server_permissions
    server_role_permissions oversight_permissions operate_permissions
admin_refused = refl

abbrev nobody : Members
nobody = []

visible_server_context-members_example : visible_server_context nobody (account 2) home ≡ (
    if (1 == 2) || is_some (lookup (2, 7) nobody) || sees_every_server user
    then done (server_context nobody (account 2) home)
    else failed (server_not_found 7))
visible_server_context-members_example = visible_server_context-members nobody (account 2) home

remove-IsRemoved_example : IsRemoved home 2 (account 1) shared_with_two []
unfolding remove delete_member server_context build_server_context server_permissions
    server_role_permissions oversight_permissions operate_permissions
remove-IsRemoved_example = remove-IsRemoved home 2 (account 1) shared_with_two [] refl refl
