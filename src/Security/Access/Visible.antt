-- ===== src/Security/Access/Visible.antt =====
-- Whom a server is visible to (security/access.py, visible_server_context).
use minecraft_server_manager.Prelude.{
  ◌≡◌, refl, ap, ◌∙◌, inl, inr, Bool-cases, ◌||◌, none, is_some, ◌==◌, if◌then◌else◌, lookup,
}
use minecraft_server_manager.Prelude.Fallible.{done, failed}
use minecraft_server_manager.Core.Permissions.{sees_every_server}
use minecraft_server_manager.Core.Permissions.Oversight.{server_view_iff}
use minecraft_server_manager.Security.Access.{
  User, OwnedServer, Members, pair_key, server_not_found, server_role_of, build_server_context,
  server_context, visible_server_context,
}

some_role :
    (members : Members) (u : User) (s : OwnedServer)
    → is_some
        (server_role_of u s (if s.owner_id == u.id then none else lookup (u.id, s.id) members))
      ≡ ((s.owner_id == u.id) || is_some (lookup (u.id, s.id) members))
some_role members u s = elim (Bool-cases (s.owner_id == u.id)) [
  | inl owns ↦ rw owns refl
  | inr other ↦ rw other refl
]

-- An account reaches a server exactly if it owns it, is a member of it or has a role that oversees
-- every server; to any other account the server answers as one that does not exist.
pub visible_server_context-members :
    (members : Members) (u : User) (s : OwnedServer)
    → visible_server_context members u s ≡ (
        if (s.owner_id == u.id) || is_some (lookup (u.id, s.id) members) || sees_every_server u.role
        then done (server_context members u s)
        else failed (server_not_found s.id))
unfolding visible_server_context server_context build_server_context
visible_server_context-members members u s =
    ap (λ b. if b then done (server_context members u s) else failed (server_not_found s.id))
      (server_view_iff u.role _ ∙ ap (λ b. b || sees_every_server u.role) (some_role members u s))
