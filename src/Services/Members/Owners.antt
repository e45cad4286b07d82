-- ===== src/Services/Members/Owners.antt =====
-- Who shares a server, and what that changes (services/member_service.py with security/access.py).
use minecraft_server_manager.Prelude.{
  ℕ, ◌≡◌, ◌≢◌, refl, ◌∙◌, inl, inr, Bool-cases, Bool, true, false, ◌&&◌, ◌||◌, not, Option, none,
  some, [], ◌∷◌, ◌==◌, ==_iff, arith, if◌then◌else◌, Text, lookup, insert, erase, lookup-insert,
  lookup-erase,
}
use minecraft_server_manager.Prelude.Fallible.{
  done, Ensures, holds, refused, Ensures-bind, Ensures-guard, Ensures-step, Ensures-done,
}
use minecraft_server_manager.Prelude.Trim.{strip}
use minecraft_server_manager.Core.Permissions.{ServerRole, owner, server_members}
use minecraft_server_manager.Core.Permissions.Oversight.{only_owner_shares}
use minecraft_server_manager.Security.Access.{
  User, OwnedServer, Members, pair_key, same_pair, has, server_role_of, build_server_context,
  server_context,
}
use minecraft_server_manager.Services.Members.{
  not_permitted, invalid_role, account_owns_server, MemberAction, is_shareable, upsert,
  delete_member, find_active, share, or_not_found, remove,
}

-- No row gives the role of the owner.
abbrev pub only_shared : Members → Bool
only_shared [] = true
only_shared ((k, role) ∷ members) = is_shareable role && only_shared members

lookup-only_shared :
    (k : ℕ × ℕ) (members : Members) → only_shared members ≡ true → lookup k members ≢ some owner
lookup-only_shared k [] h e = cc
lookup-only_shared k ((j, role) ∷ members) h e = elim (Bool-cases (same_pair k j)) [
  | inl same ↦
      let given : role ≡ owner = let found = rw same at e in cc in let bad = rw given at h in cc
  | inr other ↦ lookup-only_shared k members (ground arith) (rw other at e)
]

insert-only_shared :
    (k : ℕ × ℕ) (role : ServerRole) (members : Members)
    → is_shareable role ≡ true
    → only_shared members ≡ true
    → only_shared (insert k role members) ≡ true
insert-only_shared k role [] r h = rw r refl
insert-only_shared k role ((j, old) ∷ members) r h = elim (Bool-cases (same_pair k j)) [
  | inl same ↦ rw (same, r) (ground arith)
  | inr other ↦ rw other (ground (arith, insert-only_shared k role members r (ground arith)))
]

erase-only_shared :
    (k : ℕ × ℕ) (members : Members)
    → only_shared members ≡ true
    → only_shared (erase k members) ≡ true
erase-only_shared k [] h = refl
erase-only_shared k ((j, old) ∷ members) h = elim (Bool-cases (same_pair k j)) [
  | inl same ↦ rw same (erase-only_shared k members (ground arith))
  | inr other ↦ rw other (ground (arith, erase-only_shared k members (ground arith)))
]

role-owner :
    (members : Members) (u : User) (s : OwnedServer)
    → only_shared members ≡ true
    → server_role_of u s (if s.owner_id == u.id then none else lookup (u.id, s.id) members)
      ≡ some owner
    → s.owner_id ≡ u.id
role-owner members u s shared h = elim (Bool-cases (s.owner_id == u.id)) [
  | inl owns ↦ (==_iff s.owner_id u.id).0 owns
  | inr other ↦ absurd (lookup-only_shared (u.id, s.id) members shared (rw other at h))
]

-- The permission to share is the owner's.
sharer-owns :
    (members : Members) (u : User) (s : OwnedServer)
    → only_shared members ≡ true
    → has (server_context members u s) server_members ≡ true
    → s.owner_id ≡ u.id
unfolding server_context build_server_context
sharer-owns members u s shared h = role-owner members u s shared ((only_owner_shares u.role _).0 h)

-- What sharing a server has done.
pub record IsShared (server : OwnedServer) (role : ServerRole) (actor : User) (members : Members)
    (r : MemberAction × User × Members) : Type 0 where
  pub by_owner : server.owner_id ≡ actor.id
  pub active : (r.1.is_active && not r.1.is_banned) ≡ true
  pub apart : r.1.id ≢ server.owner_id
  pub given : (server_context r.2 r.1 server).server_role ≡ some role
  pub others :
      (v : User) (t : OwnedServer)
      → (server_context r.2 v t).server_role ≡ (
          if same_pair (v.id, t.id) (r.1.id, server.id) && not (t.owner_id == v.id)
          then some role
          else (server_context members v t).server_role)
  pub kept : only_shared r.2 ≡ true

role-insert :
    (members : Members) (user_id server_id : ℕ) (role : ServerRole) (v : User) (t : OwnedServer)
    → (server_context (insert (user_id, server_id) role members) v t).server_role ≡ (
        if same_pair (v.id, t.id) (user_id, server_id) && not (t.owner_id == v.id)
        then some role
        else (server_context members v t).server_role)
unfolding server_context build_server_context
role-insert members user_id server_id role v t = elim (Bool-cases (t.owner_id == v.id)) [
  | inl owns ↦ elim (Bool-cases (same_pair (v.id, t.id) (user_id, server_id))) [
    | inl same ↦ rw (owns, same) refl
    | inr other ↦ rw (owns, other) refl
  ]
  | inr stranger ↦ elim (Bool-cases (same_pair (v.id, t.id) (user_id, server_id))) [
    | inl same ↦
        rw (stranger, same, lookup-insert (user_id, server_id) (v.id, t.id) role members, same) refl
    | inr other ↦
        rw (stranger, other, lookup-insert (user_id, server_id) (v.id, t.id) role members, other)
          refl
  ]
]

role-erase :
    (members : Members) (user_id server_id : ℕ) (v : User) (t : OwnedServer)
    → (server_context (erase (user_id, server_id) members) v t).server_role ≡ (
        if same_pair (v.id, t.id) (user_id, server_id) && not (t.owner_id == v.id)
        then none
        else (server_context members v t).server_role)
unfolding server_context build_server_context
role-erase members user_id server_id v t = elim (Bool-cases (t.owner_id == v.id)) [
  | inl owns ↦ elim (Bool-cases (same_pair (v.id, t.id) (user_id, server_id))) [
    | inl same ↦ rw (owns, same) refl
    | inr other ↦ rw (owns, other) refl
  ]
  | inr stranger ↦ elim (Bool-cases (same_pair (v.id, t.id) (user_id, server_id))) [
    | inl same ↦
        rw (stranger, same, lookup-erase (user_id, server_id) (v.id, t.id) members, same) refl
    | inr other ↦
        rw (stranger, other, lookup-erase (user_id, server_id) (v.id, t.id) members, other) refl
  ]
]

same_pair_refl : (p : ℕ × ℕ) → same_pair p p ≡ true
same_pair_refl (a, b) = ground arith

differs : (a b : ℕ) → (a == b) ≡ false → a ≢ b
differs a b h e = let bad = rw ((==_iff a b).1 e) at h in cc

find_active-Ensures :
    (found : Option User)
    → Ensures (λ u. (u.is_active && not u.is_banned) ≡ true) (find_active found)
find_active-Ensures none = refused
find_active-Ensures (some u) = elim (Bool-cases (not u.is_active || u.is_banned)) [
  | inl barred ↦ rw barred refused
  | inr free ↦ rw free (holds (ground arith))
]

-- A server is shared only by its owner, with an active account that is not banned and not the
-- owner's, which then has the role that was given, admin or viewer; the role of every other account,
-- on every server, stays what it was, and still no row gives the role of the owner.
pub share-IsShared :
    (by_username : Text → Option User) (server : OwnedServer) (username : Text) (role : ServerRole)
    (actor : User) (members : Members) (r : MemberAction × User × Members)
    → only_shared members ≡ true
    → share by_username server username role (server_context members actor server) members ≡ done r
    → IsShared server role actor members r
unfolding share upsert
share-IsShared by_username server username role actor members r shared h =
    Ensures-done {P = IsShared server role actor members}
      (Ensures-guard (not (has (server_context members actor server) server_members))
        (not_permitted server_members)
        λ allowed. Ensures-guard (not (is_shareable role)) invalid_role λ shareable.
          Ensures-bind (find_active-Ensures (by_username (strip username))) λ user active.
            Ensures-guard (user.id == server.owner_id) account_owns_server λ apart. holds (record {
              by_owner = sharer-owns members actor server shared (ground arith);
              active = active;
              apart = differs user.id server.owner_id apart;
              given =
                  role-insert members user.id server.id role user server
                  ∙ rw (same_pair_refl (user.id, server.id)) (ground arith);
              others = role-insert members user.id server.id role;
              kept = insert-only_shared (user.id, server.id) role members (ground arith) shared;
            }))
      h

-- What taking the access of an account away has done.
pub record IsRemoved (server : OwnedServer) (user_id : ℕ) (actor : User) (members after : Members)
    : Type 0 where
  pub by_owner : server.owner_id ≡ actor.id
  pub others :
      (v : User) (t : OwnedServer)
      → (server_context after v t).server_role ≡ (
          if same_pair (v.id, t.id) (user_id, server.id) && not (t.owner_id == v.id)
          then none
          else (server_context members v t).server_role)
  pub kept : only_shared after ≡ true

-- Where no row gives the role of the owner: access is taken away only by the owner of the server; the
-- account then has no role on it, unless it is the owner, the role of every other account, on every
-- server, stays what it was, and still no row gives the role of the owner.
pub remove-IsRemoved :
    (server : OwnedServer) (user_id : ℕ) (actor : User) (members after : Members)
    → only_shared members ≡ true
    → remove server user_id (server_context members actor server) members ≡ done after
    → IsRemoved server user_id actor members after
unfolding remove delete_member
remove-IsRemoved server user_id actor members after shared h =
    Ensures-done {P = IsRemoved server user_id actor members}
      (Ensures-guard (not (has (server_context members actor server) server_members))
        (not_permitted server_members)
        λ allowed. Ensures-step (or_not_found (lookup (user_id, server.id) members)) λ there _.
          holds (record {
            by_owner = sharer-owns members actor server shared (ground arith);
            others = role-erase members user_id server.id;
            kept = erase-only_shared (user_id, server.id) members shared;
          }))
      h
