-- ===== src/Runtime/Server/Players.antt =====
-- server_runtime.py: the connected players, as the console's lines announce them.
use minecraft_server_manager.Prelude.{
  ℕ, ◌&&◌, not, Option, none, some, List, [], ◌∷◌, length, if◌then◌else◌, Text, Dict, lookup,
  has_key, insert, erase, member, add, discard, ltb, leb, text_key, text_ltb,
}
use minecraft_server_manager.Runtime.Server.Model.{
  Players, Published, player_join, player_leave, players,
}

-- `_MAX_PENDING_UUIDS`
abbrev pub max_pending_uuids : ℕ
max_pending_uuids = 64

abbrev pub no_players : Players
no_players = record { online = []; recently_left = []; pending_uuids = [] }

abbrev insert_sorted : Text × Option Text → List (Text × Option Text) → List (Text × Option Text)
insert_sorted x [] = x ∷ []
insert_sorted x (y ∷ ys) =
    let rest = insert_sorted x ys in if text_ltb y.0 x.0 then y ∷ rest else x ∷ y ∷ ys

-- `sorted(self._online_players.items())`
unfoldable pub sorted : List (Text × Option Text) → List (Text × Option Text)
sorted [] = []
sorted (x ∷ xs) = insert_sorted x (sorted xs)

abbrev list_players : Players → Published
unfolding sorted
list_players p = players (sorted p.online)

abbrev pub keep_uuid : Text → Text → Option Text → Dict Text (Option Text) → Dict Text (Option Text)
keep_uuid username uuid none online = insert username (some uuid) online
keep_uuid username uuid (some []) online = insert username (some uuid) online
keep_uuid username uuid (some (c ∷ cs)) online = online

-- A second announcement of an arrival only fills in an unknown UUID.
abbrev pub again :
    Text → Option Text → Option (Option Text) → Dict Text (Option Text) → Dict Text (Option Text)
again username (some (c ∷ cs)) (some known) online = keep_uuid username (c ∷ cs) known online
again username uuid known online = online

-- The case PLAYER_JOIN: the new state, and what is published.
unfoldable pub join : Text → Players → Players × List Published
unfolding sorted
join username p =
    let uuid = lookup username p.pending_uuids in
    let pending = erase username p.pending_uuids in
    if has_key username p.online
    then (
      record p {
        online = again username uuid (lookup username p.online) p.online;
        pending_uuids = pending;
      },
      [],
    )
    else let q : Players = record {
      online = insert username uuid p.online;
      recently_left = discard username p.recently_left;
      pending_uuids = pending;
    } in
      (q, player_join username uuid ∷ list_players q ∷ [])

abbrev flat : Option (Option Text) → Option Text
flat none = none
flat (some uuid) = uuid

-- The case PLAYER_LEAVE.
unfoldable pub leave : Text → Players → Players × List Published
unfolding sorted
leave username p =
    if not (has_key username p.online) && member username p.recently_left
    then (p, [])
    else let uuid = flat (lookup username p.online) in
      let left = add username p.recently_left in
      let q : Players = record p {
        online = erase username p.online;
        recently_left = if ltb max_pending_uuids (length left) then [] else left;
      } in
      (q, player_leave username uuid ∷ list_players q ∷ [])

-- `self._pending_uuids.pop(next(iter(...)))`: the oldest entry.
abbrev pub drop_oldest : Dict Text Text → Dict Text Text
drop_oldest [] = []
drop_oldest (x ∷ rest) = rest

-- `_remember_uuid`
unfoldable pub remember_uuid : Text → Text → Players → Players
remember_uuid username uuid p =
    if has_key username p.online
    then record p { online = insert username (some uuid) p.online }
    else record p {
      pending_uuids = insert username uuid (
          if leb max_pending_uuids (length p.pending_uuids)
          then drop_oldest p.pending_uuids
          else p.pending_uuids);
    }

abbrev listed :
    Dict Text (Option Text) → List Text → Dict Text (Option Text) → Dict Text (Option Text)
listed known [] acc = acc
listed known (name ∷ names) acc = listed known names (insert name (flat (lookup name known)) acc)

-- The case PLAYER_LIST.
unfoldable pub replace_list : List Text → Players → Players × List Published
unfolding sorted
replace_list names p =
    let q : Players = record p { online = listed p.online names [] } in (q, list_players q ∷ [])
