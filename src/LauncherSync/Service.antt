-- ===== src/LauncherSync/Service.antt =====
-- backend/msm/services/launcher_service.py: a synchronisation from the file server to the disk.
pub mod Sync
pub mod Guarded
pub mod Ends
pub mod PlayersOnly
pub mod Rows
pub mod Served
pub mod Pending
mod Tests
use minecraft_server_manager.Prelude.{
  ℕ, ◌+◌, ◌*◌, Bool, true, false, ◌&&◌, not, Option, none, some, List, [], ◌∷◌, ◌++◌, map, length,
  keep, if◌then◌else◌, is_some, Text, codes, text_key, text_eq, Dict, lookup, has_key, insert,
  erase,
}
use minecraft_server_manager.Prelude.Fallible.{Fallible, done, failed}
use minecraft_server_manager.Prelude.Trim.{is_empty}
use minecraft_server_manager.Prelude.Json.{Json}
use minecraft_server_manager.LauncherSync.Manifest.{
  Refusal, Side, client, both, ManifestEntry, Manifest, parse_manifest, under,
}
use minecraft_server_manager.LauncherSync.Plan.{
  LocalFile, Install, Plan, empty_plan, changes, download_bytes, compute_plan, is_mass_deletion,
}
use minecraft_server_manager.LauncherSync.Disk.{
  Bytes, Files, DiskError, disabled_name, ends_with, apply_plan,
}
use minecraft_server_manager.LauncherSync.Download.{DownloadError, download, download_all}
use minecraft_server_manager.LauncherSync.State.{
  SyncStatus, up_to_date, applied, pending_restart, blocked, sync_failed, SideSource, by_override,
  by_manifest, by_detection, by_default, OnServer, disabled_there, enabled_there, absent_there,
  SyncError, not_reached, refused_manifest, not_downloaded, not_applied, Problem, raised,
  mass_deletion, Row, Summary, Integration, ManifestFetch, World,
}

abbrev pub Sides : Type 0
Sides = Dict Text (Side × SideSource)

-- `_entries_from_cache`
abbrev pub entry_of : Row → ManifestEntry
entry_of row = record {
  path = row.path;
  sha256 = row.sha256;
  size = row.size;
  side = row.declared_side;
  disabled = row.disabled_upstream;
}

unfoldable pub entries_from_cache : List Row → Manifest
entries_from_cache rows = record {
  pack_version = none;
  mc_version = none;
  loader = none;
  entries = map entry_of rows;
}

-- A step that raises ends what follows it, and what it has changed stays.
abbrev pub and_then :
    {A B : Type 0}
    → Option SyncError × A
    → (A → Option SyncError × B)
    → (A → B)
    → Option SyncError × B
and_then (some error, a) next stopped = (some error, stopped a)
and_then (none, a) next stopped = next a

-- The variables of the loop that finds the side of each file, and the folder it prepares files in.
pub record Search : Type 0 where
  pub cache : Dict Text Side
  pub sides : Sides
  pub staging : Files

abbrev pub set_side : ManifestEntry → Side → SideSource → Search → Search
set_side e side source s = record s { sides = insert e.path (side, source) s.sides }

abbrev pub is_same : ManifestEntry → Option LocalFile → Bool
is_same e none = false
is_same e (some current) = text_eq current.sha256 e.sha256

abbrev is_off : Option LocalFile → Bool
is_off none = false
is_off (some current) = current.disabled

abbrev on_disk_name : ManifestEntry → Option LocalFile → Text
on_disk_name e current = if is_off current then disabled_name e.path else e.path

abbrev pub remember : ManifestEntry → Side → Search → Search
remember e side s = record s {
  cache = insert e.sha256 side s.cache;
  sides = insert e.path (side, by_detection) s.sides;
}

-- The fingerprint of a file, the answers of the file server, and the side that a JAR declares.
module _ (sha256_of : Bytes → Text) (answer : Text → Fallible DownloadError Bytes)
    (detect_side : Option Bytes → Side) where
  -- The file is inspected on the server's disk, or else downloaded.
  abbrev after_download :
      ManifestEntry → Fallible DownloadError Files → Search → Option SyncError × Search
  after_download e (failed error) s = (some (not_downloaded error), s)
  after_download e (done staging) s =
      (none, remember e (detect_side (lookup e.sha256 staging)) (record s { staging = staging }))

  abbrev inspect : Files → ManifestEntry → Option LocalFile → Search → Option SyncError × Search
  inspect files e current s =
      if is_same e current
      then (none, remember e (detect_side (lookup (on_disk_name e current) files)) s)
      else after_download e (download sha256_of answer e.path e.sha256 e.size s.staging) s

  -- The side is looked for in the JAR unless it is forced, declared or known, or there is no JAR.
  abbrev by_cache :
      Files → Dict Text LocalFile → ManifestEntry → Option Side → Search → Option SyncError × Search
  by_cache files local e (some side) s = (none, set_side e side by_detection s)
  by_cache files local e none s =
      if not (ends_with (codes ".jar") e.path)
      then (none, set_side e both by_default s)
      else inspect files e (lookup e.path local) s

  abbrev by_declaration :
      Files → Dict Text LocalFile → ManifestEntry → Option Side → Search → Option SyncError × Search
  by_declaration files local e (some side) s = (none, set_side e side by_manifest s)
  by_declaration files local e none s = by_cache files local e (lookup e.sha256 s.cache) s

  abbrev side_step :
      Files → Dict Text LocalFile → ManifestEntry → Option Side → Search → Option SyncError × Search
  side_step files local e (some side) s = (none, set_side e side by_override s)
  side_step files local e none s = by_declaration files local e e.side s

  unfoldable pub find_sides :
      Dict Text Side
      → Files
      → Dict Text LocalFile
      → List ManifestEntry
      → Search
      → Option SyncError × Search
  find_sides overrides files local [] s = (none, s)
  find_sides overrides files local (e ∷ es) s =
      and_then (side_step files local e (lookup e.path overrides) s)
        (find_sides overrides files local es) (λ t. t)

abbrev pub side_at : Option (Side × SideSource) → Side
side_at none = both
side_at (some found) = found.0

abbrev source_at : Option (Side × SideSource) → SideSource
source_at none = by_default
source_at (some found) = found.1

abbrev pub is_client : Side → Bool
is_client client = true
is_client _ = false

-- `entry` goes to the players only.
abbrev pub client_side : Sides → ManifestEntry → Bool
client_side sides e = is_client (side_at (lookup e.path sides))

abbrev presence : Option LocalFile → OnServer
presence none = absent_there
presence (some current) = if current.disabled then disabled_there else enabled_there

abbrev pub row_of : Dict Text LocalFile → Sides → ManifestEntry → Row
row_of local sides e = record {
  path = e.path;
  sha256 = e.sha256;
  size = e.size;
  declared_side = e.side;
  disabled_upstream = e.disabled;
  side = side_at (lookup e.path sides);
  side_source = source_at (lookup e.path sides);
  on_server = presence (lookup e.path local);
}

abbrev update : World → Integration → World
update w integration = record w { integration = integration }

-- What `_record_files` does to the fingerprints that MSM remembers.
abbrev adopt_all : List (Text × Text) → Dict Text Text → Dict Text Text
adopt_all [] tracked = tracked
adopt_all ((path, sha256) ∷ rest) tracked = adopt_all rest (insert path sha256 tracked)

abbrev install_all : List Install → Dict Text Text → Dict Text Text
install_all [] tracked = tracked
install_all (i ∷ is) tracked = install_all is (insert i.path i.sha256 tracked)

abbrev forget_all : List Text → Dict Text Text → Dict Text Text
forget_all [] tracked = tracked
forget_all (path ∷ paths) tracked = forget_all paths (erase path tracked)

unfoldable pub record_files : Plan → Bool → Dict Text Text → Dict Text Text
record_files plan include_installs tracked =
    let adopted = adopt_all plan.adopts tracked in
    if include_installs
    then forget_all plan.removes (install_all plan.installs adopted)
    else adopted

-- `plan_to_dict`, then `plan_from_dict`: what is kept of a pending plan.
unfoldable pub stored_plan : Plan → Plan
stored_plan plan = record plan { unchanged = 0; notes = [] }

abbrev pub installed_state : List Install → Text → Option Bool
installed_state [] path = none
installed_state (i ∷ is) path =
    let later = installed_state is path in
    if is_some later then later else if text_eq path i.path then some i.disabled else none

abbrev pub mark_row : Option Bool → Row → Row
mark_row none row = row
mark_row (some disabled) row = record row {
  on_server = if disabled then disabled_there else enabled_there;
}

unfoldable pub mark_applied : Plan → List Row → List Row
mark_applied plan rows = map (λ row. mark_row (installed_state plan.installs row.path) row) rows
