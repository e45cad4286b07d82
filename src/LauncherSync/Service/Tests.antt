-- ===== src/LauncherSync/Service/Tests.antt =====
-- A synchronisation of two mods, one of them for the players only, of an empty server.
use minecraft_server_manager.Prelude.{
  ◌≡◌, refl, Bool, true, false, none, some, [], ◌∷◌, Text, codes, text_key,
}
use minecraft_server_manager.Prelude.Fallible.{done}
use minecraft_server_manager.Prelude.Int.{pos}
use minecraft_server_manager.Prelude.Json.{
  Json, text, number, array, object, item, end, field, blank,
}
use minecraft_server_manager.LauncherSync.Manifest.{
  server, check_path, validate_path, read_checksum, read_size, read_side, read_entry, read_entries,
  check_twice, read_lists, parse_manifest, under,
}
use minecraft_server_manager.LauncherSync.Plan.{
  download_bytes, plan_entry, plan_entries, sorted_texts, compute_plan, is_mass_deletion,
}
use minecraft_server_manager.LauncherSync.Disk.{copy_in, install_file, remove_file, apply_plan}
use minecraft_server_manager.LauncherSync.Disk.Obeyed.{obedient}
use minecraft_server_manager.LauncherSync.Download.{download, download_all}
use minecraft_server_manager.LauncherSync.State.{never, World}
use minecraft_server_manager.LauncherSync.Service.{
  find_sides, record_files, stored_plan, mark_applied,
}
use minecraft_server_manager.LauncherSync.Service.Sync.{
  Outside, after_apply, conclude, after_downloads, follow_plan, after_sides, with_manifest,
  synchronize, run_sync,
}
use minecraft_server_manager.LauncherSync.Service.Guarded.{run_sync-kept}
use minecraft_server_manager.LauncherSync.Service.PlayersOnly.{IsApart, run_sync-IsApart}
use minecraft_server_manager.LauncherSync.Service.Rows.{AreServed}
use minecraft_server_manager.LauncherSync.Service.Served.{run_sync-AreServed}
use minecraft_server_manager.LauncherSync.Service.Pending.{
  IsDelivered, apply_pending, apply_pending-run_sync,
}

abbrev checksum : Text
checksum = codes "ab00000000000000000000000000000000000000000000000000000000000000"

abbrev entry : Text → Text → Json
entry path side = object (
    field (codes "path") (text path) (
      field (codes "sha256") (text checksum)
        (field (codes "size") (number (pos 100)) (field (codes "side") (text side) blank))))

abbrev published : Json
published = object (
    field (codes "files")
      (array (
        item (entry (codes "mods/a") (codes "server"))
          (item (entry (codes "mods/b") (codes "client")) end)))
      blank)

abbrev same : Text → Text
same t = t

-- The content of the mod is its fingerprint.
abbrev outside : Bool → Outside
outside running = record {
  printed = λ value. [];
  lower = same;
  casefold = same;
  sha256_of = same;
  fetch_manifest = λ etag. done (record { data_read = some published; etag = none });
  answer = λ path. done checksum;
  detect_side = λ content. server;
  scan = λ prefixes tracked files. [];
  resolve = λ name. done name;
  refuses = obedient;
  running = running;
}

abbrev new_server : World
new_server = record {
  integration = record {
    enabled = true;
    sync_paths = [];
    interval_minutes = 30;
    side_overrides = [];
    side_cache = [];
    manifest_etag = none;
    pack_version = none;
    manifest_entries = [];
    next_sync_at = 0;
    last_sync_at = 0;
    last_sync_status = never;
    last_sync_error = none;
    last_sync_summary = none;
    pending_plan = none;
  };
  tracked = [];
  files = [];
  staging = [];
}

abbrev stopped : World
stopped = run_sync (outside false) false 5 new_server

abbrev waiting : World
waiting = run_sync (outside true) false 5 new_server

run_sync-kept_example : waiting.files ≡ []
run_sync-kept_example = run_sync-kept (outside true) refl false 5 new_server

installed_file : stopped.files ≡ (codes "mods/a", checksum) ∷ []
unfolding run_sync synchronize with_manifest after_sides follow_plan after_downloads conclude
    after_apply parse_manifest read_lists read_entries read_entry validate_path check_path
    read_checksum read_size read_side check_twice under find_sides record_files stored_plan
    mark_applied compute_plan plan_entries plan_entry sorted_texts is_mass_deletion download_bytes
    download download_all install_file copy_in remove_file apply_plan
installed_file = refl

run_sync-IsApart_example : IsApart waiting
unfolding run_sync synchronize with_manifest after_sides follow_plan after_downloads conclude
    after_apply parse_manifest read_lists read_entries read_entry validate_path check_path
    read_checksum read_size read_side check_twice under find_sides record_files stored_plan
    mark_applied compute_plan plan_entries plan_entry sorted_texts is_mass_deletion download_bytes
    download download_all
run_sync-IsApart_example = run_sync-IsApart (outside true) false 5 new_server refl refl

run_sync-AreServed_example : AreServed same stopped.files stopped.integration.manifest_entries
unfolding run_sync synchronize with_manifest after_sides follow_plan after_downloads conclude
    after_apply parse_manifest read_lists read_entries read_entry validate_path check_path
    read_checksum read_size read_side check_twice under find_sides record_files stored_plan
    mark_applied compute_plan plan_entries plan_entry sorted_texts is_mass_deletion download_bytes
    download download_all install_file copy_in remove_file apply_plan
run_sync-AreServed_example =
    run_sync-AreServed (outside false) refl false 5 new_server refl (λ q plain. refl) tt refl
      (refl, (refl, tt)) (((refl, refl), refl, refl), (((refl, refl), refl, refl), tt))

apply_pending-run_sync_example : IsDelivered (outside true) (apply_pending (outside true) 9 waiting)
unfolding run_sync synchronize with_manifest after_sides follow_plan after_downloads conclude
    after_apply parse_manifest read_lists read_entries read_entry validate_path check_path
    read_checksum read_size read_side check_twice under find_sides record_files stored_plan
    mark_applied compute_plan plan_entries plan_entry sorted_texts is_mass_deletion download_bytes
    download download_all
apply_pending-run_sync_example =
    apply_pending-run_sync (outside true) 9 (λ call disk. refl) false 5 new_server refl
      (λ q plain. refl) tt refl (refl, (refl, tt))
      (((refl, refl), refl, refl), (((refl, refl), refl, refl), tt))
