-- ===== src/LauncherSync/Disk/Tests.antt =====
-- A server with a mod of the manifest in an old version, disabled, and one that the manifest has
-- dropped.
use minecraft_server_manager.Prelude.{
  ◌≡◌, refl, true, false, Option, none, some, List, [], ◌∷◌, codes, Text, text_key, Dict, lookup,
  subst,
}
use minecraft_server_manager.Prelude.Fallible.{Fallible, done}
use minecraft_server_manager.LauncherSync.Manifest.{ManifestEntry}
use minecraft_server_manager.LauncherSync.Plan.{
  LocalFile, Plan, plan_entry, plan_entries, sorted_texts, compute_plan,
}
use minecraft_server_manager.LauncherSync.Disk.{
  Bytes, Files, DiskError, refused_call, FileCall, make_parent, copy_to, replace, delete,
  ScannedFile, Known, disabled_name, scan_file, scan_local, copy_in, install_file, remove_file,
  apply_plan,
}
use minecraft_server_manager.LauncherSync.Disk.Inventory.{
  version, Agrees, IsListing, files_of, scan_local-Agrees, lookup-scan_local,
}
use minecraft_server_manager.LauncherSync.Disk.Slots.{slot}
use minecraft_server_manager.LauncherSync.Disk.Obeyed.{obedient}
use minecraft_server_manager.LauncherSync.Converged.{compute_plan-apply_plan}

abbrev content_hash : Bytes → Text
content_hash content = content

abbrev entry : ManifestEntry
entry = record { path = codes "a"; sha256 = codes "new"; size = 3; side = none; disabled = false }

abbrev old_file : ScannedFile
old_file = record {
  relative = disabled_name (codes "a");
  size = 3;
  mtime_ns = 5;
  content = codes "old";
}

abbrev dropped_file : ScannedFile
dropped_file = record { relative = codes "b"; size = 1; mtime_ns = 5; content = codes "b" }

abbrev listing : List ScannedFile
listing = old_file ∷ dropped_file ∷ []

abbrev files : Files
files = files_of [] listing

abbrev no_cache : Dict Text Known
no_cache = []

is_listing : IsListing content_hash no_cache [] listing
is_listing = (refl, refl, (refl, refl, tt))

lookup-scan_local_example :
    lookup (codes "a") (scan_local content_hash no_cache [] listing)
    ≡ version content_hash (codes "a") (slot (codes "a") (files_of [] listing))
lookup-scan_local_example =
    lookup-scan_local content_hash no_cache listing (codes "a") is_listing refl

abbrev inventory : Dict Text LocalFile
inventory =
    (codes "a", record { path = codes "a"; sha256 = codes "old"; disabled = true })
    ∷ (codes "b", record { path = codes "b"; sha256 = codes "b"; disabled = false })
    ∷ []

scanned_inventory : scan_local content_hash no_cache [] listing ≡ inventory
unfolding scan_local scan_file
scanned_inventory = refl

agrees : Agrees content_hash inventory files
agrees =
    subst (λ d. Agrees content_hash d files) scanned_inventory
      (scan_local-Agrees content_hash no_cache listing is_listing)

abbrev staging : Files
staging = (codes "new", codes "new") ∷ []

abbrev no_links : Text → Fallible DiskError Text
no_links name = done name

abbrev was_installed : Dict Text Text
was_installed = (codes "a", codes "old") ∷ (codes "b", codes "b") ∷ []

abbrev plan : Plan
plan = compute_plan (entry ∷ []) inventory was_installed

files_after :
    apply_plan no_links obedient staging plan files
    ≡ (none, (disabled_name (codes "a"), codes "new") ∷ [])
unfolding compute_plan plan_entries plan_entry sorted_texts apply_plan install_file copy_in
    remove_file
files_after = refl

-- The inventory after the plan.
abbrev next_inventory : Dict Text LocalFile
next_inventory =
    (codes "a", record { path = codes "a"; sha256 = codes "new"; disabled = true }) ∷ []

abbrev new_file : ScannedFile
new_file = record {
  relative = disabled_name (codes "a");
  size = 3;
  mtime_ns = 6;
  content = codes "new";
}

next-Agrees : Agrees content_hash next_inventory (apply_plan no_links obedient staging plan files).1
unfolding scan_local scan_file
next-Agrees =
    rw files_after (scan_local-Agrees content_hash no_cache (new_file ∷ []) (refl, refl, tt))

compute_plan-apply_plan_example :
    ((apply_plan no_links obedient staging plan files).0 ≡ none)
    × ((compute_plan (entry ∷ []) next_inventory []).installs ≡ [])
unfolding compute_plan plan_entries plan_entry sorted_texts
compute_plan-apply_plan_example =
    compute_plan-apply_plan content_hash no_links staging files (entry ∷ []) inventory was_installed
      obedient next_inventory [] (λ call files. refl) (refl, tt) ((refl, refl), tt) agrees
      (
        record {
          plain = (refl, refl);
          target = refl;
          other = refl;
          content = codes "new";
          staged = refl;
          checked = refl;
        },
        tt,
      )
      (record { plain = (refl, refl); active = refl; disabled = refl }, tt) next-Agrees

-- A listed file whose name is that of the temporary copy of another one is lost, without an error.
abbrev collision : Plan
collision =
    compute_plan
      (record {
        path = codes "x.msm-tmp";
        sha256 = codes "new";
        size = 3;
        side = none;
        disabled = false;
      }
        ∷ record { path = codes "x"; sha256 = codes "new"; size = 3; side = none; disabled = false }
        ∷ [])
      [] []

lost_file :
    apply_plan no_links obedient staging collision [] ≡ (none, (codes "x", codes "new") ∷ [])
unfolding compute_plan plan_entries plan_entry sorted_texts apply_plan install_file copy_in
    remove_file
lost_file = refl

-- Where the folder of a file cannot be made, nothing is installed, and the error is reported.
abbrev without_folders : FileCall → Files → Option Files
without_folders (make_parent target) left = some left
without_folders (copy_to name) left = none
without_folders (replace name target) left = none
without_folders (delete name) left = none

refused_folder : apply_plan no_links without_folders staging plan files ≡ (some refused_call, files)
unfolding compute_plan plan_entries plan_entry sorted_texts apply_plan install_file copy_in
    remove_file
refused_folder = refl
