-- ===== src/LauncherSync/Service/Sync.antt =====
-- backend/msm/services/launcher_service.py, run_sync, _synchronize and apply_pending.
use minecraft_server_manager.Prelude.{
  ℕ, ◌+◌, ◌*◌, Bool, true, false, ◌&&◌, not, Option, none, some, List, [], ◌∷◌, map, length, keep,
  if◌then◌else◌, Text, codes, text_key, Dict,
}
use minecraft_server_manager.Prelude.Fallible.{Fallible, done, failed}
use minecraft_server_manager.Prelude.Trim.{is_empty}
use minecraft_server_manager.Prelude.Json.{Json}
use minecraft_server_manager.LauncherSync.Manifest.{
  Refusal, Side, ManifestEntry, Manifest, parse_manifest, under,
}
use minecraft_server_manager.LauncherSync.Plan.{
  LocalFile, Plan, download_bytes, compute_plan, is_mass_deletion,
}
use minecraft_server_manager.LauncherSync.Disk.{Bytes, Files, DiskError, FileCall, apply_plan}
use minecraft_server_manager.LauncherSync.Download.{DownloadError, download_all}
use minecraft_server_manager.LauncherSync.State.{
  up_to_date, applied, pending_restart, blocked, sync_failed, SyncError, refused_manifest,
  not_downloaded, not_applied, raised, mass_deletion, Summary, Integration, ManifestFetch, World,
}
use minecraft_server_manager.LauncherSync.Service.{
  Search, and_then, entries_from_cache, find_sides, client_side, row_of, record_files, stored_plan,
  mark_applied,
}

abbrev default_sync_paths : List Text
default_sync_paths = codes "mods/" ∷ []

-- `integration.sync_paths or DEFAULT_SYNC_PATHS`
abbrev prefixes_of : Integration → List Text
prefixes_of i = if is_empty i.sync_paths then default_sync_paths else i.sync_paths

abbrev pub is_empty_plan : Plan → Bool
is_empty_plan plan = is_empty plan.installs && is_empty plan.removes

abbrev pub summary_of : Plan → ℕ → Summary
summary_of plan hidden = record {
  installs = length plan.installs;
  removes = length plan.removes;
  adopted = length plan.adopts;
  unchanged = plan.unchanged;
  client_only = hidden;
  download_bytes = download_bytes plan;
}

-- What MSM reaches outside: the texts, the fingerprints, the file server, the JARs, the inventory of
-- the folder, the names below it, the refusals of the file system, and whether the server runs.
pub record Outside : Type 0 where
  pub printed : Json → Text
  pub lower : Text → Text
  pub casefold : Text → Text
  pub sha256_of : Bytes → Text
  pub fetch_manifest : Option Text → Fallible SyncError ManifestFetch
  pub answer : Text → Fallible DownloadError Bytes
  pub detect_side : Option Bytes → Side
  pub scan : List Text → Dict Text Text → Files → Dict Text LocalFile
  pub resolve : Text → Fallible DiskError Text
  pub refuses : FileCall → Files → Option Files
  pub running : Bool

module _ (o : Outside) where
  -- The plan has been applied to the disk, or the disk refused.
  unfoldable pub after_apply : Plan → Option DiskError × Files → World → Option SyncError × World
  after_apply plan (some error, files) w = (some (not_applied error), record w { files = files })
  after_apply plan (none, files) w = (
    none,
    record w {
      files = files;
      tracked = record_files plan true w.tracked;
      staging = [];
      integration = record w.integration {
        manifest_entries = mark_applied plan w.integration.manifest_entries;
        pending_plan = none;
        last_sync_status = applied;
      };
    },
  )

  abbrev pub nothing_left : World → World
  nothing_left w = record w {
    staging = [];
    integration = record w.integration { pending_plan = none; last_sync_status = up_to_date };
  }

  abbrev pub wait_for_restart : Plan → World → World
  wait_for_restart plan w = record w {
    integration = record w.integration {
      pending_plan = some (stored_plan plan);
      last_sync_status = pending_restart;
    };
  }

  -- The files of the plan are prepared: nothing to do, or the server runs, or the plan is applied.
  unfoldable pub conclude : Plan → World → Option SyncError × World
  unfolding after_apply
  conclude plan w =
      if is_empty_plan plan
      then (none, nothing_left w)
      else if o.running
      then (none, wait_for_restart plan w)
      else after_apply plan (apply_plan o.resolve o.refuses w.staging plan w.files) w

  unfoldable pub after_downloads :
      Plan → ℕ → Option DownloadError × Files → World → Option SyncError × World
  unfolding conclude
  after_downloads plan hidden (some error, staging) w =
      (some (not_downloaded error), record w { staging = staging })
  after_downloads plan hidden (none, staging) w = conclude plan (record w {
    staging = staging;
    integration = record w.integration {
      last_sync_summary = some (summary_of plan hidden);
      last_sync_error = none;
    };
  })

  unfoldable pub follow_plan : Bool → Plan → ℕ → World → Option SyncError × World
  unfolding after_downloads
  follow_plan allow plan hidden w =
      if is_mass_deletion plan (length w.tracked) && not allow
      then (
        none,
        record w {
          integration = record w.integration {
            last_sync_status = blocked;
            last_sync_error = some (mass_deletion (length plan.removes) (length w.tracked));
            pending_plan = none;
          };
        },
      )
      else after_downloads plan hidden (download_all o.sha256_of o.answer plan.installs w.staging)
          (record w { tracked = record_files plan false w.tracked })

  -- The side of each file is known.
  unfoldable pub after_sides :
      Bool → List ManifestEntry → Dict Text LocalFile → World → Search → Option SyncError × World
  unfolding follow_plan
  after_sides allow candidates local w s =
      let for_server = keep (λ e. not (client_side s.sides e)) candidates in
      let hidden = keep (client_side s.sides) candidates in
      follow_plan allow (compute_plan for_server local w.tracked) (length hidden) (record w {
        staging = s.staging;
        integration = record w.integration {
          side_cache = s.cache;
          manifest_entries = map (row_of local s.sides) candidates;
        };
      })

  abbrev pub candidates_of : Manifest → World → List ManifestEntry
  candidates_of manifest w = under (prefixes_of w.integration) manifest

  abbrev pub local_of : World → Dict Text LocalFile
  local_of w = o.scan (prefixes_of w.integration) w.tracked w.files

  abbrev pub search_sides : Manifest → World → Option SyncError × Search
  search_sides manifest w =
      find_sides o.sha256_of o.answer o.detect_side w.integration.side_overrides w.files
        (local_of w) (candidates_of manifest w)
        (record { cache = w.integration.side_cache; sides = []; staging = w.staging })

  abbrev pub keep_staging : World → Search → World
  keep_staging w s = record w { staging = s.staging }

  unfoldable pub with_manifest : Bool → Manifest → World → Option SyncError × World
  unfolding after_sides
  with_manifest allow manifest w =
      and_then (search_sides manifest w)
        (after_sides allow (candidates_of manifest w) (local_of w) w) (keep_staging w)

  abbrev pub read_manifest :
      Bool → Option Text → Fallible Refusal Manifest → World → Option SyncError × World
  read_manifest allow etag (failed refusal) w = (some (refused_manifest refusal), w)
  read_manifest allow etag (done manifest) w = with_manifest allow manifest (record w {
    integration = record w.integration {
      manifest_etag = etag;
      pack_version = manifest.pack_version;
    };
  })

  abbrev pub after_fetch : Bool → Option Json → Option Text → World → Option SyncError × World
  after_fetch allow none etag w =
      with_manifest allow (entries_from_cache w.integration.manifest_entries) w
  after_fetch allow (some raw) etag w =
      read_manifest allow etag (parse_manifest o.printed o.lower o.casefold raw) w

  abbrev pub fetched : Bool → Fallible SyncError ManifestFetch → World → Option SyncError × World
  fetched allow (failed error) w = (some error, w)
  fetched allow (done f) w = after_fetch allow f.data_read f.etag w

  -- `_synchronize`
  unfoldable pub synchronize : Bool → World → Option SyncError × World
  unfolding with_manifest
  synchronize allow w =
      fetched allow
        (o.fetch_manifest
          (if is_empty w.integration.manifest_entries then none else w.integration.manifest_etag))
        w

  -- `_fail`
  abbrev pub settle_error : Option SyncError × World → World
  settle_error (none, w) = w
  settle_error (some error, w) = record w {
    integration = record w.integration {
      last_sync_status = sync_failed;
      last_sync_error = some (raised error);
    };
  }

  abbrev pub stamp : ℕ → World → World
  stamp now w = record w {
    integration = record w.integration {
      last_sync_at = now;
      next_sync_at = now + w.integration.interval_minutes * 60;
    };
  }

  -- `run_sync` on a server that has an integration; it never raises.
  unfoldable pub run_sync : Bool → ℕ → World → World
  unfolding synchronize
  run_sync allow now w =
      if w.integration.enabled then settle_error (synchronize allow (stamp now w)) else w
