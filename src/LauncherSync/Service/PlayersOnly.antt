-- ===== src/LauncherSync/Service/PlayersOnly.antt =====
-- The files that only the players need stay off the server (services/launcher_service.py).
use minecraft_server_manager.Prelude.{
  ℕ, ◌≡◌, refl, ap, ◌∙◌, inl, inr, Bool-cases, Bool, true, false, ◌&&◌, not, Option, none, some,
  List, [], ◌∷◌, map, keep, length, All, arith, Text, text_key, text_eq, text_eq_iff, Dict, lookup,
  member,
}
use minecraft_server_manager.LauncherSync.Manifest.{ManifestEntry}
use minecraft_server_manager.LauncherSync.Plan.{
  LocalFile, Install, Plan, compute_plan, is_mass_deletion,
}
use minecraft_server_manager.LauncherSync.Disk.{Files, DiskError}
use minecraft_server_manager.LauncherSync.Disk.Applied.{install_path}
use minecraft_server_manager.LauncherSync.Plan.Installs.{installs-paths}
use minecraft_server_manager.LauncherSync.Download.{DownloadError}
use minecraft_server_manager.LauncherSync.State.{
  pending_restart, sync_failed, SyncError, Row, World,
}
use minecraft_server_manager.LauncherSync.Service.{
  Sides, side_at, is_client, client_side, row_of, stored_plan,
}
use minecraft_server_manager.LauncherSync.Service.Sync.{
  Outside, is_empty_plan, after_apply, conclude, after_downloads, follow_plan, after_sides,
  candidates_of, local_of, run_sync,
}
use minecraft_server_manager.LauncherSync.Service.Ends.{Holds, run_sync-elim}

-- The paths that a pending plan installs.
abbrev pub pending_paths : Option Plan → List Text
pending_paths none = []
pending_paths (some plan) = map install_path plan.installs

-- The file goes to the players only, and is to be installed.
abbrev pub is_misplaced : Option Plan → Row → Bool
is_misplaced pending row = is_client row.side && member row.path (pending_paths pending)

abbrev pub IsApart : World → Type 0
IsApart w =
    All (λ row. is_misplaced w.integration.pending_plan row ≡ false) w.integration.manifest_entries

nothing_pending : (rows : List Row) → All (λ row. is_misplaced none row ≡ false) rows
nothing_pending [] = tt
nothing_pending (row ∷ rows) = (ground arith, nothing_pending rows)

absent-elsewhere :
    (sides : Sides) (q : Text) (is : List Install)
    → is_client (side_at (lookup q sides)) ≡ true
    → All (λ i. is_client (side_at (lookup i.path sides)) ≡ false) is
    → member q (map install_path is) ≡ false
absent-elsewhere sides q [] c h = refl
absent-elsewhere sides q (i ∷ is) c h =
    let rest = absent-elsewhere sides q is c h.1 in
    elim (Bool-cases (text_eq q i.path)) [
      | inl same ↦
          let e = ap (λ p. is_client (side_at (lookup p sides))) ((text_eq_iff q i.path).0 same) in
          let bad = rw c at (e ∙ h.0) in cc
      | inr other ↦ rw (other, rest) refl
    ]

All-keep_itself :
    (sides : Sides) (es : List ManifestEntry)
    → All
        (λ e. is_client (side_at (lookup e.path sides)) ≡ false)
        (keep (λ e. not (client_side sides e)) es)
All-keep_itself sides [] = tt
All-keep_itself sides (e ∷ es) =
    let rest = All-keep_itself sides es in
    elim (Bool-cases (client_side sides e)) [
      | inl hidden ↦ rw hidden rest
      | inr shown ↦ rw shown (shown, rest)
    ]

module _ (local : Dict Text LocalFile) (tracked : Dict Text Text) (sides : Sides) where
  abbrev pub plan_for : List ManifestEntry → Plan
  plan_for candidates =
      compute_plan (keep (λ e. not (client_side sides e)) candidates) local tracked

  plan-apart :
      (candidates : List ManifestEntry)
      → All (λ i. is_client (side_at (lookup i.path sides)) ≡ false) (plan_for candidates).installs
  unfolding compute_plan
  plan-apart candidates =
      installs-paths local tracked (λ p. is_client (side_at (lookup p sides)) ≡ false)
        (keep (λ e. not (client_side sides e)) candidates) (All-keep_itself sides candidates)

  rows-apart :
      (plan : Plan) (es : List ManifestEntry)
      → All (λ i. is_client (side_at (lookup i.path sides)) ≡ false) plan.installs
      → All (λ row. is_misplaced (some plan) row ≡ false) (map (row_of local sides) es)
  rows-apart plan [] h = tt
  rows-apart plan (e ∷ es) h = (
    elim (Bool-cases (client_side sides e)) [
      | inl hidden ↦ rw (hidden, absent-elsewhere sides e.path plan.installs hidden h) refl
      | inr shown ↦ rw shown refl
    ],
    rows-apart plan es h,
  )

module _ (o : Outside) (allow : Bool) where
  after_apply-IsApart :
      (plan : Plan) (r : Option DiskError × Files) (w : World)
      → Holds IsApart (after_apply o plan r w)
  unfolding after_apply
  after_apply-IsApart plan (some error, files) w = tt
  after_apply-IsApart plan (none, files) w = nothing_pending _

  conclude-IsApart :
      (plan : Plan) (w : World)
      → All (λ row. is_misplaced (some plan) row ≡ false) w.integration.manifest_entries
      → Holds IsApart (conclude o plan w)
  unfolding conclude stored_plan
  conclude-IsApart plan w h = elim (Bool-cases (is_empty_plan plan)) [
    | inl nothing ↦ rw nothing (nothing_pending _)
    | inr something ↦ rw something (elim (Bool-cases o.running) [
      | inl on ↦ rw on h
      | inr off ↦ rw off (after_apply-IsApart plan _ w)
    ])
  ]

  after_downloads-IsApart :
      (plan : Plan) (hidden : ℕ) (r : Option DownloadError × Files) (w : World)
      → All (λ row. is_misplaced (some plan) row ≡ false) w.integration.manifest_entries
      → Holds IsApart (after_downloads o plan hidden r w)
  unfolding after_downloads
  after_downloads-IsApart plan hidden (some error, staging) w h = tt
  after_downloads-IsApart plan hidden (none, staging) w h = conclude-IsApart plan _ h

  follow_plan-IsApart :
      (plan : Plan) (hidden : ℕ) (w : World)
      → All (λ row. is_misplaced (some plan) row ≡ false) w.integration.manifest_entries
      → Holds IsApart (follow_plan o allow plan hidden w)
  unfolding follow_plan
  follow_plan-IsApart plan hidden w h =
      elim (Bool-cases (is_mass_deletion plan (length w.tracked) && not allow)) [
        | inl mass ↦ rw mass (nothing_pending _)
        | inr few ↦ rw few (after_downloads-IsApart plan hidden _ _ h)
      ]

  abbrev Waits : World → Type 0
  Waits v = v.integration.last_sync_status ≡ pending_restart → IsApart v

  Holds-Waits : (r : Option SyncError × World) → Holds IsApart r → Holds Waits r
  Holds-Waits (none, w) h = λ e. h
  Holds-Waits (some error, w) h = tt

  failed-Waits : (v : World) → v.integration.last_sync_status ≡ sync_failed → Waits v
  failed-Waits v f e = let bad = rw f at e in cc

  -- When a synchronisation leaves a plan for the next start, then no file that the interface shows
  -- as for the players only is among those that the plan installs.
  pub run_sync-IsApart :
      (now : ℕ) (w : World)
      → w.integration.enabled ≡ true
      → (run_sync o allow now w).integration.last_sync_status ≡ pending_restart
      → IsApart (run_sync o allow now w)
  unfolding after_sides
  run_sync-IsApart now w on = run_sync-elim o allow Waits now w on failed-Waits λ m v s r.
      Holds-Waits _ (
        follow_plan-IsApart _ _ _ (
          rows-apart (local_of o v) v.tracked s.sides
            (plan_for (local_of o v) v.tracked s.sides (candidates_of o m v)) (candidates_of o m v)
            (plan-apart (local_of o v) v.tracked s.sides (candidates_of o m v))))
