-- ===== src/LauncherSync/Inside.antt =====
-- The manifest and the plan together: where a synchronisation may write (launcher_sync/manifest.py,
-- launcher_sync/plan.py).
use minecraft_server_manager.Prelude.{
  ◌≤◌, ◌≡◌, inl, inr, Bool-cases, Bool, List, [], ◌∷◌, any, keep, All, starts_with, Text, text_key,
  Dict, lookup, has_key,
}
use minecraft_server_manager.Prelude.Fallible.{done}
use minecraft_server_manager.Prelude.Json.{Json, object, Fields}
use minecraft_server_manager.LauncherSync.Manifest.{
  ManifestEntry, Manifest, max_file_bytes, parse_manifest, under,
}
use minecraft_server_manager.LauncherSync.Manifest.Paths.{IsInside}
use minecraft_server_manager.LauncherSync.Manifest.Accepted.{IsAccepted, parse_manifest-IsValid}
use minecraft_server_manager.LauncherSync.Plan.{
  LocalFile, Install, is_current, plan_entries, compute_plan,
}
use minecraft_server_manager.LauncherSync.Plan.Safety.{installs-plan_entry}

pub record IsSafe (i : Install) : Type 0 where
  pub inside : IsInside i.path
  pub small : i.size ≤ max_file_bytes

All-keep : {A : Type 0} (P : A → Type 0) (p : A → Bool) (xs : List A) → All P xs → All P (keep p xs)
All-keep P p [] h = tt
All-keep P p (x ∷ xs) h = elim (Bool-cases (p x)) [
  | inl kept ↦ rw kept (h.0, All-keep P p xs h.1)
  | inr gone ↦ rw gone (All-keep P p xs h.1)
]

plan_entries-IsSafe :
    (entries : List ManifestEntry) (local : Dict Text LocalFile) (tracked : Dict Text Text)
    → All IsAccepted entries
    → All IsSafe (plan_entries entries local tracked).installs
unfolding plan_entries
plan_entries-IsSafe [] local tracked h = tt
plan_entries-IsSafe (e ∷ es) local tracked h =
    let rest = plan_entries-IsSafe es local tracked h.1 in
    rw
      (installs-plan_entry e (lookup e.path local) (has_key e.path tracked)
        (plan_entries es local tracked))
      (elim (Bool-cases (is_current e (lookup e.path local))) [
        | inl same ↦ rw same rest
        | inr other ↦ rw other (record { inside = h.0.inside; small = h.0.small }, rest)
      ])

-- Whatever manifest the file server publishes: if it is accepted, then each file that the plan
-- installs, for any choice among the entries under the synchronised folders, has a path made of names
-- (none of them empty, `.` or `..`, and none with a slash, a backslash or a NUL) that does not begin
-- with a drive letter and a colon, and a size of at most one gibibyte.
pub compute_plan-IsSafe :
    (printed : Json → Text) (lower casefold : Text → Text) (raw : Fields) (m : Manifest)
    (prefixes : List Text) (for_server : ManifestEntry → Bool) (local : Dict Text LocalFile)
    (tracked : Dict Text Text)
    → parse_manifest printed lower casefold (object raw) ≡ done m
    → All IsSafe (compute_plan (keep for_server (under prefixes m)) local tracked).installs
unfolding compute_plan under
compute_plan-IsSafe printed lower casefold raw m prefixes for_server local tracked h =
    plan_entries-IsSafe _ local tracked (
      All-keep IsAccepted for_server _ (
        All-keep IsAccepted (λ e. any (λ prefix. starts_with prefix e.path) prefixes) m.entries
          (parse_manifest-IsValid printed lower casefold raw m h).accepted))
