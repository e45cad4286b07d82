-- ===== src/LauncherSync/Plan.antt =====
-- backend/msm/launcher_sync/plan.py: what a synchronisation has to do, computed and not applied.
pub mod Safety
pub mod Installs
use minecraft_server_manager.Prelude.{
  ℕ, suc, ◌+◌, ◌*◌, Bool, true, false, ◌&&◌, not, Option, none, some, List, [], ◌∷◌, length, any,
  ltb, if◌then◌else◌, is_some, Text, text_key, text_eq, text_ltb, Dict, lookup, has_key,
}
use minecraft_server_manager.LauncherSync.Manifest.{ManifestEntry}

pub record LocalFile : Type 0 where
  pub path : Text
  pub sha256 : Text
  pub disabled : Bool

pub record Install : Type 0 where
  pub path : Text
  pub sha256 : Text
  pub size : ℕ
  pub disabled : Bool

-- A note is the path of a file that the file server's version replaces.
pub record Plan : Type 0 where
  pub installs : List Install
  pub removes : List Text
  pub adopts : List (Text × Text)
  pub unchanged : ℕ
  pub notes : List Text

abbrev pub empty_plan : Plan
empty_plan = record { installs = []; removes = []; adopts = []; unchanged = 0; notes = [] }

unfoldable pub changes : Plan → ℕ
changes p = length p.installs + length p.removes

abbrev total_size : List Install → ℕ
total_size [] = 0
total_size (i ∷ is) = i.size + total_size is

unfoldable pub download_bytes : Plan → ℕ
download_bytes p = total_size p.installs

abbrev pub state_for : ManifestEntry → Option LocalFile → Bool
state_for e none = e.disabled
state_for e (some current) = current.disabled

abbrev pub is_current : ManifestEntry → Option LocalFile → Bool
is_current e none = false
is_current e (some current) = text_eq current.sha256 e.sha256

abbrev pub install_of : ManifestEntry → Option LocalFile → Install
install_of e current = record {
  path = e.path;
  sha256 = e.sha256;
  size = e.size;
  disabled = state_for e current;
}

-- One turn of the loop of `compute_plan`, put before what the rest of the loop gives.
unfoldable pub plan_entry : ManifestEntry → Option LocalFile → Bool → Plan → Plan
plan_entry e current tracked rest =
    if is_current e current
    then (if tracked
        then record rest { unchanged = rest.unchanged + 1 }
        else record rest { adopts = (e.path, e.sha256) ∷ rest.adopts })
    else record rest {
      installs = install_of e current ∷ rest.installs;
      notes = if is_some current && not tracked then e.path ∷ rest.notes else rest.notes;
    }

unfoldable pub plan_entries : List ManifestEntry → Dict Text LocalFile → Dict Text Text → Plan
unfolding plan_entry
plan_entries [] local tracked = empty_plan
plan_entries (e ∷ es) local tracked =
    plan_entry e (lookup e.path local) (has_key e.path tracked) (plan_entries es local tracked)

abbrev pub insert_sorted : Text → List Text → List Text
insert_sorted t [] = t ∷ []
insert_sorted t (u ∷ us) =
    let rest = insert_sorted t us in if text_ltb u t then u ∷ rest else t ∷ u ∷ us

-- `sorted` of texts.
unfoldable pub sorted_texts : List Text → List Text
sorted_texts [] = []
sorted_texts (t ∷ ts) = insert_sorted t (sorted_texts ts)

abbrev pub is_wanted : List ManifestEntry → Text → Bool
is_wanted entries path = any (λ e. text_eq path e.path) entries

abbrev pub unwanted : List ManifestEntry → Dict Text Text → List Text
unwanted entries [] = []
unwanted entries ((path, sha256) ∷ rest) =
    if is_wanted entries path then unwanted entries rest else path ∷ unwanted entries rest

unfoldable pub compute_plan : List ManifestEntry → Dict Text LocalFile → Dict Text Text → Plan
unfolding sorted_texts
compute_plan entries local tracked = record (plan_entries entries local tracked) {
  removes = sorted_texts (unwanted entries tracked);
}

abbrev pub mass_deletion_min : ℕ
mass_deletion_min = 5

-- The ratio is one half.
unfoldable pub is_mass_deletion : Plan → ℕ → Bool
is_mass_deletion plan tracked_count =
    ltb mass_deletion_min (length plan.removes) && ltb tracked_count (2 * length plan.removes)
