-- ===== src/LauncherSync/Service/Rows.antt =====
-- The files that the interface shows after a synchronisation (services/launcher_service.py).
use minecraft_server_manager.Prelude.{
  ◌≡◌, refl, ap, ◌∙◌, inl, inr, Bool-cases, Bool, true, false, ◌||◌, not, Option, none, some, List,
  [], ◌∷◌, map, keep, All, arith, Text, text_key, text_ltb, Dict, member,
}
use minecraft_server_manager.Prelude.Trim.{is_empty}
use minecraft_server_manager.LauncherSync.Manifest.{ManifestEntry}
use minecraft_server_manager.LauncherSync.Plan.{
  LocalFile, Plan, is_current, is_wanted, insert_sorted, sorted_texts, unwanted, compute_plan,
}
use minecraft_server_manager.LauncherSync.Disk.{Bytes, Files}
use minecraft_server_manager.LauncherSync.Disk.Slots.{slot}
use minecraft_server_manager.LauncherSync.Disk.Inventory.{version}
use minecraft_server_manager.LauncherSync.Disk.Applied.{Distinct}
use minecraft_server_manager.LauncherSync.Plan.Installs.{entry_path}
use minecraft_server_manager.LauncherSync.State.{SyncStatus, up_to_date, applied, Row}
use minecraft_server_manager.LauncherSync.Service.{
  Sides, is_client, client_side, row_of, entry_of, installed_state, mark_row, mark_applied,
}

abbrev pub row_path : Row → Text
row_path row = row.path

-- The ends that a synchronisation reports as a success.
abbrev pub is_success : SyncStatus → Bool
is_success up_to_date = true
is_success applied = true
is_success _ = false

-- The file is for the players only, or the disk holds it with the fingerprint of the manifest.
abbrev pub is_served : (Bytes → Text) → Files → Row → Bool
is_served sha256_of files row =
    is_client row.side
    || is_current (entry_of row) (version sha256_of row.path (slot row.path files))

absent-keep :
    (p : ManifestEntry → Bool) (q : Text) (es : List ManifestEntry)
    → member q (map entry_path es) ≡ false
    → member q (map entry_path (keep p es)) ≡ false
absent-keep p q [] h = refl
absent-keep p q (e ∷ es) h = ground (arith, absent-keep p q es)

pub Distinct-keep :
    (p : ManifestEntry → Bool) (es : List ManifestEntry)
    → Distinct (map entry_path es)
    → Distinct (map entry_path (keep p es))
Distinct-keep p [] h = tt
Distinct-keep p (e ∷ es) h = elim (Bool-cases (p e)) [
  | inl kept ↦ rw kept (absent-keep p e.path es h.0, Distinct-keep p es h.1)
  | inr gone ↦ rw gone (Distinct-keep p es h.1)
]

pub paths-keep :
    (P : Text → Type 0) (p : ManifestEntry → Bool) (es : List ManifestEntry)
    → All P (map entry_path es)
    → All (λ e. P e.path) (keep p es)
paths-keep P p [] h = tt
paths-keep P p (e ∷ es) h = elim (Bool-cases (p e)) [
  | inl kept ↦ rw kept (h.0, paths-keep P p es h.1)
  | inr gone ↦ rw gone (paths-keep P p es h.1)
]

pub paths-rows :
    (local : Dict Text LocalFile) (sides : Sides) (es : List ManifestEntry)
    → map row_path (map (row_of local sides) es) ≡ map entry_path es
paths-rows local sides [] = refl
paths-rows local sides (e ∷ es) = ap (λ l. e.path ∷ l) (paths-rows local sides es)

path-mark : (o : Option Bool) (row : Row) → (mark_row o row).path ≡ row.path
path-mark none row = refl
path-mark (some b) row = refl

pub paths-mark_applied :
    (plan : Plan) (rows : List Row) → map row_path (mark_applied plan rows) ≡ map row_path rows
unfolding mark_applied
paths-mark_applied plan [] = refl
paths-mark_applied plan (row ∷ rows) =
    rw (path-mark (installed_state plan.installs row.path) row, paths-mark_applied plan rows) refl

module _ (sha256_of : Bytes → Text) (files : Files) where
  abbrev pub AreServed : List Row → Type 0
  AreServed rows = All (λ row. is_served sha256_of files row ≡ true) rows

  served-mark :
      (o : Option Bool) (row : Row)
      → is_served sha256_of files (mark_row o row) ≡ is_served sha256_of files row
  served-mark none row = refl
  served-mark (some b) row = refl

  pub mark-AreServed :
      (plan : Plan) (rows : List Row) → AreServed rows → AreServed (mark_applied plan rows)
  unfolding mark_applied
  mark-AreServed plan [] h = tt
  mark-AreServed plan (row ∷ rows) h =
      (served-mark (installed_state plan.installs row.path) row ∙ h.0, mark-AreServed plan rows h.1)

  pub rows-AreServed :
      (local : Dict Text LocalFile) (sides : Sides) (es : List ManifestEntry)
      → All
          (λ e. is_current e (version sha256_of e.path (slot e.path files)) ≡ true)
          (keep (λ e. not (client_side sides e)) es)
      → AreServed (map (row_of local sides) es)
  rows-AreServed local sides [] h = tt
  rows-AreServed local sides (e ∷ es) h = elim (Bool-cases (client_side sides e)) [
    | inl hidden ↦ (rw hidden refl, rows-AreServed local sides es (rw hidden at h))
    | inr shown ↦
        let kept = rw shown at h in (rw shown kept.0, rows-AreServed local sides es kept.1)
  ]

insert_sorted-All :
    (P : Text → Type 0) (t : Text) (ts : List Text) → P t → All P ts → All P (insert_sorted t ts)
insert_sorted-All P t [] h k = (h, tt)
insert_sorted-All P t (u ∷ us) h k = elim (Bool-cases (text_ltb u t)) [
  | inl later ↦ rw later (k.0, insert_sorted-All P t us h k.1)
  | inr here ↦ rw here (h, k)
]

sorted_texts-All : (P : Text → Type 0) (ts : List Text) → All P ts → All P (sorted_texts ts)
unfolding sorted_texts
sorted_texts-All P [] h = tt
sorted_texts-All P (t ∷ ts) h =
    insert_sorted-All P t (sorted_texts ts) h.0 (sorted_texts-All P ts h.1)

unwanted-All :
    (P : Text → Type 0) (entries : List ManifestEntry) (tracked : Dict Text Text)
    → All (λ kept. P kept.0) tracked
    → All P (unwanted entries tracked)
unwanted-All P entries [] h = tt
unwanted-All P entries ((path, sha256) ∷ rest) h = elim (Bool-cases (is_wanted entries path)) [
  | inl wanted ↦ rw wanted (unwanted-All P entries rest h.1)
  | inr gone ↦ rw gone (h.0, unwanted-All P entries rest h.1)
]

-- What holds of the paths that MSM remembers holds of those that a plan removes.
pub removes-All :
    (P : Text → Type 0) (entries : List ManifestEntry) (local : Dict Text LocalFile)
    (tracked : Dict Text Text)
    → All (λ kept. P kept.0) tracked
    → All P (compute_plan entries local tracked).removes
unfolding compute_plan
removes-All P entries local tracked h =
    sorted_texts-All P (unwanted entries tracked) (unwanted-All P entries tracked h)

pub empty-All : {A : Type 0} (P : A → Type 0) (xs : List A) → is_empty xs ≡ true → All P xs
empty-All P [] h = tt
empty-All P (x ∷ xs) h = cc
