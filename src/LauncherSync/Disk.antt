-- ===== src/LauncherSync/Disk.antt =====
-- backend/msm/launcher_sync/disk.py: the inventory of a server's files, and a plan applied to them.
pub mod Names
pub mod Slots
pub mod Applied
pub mod Obeyed
pub mod Inventory
mod Tests
use minecraft_server_manager.Prelude.{
  ℕ, ◌-◌, Bool, true, false, ◌&&◌, not, Option, none, some, List, [], ◌∷◌, ◌++◌, length, take,
  last_n, ◌==◌, if◌then◌else◌, is_some, Text, codes, text_key, text_eq, Dict, lookup, insert, erase,
}
use minecraft_server_manager.Prelude.Fallible.{Fallible, done, failed, ◌>>=◌}
use minecraft_server_manager.LauncherSync.Plan.{LocalFile, Install, Plan}

abbrev pub disabled_suffix : Text
disabled_suffix = codes ".disabled"

-- `text.endswith(suffix)` for a suffix that is not empty.
abbrev pub ends_with : Text → Text → Bool
ends_with suffix text = text_eq (last_n (length suffix) text) suffix

-- `path + DISABLED_SUFFIX`
abbrev pub disabled_name : Text → Text
disabled_name path = path ++ disabled_suffix

-- `relative[: -len(DISABLED_SUFFIX)]`
abbrev pub without_suffix : Text → Text
without_suffix relative = take (length relative - length disabled_suffix) relative

-- The suffix of the temporary copy, which stands in the folder of the target.
abbrev pub temporary_suffix : Text
temporary_suffix = codes ".msm-tmp"

abbrev pub temporary_name : Text → Text
temporary_name target = target ++ temporary_suffix

-- The name of the file that an installation writes, and of the variant that it deletes.
abbrev pub target_name : Install → Text
target_name i = if i.disabled then disabled_name i.path else i.path

abbrev pub other_name : Install → Text
other_name i = if i.disabled then i.path else disabled_name i.path

pub data DiskError : Type 0 where
  outside_root not_prepared refused_call : DiskError

abbrev pub Bytes : Type 0
Bytes = List ℕ

-- A regular file under a synchronised folder, as `rglob` and `stat` report it.
pub record ScannedFile : Type 0 where
  pub relative : Text
  pub size : ℕ
  pub mtime_ns : ℕ
  pub content : Bytes

-- The size and date at which a fingerprint was computed, and the fingerprint.
pub record Known : Type 0 where
  pub size : ℕ
  pub mtime_ns : ℕ
  pub sha256 : Text

abbrev pub is_active : Option LocalFile → Bool
is_active none = false
is_active (some file) = not file.disabled

-- `sha256_of`
module _ (sha256_of : Bytes → Text) where
  abbrev pub digest_of : Option Known → ScannedFile → Text
  digest_of none file = sha256_of file.content
  digest_of (some cached) file =
      if cached.size == file.size && cached.mtime_ns == file.mtime_ns
      then cached.sha256
      else sha256_of file.content

  unfoldable pub scan_file :
      Dict Text Known → Dict Text LocalFile → ScannedFile → Dict Text LocalFile
  scan_file known found file =
      let disabled = ends_with disabled_suffix file.relative in
      let path = if disabled then without_suffix file.relative else file.relative in
      let digest = digest_of (lookup file.relative known) file in
      if is_active (lookup path found)
      then found
      else insert path (record { path = path; sha256 = digest; disabled = disabled }) found

  -- `scan_local`, the files of the synchronised folders being listed.
  unfoldable pub scan_local :
      Dict Text Known → Dict Text LocalFile → List ScannedFile → Dict Text LocalFile
  unfolding scan_file
  scan_local known found [] = found
  scan_local known found (file ∷ files) = scan_local known (scan_file known found file) files

-- The files of the server's folder by name, and the prepared files by fingerprint.
abbrev pub Files : Type 0
Files = Dict Text Bytes

-- What is asked of the file system: the folder of a file, with those above it, a copy, a replacement,
-- and the deletion of a file if it exists.
pub data FileCall : Type 0 where
  make_parent : Text → FileCall
  copy_to : Text → FileCall
  replace : Text → Text → FileCall
  delete : Text → FileCall

-- A step that succeeds is followed by the next one; an error leaves what has been done.
abbrev pub and_then :
    Option DiskError × Files → (Files → Option DiskError × Files) → Option DiskError × Files
and_then (some error, files) next = (some error, files)
and_then (none, files) next = next files

abbrev pub each :
    {A : Type 0}
    → (A → Files → Option DiskError × Files)
    → List A
    → Files
    → Option DiskError × Files
each step [] files = (none, files)
each step (x ∷ xs) files = and_then (step x files) (each step xs)

abbrev pub answered : Option Files → Files → Option DiskError × Files
answered (some left) after = (some refused_call, left)
answered none after = (none, after)

abbrev pub resolved :
    Fallible DiskError Text → Files → (Text → Option DiskError × Files) → Option DiskError × Files
resolved (failed error) files next = (some error, files)
resolved (done name) files next = next name

-- `resolve_within(server_dir, name)`; `refuses` is the file system's answer to a call: none where it
-- does what is asked, else the files that the call leaves when it raises an OSError.
module _ (resolve : Text → Fallible DiskError Text) (refuses : FileCall → Files → Option Files)
    (staging : Files) where
  -- The copy beside the target, its renaming, and the deletion of the other variant.
  unfoldable pub copy_in : Text → Text → Option Bytes → Files → Option DiskError × Files
  copy_in target other none files = (some not_prepared, files)
  copy_in target other (some content) files =
      let temporary = temporary_name target in
      and_then (answered (refuses (copy_to temporary) files) (insert temporary content files))
        λ copied.
          and_then
            (answered (refuses (replace temporary target) copied)
              (insert target content (erase temporary copied)))
            λ placed. answered (refuses (delete other) placed) (erase other placed)

  -- One turn of the loop over the installations.
  unfoldable pub install_file : Install → Files → Option DiskError × Files
  unfolding copy_in
  install_file i files = resolved (resolve (target_name i)) files λ target.
      resolved (resolve (other_name i)) files λ other.
        and_then (answered (refuses (make_parent target) files) files)
          (copy_in target other (lookup i.sha256 staging))

  abbrev pub remove_name : Text → Files → Option DiskError × Files
  remove_name name files =
      resolved (resolve name) files
        λ target. answered (refuses (delete target) files) (erase target files)

  -- One turn of the loop over the removals.
  unfoldable pub remove_file : Text → Files → Option DiskError × Files
  remove_file path files = and_then (remove_name path files) (remove_name (disabled_name path))

  unfoldable pub apply_plan : Plan → Files → Option DiskError × Files
  unfolding install_file remove_file
  apply_plan plan files =
      and_then (each install_file plan.installs files) (each remove_file plan.removes)
