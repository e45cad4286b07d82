-- ===== src/LauncherSync/Disk/Obeyed.antt =====
-- A plan that is applied without an error has met no refusal of the file system (launcher_sync/disk.py,
-- apply_plan).
use minecraft_server_manager.Prelude.{
  ◌≡◌, refl, ap, Option, none, some, List, [], ◌∷◌, Text, text_key, lookup, insert, erase,
}
use minecraft_server_manager.Prelude.Fallible.{Fallible, done, failed}
use minecraft_server_manager.LauncherSync.Plan.{Install, Plan}
use minecraft_server_manager.LauncherSync.Disk.{
  Bytes, Files, DiskError, FileCall, copy_to, replace, delete, temporary_name, disabled_name,
  target_name, other_name, and_then, each, answered, resolved, copy_in, install_file, remove_name,
  remove_file, apply_plan,
}

-- The file system that does what it is asked.
abbrev pub obedient : FileCall → Files → Option Files
obedient call files = none

-- Where the first ends without an error, the second ends in the same way.
abbrev Follows : Option DiskError × Files → Option DiskError × Files → Type 0
Follows x y = (after : Files) → x ≡ (none, after) → y ≡ (none, after)

answered-Follows :
    (left : Option Files) (after : Files) → Follows (answered left after) (none, after)
answered-Follows none after f h = h
answered-Follows (some left) after f h = absurd (let bad = ap (λ r. r.0) h in cc)

and_then-Follows :
    (x y : Option DiskError × Files) (next next' : Files → Option DiskError × Files)
    → Follows x y
    → ((files : Files) → Follows (next files) (next' files))
    → Follows (and_then x next) (and_then y next')
and_then-Follows (some error, files) y next next' h k after ran =
    absurd (let bad = ap (λ r. r.0) ran in cc)
and_then-Follows (none, files) y next next' h k after ran = rw (h files refl) (k files after ran)

resolved-Follows :
    (name : Fallible DiskError Text) (files : Files) (next next' : Text → Option DiskError × Files)
    → ((target : Text) → Follows (next target) (next' target))
    → Follows (resolved name files next) (resolved name files next')
resolved-Follows (failed error) files next next' k after ran = ran
resolved-Follows (done target) files next next' k after ran = k target after ran

each-Follows :
    {A : Type 0} (step step' : A → Files → Option DiskError × Files)
    → ((x : A) (files : Files) → Follows (step x files) (step' x files))
    → (xs : List A) (files : Files) → Follows (each step xs files) (each step' xs files)
each-Follows step step' h [] files = λ after ran. ran
each-Follows step step' h (x ∷ xs) files =
    and_then-Follows (step x files) (step' x files) (each step xs) (each step' xs) (h x files)
      (each-Follows step step' h xs)

module _ (resolve : Text → Fallible DiskError Text) (refuses : FileCall → Files → Option Files)
    (staging : Files) where
  copy_in-Follows :
      (target other : Text) (content : Option Bytes) (files : Files)
      → Follows
          (copy_in resolve refuses staging target other content files)
          (copy_in resolve obedient staging target other content files)
  unfolding copy_in
  copy_in-Follows target other none files = λ after ran. ran
  copy_in-Follows target other (some content) files =
      let temporary = temporary_name target in
      and_then-Follows _ _ _ _
        (answered-Follows (refuses (copy_to temporary) files) (insert temporary content files))
        λ copied.
          and_then-Follows _ _ _ _
            (answered-Follows (refuses (replace temporary target) copied)
              (insert target content (erase temporary copied)))
            λ placed. answered-Follows (refuses (delete other) placed) (erase other placed)

  install_file-Follows :
      (i : Install) (files : Files)
      → Follows
          (install_file resolve refuses staging i files)
          (install_file resolve obedient staging i files)
  unfolding install_file
  install_file-Follows i files = resolved-Follows (resolve (target_name i)) files _ _ λ target.
      resolved-Follows (resolve (other_name i)) files _ _ λ other.
        and_then-Follows _ _ _ _ (answered-Follows _ _)
          (copy_in-Follows target other (lookup i.sha256 staging))

  remove_name-Follows :
      (name : Text) (files : Files)
      → Follows
          (remove_name resolve refuses staging name files)
          (remove_name resolve obedient staging name files)
  remove_name-Follows name files =
      resolved-Follows (resolve name) files _ _ λ target. answered-Follows _ _

  remove_file-Follows :
      (path : Text) (files : Files)
      → Follows
          (remove_file resolve refuses staging path files)
          (remove_file resolve obedient staging path files)
  unfolding remove_file
  remove_file-Follows path files =
      and_then-Follows _ _ _ _ (remove_name-Follows path files)
        (remove_name-Follows (disabled_name path))

  -- What a plan that is applied without an error leaves is what it leaves where the file system does
  -- all that it is asked.
  pub apply_plan-obedient :
      (plan : Plan) (files after : Files)
      → apply_plan resolve refuses staging plan files ≡ (none, after)
      → apply_plan resolve obedient staging plan files ≡ (none, after)
  unfolding apply_plan
  apply_plan-obedient plan files =
      and_then-Follows _ _ _ _ (each-Follows _ _ install_file-Follows plan.installs files)
        (each-Follows _ _ remove_file-Follows plan.removes)
