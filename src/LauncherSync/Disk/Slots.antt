-- ===== src/LauncherSync/Disk/Slots.antt =====
-- What one installation and one removal change on the disk (launcher_sync/disk.py, apply_plan).
use minecraft_server_manager.Prelude.{
  ◌≡◌, refl, inl, inr, Bool-cases, Bool, false, Option, none, some, if◌then◌else◌, Text, text_key,
  text_eq, lookup, insert, erase, lookup-insert, lookup-erase, beq_refl,
}
use minecraft_server_manager.LauncherSync.Plan.{Install}
use minecraft_server_manager.LauncherSync.Disk.{
  Bytes, Files, disabled_name, target_name, other_name, temporary_name,
}
use minecraft_server_manager.LauncherSync.Disk.Names.{
  IsPlain, IsOrdinary, plain-disabled, disabled-plain, disabled-disabled, ordinary-temporary,
  disabled-temporary,
}

-- What the disk holds under the two names of a file.
abbrev pub slot : Text → Files → Option Bytes × Option Bytes
slot path files = (lookup path files, lookup (disabled_name path) files)

abbrev pub slot_of : Bool → Bytes → Option Bytes × Option Bytes
slot_of disabled content = if disabled then (none, some content) else (some content, none)

lookup-put :
    (other target q : Text) (content : Bytes) (files : Files)
    → lookup q (erase other (insert target content files)) ≡ (
        if text_eq q other then none else if text_eq q target then some content else lookup q files)
lookup-put other target q content files =
    rw (lookup-erase other q (insert target content files), lookup-insert target q content files)
      refl

lookup-drop :
    (disabled active q : Text) (files : Files)
    → lookup q (erase disabled (erase active files))
      ≡ (if text_eq q disabled then none else if text_eq q active then none else lookup q files)
lookup-drop disabled active q files =
    rw (lookup-erase disabled q (erase active files), lookup-erase active q files) refl

-- The temporary copy is gone, and the names of an ordinary path are as they were.
pub slot-temporary :
    (target q : Text) (content : Bytes) (files : Files)
    → IsOrdinary q
    → slot q (erase (temporary_name target) (insert (temporary_name target) content files))
      ≡ slot q files
slot-temporary target q content files h =
    rw (lookup-put, lookup-put, ordinary-temporary q target h, disabled-temporary q target) refl

pub slot-install :
    (i : Install) (content : Bytes) (files : Files)
    → IsPlain i.path
    → slot i.path (erase (other_name i) (insert (target_name i) content files))
      ≡ slot_of i.disabled content
slot-install i content files plain =
    let up = plain-disabled i.path i.path plain in
    let down = disabled-plain i.path i.path plain in
    let active = beq_refl i.path in
    let shown = beq_refl (disabled_name i.path) in
    elim (Bool-cases i.disabled) [
      | inl off ↦ rw (off, lookup-put, lookup-put, up, down, active, shown) refl
      | inr on ↦ rw (on, lookup-put, lookup-put, up, down, active, shown) refl
    ]

pub slot-install_other :
    (i : Install) (content : Bytes) (files : Files) (q : Text)
    → IsPlain i.path
    → IsPlain q
    → text_eq q i.path ≡ false
    → slot q (erase (other_name i) (insert (target_name i) content files)) ≡ slot q files
slot-install_other i content files q plain plain_q differ =
    let up = plain-disabled q i.path plain_q in
    let down = disabled-plain q i.path plain in
    let both = disabled-disabled q i.path differ in
    elim (Bool-cases i.disabled) [
      | inl off ↦ rw (off, lookup-put, lookup-put, up, down, both, differ) refl
      | inr on ↦ rw (on, lookup-put, lookup-put, up, down, both, differ) refl
    ]

pub slot-remove :
    (path : Text) (files : Files)
    → slot path (erase (disabled_name path) (erase path files)) ≡ (none, none)
slot-remove path files =
    let active = beq_refl path in
    let shown = beq_refl (disabled_name path) in
    elim (Bool-cases (text_eq path (disabled_name path))) [
      | inl same ↦ rw (lookup-drop, lookup-drop, same, shown) refl
      | inr other ↦ rw (lookup-drop, lookup-drop, other, active, shown) refl
    ]

pub slot-remove_other :
    (path : Text) (files : Files) (q : Text)
    → IsPlain path
    → IsPlain q
    → text_eq q path ≡ false
    → slot q (erase (disabled_name path) (erase path files)) ≡ slot q files
slot-remove_other path files q plain plain_q differ =
    rw
      (
        lookup-drop,
        lookup-drop,
        plain-disabled q path plain_q,
        disabled-plain q path plain,
        disabled-disabled q path differ,
        differ,
      )
      refl
