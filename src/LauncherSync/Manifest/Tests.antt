-- ===== src/LauncherSync/Manifest/Tests.antt =====
-- A manifest of one mod and one disabled mod.
use minecraft_server_manager.Prelude.{
  ◌≡◌, refl, Bool, true, false, none, some, List, [], ◌∷◌, keep, All, not, codes, Text,
}
use minecraft_server_manager.Prelude.Fallible.{done, failed}
use minecraft_server_manager.Prelude.Int.{pos}
use minecraft_server_manager.Prelude.Json.{
  Json, text, number, array, object, end, item, Fields, blank, field,
}
use minecraft_server_manager.LauncherSync.Manifest.{
  Manifest, ManifestEntry, climbing_path, check_path, validate_path, read_checksum, read_size,
  read_side, read_entry, read_entries, check_twice, read_lists, parse_manifest, under,
}
use minecraft_server_manager.LauncherSync.Manifest.Accepted.{IsValid, parse_manifest-IsValid}
use minecraft_server_manager.LauncherSync.Plan.{compute_plan}
use minecraft_server_manager.LauncherSync.Inside.{IsSafe, compute_plan-IsSafe}

abbrev checksum : Text
checksum = codes "AB00000000000000000000000000000000000000000000000000000000000000"

abbrev lowered : Text
lowered = codes "ab00000000000000000000000000000000000000000000000000000000000000"

abbrev raw_entry : Text → Json
raw_entry path = object (
    field (codes "path") (text path)
      (field (codes "sha256") (text checksum) (field (codes "size") (number (pos 10)) blank)))

abbrev raw_manifest : Fields
raw_manifest = field (codes "files") (array (item (raw_entry (codes "mods/a.jar")) end)) (
    field (codes "disabledFiles") (array (item (raw_entry (codes "mods/b.jar")) end))
      (field (codes "packVersion") (text (codes "1")) blank))

abbrev as_is : Text → Text
as_is t = t

abbrev unprinted : Json → Text
unprinted value = []

abbrev expected_manifest : Manifest
expected_manifest = record {
  pack_version = some (codes "1");
  mc_version = none;
  loader = none;
  entries =
      record {
        path = codes "mods/a.jar";
        sha256 = lowered;
        size = 10;
        side = none;
        disabled = false;
      }
      ∷ record {
        path = codes "mods/b.jar";
        sha256 = lowered;
        size = 10;
        side = none;
        disabled = true;
      }
      ∷ [];
}

parsed : parse_manifest unprinted as_is as_is (object raw_manifest) ≡ done expected_manifest
unfolding parse_manifest read_lists read_entries read_entry validate_path check_path read_checksum
    read_size read_side check_twice
parsed = refl

climbs : check_path (codes "mods/../eula.txt") ≡ failed climbing_path
unfolding check_path
climbs = refl

parse_manifest-IsValid_example : IsValid unprinted as_is as_is raw_manifest expected_manifest
parse_manifest-IsValid_example =
    parse_manifest-IsValid unprinted as_is as_is raw_manifest expected_manifest parsed

abbrev mods : List Text
mods = codes "mods/" ∷ []

abbrev is_shown : ManifestEntry → Bool
is_shown e = not e.disabled

compute_plan-IsSafe_example :
    All IsSafe (compute_plan (keep is_shown (under mods expected_manifest)) [] []).installs
compute_plan-IsSafe_example =
    compute_plan-IsSafe unprinted as_is as_is raw_manifest expected_manifest mods is_shown [] []
      parsed
