-- ===== src/LauncherSync/Tests.antt =====
-- A manifest of two mods, on a server that has one of them and a mod of its own.
use minecraft_server_manager.Prelude.{
  ◌≡◌, refl, true, false, none, List, [], ◌∷◌, codes, Text, text_key, Dict,
}
use minecraft_server_manager.LauncherSync.Manifest.{ManifestEntry}
use minecraft_server_manager.LauncherSync.Plan.{LocalFile, compute_plan}

abbrev manifest : List ManifestEntry
manifest =
    record { path = codes "a.jar"; sha256 = codes "1"; size = 10; side = none; disabled = false }
    ∷ record { path = codes "b.jar"; sha256 = codes "2"; size = 20; side = none; disabled = true }
    ∷ []

abbrev on_disk : Dict Text LocalFile
on_disk =
    (codes "a.jar", record { path = codes "a.jar"; sha256 = codes "1"; disabled = false })
    ∷ (codes "own.jar", record { path = codes "own.jar"; sha256 = codes "9"; disabled = false })
    ∷ []

abbrev installed : Dict Text Text
installed = (codes "a.jar", codes "1") ∷ (codes "old.jar", codes "3") ∷ []

removed_files : (compute_plan manifest on_disk installed).removes ≡ codes "old.jar" ∷ []
unfolding compute_plan
removed_files = refl
