-- ===== src/Minecraft/Tests.antt =====
-- A file of three properties.
use minecraft_server_manager.Prelude.{◌≡◌, refl, true, false, none, some, [], ◌∷◌, codes}
use minecraft_server_manager.Prelude.Fallible.{done}
use minecraft_server_manager.Prelude.Trim.{strip, is_space}
use minecraft_server_manager.Minecraft.Properties.{
  starts_key, read_line, last_entry, Applied, write_change, known_properties, meta_by_key, Python,
  validate_value, reject_line_breaks, apply_loop, apply_changes,
}
use minecraft_server_manager.Minecraft.Properties.Changes.{
  IsPropertyKey, IsChanged, write_change-IsChanged,
}

abbrev test_file : Applied
test_file = record {
  lines = codes "#Minecraft" ∷ codes "motd=Hello" ∷ codes "pvp = true" ∷ [];
  applied = [];
  needs_restart = false;
}

pvp-IsPropertyKey : IsPropertyKey (codes "pvp")
unfolding starts_key strip is_space
pvp-IsPropertyKey = (refl, refl, refl)

write_change-IsChanged_example :
    IsChanged test_file.lines
      (write_change test_file.lines (codes "pvp") (codes "false") test_file).lines
      (codes "pvp")
      (codes "false")
      (codes "motd")
unfolding strip is_space
write_change-IsChanged_example =
    write_change-IsChanged test_file (codes "pvp") (codes "false") (codes "motd") pvp-IsPropertyKey
      refl refl

changed_lines :
    (write_change test_file.lines (codes "pvp") (codes "false") test_file).lines
    ≡ codes "#Minecraft" ∷ codes "motd=Hello" ∷ codes "pvp=false" ∷ []
unfolding write_change last_entry read_line starts_key strip is_space
changed_lines = refl

abbrev plain_python : Python
plain_python = record { lower = λ t. t; int_of_text = λ t. none; text_of_int = λ n. [] }

-- A key with a colon is accepted, and no entry of that key is read back.
colon_key :
    apply_changes plain_python (some []) ((codes "a:b", codes "c") ∷ [])
    ≡ done (record { lines = codes "a:b=c" ∷ []; applied = codes "a:b" ∷ []; needs_restart = true })
unfolding apply_changes apply_loop write_change last_entry validate_value reject_line_breaks strip
    is_space meta_by_key known_properties
colon_key = refl

colon_key_unread : last_entry (codes "a:b") 0 (codes "a:b=c" ∷ []) ≡ none
unfolding last_entry read_line starts_key strip is_space
colon_key_unread = refl
