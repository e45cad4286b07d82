-- ===== src/Prelude/Json.antt =====
-- A decoded JSON document as Python holds it, read with `dict.get` and `str`.
use mathlib.Core.Bool.{Bool, true, false, not}
use mathlib.Core.List.{List, [], ◌∷◌}
use minecraft_server_manager.Prelude.Tests.{if◌then◌else◌}
use minecraft_server_manager.Prelude.Strings.{Text, text_eq}
use minecraft_server_manager.Prelude.Int.{ℤ, is_zero}
use minecraft_server_manager.Prelude.Trim.{is_empty}

-- A float is the text that `str` prints, and whether it is zero.
mutual
  pub data Json : Type 0 where
    null : Json
    boolean : Bool → Json
    number : ℤ → Json
    float : Text → Bool → Json
    text : Text → Json
    array : Items → Json
    object : Fields → Json

  pub data Items : Type 0 where
    end : Items
    item : Json → Items → Items

  pub data Fields : Type 0 where
    blank : Fields
    field : Text → Json → Fields → Fields

-- `raw.get(key)`: `null` when the key is missing.
abbrev pub get : Text → Fields → Json
get key blank = null
get key (field name value rest) = if text_eq key name then value else get key rest

-- `raw.get(key, default)`
abbrev pub get_or : Text → Json → Fields → Json
get_or key default blank = default
get_or key default (field name value rest) =
    if text_eq key name then value else get_or key default rest

abbrev has_items : Items → Bool
has_items end = false
has_items (item value rest) = true

abbrev has_fields : Fields → Bool
has_fields blank = false
has_fields (field name value rest) = true

-- `bool(value)`
abbrev pub is_true : Json → Bool
is_true null = false
is_true (boolean b) = b
is_true (number n) = not (is_zero n)
is_true (float printed zero) = not zero
is_true (text t) = not (is_empty t)
is_true (array items) = has_items items
is_true (object fields) = has_fields fields

abbrev pub size_of : Items → List Json
size_of end = []
size_of (item value rest) = value ∷ size_of rest

-- `str(value)`: a text prints as itself, what else prints is given.
abbrev pub str : (Json → Text) → Json → Text
str printed (text t) = t
str printed value = printed value
