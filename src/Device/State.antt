-- ===== src/Device/State.antt =====
-- The state of a `DLightDevice`, its constructor, and what its methods do to the cached dict.
use dlight_client.Common.{ℕ, String, Option, none, some, Bool, List, [], ◌∷◌, ◌==◌, if◌then◌else◌}
use dlight_client.Errors.{value_error, type_error, attribute_error, Result, ok, err}
use dlight_client.Json.{
  Json, null, arr, obj, Fields, end, field, get, put, remove, has_item, truthy,
}

-- A state as a listener is told it: which callback, the old and the new state.
pub record Notice : Type 0 where
  pub callback : ℕ
  pub old : Json
  pub new : Json

-- The callbacks are known by their identity. `notified` is what they have been called with.
pub record Device : Type 0 where
  pub ip : List ℕ
  pub id : String
  pub state : Json
  pub listeners : List ℕ
  pub notified : List Notice

-- `DLightDevice(ip_address, device_id, client)`; `has_client` is whether a client was given
unfoldable pub new_device : List ℕ → String → Bool → Result Device
new_device [] device_id has_client = err value_error
new_device (c ∷ ip) device_id has_client =
    if device_id == ""
    then err value_error
    else if has_client
    then ok (record { ip = c ∷ ip; id = device_id; state = obj end; listeners = []; notified = [] })
    else err value_error

-- `_clone_state`: copies are equal, so only the errors show. A list has `copy`, and it is indexed
-- by a text if that is in it.
unfoldable pub clone_state : Json → Result Json
clone_state (obj fs) = ok (obj fs)
clone_state (arr xs) = if has_item "color" xs then err type_error else ok (arr xs)
clone_state _ = err attribute_error

-- `x if x is not None`
abbrev pub not_none : Option Json → Option Json
not_none none = none
not_none (some null) = none
not_none (some v) = some v

-- The rollback of one key: its old value if there was one, and no key otherwise.
unfoldable pub restore : String → Option Json → Fields → Fields
restore key old fs = elim (not_none old) [ some v ↦ put key v fs | none ↦ remove key fs ]

abbrev pub with_temperature : Option Json → Json → Json
with_temperature (some (obj color)) temperature = obj (put "temperature" temperature color)
with_temperature _ temperature = obj (field "temperature" temperature end)

-- The optimistic update of the colour: a dict is written to, anything else is replaced.
unfoldable pub put_temperature : Json → Fields → Fields
put_temperature temperature fs = put "color" (with_temperature (get "color" fs) temperature) fs

-- `x.copy()`
abbrev pub copy : Json → Result Json
copy (obj fs) = ok (obj fs)
copy (arr xs) = ok (arr xs)
copy _ = err attribute_error

abbrev pub as_some : Result Json → Result (Option Json)
as_some (ok v) = ok (some v)
as_some (err e) = err e

-- `old_color` of `set_color_temperature`, as it is when the rollback reads it. Only a true value is
-- copied. An empty dict is the very dict that the update then writes the new temperature to.
unfoldable pub saved_color : Json → Option Json → Result (Option Json)
saved_color temperature none = ok none
saved_color temperature (some (obj end)) = ok (some (obj (field "temperature" temperature end)))
saved_color temperature (some v) = if truthy v then as_some (copy v) else ok (some v)

-- `old_color` of `apply_scene`, which is copied if it is not `None`.
unfoldable pub copied_color : Option Json → Result (Option Json)
copied_color none = ok none
copied_color (some null) = ok (some null)
copied_color (some v) = as_some (copy v)
