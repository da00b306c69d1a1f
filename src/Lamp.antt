-- ===== src/Lamp.antt =====
-- tools/fake_dlight_server.py: the emulated lamp with its failure injection. The `delay`, which only
-- makes a reply late, is in Control.
pub mod Control
pub mod Modes
pub mod Reports
pub mod Server
pub mod Announcer
use dlight_client.Common.{
  ℕ, zero, suc, Option, none, some, Bool, true, false, String, ℤ, pos, negsuc, ◌==◌, if◌then◌else◌,
}
use dlight_client.Errors.{
  Result, ok, err, and_then, Action, pure, lift, ◌>>=◌, ◌>>◌, type_error, value_error, key_error,
}
use dlight_client.Json.{
  Json, null, bool, num, str, arr, obj, Items, nil, cons, Fields, end, field, get, put, truthy,
  bool_ℤ, contains,
}
use dlight_client.Models.{
  acknowledged, command_type_execute, command_type_query_device_states,
  command_type_query_device_info,
}

pub data Mode : Type 0 where
  normal hang reset drop : Mode

abbrev pub is_normal : Mode → Bool
is_normal normal = true
is_normal _ = false

pub record FailureModes : Type 0 where
  pub mode : Mode
  pub remaining : Option ℤ

unfoldable pub set_mode : Mode → Option ℤ → FailureModes
set_mode mode count = record { mode = mode; remaining = if is_normal mode then none else count }

-- `self.remaining -= 1`, then `if self.remaining <= 0`
abbrev pub count_down : Mode → ℤ → FailureModes
count_down mode (pos (suc (suc n))) = record { mode = mode; remaining = some (pos (suc n)) }
count_down mode _ = set_mode normal none

unfoldable pub take : FailureModes → Mode × FailureModes
unfolding set_mode
take f = elim f.remaining [
  | none ↦ (f.mode, f)
  | some n ↦ (f.mode, if is_normal f.mode then f else count_down f.mode n)
]

-- The dict `state`, which always has these three entries, of these types.
pub record Light : Type 0 where
  pub on : Bool
  pub brightness : ℤ
  pub temperature : ℤ

abbrev pub initial_light : Light
initial_light = record { on = false; brightness = pos 100; temperature = pos 4000 }

abbrev pub states : Light → Fields
states l = field "on" (bool l.on) (
    field "brightness" (num l.brightness)
      (field "color" (obj (field "temperature" (num l.temperature) end)) end))

-- `info`
pub record Info : Type 0 where
  pub device_id : String
  pub model : String
  pub sw_version : String
  pub hw_version : String

-- `x[k]`; a list has no string indices, and neither has a string.
unfoldable pub subscript : String → Json → Result Json
subscript k (obj fs) = elim (get k fs) [ none ↦ err key_error | some v ↦ ok v ]
subscript k _ = err type_error

-- `response.update(self.info)`
unfoldable pub with_info : Info → Fields → Fields
with_info i fs = put "hwVersion" (str i.hw_version) (
    put "swVersion" (str i.sw_version)
      (put "deviceModel" (str i.model) (put "deviceId" (str i.device_id) fs)))

-- The keys of a dict, which is what a loop over it gives.
abbrev pub keys : Fields → Items
keys end = nil
keys (field k v fs) = cons (str k) (keys fs)

-- What a loop over a value gives. No letter of a string contains a key, so that loop has no effect.
abbrev pub iterate : Option Json → Result Items
iterate none = ok nil
iterate (some (arr xs)) = ok xs
iterate (some (obj fs)) = ok (keys fs)
iterate (some (str s)) = ok nil
iterate (some _) = err type_error

-- `int_of` is Python's `int` of a text; `none` is a `ValueError`.
module _ (int_of : String → Option ℤ) where
  abbrev pub parsed : Option ℤ → Result ℤ
  parsed none = err value_error
  parsed (some z) = ok z

  abbrev pub to_int : Json → Result ℤ
  to_int (num z) = ok z
  to_int (bool b) = ok (bool_ℤ b)
  to_int (str s) = parsed (int_of s)
  to_int _ = err type_error

  -- `if key in x:` before a step with `x[key]`
  abbrev pub if_key :
      Bool → String → Json → (Json → Action Light (Unit {0})) → Action Light (Unit {0})
  if_key true key x step = lift (subscript key x) >>= step
  if_key false key x step = pure tt

  unfoldable pub when_key :
      String → Json → (Json → Action Light (Unit {0})) → Action Light (Unit {0})
  when_key key x step = lift (contains key x) >>= λ found. if_key found key x step

  abbrev pub set_on : Json → Action Light (Unit {0})
  set_on x l = (ok tt, record l { on = truthy x })

  abbrev pub set_brightness : Json → Action Light (Unit {0})
  set_brightness x = lift (to_int x) >>= λ z l. (ok tt, record l { brightness = z })

  abbrev pub set_temperature : Json → Action Light (Unit {0})
  set_temperature x = lift (to_int x) >>= λ z l. (ok tt, record l { temperature = z })

  -- `_apply`
  unfoldable pub apply : Json → Action Light (Unit {0})
  unfolding when_key subscript
  apply execution =
      when_key "on" execution set_on
      >> when_key "brightness" execution set_brightness
      >> when_key "color" execution λ color. when_key "temperature" color set_temperature

  unfoldable pub apply_all : Items → Action Light (Unit {0})
  unfolding apply
  apply_all nil = pure tt
  apply_all (cons x xs) = apply x >> apply_all xs

  abbrev pub answer : Info → Fields → Option Json → Action Light Fields
  answer info command (some (str t)) =
      if t == command_type_query_device_info
      then pure (with_info info acknowledged)
      else if t == command_type_query_device_states
      then (λ l. (ok (put "states" (obj (states l)) acknowledged), l))
      else if t == command_type_execute
      then (lift (iterate (get "commands" command)) >>= apply_all) >> pure acknowledged
      else pure acknowledged
  answer info command _ = pure acknowledged

  unfoldable pub handle_command : Info → Fields → Action Light Fields
  unfolding apply_all with_info
  handle_command info command = answer info command (get "commandType" command)
