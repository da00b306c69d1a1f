-- ===== src/Device/Flash.antt =====
-- `flash` of device.py. The pauses between its commands change nothing and are left out.
pub mod Acceptance
pub mod Restoration
use dlight_client.Common.{
  ℕ, zero, suc, String, Option, none, some, Bool, true, false, if◌then◌else◌,
}
use dlight_client.Errors.{
  Error, attribute_error, Result, ok, err, is_exception, Action, pure, ◌>>=◌, ◌>>◌,
}
use dlight_client.Json.{Json, bool, obj, Fields, end, get, truthy}
use dlight_client.Remote.{Remote}
use dlight_client.Device.State.{not_none}
use dlight_client.Device.Operations.{
  Home, get_state, turn_on, turn_off, set_brightness, set_color_temperature,
}

-- What was read of the original state.
pub record Original : Type 0 where
  pub on : Option Json
  pub brightness : Option Json
  pub temperature : Option Json

abbrev nothing : Original
nothing = record { on = none; brightness = none; temperature = none }

-- `original_state.get("color", {}).get("temperature")`
abbrev pub temperature_of : Option Json → Result (Option Json)
temperature_of none = ok none
temperature_of (some (obj color)) = ok (get "temperature" color)
temperature_of (some _) = err attribute_error

abbrev pub reading : Original → Result (Option Json) → Original × Result (Unit {0})
reading o (ok t) = (record o { temperature = t }, ok tt)
reading o (err e) = (o, err e)

-- What is known of the original state, and the error if reading it stopped halfway.
unfoldable pub read_original : Json → Original × Result (Unit {0})
read_original (obj end) = (record nothing { on = some (bool false) }, ok tt)
read_original (obj fs) =
    reading (record { on = get "on" fs; brightness = get "brightness" fs; temperature = none })
      (temperature_of (get "color" fs))
read_original x =
    if truthy x
    then (nothing, err attribute_error)
    else (record nothing { on = some (bool false) }, ok tt)

module _ (R : Remote) where
  -- the rounds of OFF and ON
  unfoldable pub flash_loop : ℕ → Action (Home R) (Unit {0})
  flash_loop zero = pure tt
  flash_loop (suc n) = turn_off R >> (turn_on R >> flash_loop n)

  abbrev pub if_known : Option Json → (Json → Action (Home R) Fields) → Action (Home R) (Unit {0})
  if_known none set = pure tt
  if_known (some v) set = set v >> pure tt

  abbrev pub restore_on : Option Json → Action (Home R) Fields
  restore_on none = turn_on R
  restore_on (some v) = if truthy v then turn_on R else turn_off R

  -- The body of the `try` in the `finally`.
  unfoldable pub restore_original : Original → Action (Home R) Fields
  restore_original o =
      if_known (not_none o.brightness) (set_brightness R)
      >> (if_known (not_none o.temperature) (set_color_temperature R) >> restore_on (not_none o.on))

  -- `success`, or the cancellation that the `except` clauses let through.
  abbrev pub outcome {ℓ} : {A : Type ℓ} → Bool → Result A → Result Bool
  outcome restored (ok a) = ok restored
  outcome restored (err e) = if is_exception e then ok false else err e

  abbrev pub conclude {ℓ} : {A : Type ℓ} → Result A → Result Fields × Home R → Result Bool × Home R
  conclude r (ok response, h) = (outcome true r, h)
  conclude r (err e, h) = (if is_exception e then outcome false r else err e, h)

  abbrev pub run_flashes : ℕ → Original × Result (Unit {0}) → Home R → Result (Unit {0}) × Home R
  run_flashes n (o, ok _) h = flash_loop n h
  run_flashes n (o, err e) h = (err e, h)

  abbrev pub restoring : Original → Result (Unit {0}) × Home R → Result Bool × Home R
  restoring o (r, h) = conclude r (restore_original o h)

  -- Without an original state there is nothing to restore.
  abbrev pub flash_from : ℕ → Result Json × Home R → Result Bool × Home R
  flash_from n (err e, h) = (if is_exception e then ok false else err e, h)
  flash_from n (ok x, h) = restoring (read_original x).0 (run_flashes n (read_original x) h)

  unfoldable pub flash : ℕ → Action (Home R) Bool
  unfolding read_original
  flash flashes h = flash_from flashes (get_state R false h)
