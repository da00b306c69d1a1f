-- ===== src/Remote/Lamp.antt =====
-- The client of client.py as the remote of a device, when its commands reach the lamp of
-- tools/fake_dlight_server.py or fail before they reach it.
use dlight_client.Common.{
  ◌≡◌, refl, ap, ℕ, Option, none, some, true, String, List, [], ◌∷◌, ℤ, All, between, Bool-cases,
  inl, inr,
}
use dlight_client.Errors.{Error, Result, ok, err, Action, is_exception, value_error}
use dlight_client.Json.{num, obj, Fields, get, put}
use dlight_client.Models.{
  acknowledged, command_type_query_device_states, command_type_query_device_info,
}
use dlight_client.Client.Commands.{
  as_int, checked, on_change, brightness_change, temperature_change, execute_command, query_command,
}
use dlight_client.Lamp.{Info, Light, states, handle_command}
use dlight_client.Lamp.Reports.{
  Change, on_off, brightness, temperature, change_fields, last_light, after_change,
}
use dlight_client.Remote.{Remote}

-- The lamp, and how the next commands fare: one that fails raises an error in the client and does not
-- reach the lamp, and those after the listed ones get through.
pub record Link : Type 0 where
  pub light : Light
  pub faults : List (Option Error)

abbrev pub arrived : List (Option Error) → Result Fields × Light → Result Fields × Link
arrived faults (r, light) = (r, record { light = light; faults = faults })

-- Every fault is an `Exception`, no cancellation.
abbrev pub IsFault : Option Error → Type 0
IsFault none = Unit
IsFault (some e) = is_exception e ≡ true

module _ (int_of : String → Option ℤ) (info : Info) (command_id : String) where
  abbrev pub transmit : List (Option Error) → Fields → Action Link Fields
  transmit [] command w = arrived [] (handle_command int_of info command w.light)
  transmit (none ∷ faults) command w = arrived faults (handle_command int_of info command w.light)
  transmit (some e ∷ faults) command w = (err e, record w { faults = faults })

  abbrev pub deliver : Fields → Action Link Fields
  deliver command w = transmit w.faults command w

  abbrev pub to_lamp : Remote
  to_lamp = record {
    World = Link;
    set_light_state = λ ip id on. deliver (execute_command command_id id (on_change on));
    set_brightness = λ ip id v.
        checked 0 100 (as_int v) λ z. deliver (execute_command command_id id (brightness_change z));
    set_color_temperature = λ ip id v.
        checked 2600 6000 (as_int v)
          λ z. deliver (execute_command command_id id (temperature_change z));
    query_device_state =
        λ ip id. deliver (query_command command_type_query_device_states command_id id);
    query_device_info =
        λ ip id timeout. deliver (query_command command_type_query_device_info command_id id);
  }

  -- A command changed the lamp as it says, or it raised an exception and did not.
  pub data Outcome (c : Change) (w : Link) (out : Result Fields × Link) : Type 0 where
    obeyed :
        (faults : List (Option Error))
        → All IsFault faults
        → out ≡ (ok acknowledged, record { light = last_light w.light (c ∷ []); faults = faults })
        → Outcome c w out
    lost :
        (e : Error) (faults : List (Option Error))
        → is_exception e ≡ true
        → All IsFault faults
        → out ≡ (err e, record w { faults = faults })
        → Outcome c w out

  transmit-Outcome :
      (faults : List (Option Error)) (id : String) (c : Change) (w : Link)
      → All IsFault faults
      → Outcome c w (transmit faults (execute_command command_id id (change_fields c)) w)
  transmit-Outcome [] id c w a =
      obeyed [] tt (ap (arrived []) (after_change int_of info id command_id c w.light))
  transmit-Outcome (none ∷ faults) id c w a =
      obeyed faults a.1 (ap (arrived faults) (after_change int_of info id command_id c w.light))
  transmit-Outcome (some e ∷ faults) id c w a = lost e faults a.0 a.1 refl

  checked-Outcome :
      (lo hi : ℕ) (z : ℤ) (c : Change) (w : Link) (next : ℤ → Action Link Fields)
      → All IsFault w.faults
      → Outcome c w (next z w)
      → Outcome c w (checked lo hi (ok z) next w)
  checked-Outcome lo hi z c w next a o = elim (Bool-cases (between lo hi z)) [
    | inl inside ↦ rw inside o
    | inr outside ↦ rw outside (lost value_error w.faults refl a refl)
  ]

  -- What the client sends for a change.
  abbrev pub request : Change → List ℕ → String → Action Link Fields
  request (on_off b) ip id = to_lamp.set_light_state ip id b
  request (brightness z) ip id = to_lamp.set_brightness ip id (num z)
  request (temperature z) ip id = to_lamp.set_color_temperature ip id (num z)

  pub request-Outcome :
      (c : Change) (ip : List ℕ) (id : String) (w : Link)
      → All IsFault w.faults
      → Outcome c w (request c ip id w)
  request-Outcome (on_off b) ip id w a = transmit-Outcome w.faults id (on_off b) w a
  request-Outcome (brightness z) ip id w a =
      checked-Outcome 0 100 z (brightness z) w
        (λ z'. deliver (execute_command command_id id (brightness_change z'))) a
        (transmit-Outcome w.faults id (brightness z) w a)
  request-Outcome (temperature z) ip id w a =
      checked-Outcome 2600 6000 z (temperature z) w
        (λ z'. deliver (execute_command command_id id (temperature_change z'))) a
        (transmit-Outcome w.faults id (temperature z) w a)

  -- The reply to a state query; the query changes nothing.
  abbrev pub report : Light → Fields
  report light = put "states" (obj (states light)) acknowledged

  pub data Answer (w : Link) (out : Result Fields × Link) : Type 0 where
    told :
        (faults : List (Option Error))
        → All IsFault faults
        → out ≡ (ok (report w.light), record w { faults = faults })
        → Answer w out
    silent :
        (e : Error) (faults : List (Option Error))
        → All IsFault faults
        → out ≡ (err e, record w { faults = faults })
        → Answer w out

  transmit-Answer :
      (faults : List (Option Error)) (id : String) (w : Link)
      → All IsFault faults
      → Answer w (transmit faults (query_command command_type_query_device_states command_id id) w)
  unfolding handle_command get
  transmit-Answer [] id w a = told [] tt refl
  transmit-Answer (none ∷ faults) id w a = told faults a.1 refl
  transmit-Answer (some e ∷ faults) id w a = silent e faults a.1 refl

  pub query-Answer :
      (ip : List ℕ) (id : String) (w : Link)
      → All IsFault w.faults
      → Answer w (to_lamp.query_device_state ip id w)
  query-Answer ip id w a = transmit-Answer w.faults id w a
