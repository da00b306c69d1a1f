-- ===== src/Remote/Wire/Requests.antt =====
-- The changes that a device asks for, and the commands that the client makes of them.
use dlight_client.Common.{
  ◌≡◌, refl, ap, ◌≤◌, arith, ℕ, suc, true, false, Option, none, String, List, [], ◌∷◌, ℤ, length,
  between,
}
use dlight_client.Errors.{value_error, err, ok, Action}
use dlight_client.Json.{num, obj, Fields, get, json_eq}
use dlight_client.Json.Equality.{IsUnique}
use dlight_client.Models.{max_payload_size, acknowledged, default_tcp_port}
use dlight_client.Codec.Printer.{print, escape_all, escape}
use dlight_client.Codec.Python.{python}
use dlight_client.Frame.{is_success}
use dlight_client.Pool.Endpoint.{absent}
use dlight_client.Client.{Client, Session, Network, send_tcp_command}
use dlight_client.Client.Commands.{
  execute_command, set_light_state, set_brightness, set_color_temperature,
}
use dlight_client.Lamp.{Info, Light}
use dlight_client.Lamp.Reports.{
  Change, on_off, brightness, temperature, change_fields, last_light, after_change,
}
use dlight_client.Remote.{Remote}
use dlight_client.Remote.Network.{over_network}
use dlight_client.Remote.Lamp.{to_lamp, arrived}

-- The method of a remote that asks for a change.
abbrev pub ask : (R : Remote) → Change → List ℕ → String → Action R.World Fields
ask R (on_off b) ip id = R.set_light_state ip id b
ask R (brightness z) ip id = R.set_brightness ip id (num z)
ask R (temperature z) ip id = R.set_color_temperature ip id (num z)

-- The client refuses no value in these ranges.
abbrev pub IsInRange : Change → Type 0
IsInRange (on_off b) = Unit
IsInRange (brightness z) = between 0 100 z ≡ true
IsInRange (temperature z) = between 2600 6000 z ≡ true

-- The client refuses these.
abbrev pub IsOutOfRange : Change → Type 0
IsOutOfRange (on_off b) = ⊥
IsOutOfRange (brightness z) = between 0 100 z ≡ false
IsOutOfRange (temperature z) = between 2600 6000 z ≡ false

abbrev pub command_of : String → String → Change → Fields
command_of command_id device_id c = execute_command command_id device_id (change_fields c)

pub command-IsUnique :
    (command_id device_id : String) (c : Change)
    → IsUnique (obj (command_of command_id device_id c))
unfolding IsUnique get
command-IsUnique command_id device_id (on_off b) =
    (refl, tt, (refl, tt, (refl, tt, (refl, ((refl, tt, tt), tt), tt))))
command-IsUnique command_id device_id (brightness z) =
    (refl, tt, (refl, tt, (refl, tt, (refl, ((refl, tt, tt), tt), tt))))
command-IsUnique command_id device_id (temperature z) =
    (refl, tt, (refl, tt, (refl, tt, (refl, ((refl, (refl, tt, tt), tt), tt), tt))))

pub no_echo :
    (command_id device_id : String) (c : Change)
    → json_eq (obj acknowledged) (obj (command_of command_id device_id c)) ≡ false
unfolding json_eq
no_echo command_id device_id c = refl

pub acknowledged-IsUnique : IsUnique (obj acknowledged)
unfolding IsUnique get
acknowledged-IsUnique = (refl, tt, tt)

pub acknowledged_fits : length (print (obj acknowledged)) ≤ max_payload_size
unfolding print escape_all escape
acknowledged_fits = omega arith

pub acknowledged_success : is_success (get "status" acknowledged) ≡ true
unfolding json_eq get
acknowledged_success = refl

module _ (network : Network) (client : Client) (command_ids : ℕ → String) (target_ip : List ℕ)
    (device_id : String) where
  abbrev sent : Change → Action Session Fields
  sent c s =
      send_tcp_command python network client target_ip (command_of (command_ids s.ids) device_id c)
        default_tcp_port absent none (record s { ids = suc s.ids })

  -- For a change in range the client sends one command under the next id.
  pub ask_sends :
      (c : Change) (s : Session)
      → IsInRange c
      → ask (over_network python network client command_ids) c target_ip device_id s ≡ sent c s
  unfolding set_light_state set_brightness set_color_temperature
  ask_sends (on_off b) s inside = refl
  ask_sends (brightness z) s inside = rw inside refl
  ask_sends (temperature z) s inside = rw inside refl

  pub ask_refused :
      (c : Change) (s : Session)
      → IsOutOfRange c
      → ask (over_network python network client command_ids) c target_ip device_id s
        ≡ (err value_error, s)
  unfolding set_brightness set_color_temperature
  ask_refused (on_off b) s outside = absurd outside
  ask_refused (brightness z) s outside = rw outside refl
  ask_refused (temperature z) s outside = rw outside refl

module _ (int_of : String → Option ℤ) (info : Info) (command_id device_id : String)
    (target_ip : List ℕ) where
  pub ask_lamp :
      (c : Change) (l : Light)
      → IsInRange c
      → ask
          (to_lamp int_of info command_id)
          c
          target_ip
          device_id
          (record { light = l; faults = [] })
        ≡ (ok acknowledged, record { light = last_light l (c ∷ []); faults = [] })
  ask_lamp (on_off b) l inside =
      ap (arrived []) (after_change int_of info device_id command_id (on_off b) l)
  ask_lamp (brightness z) l inside =
      rw inside (ap (arrived []) (after_change int_of info device_id command_id (brightness z) l))
  ask_lamp (temperature z) l inside =
      rw inside (ap (arrived []) (after_change int_of info device_id command_id (temperature z) l))
