-- ===== src/Examples/Lamps.antt =====
-- The theorems on devices.
use dlight_client.Common.{◌≡◌, inr, refl, none, some, true, [], ◌∷◌, ◌++◌, pos, if◌then◌else◌}
use dlight_client.Errors.{ok, err, connection_error, timeout_error, cancelled}
use dlight_client.Json.{num, obj, Fields, end, field, get, put, json_eq}
use dlight_client.Models.{acknowledged, evening}
use dlight_client.Frame.{encode_command}
use dlight_client.Pool.{checkout, dial, take_cached, dial_raised}
use dlight_client.Pool.Keyed.{find, drop_key}
use dlight_client.Client.{Network, send_tcp_command, send_loop, attempt_once, judge}
use dlight_client.Client.Commands.{query_device_info}
use dlight_client.Remote.{Remote}
use dlight_client.Remote.Network.{over_network}
use dlight_client.Device.State.{Device, clone_state}
use dlight_client.Device.Listeners.{emit_state_change}
use dlight_client.Device.Operations.{
  Home, turn_on, turn_off, set_brightness, set_color_temperature, toggle, says_on, ping,
}
use dlight_client.Device.Rollback.{brightness, perform, IsRestorable, perform_failed}
use dlight_client.Device.Notices.{notices, perform_kept}
use dlight_client.Device.Surprises.{toggle_cached_lem, set_color_temperature_alias, ping_error}
use dlight_client.Device.Scenes.{Answers, apply_scene, gather, scene_result, scene_values}
use dlight_client.Device.Scenes.Partial.{HasColor, partly, apply_scene-partly}
use dlight_client.Device.Flash.{flash}
use dlight_client.Device.Flash.Restoration.{IsFull, flash-restores}
use dlight_client.Examples.Samples.{
  sample_codec, sample_client, fresh, ids, host, attempt, full_state, accepting, unreachable,
}
use dlight_client.Examples.Wire.{full_state-IsUnique}

-- One listener, and this dict in the cache.
abbrev lamp : Fields → Device
lamp fs = record { ip = host; id = "lamp"; state = obj fs; listeners = 4 ∷ []; notified = [] }

abbrev lost : Fields → Home unreachable
lost fs = record { device = lamp fs; world = 0 }

abbrev found : Fields → Home accepting
found fs = record { device = lamp fs; world = 0 }

bright_known : get "brightness" full_state ≡ some (num (pos 70))
unfolding get
bright_known = refl

bright-IsRestorable : IsRestorable unreachable (brightness (num (pos 10))) full_state
unfolding get
bright-IsRestorable e = cc

bright_fails :
    perform unreachable (brightness (num (pos 10))) (lost full_state)
    ≡ (err timeout_error, lost full_state)
unfolding set_brightness clone_state emit_state_change get put json_eq
bright_fails = refl

perform_failed_example : (lost full_state).device ≡ lamp full_state
perform_failed_example =
    perform_failed unreachable (brightness (num (pos 10))) (lost full_state) (lost full_state)
      full_state timeout_error refl full_state-IsUnique bright-IsRestorable bright_fails refl

abbrev brighter : Home accepting
brighter = (perform accepting (brightness (num (pos 10))) (found full_state)).1

bright_kept :
    perform accepting (brightness (num (pos 10))) (found full_state) ≡ (ok acknowledged, brighter)
unfolding set_brightness clone_state
bright_kept = refl

perform_kept_example :
    (brighter.device.state ≡ obj (put "brightness" (num (pos 10)) full_state))
    × (brighter.device.listeners ≡ 4 ∷ [])
    × (brighter.device.notified
        ≡ []
          ++ notices (obj full_state) (obj (put "brightness" (num (pos 10)) full_state)) (4 ∷ []))
perform_kept_example =
    perform_kept accepting (brightness (num (pos 10))) (found full_state) brighter full_state
      (ok acknowledged) refl bright-IsRestorable bright_kept refl

full_color : HasColor full_state
unfolding get
full_color = inr (field "temperature" (num (pos 4000)) end, refl)

given : scene_values (some evening) none none ≡ ok evening
unfolding scene_values
given = refl

apply_scene-partly_example :
    let out = apply_scene unreachable true (some evening) none none (lost full_state) in
    let answers : Answers = (gather unreachable true evening (lost full_state)).0 in
    (out.0 ≡ scene_result answers)
    × (out.1.device.state ≡ obj (partly evening answers full_state))
    × (out.1.world ≡ (gather unreachable true evening (lost full_state)).1)
apply_scene-partly_example =
    apply_scene-partly unreachable (lost full_state) full_state evening true (some evening) none
      none refl bright-IsRestorable full_color given

toggle_cached_lem_example : toggle accepting (found full_state) ≡ (
    if says_on accepting (get "on" full_state)
    then turn_off accepting (found full_state)
    else turn_on accepting (found full_state))
toggle_cached_lem_example = toggle_cached_lem accepting (found full_state) full_state refl refl

abbrev no_color : Fields
no_color = field "color" (obj end) end

abbrev still_colored : Home unreachable
still_colored = (set_color_temperature unreachable (num (pos 3000)) (lost no_color)).1

color_fails :
    set_color_temperature unreachable (num (pos 3000)) (lost no_color)
    ≡ (err connection_error, still_colored)
unfolding set_color_temperature clone_state get
color_fails = refl

color_empty : get "color" no_color ≡ some (obj end)
unfolding get
color_empty = refl

set_color_temperature_alias_example :
    still_colored.device.state
    ≡ obj (put "color" (obj (field "temperature" (num (pos 3000)) end)) no_color)
set_color_temperature_alias_example =
    set_color_temperature_alias unreachable (lost no_color) no_color still_colored (num (pos 3000))
      connection_error refl color_empty color_fails refl

full : IsFull true (pos 70) (pos 4000) full_state
unfolding get
full = record {
  color = field "temperature" (num (pos 4000)) end;
  has_on = refl;
  has_brightness = refl;
  has_color = refl;
  has_temperature = refl;
}

flash-restores_example :
    (h' : Home accepting) × (flash accepting 3 (found full_state) ≡ (ok true, h'))
    × (h'.device.state ≡ obj full_state)
flash-restores_example =
    flash-restores accepting host "lamp" true (pos 70) (pos 4000) full_state full 3
      (found full_state) (record { address = refl; identity = refl; cached = refl }) (λ x w. tt)
      (λ w. tt) (λ w. tt)

-- A client whose attempts are all cancelled.
abbrev interrupted : Network
interrupted n timeout = attempt (dial_raised cancelled) []

abbrev behind : Remote
behind = over_network sample_codec interrupted sample_client ids

abbrev remote_lamp : Home behind
remote_lamp = record { device = lamp full_state; world = fresh }

abbrev after_ping : Home behind
after_ping = record remote_lamp { world = record fresh { attempts = 1; ids = 1 } }

ping_cancelled : ping behind 2000 remote_lamp ≡ (err cancelled, after_ping)
unfolding ping query_device_info send_tcp_command encode_command send_loop attempt_once judge
    checkout take_cached dial find drop_key
ping_cancelled = refl

ping_error_example : cancelled ≡ cancelled
ping_error_example =
    ping_error sample_codec interrupted sample_client ids 2000 remote_lamp after_ping cancelled
      ping_cancelled
