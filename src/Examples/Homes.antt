-- ===== src/Examples/Homes.antt =====
-- Devices: one that is switched, dimmed too far, loses a command, is set to a scene, flashes and is
-- toggled, one with listeners, and one whose lamp accepts everything.
use dlight_client.Common.{◌≡◌, refl, none, some, true, false, List, [], ◌∷◌, pos, codes}
use dlight_client.Errors.{timeout_error}
use dlight_client.Models.{reading}
use dlight_client.Lamp.{states, initial_light}
use dlight_client.Lamp.Reports.{on_off, brightness, temperature}
use dlight_client.Remote.Lamp.{to_lamp}
use dlight_client.Json.{obj, bool, num, str, get, json_eq}
use dlight_client.Device.State.{Device}
use dlight_client.Device.Listeners.{notice, emit_state_change}
use dlight_client.Device.Listeners.Registered.{
  Registration, registers, removes, register_all, told, register_all-emit,
}
use dlight_client.Device.Operations.{Home}
use dlight_client.Device.Coherence.Uses.{
  Use, change, scene, flashes, refresh, toggled, use_all, use_all-cached,
}
use dlight_client.Device.Typed.{IsDict}
use dlight_client.Device.Typed.Calls.{
  Call, switches, brightens, tints, refreshes, toggles, applies, blinks, call_all, call_all-IsDict,
}
use dlight_client.Examples.Samples.{accepting}
use dlight_client.Examples.Fakes.{no_int, fake_info}

abbrev home : Home (to_lamp no_int fake_info "1")
home = record {
  device = record {
    ip = codes "10.0.0.7";
    id = "lamp";
    state = obj (states initial_light);
    listeners = 4 ∷ [];
    notified = [];
  };
  world = record { light = initial_light; faults = none ∷ none ∷ some timeout_error ∷ [] };
}

abbrev evening_uses : List Use
evening_uses =
    change (on_off true)
    ∷ change (brightness (pos 130))
    ∷ change (temperature (pos 3000))
    ∷ scene true reading
    ∷ flashes 3
    ∷ toggled
    ∷ change (brightness (pos 20))
    ∷ refresh
    ∷ []

use_all-cached_example :
    (use_all no_int fake_info "1" evening_uses home).device.state
    ≡ obj (states (use_all no_int fake_info "1" evening_uses home).world.light)
use_all-cached_example =
    use_all-cached no_int fake_info "1" evening_uses home refl (tt, (tt, (refl, tt)))

-- A device on which one listener is registered twice, and another one comes and goes.
abbrev quiet : Device
quiet = record {
  ip = codes "10.0.0.7";
  id = "lamp";
  state = obj (states initial_light);
  listeners = [];
  notified = [];
}

abbrev registrations : List Registration
registrations = registers 4 ∷ registers 5 ∷ registers 4 ∷ removes 5 ∷ []

register_all-emit_example :
    told 4 (emit_state_change (bool true) (bool false) (register_all registrations quiet)).notified
    ≡ notice (bool true) (bool false) 4 ∷ []
unfolding json_eq
register_all-emit_example = register_all-emit registrations 4 (bool true) (bool false) quiet refl

-- A client whose commands are all accepted, and whose state queries tell nothing.
abbrev kept : Home accepting
kept = record { device = quiet; world = 0 }

abbrev busy_calls : List Call
busy_calls =
    switches true
    ∷ brightens (str "bright")
    ∷ tints (num (pos 3000))
    ∷ refreshes true
    ∷ toggles
    ∷ applies false (some reading) none none
    ∷ blinks 2
    ∷ []

call_all-IsDict_example : IsDict (call_all accepting busy_calls kept).device.state
unfolding get
call_all-IsDict_example = call_all-IsDict accepting busy_calls kept (λ ip id w. tt) tt
