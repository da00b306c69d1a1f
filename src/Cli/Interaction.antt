-- ===== src/Cli/Interaction.antt =====
-- cli.py: what `run_interaction` does to a lamp.
use dlight_client.Common.{◌≡◌, ap, Option, false, String, [], ◌==◌, ℤ, pos}
use dlight_client.Errors.{ok}
use dlight_client.Json.{get, put}
use dlight_client.Lamp.{
  Info, Light, handle_command, apply, apply_all, when_key, subscript, with_info,
}
use dlight_client.Remote.Lamp.{to_lamp}
use dlight_client.Device.State.{clone_state}
use dlight_client.Device.Listeners.{emit_state_change}
use dlight_client.Device.Operations.{
  get_info, get_state, turn_on, turn_off, set_brightness, set_color_temperature,
}
use dlight_client.Device.Flash.{flash, flash_loop, read_original, restore_original}
use dlight_client.Cli.{with_device, run_interaction}
use dlight_client.Cli.Choice.{interaction_starts}

abbrev pub shown : Light
shown = record { on = false; brightness = pos 30; temperature = pos 5000 }

-- The interaction with a lamp that gets every command ends without an error, and leaves the lamp off,
-- at 30 % and 5000 K, whatever it showed before: the flash in between is undone.
pub run_interaction-shown :
    (int_of : String → Option ℤ) (info : Info) (command_id ip device_id : String) (l : Light)
    → (ip == "") ≡ false
    → (device_id == "") ≡ false
    → run_interaction
        (to_lamp int_of info command_id)
        ip
        device_id
        (record { light = l; faults = [] })
      ≡ (ok tt, record { light = shown; faults = [] })
unfolding run_interaction get_info get_state turn_on turn_off set_brightness set_color_temperature
    flash flash_loop read_original restore_original clone_state emit_state_change handle_command
    apply apply_all when_key subscript with_info get put
run_interaction-shown int_of info command_id ip device_id l hi hd =
    ap (λ r. with_device (to_lamp int_of info command_id) r (record { light = l; faults = [] }))
      (interaction_starts ip device_id hi hd)
