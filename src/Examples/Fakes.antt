-- ===== src/Examples/Fakes.antt =====
-- The emulated lamp: a failure of two commands, a few commands of a client, a bad control line.
use dlight_client.Common.{
  false, length, ◌≡◌, refl, none, some, String, Option, List, [], ◌∷◌, ℤ, pos, true,
}
use dlight_client.Errors.{ok}
use dlight_client.Json.{obj, put}
use dlight_client.Models.{acknowledged, command_type_query_device_states}
use dlight_client.Client.Commands.{query_command}
use dlight_client.Lamp.{hang, drop, normal, set_mode, handle_command, states, initial_light, Info}
use dlight_client.Lamp.Control.{Lamp}
use dlight_client.Lamp.Control.Sessions.{Line, heard, handle_control, obey, handle_control_lem}
use dlight_client.Lamp.Modes.{modes, modes-set_mode}
use dlight_client.Lamp.Reports.{Change, on_off, brightness, after_changes, query-after_changes}

abbrev pub no_int : String → Option ℤ
no_int s = none

abbrev pub fake_info : Info
fake_info = record {
  device_id = "fake-dlight-1";
  model = "dLight-Fake";
  sw_version = "1.0.0-fake";
  hw_version = "rev1";
}

abbrev asked : List Change
asked = on_off true ∷ brightness (pos 30) ∷ brightness (pos 50) ∷ []

modes-set_mode_example :
    modes 5 (set_mode hang (some (pos 2))) ≡ hang ∷ hang ∷ normal ∷ normal ∷ normal ∷ []
modes-set_mode_example = modes-set_mode hang (pos 2) 3 refl

query-after_changes_example :
    handle_command no_int fake_info
      (query_command command_type_query_device_states "7" "fake-dlight-1")
      (after_changes no_int fake_info "fake-dlight-1" (λ n. "1") asked initial_light)
    ≡ (
      ok (
          put "states"
            (obj (states (record { on = true; brightness = pos 50; temperature = pos 4000 })))
            acknowledged),
      record { on = true; brightness = pos 50; temperature = pos 4000 },
    )
query-after_changes_example =
    query-after_changes no_int fake_info "fake-dlight-1" "7" (λ n. "1") asked initial_light

abbrev fake_lamp : Lamp
fake_lamp = record { failures = set_mode drop none; delay = pos 500; light = initial_light }

-- The second line is bad, and the reply to the third does not get out.
abbrev typed_lines : List Line
typed_lines =
    record { words = "on" ∷ []; drained = true }
    ∷ record { words = "hang" ∷ "soon" ∷ []; drained = true }
    ∷ record { words = "drop" ∷ []; drained = false }
    ∷ record { words = "off" ∷ []; drained = true }
    ∷ []

handle_control_lem_example :
    (length (handle_control (λ s. s) no_int no_int typed_lines fake_lamp).0 ≡ 3)
    × ((handle_control (λ s. s) no_int no_int typed_lines fake_lamp).1
        ≡ obey (λ s. s) no_int no_int (heard typed_lines) fake_lamp)
handle_control_lem_example = handle_control_lem (λ s. s) no_int no_int typed_lines fake_lamp
