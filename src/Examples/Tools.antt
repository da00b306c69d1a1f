-- ===== src/Examples/Tools.antt =====
-- The command-line tool: an interaction, a discovery that finds two lamps, and a set-up that fails.
use dlight_client.Common.{◌≡◌, ◌≢◌, refl, none, List, ◌⊎◌, some, true, false, [], ◌∷◌}
use dlight_client.Errors.{command_error, ok}
use dlight_client.Client.{Session}
use dlight_client.Json.{Json, Fields, obj, str, end, field, get, put}
use dlight_client.Models.{acknowledged}
use dlight_client.Codec.{Codec}
use dlight_client.Lamp.{initial_light}
use dlight_client.Remote.Lamp.{to_lamp}
use dlight_client.Discovery.{parse_device}
use dlight_client.Cli.{
  Args, choose, interaction, main, run_interaction, raised, Exit, odd_id, run_discovery,
}
use dlight_client.Cli.Choice.{AreNoTexts, main_error, choose-parse_device}
use dlight_client.Cli.Interaction.{run_interaction-shown, shown}
use dlight_client.Examples.Samples.{sample_codec, dead, ids}
use dlight_client.Examples.Fakes.{no_int, fake_info}

abbrev args : Args
args = record {
  discover = true;
  discover_duration = 3000;
  ip = none;
  device_id = none;
  timeout = 5000;
  connect_wifi = false;
  ssid = none;
  password = none;
  first = true;
  ssl = false;
  insecure = false;
  verbose = 0;
}

-- Every text reads as an announcement that states a wrong address.
abbrev announcement : Fields
announcement = field "deviceId" (str "lamp") (field "ip_address" (str "10.9.9.9") end)

abbrev announcing : Codec
announcing = record sample_codec { loads = λ text. ok (obj announcement) }

abbrev announced : Fields
announced = put "ip_address" (str "10.0.0.7") announcement

run_interaction-shown_example :
    run_interaction
      (to_lamp no_int fake_info "1")
      "10.0.0.7"
      "lamp"
      (record { light = initial_light; faults = [] })
    ≡ (ok tt, record { light = shown; faults = [] })
run_interaction-shown_example =
    run_interaction-shown no_int fake_info "1" "10.0.0.7" "lamp" initial_light refl refl

choose-parse_device_example :
    choose args (announced ∷ acknowledged ∷ []) ≡ interaction "10.0.0.7" "lamp"
unfolding parse_device get put
choose-parse_device_example =
    choose-parse_device announcing args "10.0.0.7" "lamp" (1 ∷ []) announced (acknowledged ∷ [])
      refl refl refl refl refl refl

-- The lamp to set up does not answer.
abbrev wifi_args : Args
wifi_args = record args {
  discover = false;
  connect_wifi = true;
  device_id = some "lamp";
  ssid = some "home";
  password = some "secret";
}

main_error_example :
    ((wifi_args.discover ≡ true)
      × (wifi_args.first ≡ true)
      × (devices : List Fields) × (ip : Json) × (device_id : Json) × (run_discovery (ok [])
          ≡ ok devices)
      × AreNoTexts ip device_id
      × (choose wifi_args devices ≡ odd_id ip device_id))
    ⊎ ((out : Exit × Session) × (main sample_codec dead ids wifi_args 1 (ok []) ≡ some out)
        × (out.0 ≢ raised command_error))
main_error_example = main_error sample_codec dead ids wifi_args 1 (ok []) command_error refl
