-- ===== src/Cli.antt =====
-- cli.py: what the command-line tool does for its arguments. Parsing them is argparse's; what the
-- tool prints and logs is left out.
pub mod Choice
pub mod Interaction
use dlight_client.Common.{
  ℕ, zero, suc, Option, none, some, Bool, true, false, not, ◌&&◌, ◌||◌, String, List, [], ◌∷◌,
  codes, pos, ◌==◌, if◌then◌else◌,
}
use dlight_client.Errors.{Error, Result, ok, err, is_exception, Action, ◌>>◌}
use dlight_client.Json.{Json, num, str, Fields, get, truthy}
use dlight_client.Models.{default_tcp_port}
use dlight_client.Codec.{Codec}
use dlight_client.Pool.Endpoint.{SslArg, absent, context}
use dlight_client.Client.{Client, Session, Network, initial_session}
use dlight_client.Client.Commands.{connect_to_wifi, setup_ip}
use dlight_client.Remote.{Remote}
use dlight_client.Remote.Network.{over_network}
use dlight_client.Device.State.{Device, new_device}
use dlight_client.Device.Operations.{
  Home, get_info, get_state, turn_on, turn_off, set_brightness, set_color_temperature,
}
use dlight_client.Device.Flash.{flash}

-- What argparse gives. Durations are in milliseconds.
pub record Args : Type 0 where
  pub discover : Bool
  pub discover_duration : ℕ
  pub ip : Option String
  pub device_id : Option String
  pub timeout : ℕ
  pub connect_wifi : Bool
  pub ssid : Option String
  pub password : Option String
  pub first : Bool
  pub ssl : Bool
  pub insecure : Bool
  pub verbose : ℕ

pub data Level : Type 0 where
  warning info debug : Level

-- The level of the library's logger.
abbrev pub library_level : ℕ → Level
library_level zero = warning
library_level (suc zero) = info
library_level (suc (suc n)) = debug

-- What `main` goes on to do. `odd_id` is an interaction with an id that is true and no text, which
-- the model of a device does not cover.
pub data Task : Type 0 where
  interaction : String → String → Task
  odd_id : Json → Json → Task
  wifi : String → String → String → Task
  usage_error nothing nothing_found nothing_usable : Task

-- `x` as a condition
abbrev pub is_given : Option String → Bool
is_given none = false
is_given (some s) = not (s == "")

abbrev pub is_true : Option Json → Bool
is_true none = false
is_true (some v) = truthy v

-- `a or b`
abbrev pub or_else : Option Json → Option Json → Option Json
or_else a b = if is_true a then a else b

abbrev pub interact_with : Option Json → Option Json → Task
interact_with (some (str ip)) (some (str device_id)) =
    if not (ip == "") && not (device_id == "") then interaction ip device_id else nothing_usable
interact_with (some ip) (some device_id) =
    if truthy ip && truthy device_id then odd_id ip device_id else nothing_usable
interact_with _ _ = nothing_usable

-- `--first` after a discovery.
abbrev pub first_of : List Fields → Task
first_of [] = nothing_found
first_of (device ∷ devices) =
    interact_with (get "ip_address" device)
      (or_else (get "deviceId" device) (get "deviceid" device))

abbrev pub or_empty : Option String → String
or_empty none = ""
or_empty (some s) = s

-- The choice of `main`, after a discovery that found these devices.
unfoldable pub choose : Args → List Fields → Task
choose args devices =
    if args.discover
    then (if args.first then first_of devices else nothing)
    else if args.connect_wifi
    then (if is_given args.device_id && (is_given args.ssid && is_given args.password)
        then wifi (or_empty args.device_id) (or_empty args.ssid) (or_empty args.password)
        else usage_error)
    else if is_given args.ip && is_given args.device_id
    then interaction (or_empty args.ip) (or_empty args.device_id)
    else if is_given args.ip || is_given args.device_id
    then usage_error
    else nothing

-- `except Exception`: what is left is a cancellation.
abbrev pub swallow {ℓ} : {A : Type ℓ} → Result A → Result (Unit {0})
swallow (ok a) = ok tt
swallow (err e) = if is_exception e then ok tt else err e

-- `run_discovery`, over what `discover_devices` comes to
abbrev pub run_discovery : Result (List Fields) → Result (List Fields)
run_discovery (ok devices) = ok devices
run_discovery (err e) = if is_exception e then ok [] else err e

module _ (R : Remote) where
  -- The calls in the `try` of `run_interaction`.
  unfoldable pub tour : Action (Home R) Fields
  tour =
      get_info R
      >> (get_state R false
          >> (turn_on R
              >> (set_brightness R (num (pos 30))
                  >> (set_color_temperature R (num (pos 5000))
                      >> (get_state R false >> (flash R 2 >> turn_off R))))))

  abbrev pub quietly {ℓ} : {A : Type ℓ} → Result A × Home R → Result (Unit {0}) × R.World
  quietly (r, h) = (swallow r, h.world)

  -- The device is made before the `try`.
  abbrev pub with_device : Result Device → Action R.World (Unit {0})
  with_device (err e) w = (err e, w)
  with_device (ok device) w = quietly (tour (record { device = device; world = w }))

  unfoldable pub run_interaction : String → String → Action R.World (Unit {0})
  unfolding tour
  run_interaction target_ip device_id = with_device (new_device (codes target_ip) device_id true)

-- The context of `ssl.create_default_context()`, known by its identity.
abbrev pub ssl_context : Args → ℕ → SslArg
ssl_context args id = if args.ssl then context id else absent

-- `AsyncDLightClient(default_timeout=args.timeout, ssl=ssl_context)`
abbrev pub new_client : Args → ℕ → Client
new_client args id = record {
  default_timeout = args.timeout;
  max_retries = pos 0;
  retry_backoff = 500;
  ssl = ssl_context args id;
}

abbrev pub new_session : Session
new_session = initial_session false 60000

-- How `main` ends: it returns, raises, or leaves by `parser.error`.
pub data Exit : Type 0 where
  returned : Exit
  raised : Error → Exit
  exit_usage : Exit

abbrev pub exit_of : Result (Unit {0}) × Session → Exit × Session
exit_of (ok _, s) = (returned, s)
exit_of (err e, s) = (raised e, s)

module _ (codec : Codec) (network : Network) (command_ids : ℕ → String) where
  unfoldable pub run_wifi_connect : Client → String → String → String → Action Session (Unit {0})
  run_wifi_connect client device_id ssid password s =
      let (r, s') =
        connect_to_wifi codec network client command_ids device_id ssid password setup_ip
          default_tcp_port absent s in
      (swallow r, s')

  -- `none` is an interaction with an id that is no text, which is not followed.
  abbrev pub run_task : Client → Task → Session → Option (Exit × Session)
  run_task client (interaction ip device_id) s =
      some
        (exit_of (run_interaction (over_network codec network client command_ids) ip device_id s))
  run_task client (wifi device_id ssid password) s =
      some (exit_of (run_wifi_connect client device_id ssid password s))
  run_task client usage_error s = some (exit_usage, s)
  run_task client (odd_id ip device_id) s = none
  run_task client _ s = some (returned, s)

  abbrev pub after_discovery :
      Args → Client → Result (List Fields) → Session → Option (Exit × Session)
  after_discovery args client (ok devices) s = run_task client (choose args devices) s
  after_discovery args client (err e) s = some (raised e, s)

  -- `main` after the arguments are parsed. `found` is what `discover_devices` comes to, if it is
  -- called, and `context_id` the identity of a new SSL context.
  unfoldable pub main : Args → ℕ → Result (List Fields) → Option (Exit × Session)
  unfolding choose
  main args context_id found =
      after_discovery args (new_client args context_id)
        (if args.discover then run_discovery found else ok []) new_session
