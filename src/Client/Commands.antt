-- ===== src/Client/Commands.antt =====
-- The public methods of `AsyncDLightClient` in client.py.
pub mod Validation
use dlight_client.Common.{
  ℕ, suc, String, Option, none, some, Bool, true, false, List, [], ◌∷◌, codes, ℤ, between,
  if◌then◌else◌,
}
use dlight_client.Errors.{
  Error, command_error, value_error, type_error, Result, ok, err, is_dlight_error, Action, raise,
  ◌>>=◌,
}
use dlight_client.Json.{
  Json, bool, num, str, arr, obj, Items, nil, cons, Fields, end, field, bool_ℤ,
}
use dlight_client.Models.{
  default_tcp_port, factory_reset_ip, command_type_execute, command_type_query_device_states,
  command_type_query_device_info, command_type_ssid_connect,
}
use dlight_client.Codec.{Codec}
use dlight_client.Pool.{close_all}
use dlight_client.Pool.Endpoint.{SslArg, absent}
use dlight_client.Client.{Client, Session, Network, send_tcp_command}

-- A number for the tests and for `int`: a bool is one too, and other values raise.
abbrev pub as_int : Json → Result ℤ
as_int (num z) = ok z
as_int (bool b) = ok (bool_ℤ b)
as_int _ = err type_error

-- The dict that every command begins with.
abbrev pub command_head : String → String → String → Fields → Fields
command_head command_id device_id command_type rest =
    field "commandId" (str command_id)
      (field "deviceId" (str device_id) (field "commandType" (str command_type) rest))

abbrev pub execute_command : String → String → Fields → Fields
execute_command command_id device_id change =
    command_head command_id device_id command_type_execute
      (field "commands" (arr (cons (obj change) nil)) end)

abbrev pub query_command : String → String → String → Fields
query_command command_type command_id device_id =
    command_head command_id device_id command_type (field "commands" (arr nil) end)

abbrev pub wifi_command : String → String → String → String → Fields
wifi_command command_id device_id ssid password =
    command_head command_id device_id command_type_ssid_connect
      (field "ssid" (str ssid) (field "password" (str password) end))

-- `{"on": bool(on)}`, `{"brightness": int(brightness)}` and `{"color": {"temperature": ...}}`
abbrev pub on_change : Bool → Fields
on_change on = field "on" (bool on) end

abbrev pub brightness_change : ℤ → Fields
brightness_change z = field "brightness" (num z) end

abbrev pub temperature_change : ℤ → Fields
temperature_change z = field "color" (obj (field "temperature" (num z) end)) end

-- `if not lo <= x <= hi: raise ValueError`, and the rest for a value in range
abbrev pub checked {ℓ} : {S A : Type ℓ} → ℕ → ℕ → Result ℤ → (ℤ → Action S A) → Action S A
checked lo hi (err e) next s = (err e, s)
checked lo hi (ok z) next s = if between lo hi z then next z s else (err value_error, s)

-- The `except DLightError` of `connect_to_wifi`.
abbrev pub rewrap : Result Fields × Session → Result Fields × Session
rewrap (ok response, s) = (ok response, s)
rewrap (err e, s) = (err (if is_dlight_error e then command_error else e), s)

-- `command_ids` stands for the clock and the random part of `_generate_command_id`.
module _ (codec : Codec) (network : Network) (client : Client) (command_ids : ℕ → String) where
  -- `_generate_command_id`
  abbrev pub generate_command_id : Action Session String
  generate_command_id s = (ok (command_ids s.ids), record s { ids = suc s.ids })

  abbrev pub send : List ℕ → Fields → Action Session Fields
  send target_ip command =
      send_tcp_command codec network client target_ip command default_tcp_port absent none

  unfoldable pub set_light_state : List ℕ → String → Bool → Action Session Fields
  set_light_state target_ip device_id on = do
    command_id ← generate_command_id
    send target_ip (execute_command command_id device_id (on_change on))

  unfoldable pub set_brightness : List ℕ → String → Json → Action Session Fields
  set_brightness target_ip device_id brightness = checked 0 100 (as_int brightness) λ z. do
    command_id ← generate_command_id
    send target_ip (execute_command command_id device_id (brightness_change z))

  unfoldable pub set_color_temperature : List ℕ → String → Json → Action Session Fields
  set_color_temperature target_ip device_id temperature =
      checked 2600 6000 (as_int temperature) λ z. do
        command_id ← generate_command_id
        send target_ip (execute_command command_id device_id (temperature_change z))

  unfoldable pub query_device_state : List ℕ → String → Action Session Fields
  query_device_state target_ip device_id = do
    command_id ← generate_command_id
    send target_ip (query_command command_type_query_device_states command_id device_id)

  unfoldable pub query_device_info : List ℕ → String → Option ℕ → Action Session Fields
  query_device_info target_ip device_id timeout = do
    command_id ← generate_command_id
    send_tcp_command codec network client target_ip
        (query_command command_type_query_device_info command_id device_id) default_tcp_port absent
        timeout

  unfoldable pub connect_to_wifi :
      String → String → String → List ℕ → ℕ → SslArg → Action Session Fields
  connect_to_wifi device_id ssid password target_ip port ssl s =
      let s' : Session = record s { ids = suc s.ids } in
      rewrap (
        send_tcp_command codec network client target_ip
          (wifi_command (command_ids s.ids) device_id ssid password) port ssl none s')

-- `close`
unfoldable pub close : Session → Session
close s = record s { pool = close_all s.pool }

-- Where a lamp that is being set up is reached.
abbrev pub setup_ip : List ℕ
setup_ip = codes factory_reset_ip
