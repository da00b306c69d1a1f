-- ===== src/Models.antt =====
-- constants.py and models.py
use dlight_client.Common.{ℕ, String, ℤ, pos, ◌*◌, List, codes}
use dlight_client.Json.{str, Fields, end, field}

abbrev pub default_tcp_port : ℕ
default_tcp_port = 3333

abbrev pub default_udp_response_port : ℕ
default_udp_response_port = 9487

-- The bytes of UDP_DISCOVERY_PAYLOAD.
abbrev pub udp_discovery_payload : List ℕ
udp_discovery_payload = codes "476f6f676c654e50455f457269635f5761796e65"

abbrev pub factory_reset_ip : String
factory_reset_ip = "192.168.4.1"

abbrev pub max_payload_size : ℕ
max_payload_size = 10 * 1024

abbrev pub command_type_execute : String
command_type_execute = "EXECUTE"

abbrev pub command_type_query_device_states : String
command_type_query_device_states = "QUERY_DEVICE_STATES"

abbrev pub command_type_query_device_info : String
command_type_query_device_info = "QUERY_DEVICE_INFO"

abbrev pub command_type_ssid_connect : String
command_type_ssid_connect = "SSID_CONNECT"

abbrev pub status_success : String
status_success = "SUCCESS"

-- {"status": STATUS_SUCCESS}
abbrev pub acknowledged : Fields
acknowledged = field "status" (str status_success) end

pub record LightScene : Type 0 where
  pub brightness : ℤ
  pub temperature : ℤ

abbrev pub reading : LightScene
reading = record { brightness = pos 70; temperature = pos 4000 }

abbrev pub evening : LightScene
evening = record { brightness = pos 30; temperature = pos 2700 }

abbrev pub daylight : LightScene
daylight = record { brightness = pos 100; temperature = pos 6000 }

abbrev pub focus : LightScene
focus = record { brightness = pos 100; temperature = pos 5000 }
