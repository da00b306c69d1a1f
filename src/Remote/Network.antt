-- ===== src/Remote/Network.antt =====
-- The client of client.py as the remote of a device.
use dlight_client.Common.{ℕ, String}
use dlight_client.Codec.{Codec}
use dlight_client.Client.{Client, Session, Network}
use dlight_client.Client.Commands
use dlight_client.Remote.{Remote}

abbrev pub over_network : Codec → Network → Client → (ℕ → String) → Remote
over_network codec network client command_ids = record {
  World = Session;
  set_light_state = Commands.set_light_state codec network client command_ids;
  set_brightness = Commands.set_brightness codec network client command_ids;
  set_color_temperature = Commands.set_color_temperature codec network client command_ids;
  query_device_state = Commands.query_device_state codec network client command_ids;
  query_device_info = Commands.query_device_info codec network client command_ids;
}
