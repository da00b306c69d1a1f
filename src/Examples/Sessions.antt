-- ===== src/Examples/Sessions.antt =====
-- The theorems on commands over a network.
use dlight_client.Common.{true, ◌≡◌, ◌⊎◌, refl, none, [], ◌∷◌, pos}
use dlight_client.Errors.{ok, err, connection_error, command_error, cancelled}
use dlight_client.Json.{num}
use dlight_client.Frame.{encode_command, read_response, read_exactly}
use dlight_client.Pool.{Pool, evict, close_writer, is_live, checkout, dial, take_cached, key_of}
use dlight_client.Pool.Keyed.{find, drop_key, UniqueKeys}
use dlight_client.Pool.Endpoint.{absent, pool_key, same_key}
use dlight_client.Pool.Sharing.{Reach}
use dlight_client.Client.{Session, send_tcp_command, send_loop, attempt_once, judge}
use dlight_client.Client.Commands.{
  set_brightness, set_color_temperature, connect_to_wifi, brightness_change, temperature_change,
}
use dlight_client.Client.Retries.{Sent, send_tcp_command-Sent}
use dlight_client.Client.Contract.{
  IsReported, idle, send_tcp_command-IsReported, send_tcp_command-Reach,
}
use dlight_client.Client.Dropped.{send_tcp_command_dropped}
use dlight_client.Client.Commands.Validation.{
  RefusedOrSent, setters-RefusedOrSent, connect_to_wifi_error,
}
use dlight_client.Examples.Samples.{
  idle_probe, reply_text, sample_codec, flaky, dead, sample_client, fresh, host, ids, command,
}

send_tcp_command-Sent_example :
    Sent sample_client fresh
      (encode_command sample_codec command)
      2
      (send_tcp_command sample_codec flaky sample_client host command 3333 absent none fresh)
send_tcp_command-Sent_example =
    send_tcp_command-Sent sample_codec flaky sample_client host command 3333 absent none fresh 2
      refl

-- Three attempts, two pauses, and nothing written.
abbrev tired : Session
tired = record fresh { attempts = 3; sleeps = 500 ∷ 1000 ∷ [] }

gives_up :
    send_tcp_command sample_codec dead sample_client host command 3333 absent none fresh
    ≡ (err connection_error, tired)
unfolding send_tcp_command encode_command send_loop attempt_once judge checkout take_cached dial
    find drop_key
gives_up = refl

send_tcp_command-IsReported_example : IsReported connection_error
send_tcp_command-IsReported_example =
    send_tcp_command-IsReported sample_codec dead sample_client host command 3333 absent none fresh
      tired connection_error gives_up

send_tcp_command-Reach_example : Reach (idle fresh.pool) (
    idle
      (send_tcp_command sample_codec flaky sample_client host command 3333 absent none
        fresh).1.pool)
send_tcp_command-Reach_example =
    send_tcp_command-Reach sample_codec flaky sample_client host command 3333 absent none fresh

setters-RefusedOrSent_example :
    RefusedOrSent sample_codec flaky sample_client ids 0 100
      (ok (pos 3000))
      host
      "lamp"
      brightness_change
      fresh
      (set_brightness sample_codec flaky sample_client ids host "lamp" (num (pos 3000)) fresh)
    × RefusedOrSent sample_codec flaky sample_client ids 2600 6000
        (ok (pos 3000))
        host
        "lamp"
        temperature_change
        fresh
        (set_color_temperature sample_codec flaky sample_client ids host "lamp"
          (num (pos 3000))
          fresh)
setters-RefusedOrSent_example =
    setters-RefusedOrSent sample_codec flaky sample_client ids host "lamp" (num (pos 3000)) fresh

not_set_up :
    connect_to_wifi sample_codec dead sample_client ids "lamp" "home" "secret" host 3333 absent
      fresh
    ≡ (err command_error, record tired { ids = 1 })
unfolding connect_to_wifi send_tcp_command encode_command send_loop attempt_once judge checkout
    take_cached dial find drop_key
not_set_up = refl

connect_to_wifi_error_example : (command_error ≡ command_error) ⊎ (command_error ≡ cancelled)
connect_to_wifi_error_example =
    connect_to_wifi_error sample_codec dead sample_client ids "lamp" "home" "secret" host 3333
      absent fresh (record tired { ids = 1 }) command_error not_set_up

-- A client that has a connection to a lamp that is gone, and one to another lamp.
abbrev warm_pool : Pool
warm_pool = record {
  persistent = true;
  idle_timeout = 60000;
  connections =
      record {
        key = pool_key host 3333 absent;
        connection = record { id = 0; buffered = [] };
        last_activity = 900;
      }
      ∷ record {
        key = pool_key host 3334 absent;
        connection = record { id = 1; buffered = [] };
        last_activity = 950;
      }
      ∷ [];
  opened = 2;
  closed = [];
}

abbrev warm : Session
warm = record fresh { pool = warm_pool }

-- The first attempt closes the connection that was cached, and no other is made.
abbrev cold : Session
cold = record warm {
  pool = record warm_pool {
    connections =
        record {
          key = pool_key host 3334 absent;
          connection = record { id = 1; buffered = [] };
          last_activity = 950;
        }
        ∷ [];
    closed = 0 ∷ [];
  };
  attempts = 3;
  wire = (0, reply_text) ∷ [];
  sleeps = 500 ∷ 1000 ∷ [];
}

encoded : encode_command sample_codec command ≡ ok reply_text
unfolding encode_command
encoded = refl

lost_connection :
    send_tcp_command sample_codec dead sample_client host command 3333 absent none warm
    ≡ (err connection_error, cold)
unfolding send_tcp_command encode_command send_loop attempt_once judge checkout take_cached dial
    find drop_key evict close_writer is_live pool_key same_key read_response read_exactly
lost_connection = refl

alone : UniqueKeys key_of warm_pool.connections
unfolding find pool_key same_key
alone = (refl, (refl, tt))

send_tcp_command_dropped_example :
    (cold.pool.connections ≡ drop_key key_of (pool_key host 3333 absent) warm_pool.connections)
    × (take_cached (pool_key host 3333 absent) 2000 idle_probe cold.pool ≡ (none, cold.pool))
send_tcp_command_dropped_example =
    send_tcp_command_dropped sample_codec dead sample_client host command 3333 absent none warm cold
      2 reply_text connection_error 2000 idle_probe alone refl encoded lost_connection
