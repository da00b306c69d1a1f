-- ===== src/Examples/Samples.antt =====
-- A codec that knows one reply, a network, and a lamp, small enough to compute with.
use dlight_client.Common.{
  ℕ, String, none, some, true, false, List, [], ◌∷◌, ltb, codes, pos, if◌then◌else◌,
}
use dlight_client.Errors.{json_decode_error, timeout_error, connection_error, ok, err}
use dlight_client.Json.{bool, num, str, obj, Fields, end, field}
use dlight_client.Models.{acknowledged}
use dlight_client.Codec.{Codec}
use dlight_client.Frame.{stalled}
use dlight_client.Pool.{Probe, Dial, connected, late, refused, would_block}
use dlight_client.Pool.Endpoint.{absent, same_key}
use dlight_client.Client.{Client, Attempt, Session, Network, drained, initial_session}
use dlight_client.Remote.{Remote}

-- {"status": "SUCCESS"}
abbrev pub reply_text : List ℕ
reply_text = codes "{\"status\": \"SUCCESS\"}"

-- Every value is written as that reply, and only that text is read.
abbrev pub sample_codec : Codec
sample_codec = record {
  dumps = λ x. some reply_text;
  loads = λ text. if same_key text reply_text then ok (obj acknowledged) else err json_decode_error;
  raw_decode = λ text. none;
  encode_utf8 = λ text. text;
  decode_utf8 = λ bytes. some bytes;
}

abbrev pub frame : List ℕ
frame = 0 ∷ 0 ∷ 0 ∷ 21 ∷ reply_text

abbrev pub idle_probe : Probe
idle_probe = record { closing = false; at_eof = false; socket = some would_block }

abbrev pub attempt : Dial → List ℕ → Attempt
attempt dial bytes = record {
  now = 1000;
  probe = idle_probe;
  dial = dial;
  drain = drained;
  arrives = record { bytes = bytes; ending = stalled };
  closing = false;
  finished = 1001;
}

-- The first dial is too slow, and the lamp answers after that.
abbrev pub flaky : Network
flaky n timeout = if ltb n 1 then attempt late [] else attempt connected frame

-- Nobody is there.
abbrev pub dead : Network
dead n timeout = attempt refused []

abbrev pub sample_client : Client
sample_client = record {
  default_timeout = 5000;
  max_retries = pos 2;
  retry_backoff = 500;
  ssl = absent;
}

abbrev pub fresh : Session
fresh = initial_session true 60000

abbrev pub host : List ℕ
host = codes "10.0.0.7"

abbrev pub ids : ℕ → String
ids n = "id"

abbrev pub command : Fields
command = field "commandType" (str "EXECUTE") end

-- A lamp that accepts everything, and one that nobody reaches.
abbrev pub accepting : Remote
accepting = record {
  World = ℕ;
  set_light_state = λ ip id on w. (ok acknowledged, w);
  set_brightness = λ ip id v w. (ok acknowledged, w);
  set_color_temperature = λ ip id v w. (ok acknowledged, w);
  query_device_state = λ ip id w. (ok acknowledged, w);
  query_device_info = λ ip id timeout w. (ok acknowledged, w);
}

abbrev pub unreachable : Remote
unreachable = record {
  World = ℕ;
  set_light_state = λ ip id on w. (err timeout_error, w);
  set_brightness = λ ip id v w. (err timeout_error, w);
  set_color_temperature = λ ip id v w. (err connection_error, w);
  query_device_state = λ ip id w. (err timeout_error, w);
  query_device_info = λ ip id timeout w. (err timeout_error, w);
}

-- {"on": true, "brightness": 70, "color": {"temperature": 4000}}
abbrev pub full_state : Fields
full_state = field "on" (bool true) (
    field "brightness" (num (pos 70))
      (field "color" (obj (field "temperature" (num (pos 4000)) end)) end))
