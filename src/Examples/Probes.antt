-- ===== src/Examples/Probes.antt =====
-- A discovery that probes the emulated lamp, in the JSON of Python.
use dlight_client.Common.{◌≡◌, ◌++◌, refl, true, some, List, [], ◌∷◌, map}
use dlight_client.Json.{str, obj, put}
use dlight_client.Models.{udp_discovery_payload}
use dlight_client.Codec.Python.{python}
use dlight_client.Codec.Printer.{print, escape_all, escape}
use dlight_client.Codec.Utf8.{encode_utf8, decode_utf8, decode_from}
use dlight_client.Codec.Reader.{loads, run, step, deliver}
use dlight_client.Codec.Characters.{text_of}
use dlight_client.Pool.Endpoint.{same_key}
use dlight_client.Lamp.{with_info}
use dlight_client.Lamp.Announcer.Exchange.{probe_found-python}
use dlight_client.Lamp.Announcer.{info_dict, probe_received, heard, sent_by}
use dlight_client.Discovery.{
  Discovery, exhausted, Event, resumed, expired, includes, looping, at_phase, run_events,
  parse_device, advance, datagram_received, yield_next,
}
use dlight_client.Discovery.Streams.{address}
use dlight_client.Examples.Fakes.{fake_info}

abbrev asked : List Event
asked = resumed 0 ∷ []

abbrev answered : List Event
answered = resumed 30 ∷ resumed 60 ∷ expired ∷ []

abbrev met : Discovery
met =
    run_events python 3000
      (asked
        ++ (heard "10.0.0.7"
              (sent_by (probe_received python fake_info udp_discovery_payload "10.0.0.2" 40000))
            ++ answered))
      (at_phase looping)

ended : met.phase ≡ exhausted
unfolding advance datagram_received parse_device yield_next includes probe_received loads run step
    deliver decode_utf8 decode_from encode_utf8 print escape_all escape text_of with_info put
    same_key
ended = refl

probe_found-python_example :
    (includes "10.0.0.7" (map address met.yielded) ≡ true)
    × (parse_device python "10.0.0.7" (encode_utf8 (print (obj (info_dict fake_info))))
        ≡ some (put "ip_address" (str "10.0.0.7") (info_dict fake_info)))
unfolding advance
probe_found-python_example =
    probe_found-python fake_info 3000 asked answered "10.0.0.7" "10.0.0.2" 40000 refl ended
