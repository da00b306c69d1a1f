-- ===== src/Examples/Beacons.antt =====
-- A discovery in which one lamp answers twice, another sends no JSON, and the time runs out.
use dlight_client.Common.{◌≡◌, ◌++◌, refl, true, none, String, List, [], ◌∷◌, map, arith}
use dlight_client.Json.{Fields, str, put}
use dlight_client.Models.{acknowledged}
use dlight_client.Discovery.{
  includes, looping, exhausted, at_phase, Event, datagram, resumed, expired, advance,
  datagram_received, parse_device, run_events, yield_next,
}
use dlight_client.Discovery.Streams.{address, distinct, yielded_distinct}
use dlight_client.Discovery.Answers.{answered_found}
use dlight_client.Discovery.Ends.{stream, turns, turns_finish}
use dlight_client.Pool.Endpoint.{same_key}
use dlight_client.Examples.Samples.{reply_text, sample_codec}

abbrev lamp_ip : String
lamp_ip = "192.168.0.7"

abbrev lamp_info : Fields
lamp_info = put "ip_address" (str lamp_ip) acknowledged

abbrev earlier : List Event
earlier = resumed 0 ∷ datagram "192.168.0.9" (1 ∷ []) ∷ []

abbrev later : List Event
later = resumed 20 ∷ datagram lamp_ip reply_text ∷ resumed 40 ∷ expired ∷ []

abbrev all_events : List Event
all_events = earlier ++ (datagram lamp_ip reply_text ∷ later)

found_one :
    run_events sample_codec 3000 all_events (at_phase looping)
    ≡ stream (lamp_ip ∷ []) [] exhausted (lamp_info ∷ [])
unfolding advance datagram_received parse_device yield_next includes same_key
found_one = refl

yielded_distinct_example :
    distinct (map address (run_events sample_codec 3000 all_events (at_phase looping)).yielded)
    ≡ true
yielded_distinct_example =
    yielded_distinct sample_codec 3000 none all_events (at_phase looping) refl

answered_found_example :
    includes lamp_ip
      (map address (run_events sample_codec 3000 all_events (at_phase looping)).yielded)
    ≡ true
unfolding advance datagram_received parse_device yield_next includes same_key
answered_found_example =
    answered_found sample_codec 3000 earlier later lamp_ip reply_text lamp_info refl refl refl

turns_finish_example :
    run_events sample_codec 3000
      (expired ∷ turns 2 3000)
      (stream (lamp_ip ∷ []) (lamp_info ∷ []) looping [])
    ≡ stream (lamp_ip ∷ []) [] exhausted (lamp_info ∷ [])
turns_finish_example =
    turns_finish sample_codec 3000 3000 2 (stream (lamp_ip ∷ []) (lamp_info ∷ []) looping []) refl
      (omega arith) (omega arith)
