-- ===== src/Lamp/Announcer/Exchange.antt =====
-- The probe and its answer in the JSON of Python.
use dlight_client.Common.{◌≡◌, refl, ℕ, some, true, String, List, ◌++◌, map}
use dlight_client.Json.{str, obj, get, put}
use dlight_client.Json.Equality.{IsUnique}
use dlight_client.Models.{udp_discovery_payload}
use dlight_client.Codec.Printer.{print}
use dlight_client.Codec.Utf8.{encode_utf8}
use dlight_client.Codec.Python.{python, python-Carries}
use dlight_client.Discovery.{
  Event, looping, exhausted, at_phase, is_open, includes, run_events, parse_device,
}
use dlight_client.Discovery.Streams.{address}
use dlight_client.Lamp.{Info, with_info}
use dlight_client.Lamp.Announcer.{info_dict, probe_received, sent_by, heard, probe_found}

info_dict-IsUnique : (info : Info) → IsUnique (obj (info_dict info))
unfolding IsUnique get with_info put
info_dict-IsUnique info = (refl, tt, (refl, tt, (refl, tt, (refl, tt, tt))))

-- Over Python's own json and UTF-8: a lamp, whatever its information, that gets the probe of a
-- discovery answers it, from whichever port it was sent, in such a way that the discovery, if it
-- listens then and comes to its own end, has yielded a device with the lamp's address; and what it
-- reads in the answer is the lamp's information with that address.
pub probe_found-python :
    (info : Info) (timeout : ℕ) (earlier later : List Event) (lamp host : String) (port : ℕ)
    → is_open (run_events python timeout earlier (at_phase looping)).phase ≡ true
    → let out =
        run_events python timeout
          (earlier
            ++ (heard lamp (sent_by (probe_received python info udp_discovery_payload host port))
                ++ later))
          (at_phase looping) in
      out.phase ≡ exhausted
      → (includes lamp (map address out.yielded) ≡ true)
        × (parse_device python lamp (encode_utf8 (print (obj (info_dict info))))
            ≡ some (put "ip_address" (str lamp) (info_dict info)))
probe_found-python info timeout earlier later lamp host port listening over =
    probe_found python info timeout earlier later lamp host port (print (obj (info_dict info)))
      (python-Carries (obj (info_dict info)) (info_dict-IsUnique info)) listening over
