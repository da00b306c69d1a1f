-- ===== src/Lamp/Announcer.antt =====
-- tools/fake_dlight_server.py: `_DiscoveryResponder`, and the discovery that it answers.
pub mod Exchange
use dlight_client.Common.{
  ℕ, ◌≡◌, ap, ◌∙◌, Option, none, some, true, String, List, [], ◌∷◌, ◌++◌, map, eqb, Bool-cases, inl,
  inr, arith, if◌then◌else◌,
}
use dlight_client.Errors.{Result, ok, err, type_error}
use dlight_client.Json.{str, obj, Fields, end, put}
use dlight_client.Models.{default_udp_response_port, udp_discovery_payload}
use dlight_client.Codec.{Codec, Carries}
use dlight_client.Pool.Endpoint.{same_key}
use dlight_client.Discovery.{
  Event, datagram, looping, exhausted, at_phase, is_open, includes, run_events, parse_device,
  as_device, decode_datagram,
}
use dlight_client.Discovery.Streams.{address}
use dlight_client.Discovery.Answers.{answered_found}
use dlight_client.Lamp.{Info, with_info}

-- `info`
abbrev pub info_dict : Info → Fields
info_dict i = with_info i end

-- What is sent, and to which address.
pub record Packet : Type 0 where
  pub payload : List ℕ
  pub host : String
  pub port : ℕ

module _ (codec : Codec) (info : Info) where
  abbrev pub announcements : String → ℕ → List ℕ → List Packet
  announcements host port payload =
      record { payload = payload; host = host; port = default_udp_response_port }
      ∷ (if eqb port default_udp_response_port
          then []
          else record { payload = payload; host = host; port = port } ∷ [])

  abbrev pub answer_probe : String → ℕ → Option (List ℕ) → Result (List Packet)
  answer_probe host port none = err type_error
  answer_probe host port (some text) = ok (announcements host port (codec.encode_utf8 text))

  -- `datagram_received`, with the bytes and the address that they come from
  unfoldable pub probe_received : List ℕ → String → ℕ → Result (List Packet)
  unfolding with_info same_key
  probe_received bytes host port =
      if same_key bytes udp_discovery_payload
      then answer_probe host port (codec.dumps (obj (info_dict info)))
      else ok []

-- The packets of a handler that raises nothing.
abbrev pub sent_by : Result (List Packet) → List Packet
sent_by (ok packets) = packets
sent_by (err e) = []

-- What the listener of a discovery gets of the packets that a lamp sends to its host.
abbrev pub heard : String → List Packet → List Event
heard lamp [] = []
heard lamp (p ∷ ps) =
    let rest = heard lamp ps in
    if eqb p.port default_udp_response_port then datagram lamp p.payload ∷ rest else rest

module _ (codec : Codec) (info : Info) where
  heard-announcements :
      (lamp host : String) (port : ℕ) (payload : List ℕ)
      → heard lamp (announcements codec info host port payload) ≡ datagram lamp payload ∷ []
  heard-announcements lamp host port payload =
      elim (Bool-cases (eqb port default_udp_response_port)) [
        | inl same ↦ ground arith
        | inr other ↦ ground arith
      ]

  parse_device-info :
      (lamp : String) (text : List ℕ)
      → Carries codec (obj (info_dict info)) text
      → parse_device codec lamp (codec.encode_utf8 text)
        ≡ some (put "ip_address" (str lamp) (info_dict info))
  unfolding parse_device
  parse_device-info lamp text c =
      ap (λ t. as_device lamp (decode_datagram codec t)) c.survives
      ∙ ap (λ r. as_device lamp (elim r [ err e ↦ none | ok x ↦ some x ])) c.loaded

  probed :
      (host : String) (port : ℕ) (text : List ℕ)
      → Carries codec (obj (info_dict info)) text
      → probe_received codec info udp_discovery_payload host port
        ≡ ok (announcements codec info host port (codec.encode_utf8 text))
  unfolding probe_received
  probed host port text c = ap (answer_probe codec info host port) c.dumped

  heard-probed :
      (lamp host : String) (port : ℕ) (text : List ℕ)
      → Carries codec (obj (info_dict info)) text
      → heard lamp (sent_by (probe_received codec info udp_discovery_payload host port))
        ≡ datagram lamp (codec.encode_utf8 text) ∷ []
  heard-probed lamp host port text c =
      ap (λ r. heard lamp (sent_by r)) (probed host port text c)
      ∙ heard-announcements lamp host port (codec.encode_utf8 text)

-- A lamp that gets the probe of a discovery answers it, from whichever port it was sent, in such a way
-- that the discovery, if it listens then and comes to its own end, has yielded a device with the lamp's
-- address; and what it reads in the answer is the lamp's information with that address.
pub probe_found :
    (codec : Codec) (info : Info) (timeout : ℕ) (earlier later : List Event) (lamp host : String)
    (port : ℕ) (text : List ℕ)
    → Carries codec (obj (info_dict info)) text
    → is_open (run_events codec timeout earlier (at_phase looping)).phase ≡ true
    → (run_events codec timeout
        (earlier
          ++ (heard lamp (sent_by (probe_received codec info udp_discovery_payload host port))
              ++ later))
        (at_phase looping)).phase
      ≡ exhausted
    → (includes lamp (
          map address
            (run_events codec timeout
              (earlier
                ++ (heard lamp (sent_by (probe_received codec info udp_discovery_payload host port))
                    ++ later))
              (at_phase looping)).yielded)
        ≡ true)
      × (parse_device codec lamp (codec.encode_utf8 text)
          ≡ some (put "ip_address" (str lamp) (info_dict info)))
probe_found codec info timeout earlier later lamp host port text c listening =
    rw (heard-probed codec info lamp host port text c) (λ over. (
      answered_found codec timeout earlier later lamp (codec.encode_utf8 text)
          (put "ip_address" (str lamp) (info_dict info)) listening
          (parse_device-info codec info lamp text c) over,
      parse_device-info codec info lamp text c,
    ))
