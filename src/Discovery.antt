-- ===== src/Discovery.antt =====
-- discovery.py: the datagram protocol, and the stream that yields what the protocol puts on its
-- queue until the time is up. The sockets themselves are asyncio's.
pub mod Streams
pub mod Answers
pub mod Ends
use dlight_client.Common.{
  ℕ, Option, none, some, Bool, true, false, String, List, [], ◌∷◌, ◌++◌, map, leb, ◌==◌, ◌||◌,
  if◌then◌else◌,
}
use dlight_client.Errors.{Error, Result, ok, err, is_exception}
use dlight_client.Json.{Json, Fields, str, obj, put}
use dlight_client.Codec.{Codec}

-- `ip in discovered_devices_set`; the set is kept in the order of insertion.
unfoldable pub includes : String → List String → Bool
includes ip [] = false
includes ip (seen ∷ rest) = seen == ip || includes ip rest

pub record Listener : Type 0 where
  pub discovered : List String
  -- the oldest entry first
  pub queue : List Fields

-- Where the generator stands: at the top of its loop, in `queue.get()`, in the loop that yields
-- what is left, or after its end, which is its own or the caller's `aclose`.
pub data Phase : Type 0 where
  looping waiting draining exhausted abandoned : Phase

pub record Discovery : Type 0 where
  pub listener : Listener
  pub phase : Phase
  -- what the caller has received, the oldest first
  pub yielded : List Fields

-- What the event loop does next: a datagram arrives, the generator runs at a time since
-- `start_time`, `wait_for` expires, or the caller closes the generator.
pub data Event : Type 0 where
  datagram : String → List ℕ → Event
  resumed : ℕ → Event
  expired : Event
  closed : Event

-- After its end the generator has closed the listening socket.
abbrev pub is_open : Phase → Bool
is_open exhausted = false
is_open abandoned = false
is_open _ = true

-- `yield` with a device of the queue, back in the loop of the given phase; `empty` is the phase
-- for a queue that has none.
unfoldable pub yield_next : Phase → Phase → Discovery → Discovery
yield_next after empty d = elim d.listener.queue [
  | [] ↦ record d { phase = empty }
  | device ∷ rest ↦ record d {
    listener = record { discovered = d.listener.discovered; queue = rest };
    phase = after;
    yielded = d.yielded ++ (device ∷ []);
  }
]

-- `while not queue.empty(): yield queue.get_nowait()`
abbrev pub drain : Discovery → Discovery
drain d = yield_next draining exhausted d

-- `device = await asyncio.wait_for(queue.get(), ...); yield device`
abbrev pub receive : Discovery → Discovery
receive d = yield_next looping waiting d

abbrev pub resume : ℕ → ℕ → Phase → Discovery → Discovery
resume timeout elapsed looping d = if leb timeout elapsed then drain d else receive d
resume timeout elapsed waiting d = receive d
resume timeout elapsed draining d = drain d
resume timeout elapsed _ d = d

abbrev pub expire : Phase → Discovery → Discovery
expire waiting d = drain d
expire _ d = d

abbrev pub aclose : Phase → Discovery → Discovery
aclose exhausted d = d
aclose _ d = record d { phase = abandoned }

-- Nothing seen yet.
abbrev pub at_phase : Phase → Discovery
at_phase p = record { listener = record { discovered = []; queue = [] }; phase = p; yielded = [] }

-- The generator after the sockets are set up; a failure of that is logged, a cancellation is not.
abbrev pub begin : Option Error → Result Discovery
begin none = ok (at_phase looping)
begin (some e) = if is_exception e then ok (at_phase exhausted) else err e

-- `device_info["ip_address"] = ip_address`, which raises on anything but a dict.
abbrev pub as_device : String → Option Json → Option Fields
as_device ip (some (obj fs)) = some (put "ip_address" (str ip) fs)
as_device ip _ = none

module _ (codec : Codec) where
  -- `json.loads(data.decode("utf-8"))`
  abbrev pub decode_datagram : Option (List ℕ) → Option Json
  decode_datagram none = none
  decode_datagram (some text) = elim (codec.loads text) [ err e ↦ none | ok x ↦ some x ]

  -- `none` is one of the exceptions that `datagram_received` logs.
  unfoldable pub parse_device : String → List ℕ → Option Fields
  parse_device ip bytes = as_device ip (decode_datagram (codec.decode_utf8 bytes))

  abbrev pub enqueue : String → Option Fields → Listener → Listener
  enqueue ip none l = l
  enqueue ip (some device) l = record {
    discovered = l.discovered ++ (ip ∷ []);
    queue = l.queue ++ (device ∷ []);
  }

  unfoldable pub datagram_received : String → List ℕ → Listener → Listener
  unfolding includes parse_device
  datagram_received ip bytes l =
      if includes ip l.discovered then l else enqueue ip (parse_device ip bytes) l

  unfoldable pub advance : ℕ → Event → Discovery → Discovery
  unfolding datagram_received yield_next
  advance timeout (datagram ip bytes) d =
      if is_open d.phase then record d { listener = datagram_received ip bytes d.listener } else d
  advance timeout (resumed elapsed) d = resume timeout elapsed d.phase d
  advance timeout expired d = expire d.phase d
  advance timeout closed d = aclose d.phase d

  abbrev pub run_events : ℕ → List Event → Discovery → Discovery
  run_events timeout [] d = d
  run_events timeout (e ∷ es) d = run_events timeout es (advance timeout e d)
