-- ===== src/Discovery/Streams.antt =====
-- discovery.py: which devices a stream yields.
use mathlib.Core.Path.{subst}
use mathlib.Core.List.{map-append, append_assoc}
use dlight_client.Common.{
  ℕ, ◌≡◌, refl, sym, Option, none, some, Bool, true, false, not, ◌&&◌, ◌||◌, String, List, [], ◌∷◌,
  ◌++◌, map, leb, arith, eq_iff, Bool-cases, inl, inr,
}
use dlight_client.Json.{Json, Fields, str, obj, get}
use dlight_client.Json.Dict.{get-put}
use dlight_client.Codec.{Codec}
use dlight_client.Errors.{Error, ok}
use dlight_client.Discovery.{
  includes, Phase, looping, waiting, draining, exhausted, abandoned, Discovery, Event, datagram,
  resumed, expired, closed, is_open, yield_next, parse_device, as_device, decode_datagram, enqueue,
  datagram_received, advance, run_events, resume, expire, aclose, begin, at_phase,
}

abbrev pub as_address : Option Json → String
as_address (some (str ip)) = ip
as_address _ = ""

-- The address that the listener noted in a device.
abbrev pub address : Fields → String
address device = as_address (get "ip_address" device)

-- The devices that the stream has taken up: those the caller has, then those it will get.
abbrev pub found : Discovery → List Fields
found d = d.yielded ++ d.listener.queue

unfoldable pub distinct : List String → Bool
distinct [] = true
distinct (ip ∷ ips) = not (includes ip ips) && distinct ips

-- No address twice, and the set holds the addresses of the devices taken up.
pub record IsConsistent (d : Discovery) : Type 0 where
  pub listed : map address (found d) ≡ d.listener.discovered
  pub once : distinct d.listener.discovered ≡ true

pub includes-append :
    (ip : String) (xs ys : List String)
    → includes ip (xs ++ ys) ≡ (includes ip xs || includes ip ys)
unfolding includes
includes-append ip [] ys = refl
includes-append ip (x ∷ xs) ys = ground (arith, includes-append ip xs ys)

distinct-snoc :
    (ip : String) (xs : List String)
    → distinct xs ≡ true
    → includes ip xs ≡ false
    → distinct (xs ++ (ip ∷ [])) ≡ true
unfolding distinct includes
distinct-snoc ip [] h n = refl
distinct-snoc ip (x ∷ xs) h n =
    ground (arith, distinct-snoc ip xs, includes-append x xs (ip ∷ []), eq_iff x ip, eq_iff ip x)

-- A turn of the generator moves a device from the queue to the caller, or leaves both.
pub found-yield_next :
    (after empty : Phase) (d : Discovery) → found (yield_next after empty d) ≡ found d
unfolding yield_next
found-yield_next after empty d = by_queue d.listener.queue refl
  where
    by_queue : (q : List Fields) → d.listener.queue ≡ q → found (yield_next after empty d) ≡ found d
    by_queue [] h = rw h refl
    by_queue (device ∷ rest) h = rw h (append_assoc d.yielded (device ∷ []) rest)

pub discovered-yield_next :
    (after empty : Phase) (d : Discovery)
    → (yield_next after empty d).listener.discovered ≡ d.listener.discovered
unfolding yield_next
discovered-yield_next after empty d =
    elim d.listener.queue
      as (λ q.
        (yield_next after empty
          (record d { listener = record d.listener { queue = q } })).listener.discovered
        ≡ d.listener.discovered) [ [] ↦ refl | device ∷ rest ↦ refl ]

yield_next-IsConsistent :
    (after empty : Phase) (d : Discovery) → IsConsistent d → IsConsistent (yield_next after empty d)
yield_next-IsConsistent after empty d c = record {
  listed = rw (found-yield_next after empty d, discovered-yield_next after empty d) c.listed;
  once = rw (discovered-yield_next after empty d) c.once;
}

address-as_device :
    (ip : String) (x : Option Json) (device : Fields)
    → as_device ip x ≡ some device
    → address device ≡ ip
address-as_device ip (some (obj fs)) device h =
    ground (arith, get-put "ip_address" "ip_address" (str ip) fs)
address-as_device ip _ device h = ground arith

module _ (codec : Codec) (timeout : ℕ) where
  -- A datagram of a new address with a dict in it is taken up, any other changes nothing.
  enqueue-IsConsistent :
      (ip : String) (x : Option Fields) (d : Discovery)
      → includes ip d.listener.discovered ≡ false
      → ((device : Fields) → x ≡ some device → address device ≡ ip)
      → IsConsistent d
      → IsConsistent (record d { listener = enqueue codec ip x d.listener })
  enqueue-IsConsistent ip none d new at c = c
  enqueue-IsConsistent ip (some device) d new at c = record {
    listed =
        rw
          (
            sym (append_assoc d.yielded d.listener.queue (device ∷ [])),
            map-append address (found d) (device ∷ []),
            c.listed,
            at device refl,
          )
          refl;
    once = distinct-snoc ip d.listener.discovered c.once new;
  }

  datagram_received-IsConsistent :
      (ip : String) (bytes : List ℕ) (d : Discovery)
      → IsConsistent d
      → IsConsistent (record d { listener = datagram_received codec ip bytes d.listener })
  unfolding datagram_received parse_device
  datagram_received-IsConsistent ip bytes d c =
      elim (Bool-cases (includes ip d.listener.discovered)) [
        | inl seen ↦ rw seen c
        | inr new ↦ rw new (
            enqueue-IsConsistent ip (parse_device codec ip bytes) d new
              (address-as_device ip (decode_datagram codec (codec.decode_utf8 bytes))) c)
      ]

  resume-IsConsistent :
      (elapsed : ℕ) (p : Phase) (d : Discovery)
      → IsConsistent d
      → IsConsistent (resume timeout elapsed p d)
  resume-IsConsistent elapsed looping d c = elim (Bool-cases (leb timeout elapsed)) [
    | inl over ↦ rw over (yield_next-IsConsistent draining exhausted d c)
    | inr time ↦ rw time (yield_next-IsConsistent looping waiting d c)
  ]
  resume-IsConsistent elapsed waiting d c = yield_next-IsConsistent looping waiting d c
  resume-IsConsistent elapsed draining d c = yield_next-IsConsistent draining exhausted d c
  resume-IsConsistent elapsed exhausted d c = c
  resume-IsConsistent elapsed abandoned d c = c

  expire-IsConsistent : (p : Phase) (d : Discovery) → IsConsistent d → IsConsistent (expire p d)
  expire-IsConsistent waiting d c = yield_next-IsConsistent draining exhausted d c
  expire-IsConsistent _ d c = c

  aclose-IsConsistent : (p : Phase) (d : Discovery) → IsConsistent d → IsConsistent (aclose p d)
  aclose-IsConsistent exhausted d c = c
  aclose-IsConsistent _ d c = record { listed = c.listed; once = c.once }

  advance-IsConsistent :
      (e : Event) (d : Discovery) → IsConsistent d → IsConsistent (advance codec timeout e d)
  unfolding advance
  advance-IsConsistent (datagram ip bytes) d c = elim (Bool-cases (is_open d.phase)) [
    | inl listening ↦ rw listening (datagram_received-IsConsistent ip bytes d c)
    | inr over ↦ rw over c
  ]
  advance-IsConsistent (resumed elapsed) d c = resume-IsConsistent elapsed d.phase d c
  advance-IsConsistent expired d c = expire-IsConsistent d.phase d c
  advance-IsConsistent closed d c = aclose-IsConsistent d.phase d c

  pub run_events-IsConsistent :
      (es : List Event) (d : Discovery)
      → IsConsistent d
      → IsConsistent (run_events codec timeout es d)
  run_events-IsConsistent [] d c = c
  run_events-IsConsistent (e ∷ es) d c =
      run_events-IsConsistent es (advance codec timeout e d) (advance-IsConsistent e d c)

distinct-prefix : (xs ys : List String) → distinct (xs ++ ys) ≡ true → distinct xs ≡ true
unfolding distinct
distinct-prefix [] ys h = refl
distinct-prefix (x ∷ xs) ys h = ground (arith, includes-append x xs ys, distinct-prefix xs ys)

pub at_phase-IsConsistent : (p : Phase) → IsConsistent (at_phase p)
unfolding distinct
at_phase-IsConsistent p = record { listed = refl; once = refl }

begun :
    (failure : Option Error) (d : Discovery) → begin failure ≡ ok d → (p : Phase) × (at_phase p ≡ d)
begun none d h = (looping, ground arith)
begun (some e) d h = (exhausted, ground arith)

begin-IsConsistent :
    (failure : Option Error) (d : Discovery) → begin failure ≡ ok d → IsConsistent d
begin-IsConsistent failure d h =
    let (p, start) = begun failure d h in subst IsConsistent start (at_phase-IsConsistent p)

-- A stream never yields two devices with the same address, whatever arrives and however its turns
-- fall, also when setting up its sockets failed.
pub yielded_distinct :
    (codec : Codec) (timeout : ℕ) (failure : Option Error) (es : List Event) (d : Discovery)
    → begin failure ≡ ok d
    → distinct (map address (run_events codec timeout es d).yielded) ≡ true
yielded_distinct codec timeout failure es d h =
    let c = run_events-IsConsistent codec timeout es d (begin-IsConsistent failure d h) in
    let after = run_events codec timeout es d in
    distinct-prefix (map address after.yielded) (map address after.listener.queue)
      (rw (sym (map-append address after.yielded after.listener.queue), c.listed) c.once)
