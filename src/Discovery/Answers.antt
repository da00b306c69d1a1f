-- ===== src/Discovery/Answers.antt =====
-- discovery.py: every lamp that answers in time is found.
use dlight_client.Common.{
  ℕ, ◌≡◌, refl, sym, ap, ◌∙◌, some, true, String, List, [], ◌∷◌, ◌++◌, map, arith, eq_iff,
}
use mathlib.Core.List.{append-nil}
use dlight_client.Json.{Fields}
use dlight_client.Codec.{Codec}
use dlight_client.Discovery.{
  includes, Phase, looping, waiting, draining, exhausted, Discovery, Event, datagram, resumed,
  expired, closed, is_open, yield_next, parse_device, datagram_received, advance, run_events,
  at_phase,
}
use dlight_client.Discovery.Streams.{
  address, found, IsConsistent, at_phase-IsConsistent, includes-append, discovered-yield_next,
  run_events-IsConsistent,
}

-- Only an empty queue ends the stream.
abbrev EndsDry : Discovery → Type 0
EndsDry d = d.phase ≡ exhausted → d.listener.queue ≡ []

yield_next-EndsDry :
    (after empty : Phase) (d : Discovery)
    → is_open after ≡ true
    → EndsDry (yield_next after empty d)
unfolding yield_next
yield_next-EndsDry after empty d o h = ground arith

all_yielded : (d : Discovery) → d.listener.queue ≡ [] → found d ≡ d.yielded
all_yielded d dry = rw dry (append-nil d.yielded)

yielded_known :
    (ip : String) (d : Discovery)
    → IsConsistent d
    → d.listener.queue ≡ []
    → includes ip d.listener.discovered ≡ true
    → includes ip (map address d.yielded) ≡ true
yielded_known ip d c dry h =
    sym (ap (λ devices. includes ip (map address devices)) (all_yielded d dry))
    ∙ (ap (includes ip) c.listed ∙ h)

includes-last : (ip : String) (ips : List String) → includes ip (ips ++ (ip ∷ [])) ≡ true
unfolding includes
includes-last ip [] = ground (arith, eq_iff ip ip)
includes-last ip (x ∷ xs) = ground (arith, includes-last ip xs)

module _ (codec : Codec) (timeout : ℕ) where
  advance-EndsDry : (e : Event) (d : Discovery) → EndsDry d → EndsDry (advance codec timeout e d)
  unfolding advance
  advance-EndsDry (datagram ip bytes) d c h = ground arith
  advance-EndsDry (resumed elapsed) d c h =
      ground (arith, yield_next-EndsDry looping waiting d, yield_next-EndsDry draining exhausted d)
  advance-EndsDry expired d c h = ground (arith, yield_next-EndsDry draining exhausted d)
  advance-EndsDry closed d c h = ground arith

  run_events-EndsDry :
      (es : List Event) (d : Discovery) → EndsDry d → EndsDry (run_events codec timeout es d)
  run_events-EndsDry [] d c = c
  run_events-EndsDry (e ∷ es) d c =
      run_events-EndsDry es (advance codec timeout e d) (advance-EndsDry e d c)

  -- An address that is in the set stays in it.
  advance-includes :
      (ip : String) (e : Event) (d : Discovery)
      → includes ip d.listener.discovered ≡ true
      → includes ip (advance codec timeout e d).listener.discovered ≡ true
  unfolding advance datagram_received
  advance-includes ip (datagram from bytes) d h =
      ground (arith, includes-append ip d.listener.discovered (from ∷ []))
  advance-includes ip (resumed elapsed) d h =
      ground
        (arith, discovered-yield_next looping waiting d, discovered-yield_next draining exhausted d)
  advance-includes ip expired d h = ground (arith, discovered-yield_next draining exhausted d)
  advance-includes ip closed d h = ground arith

  run_events-includes :
      (ip : String) (es : List Event) (d : Discovery)
      → includes ip d.listener.discovered ≡ true
      → includes ip (run_events codec timeout es d).listener.discovered ≡ true
  run_events-includes ip [] d h = h
  run_events-includes ip (e ∷ es) d h =
      run_events-includes ip es (advance codec timeout e d) (advance-includes ip e d h)

  -- A dict from an address puts the address into the set, if it is not in it.
  answered-includes :
      (ip : String) (bytes : List ℕ) (device : Fields) (d : Discovery)
      → is_open d.phase ≡ true
      → parse_device codec ip bytes ≡ some device
      → includes ip (advance codec timeout (datagram ip bytes) d).listener.discovered ≡ true
  unfolding advance datagram_received
  answered-includes ip bytes device d listening good =
      ground (arith, includes-last ip d.listener.discovered)

  run_events-append :
      (es es' : List Event) (d : Discovery)
      → run_events codec timeout (es ++ es') d
        ≡ run_events codec timeout es' (run_events codec timeout es d)
  run_events-append [] es' d = refl
  run_events-append (e ∷ es) es' d = run_events-append es es' (advance codec timeout e d)

  -- At its own end a stream has yielded all that it took up.
  includes-yielded :
      (ip : String) (es : List Event)
      → let d = run_events codec timeout es (at_phase looping) in
        includes ip d.listener.discovered ≡ true
        → d.phase ≡ exhausted
        → includes ip (map address d.yielded) ≡ true
  includes-yielded ip es h over =
      yielded_known ip (run_events codec timeout es (at_phase looping))
        (run_events-IsConsistent codec timeout es (at_phase looping)
          (at_phase-IsConsistent looping))
        (run_events-EndsDry es (at_phase looping) (λ _. refl) over) h

-- A lamp that answers with a JSON dict while the stream listens is yielded: when the stream comes to
-- its own end, whatever happened before the answer and after it, the caller has a device with the
-- address of the lamp.
pub answered_found :
    (codec : Codec) (timeout : ℕ) (earlier later : List Event) (ip : String) (bytes : List ℕ)
    (device : Fields)
    → is_open (run_events codec timeout earlier (at_phase looping)).phase ≡ true
    → parse_device codec ip bytes ≡ some device
    → (run_events codec timeout (earlier ++ (datagram ip bytes ∷ later)) (at_phase looping)).phase
      ≡ exhausted
    → includes ip (
        map address
          (run_events codec timeout
            (earlier ++ (datagram ip bytes ∷ later))
            (at_phase looping)).yielded)
      ≡ true
answered_found codec timeout earlier later ip bytes device listening good over =
    includes-yielded codec timeout ip (earlier ++ (datagram ip bytes ∷ later))
      (rw (run_events-append codec timeout earlier (datagram ip bytes ∷ later) (at_phase looping)) (
        run_events-includes codec timeout ip later
          (advance codec timeout (datagram ip bytes)
            (run_events codec timeout earlier (at_phase looping)))
          (answered-includes codec timeout ip bytes device
            (run_events codec timeout earlier (at_phase looping)) listening good)))
      over
