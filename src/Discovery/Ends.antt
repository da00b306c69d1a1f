-- ===== src/Discovery/Ends.antt =====
-- discovery.py: the stream ends.
use mathlib.Core.List.{append-nil, append_assoc}
use dlight_client.Common.{
  ap, ◌∙◌, String, ℕ, suc, zero, ◌≡◌, ◌≤◌, ◌<◌, refl, true, List, [], ◌∷◌, ◌++◌, length, leb, arith,
  if◌then◌else◌,
}
use dlight_client.Json.{Fields}
use dlight_client.Codec.{Codec}
use dlight_client.Discovery.{
  Phase, looping, waiting, draining, exhausted, abandoned, Discovery, Event, resumed, expired,
  is_open, yield_next, advance, run_events, drain, receive,
}

-- The turns of a caller that asks for the next device until there is none, at one time.
abbrev pub turns : ℕ → ℕ → List Event
turns zero elapsed = []
turns (suc n) elapsed = resumed elapsed ∷ turns n elapsed

leb-true : (a b : ℕ) → a ≤ b → leb a b ≡ true
leb-true a b h = ground arith

-- A stream in its fields.
abbrev pub stream : List String → List Fields → Phase → List Fields → Discovery
stream seen queue p yielded = record {
  listener = record { discovered = seen; queue = queue };
  phase = p;
  yielded = yielded;
}

module _ (codec : Codec) (timeout elapsed : ℕ) (seen : List String) where
  turns-exhausted :
      (n : ℕ) (ys : List Fields)
      → run_events codec timeout (turns n elapsed) (stream seen [] exhausted ys)
        ≡ stream seen [] exhausted ys
  unfolding advance
  turns-exhausted zero ys = refl
  turns-exhausted (suc n) ys = turns-exhausted n ys

  turns-draining :
      (q : List Fields) (n : ℕ) (ys : List Fields)
      → length q < n
      → run_events codec timeout (turns n elapsed) (stream seen q draining ys)
        ≡ stream seen [] exhausted (ys ++ q)
  unfolding advance yield_next
  turns-draining q zero ys h = absurd (omega arith)
  turns-draining [] (suc n) ys h = rw (append-nil ys) (turns-exhausted n ys)
  turns-draining (device ∷ q) (suc n) ys h =
      turns-draining q n (ys ++ (device ∷ [])) (omega arith)
      ∙ ap (stream seen [] exhausted) (append_assoc ys (device ∷ []) q)

  after_time :
      (q : List Fields) (n : ℕ) (p : Phase) (ys : List Fields)
      → is_open p ≡ true
      → timeout ≤ elapsed
      → length q < n
      → run_events codec timeout (expired ∷ turns n elapsed) (stream seen q p ys)
        ≡ stream seen [] exhausted (ys ++ q)
  unfolding advance yield_next
  after_time q zero p ys o late h = absurd (omega arith)
  after_time q n draining ys o late h = turns-draining q n ys h
  after_time q (suc n) looping ys o late h =
      ap
        (λ b.
          run_events codec timeout (turns n elapsed)
            (if b then drain (stream seen q looping ys) else receive (stream seen q looping ys)))
        (leb-true timeout elapsed late)
      ∙ turns-draining q (suc n) ys h
  after_time [] n waiting ys o late h = rw (append-nil ys) (turns-exhausted n ys)
  after_time (device ∷ q) n waiting ys o late h =
      turns-draining q n (ys ++ (device ∷ [])) (omega arith)
      ∙ ap (stream seen [] exhausted) (append_assoc ys (device ∷ []) q)
  after_time q n exhausted ys o late h = absurd (ground arith)
  after_time q n abandoned ys o late h = absurd (ground arith)

-- Once the time is up, a stream that is still open ends after as many turns as its queue has devices
-- and one, and yields exactly the devices of the queue, in their order.
pub turns_finish :
    (codec : Codec) (timeout elapsed n : ℕ) (d : Discovery)
    → is_open d.phase ≡ true
    → timeout ≤ elapsed
    → length d.listener.queue < n
    → run_events codec timeout (expired ∷ turns n elapsed) d
      ≡ stream d.listener.discovered [] exhausted (d.yielded ++ d.listener.queue)
turns_finish codec timeout elapsed n d =
    after_time codec timeout elapsed d.listener.discovered d.listener.queue n d.phase d.yielded
