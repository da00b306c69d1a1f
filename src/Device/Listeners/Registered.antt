-- ===== src/Device/Listeners/Registered.antt =====
-- The list of listeners as a set: registering twice has no effect, and a removal forgets a listener.
use dlight_client.Common.{
  eqb_iff, ℕ, zero, suc, ◌+◌, ◌-◌, ◌≡◌, refl, sym, ap, ◌∙◌, Bool, true, false, not, ◌&&◌, List, [],
  ◌∷◌, ◌++◌, map, eqb, arith, if◌then◌else◌, Bool-cases, inl, inr,
}
use mathlib.Core.List.{append-nil}
use mathlib.Core.Path.{ap₂}
use dlight_client.Json.{Json, json_eq}
use dlight_client.Device.State.{Device, Notice}
use dlight_client.Device.Listeners.{
  listed, without, on_state_change, remove_state_listener, is_nil, notice, emit_state_change,
}

-- What a program asks of a device.
pub data Registration : Type 0 where
  registers removes : ℕ → Registration

abbrev pub register : Registration → Device → Device
register (registers callback) d = on_state_change callback d
register (removes callback) d = remove_state_listener callback d

abbrev pub register_all : List Registration → Device → Device
register_all [] d = d
register_all (r ∷ rs) d = register_all rs (register r d)

-- Whether a callback listens: the last registration that names it decides.
abbrev pub is_listening : ℕ → List Registration → Bool → Bool
is_listening callback [] before = before
is_listening callback (registers c ∷ rs) before =
    is_listening callback rs (if eqb c callback then true else before)
is_listening callback (removes c ∷ rs) before =
    is_listening callback rs (if eqb c callback then false else before)

-- The notices that a callback gets, in their order.
abbrev pub told : ℕ → List Notice → List Notice
told callback [] = []
told callback (n ∷ ns) =
    let rest = told callback ns in if eqb n.callback callback then n ∷ rest else rest

abbrev bit : Bool → ℕ
bit true = 1
bit false = 0

occurs : ℕ → List ℕ → ℕ
occurs callback [] = 0
occurs callback (c ∷ cs) =
    let rest = occurs callback cs in if eqb c callback then suc rest else rest

occurs-append :
    (callback c : ℕ) (cs : List ℕ)
    → occurs callback (cs ++ c ∷ []) ≡ occurs callback cs + bit (eqb c callback)
unfolding occurs
occurs-append callback c [] = ground arith
occurs-append callback c (x ∷ cs) = ground (arith, occurs-append callback c cs)

occurs-without :
    (callback c : ℕ) (cs : List ℕ)
    → occurs callback (without c cs) ≡ occurs callback cs - bit (eqb c callback)
unfolding occurs without
occurs-without callback c [] = ground arith
occurs-without callback c (x ∷ cs) = ground (arith, occurs-without callback c cs)

listed_lem :
    (callback : ℕ) (cs : List ℕ) (b : Bool) → occurs callback cs ≡ bit b → listed callback cs ≡ b
unfolding occurs
listed_lem callback [] b h = ground arith
listed_lem callback (x ∷ cs) b h = ground (arith, listed_lem callback cs b)

-- What one registration does to the list, and to the one who listens.
registered :
    (callback : ℕ) (r : Registration) (d : Device) (b : Bool)
    → occurs callback d.listeners ≡ bit b
    → occurs callback (register r d).listeners ≡ bit (is_listening callback (r ∷ []) b)
unfolding on_state_change remove_state_listener
registered callback (registers c) d b h = elim (Bool-cases (listed c d.listeners)) [
  | inl here ↦ rw here (ground (arith, listed_lem callback d.listeners b h))
  | inr absent ↦
      rw absent
        (ground (arith, listed_lem callback d.listeners b h, occurs-append callback c d.listeners))
]
registered callback (removes c) d b h = ground (arith, occurs-without callback c d.listeners)

all_registered :
    (callback : ℕ) (rs : List Registration) (d : Device) (b : Bool)
    → occurs callback d.listeners ≡ bit b
    → occurs callback (register_all rs d).listeners ≡ bit (is_listening callback rs b)
all_registered callback [] d b h = h
all_registered callback (registers c ∷ rs) d b h =
    all_registered callback rs (register (registers c) d) _
      (registered callback (registers c) d b h)
all_registered callback (removes c ∷ rs) d b h =
    all_registered callback rs (register (removes c) d) _ (registered callback (removes c) d b h)

register_all_notified :
    (rs : List Registration) (d : Device) → (register_all rs d).notified ≡ d.notified
unfolding on_state_change remove_state_listener
register_all_notified [] d = refl
register_all_notified (registers c ∷ rs) d =
    register_all_notified rs (on_state_change c d) ∙ ground arith
register_all_notified (removes c ∷ rs) d = register_all_notified rs (remove_state_listener c d)

told-append :
    (callback : ℕ) (ns ms : List Notice)
    → told callback (ns ++ ms) ≡ told callback ns ++ told callback ms
told-append callback [] ms = refl
told-append callback (n ∷ ns) ms = ground (arith, told-append callback ns ms)

-- Nobody else is told: a callback gets as many notices as it stands in the list.
abbrev copies : ℕ → Notice → List Notice
copies zero n = []
copies (suc k) n = n ∷ copies k n

told-notices :
    (callback : ℕ) (old new : Json) (cs : List ℕ)
    → told callback (map (notice old new) cs)
      ≡ copies (occurs callback cs) (notice old new callback)
unfolding occurs
told-notices callback old new [] = refl
told-notices callback old new (c ∷ cs) = elim (Bool-cases (eqb c callback)) [
  | inl same ↦ rw same (
      ap₂ (λ k (ns : List Notice). notice old new k ∷ ns) ((eqb_iff c callback).0 same)
        (told-notices callback old new cs))
  | inr differs ↦ rw differs (told-notices callback old new cs)
]

-- The notices of a change, of which there are none if nobody listens.
notices_any :
    (callback : ℕ) (old new : Json) (cs : List ℕ) (ns : List Notice)
    → is_nil cs ≡ true
    → told callback ns ≡ told callback (ns ++ map (notice old new) cs)
notices_any callback old new [] ns h = ap (told callback) (sym (append-nil ns))
notices_any callback old new (c ∷ cs) ns h = ground arith

told-emit :
    (callback : ℕ) (old new : Json) (d : Device)
    → json_eq old new ≡ false
    → told callback (emit_state_change old new d).notified
      ≡ told callback d.notified ++ copies (occurs callback d.listeners) (notice old new callback)
unfolding emit_state_change
told-emit callback old new d ne =
    let all = told-append callback d.notified (map (notice old new) d.listeners) in
    let own = told-notices callback old new d.listeners in
    elim (Bool-cases (is_nil d.listeners)) [
      | inl nobody ↦ rw nobody (
          notices_any callback old new d.listeners d.notified nobody
          ∙ (all ∙ ap (λ ns. told callback d.notified ++ ns) own))
      | inr somebody ↦ rw (somebody, ne) (all ∙ ap (λ ns. told callback d.notified ++ ns) own)
    ]

copies-bit : (b : Bool) (n : Notice) → copies (bit b) n ≡ (if b then n ∷ [] else [])
copies-bit true n = refl
copies-bit false n = refl

emit_same :
    (old new : Json) (d : Device)
    → json_eq old new ≡ true
    → (emit_state_change old new d).notified ≡ d.notified
unfolding emit_state_change
emit_same old new d same = ground arith

-- Whatever was registered and removed on a device that had no listeners, when its state changes each
-- callback gets one notice, with the old and the new state, if the last registration that names it
-- registers it, and none otherwise; and nobody gets any when the two states are equal.
pub register_all-emit :
    (rs : List Registration) (callback : ℕ) (old new : Json) (d : Device)
    → d.listeners ≡ []
    → told callback (emit_state_change old new (register_all rs d)).notified
      ≡ told callback d.notified
        ++ (if not (json_eq old new) && is_listening callback rs false
            then notice old new callback ∷ []
            else [])
unfolding occurs
register_all-emit rs callback old new d empty =
    let e : Device = register_all rs d in
    let kept = ap (told callback) (register_all_notified rs d) in
    elim (Bool-cases (json_eq old new)) [
      | inl same ↦ rw same (
          ap (told callback) (emit_same old new e same)
          ∙ (kept ∙ sym (append-nil (told callback d.notified))))
      | inr differs ↦ rw differs (
          told-emit callback old new e differs
          ∙ ap₂ (λ ns k. ns ++ copies k (notice old new callback)) kept
              (all_registered callback rs d false (ap (occurs callback) empty))
          ∙ ap (λ ns. told callback d.notified ++ ns)
              (copies-bit (is_listening callback rs false) (notice old new callback)))
    ]
