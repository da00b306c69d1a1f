-- ===== src/Device/Typed/Calls.antt =====
-- The methods that keep the cache a dict, one by one and in any sequence.
use dlight_client.Common.{
  ℕ, zero, suc, refl, Option, none, some, Bool, true, false, not, ◌&&◌, String, List, [], ◌∷◌, ℤ,
  Bool-cases, inl, inr,
}
use dlight_client.Errors.{Result, ok, err, Action, pure, ◌>>◌}
use dlight_client.Json.{
  Json, null, bool, num, str, arr, obj, Fields, end, contains, as_dict, truthy, get,
}
use dlight_client.Models.{LightScene}
use dlight_client.Remote.{Remote}
use dlight_client.Device.State.{clone_state, not_none, copied_color}
use dlight_client.Device.Operations.{
  Home, cached_dict, states_of, with_state, announce, refreshed, query_state, get_state,
  toggle_dict, toggle_cached, toggle_known, toggle, turn_on, turn_off, set_brightness,
  set_color_temperature, says_on,
}
use dlight_client.Device.Scenes.{scene_values, colored, scene_dict, with_scene, apply_scene}
use dlight_client.Device.Flash.{
  Original, read_original, flash_loop, restore_original, restore_on, if_known, conclude, flash_from,
  run_flashes, flash,
}
use dlight_client.Device.Typed.{
  IsDict, Holds, Keeps, then-Keeps, emitted, turn_on-Keeps, turn_off-Keeps, set_brightness-Keeps,
  set_color_temperature-Keeps,
}

-- What a program does with a device.
pub data Call : Type 0 where
  switches : Bool → Call
  brightens tints : Json → Call
  refreshes : Bool → Call
  toggles : Call
  applies : Bool → Option LightScene → Option ℤ → Option ℤ → Call
  blinks : ℕ → Call

-- What an answer may have under a key.
abbrev pub IsDictOrMissing : Option Json → Type 0
IsDictOrMissing none = Unit
IsDictOrMissing (some x) = IsDict x

module _ (R : Remote) where
  -- The lamp's answer to a state query holds a dict under "states", or nothing.
  abbrev pub AnswersDict : Result Fields → Type 0
  AnswersDict (ok response) = IsDictOrMissing (get "states" response)
  AnswersDict (err e) = Unit

  abbrev pub call : Call → Home R → Home R
  call (switches true) h = (turn_on R h).1
  call (switches false) h = (turn_off R h).1
  call (brightens v) h = (set_brightness R v h).1
  call (tints v) h = (set_color_temperature R v h).1
  call (refreshes force_update) h = (get_state R force_update h).1
  call toggles h = (toggle R h).1
  call (applies first scene b t) h = (apply_scene R first scene b t h).1
  call (blinks n) h = (flash R n h).1

  abbrev pub call_all : List Call → Home R → Home R
  call_all [] h = h
  call_all (c ∷ cs) h = call_all cs (call c h)

  announce-Holds :
      (old x : Json) (h : Home R)
      → IsDict x
      → Holds R (announce R old x (clone_state x) (with_state R x h)).1
  unfolding clone_state
  announce-Holds old (obj fs) h k = emitted R old fs _ refl
  announce-Holds old null h k = absurd k
  announce-Holds old (bool b) h k = absurd k
  announce-Holds old (num z) h k = absurd k
  announce-Holds old (str s) h k = absurd k
  announce-Holds old (arr xs) h k = absurd k

  abbrev or_empty_dict : Option Json → Json
  or_empty_dict none = obj end
  or_empty_dict (some x) = x

  found-IsDict : (o : Option Json) → IsDictOrMissing o → IsDict (or_empty_dict o)
  found-IsDict none a = tt
  found-IsDict (some x) a = a

  states_of-IsDict :
      (response : Fields) → IsDictOrMissing (get "states" response) → IsDict (states_of R response)
  states_of-IsDict response a = found-IsDict (get "states" response) a

  refreshed-Holds :
      (old : Json) (r : Result Fields × R.World) (h : Home R)
      → AnswersDict r.0
      → Holds R h
      → Holds R (refreshed R old r h).1
  refreshed-Holds old (ok response, w) h a k =
      announce-Holds old (states_of R response) (record h { world = w })
        (states_of-IsDict response a)
  refreshed-Holds old (err e, w) h a k = k

  restore_on-Keeps : (on : Option Json) → Keeps R (restore_on R on)
  restore_on-Keeps none = turn_on-Keeps R
  restore_on-Keeps (some v) = elim (Bool-cases (truthy v)) [
    | inl on ↦ rw on (turn_on-Keeps R)
    | inr off ↦ rw off (turn_off-Keeps R)
  ]

  if_known-Keeps :
      (o : Option Json) (set : Json → Action (Home R) Fields)
      → ((v : Json) → Keeps R (set v))
      → Keeps R (if_known R o set)
  if_known-Keeps none set k = λ h d. d
  if_known-Keeps (some v) set k = then-Keeps R (set v) (pure tt) (k v) (λ h d. d)

  restore_original-Keeps : (o : Original) → Keeps R (restore_original R o)
  unfolding restore_original
  restore_original-Keeps o =
      let b : Action (Home R) (Unit {0}) = if_known R (not_none o.brightness) (set_brightness R) in
      let t : Action (Home R) (Unit {0}) =
        if_known R (not_none o.temperature) (set_color_temperature R) in
      let last : Action (Home R) Fields = restore_on R (not_none o.on) in
      then-Keeps R b (t >> last)
        (if_known-Keeps (not_none o.brightness) (set_brightness R) (set_brightness-Keeps R))
        (then-Keeps R t last
          (if_known-Keeps (not_none o.temperature) (set_color_temperature R)
            (set_color_temperature-Keeps R))
          (restore_on-Keeps (not_none o.on)))

  flash_loop-Keeps : (n : ℕ) → Keeps R (flash_loop R n)
  unfolding flash_loop
  flash_loop-Keeps zero = λ h d. d
  flash_loop-Keeps (suc n) =
      then-Keeps R (turn_off R) (turn_on R >> flash_loop R n) (turn_off-Keeps R)
        (then-Keeps R (turn_on R) (flash_loop R n) (turn_on-Keeps R) (flash_loop-Keeps n))

  run_flashes-Holds :
      (n : ℕ) (r : Original × Result (Unit {0})) (h : Home R)
      → Holds R h
      → Holds R (run_flashes R n r h).1
  run_flashes-Holds n (o, ok _) h k = flash_loop-Keeps n h k
  run_flashes-Holds n (o, err e) h k = k

  conclude-Holds :
      {A : Type 0} (r : Result A) (out : Result Fields × Home R)
      → Holds R out.1
      → Holds R (conclude R r out).1
  conclude-Holds r (ok response, h) k = k
  conclude-Holds r (err e, h) k = k

  flash_from-Holds : (n : ℕ) (r : Result Json × Home R) → Holds R r.1 → Holds R (flash_from R n r).1
  flash_from-Holds n (ok x, h) k =
      let flashed = run_flashes R n (read_original x) h in
      conclude-Holds flashed.0 (restore_original R (read_original x).0 flashed.1) (
        restore_original-Keeps (read_original x).0 flashed.1
          (run_flashes-Holds n (read_original x) h k))
  flash_from-Holds n (err e, h) k = k

  toggle_dict-Keeps : (r : Result Fields) → Keeps R (toggle_dict R r)
  toggle_dict-Keeps (ok fs) h k = elim (Bool-cases (says_on R (get "on" fs))) [
    | inl on ↦ rw on (turn_off-Keeps R h k)
    | inr off ↦ rw off (turn_on-Keeps R h k)
  ]
  toggle_dict-Keeps (err e) h k = k

  colored-Keeps :
      (scene : LightScene) (fs : Fields) (r : Result (Option Json)) (first : Bool)
      → Keeps R (colored R scene fs r first)
  colored-Keeps scene fs (ok old) first h k = emitted R (obj fs) _ _ refl
  colored-Keeps scene fs (err e) first h k = k

  scene_dict-Keeps :
      (scene : LightScene) (first : Bool) (r : Result Fields) → Keeps R (scene_dict R scene first r)
  scene_dict-Keeps scene first (ok fs) =
      colored-Keeps scene fs (copied_color (get "color" fs)) first
  scene_dict-Keeps scene first (err e) = λ h k. k

  with_scene-Keeps : (r : Result LightScene) (first : Bool) → Keeps R (with_scene R r first)
  with_scene-Keeps (ok scene) first h =
      scene_dict-Keeps scene first (cached_dict R h.device.state) h
  with_scene-Keeps (err e) first h = λ k. k

-- A client whose state queries are answered with a dict under "states", or without it.
module _ (R : Remote)
    (answers : (ip : List ℕ) (id : String) (w : R.World)
      → AnswersDict R (R.query_device_state ip id w).0) where
  query_state-Keeps : (old : Result Json) → Keeps R (query_state R old)
  query_state-Keeps (ok old) h k =
      refreshed-Holds R old (R.query_device_state h.device.ip h.device.id h.world) h
        (answers h.device.ip h.device.id h.world) k
  query_state-Keeps (err e) h k = k

  get_state-Keeps : (force_update : Bool) → Keeps R (get_state R force_update)
  unfolding get_state
  get_state-Keeps force_update h k = elim (Bool-cases (not force_update && truthy h.device.state)) [
    | inl cached ↦ rw cached k
    | inr asked ↦ rw asked (query_state-Keeps (clone_state h.device.state) h k)
  ]

  toggle_known-Keeps : (r : Result Bool) → Keeps R (toggle_known R r)
  toggle_known-Keeps (ok true) h k = toggle_dict-Keeps R (as_dict h.device.state) h k
  toggle_known-Keeps (ok false) h k =
      then-Keeps R (get_state R false) (toggle_cached R) (get_state-Keeps false)
        (λ h2. toggle_dict-Keeps R (as_dict h2.device.state) h2) h k
  toggle_known-Keeps (err e) h k = k

  call-Holds : (c : Call) (h : Home R) → Holds R h → Holds R (call R c h)
  unfolding toggle apply_scene flash
  call-Holds (switches true) h k = turn_on-Keeps R h k
  call-Holds (switches false) h k = turn_off-Keeps R h k
  call-Holds (brightens v) h k = set_brightness-Keeps R v h k
  call-Holds (tints v) h k = set_color_temperature-Keeps R v h k
  call-Holds (refreshes force_update) h k = get_state-Keeps force_update h k
  call-Holds toggles h k = toggle_known-Keeps (contains "on" h.device.state) h k
  call-Holds (applies first scene b t) h k = with_scene-Keeps R (scene_values scene b t) first h k
  call-Holds (blinks n) h k = flash_from-Holds R n (get_state R false h) (get_state-Keeps false h k)

  calls-Holds : (cs : List Call) (h : Home R) → Holds R h → Holds R (call_all R cs h)
  calls-Holds [] h k = k
  calls-Holds (c ∷ cs) h k = calls-Holds cs (call R c h) (call-Holds c h k)

-- When the answers to state queries hold a dict under "states" or nothing, a cache that is a dict stays
-- one through any calls of the methods, with any values, whatever the client raises, cancellations
-- included.
pub call_all-IsDict :
    (R : Remote) (cs : List Call) (h : Home R)
    → ((ip : List ℕ) (id : String) (w : R.World) → AnswersDict R (R.query_device_state ip id w).0)
    → IsDict h.device.state
    → IsDict (call_all R cs h).device.state
call_all-IsDict R cs h answers k = calls-Holds R answers cs h k
