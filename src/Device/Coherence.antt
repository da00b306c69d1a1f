-- ===== src/Device/Coherence.antt =====
-- The cache of a device, and the lamp behind its client.
pub mod Flashes
pub mod Networked
pub mod Together
pub mod Uses
use dlight_client.Common.{
  ◌≡◌, refl, sym, ap, ◌∙◌, ℕ, Option, none, some, Bool, not, true, false, String, List, [], ◌∷◌, ℤ,
  All, Bool-cases, inl, inr, arith, if◌then◌else◌,
}
use mathlib.Core.Path.{subst}
use dlight_client.Errors.{Error, Result, ok, err, is_exception}
use dlight_client.Json.{Json, contains, as_dict, num, obj, Fields, get, put, remove}
use dlight_client.Models.{acknowledged, LightScene}
use dlight_client.Lamp.{Info, Light, states}
use dlight_client.Lamp.Reports.{Change, on_off, brightness, temperature, last_light}
use dlight_client.Remote.{Remote}
use dlight_client.Remote.Lamp.{
  Link, IsFault, to_lamp, Outcome, obeyed, lost, request, request-Outcome, Answer, told, silent,
  query-Answer,
}
use dlight_client.Device.State.{Device, restore, put_temperature, saved_color, clone_state}
use dlight_client.Device.Listeners.{emit_state_change}
use dlight_client.Device.Operations.{
  Home, settle, get_state, toggle, turn_on, turn_off, toggle_known, toggle_dict, refreshed,
  query_state,
}
use dlight_client.Device.Rollback.{
  Change as DeviceChange, perform, perform-eq, changed, restored, CanStart, switch,
  request as device_request,
}

pub emit-state : (old new : Json) (d : Device) → (emit_state_change old new d).state ≡ d.state
unfolding emit_state_change
emit-state old new d = ground arith

module _ (R : Remote) where
  -- The device's method for a change.
  abbrev pub as_method : Change → DeviceChange R
  as_method (on_off b) = DeviceChange.switch b
  as_method (brightness z) = DeviceChange.brightness (num z)
  as_method (temperature z) = DeviceChange.temperature (num z)

  changed-states :
      (c : Change) (l : Light) → changed R (as_method c) (states l) ≡ states (last_light l (c ∷ []))
  unfolding put put_temperature get
  changed-states (on_off b) l = refl
  changed-states (brightness z) l = refl
  changed-states (temperature z) l = refl

  restored-states : (c : Change) (l : Light) → restored R (as_method c) (states l) ≡ states l
  unfolding put put_temperature get restore
  restored-states (on_off b) l = refl
  restored-states (brightness z) l = refl
  restored-states (temperature z) l = refl

  can_start : (c : Change) (l : Light) → CanStart R (as_method c) (states l)
  unfolding saved_color get
  can_start (on_off b) l = tt
  can_start (brightness z) l = tt
  can_start (temperature z) l = refl

  -- Over a cache that holds the state of a lamp.
  pub perform-states :
      (c : Change) (h : Home R) (l : Light)
      → h.device.state ≡ obj (states l)
      → perform R (as_method c) h
        ≡ settle R
            (obj (states l))
            (states (last_light l (c ∷ [])))
            (states l)
            (device_request R (as_method c) h)
            h
  perform-states c h l cached =
      perform-eq R (as_method c) h (states l) cached (can_start c l)
      ∙ ap
          (λ x.
            settle R (obj (states l)) x (restored R (as_method c) (states l))
              (device_request R (as_method c) h) h)
          (changed-states c l)
      ∙ ap
          (λ x.
            settle R (obj (states l)) (states (last_light l (c ∷ []))) x
              (device_request R (as_method c) h) h)
          (restored-states c l)

module _ (int_of : String → Option ℤ) (info : Info) (command_id : String) where
  -- The cache holds the state of the lamp, and no coming fault is a cancellation.
  pub record IsCoherent (h : Home (to_lamp int_of info command_id)) : Type 0 where
    pub cached : h.device.state ≡ obj (states h.world.light)
    pub faults : All IsFault h.world.faults

  -- The end of the method, whichever way the command went.
  settle-IsCoherent :
      (c : Change) (h : Home (to_lamp int_of info command_id)) (out : Result Fields × Link)
      → Outcome int_of info command_id c h.world out
      → IsCoherent
          (settle
            (to_lamp int_of info command_id)
            (obj (states h.world.light))
            (states (last_light h.world.light (c ∷ [])))
            (states h.world.light)
            out
            h).1
  settle-IsCoherent c h out (obeyed faults a e) =
      subst
        (λ out'.
          IsCoherent
            (settle (to_lamp int_of info command_id) (obj (states h.world.light))
              (states (last_light h.world.light (c ∷ []))) (states h.world.light) out' h).1)
        (sym e) (record { cached = emit-state _ _ _; faults = a })
  settle-IsCoherent c h out (lost e faults x a f) =
      subst
        (λ out'.
          IsCoherent
            (settle (to_lamp int_of info command_id) (obj (states h.world.light))
              (states (last_light h.world.light (c ∷ []))) (states h.world.light) out' h).1)
        (sym f)
        (record {
          cached =
              emit-state _ _ _
              ∙ ap
                  (λ b. obj (
                    if b then states h.world.light else states (last_light h.world.light (c ∷ []))))
                  x;
          faults = a;
        })

  same_request :
      (c : Change) (h : Home (to_lamp int_of info command_id))
      → device_request
          (to_lamp int_of info command_id)
          (as_method (to_lamp int_of info command_id) c)
          h
        ≡ request int_of info command_id c h.device.ip h.device.id h.world
  same_request (on_off b) h = refl
  same_request (brightness z) h = refl
  same_request (temperature z) h = refl

  -- One method keeps the cache and the lamp together.
  pub perform-IsCoherent :
      (c : Change) (h : Home (to_lamp int_of info command_id))
      → IsCoherent h
      → IsCoherent
          (perform
            (to_lamp int_of info command_id)
            (as_method (to_lamp int_of info command_id) c)
            h).1
  perform-IsCoherent c h k =
      let R = to_lamp int_of info command_id in
      let fs : Fields = states h.world.light in
      subst (λ r. IsCoherent r.1)
        (sym (
          perform-states R c h h.world.light k.cached
          ∙ ap (λ x. settle R (obj fs) (states (last_light h.world.light (c ∷ []))) fs x h)
              (same_request c h)))
        (settle-IsCoherent c h (request int_of info command_id c h.device.ip h.device.id h.world)
          (request-Outcome int_of info command_id c h.device.ip h.device.id h.world k.faults))
