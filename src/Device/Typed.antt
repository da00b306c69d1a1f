-- ===== src/Device/Typed.antt =====
-- The type of the cache: `_state` is declared as a dict, and what keeps it one.
pub mod Calls
use mathlib.Core.Path.{subst}
use dlight_client.Common.{
  ℕ, zero, suc, ◌≡◌, refl, sym, ap, ◌∙◌, Option, none, some, Bool, true, false, not, ◌&&◌, String,
  List, [], ◌∷◌, ℤ, Bool-cases, inl, inr, if◌then◌else◌,
}
use dlight_client.Errors.{Error, Result, ok, err, Action, pure, continue, ◌>>=◌, ◌>>◌, is_exception}
use dlight_client.Json.{Json, obj, Fields, contains, as_dict, truthy, get}
use dlight_client.Models.{LightScene}
use dlight_client.Remote.{Remote}
use dlight_client.Device.State.{Device, clone_state, not_none, copied_color, saved_color}
use dlight_client.Device.Operations.{
  Home, settle, cached_dict, switch_dict, brightness_dict, temperature_dict, color_dict, states_of,
  announce, refreshed, query_state, get_state, toggle_dict, toggle_cached, toggle_known, toggle,
  turn_on, turn_off, set_brightness, set_color_temperature, says_on,
}
use dlight_client.Device.Scenes.{scene_values, colored, scene_dict, with_scene, apply_scene, gather}
use dlight_client.Device.Flash.{
  Original, read_original, flash_loop, restore_original, restore_on, if_known, conclude, flash_from,
  restoring, run_flashes, flash,
}
use dlight_client.Device.Listeners.{emit_state_change}
use dlight_client.Device.Coherence.{emit-state}

abbrev pub IsDict : Json → Type 0
IsDict (obj fs) = Unit
IsDict _ = ⊥

module _ (R : Remote) where
  abbrev pub Holds : Home R → Type 0
  Holds h = IsDict h.device.state

  abbrev pub Keeps : {A : Type 0} → Action (Home R) A → Type 0
  Keeps m = (h : Home R) → Holds h → Holds (m h).1

  pub continue-Keeps :
      {A B : Type 0} (r : Result A × Home R) (f : A → Action (Home R) B)
      → Holds r.1
      → ((a : A) → Keeps (f a))
      → Holds (continue r f).1
  continue-Keeps (ok a, h) f k next = next a h k
  continue-Keeps (err e, h) f k next = k

  pub then-Keeps :
      {A B : Type 0} (m : Action (Home R) A) (n : Action (Home R) B)
      → Keeps m
      → Keeps n
      → Keeps (m >> n)
  then-Keeps m n first second h k = continue-Keeps (m h) (λ _. n) (first h k) (λ _. second)

  -- A method ends by writing a dict and telling the listeners.
  pub emitted :
      (old : Json) (fs : Fields) (d : Device)
      → d.state ≡ obj fs
      → IsDict (emit_state_change old (obj fs) d).state
  emitted old fs d e = subst IsDict (sym (emit-state old (obj fs) d ∙ e)) tt

  switch_dict-Keeps : (on : Bool) (r : Result Fields) → Keeps (switch_dict R on r)
  switch_dict-Keeps on (ok fs) h k = emitted (obj fs) _ _ refl
  switch_dict-Keeps on (err e) h k = k

  brightness_dict-Keeps : (v : Json) (r : Result Fields) → Keeps (brightness_dict R v r)
  brightness_dict-Keeps v (ok fs) h k = emitted (obj fs) _ _ refl
  brightness_dict-Keeps v (err e) h k = k

  temperature_dict-Keeps :
      (v : Json) (fs : Fields) (r : Result (Option Json)) → Keeps (temperature_dict R v fs r)
  temperature_dict-Keeps v fs (ok old) h k = emitted (obj fs) _ _ refl
  temperature_dict-Keeps v fs (err e) h k = k

  color_dict-Keeps : (v : Json) (r : Result Fields) → Keeps (color_dict R v r)
  color_dict-Keeps v (ok fs) = temperature_dict-Keeps v fs (saved_color v (get "color" fs))
  color_dict-Keeps v (err e) = λ h k. k

  pub turn_on-Keeps : Keeps (turn_on R)
  unfolding turn_on
  turn_on-Keeps h = switch_dict-Keeps true (cached_dict R h.device.state) h

  pub turn_off-Keeps : Keeps (turn_off R)
  unfolding turn_off
  turn_off-Keeps h = switch_dict-Keeps false (cached_dict R h.device.state) h

  pub set_brightness-Keeps : (v : Json) → Keeps (set_brightness R v)
  unfolding set_brightness
  set_brightness-Keeps v h = brightness_dict-Keeps v (cached_dict R h.device.state) h

  pub set_color_temperature-Keeps : (v : Json) → Keeps (set_color_temperature R v)
  unfolding set_color_temperature
  set_color_temperature-Keeps v h = color_dict-Keeps v (cached_dict R h.device.state) h
