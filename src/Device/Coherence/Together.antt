-- ===== src/Device/Coherence/Together.antt =====
-- The cache of a device and its lamp, over `apply_scene`: two commands of which either may fail.
use mathlib.Core.Path.{subst, ap₂}
use dlight_client.Common.{
  ◌≡◌, refl, sym, ap, ◌∙◌, ℕ, Option, none, some, Bool, true, false, String, List, [], ◌∷◌, ℤ, All,
  if◌then◌else◌,
}
use dlight_client.Errors.{Error, Result}
use dlight_client.Json.{num, obj, Fields, get, put, remove}
use dlight_client.Models.{LightScene}
use dlight_client.Lamp.{Info, Light, states}
use dlight_client.Lamp.Reports.{Change, brightness, temperature, last_light}
use dlight_client.Remote.Lamp.{
  Link, IsFault, to_lamp, Outcome, obeyed, lost, request, request-Outcome,
}
use dlight_client.Device.State.{restore, put_temperature, copied_color, clone_state}
use dlight_client.Device.Operations.{Home, cached_dict}
use dlight_client.Device.Scenes.{
  exception_of, restore_if, gather, scene_dict, scene_values, apply_scene,
}
use dlight_client.Device.Coherence.{emit-state, IsCoherent}

-- What one of the two commands came to, as `apply_scene` reads it.
data Went (c : Change) (w : Link) (out : Result Fields × Link) : Type 0 where
  went :
      exception_of out.0 ≡ none
      → out.1.light ≡ last_light w.light (c ∷ [])
      → All IsFault out.1.faults
      → Went c w out
  failed :
      (e : Error)
      → exception_of out.0 ≡ some e
      → out.1.light ≡ w.light
      → All IsFault out.1.faults
      → Went c w out

-- The cached dict after both answers, by their exceptions.
abbrev cache_after : Light → LightScene → Option Error → Option Error → Fields
cache_after l scene b t = restore_if t "color" (get "color" (states l)) (
    restore_if b "brightness" (get "brightness" (states l)) (
      put_temperature (num scene.temperature) (put "brightness" (num scene.brightness) (states l))))

module _ (int_of : String → Option ℤ) (info : Info) (command_id : String) where
  Outcome-Went :
      (c : Change) (w : Link) (out : Result Fields × Link)
      → Outcome int_of info command_id c w out
      → Went c w out
  Outcome-Went c w out (obeyed faults a e) = subst (Went c w) (sym e) (went refl refl a)
  Outcome-Went c w out (lost e faults x a f) =
      subst (Went c w) (sym f) (failed e (ap (λ b. if b then some e else none) x) refl a)

  -- Both commands, one after the other, with the cache that results.
  together :
      (c d : Change) (w : Link) (first second : Result Fields × Link)
      (cache : Option Error → Option Error → Fields)
      → Went c w first
      → Went d first.1 second
      → cache none none ≡ states (last_light (last_light w.light (c ∷ [])) (d ∷ []))
      → ((e : Error) → cache (some e) none ≡ states (last_light w.light (d ∷ [])))
      → ((e : Error) → cache none (some e) ≡ states (last_light w.light (c ∷ [])))
      → ((e f : Error) → cache (some e) (some f) ≡ states w.light)
      → (cache (exception_of first.0) (exception_of second.0) ≡ states second.1.light)
        × All IsFault second.1.faults
  together c d w first second cache (went x p a) (went y q b) nn sn ns ss =
      (ap₂ cache x y ∙ (nn ∙ ap states (sym (q ∙ ap (λ k. last_light k (d ∷ [])) p))), b)
  together c d w first second cache (went x p a) (failed f y q b) nn sn ns ss =
      (ap₂ cache x y ∙ (ns f ∙ ap states (sym (q ∙ p))), b)
  together c d w first second cache (failed e x p a) (went y q b) nn sn ns ss =
      (ap₂ cache x y ∙ (sn e ∙ ap states (sym (q ∙ ap (λ k. last_light k (d ∷ [])) p))), b)
  together c d w first second cache (failed e x p a) (failed f y q b) nn sn ns ss =
      (ap₂ cache x y ∙ (ss e f ∙ ap states (sym (q ∙ p))), b)

  -- What the two requests come to.
  Went-request :
      (c : Change) (ip : List ℕ) (id : String) (w : Link)
      → All IsFault w.faults
      → Went c w (request int_of info command_id c ip id w)
  Went-request c ip id w a = Outcome-Went c w _ (request-Outcome int_of info command_id c ip id w a)

  Went-faults :
      {c : Change} {w : Link} {out : Result Fields × Link} → Went c w out → All IsFault out.1.faults
  Went-faults (went x p a) = a
  Went-faults (failed e x p a) = a

  gathered :
      (first : Bool) (scene : LightScene) (h : Home (to_lamp int_of info command_id))
      → All IsFault h.world.faults
      → let (answers, w) = gather (to_lamp int_of info command_id) first scene h in
        (cache_after h.world.light scene (exception_of answers.0) (exception_of answers.1)
          ≡ states w.light)
        × All IsFault w.faults
  unfolding restore put_temperature put get remove
  gathered true scene h a =
      let c : Change = brightness scene.brightness in
      let d : Change = temperature scene.temperature in
      let b = Went-request c h.device.ip h.device.id h.world a in
      together c d h.world _ _ (cache_after h.world.light scene) b
        (Went-request d h.device.ip h.device.id
          (request int_of info command_id c h.device.ip h.device.id h.world).1 (Went-faults b))
        refl (λ e. refl) (λ e. refl) (λ e f. refl)
  gathered false scene h a =
      let c : Change = temperature scene.temperature in
      let d : Change = brightness scene.brightness in
      let b = Went-request c h.device.ip h.device.id h.world a in
      together c d h.world _ _ (λ t e. cache_after h.world.light scene e t) b
        (Went-request d h.device.ip h.device.id
          (request int_of info command_id c h.device.ip h.device.id h.world).1 (Went-faults b))
        refl (λ e. refl) (λ e. refl) (λ e f. refl)

  -- A scene keeps the cache and the lamp together, in either order of its commands.
  pub apply_scene-IsCoherent :
      (first : Bool) (scene : LightScene) (h : Home (to_lamp int_of info command_id))
      → IsCoherent int_of info command_id h
      → IsCoherent int_of info command_id
          (apply_scene (to_lamp int_of info command_id) first (some scene) none none h).1
  unfolding apply_scene scene_values clone_state copied_color get
  apply_scene-IsCoherent first scene h k =
      let R = to_lamp int_of info command_id in
      let (cached, faults) = gathered first scene h k.faults in
      subst
        (λ x. IsCoherent int_of info command_id (scene_dict R scene first (cached_dict R x) h).1)
        (sym k.cached) (record { cached = emit-state _ _ _ ∙ ap obj cached; faults = faults })
