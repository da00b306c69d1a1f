-- ===== src/Device/Scenes/Partial.antt =====
-- After `apply_scene` each field has its new value exactly if its own command did not fail.
use dlight_client.Common.{
  ◌≡◌, ◌≢◌, ◌⊎◌, inl, inr, refl, ap, ◌∙◌, Option, none, some, Bool, arith, ℤ,
}
use dlight_client.Errors.{Error, Result, ok}
use dlight_client.Json.{Json, null, num, obj, Fields, get, put}
use dlight_client.Json.Dict.{get-put, put-put-put, remove-put-put}
use dlight_client.Models.{LightScene}
use dlight_client.Remote.{Remote}
use dlight_client.Device.State.{
  Device, clone_state, restore, put_temperature, copied_color, with_temperature,
}
use dlight_client.Device.Listeners.{emit_state_change}
use dlight_client.Device.Operations.{Home, cached_dict}
use dlight_client.Device.Rollback.{restore-eq, restore-put}
use dlight_client.Device.Scenes.{
  Answers, exception_of, scene_result, restore_if, roll_back, scene_values, gather, colored,
  scene_dict, with_scene, apply_scene,
}

-- The colour that is cached is a dict, if there is one.
abbrev pub HasColor : Fields → Type 0
HasColor fs = (get "color" fs ≡ none) ⊎ ((color : Fields) × (get "color" fs ≡ some (obj color)))

abbrev pub unless {ℓ} : {A : Type ℓ} → Option Error → (A → A) → A → A
unless none f x = f x
unless (some e) f x = x

abbrev pub set_scene_brightness : LightScene → Fields → Fields
set_scene_brightness scene fs = put "brightness" (num scene.brightness) fs

-- The field of each command that did not fail.
abbrev pub partly : LightScene → Answers → Fields → Fields
partly scene (b, t) fs =
    unless (exception_of t) (put_temperature (num scene.temperature))
      (unless (exception_of b) (set_scene_brightness scene) fs)

module _ (scene : LightScene) (fs : Fields) (bright : get "brightness" fs ≢ some null)
    (color : HasColor fs) where
  not_null : get "color" fs ≢ some null
  not_null e = ground arith

  lit : Fields
  lit = set_scene_brightness scene fs

  color_of_lit : get "color" lit ≡ get "color" fs
  unfolding lit
  color_of_lit = get-put "brightness" "color" (num scene.brightness) fs

  only_temperature :
      restore "color" (get "color" fs) (put_temperature (num scene.temperature) lit) ≡ lit
  unfolding put_temperature
  only_temperature = rw (← color_of_lit) (
      restore-put "color" (with_temperature (get "color" lit) (num scene.temperature)) lit
        (rw color_of_lit not_null))

  only_brightness :
      restore "brightness" (get "brightness" fs) (put_temperature (num scene.temperature) lit)
      ≡ put_temperature (num scene.temperature) fs
  unfolding put_temperature lit
  only_brightness =
      let c : Json = with_temperature (get "color" fs) (num scene.temperature) in
      rw (get-put "brightness" "color" (num scene.brightness) fs) (
        restore-eq "brightness" (get "brightness" fs)
          (put "color" c (put "brightness" (num scene.brightness) fs)) (put "color" c fs) bright
          (λ old e. put-put-put "brightness" "color" old (num scene.brightness) c fs refl e)
          (remove-put-put "brightness" "color" (num scene.brightness) c fs refl))

  both : restore "color" (get "color" fs) (put_temperature (num scene.temperature) fs) ≡ fs
  unfolding put_temperature
  both = restore-put "color" (with_temperature (get "color" fs) (num scene.temperature)) fs not_null

  roll_back-partly :
      (answers : Answers)
      → roll_back
          (get "brightness" fs)
          (get "color" fs)
          answers
          (put_temperature (num scene.temperature) (set_scene_brightness scene fs))
        ≡ partly scene answers fs
  unfolding lit
  roll_back-partly (b, t) = go (exception_of b) (exception_of t)
    where
      go :
          (eb et : Option Error)
          → restore_if et "color" (get "color" fs) (
              restore_if eb "brightness"
                (get "brightness" fs)
                (put_temperature (num scene.temperature) (set_scene_brightness scene fs)))
            ≡ unless et
                (put_temperature (num scene.temperature))
                (unless eb (set_scene_brightness scene) fs)
      go none none = refl
      go none (some e) = only_temperature
      go (some e) none = only_brightness
      go (some e) (some e') = rw only_brightness both

state_emit : (old new : Json) (d : Device) → (emit_state_change old new d).state ≡ d.state
unfolding emit_state_change
state_emit old new d = ground arith

copied : (fs : Fields) → HasColor fs → copied_color (get "color" fs) ≡ ok (get "color" fs)
unfolding copied_color
copied fs (inl e) = rw e refl
copied fs (inr (c, e)) = rw e refl

module _ (R : Remote) (h : Home R) (fs : Fields) (scene : LightScene) where
  apply_scene-eq :
      (brightness_first : Bool) (preset : Option LightScene) (b t : Option ℤ)
      → h.device.state ≡ obj fs
      → HasColor fs
      → scene_values preset b t ≡ ok scene
      → apply_scene R brightness_first preset b t h
        ≡ colored R scene fs (ok (get "color" fs)) brightness_first h
  unfolding apply_scene clone_state
  apply_scene-eq brightness_first preset b t cached color given =
      ap (λ s. with_scene R s brightness_first h) given
      ∙ ap (λ x. scene_dict R scene brightness_first (cached_dict R x) h) cached
      ∙ ap (λ r. colored R scene fs r brightness_first h) (copied fs color)

  -- Whichever command the lamp sees first, and while the task that awaits them is not cancelled:
  -- `apply_scene` returns both answers if neither is an exception, and else raises the brightness's
  -- exception before the temperature's. In the cache the brightness is new exactly if its command
  -- raised no exception, so is the colour temperature, and every other entry is as it was.
  pub apply_scene-partly :
      (brightness_first : Bool) (preset : Option LightScene) (b t : Option ℤ)
      → h.device.state ≡ obj fs
      → get "brightness" fs ≢ some null
      → HasColor fs
      → scene_values preset b t ≡ ok scene
      → let out : Result Answers × Home R = apply_scene R brightness_first preset b t h in
        let answers : Answers = (gather R brightness_first scene h).0 in
        (out.0 ≡ scene_result answers)
        × (out.1.device.state ≡ obj (partly scene answers fs))
        × (out.1.world ≡ (gather R brightness_first scene h).1)
  apply_scene-partly brightness_first preset b t cached bright color given =
      let e = apply_scene-eq brightness_first preset b t cached color given in
      let answers : Answers = (gather R brightness_first scene h).0 in
      rw e (refl, state_emit _ _ _ ∙ ap obj (roll_back-partly scene fs bright color answers), refl)
