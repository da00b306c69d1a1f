-- ===== src/Device/Scenes.antt =====
-- `apply_scene` of device.py: brightness and colour temperature in one call.
pub mod Partial
use dlight_client.Common.{String, Option, none, some, Bool, true, false, ℤ, if◌then◌else◌}
use dlight_client.Errors.{Error, value_error, Result, ok, err, is_exception, Action}
use dlight_client.Json.{Json, num, obj, Fields, get, put}
use dlight_client.Models.{LightScene}
use dlight_client.Remote.{Remote}
use dlight_client.Device.State.{restore, put_temperature, copied_color}
use dlight_client.Device.Listeners.{emit_state_change}
use dlight_client.Device.Operations.{Home, cached_dict}

-- The scene, or the two keyword arguments if both are given.
unfoldable pub scene_values : Option LightScene → Option ℤ → Option ℤ → Result LightScene
scene_values (some scene) brightness temperature = ok scene
scene_values none (some b) (some t) = ok (record { brightness = b; temperature = t })
scene_values none (some b) none = err value_error
scene_values none none temperature = err value_error

-- The two answers. One that is a cancellation is no `Exception`, and counts as an answer.
abbrev pub Answers : Type 0
Answers = Result Fields × Result Fields

-- `results[i] if isinstance(results[i], Exception) else None`
abbrev pub exception_of : Result Fields → Option Error
exception_of (ok response) = none
exception_of (err e) = if is_exception e then some e else none

abbrev pub first_exception : Option Error → Option Error → Answers → Result Answers
first_exception (some e) exc_temperature answers = err e
first_exception none (some e) answers = err e
first_exception none none answers = ok answers

abbrev pub scene_result : Answers → Result Answers
scene_result (b, t) = first_exception (exception_of b) (exception_of t) (b, t)

abbrev pub restore_if : Option Error → String → Option Json → Fields → Fields
restore_if none key old fs = fs
restore_if (some e) key old fs = restore key old fs

-- Each field whose command failed gets its old value back. The order is that of the source: the
-- brightness first.
abbrev pub roll_back : Option Json → Option Json → Answers → Fields → Fields
roll_back old_brightness old_color (b, t) fs =
    restore_if (exception_of t) "color" old_color
      (restore_if (exception_of b) "brightness" old_brightness fs)

module _ (R : Remote) where
  -- `asyncio.gather(..., return_exceptions=True)`: both commands are sent; `brightness_first` is
  -- which of them the lamp sees first. The task that awaits them is not cancelled meanwhile.
  abbrev pub gather : Bool → LightScene → Home R → Answers × R.World
  gather true scene h =
      let (b, w) = R.set_brightness h.device.ip h.device.id (num scene.brightness) h.world in
      let (t, w') = R.set_color_temperature h.device.ip h.device.id (num scene.temperature) w in
      ((b, t), w')
  gather false scene h =
      let (t, w) =
        R.set_color_temperature h.device.ip h.device.id (num scene.temperature) h.world in
      let (b, w') = R.set_brightness h.device.ip h.device.id (num scene.brightness) w in
      ((b, t), w')

  abbrev pub colored : LightScene → Fields → Result (Option Json) → Bool → Action (Home R) Answers
  colored scene fs (err e) brightness_first h = (err e, h)
  colored scene fs (ok old_color) brightness_first h =
      let updated : Fields =
        put_temperature (num scene.temperature) (put "brightness" (num scene.brightness) fs) in
      let (answers, w) = gather brightness_first scene h in
      let x : Json = obj (roll_back (get "brightness" fs) old_color answers updated) in
      (
        scene_result answers,
        record h {
          device = emit_state_change (obj fs) x (record h.device { state = x });
          world = w;
        },
      )

  abbrev pub scene_dict : LightScene → Bool → Result Fields → Action (Home R) Answers
  scene_dict scene brightness_first (err e) h = (err e, h)
  scene_dict scene brightness_first (ok fs) h =
      colored scene fs (copied_color (get "color" fs)) brightness_first h

  abbrev pub with_scene : Result LightScene → Bool → Action (Home R) Answers
  with_scene (err e) brightness_first h = (err e, h)
  with_scene (ok scene) brightness_first h =
      scene_dict scene brightness_first (cached_dict R h.device.state) h

  unfoldable pub apply_scene :
      Bool → Option LightScene → Option ℤ → Option ℤ → Action (Home R) Answers
  apply_scene brightness_first scene brightness temperature h =
      with_scene (scene_values scene brightness temperature) brightness_first h
