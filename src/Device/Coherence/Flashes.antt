-- ===== src/Device/Coherence/Flashes.antt =====
-- The cache of a device and its lamp, over `flash`: a sequence of methods that any failure cuts short.
use mathlib.Core.Path.{subst}
use dlight_client.Common.{
  ℕ, zero, suc, ◌≡◌, refl, sym, ap, Option, some, Bool, true, false, String, ℤ,
}
use dlight_client.Errors.{Result, ok, err, Action, pure, continue, ◌>>◌}
use dlight_client.Json.{num, bool, obj, Fields, get, truthy}
use dlight_client.Lamp.{Info, Light, states}
use dlight_client.Lamp.Reports.{on_off, brightness, temperature}
use dlight_client.Remote.Lamp.{to_lamp}
use dlight_client.Device.Operations.{
  Home, get_state, turn_on, turn_off, set_brightness, set_color_temperature,
}
use dlight_client.Device.Flash.{
  Original, read_original, flash_loop, restore_original, restore_on, conclude, flash_from,
  run_flashes, restoring, flash,
}
use dlight_client.Device.Coherence.{IsCoherent, perform-IsCoherent}

-- The original state that is read from a lamp's state.
abbrev original_of : Light → Original
original_of l = record {
  on = some (bool l.on);
  brightness = some (num l.brightness);
  temperature = some (num l.temperature);
}

read_original-states : (l : Light) → read_original (obj (states l)) ≡ (original_of l, ok tt)
unfolding read_original get
read_original-states l = refl

module _ (int_of : String → Option ℤ) (info : Info) (command_id : String) where
  -- An action that keeps the cache and the lamp together, however it ends.
  abbrev Keeps : {A : Type 0} → Action (Home (to_lamp int_of info command_id)) A → Type 0
  Keeps m =
      (h : Home (to_lamp int_of info command_id))
      → IsCoherent int_of info command_id h
      → IsCoherent int_of info command_id (m h).1

  continue-Keeps :
      {A B : Type 0} (r : Result A × Home (to_lamp int_of info command_id))
      (f : A → Action (Home (to_lamp int_of info command_id)) B)
      → IsCoherent int_of info command_id r.1
      → ((a : A) → Keeps (f a))
      → IsCoherent int_of info command_id (continue r f).1
  continue-Keeps (ok a, h) f k next = next a h k
  continue-Keeps (err e, h) f k next = k

  then-Keeps :
      {A B : Type 0} (m : Action (Home (to_lamp int_of info command_id)) A)
      (n : Action (Home (to_lamp int_of info command_id)) B)
      → Keeps m
      → Keeps n
      → Keeps (m >> n)
  then-Keeps m n first second h k = continue-Keeps (m h) (λ _. n) (first h k) (λ _. second)

  flash_loop-Keeps : (n : ℕ) → Keeps (flash_loop (to_lamp int_of info command_id) n)
  unfolding flash_loop
  flash_loop-Keeps zero = λ h k. k
  flash_loop-Keeps (suc n) =
      let R = to_lamp int_of info command_id in
      then-Keeps (turn_off R) (turn_on R >> flash_loop R n)
        (perform-IsCoherent int_of info command_id (on_off false))
        (then-Keeps (turn_on R) (flash_loop R n)
          (perform-IsCoherent int_of info command_id (on_off true)) (flash_loop-Keeps n))

  restore_on-Keeps :
      (on : Bool) → Keeps (restore_on (to_lamp int_of info command_id) (some (bool on)))
  restore_on-Keeps true = perform-IsCoherent int_of info command_id (on_off true)
  restore_on-Keeps false = perform-IsCoherent int_of info command_id (on_off false)

  restore_original-Keeps :
      (l : Light) → Keeps (restore_original (to_lamp int_of info command_id) (original_of l))
  unfolding restore_original
  restore_original-Keeps l =
      let R = to_lamp int_of info command_id in
      let b : Action (Home R) Fields = set_brightness R (num l.brightness) in
      let t : Action (Home R) Fields = set_color_temperature R (num l.temperature) in
      let done : Action (Home R) (Unit {0}) = pure tt in
      then-Keeps (b >> done) ((t >> done) >> restore_on R (some (bool l.on)))
        (then-Keeps b done (perform-IsCoherent int_of info command_id (brightness l.brightness))
          (λ h k. k))
        (then-Keeps (t >> done) (restore_on R (some (bool l.on)))
          (then-Keeps t done (perform-IsCoherent int_of info command_id (temperature l.temperature))
            (λ h k. k))
          (restore_on-Keeps l.on))

  conclude-Keeps :
      {A : Type 0} (r : Result A) (out : Result Fields × Home (to_lamp int_of info command_id))
      → IsCoherent int_of info command_id out.1
      → IsCoherent int_of info command_id (conclude (to_lamp int_of info command_id) r out).1
  conclude-Keeps r (ok response, h) k = k
  conclude-Keeps r (err e, h) k = k

  known_state :
      (h : Home (to_lamp int_of info command_id))
      → IsCoherent int_of info command_id h
      → get_state (to_lamp int_of info command_id) false h ≡ (ok (obj (states h.world.light)), h)
  unfolding get_state
  known_state h k = rw (ap truthy k.cached) (ap (λ x. (ok x, h)) k.cached)

  -- A flash restores what it read, or stops at a failure: the cache and the lamp stay together.
  pub flash-IsCoherent :
      (n : ℕ) (h : Home (to_lamp int_of info command_id))
      → IsCoherent int_of info command_id h
      → IsCoherent int_of info command_id (flash (to_lamp int_of info command_id) n h).1
  unfolding flash
  flash-IsCoherent n h k =
      let R = to_lamp int_of info command_id in
      let l : Light = h.world.light in
      let flashed = flash_loop R n h in
      subst (λ r. IsCoherent int_of info command_id (flash_from R n r).1) (sym (known_state h k))
        (subst (λ o. IsCoherent int_of info command_id (restoring R o.0 (run_flashes R n o h)).1)
          (sym (read_original-states l))
          (conclude-Keeps flashed.0 (restore_original R (original_of l) flashed.1)
            (restore_original-Keeps l flashed.1 (flash_loop-Keeps n h k))))
