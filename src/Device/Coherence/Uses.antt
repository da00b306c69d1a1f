-- ===== src/Device/Coherence/Uses.antt =====
-- The cache of a device and its lamp, through any uses of the device.
use dlight_client.Common.{
  ℕ, ◌≡◌, refl, sym, ap, ◌∙◌, Option, some, none, Bool, not, true, false, String, List, [], ◌∷◌, ℤ,
  All, if◌then◌else◌,
}
use mathlib.Core.Path.{subst}
use dlight_client.Errors.{Result}
use dlight_client.Json.{contains, as_dict, obj, Fields, get, put}
use dlight_client.Lamp.{Info, states}
use dlight_client.Lamp.Reports.{Change, on_off}
use dlight_client.Remote.Lamp.{Link, IsFault, to_lamp, Answer, told, silent, query-Answer}
use dlight_client.Device.Coherence.{emit-state, as_method, IsCoherent, perform-IsCoherent}
use dlight_client.Device.Coherence.Flashes.{flash-IsCoherent}
use dlight_client.Device.Flash.{flash}
use dlight_client.Device.Coherence.Together.{apply_scene-IsCoherent}
use dlight_client.Device.Scenes.{apply_scene}
use dlight_client.Models.{LightScene}
use dlight_client.Device.State.{clone_state}
use dlight_client.Device.Operations.{
  Home, get_state, toggle, turn_on, turn_off, toggle_known, toggle_dict, refreshed, query_state,
}
use dlight_client.Device.Rollback.{perform}

-- What a program does with a device. A scene's commands come to the client in either order.
pub data Use : Type 0 where
  change : Change → Use
  scene : Bool → LightScene → Use
  flashes : ℕ → Use
  refresh toggled : Use

module _ (int_of : String → Option ℤ) (info : Info) (command_id : String) where
  refreshed-IsCoherent :
      (h : Home (to_lamp int_of info command_id)) (out : Result Fields × Link)
      → IsCoherent int_of info command_id h
      → Answer int_of info command_id h.world out
      → IsCoherent int_of info command_id
          (refreshed (to_lamp int_of info command_id) (obj (states h.world.light)) out h).1
  unfolding clone_state put get
  refreshed-IsCoherent h out k (told faults a e) =
      subst
        (λ o.
          IsCoherent int_of info command_id
            (refreshed (to_lamp int_of info command_id) (obj (states h.world.light)) o h).1)
        (sym e) (record { cached = emit-state _ _ _; faults = a })
  refreshed-IsCoherent h out k (silent e faults a f) =
      subst
        (λ o.
          IsCoherent int_of info command_id
            (refreshed (to_lamp int_of info command_id) (obj (states h.world.light)) o h).1)
        (sym f) (record { cached = k.cached; faults = a })

  -- `get_state(force_update=True)`, whether or not the answer comes.
  refresh-IsCoherent :
      (h : Home (to_lamp int_of info command_id))
      → IsCoherent int_of info command_id h
      → IsCoherent int_of info command_id (get_state (to_lamp int_of info command_id) true h).1
  unfolding get_state clone_state
  refresh-IsCoherent h k =
      let R = to_lamp int_of info command_id in
      subst (λ x. IsCoherent int_of info command_id (query_state R (clone_state x) h).1)
        (sym k.cached)
        (refreshed-IsCoherent h (R.query_device_state h.device.ip h.device.id h.world) k
          (query-Answer int_of info command_id h.device.ip h.device.id h.world k.faults))

  switched :
      (h : Home (to_lamp int_of info command_id)) (on : Bool)
      → (if on
          then turn_off (to_lamp int_of info command_id) h
          else turn_on (to_lamp int_of info command_id) h)
        ≡ perform
            (to_lamp int_of info command_id)
            (as_method (to_lamp int_of info command_id) (on_off (not on)))
            h
  switched h true = refl
  switched h false = refl

  -- `toggle` over the state of a lamp is the method that changes it.
  toggle-eq :
      (h : Home (to_lamp int_of info command_id))
      → IsCoherent int_of info command_id h
      → toggle (to_lamp int_of info command_id) h
        ≡ perform
            (to_lamp int_of info command_id)
            (as_method (to_lamp int_of info command_id) (on_off (not h.world.light.on)))
            h
  unfolding toggle get
  toggle-eq h k =
      let R = to_lamp int_of info command_id in
      ap (λ x. toggle_known R (contains "on" x) h) k.cached
      ∙ (ap (λ x. toggle_dict R (as_dict x) h) k.cached ∙ switched h h.world.light.on)

  toggle-IsCoherent :
      (h : Home (to_lamp int_of info command_id))
      → IsCoherent int_of info command_id h
      → IsCoherent int_of info command_id (toggle (to_lamp int_of info command_id) h).1
  unfolding toggle
  toggle-IsCoherent h k =
      subst (λ r. IsCoherent int_of info command_id r.1) (sym (toggle-eq h k))
        (perform-IsCoherent int_of info command_id (on_off (not h.world.light.on)) h k)

  abbrev pub use_device :
      Use → Home (to_lamp int_of info command_id) → Home (to_lamp int_of info command_id)
  use_device (change c) h =
      (perform (to_lamp int_of info command_id) (as_method (to_lamp int_of info command_id) c) h).1
  use_device (scene first s) h =
      (apply_scene (to_lamp int_of info command_id) first (some s) none none h).1
  use_device (flashes n) h = (flash (to_lamp int_of info command_id) n h).1
  use_device refresh h = (get_state (to_lamp int_of info command_id) true h).1
  use_device toggled h = (toggle (to_lamp int_of info command_id) h).1

  abbrev pub use_all :
      List Use → Home (to_lamp int_of info command_id) → Home (to_lamp int_of info command_id)
  use_all [] h = h
  use_all (u ∷ us) h = use_all us (use_device u h)

  use_device-IsCoherent :
      (u : Use) (h : Home (to_lamp int_of info command_id))
      → IsCoherent int_of info command_id h
      → IsCoherent int_of info command_id (use_device u h)
  use_device-IsCoherent (change c) h k = perform-IsCoherent int_of info command_id c h k
  use_device-IsCoherent (scene first s) h k =
      apply_scene-IsCoherent int_of info command_id first s h k
  use_device-IsCoherent (flashes n) h k = flash-IsCoherent int_of info command_id n h k
  use_device-IsCoherent refresh h k = refresh-IsCoherent h k
  use_device-IsCoherent toggled h k = toggle-IsCoherent h k

  use_all-IsCoherent :
      (us : List Use) (h : Home (to_lamp int_of info command_id))
      → IsCoherent int_of info command_id h
      → IsCoherent int_of info command_id (use_all us h)
  use_all-IsCoherent [] h k = k
  use_all-IsCoherent (u ∷ us) h k =
      use_all-IsCoherent us (use_device u h) (use_device-IsCoherent u h k)

-- A device whose cache once holds the state of its lamp goes on to hold it, through any uses one after
-- the other: changes that the lamp obeys, changes that the client refuses, commands that fail before
-- they reach the lamp with any exception, scenes of which both commands or one of the two fail, flashes
-- that end or stop at a failed command, toggles, and queries.
pub use_all-cached :
    (int_of : String → Option ℤ) (info : Info) (command_id : String) (us : List Use)
    (h : Home (to_lamp int_of info command_id))
    → h.device.state ≡ obj (states h.world.light)
    → All IsFault h.world.faults
    → (use_all int_of info command_id us h).device.state
      ≡ obj (states (use_all int_of info command_id us h).world.light)
use_all-cached int_of info command_id us h cached faults =
    (use_all-IsCoherent int_of info command_id us h
      (record { cached = cached; faults = faults })).cached
