-- ===== src/Device/Operations.antt =====
-- The methods of `DLightDevice` that send one command.
use dlight_client.Common.{ℕ, Option, none, some, Bool, true, false, not, ◌&&◌, if◌then◌else◌}
use dlight_client.Errors.{Result, ok, err, and_then, is_exception, is_dlight_error, Action, ◌>>◌}
use dlight_client.Json.{Json, bool, obj, Fields, end, get, put, truthy, contains, as_dict}
use dlight_client.Remote.{Remote}
use dlight_client.Device.State.{Device, clone_state, restore, put_temperature, saved_color}
use dlight_client.Device.Listeners.{emit_state_change}

module _ (R : Remote) where
  -- A device, and what lies behind its client.
  pub record Home : Type 0 where
    pub device : Device
    pub world : R.World

  abbrev pub with_state : Json → Home → Home
  with_state x h = record h { device = record h.device { state = x } }

  -- The dict that a method finds in the cache, or the error of `_clone_state` or of `.get`.
  abbrev pub cached_dict : Json → Result Fields
  cached_dict x = and_then (clone_state x) as_dict

  -- `except Exception`
  abbrev pub is_failure {ℓ} : {A : Type ℓ} → Result A → Bool
  is_failure (ok a) = false
  is_failure (err e) = is_exception e

  -- The end of a method: `except Exception` writes the old value back, and `finally` tells the
  -- listeners. `updated` is the cached dict before the answer, `restored` the one after a rollback.
  abbrev pub settle {ℓ} :
      {A : Type ℓ} → Json → Fields → Fields → Result A × R.World → Home → Result A × Home
  settle old updated restored (r, w) h =
      let x : Json = obj (if is_failure r then restored else updated) in
      (r, record { device = emit_state_change old x (record h.device { state = x }); world = w })

  abbrev pub switch_dict : Bool → Result Fields → Action Home Fields
  switch_dict on (err e) h = (err e, h)
  switch_dict on (ok fs) h =
      let updated : Fields = put "on" (bool on) fs in
      settle (obj fs) updated (restore "on" (get "on" fs) updated)
        (R.set_light_state h.device.ip h.device.id on h.world) h

  unfoldable pub turn_on : Action Home Fields
  unfolding restore
  turn_on h = switch_dict true (cached_dict h.device.state) h

  unfoldable pub turn_off : Action Home Fields
  unfolding restore
  turn_off h = switch_dict false (cached_dict h.device.state) h

  abbrev pub brightness_dict : Json → Result Fields → Action Home Fields
  brightness_dict brightness (err e) h = (err e, h)
  brightness_dict brightness (ok fs) h =
      let updated : Fields = put "brightness" brightness fs in
      settle (obj fs) updated (restore "brightness" (get "brightness" fs) updated)
        (R.set_brightness h.device.ip h.device.id brightness h.world) h

  unfoldable pub set_brightness : Json → Action Home Fields
  unfolding restore
  set_brightness brightness h = brightness_dict brightness (cached_dict h.device.state) h

  abbrev pub temperature_dict : Json → Fields → Result (Option Json) → Action Home Fields
  temperature_dict temperature fs (err e) h = (err e, h)
  temperature_dict temperature fs (ok old_color) h =
      let updated : Fields = put_temperature temperature fs in
      -- `if old_color is not None: put it back; else: del`
      settle (obj fs) updated (restore "color" old_color updated)
        (R.set_color_temperature h.device.ip h.device.id temperature h.world) h

  abbrev pub color_dict : Json → Result Fields → Action Home Fields
  color_dict temperature (err e) h = (err e, h)
  color_dict temperature (ok fs) h =
      temperature_dict temperature fs (saved_color temperature (get "color" fs)) h

  unfoldable pub set_color_temperature : Json → Action Home Fields
  unfolding restore put_temperature saved_color
  set_color_temperature temperature h = color_dict temperature (cached_dict h.device.state) h

  -- `response.get("states", {})`
  abbrev pub states_of : Fields → Json
  states_of response = elim (get "states" response) [ none ↦ obj end | some x ↦ x ]

  -- The new state is in the cache before it is cloned for the listeners.
  abbrev pub announce : Json → Json → Result Json → Home → Result Json × Home
  announce old x (err e) h = (err e, h)
  announce old x (ok copy) h = (ok x, record h { device = emit_state_change old copy h.device })

  abbrev pub refreshed : Json → Result Fields × R.World → Home → Result Json × Home
  refreshed old (err e, w) h = (err e, record h { world = w })
  refreshed old (ok response, w) h =
      let x : Json = states_of response in
      announce old x (clone_state x) (with_state x (record h { world = w }))

  abbrev pub query_state : Result Json → Home → Result Json × Home
  query_state (err e) h = (err e, h)
  query_state (ok old) h = refreshed old (R.query_device_state h.device.ip h.device.id h.world) h

  unfoldable pub get_state : Bool → Action Home Json
  get_state force_update h =
      if not force_update && truthy h.device.state
      then (ok h.device.state, h)
      else query_state (clone_state h.device.state) h

  -- `self._state.get("on")` as a condition
  abbrev pub says_on : Option Json → Bool
  says_on none = false
  says_on (some v) = truthy v

  abbrev pub toggle_dict : Result Fields → Action Home Fields
  toggle_dict (err e) h = (err e, h)
  toggle_dict (ok fs) h = if says_on (get "on" fs) then turn_off h else turn_on h

  abbrev pub toggle_cached : Action Home Fields
  toggle_cached h = toggle_dict (as_dict h.device.state) h

  abbrev pub toggle_known : Result Bool → Action Home Fields
  toggle_known (err e) h = (err e, h)
  toggle_known (ok true) h = toggle_cached h
  toggle_known (ok false) h = (get_state false >> toggle_cached) h

  unfoldable pub toggle : Action Home Fields
  toggle h = toggle_known (contains "on" h.device.state) h

  abbrev pub keep_world {ℓ} : {A : Type ℓ} → Result A × R.World → Home → Result A × Home
  keep_world (r, w) h = (r, record h { world = w })

  unfoldable pub get_info : Action Home Fields
  get_info h = keep_world (R.query_device_info h.device.ip h.device.id none h.world) h

  -- The answer of `ping` to what the query came to.
  abbrev pub answered : Result Fields → Result Bool
  answered (ok response) = ok true
  answered (err e) = if is_dlight_error e then ok false else err e

  unfoldable pub ping : ℕ → Action Home Bool
  ping timeout h =
      let (r, w) = R.query_device_info h.device.ip h.device.id (some timeout) h.world in
      (answered r, record h { world = w })
