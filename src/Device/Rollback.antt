-- ===== src/Device/Rollback.antt =====
-- The four methods that change one field: what a failure and a success leave behind.
use dlight_client.Common.{
  ◌≡◌, ◌≢◌, ◌⊎◌, inl, inr, refl, sym, ap, ◌∙◌, String, Option, none, some, Bool, true, false, arith,
}
use dlight_client.Errors.{Error, attribute_error, Result, ok, err, is_exception, Action}
use dlight_client.Json.{Json, null, bool, obj, Fields, end, get, put, remove}
use dlight_client.Json.Dict.{put-put_back, remove-put}
use dlight_client.Json.Equality.{IsUnique, json_eq_refl}
use dlight_client.Remote.{Remote}
use dlight_client.Device.State.{
  Device, clone_state, restore, put_temperature, saved_color, with_temperature,
}
use dlight_client.Device.Listeners.{emit_state_change}
use dlight_client.Device.Operations.{
  Home, settle, switch_dict, brightness_dict, color_dict, temperature_dict, cached_dict, turn_on,
  turn_off, set_brightness, set_color_temperature,
}

-- Writing the old value of a key back, or deleting a key that was new, by cases on what it held.
pub restore-eq :
    (key : String) (old : Option Json) (written fs : Fields)
    → old ≢ some null
    → ((v : Json) → old ≡ some v → put key v written ≡ fs)
    → (old ≡ none → remove key written ≡ fs)
    → restore key old written ≡ fs
unfolding restore
restore-eq key none written fs h back gone = gone refl
restore-eq key (some null) written fs h back gone = absurd (h refl)
restore-eq key (some v) written fs h back gone = back v refl

-- Rolling a written key back restores the dict, unless the key held a `None`.
pub restore-put :
    (key : String) (v : Json) (fs : Fields)
    → get key fs ≢ some null
    → restore key (get key fs) (put key v fs) ≡ fs
restore-put key v fs h =
    restore-eq key (get key fs) (put key v fs) fs h (λ old e. put-put_back key old v fs e)
      (remove-put key v fs)

-- What a device is told of a change: nothing if the two states are equal or nobody listens.
pub emit_same : (x : Json) (d : Device) → IsUnique x → emit_state_change x x d ≡ d
unfolding emit_state_change
emit_same x d u = rw (json_eq_refl x u) (ground arith)

pub err_injective : {e e' : Error} → ◌≡◌ {A = Result Fields} (err e) (err e') → e ≡ e'
err_injective h = cc

pub ok_ne_err : {r : Fields} {e : Error} → ◌≡◌ {A = Result Fields} (ok r) (err e) → ⊥
ok_ne_err h = cc

module _ (R : Remote) where
  -- The four methods.
  pub data Change : Type 0 where
    switch : Bool → Change
    brightness temperature : Json → Change

  abbrev pub perform : Change → Action (Home R) Fields
  perform (switch true) = turn_on R
  perform (switch false) = turn_off R
  perform (brightness v) = set_brightness R v
  perform (temperature v) = set_color_temperature R v

  -- The cached dict after a change.
  abbrev pub changed : Change → Fields → Fields
  changed (switch on) fs = put "on" (bool on) fs
  changed (brightness v) fs = put "brightness" v fs
  changed (temperature v) fs = put_temperature v fs

  -- The changed key did not hold a `None`, and the colour was not an empty dict.
  abbrev pub IsRestorable : Change → Fields → Type 0
  IsRestorable (switch on) fs = get "on" fs ≢ some null
  IsRestorable (brightness v) fs = get "brightness" fs ≢ some null
  IsRestorable (temperature v) fs = (get "color" fs ≢ some null) × (get "color" fs ≢ some (obj end))

  settle_err :
      (fs updated restored : Fields) (h : Home R) (w : R.World) (e : Error)
      → h.device.state ≡ obj fs
      → IsUnique (obj fs)
      → restored ≡ fs
      → is_exception e ≡ true
      → (settle R {A = Fields} (obj fs) updated restored (err e, w) h).1.device ≡ h.device
  settle_err fs updated restored h w e cached unique back x = rw x (
      rw back (
        emit_same (obj fs) (record h.device { state = obj fs }) unique
        ∙ ap (λ y. record h.device { state = y }) (sym cached)))

  settle_failed :
      (fs updated restored : Fields) (h h' : Home R) (r : Result Fields × R.World) (e : Error)
      → h.device.state ≡ obj fs
      → IsUnique (obj fs)
      → restored ≡ fs
      → settle R (obj fs) updated restored r h ≡ (err e, h')
      → is_exception e ≡ true
      → h'.device ≡ h.device
  settle_failed fs updated restored h h' (ok response, w) e cached unique back out x =
      absurd (ok_ne_err (ap (λ (t : Result Fields × Home R). t.0) out))
  settle_failed fs updated restored h h' (err e', w) e cached unique back out x =
      let same : e' ≡ e = err_injective (ap (λ (t : Result Fields × Home R). t.0) out) in
      ap (λ (t : Result Fields × Home R). t.1.device) (sym out)
      ∙ settle_err fs updated restored h w e' cached unique back (rw same x)

  -- The command that a change sends.
  abbrev pub request : Change → Home R → Result Fields × R.World
  request (switch on) h = R.set_light_state h.device.ip h.device.id on h.world
  request (brightness v) h = R.set_brightness h.device.ip h.device.id v h.world
  request (temperature v) h = R.set_color_temperature h.device.ip h.device.id v h.world

  abbrev pub restored : Change → Fields → Fields
  restored (switch on) fs = restore "on" (get "on" fs) (put "on" (bool on) fs)
  restored (brightness v) fs = restore "brightness" (get "brightness" fs) (put "brightness" v fs)
  restored (temperature v) fs = restore "color" (get "color" fs) (put_temperature v fs)

  restored-eq : (c : Change) (fs : Fields) → IsRestorable c fs → restored c fs ≡ fs
  unfolding put_temperature
  restored-eq (switch on) fs h = restore-put "on" (bool on) fs h
  restored-eq (brightness v) fs h = restore-put "brightness" v fs h
  restored-eq (temperature v) fs h =
      restore-put "color" (with_temperature (get "color" fs) v) fs h.0

  -- The colour to go back to is a faithful copy, or `copy` fails.
  pub saved_color-cases :
      (v : Json) (o : Option Json)
      → o ≢ some (obj end)
      → (saved_color v o ≡ ok o) ⊎ (saved_color v o ≡ err attribute_error)
  unfolding saved_color
  saved_color-cases v none h = inl refl
  saved_color-cases v (some (obj end)) h = absurd (h refl)
  saved_color-cases v (some x) h = ground arith

  -- `set_color_temperature` gets past `old_color.copy()`, with the colour that was cached.
  abbrev pub CanStart : Change → Fields → Type 0
  CanStart (temperature v) fs = saved_color v (get "color" fs) ≡ ok (get "color" fs)
  CanStart _ fs = Unit

  -- Over a cached dict a method is the update, the command, and the settlement.
  pub perform-eq :
      (c : Change) (h : Home R) (fs : Fields)
      → h.device.state ≡ obj fs
      → CanStart c fs
      → perform c h ≡ settle R (obj fs) (changed c fs) (restored c fs) (request c h) h
  unfolding turn_on turn_off set_brightness set_color_temperature clone_state
  perform-eq (switch true) h fs cached _ = ap (λ x. switch_dict R true (cached_dict R x) h) cached
  perform-eq (switch false) h fs cached _ = ap (λ x. switch_dict R false (cached_dict R x) h) cached
  perform-eq (brightness v) h fs cached _ = ap (λ x. brightness_dict R v (cached_dict R x) h) cached
  perform-eq (temperature v) h fs cached starts =
      ap (λ x. color_dict R v (cached_dict R x) h) cached
      ∙ ap (λ r. temperature_dict R v fs r h) starts

  -- It is that, or `set_color_temperature` stops at a colour that has no `copy`.
  pub perform-settle :
      (c : Change) (h : Home R) (fs : Fields)
      → h.device.state ≡ obj fs
      → IsRestorable c fs
      → (perform c h ≡ settle R (obj fs) (changed c fs) (restored c fs) (request c h) h)
        ⊎ (perform c h ≡ (err attribute_error, h))
  unfolding set_color_temperature clone_state
  perform-settle (switch on) h fs cached _ = inl (perform-eq (switch on) h fs cached tt)
  perform-settle (brightness v) h fs cached _ = inl (perform-eq (brightness v) h fs cached tt)
  perform-settle (temperature v) h fs cached allowed =
      elim (saved_color-cases v (get "color" fs) allowed.1) [
        | inl e ↦ inl (perform-eq (temperature v) h fs cached e)
        | inr e ↦ inr (
            ap (λ x. color_dict R v (cached_dict R x) h) cached
            ∙ ap (λ r. temperature_dict R v fs r h) e)
      ]

  -- A change that fails leaves the device as it was: the cached state, and the listeners, who are
  -- told nothing. That is so for every failure of the client but a cancellation.
  pub perform_failed :
      (c : Change) (h h' : Home R) (fs : Fields) (e : Error)
      → h.device.state ≡ obj fs
      → IsUnique (obj fs)
      → IsRestorable c fs
      → perform c h ≡ (err e, h')
      → is_exception e ≡ true
      → h'.device ≡ h.device
  perform_failed c h h' fs e cached unique allowed out x =
      elim (perform-settle c h fs cached allowed) [
        | inl settled ↦
            settle_failed fs (changed c fs) (restored c fs) h h' (request c h) e cached unique
              (restored-eq c fs allowed) (sym settled ∙ out) x
        | inr stopped ↦ ap (λ (t : Result Fields × Home R). t.1.device) (sym out ∙ stopped)
      ]
