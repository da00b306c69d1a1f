-- ===== src/Device/Surprises.antt =====
-- Where `toggle` and `set_color_temperature` do less than their comments say, and `ping`.
use dlight_client.Common.{
  ℕ, suc, is_some, ◌≡◌, refl, sym, ap, ◌∙◌, String, some, Bool, true, false, arith, if◌then◌else◌,
}
use dlight_client.Errors.{Error, cancelled, Result, ok, err, is_exception}
use dlight_client.Json.{Json, obj, Fields, end, field, get, put, truthy, contains, as_dict}
use dlight_client.Codec.{Codec}
use dlight_client.Client.{Client, Network, Session}
use dlight_client.Client.Contract.{IsReported, send_tcp_command-IsReported}
use dlight_client.Client.Commands.{query_device_info, query_command}
use dlight_client.Models.{default_tcp_port, command_type_query_device_info}
use dlight_client.Pool.Endpoint.{absent}
use dlight_client.Device.Listeners.{emit_state_change}
use dlight_client.Device.Rollback.{err_injective, ok_ne_err}
use dlight_client.Remote.{Remote}
use dlight_client.Remote.Network.{over_network}
use dlight_client.Device.State.{Device, clone_state, put_temperature, saved_color}
use dlight_client.Device.Operations.{
  Home, answered, ping, settle, says_on, toggle, toggle_dict, toggle_known, get_state, turn_on,
  turn_off, set_color_temperature, color_dict, temperature_dict, cached_dict,
}
use dlight_client.Json.Dict.{put-put}

answered_error :
    (R : Remote) (r : Result Fields) (e : Error)
    → ((e' : Error) → r ≡ err e' → IsReported e')
    → answered R r ≡ err e
    → e ≡ cancelled
answered_error R (ok response) e reported h = ground arith
answered_error R (err e') e reported h = ground (arith, reported e' refl)

state_emit : (old new : Json) (d : Device) → (emit_state_change old new d).state ≡ d.state
unfolding emit_state_change
state_emit old new d = ground arith

module _ (R : Remote) (h : Home R) (fs : Fields) where
  get_state_cached : truthy h.device.state ≡ true → get_state R false h ≡ (ok h.device.state, h)
  unfolding get_state
  get_state_cached known = rw known refl

  known_or_fetched :
      truthy h.device.state ≡ true
      → (b : Bool) → toggle_known R (ok b) h ≡ toggle_dict R (as_dict h.device.state) h
  known_or_fetched known true = refl
  known_or_fetched known false = rw (get_state_cached known) refl

  -- Over a cached dict that is not empty, `toggle` never asks the lamp: it turns the lamp off if
  -- the cache says that it is on, and turns it on if the cache says that it is off or says nothing.
  pub toggle_cached_lem :
      h.device.state ≡ obj fs
      → truthy (obj fs) ≡ true
      → toggle R h ≡ (if says_on R (get "on" fs) then turn_off R h else turn_on R h)
  unfolding toggle
  toggle_cached_lem cached known =
      ap (λ x. toggle_known R (contains "on" x) h) cached
      ∙ known_or_fetched (ap truthy cached ∙ known) (is_some (get "on" fs))
      ∙ ap (λ x. toggle_dict R (as_dict x) h) cached

  aliased : Json → Json
  aliased temperature = obj (field "temperature" temperature end)

  alias_settle :
      (temperature : Json)
      → h.device.state ≡ obj fs
      → get "color" fs ≡ some (obj end)
      → set_color_temperature R temperature h
        ≡ settle R
            (obj fs)
            (put_temperature temperature fs)
            (put "color" (aliased temperature) (put_temperature temperature fs))
            (R.set_color_temperature h.device.ip h.device.id temperature h.world)
            h
  unfolding set_color_temperature clone_state aliased
  alias_settle temperature cached empty =
      ap (λ x. color_dict R temperature (cached_dict R x) h) cached
      ∙ ap (λ o. temperature_dict R temperature fs (saved_color temperature o) h) empty

  alias_state :
      (old : Json) (updated restored : Fields) (h' : Home R) (r : Result Fields × R.World)
      (e : Error)
      → settle R old updated restored r h ≡ (err e, h')
      → is_exception e ≡ true
      → h'.device.state ≡ obj restored
  alias_state old updated restored h' (ok response, w) e out x =
      absurd (ok_ne_err (ap (λ (t : Result Fields × Home R). t.0) out))
  alias_state old updated restored h' (err e', w) e out x =
      let same : e' ≡ e = err_injective (ap (λ (t : Result Fields × Home R). t.0) out) in
      ap (λ (t : Result Fields × Home R). t.1.device.state) (sym out)
      ∙ rw same (rw x (state_emit _ _ _))

  -- If the cached colour is an empty dict, a `set_color_temperature` that fails leaves the new
  -- temperature in the cache.
  pub set_color_temperature_alias :
      (h' : Home R) (temperature : Json) (e : Error)
      → h.device.state ≡ obj fs
      → get "color" fs ≡ some (obj end)
      → set_color_temperature R temperature h ≡ (err e, h')
      → is_exception e ≡ true
      → h'.device.state ≡ obj (put "color" (obj (field "temperature" temperature end)) fs)
  unfolding put_temperature aliased
  set_color_temperature_alias h' temperature e cached empty out x =
      alias_state (obj fs) (put_temperature temperature fs)
        (put "color" (aliased temperature) (put_temperature temperature fs)) h'
        (R.set_color_temperature h.device.ip h.device.id temperature h.world) e
        (sym (alias_settle temperature cached empty) ∙ out) x
      ∙ ap obj (put-put "color" (aliased temperature) _ fs)

-- Over the real client `ping` answers, whatever the network does, unless it is cancelled.
pub ping_error :
    (codec : Codec) (network : Network) (client : Client) (command_ids : ℕ → String) (timeout : ℕ)
    → let R : Remote = over_network codec network client command_ids in
      (h h' : Home R) (e : Error) → ping R timeout h ≡ (err e, h') → e ≡ cancelled
unfolding ping query_device_info
ping_error codec network client command_ids timeout h h' e out =
    let R : Remote = over_network codec network client command_ids in
    let q : Result Fields × Session =
      query_device_info codec network client command_ids h.device.ip h.device.id (some timeout)
        h.world in
    answered_error R q.0 e
      (λ e' f.
        send_tcp_command-IsReported codec network client h.device.ip
          (query_command command_type_query_device_info (command_ids h.world.ids) h.device.id)
          default_tcp_port absent (some timeout) (record h.world { ids = suc h.world.ids }) q.1 e'
          (ap (λ (r : Result Fields). (r, q.1)) f))
      (ap (λ (t : Result Bool × Home R). t.0) out)
