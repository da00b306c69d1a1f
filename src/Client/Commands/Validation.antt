-- ===== src/Client/Commands/Validation.antt =====
-- What the public methods send, and what they raise.
use dlight_client.Common.{
  ℕ, suc, ◌≡◌, ◌⊎◌, inl, inr, refl, ap, String, none, true, false, List, arith, ℤ, between,
  Bool-cases,
}
use dlight_client.Errors.{Error, command_error, value_error, type_error, cancelled, Result, ok, err}
use dlight_client.Json.{Json, Fields}
use dlight_client.Codec.{Codec}
use dlight_client.Pool.Endpoint.{SslArg}
use dlight_client.Client.{Client, Session, Network, send_tcp_command}
use dlight_client.Client.Contract.{IsReported, send_tcp_command-IsReported}
use dlight_client.Client.Commands.{
  as_int, rewrap, send, checked, execute_command, brightness_change, temperature_change,
  wifi_command, set_brightness, set_color_temperature, connect_to_wifi,
}

module _ (codec : Codec) (network : Network) (client : Client) (command_ids : ℕ → String) where
  -- A method refuses what is no number with a `TypeError` and a number out of range with a
  -- `ValueError`, and does nothing, or it sends the one command for a number in range.
  abbrev pub RefusedOrSent :
      ℕ → ℕ → Result ℤ → List ℕ → String → (ℤ → Fields) → Session → Result Fields × Session → Type 0
  RefusedOrSent lo hi r target_ip device_id change s out =
      ((r ≡ err type_error) × (out ≡ (err type_error, s)))
      ⊎ (((z : ℤ) × (r ≡ ok z) × (between lo hi z ≡ false) × (out ≡ (err value_error, s)))
          ⊎ ((z : ℤ) × (r ≡ ok z)
              × (between lo hi z ≡ true)
              × (out
                  ≡ send codec network client command_ids target_ip
                      (execute_command (command_ids s.ids) device_id (change z))
                      (record s { ids = suc s.ids }))))

  checked_lem :
      (lo hi : ℕ) (r : Result ℤ) (target_ip : List ℕ) (device_id : String) (change : ℤ → Fields)
      (s : Session)
      → ((e : Error) → r ≡ err e → e ≡ type_error)
      → RefusedOrSent lo hi r target_ip device_id change s (
          checked lo hi r
            (λ z s'.
              send codec network client command_ids target_ip
                (execute_command (command_ids s'.ids) device_id (change z))
                (record s' { ids = suc s'.ids }))
            s)
  checked_lem lo hi (err e) target_ip device_id change s h =
      inl (ap err (h e refl), ap (λ e'. (err e', s)) (h e refl))
  checked_lem lo hi (ok z) target_ip device_id change s h = elim (Bool-cases (between lo hi z)) [
    | inl inside ↦ rw inside (inr (inr (z, refl, inside, refl)))
    | inr outside ↦ rw outside (inr (inl (z, refl, outside, refl)))
  ]

  as_int_error : (x : Json) (e : Error) → as_int x ≡ err e → e ≡ type_error
  as_int_error x e h = ground arith

  -- Called with any value, `set_brightness` for 0 to 100 and `set_color_temperature` for 2600 to 6000
  -- raise a `TypeError` for what is no number and a `ValueError` for a number out of range, in both
  -- cases before anything is sent, an id is made or the pool is used, and send the one EXECUTE
  -- command, under the next id, for a number in range.
  pub setters-RefusedOrSent :
      (target_ip : List ℕ) (device_id : String) (value : Json) (s : Session)
      → RefusedOrSent 0 100
          (as_int value)
          target_ip
          device_id
          brightness_change
          s
          (set_brightness codec network client command_ids target_ip device_id value s)
        × RefusedOrSent 2600 6000
            (as_int value)
            target_ip
            device_id
            temperature_change
            s
            (set_color_temperature codec network client command_ids target_ip device_id value s)
  unfolding set_brightness set_color_temperature
  setters-RefusedOrSent target_ip device_id value s = (
    checked_lem 0 100 (as_int value) target_ip device_id brightness_change s (as_int_error value),
    checked_lem 2600 6000 (as_int value) target_ip device_id temperature_change s
        (as_int_error value),
  )

  rewrap_error :
      (out : Result Fields × Session) (e : Error) (s' : Session)
      → ((e' : Error) → out.0 ≡ err e' → IsReported e')
      → rewrap out ≡ (err e, s')
      → (e ≡ command_error) ⊎ (e ≡ cancelled)
  rewrap_error (ok response, s) e s' reported h = ground arith
  rewrap_error (err e', s) e s' reported h = ground (arith, reported e' refl)

  -- Whatever goes wrong, `connect_to_wifi` raises a `DLightCommandError` or is cancelled.
  pub connect_to_wifi_error :
      (device_id ssid password : String) (target_ip : List ℕ) (port : ℕ) (ssl : SslArg)
      (s s' : Session) (e : Error)
      → connect_to_wifi codec network client command_ids device_id ssid password target_ip port ssl
          s
        ≡ (err e, s')
      → (e ≡ command_error) ⊎ (e ≡ cancelled)
  unfolding connect_to_wifi
  connect_to_wifi_error device_id ssid password target_ip port ssl s s' e h =
      let s₁ : Session = record s { ids = suc s.ids } in
      let command : Fields = wifi_command (command_ids s.ids) device_id ssid password in
      let out : Result Fields × Session =
        send_tcp_command codec network client target_ip command port ssl none s₁ in
      rewrap_error out e s'
        (λ e' f.
          send_tcp_command-IsReported codec network client target_ip command port ssl none s₁ out.1
            e' (ap (λ (r : Result Fields). (r, out.1)) f))
        h
