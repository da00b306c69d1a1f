-- ===== src/Remote/Wire/Changes.antt =====
-- The changes that a device asks for, over the wire and over the link without one.
use mathlib.Core.Path.{subst}
use dlight_client.Common.{
  ◌<◌, ◌+◌, All, pos, ◌≡◌, sym, ap, ◌∙◌, ◌≤◌, arith, ℕ, suc, Option, none, String, List, [], ◌∷◌,
  ◌++◌, ℤ, length,
}
use dlight_client.Errors.{timeout_error, err, Result, ok}
use dlight_client.Json.{obj, Fields}
use dlight_client.Models.{acknowledged, default_tcp_port}
use dlight_client.Codec.Printer.{print}
use dlight_client.Codec.Python.{python}
use dlight_client.Pool.Endpoint.{Key, pool_key, absent}
use dlight_client.Client.{ssl_or_default, Attempt, attempt_once, judge, Client, Session, Network}
use dlight_client.Lamp.{Info, Light}
use dlight_client.Lamp.Control.{Lamp}
use dlight_client.Lamp.Server.{Connection}
use dlight_client.Lamp.Server.Script.{joined, calm}
use dlight_client.Lamp.Reports.{Change, last_light, after_change}
use dlight_client.Remote.Network.{over_network}
use dlight_client.Remote.Lamp.{Link, to_lamp}
use dlight_client.Remote.Wire.{Wired, Ended, IsUnpooled, nothing_cached, handled, served, exchange}
use dlight_client.Remote.Wire.Retried.{AreLate, send-Ended, late-Ended, judge_ok, judge_last}
use dlight_client.Frame.Exchange.{encode_command-python}
use dlight_client.Pool.{late}
use dlight_client.Remote.Wire.Requests.{
  ask, IsInRange, command_of, command-IsUnique, no_echo, acknowledged-IsUnique, acknowledged_fits,
  acknowledged_success, ask_sends, ask_lamp,
}

module _ (int_of : String → Option ℤ) (info : Info) (network : Network) (client : Client)
    (command_ids : ℕ → String) (target_ip : List ℕ) (device_id : String) (n : ℕ)
    (retries : client.max_retries ≡ pos n) where
  abbrev over : Change → Session → Result Fields × Session
  over c s = ask (over_network python network client command_ids) c target_ip device_id s

  abbrev command_at : Change → Session → Fields
  command_at c s = command_of (command_ids s.ids) device_id c

  abbrev attempt : Session → ℕ → Attempt
  attempt s failures = network (failures + s.attempts) client.default_timeout

  abbrev lamp_key : Key
  lamp_key = pool_key target_ip default_tcp_port (ssl_or_default python absent client.ssl)

  -- A change that the lamp gets after some attempts in vain.
  pub change-Ended :
      (c : Change) (s : Session) (failures : ℕ) (pieces : List (List ℕ)) (delay : ℤ) (l : Light)
      → IsInRange c
      → failures ≤ n
      → IsUnpooled s
      → AreLate network client.default_timeout failures s.attempts
      → Wired int_of info (attempt s failures) pieces (calm delay l)
      → joined pieces ≡ print (obj (command_at c s))
      → Ended failures
          (record s { ids = suc s.ids })
          (ok acknowledged)
          ((s.pool.opened, joined pieces) ∷ [])
          (over c s)
  change-Ended c s failures pieces delay l inside few u lates wired whole =
      let id : String = command_ids s.ids in
      let s₁ : Session = record s { ids = suc s.ids } in
      subst (Ended failures s₁ (ok acknowledged) ((s.pool.opened, joined pieces) ∷ []))
        (sym (ask_sends network client command_ids target_ip device_id c s inside))
        (send-Ended python network client target_ip (command_at c s) default_tcp_port absent none s₁
          n failures (print (obj (command_at c s))) (ok acknowledged) _ retries
          (encode_command-python (command_at c s)) few
          (judge_ok client.max_retries failures acknowledged) u lates
          (λ s' later.
            subst
              (λ k. Ended 0 s' (ok acknowledged) ((k, joined pieces) ∷ []) (
                attempt_once python lamp_key (command_at c s) (print (obj (command_at c s)))
                  (network s'.attempts client.default_timeout) s'))
              later.opened
              (exchange int_of info lamp_key (network s'.attempts client.default_timeout) s' pieces
                (command_at c s) acknowledged delay l (last_light l (c ∷ []))
                (nothing_cached s' lamp_key later.unpooled)
                (subst
                  (λ k. Wired int_of info (network k client.default_timeout) pieces (calm delay l))
                  (sym later.attempts) wired)
                whole (command-IsUnique id device_id c) acknowledged-IsUnique acknowledged_fits
                acknowledged_success (no_echo id device_id c)
                (after_change int_of info device_id id c l))))

  -- One that never gets there.
  pub change_lost :
      (c : Change) (s : Session)
      → IsInRange c
      → IsUnpooled s
      → AreLate network client.default_timeout n s.attempts
      → (attempt s n).dial ≡ late
      → Ended n (record s { ids = suc s.ids }) (err timeout_error) [] (over c s)
  change_lost c s inside u lates dials =
      let s₁ : Session = record s { ids = suc s.ids } in
      subst (Ended n s₁ (err timeout_error) [])
        (sym (ask_sends network client command_ids target_ip device_id c s inside))
        (send-Ended python network client target_ip (command_at c s) default_tcp_port absent none s₁
          n n (print (obj (command_at c s))) (err timeout_error) [] retries
          (encode_command-python (command_at c s)) (omega arith)
          (ap (λ k. judge k n (err timeout_error)) retries ∙ judge_last n) u lates
          (λ s' later.
            late-Ended python lamp_key (command_at c s) (print (obj (command_at c s)))
              (network s'.attempts client.default_timeout) s' later.unpooled
              (ap (λ k. (network k client.default_timeout).dial) later.attempts ∙ dials)))

  -- What the lamp becomes by a change that reaches it.
  pub lamp_changed :
      (c : Change) (id : String) (pieces : List (List ℕ)) (delay : ℤ) (l : Light)
      → All (λ piece. 0 < length piece) pieces
      → joined pieces ≡ print (obj (command_of id device_id c))
      → (handled int_of info pieces (calm delay l)).1 ≡ calm delay (last_light l (c ∷ []))
  lamp_changed c id pieces delay l nonempty whole =
      ap (λ (r : Connection × Lamp). r.1)
        (served int_of info (command_of id device_id c) acknowledged delay l (last_light l (c ∷ []))
          pieces (command-IsUnique id device_id c) acknowledged_fits
          (after_change int_of info device_id id c l) nonempty whole)

  -- While no failure is injected into the lamp, take a device's request for a change in range, of a
  -- client with max_retries at n that has no connections and keeps none, whose first attempts, at most
  -- n, fail to dial in time, while the next one connects and its bytes come to the lamp's handler in
  -- any pieces that are not empty: it has the reply, and makes the lamp the one, that the link without
  -- a wire gives, and the client writes one command.
  pub exchange_change :
      (c : Change) (s : Session) (failures : ℕ) (pieces : List (List ℕ)) (delay : ℤ) (l : Light)
      → IsInRange c
      → failures ≤ n
      → IsUnpooled s
      → AreLate network client.default_timeout failures s.attempts
      → Wired int_of info (attempt s failures) pieces (calm delay l)
      → joined pieces ≡ print (obj (command_at c s))
      → let direct : Result Fields × Link =
          ask
            (to_lamp int_of info (command_ids s.ids))
            c
            target_ip
            device_id
            (record { light = l; faults = [] }) in
        ((over c s).0 ≡ direct.0)
        × ((over c s).1.wire ≡ s.wire ++ (s.pool.opened, joined pieces) ∷ [])
        × ((handled int_of info pieces (calm delay l)).1 ≡ calm delay direct.1.light)
  exchange_change c s failures pieces delay l inside few u lates wired whole =
      let ended = change-Ended c s failures pieces delay l inside few u lates wired whole in
      let direct = ask_lamp int_of info (command_ids s.ids) device_id target_ip c l inside in
      (
        ended.result ∙ sym (ap (λ (o : Result Fields × Link). o.0) direct),
        ended.wire,
        lamp_changed c (command_ids s.ids) pieces delay l wired.nonempty whole
            ∙ sym (ap (λ (o : Result Fields × Link). calm delay o.1.light) direct),
      )
