-- ===== src/Device/Coherence/Networked.antt =====
-- A device over the client of client.py, the wire, and the handler of the emulated lamp: all parts that
-- a change of a lamp goes through.
use dlight_client.Common.{
  ◌≡◌, refl, sym, ap, ◌∙◌, arith, ℕ, Option, String, List, [], ◌∷◌, ℤ, pos, if◌then◌else◌,
}
use mathlib.Core.Path.{subst}
use dlight_client.Errors.{Result, ok, err, value_error, timeout_error}
use dlight_client.Json.{Json, obj, Fields}
use dlight_client.Models.{acknowledged}
use dlight_client.Codec.Printer.{print}
use dlight_client.Codec.Python.{python}
use dlight_client.Client.{Client, Session, Network}
use dlight_client.Lamp.{Info, Light, states}
use dlight_client.Lamp.Control.{Lamp}
use dlight_client.Lamp.Server.Script.{calm}
use dlight_client.Lamp.Reports.{
  Change, on_off, brightness, temperature, last_light, last_light-cons,
}
use dlight_client.Remote.{Remote}
use dlight_client.Remote.Network.{over_network}
use dlight_client.Remote.Wire.{IsUnpooled}
use dlight_client.Remote.Wire.Changes.{change-Ended, change_lost, lamp_changed}
use dlight_client.Remote.Wire.Requests.{ask, command_of, ask_refused}
use dlight_client.Remote.Wire.Conversation.{Conversation, over, refused, obeyed, lost, moved}
use dlight_client.Device.State.{Device}
use dlight_client.Device.Listeners.{emit_state_change}
use dlight_client.Device.Operations.{Home, settle, is_failure}
use dlight_client.Device.Rollback.{perform, request as device_request}
use dlight_client.Device.Coherence.{emit-state, as_method, perform-states}

-- One method after the other, and what each of them gave.
abbrev pub perform_all : (R : Remote) → List Change → Home R → List (Result Fields) × Home R
perform_all R [] h = ([], h)
perform_all R (c ∷ cs) h =
    let out : Result Fields × Home R = perform R (as_method R c) h in
    let rest : List (Result Fields) × Home R = perform_all R cs out.1 in (out.0 ∷ rest.0, rest.1)

emit-id : (old new : Json) (d : Device) → (emit_state_change old new d).id ≡ d.id
unfolding emit_state_change
emit-id old new d = ground arith

request-ask :
    (R : Remote) (c : Change) (h : Home R)
    → device_request R (as_method R c) h ≡ ask R c h.device.ip h.device.id h.world
request-ask R (on_off b) h = refl
request-ask R (brightness z) h = refl
request-ask R (temperature z) h = refl

abbrev pub online : Network → Client → (ℕ → String) → Remote
online network client command_ids = over_network python network client command_ids

module _ (int_of : String → Option ℤ) (info : Info) (network : Network) (client : Client)
    (command_ids : ℕ → String) (device_id : String) (n : ℕ) where
  abbrev remote : Remote
  remote = online network client command_ids

  -- A device with this id whose cache holds the state of the lamp, over a client that keeps no
  -- connections and has none.
  pub record IsOnline (l : Light) (h : Home remote) : Type 0 where
    pub cached : h.device.state ≡ obj (states l)
    pub named : h.device.id ≡ device_id
    pub unpooled : IsUnpooled h.world

  abbrev step : Change → Home remote → Result Fields × Home remote
  step c h = perform remote (as_method remote c) h

  -- One method: what it gives, and the lamp and the client after it.
  record Done (r : Result Fields) (l : Light) (attempts ids : ℕ) (out : Result Fields × Home remote)
      : Type 0 where
    told : out.0 ≡ r
    after : IsOnline l out.1
    attempts_after : out.1.world.attempts ≡ attempts
    ids_after : out.1.world.ids ≡ ids

  -- It is done when its request has come to an end that shows the lamp.
  finished :
      (c : Change) (h : Home remote) (l l' : Light) (r : Result Fields) (attempts ids : ℕ)
      → IsOnline l h
      → let t : Result Fields × Session = ask remote c h.device.ip h.device.id h.world in
        t.0 ≡ r
        → (if is_failure remote r then states l else states (last_light l (c ∷ []))) ≡ states l'
        → t.1.attempts ≡ attempts
        → t.1.ids ≡ ids
        → IsUnpooled t.1
        → Done r l' attempts ids (step c h)
  finished c h l l' r attempts ids k result shown a i unpooled =
      let t : Result Fields × Session = ask remote c h.device.ip h.device.id h.world in
      let settled : Result Fields × Home remote =
        settle remote (obj (states l)) (states (last_light l (c ∷ []))) (states l) t h in
      let e : settled ≡ step c h = sym (
        perform-states remote c h l k.cached
        ∙ ap (λ u. settle remote (obj (states l)) (states (last_light l (c ∷ []))) (states l) u h)
            (request-ask remote c h)) in
      subst (Done r l' attempts ids) e (record {
        told = result;
        after = record {
          cached =
              emit-state _ _ _
              ∙ ap
                  (λ (x : Result Fields).
                    obj (if is_failure remote x then states l else states (last_light l (c ∷ []))))
                  result
              ∙ ap obj shown;
          named = emit-id _ _ _ ∙ k.named;
          unpooled = unpooled;
        };
        attempts_after = a;
        ids_after = i;
      })

  -- The methods after it.
  continued :
      (c : Change) (cs heard : List Change) (rs : List (Result Fields)) (h : Home remote)
      (r : Result Fields) (l : Light) (delay : ℤ) (attempts ids : ℕ) (last : Lamp)
      → Done r l attempts ids (step c h)
      → Conversation int_of info network client command_ids device_id n cs rs heard attempts ids
          (calm delay l)
          last
      → ((h' : Home remote)
          → IsOnline l h'
          → Conversation int_of info network client command_ids device_id n cs rs heard
              h'.world.attempts h'.world.ids
              (calm delay l)
              last
          → ((perform_all remote cs h').0 ≡ rs)
            × (last ≡ calm delay (last_light l heard))
            × ((perform_all remote cs h').1.device.state ≡ obj (states last.light)))
      → ((perform_all remote (c ∷ cs) h).0 ≡ r ∷ rs)
        × (last ≡ calm delay (last_light l heard))
        × ((perform_all remote (c ∷ cs) h).1.device.state ≡ obj (states last.light))
  continued c cs heard rs h r l delay attempts ids last d x rest =
      let (told, lamp, cached) = rest (step c h).1 d.after (
        moved int_of info network client command_ids device_id n cs heard rs last d.attempts_after
          d.ids_after refl x) in
      (ap (λ y. y ∷ (perform_all remote cs (step c h).1).0) d.told ∙ ap (r ∷◌) told, lamp, cached)

  module _ (retries : client.max_retries ≡ pos n) where
    -- While no failure is injected into the emulated lamp, a device whose cache holds the lamp's state,
    -- over a client with max_retries at n that keeps no connections, asks for any changes. A value out of range is refused; the n + 1 attempts of
    -- a command may all fail to dial in time; otherwise at most n of them do, and the next one connects
    -- and comes, however its bytes are cut, to the lamp's handler, whose bytes come back. Then the
    -- methods raise a ValueError, raise a timeout error, and return the acknowledgement, in this order of
    -- cases; the lamp has the values that were asked for last by the commands that reached it; and the
    -- cache holds the state of the lamp.
    pub perform_all-states :
        (cs heard : List Change) (replies : List (Result Fields)) (h : Home remote) (l : Light)
        (delay : ℤ) (last : Lamp)
        → IsOnline l h
        → Conversation int_of info network client command_ids device_id n cs replies heard
            h.world.attempts h.world.ids
            (calm delay l)
            last
        → ((perform_all remote cs h).0 ≡ replies)
          × (last ≡ calm delay (last_light l heard))
          × ((perform_all remote cs h).1.device.state ≡ obj (states last.light))
    perform_all-states [] [] [] h l delay last k over = (refl, refl, k.cached)
    perform_all-states [] [] (r ∷ rs) h l delay last k x = elim x [ ]
    perform_all-states [] (c' ∷ heard) replies h l delay last k x = elim x [ ]
    perform_all-states (c ∷ cs) heard [] h l delay last k x = elim x [ ]
    perform_all-states (c ∷ cs) heard (r ∷ rs) h l delay last k (refused outside x) =
        let e = ask_refused network client command_ids h.device.ip h.device.id c h.world outside in
        continued c cs heard rs h (err value_error) l delay h.world.attempts h.world.ids last
          (finished c h l l (err value_error) _ _ k (ap (λ (o : Result Fields × Session). o.0) e)
            refl (ap (λ (o : Result Fields × Session). o.1.attempts) e)
            (ap (λ (o : Result Fields × Session). o.1.ids) e)
            (subst (λ (o : Result Fields × Session). IsUnpooled o.1) (sym e) k.unpooled))
          x (λ h' k' y. perform_all-states cs heard rs h' l delay last k' y)
    perform_all-states (c ∷ cs) heard (r ∷ rs) h l delay last k (lost inside lates dials x) =
        let d =
          change_lost int_of info network client command_ids h.device.ip h.device.id n retries c
            h.world inside k.unpooled lates dials in
        continued c cs heard rs h (err timeout_error) l delay _ _ last
          (finished c h l l (err timeout_error) _ _ k d.result refl d.attempts d.ids
            (d.unpooled k.unpooled))
          x (λ h' k' y. perform_all-states cs heard rs h' l delay last k' y)
    perform_all-states (c ∷ cs) (c' ∷ heard) (r ∷ rs) h l delay last k
          (obeyed failures pieces inside few lates wired whole x) =
        let l' : Light = last_light l (c ∷ []) in
        let d =
          change-Ended int_of info network client command_ids h.device.ip h.device.id n retries c
            h.world failures pieces delay l inside few k.unpooled lates wired
            (whole
              ∙ ap (λ id. print (obj (command_of (command_ids h.world.ids) id c))) (sym k.named)) in
        let lamp =
          lamp_changed int_of info network client command_ids h.device.ip device_id n retries c
            (command_ids h.world.ids) pieces delay l wired.nonempty whole in
        let (told, shown, cached) =
          continued c cs heard rs h (ok acknowledged) l' delay _ _ last
            (finished c h l l' (ok acknowledged) _ _ k d.result refl d.attempts d.ids
              (d.unpooled k.unpooled))
            (moved int_of info network client command_ids device_id n cs heard rs last refl refl
              lamp x)
            (λ h' k' y. perform_all-states cs heard rs h' l' delay last k' y) in
        (told, shown ∙ ap (calm delay) (last_light-cons l c heard), cached)
