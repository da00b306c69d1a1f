-- ===== src/Device/Notices.antt =====
-- What listeners are told, and the changes that the lamp accepts.
use mathlib.Core.List.{append-nil}
use dlight_client.Common.{
  ℕ, ◌≡◌, inl, inr, refl, sym, ap, ◌∙◌, Bool, true, false, ◌||◌, List, [], ◌∷◌, ◌++◌, map, arith,
  if◌then◌else◌,
}
use dlight_client.Errors.{Result}
use dlight_client.Json.{Json, obj, Fields, json_eq}
use dlight_client.Remote.{Remote}
use dlight_client.Device.State.{Device, Notice}
use dlight_client.Device.Listeners.{emit_state_change, is_nil, notice}
use dlight_client.Device.Operations.{Home, settle, is_failure}
use dlight_client.Device.Rollback.{
  Change, perform, changed, restored, request, IsRestorable, perform-settle,
}

-- One notice to each listener, in the order of their registration, if the states differ.
abbrev pub notices : Json → Json → List ℕ → List Notice
notices old new listeners = if json_eq old new then [] else map (notice old new) listeners

told :
    (b : Bool) (f : ℕ → Notice) (ls : List ℕ) (n : List Notice)
    → (if is_nil ls || b then n else n ++ map f ls) ≡ n ++ (if b then [] else map f ls)
told b f [] n = ground (arith, append-nil n)
told true f (l ∷ ls) n = sym (append-nil n)
told false f (l ∷ ls) n = refl

if_notified :
    (b : Bool) (d : Device) (n : List Notice)
    → (if b then d else record d { notified = n })
      ≡ record d { notified = if b then d.notified else n }
if_notified true d n = refl
if_notified false d n = refl

pub emit_state_change_lem :
    (old new : Json) (d : Device)
    → emit_state_change old new d
      ≡ record d { notified = d.notified ++ notices old new d.listeners }
unfolding emit_state_change
emit_state_change_lem old new d =
    if_notified (is_nil d.listeners || json_eq old new) d
      (d.notified ++ map (notice old new) d.listeners)
    ∙ ap (λ n. record d { notified = n })
        (told (json_eq old new) (notice old new) d.listeners d.notified)

true_ne_false : true ≡ false → ⊥
true_ne_false h = cc

module _ (R : Remote) where
  pub settle_kept :
      (fs updated rolled : Fields) (h : Home R) (r : Result Fields × R.World)
      → is_failure R r.0 ≡ false
      → (settle R (obj fs) updated rolled r h).1.device ≡ record h.device {
        state = obj updated;
        notified = h.device.notified ++ notices (obj fs) (obj updated) h.device.listeners;
      }
  settle_kept fs updated rolled h r good =
      rw good
        (emit_state_change_lem (obj fs) (obj updated) (record h.device { state = obj updated }))

  -- A change that the lamp accepts, and one that is cancelled while it waits for the answer, stay
  -- in the cache. Each listener is told the old and the new state once, unless they are equal.
  pub perform_kept :
      (c : Change R) (h h' : Home R) (fs : Fields) (r : Result Fields)
      → h.device.state ≡ obj fs
      → IsRestorable R c fs
      → perform R c h ≡ (r, h')
      → is_failure R r ≡ false
      → (h'.device.state ≡ obj (changed R c fs))
        × (h'.device.listeners ≡ h.device.listeners)
        × (h'.device.notified
            ≡ h.device.notified ++ notices (obj fs) (obj (changed R c fs)) h.device.listeners)
  perform_kept c h h' fs r cached allowed out good = elim (perform-settle R c h fs cached allowed) [
    | inl settled ↦
        let q : settle R (obj fs) (changed R c fs) (restored R c fs) (request R c h) h ≡ (r, h') =
          sym settled ∙ out in
        let d : h'.device ≡ record h.device {
          state = obj (changed R c fs);
          notified =
              h.device.notified ++ notices (obj fs) (obj (changed R c fs)) h.device.listeners;
        } =
          ap (λ (t : Result Fields × Home R). t.1.device) (sym q)
          ∙ settle_kept fs (changed R c fs) (restored R c fs) h (request R c h)
              (ap (λ (t : Result Fields × Home R). is_failure R t.0) q ∙ good) in
        (
          ap (λ (x : Device). x.state) d,
          ap (λ (x : Device). x.listeners) d,
          ap (λ (x : Device). x.notified) d,
        )
    | inr stopped ↦
        let f : is_failure R r ≡ true =
          ap (λ (t : Result Fields × Home R). is_failure R t.0) (sym out ∙ stopped) in
        absurd (true_ne_false (sym f ∙ good))
  ]
