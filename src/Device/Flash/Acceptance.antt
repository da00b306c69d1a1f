-- ===== src/Device/Flash/Acceptance.antt =====
-- Changes that the lamp accepts, one after the other.
use dlight_client.Common.{ℕ, ◌≡◌, refl, ap, ◌∙◌, String, List}
use dlight_client.Errors.{Result, ok, err}
use dlight_client.Json.{obj, Fields}
use dlight_client.Remote.{Remote}
use dlight_client.Device.State.{Device}
use dlight_client.Device.Operations.{Home, settle}
use dlight_client.Device.Rollback.{
  Change, switch, brightness, temperature, perform, changed, request, restored, CanStart,
  perform-eq,
}
use dlight_client.Device.Notices.{settle_kept}

abbrev pub IsOk : Result Fields → Type 0
IsOk (ok response) = Unit
IsOk (err e) = ⊥

module _ (R : Remote) (ip : List ℕ) (id : String) where
  -- The device has this address, and this dict in its cache.
  pub record At (fs : Fields) (h : Home R) : Type 0 where
    pub address : h.device.ip ≡ ip
    pub identity : h.device.id ≡ id
    pub cached : h.device.state ≡ obj fs

  -- The lamp at this address answers this change, whenever it is asked.
  abbrev pub Accepts : Change R → Type 0
  Accepts (switch on) = (w : R.World) → IsOk (R.set_light_state ip id on w).0
  Accepts (brightness v) = (w : R.World) → IsOk (R.set_brightness ip id v w).0
  Accepts (temperature v) = (w : R.World) → IsOk (R.set_color_temperature ip id v w).0

  -- A change that went through.
  abbrev pub Performed : Change R → Fields → Home R → Type 0
  Performed c fs h =
      (response : Fields) × (h' : Home R) × (perform R c h ≡ (ok response, h'))
      × At (changed R c fs) h'

  request-IsOk :
      (c : Change R) (h : Home R) (fs : Fields) → At fs h → Accepts c → IsOk (request R c h).0
  request-IsOk (switch on) h fs at accepts = rw (at.address, at.identity) (accepts h.world)
  request-IsOk (brightness v) h fs at accepts = rw (at.address, at.identity) (accepts h.world)
  request-IsOk (temperature v) h fs at accepts = rw (at.address, at.identity) (accepts h.world)

  settled :
      (c : Change R) (h : Home R) (fs : Fields) (r : Result Fields × R.World)
      → At fs h
      → IsOk r.0
      → (response : Fields) × (h' : Home R) × (settle R
            (obj fs)
            (changed R c fs)
            (restored R c fs)
            r
            h
          ≡ (ok response, h'))
        × At (changed R c fs) h'
  settled c h fs (ok response, w) at good =
      let out : Result Fields × Home R =
        settle R (obj fs) (changed R c fs) (restored R c fs) (ok response, w) h in
      let d = settle_kept R fs (changed R c fs) (restored R c fs) h (ok response, w) refl in
      (
        response,
        out.1,
        refl,
        record {
          address = ap (λ (x : Device). x.ip) d ∙ at.address;
          identity = ap (λ (x : Device). x.id) d ∙ at.identity;
          cached = ap (λ (x : Device). x.state) d;
        },
      )
  settled c h fs (err e, w) at good = elim good [ ]

  pub performed :
      (c : Change R) (h : Home R) (fs : Fields)
      → At fs h
      → Accepts c
      → CanStart R c fs
      → Performed c fs h
  performed c h fs at accepts starts =
      let (response, h', e, at') =
        settled c h fs (request R c h) at (request-IsOk c h fs at accepts) in
      (response, h', perform-eq R c h fs at.cached starts ∙ e, at')
