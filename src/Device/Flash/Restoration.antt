-- ===== src/Device/Flash/Restoration.antt =====
-- A flash of a lamp that accepts every command puts the state back.
use dlight_client.Common.{
  ℕ, zero, suc, ◌≡◌, refl, ap, ◌∙◌, String, some, Bool, true, false, arith, List, ℤ, ◌==◌,
}
use dlight_client.Errors.{ok, continue, pure, ◌>>◌}
use dlight_client.Json.{Json, bool, num, obj, Fields, end, field, get, put, truthy}
use dlight_client.Json.Dict.{get-put, put-put, put_same}
use dlight_client.Remote.{Remote}
use dlight_client.Device.State.{saved_color, put_temperature}
use dlight_client.Device.Operations.{Home, get_state, turn_on, set_color_temperature}
use dlight_client.Device.Rollback.{switch, brightness, temperature, changed, CanStart}
use dlight_client.Device.Flash.{
  Original, read_original, flash_loop, if_known, restore_on, restore_original, conclude, restoring,
  run_flashes, flash_from, flash,
}
use dlight_client.Device.Flash.Acceptance.{At, Accepts, performed}

-- The cached dict after some rounds.
abbrev pub flashed : ℕ → Fields → Fields
flashed zero fs = fs
flashed (suc n) fs = flashed n (put "on" (bool true) (put "on" (bool false) fs))

get-flashed :
    (j : String) (n : ℕ) (fs : Fields) → ("on" == j) ≡ false → get j (flashed n fs) ≡ get j fs
get-flashed j zero fs ne = refl
get-flashed j (suc n) fs ne =
    get-flashed j n (put "on" (bool true) (put "on" (bool false) fs)) ne
    ∙ ground (
      arith,
      get-put "on" j (bool true) (put "on" (bool false) fs),
      get-put "on" j (bool false) fs,
    )

put-flashed : (v : Json) (n : ℕ) (fs : Fields) → put "on" v (flashed n fs) ≡ put "on" v fs
put-flashed v zero fs = refl
put-flashed v (suc n) fs =
    put-flashed v n (put "on" (bool true) (put "on" (bool false) fs))
    ∙ put-put "on" v (bool true) (put "on" (bool false) fs)
    ∙ put-put "on" v (bool false) fs

-- A full state, as a lamp reports it.
pub record IsFull (on : Bool) (b t : ℤ) (fs : Fields) : Type 0 where
  pub color : Fields
  pub has_on : get "on" fs ≡ some (bool on)
  pub has_brightness : get "brightness" fs ≡ some (num b)
  pub has_color : get "color" fs ≡ some (obj color)
  pub has_temperature : get "temperature" color ≡ some (num t)

original : Bool → ℤ → ℤ → Original
original on b t = record {
  on = some (bool on);
  brightness = some (num b);
  temperature = some (num t);
}

get_end : (k : String) {v : Json} → get k end ≡ some v → ⊥
unfolding get
get_end k h = cc

read_original_full :
    (on : Bool) (b t : ℤ) (fs : Fields)
    → IsFull on b t fs
    → read_original (obj fs) ≡ (original on b t, ok tt)
unfolding read_original original
read_original_full on b t end full = absurd (get_end "on" full.has_on)
read_original_full on b t (field k v fs) full =
    rw (full.has_on, full.has_brightness, full.has_color, full.has_temperature) refl

module _ (R : Remote) (ip : List ℕ) (id : String) where
  loop :
      (n : ℕ) (h : Home R) (fs : Fields)
      → At R ip id fs h
      → ((on : Bool) → Accepts R ip id (switch on))
      → (h' : Home R) × (flash_loop R n h ≡ (ok tt, h')) × At R ip id (flashed n fs) h'
  unfolding flash_loop
  loop zero h fs at accepts = (h, refl, at)
  loop (suc n) h fs at accepts =
      let (r, h₁, e, at₁) = performed R ip id (switch false) h fs at (accepts false) tt in
      let (r', h₂, e', at₂) = performed R ip id (switch true) h₁ _ at₁ (accepts true) tt in
      let (h₃, e₃, at₃) = loop n h₂ (put "on" (bool true) (put "on" (bool false) fs)) at₂ accepts in
      (
        h₃,
        ap (λ x. continue x (λ _. turn_on R >> flash_loop R n)) e
            ∙ ap (λ x. continue x (λ _. flash_loop R n)) e'
            ∙ e₃,
        at₃,
      )

  module _ (on : Bool) (b t : ℤ) (fs : Fields) (full : IsFull on b t fs) where
    -- Setting what is set already changes nothing.
    same_brightness :
        (gs : Fields) → get "brightness" gs ≡ some (num b) → changed R (brightness (num b)) gs ≡ gs
    same_brightness gs e = put_same "brightness" (num b) gs e

    same_temperature :
        (gs : Fields)
        → get "color" gs ≡ some (obj full.color)
        → changed R (temperature (num t)) gs ≡ gs
    unfolding put_temperature
    same_temperature gs e = rw e (
        rw (put_same "temperature" (num t) full.color full.has_temperature)
          (put_same "color" (obj full.color) gs e))

    color_saved :
        (gs : Fields) → get "color" gs ≡ some (obj full.color) → CanStart R (temperature (num t)) gs
    unfolding saved_color
    color_saved gs e = rw e (go full.color full.has_temperature)
      where
        go :
            (c : Fields)
            → get "temperature" c ≡ some (num t)
            → saved_color (num t) (some (obj c)) ≡ ok (some (obj c))
        go end e' = absurd (get_end "temperature" e')
        go (field k v c) e' = refl

    restore_on_lem :
        (h : Home R) (gs : Fields)
        → At R ip id gs h
        → ((x : Bool) → Accepts R ip id (switch x))
        → (on' : Bool)
        → (r : Fields) × (h' : Home R) × (restore_on R (some (bool on')) h ≡ (ok r, h'))
          × At R ip id (put "on" (bool on') gs) h'
    restore_on_lem h gs at accepts true = performed R ip id (switch true) h gs at (accepts true) tt
    restore_on_lem h gs at accepts false =
        performed R ip id (switch false) h gs at (accepts false) tt

    truthy_full : truthy (obj fs) ≡ true
    truthy_full = go fs full.has_on
      where
        go : (gs : Fields) → get "on" gs ≡ some (bool on) → truthy (obj gs) ≡ true
        go end e = absurd (get_end "on" e)
        go (field k v gs) e = refl

    cached_state : (h : Home R) → At R ip id fs h → get_state R false h ≡ (ok (obj fs), h)
    unfolding get_state
    cached_state h at = rw (ap truthy at.cached ∙ truthy_full) (ap (λ x. (ok x, h)) at.cached)

    restored_lem :
        (h : Home R) (gs : Fields)
        → At R ip id gs h
        → get "brightness" gs ≡ some (num b)
        → get "color" gs ≡ some (obj full.color)
        → ((x : Bool) → Accepts R ip id (switch x))
        → Accepts R ip id (brightness (num b))
        → Accepts R ip id (temperature (num t))
        → (r : Fields) × (h' : Home R) × (restore_original R (original on b t) h ≡ (ok r, h'))
          × At R ip id (put "on" (bool on) gs) h'
    unfolding restore_original original
    restored_lem h gs at bright color switches brightens colors =
        let (r, h₁, e, at₁) = performed R ip id (brightness (num b)) h gs at brightens tt in
        let (r₂, h₂, e₂, at₂) =
          performed R ip id (temperature (num t)) h₁ gs (rw (same_brightness gs bright) at at₁)
            colors (color_saved gs color) in
        let (r₃, h₃, e₃, at₃) =
          restore_on_lem h₂ gs (rw (same_temperature gs color) at at₂) switches on in
        (
          r₃,
          h₃,
          ap
                (λ x. continue (continue {B = Unit {0}} x (λ _. pure tt)) (λ _.
                  if_known R (some (num t)) (set_color_temperature R)
                  >> restore_on R (some (bool on))))
                e
              ∙ ap
                  (λ x.
                    continue (continue {B = Unit {0}} x (λ _. pure tt))
                      (λ _. restore_on R (some (bool on))))
                  e₂
              ∙ e₃,
          at₃,
        )

    -- A lamp whose full state is cached, and which accepts both switches and its own brightness and
    -- temperature, is flashed any number of times: `flash` returns True, and the cache is as it was.
    pub flash-restores :
        (n : ℕ) (h : Home R)
        → At R ip id fs h
        → ((x : Bool) → Accepts R ip id (switch x))
        → Accepts R ip id (brightness (num b))
        → Accepts R ip id (temperature (num t))
        → (h' : Home R) × (flash R n h ≡ (ok true, h')) × (h'.device.state ≡ obj fs)
    unfolding flash
    flash-restores n h at switches brightens colors =
        let (h₁, e₁, at₁) = loop n h fs at switches in
        let (r, h₂, e₂, at₂) =
          restored_lem h₁ (flashed n fs) at₁
            (get-flashed "brightness" n fs refl ∙ full.has_brightness)
            (get-flashed "color" n fs refl ∙ full.has_color) switches brightens colors in
        (
          h₂,
          ap (flash_from R n) (cached_state h at)
              ∙ ap (λ o. restoring R o.0 (run_flashes R n o h)) (read_original_full on b t fs full)
              ∙ ap (restoring R (original on b t)) e₁
              ∙ ap (conclude {0} R {A = Unit {0}} (ok tt)) e₂,
          at₂.cached ∙ ap obj (put-flashed (bool on) n fs ∙ put_same "on" (bool on) fs full.has_on),
        )
