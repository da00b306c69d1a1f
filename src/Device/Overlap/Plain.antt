-- ===== src/Device/Overlap/Plain.antt =====
-- What is tracked of a key while methods overlap.
use mathlib.Core.Path.{subst}
use dlight_client.Common.{
  sym, Bool, ◌≡◌, ◌≢◌, refl, ◌∙◌, inl, inr, Option, none, some, false, String, arith, ◌==◌, eq_iff,
  eq_refl, Bool-cases,
}
use dlight_client.Errors.{ok}
use dlight_client.Json.{Json, null, num, obj, Fields, end, get, put}
use dlight_client.Json.Dict.{get-put}
use dlight_client.Json.Keys.{HasUniqueKeys, put-ne-end}
use dlight_client.Device.State.{not_none, with_temperature, saved_color}
use dlight_client.Device.Overlap.{
  Method, switch, brightness, temperature, key_of, value_of, saved, Pending, Shared, set_pending,
}

-- A value that a rollback can tell from no value, and that `set_color_temperature` copies.
pub record IsPlain (v : Json) : Type 0 where
  pub not_null : v ≢ null
  pub not_empty : v ≢ obj end

-- What the cache and the lamp have for a key, with the method that waits on it.
abbrev pub Fits : Option Pending → Option Json → Option Json → Type 0
Fits none cached known = cached ≡ known
Fits (some p) cached known = (cached ≡ some p.written) × (p.old ≡ known) × IsPlain p.written

-- This holds of each key that is not in doubt.
pub record IsTracked (s : Shared) : Type 0 where
  pub fits :
      (k : String) → s.in_doubt k ≡ false → Fits (s.pending k) (get k s.cache) (get k s.known)
  pub plain : (k : String) (v : Json) → s.in_doubt k ≡ false → get k s.known ≡ some v → IsPlain v
  pub keys : HasUniqueKeys s.cache
  pub known_keys : HasUniqueKeys s.known

colored-IsPlain : (o : Option Json) (v : Json) → IsPlain (with_temperature o v)
colored-IsPlain (some (obj color)) v = record {
  not_null = λ h. cc;
  not_empty = λ h. put-ne-end "temperature" v color (cc);
}
colored-IsPlain _ v = record { not_null = λ h. cc; not_empty = λ h. cc }

pub value_of-IsPlain : (m : Method) (fs : Fields) → IsPlain (value_of m fs)
value_of-IsPlain (switch on) fs = record { not_null = λ h. cc; not_empty = λ h. cc }
value_of-IsPlain (brightness z) fs = record { not_null = λ h. cc; not_empty = λ h. cc }
value_of-IsPlain (temperature z) fs = colored-IsPlain (get "color" fs) (num z)

-- What is saved is what was cached, if that is plain.
saved_color-eq :
    (t : Json) (o old : Option Json)
    → ((v : Json) → o ≡ some v → IsPlain v)
    → saved_color t o ≡ ok old
    → old ≡ o
unfolding saved_color
saved_color-eq t none old p h = cc
saved_color-eq t (some (obj end)) old p h = absurd ((p (obj end) refl).not_empty refl)
saved_color-eq t (some v) old p h = ground arith

pub saved-eq :
    (m : Method) (old : Option Json) (fs : Fields)
    → ((v : Json) → get (key_of m) fs ≡ some v → IsPlain v)
    → saved m fs ≡ ok old
    → old ≡ get (key_of m) fs
saved-eq (switch on) old fs p h = cc
saved-eq (brightness z) old fs p h = cc
saved-eq (temperature z) old fs p h = saved_color-eq (num z) (get "color" fs) old p h

pub not_none-IsPlain : (o : Option Json) → ((v : Json) → o ≡ some v → IsPlain v) → not_none o ≡ o
not_none-IsPlain none p = refl
not_none-IsPlain (some null) p = absurd ((p null refl).not_null refl)
not_none-IsPlain (some _) p = refl

-- A step changes what is there for one key.
pub Fits-update :
    (k : String) (p : Option Pending) (pending : String → Option Pending) (in_doubt : String → Bool)
    (cached cached' known known' : String → Option Json)
    → (in_doubt k ≡ false → Fits p (cached' k) (known' k))
    → ((j : String) → (k == j) ≡ false → (cached' j ≡ cached j) × (known' j ≡ known j))
    → ((j : String) → in_doubt j ≡ false → Fits (pending j) (cached j) (known j))
    → (j : String) → in_doubt j ≡ false
    → Fits (set_pending k p pending j) (cached' j) (known' j)
Fits-update k p pending in_doubt cached cached' known known' at other old j sure =
    elim (Bool-cases (k == j)) [
      | inl same ↦
          let e : k ≡ j = (eq_iff k j).0 same in
          subst (λ i. Fits (set_pending k p pending i) (cached' i) (known' i)) e
            (rw (eq_refl k) (at (subst (λ i. in_doubt i ≡ false) (sym e) sure)))
      | inr differs ↦ rw (differs, (other j differs).0, (other j differs).1) (old j sure)
    ]

pub put_other :
    (k j : String) (v : Json) (fs : Fields) → (k == j) ≡ false → get j (put k v fs) ≡ get j fs
put_other k j v fs h = get-put k j v fs ∙ rw h refl

pub put_self : (k : String) (v : Json) (fs : Fields) → get k (put k v fs) ≡ some v
put_self k v fs = get-put k k v fs ∙ rw (eq_refl k) refl

-- A key that no method waits on: the cache has what the lamp has.
pub free_agrees :
    (s : Shared) (k : String)
    → IsTracked s
    → s.in_doubt k ≡ false
    → s.pending k ≡ none
    → get k s.cache ≡ get k s.known
free_agrees s k t sure free =
    subst (λ p. Fits p (get k s.cache) (get k s.known)) free (t.fits k sure)

pub waits-Fits :
    (s : Shared) (k : String) (p : Pending)
    → IsTracked s
    → s.in_doubt k ≡ false
    → s.pending k ≡ some p
    → Fits (some p) (get k s.cache) (get k s.known)
waits-Fits s k p t sure e = subst (λ q. Fits q (get k s.cache) (get k s.known)) e (t.fits k sure)
