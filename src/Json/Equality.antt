-- ===== src/Json/Equality.antt =====
-- `==` on decoded JSON: every value that `json.loads` can return equals itself.
use dlight_client.Common.{◌≡◌, refl, String, none, some, true, arith, eq_iff, eq_refl, ℤ, eqb_ℤ}
use dlight_client.Json.{
  Json, null, bool, num, str, arr, obj, Items, nil, cons, Fields, end, field, get, bool_ℤ, json_eq,
  items_eq, fields_within,
}

-- No dict in the value has a key twice.
unfoldable mutual
  pub IsUnique : Json → Type 0
  IsUnique null = Unit
  IsUnique (bool b) = Unit
  IsUnique (num z) = Unit
  IsUnique (str s) = Unit
  IsUnique (arr xs) = UniqueItems xs
  IsUnique (obj fs) = UniqueFields fs

  pub UniqueItems : Items → Type 0
  UniqueItems nil = Unit
  UniqueItems (cons x xs) = IsUnique x × UniqueItems xs

  pub UniqueFields : Fields → Type 0
  UniqueFields end = Unit
  UniqueFields (field k v fs) = (get k fs ≡ none) × IsUnique v × UniqueFields fs

eqb-refl_ℤ : (z : ℤ) → eqb_ℤ z z ≡ true
eqb-refl_ℤ z = ground arith

tail_agrees :
    (k : String) (v : Json) (fs gs : Fields)
    → get k fs ≡ none
    → ((j : String) (w : Json) → get j (field k v fs) ≡ some w → get j gs ≡ some w)
    → (j : String) (w : Json) → get j fs ≡ some w
    → get j gs ≡ some w
unfolding get
tail_agrees k v fs gs fresh agree j w h = ground (arith, agree j w, eq_iff k j)

mutual
  unfolding json_eq IsUnique get

  json_refl : (x : Json) → IsUnique x → json_eq x x ≡ true
  json_refl null u = refl
  json_refl (bool b) u = eqb-refl_ℤ (bool_ℤ b)
  json_refl (num z) u = eqb-refl_ℤ z
  json_refl (str s) u = eq_refl s
  json_refl (arr xs) u = items_refl xs u
  json_refl (obj fs) u = rw (fields_agree fs fs u (λ j w h. h)) (ground arith)

  items_refl : (xs : Items) → UniqueItems xs → items_eq xs xs ≡ true
  items_refl nil u = refl
  items_refl (cons x xs) u = rw (json_refl x u.0, items_refl xs u.1) refl

  fields_agree :
      (fs gs : Fields)
      → UniqueFields fs
      → ((j : String) (w : Json) → get j fs ≡ some w → get j gs ≡ some w)
      → fields_within fs gs ≡ true
  fields_agree end gs u agree = refl
  fields_agree (field k v fs) gs u agree = ground (
    arith,
    agree k v,
    eq_iff k k,
    json_refl v u.1,
    fields_agree fs gs u.2 (tail_agrees k v fs gs u.0 agree),
  )

-- A value with no repeated key equals itself under Python's `==`.
pub json_eq_refl : (x : Json) → IsUnique x → json_eq x x ≡ true
json_eq_refl x u = json_refl x u
