-- ===== src/Json.antt =====
-- Decoded JSON as Python holds it: what `json.loads` returns and `json.dumps` takes.
pub mod Dict
pub mod Equality
pub mod Keys
use text.Mathlib.Text.{find?}
use dlight_client.Common.{
  ℕ, zero, suc, String, Option, none, some, Bool, true, false, not, ◌&&◌, ◌||◌, ◌==◌, eqb, is_some,
  ℤ, pos, negsuc, eqb_ℤ, if◌then◌else◌,
}
use dlight_client.Errors.{Result, ok, err, attribute_error, type_error}

-- A `dict` keeps its entries in the order of insertion. Numbers are integers.
mutual
  pub data Json : Type 0 where
    null : Json
    bool : Bool → Json
    num : ℤ → Json
    str : String → Json
    arr : Items → Json
    obj : Fields → Json

  pub data Items : Type 0 where
    nil : Items
    cons : Json → Items → Items

  pub data Fields : Type 0 where
    end : Fields
    field : String → Json → Fields → Fields

-- `d.get(k)`; `none` is a missing key
unfoldable pub get : String → Fields → Option Json
get k end = none
get k (field j v fs) = if j == k then some v else get k fs

-- `d[k] = v`: a key that is there keeps its place
unfoldable pub put : String → Json → Fields → Fields
put k v end = field k v end
put k v (field j w fs) = let rest = put k v fs in if j == k then field j v fs else field j w rest

-- `del d[k]` for a key that is there
unfoldable pub remove : String → Fields → Fields
remove k end = end
remove k (field j w fs) = let rest = remove k fs in if j == k then fs else field j w rest

abbrev pub size : Fields → ℕ
size end = 0
size (field k v fs) = suc (size fs)

-- `bool(x)`
abbrev pub truthy : Json → Bool
truthy null = false
truthy (bool b) = b
truthy (num (pos zero)) = false
truthy (num _) = true
truthy (str s) = not (s == "")
truthy (arr nil) = false
truthy (arr _) = true
truthy (obj end) = false
truthy (obj _) = true

-- `x == True` and `x == False`: in Python a bool is the number 1 or 0
abbrev pub bool_ℤ : Bool → ℤ
bool_ℤ true = pos 1
bool_ℤ false = pos 0

-- `a == b`. Two dicts are equal if they have the same keys with equal values, in any order.
unfoldable mutual
  pub json_eq : Json → Json → Bool
  json_eq null null = true
  json_eq (bool a) (bool b) = eqb_ℤ (bool_ℤ a) (bool_ℤ b)
  json_eq (bool a) (num z) = eqb_ℤ (bool_ℤ a) z
  json_eq (num z) (bool a) = eqb_ℤ z (bool_ℤ a)
  json_eq (num a) (num b) = eqb_ℤ a b
  json_eq (str s) (str t) = s == t
  json_eq (arr xs) (arr ys) = items_eq xs ys
  json_eq (obj fs) (obj gs) = eqb (size fs) (size gs) && fields_within fs gs
  json_eq _ _ = false

  pub items_eq : Items → Items → Bool
  items_eq nil nil = true
  items_eq (cons x xs) (cons y ys) = json_eq x y && items_eq xs ys
  items_eq _ _ = false

  -- every entry of the first has an equal one under its key in the second
  pub fields_within : Fields → Fields → Bool
  fields_within end gs = true
  fields_within (field k v fs) gs =
      elim (get k gs) [ none ↦ false | some w ↦ json_eq v w ] && fields_within fs gs

-- `s in xs` for a list
abbrev pub has_item : String → Items → Bool
has_item s nil = false
has_item s (cons (str t) xs) = t == s || has_item s xs
has_item s (cons _ xs) = has_item s xs

-- `k in x`, for whatever the value is
abbrev pub contains : String → Json → Result Bool
contains k (obj fs) = ok (is_some (get k fs))
contains k (arr xs) = ok (has_item k xs)
contains k (str s) = ok (is_some (find? s k))
contains k _ = err type_error

-- `x.get`: only a dict has the method
abbrev pub as_dict : Json → Result Fields
as_dict (obj fs) = ok fs
as_dict _ = err attribute_error
