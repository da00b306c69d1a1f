-- ===== src/Json/Keys.antt =====
-- Dicts whose keys are all different, as Python's are.
use dlight_client.Common.{
  ◌≡◌, ◌≢◌, refl, String, none, arith, ◌==◌, eq_iff, if◌then◌else◌, Bool-cases, inl, inr,
}
use dlight_client.Json.{Json, Fields, end, field, get, put, remove}
use dlight_client.Json.Dict.{get-put}

abbrev pub HasUniqueKeys : Fields → Type 0
HasUniqueKeys end = Unit
HasUniqueKeys (field k v fs) = (get k fs ≡ none) × HasUniqueKeys fs

pub put-HasUniqueKeys :
    (k : String) (v : Json) (fs : Fields) → HasUniqueKeys fs → HasUniqueKeys (put k v fs)
unfolding put get
put-HasUniqueKeys k v end u = (refl, tt)
put-HasUniqueKeys k v (field i w fs) u = elim (Bool-cases (i == k)) [
  | inl same ↦ rw same u
  | inr other ↦
      rw other
        (ground (arith, get-put k i v fs, eq_iff k i, eq_iff i k), put-HasUniqueKeys k v fs u.1)
]

pub get-remove :
    (k j : String) (fs : Fields)
    → HasUniqueKeys fs
    → get j (remove k fs) ≡ (if k == j then none else get j fs)
unfolding remove get
get-remove k j end u = ground arith
get-remove k j (field i w fs) u =
    ground (arith, eq_iff i k, eq_iff i j, eq_iff k j, get-remove k j fs)

pub remove-HasUniqueKeys :
    (k : String) (fs : Fields) → HasUniqueKeys fs → HasUniqueKeys (remove k fs)
unfolding remove get
remove-HasUniqueKeys k end u = tt
remove-HasUniqueKeys k (field i w fs) u = elim (Bool-cases (i == k)) [
  | inl same ↦ rw same u.1
  | inr other ↦
      rw other (ground (arith, get-remove k i fs, eq_iff k i), remove-HasUniqueKeys k fs u.1)
]

-- A dict that was written to is not empty.
pub put-ne-end : (k : String) (v : Json) (fs : Fields) → put k v fs ≢ end
unfolding put
put-ne-end k v end h = cc
put-ne-end k v (field i w fs) h = ground arith
