-- ===== src/Json/Dict.antt =====
-- Laws of the operations on one dict.
use dlight_client.Common.{◌≡◌, refl, String, none, some, false, arith, ◌==◌, eq_iff, if◌then◌else◌}
use dlight_client.Json.{Json, Fields, end, field, get, put, remove}

pub get-put :
    (k j : String) (v : Json) (fs : Fields)
    → get j (put k v fs) ≡ (if k == j then some v else get j fs)
unfolding get put
get-put k j v end = refl
get-put k j v (field i w fs) = ground (arith, eq_iff k j, eq_iff i k, eq_iff i j, get-put k j v fs)

-- Writing back the value that was there restores the dict, the order of its entries included.
pub put-put_back :
    (k : String) (old v : Json) (fs : Fields) → get k fs ≡ some old → put k old (put k v fs) ≡ fs
unfolding get put
put-put_back k old v end h = ground arith
put-put_back k old v (field i w fs) h = ground (arith, eq_iff i k, put-put_back k old v fs)

-- Deleting a key that was new restores the dict.
pub remove-put :
    (k : String) (v : Json) (fs : Fields) → get k fs ≡ none → remove k (put k v fs) ≡ fs
unfolding get put remove
remove-put k v end h = ground (arith, eq_iff k k)
remove-put k v (field i w fs) h = ground (arith, eq_iff i k, remove-put k v fs)

-- The same with a write of another key in between, which stays.
pub put-put-put :
    (k j : String) (old v c : Json) (fs : Fields)
    → (k == j) ≡ false
    → get k fs ≡ some old
    → put k old (put j c (put k v fs)) ≡ put j c fs
unfolding get put
put-put-put k j old v c end ne h = ground arith
put-put-put k j old v c (field i w fs) ne h =
    ground (
      arith,
      eq_iff i k,
      eq_iff i j,
      eq_iff k j,
      put-put-put k j old v c fs,
      put-put_back k old v fs,
    )

pub remove-put-put :
    (k j : String) (v c : Json) (fs : Fields)
    → (k == j) ≡ false
    → get k fs ≡ none
    → remove k (put j c (put k v fs)) ≡ put j c fs
unfolding get put remove
remove-put-put k j v c end ne h = ground (arith, eq_iff k k, eq_iff k j)
remove-put-put k j v c (field i w fs) ne h =
    ground (arith, eq_iff i k, eq_iff i j, eq_iff k j, remove-put-put k j v c fs, remove-put k v fs)

-- The later of two writes under a key is the one that counts.
pub put-put : (k : String) (v w : Json) (fs : Fields) → put k v (put k w fs) ≡ put k v fs
unfolding put
put-put k v w end = ground (arith, eq_iff k k)
put-put k v w (field i u fs) = ground (arith, eq_iff i k, eq_iff k k, put-put k v w fs)

-- Writing what is there changes nothing.
pub put_same : (k : String) (v : Json) (fs : Fields) → get k fs ≡ some v → put k v fs ≡ fs
unfolding put get
put_same k v end h = ground arith
put_same k v (field i w fs) h = ground (arith, eq_iff i k, put_same k v fs)
