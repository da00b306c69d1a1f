-- ===== src/Codec/Reader/Tokens.antt =====
-- The reader at brackets, commas, colons and constants.
use dlight_client.Common.{◌≡◌, refl, ℕ, Bool, true, false, String, List, ◌∷◌, ◌++◌, codes}
use dlight_client.Json.{null, bool, arr, obj, Items, nil, Fields, end}
use dlight_client.Codec.Reader.{
  Frame, items, fields, value, key, colon, after, reading, deliver, step, run,
}

-- `": "` after a key
pub run_colon :
    (frames : List Frame) (text : List ℕ)
    → run (reading frames colon) (b':' ∷ b' ' ∷ text) ≡ run (reading frames (value false)) text
unfolding run step
run_colon frames text = refl

pub run_comma_item :
    (xs : Items) (frames : List Frame) (text : List ℕ)
    → run (reading (items xs ∷ frames) after) (b',' ∷ b' ' ∷ text)
      ≡ run (reading (items xs ∷ frames) (value false)) text
unfolding run step
run_comma_item xs frames text = refl

pub run_comma_key :
    (fs : Fields) (k : String) (frames : List Frame) (text : List ℕ)
    → run (reading (fields fs k ∷ frames) after) (b',' ∷ b' ' ∷ text)
      ≡ run (reading (fields fs k ∷ frames) (key false)) text
unfolding run step
run_comma_key fs k frames text = refl

pub run-null :
    (frames : List Frame) (closing : Bool) (rest : List ℕ)
    → run (reading frames (value closing)) (codes "null" ++ rest) ≡ run (deliver null frames) rest
unfolding run step
run-null frames closing rest = refl

pub run-true :
    (frames : List Frame) (closing : Bool) (rest : List ℕ)
    → run (reading frames (value closing)) (codes "true" ++ rest)
      ≡ run (deliver (bool true) frames) rest
unfolding run step
run-true frames closing rest = refl

pub run-false :
    (frames : List Frame) (closing : Bool) (rest : List ℕ)
    → run (reading frames (value closing)) (codes "false" ++ rest)
      ≡ run (deliver (bool false) frames) rest
unfolding run step
run-false frames closing rest = refl

pub run_empty_list :
    (frames : List Frame) (closing : Bool) (rest : List ℕ)
    → run (reading frames (value closing)) (codes "[]" ++ rest)
      ≡ run (deliver (arr nil) frames) rest
unfolding run step
run_empty_list frames closing rest = refl

pub run_empty_dict :
    (frames : List Frame) (closing : Bool) (rest : List ℕ)
    → run (reading frames (value closing)) (codes "{}" ++ rest)
      ≡ run (deliver (obj end) frames) rest
unfolding run step
run_empty_dict frames closing rest = refl

pub run_open_list :
    (frames : List Frame) (closing : Bool) (rest : List ℕ)
    → run (reading frames (value closing)) (b'[' ∷ rest)
      ≡ run (reading (items nil ∷ frames) (value true)) rest
unfolding run step
run_open_list frames closing rest = refl

pub run_open_dict :
    (frames : List Frame) (closing : Bool) (rest : List ℕ)
    → run (reading frames (value closing)) (b'{' ∷ rest)
      ≡ run (reading (fields end "" ∷ frames) (key true)) rest
unfolding run step
run_open_dict frames closing rest = refl

pub run_close_list :
    (xs : Items) (frames : List Frame) (rest : List ℕ)
    → run (reading (items xs ∷ frames) after) (b']' ∷ rest) ≡ run (deliver (arr xs) frames) rest
unfolding run step
run_close_list xs frames rest = refl

pub run_close_dict :
    (fs : Fields) (k : String) (frames : List Frame) (rest : List ℕ)
    → run (reading (fields fs k ∷ frames) after) (b'}' ∷ rest) ≡ run (deliver (obj fs) frames) rest
unfolding run step
run_close_dict fs k frames rest = refl
