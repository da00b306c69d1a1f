-- ===== src/Codec/Reader/RoundTrip.antt =====
-- What `dumps` writes is read back.
use mathlib.Core.List.{append_assoc}
use dlight_client.Common.{◌≡◌, refl, ap, ◌∙◌, ℕ, Bool, true, false, String, List, ◌∷◌, ◌++◌}
use dlight_client.Json.{
  Json, null, bool, num, str, arr, obj, Items, nil, cons, Fields, end, field, put,
}
use dlight_client.Json.Equality.{IsUnique, UniqueItems, UniqueFields}
use dlight_client.Codec.Printer.{print, print_items, print_fields, quoted}
use dlight_client.Codec.Reader.{
  Frame, items, fields, value, key, after, State, reading, deliver, snoc, run,
}
use dlight_client.Codec.Reader.Texts.{run-quoted, run_key}
use dlight_client.Codec.Reader.Numbers.{IsStop, run_number}
use dlight_client.Codec.Reader.Collected.{fill, put_all, fill_one, put_all_end}
use dlight_client.Codec.Reader.Tokens.{
  run_colon, run_comma_item, run_comma_key, run-null, run-true, run-false, run_empty_list,
  run_empty_dict, run_open_list, run_open_dict, run_close_list, run_close_dict,
}

items-IsStop : (xs : Items) (rest : List ℕ) → IsStop (print_items xs ++ rest)
unfolding print_items
items-IsStop nil rest = (refl, refl)
items-IsStop (cons x xs) rest = (refl, refl)

fields-IsStop : (fs : Fields) (rest : List ℕ) → IsStop (print_fields fs ++ rest)
unfolding print_fields
fields-IsStop end rest = (refl, refl)
fields-IsStop (field k v fs) rest = (refl, refl)

-- An entry: its key, the colon, and its value.
run_entry :
    (fs : Fields) (j k : String) (frames : List Frame) (closing : Bool) (text more rest : List ℕ)
    (state : State)
    → run (reading (fields fs k ∷ frames) (value false)) (text ++ (more ++ rest))
      ≡ run state (more ++ rest)
    → run
        (reading (fields fs j ∷ frames) (key closing))
        ((quoted k ++ b':' ∷ b' ' ∷ (text ++ more)) ++ rest)
      ≡ run state (more ++ rest)
run_entry fs j k frames closing text more rest state read =
    ap (run (reading (fields fs j ∷ frames) (key closing)))
      (append_assoc (quoted k) (b':' ∷ b' ' ∷ (text ++ more)) rest)
    ∙ run_key fs j frames closing k (b':' ∷ b' ' ∷ ((text ++ more) ++ rest))
    ∙ run_colon (fields fs k ∷ frames) ((text ++ more) ++ rest)
    ∙ ap (run (reading (fields fs k ∷ frames) (value false))) (append_assoc text more rest)
    ∙ read

abbrev pub Reads : Json → Type 0
Reads x =
    (frames : List Frame) (closing : Bool) (rest : List ℕ)
    → IsStop rest
    → run (reading frames (value closing)) (print x ++ rest) ≡ run (deliver x frames) rest

mutual
  unfolding print print_items print_fields deliver IsUnique fill put_all

  pub run-print : (x : Json) → IsUnique x → Reads x
  run-print null u frames closing rest stop = run-null frames closing rest
  run-print (bool true) u frames closing rest stop = run-true frames closing rest
  run-print (bool false) u frames closing rest stop = run-false frames closing rest
  run-print (num z) u frames closing rest stop = run_number frames closing z rest stop
  run-print (str s) u frames closing rest stop = run-quoted frames closing s rest
  run-print (arr nil) u frames closing rest stop = run_empty_list frames closing rest
  run-print (arr (cons x xs)) u frames closing rest stop =
      run_open_list frames closing ((print x ++ print_items xs) ++ rest)
      ∙ ap (run (reading (items nil ∷ frames) (value true)))
          (append_assoc (print x) (print_items xs) rest)
      ∙ run-print x u.0 (items nil ∷ frames) true (print_items xs ++ rest) (items-IsStop xs rest)
      ∙ run_items xs u.1 (cons x nil) frames rest
      ∙ ap (λ ys. run (deliver (arr ys) frames) rest) (fill_one x xs)
  run-print (obj end) u frames closing rest stop = run_empty_dict frames closing rest
  run-print (obj (field k v fs)) u frames closing rest stop =
      run_open_dict frames closing
        ((quoted k ++ b':' ∷ b' ' ∷ (print v ++ print_fields fs)) ++ rest)
      ∙ run_entry end "" k frames true (print v) (print_fields fs) rest
          (reading (fields (put k v end) k ∷ frames) after)
          (run-print v u.1 (fields end k ∷ frames) false (print_fields fs ++ rest)
            (fields-IsStop fs rest))
      ∙ run_fields fs u.2 (put k v end) k frames rest
      ∙ ap (λ gs. run (deliver (obj gs) frames) rest) (put_all_end (field k v fs) u)

  run_items :
      (xs : Items)
      → UniqueItems xs
      → (ys : Items) (frames : List Frame) (rest : List ℕ)
      → run (reading (items ys ∷ frames) after) (print_items xs ++ rest)
        ≡ run (deliver (arr (fill ys xs)) frames) rest
  run_items nil u ys frames rest = run_close_list ys frames rest
  run_items (cons x xs) u ys frames rest =
      run_comma_item ys frames ((print x ++ print_items xs) ++ rest)
      ∙ ap (run (reading (items ys ∷ frames) (value false)))
          (append_assoc (print x) (print_items xs) rest)
      ∙ run-print x u.0 (items ys ∷ frames) false (print_items xs ++ rest) (items-IsStop xs rest)
      ∙ run_items xs u.1 (snoc ys x) frames rest

  run_fields :
      (fs : Fields)
      → UniqueFields fs
      → (gs : Fields) (j : String) (frames : List Frame) (rest : List ℕ)
      → run (reading (fields gs j ∷ frames) after) (print_fields fs ++ rest)
        ≡ run (deliver (obj (put_all gs fs)) frames) rest
  run_fields end u gs j frames rest = run_close_dict gs j frames rest
  run_fields (field k v fs) u gs j frames rest =
      run_comma_key gs j frames ((quoted k ++ b':' ∷ b' ' ∷ (print v ++ print_fields fs)) ++ rest)
      ∙ run_entry gs j k frames false (print v) (print_fields fs) rest
          (reading (fields (put k v gs) k ∷ frames) after)
          (run-print v u.1 (fields gs k ∷ frames) false (print_fields fs ++ rest)
            (fields-IsStop fs rest))
      ∙ run_fields fs u.2 (put k v gs) k frames rest
