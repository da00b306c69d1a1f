-- ===== src/Codec/Reader/Collected.antt =====
-- What the reader has collected when it closes a list or a dict.
use dlight_client.Common.{◌≡◌, refl, sym, ap, ◌∙◌, arith, eq_iff, String, none, some}
use dlight_client.Json.{Json, Items, nil, cons, Fields, end, field, get, put}
use dlight_client.Json.Dict.{get-put}
use dlight_client.Json.Equality.{IsUnique, UniqueFields}
use dlight_client.Codec.Reader.{snoc}

-- The items and the entries, added one by one.
unfoldable pub fill : Items → Items → Items
fill ys nil = ys
fill ys (cons x xs) = fill (snoc ys x) xs

unfoldable pub put_all : Fields → Fields → Fields
put_all gs end = gs
put_all gs (field k v fs) = put_all (put k v gs) fs

prefixed : Items → Items → Items
prefixed nil xs = xs
prefixed (cons y ys) xs = cons y (prefixed ys xs)

prefixed_nil : (ys : Items) → prefixed ys nil ≡ ys
unfolding prefixed
prefixed_nil nil = refl
prefixed_nil (cons y ys) = ap (cons y) (prefixed_nil ys)

prefixed-snoc : (x : Json) (xs ys : Items) → prefixed (snoc ys x) xs ≡ prefixed ys (cons x xs)
unfolding prefixed
prefixed-snoc x xs nil = refl
prefixed-snoc x xs (cons y ys) = ap (cons y) (prefixed-snoc x xs ys)

fill-prefixed : (xs ys : Items) → fill ys xs ≡ prefixed ys xs
unfolding fill prefixed
fill-prefixed nil ys = sym (prefixed_nil ys)
fill-prefixed (cons x xs) ys = fill-prefixed xs (snoc ys x) ∙ prefixed-snoc x xs ys

pub fill_one : (x : Json) (xs : Items) → fill (cons x nil) xs ≡ cons x xs
unfolding prefixed
fill_one x xs = fill-prefixed xs (cons x nil)

joined : Fields → Fields → Fields
joined end fs = fs
joined (field j w gs) fs = field j w (joined gs fs)

joined_end : (gs : Fields) → joined gs end ≡ gs
unfolding joined
joined_end end = refl
joined_end (field j w gs) = ap (field j w) (joined_end gs)

joined-put :
    (k : String) (v : Json) (fs gs : Fields)
    → get k gs ≡ none
    → joined (put k v gs) fs ≡ joined gs (field k v fs)
unfolding joined put get
joined-put k v fs end h = refl
joined-put k v fs (field j w gs) h = ground (arith, joined-put k v fs gs)

put_all-joined :
    (fs gs : Fields)
    → UniqueFields fs
    → ((j : String) (w : Json) → get j fs ≡ some w → get j gs ≡ none)
    → put_all gs fs ≡ joined gs fs
unfolding put_all get IsUnique
put_all-joined end gs u fresh = sym (joined_end gs)
put_all-joined (field k v fs) gs u fresh =
    put_all-joined fs (put k v gs) u.2
      (λ j w h. ground (arith, fresh j w, get-put k j v gs, eq_iff k j, u.0, h))
    ∙ joined-put k v fs gs (fresh k v (ground (arith, eq_iff k k)))

pub put_all_end : (fs : Fields) → UniqueFields fs → put_all end fs ≡ fs
unfolding get joined
put_all_end fs u = put_all-joined fs end u (λ j w h. refl)
