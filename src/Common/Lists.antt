-- ===== src/Common/Lists.antt =====
-- Lists measured and cut by native numbers, under the library's names.
use Prim.Native.Nat.{ℕ, zero, suc, ◌+◌, ◌-◌, ◌≤◌}
use mathlib.Core.Path.{◌≡◌, refl}
use mathlib.Core.List.{List, [], ◌∷◌, ◌++◌}
use native.Mathlib.Omega.{arith}

module _ {ℓ} {A : Type ℓ} where
  abbrev pub length : List A → ℕ
  length [] = 0
  length (x ∷ xs) = suc (length xs)

  abbrev pub take : ℕ → List A → List A
  take zero xs = []
  take (suc n) [] = []
  take (suc n) (x ∷ xs) = x ∷ take n xs

  abbrev pub drop : ℕ → List A → List A
  drop zero xs = xs
  drop (suc n) [] = []
  drop (suc n) (x ∷ xs) = drop n xs

  pub length-append : (xs ys : List A) → length (xs ++ ys) ≡ length xs + length ys
  length-append [] ys = omega arith
  length-append (x ∷ xs) ys = omega (arith, length-append xs ys)

  pub take-length_append : (xs ys : List A) → take (length xs) (xs ++ ys) ≡ xs
  take-length_append [] ys = refl
  take-length_append (x ∷ xs) ys = rw (take-length_append xs ys)

  pub drop-length_append : (xs ys : List A) → drop (length xs) (xs ++ ys) ≡ ys
  drop-length_append [] ys = refl
  drop-length_append (x ∷ xs) ys = drop-length_append xs ys

  pub length-drop : (n : ℕ) (xs : List A) → length (drop n xs) ≡ length xs - n
  length-drop zero xs = omega arith
  length-drop (suc n) [] = omega arith
  length-drop (suc n) (x ∷ xs) = omega (arith, length-drop n xs)

  -- Two ways to cut the same list: the longer head begins with the shorter one.
  pub append_split :
      (xs ys ts rs : List A)
      → xs ++ ys ≡ ts ++ rs
      → length ts ≤ length xs
      → (rest : List A) × (xs ≡ ts ++ rest) × (rest ++ ys ≡ rs)
  append_split xs ys [] rs e h = (xs, refl, e)
  append_split [] ys (t ∷ ts) rs e h = absurd (omega arith)
  append_split (x ∷ xs) ys (t ∷ ts) rs e h =
      let (rest, head, tail) = append_split xs ys ts rs (cc) (omega arith) in (rest, cc, tail)

  pub append_prefix :
      (xs ys ts rs : List A)
      → xs ++ ys ≡ ts ++ rs
      → length xs ≤ length ts
      → xs ≡ take (length xs) ts
  append_prefix [] ys ts rs e h = refl
  append_prefix (x ∷ xs) ys [] rs e h = absurd (omega arith)
  append_prefix (x ∷ xs) ys (t ∷ ts) rs e h =
      let more : xs ≡ take (length xs) ts = append_prefix xs ys ts rs (cc) (omega arith) in cc
