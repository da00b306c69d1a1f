-- ===== src/Codec/Reader/Numbers.antt =====
-- Reading a number that was printed.
use mathlib.Core.List.{append_assoc}
use dlight_client.Common.{
  ◌≡◌, refl, ap, ◌∙◌, inl, inr, Bool-cases, arith, ℕ, zero, suc, ◌+◌, ◌-◌, ◌*◌, ◌/◌, ◌%◌, ◌<◌, Bool,
  true, false, List, [], ◌∷◌, ◌++◌, ℤ, pos, negsuc, decimal, decimal_digits, ltb, eqb,
}
use dlight_client.Json.{num}
use dlight_client.Codec.Printer.{number_text}
use dlight_client.Codec.Reader.{
  Frame, items, fields, Mode, value, minus, number, reading, deliver, is_space, is_fraction,
  ends_number, signed, step, run,
}
use dlight_client.Codec.Characters.{is_digit}
use dlight_client.Codec.Reader.Texts.{run_next}

-- What may follow a number: nothing, or no digit, point or exponent.
abbrev pub IsStop : List ℕ → Type 0
IsStop [] = Unit
IsStop (c ∷ cs) = (is_digit c ≡ false) × (is_fraction c ≡ false)

stop_ends :
    (more : Bool) (c : ℕ)
    → (is_digit c ≡ false) × (is_fraction c ≡ false)
    → ends_number more c ≡ true
stop_ends more c stop = ground (arith, stop.0, stop.1)

run_stop :
    (frames : List Frame) (negative more : Bool) (n : ℕ) (rest : List ℕ)
    → IsStop rest
    → run (reading frames (number negative more n)) rest
      ≡ run (deliver (num (signed negative n)) frames) rest
unfolding run deliver
run_stop [] negative more n [] stop = refl
run_stop (items xs ∷ frames) negative more n [] stop = refl
run_stop (fields fs k ∷ frames) negative more n [] stop = refl
run_stop [] negative more n (c ∷ cs) stop = rw (stop_ends more c stop, run) refl
run_stop (items xs ∷ frames) negative more n (c ∷ cs) stop = rw (stop_ends more c stop, run) refl
run_stop (fields fs k ∷ frames) negative more n (c ∷ cs) stop = rw (stop_ends more c stop, run) refl

module _ (frames : List Frame) (m : Mode) (negative : Bool)
    (first : (d : ℕ) (rest : List ℕ)
      → 0 < d
      → d < 10
      → run (reading frames m) ((d + 48) ∷ rest)
        ≡ run (reading frames (number negative true d)) rest) where
  run_digit :
      (n d : ℕ) (rest : List ℕ)
      → d < 10
      → run (reading frames (number negative true n)) ((d + 48) ∷ rest)
        ≡ run (reading frames (number negative true (n * 10 + d))) rest
  unfolding step
  run_digit n d rest h =
      let digit : is_digit (d + 48) ≡ true = ground arith in
      run_next frames (number negative true n) (d + 48) rest _ (rw digit refl)
        (rw (digit, step) refl)
      ∙ ap (λ e. run (reading frames (number negative true (n * 10 + e))) rest) {x = d + 48 - 48}
          (omega arith)

  run-decimal_digits :
      (fuel n : ℕ) (rest : List ℕ)
      → 0 < n
      → n < fuel
      → run (reading frames m) (decimal_digits fuel n ++ rest)
        ≡ run (reading frames (number negative true n)) rest
  unfolding decimal_digits
  run-decimal_digits zero n rest p h = absurd (omega arith)
  run-decimal_digits (suc fuel) n rest p h = elim (Bool-cases (ltb n 10)) [
    | inl small ↦ rw small (first n rest p (ground arith))
    | inr large ↦ rw large (
        ap (run (reading frames m))
          (append_assoc (decimal_digits fuel (n / 10)) ((n % 10 + 48) ∷ []) rest)
        ∙ run-decimal_digits fuel (n / 10) ((n % 10 + 48) ∷ rest) (ground arith) (ground arith)
        ∙ run_digit (n / 10) (n % 10) rest (omega arith)
        ∙ ap (λ k. run (reading frames (number negative true k)) rest) (omega arith))
  ]

-- The first digit of a number, after a sign or without one.
first_digit :
    (frames : List Frame) (closing : Bool) (d : ℕ) (rest : List ℕ)
    → 0 < d
    → d < 10
    → run (reading frames (value closing)) ((d + 48) ∷ rest)
      ≡ run (reading frames (number false true d)) rest
unfolding step
first_digit frames closing d rest p h =
    let blank : is_space (d + 48) ≡ false = ground arith in
    let digit : is_digit (d + 48) ≡ true = ground arith in
    let quote : eqb (d + 48) b'"' ≡ false = ground arith in
    let brace : eqb (d + 48) b'{' ≡ false = ground arith in
    let bracket : eqb (d + 48) b'[' ≡ false = ground arith in
    let sign : eqb (d + 48) b'-' ≡ false = ground arith in
    let nought : eqb (d + 48) b'0' ≡ false = ground arith in
    run_next frames (value closing) (d + 48) rest _ refl
      (rw (step, blank, digit, quote, brace, bracket, sign, nought) refl)
    ∙ ap (λ e. run (reading frames (number false true e)) rest) {x = d + 48 - 48} (omega arith)

first_after_minus :
    (frames : List Frame) (d : ℕ) (rest : List ℕ)
    → 0 < d
    → d < 10
    → run (reading frames minus) ((d + 48) ∷ rest) ≡ run (reading frames (number true true d)) rest
unfolding step
first_after_minus frames d rest p h =
    let digit : is_digit (d + 48) ≡ true = ground arith in
    let nought : eqb (d + 48) b'0' ≡ false = ground arith in
    run_next frames minus (d + 48) rest _ refl (rw (step, digit, nought) refl)
    ∙ ap (λ e. run (reading frames (number true true e)) rest) {x = d + 48 - 48} (omega arith)

-- A number that was printed is read back, where no digit follows it.
pub run_number :
    (frames : List Frame) (closing : Bool) (z : ℤ) (rest : List ℕ)
    → IsStop rest
    → run (reading frames (value closing)) (number_text z ++ rest)
      ≡ run (deliver (num z) frames) rest
unfolding decimal step
run_number frames closing (pos zero) rest stop =
    run_next frames (value closing) b'0' rest (reading frames (number false false 0)) refl refl
    ∙ run_stop frames false false 0 rest stop
run_number frames closing (pos (suc n)) rest stop =
    run-decimal_digits frames (value closing) false (first_digit frames closing) (suc (suc n))
      (suc n) rest (omega arith) (omega arith)
    ∙ run_stop frames false true (suc n) rest stop
run_number frames closing (negsuc n) rest stop =
    run_next frames (value closing) b'-' (decimal (suc n) ++ rest) (reading frames minus) refl refl
    ∙ run-decimal_digits frames minus true (first_after_minus frames) (suc (suc n)) (suc n) rest
        (omega arith) (omega arith)
    ∙ run_stop frames true true (suc n) rest stop
