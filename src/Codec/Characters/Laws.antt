-- ===== src/Codec/Characters/Laws.antt =====
-- Every character is found by its code point, and every escape stands for its character.
use Prim.Native.Nat.{compare, Ordering}
use Prim.Native.Char.{Char, char, code, IsScalar}
use Prim.Native.String.{String}
use text.Mathlib.TextEquality.{Char-path}
use dlight_client.Common.{
  ◌≡◌, refl, ap, ◌∙◌, ◌⊎◌, inl, inr, Bool-cases, arith, ℕ, ◌+◌, ◌-◌, ◌*◌, ◌/◌, ◌%◌, ◌<◌, Bool, true,
  false, none, some, List, [], ◌∷◌, ltb,
}
use dlight_client.Codec.Printer.{hex_digit}
use dlight_client.Codec.Characters.{
  character, low_character, high_character, text_of, is_high, is_low, push_unit, hex_value,
}

Ordering-cases : (o : Ordering) → (o ≡ Ordering.lt) ⊎ ((o ≡ Ordering.eq) ⊎ (o ≡ Ordering.gt))
Ordering-cases Ordering.lt = inl refl
Ordering-cases Ordering.eq = inr (inl refl)
Ordering-cases Ordering.gt = inr (inr refl)

-- A code point that is no surrogate.
abbrev pub IsCode : ℕ → Type 0
IsCode n = (n < 55296) ⊎ ((57343 < n) × (n < 1114112))

above-IsCode : (n : ℕ) → IsScalar n → ltb n 55296 ≡ false → (57343 < n) × (n < 1114112)
above-IsCode n p h = elim (Ordering-cases (compare n 55296)) [
  | inl low ↦ absurd (ground (arith, h, low))
  | inr (inl same) ↦ elim (Ordering-cases (compare 57343 n)) [
    | inl past ↦ (ground arith, ground arith)
    | inr (inl e) ↦ absurd (rw (same, e) at p)
    | inr (inr e) ↦ absurd (rw (same, e) at p)
  ]
  | inr (inr above) ↦ elim (Ordering-cases (compare 57343 n)) [
    | inl past ↦ elim (Ordering-cases (compare n 1114112)) [
      | inl below ↦ (ground arith, ground arith)
      | inr (inl e) ↦ absurd (rw (above, past, e) at p)
      | inr (inr e) ↦ absurd (rw (above, past, e) at p)
    ]
    | inr (inl e) ↦ absurd (rw (above, e) at p)
    | inr (inr e) ↦ absurd (rw (above, e) at p)
  ]
]

pub scalar-IsCode : (n : ℕ) → IsScalar n → IsCode n
scalar-IsCode n p = elim (Bool-cases (ltb n 55296)) [
  | inl low ↦ inl (ground arith)
  | inr high ↦ inr (above-IsCode n p high)
]

high_character_lem :
    (n : ℕ) (p : IsScalar n) (a b : Bool) (h : ltb 57343 n ≡ a) (k : ltb n 1114112 ≡ b)
    → (57343 < n) × (n < 1114112)
    → high_character n a b h k ≡ some (char n p)
high_character_lem n p true true h k between = ap some (Char-path _ _ refl)
high_character_lem n p true false h k between = absurd (ground (arith, between.1))
high_character_lem n p false b h k between = absurd (ground (arith, between.0))

low_character_lem :
    (n : ℕ) (p : IsScalar n) (low : Bool) (h : ltb n 55296 ≡ low)
    → low_character n low h ≡ some (char n p)
low_character_lem n p true h = ap some (Char-path _ _ refl)
low_character_lem n p false h =
    high_character_lem n p (ltb 57343 n) (ltb n 1114112) refl refl (above-IsCode n p h)

character-code : (c : Char) → character (code c) ≡ some c
unfolding character
character-code (char n p) = low_character_lem n p (ltb n 55296) refl

pub hex_value-hex_digit : (d : ℕ) → d < 16 → hex_value (hex_digit d) ≡ some d
hex_value-hex_digit d h = ground arith

pub push_short : (c : ℕ) (buffer : List ℕ) → IsCode c → c < 65536 → push_unit c buffer ≡ c ∷ buffer
push_short c [] code h = refl
push_short c (b ∷ buffer) code h = ground arith

pub push_high : (u : ℕ) (buffer : List ℕ) → u < 56320 → push_unit u buffer ≡ u ∷ buffer
push_high u [] h = refl
push_high u (b ∷ buffer) h = ground arith

pub long-bounds : (c : ℕ) → IsCode c → ltb c 65536 ≡ false → (65535 < c) × (c < 1114112)
long-bounds c code long = (ground arith, ground arith)

pub push_pair :
    (c : ℕ) (buffer : List ℕ)
    → (65535 < c) × (c < 1114112)
    → push_unit (56320 + (c - 65536) % 1024) ((55296 + (c - 65536) / 1024) ∷ buffer) ≡ c ∷ buffer
push_pair c buffer bounds =
    let low : is_low (56320 + (c - 65536) % 1024) ≡ true = ground arith in
    let high : is_high (55296 + (c - 65536) / 1024) ≡ true = ground (arith, bounds.1) in
    let whole : 65536
          + (55296 + (c - 65536) / 1024 - 55296) * 1024
          + (56320 + (c - 65536) % 1024 - 56320)
        ≡ c =
      omega (arith, bounds.0) in
    rw (low, high) (ap (λ d. d ∷ buffer) whole)

-- The characters of a text are pushed one by one.
unfoldable pub push_codes : String → List ℕ → List ℕ
push_codes String.[] buffer = buffer
push_codes (String.◌∷◌ c s) buffer = push_codes s (code c ∷ buffer)

prepend : String → String → String
prepend String.[] t = t
prepend (String.◌∷◌ c s) t = String.◌∷◌ c (prepend s t)

prepend-empty : (s : String) → prepend s "" ≡ s
unfolding prepend
prepend-empty String.[] = refl
prepend-empty (String.◌∷◌ c s) = ap (String.◌∷◌ c) (prepend-empty s)

text_of-push_codes :
    (s : String) (buffer : List ℕ) (t : String)
    → text_of (push_codes s buffer) t ≡ text_of buffer (prepend s t)
unfolding text_of push_codes prepend
text_of-push_codes String.[] buffer t = refl
text_of-push_codes (String.◌∷◌ c s) buffer t =
    text_of-push_codes s (code c ∷ buffer) t
    ∙ ap (λ o. elim o [ none ↦ none | some d ↦ text_of buffer (String.◌∷◌ d (prepend s t)) ])
        (character-code c)

pub text_of_codes : (s : String) → text_of (push_codes s []) "" ≡ some s
unfolding text_of
text_of_codes s = text_of-push_codes s [] "" ∙ ap some (prepend-empty s)
