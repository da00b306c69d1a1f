-- ===== src/Codec/Characters.antt =====
-- Characters and texts by their code points, with the escapes of JSON.
pub mod Laws
use Prim.Native.Nat.{compare, Ordering}
use Prim.Native.Char.{Char, char, IsScalar}
use Prim.Native.String.{String}
use dlight_client.Common.{
  ◌≡◌, refl, sym, ap, ◌∙◌, ◌⊎◌, inl, inr, Bool-cases, arith, ℕ, zero, suc, ◌+◌, ◌-◌, ◌*◌, ◌/◌, ◌%◌,
  ◌<◌, ◌≤◌, Bool, true, false, not, ◌&&◌, ◌||◌, Option, none, some, List, [], ◌∷◌, ◌++◌, ltb, leb,
  eqb, if◌then◌else◌,
}

ltb-lt : (a b : ℕ) → ltb a b ≡ true → compare a b ≡ Ordering.lt
ltb-lt a b h = ground arith

abbrev pub is_digit : ℕ → Bool
is_digit c = leb b'0' c && leb c b'9'

past_surrogates : (n : ℕ) → ltb 57343 n ≡ true → compare n 55296 ≡ Ordering.gt
past_surrogates n h = ground arith

pub low-IsScalar : (n : ℕ) → ltb n 55296 ≡ true → IsScalar n
low-IsScalar n h = rw (ltb-lt n 55296 h) tt

pub high-IsScalar : (n : ℕ) → ltb 57343 n ≡ true → ltb n 1114112 ≡ true → IsScalar n
high-IsScalar n h k = rw (past_surrogates n h, ltb-lt 57343 n h, ltb-lt n 1114112 k) tt

abbrev pub high_character :
    (n : ℕ) (past below : Bool) → ltb 57343 n ≡ past → ltb n 1114112 ≡ below → Option Char
high_character n true true h k = some (char n (high-IsScalar n h k))
high_character n _ _ h k = none

abbrev pub low_character : (n : ℕ) (low : Bool) → ltb n 55296 ≡ low → Option Char
low_character n true h = some (char n (low-IsScalar n h))
low_character n false h = high_character n (ltb 57343 n) (ltb n 1114112) refl refl

-- The character of a code point; a surrogate has none.
unfoldable pub character : ℕ → Option Char
character n = low_character n (ltb n 55296) refl

-- The text of code points that are in reverse order, before what comes after them.
unfoldable pub text_of : List ℕ → String → Option String
unfolding character
text_of [] s = some s
text_of (n ∷ ns) s = elim (character n) [ none ↦ none | some c ↦ text_of ns (String.◌∷◌ c s) ]

abbrev pub is_high : ℕ → Bool
is_high u = leb 55296 u && leb u 56319

abbrev pub is_low : ℕ → Bool
is_low u = leb 56320 u && leb u 57343

-- A code unit after `\u`: the second half of a pair makes one character with the first.
abbrev pub push_unit : ℕ → List ℕ → List ℕ
push_unit u [] = u ∷ []
push_unit u (h ∷ hs) =
    if is_low u && is_high h then (65536 + (h - 55296) * 1024 + (u - 56320)) ∷ hs else u ∷ h ∷ hs

abbrev pub hex_value : ℕ → Option ℕ
hex_value c =
    if is_digit c
    then some (c - b'0')
    else if leb b'a' c && leb c b'f'
    then some (c - b'a' + 10)
    else if leb b'A' c && leb c b'F'
    then some (c - b'A' + 10)
    else none

-- `\n` and the like
abbrev pub unescape : ℕ → Option ℕ
unescape c =
    if eqb c b'"' || (eqb c b'\\' || eqb c b'/')
    then some c
    else if eqb c b'b'
    then some 8
    else if eqb c b'f'
    then some 12
    else if eqb c b'n'
    then some 10
    else if eqb c b'r'
    then some 13
    else if eqb c b't'
    then some 9
    else none
