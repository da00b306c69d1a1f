-- ===== src/Codec/Reader.antt =====
-- What `json.loads` and `raw_decode` read, as a machine that takes one character after the other.
-- Integers only: digits that '.', 'e' or 'E' follows, NaN and the infinities are refused, and so is a
-- text with half of a surrogate pair.
pub mod Prefix
pub mod RoundTrip
pub mod Texts
pub mod Tokens
pub mod Collected
pub mod Numbers
use Prim.Native.Nat.{compare, Ordering}
use Prim.Native.Char.{Char, char, IsScalar}
use Prim.Native.String.{String}
use dlight_client.Common.{
  ◌≡◌, refl, arith, ℕ, zero, suc, ◌+◌, ◌-◌, ◌*◌, Bool, true, false, not, ◌&&◌, ◌||◌, Option, none,
  some, List, [], ◌∷◌, ℤ, pos, negsuc, codes, ltb, leb, eqb, length, if◌then◌else◌,
}
use dlight_client.Codec.Characters.{text_of, push_unit, is_digit, hex_value, unescape}
use dlight_client.Json.{
  Json, null, bool, num, str, arr, obj, Items, nil, cons, Fields, end, field, put,
}

-- A container that is not closed yet: its items, or its entries and the key of the next one.
pub data Frame : Type 0 where
  items : Items → Frame
  fields : Fields → String → Frame

pub data Mode : Type 0 where
  -- before a value, where a list may close or not
  value : Bool → Mode
  -- before a key, where a dict may close or not
  key : Bool → Mode
  colon : Mode
  after : Mode
  -- the rest of `null`, `true` or `false`
  word : List ℕ → Json → Mode
  minus : Mode
  -- a sign, whether digits may follow, and the digits so far
  number : Bool → Bool → ℕ → Mode
  -- in a text, which may be a key: its code points, the last one first
  string : Bool → List ℕ → Mode
  escaped : Bool → List ℕ → Mode
  -- the hexadecimal digits that are missing, and what the others stand for
  hex : Bool → List ℕ → ℕ → ℕ → Mode

-- The containers around the place, the innermost first.
pub data State : Type 0 where
  reading : List Frame → Mode → State
  done : Json → State

abbrev pub snoc : Items → Json → Items
snoc nil x = cons x nil
snoc (cons y ys) x = cons y (snoc ys x)

-- A value is complete.
unfoldable pub deliver : Json → List Frame → State
deliver x [] = done x
deliver x (items xs ∷ frames) = reading (items (snoc xs x) ∷ frames) after
deliver x (fields fs k ∷ frames) = reading (fields (put k x fs) k ∷ frames) after

abbrev pub is_space : ℕ → Bool
is_space c = eqb c 32 || (eqb c 9 || (eqb c 10 || eqb c 13))

abbrev pub is_fraction : ℕ → Bool
is_fraction c = eqb c b'.' || (eqb c b'e' || eqb c b'E')

abbrev pub signed : Bool → ℕ → ℤ
signed false n = pos n
signed true zero = pos 0
signed true (suc n) = negsuc n

abbrev pub close_items : List Frame → Option State
close_items (items xs ∷ frames) = some (deliver (arr xs) frames)
close_items _ = none

abbrev pub close_fields : List Frame → Option State
close_fields (fields fs k ∷ frames) = some (deliver (obj fs) frames)
close_fields _ = none

-- `,` before the next item or key
abbrev pub next : List Frame → Option State
next (items xs ∷ frames) = some (reading (items xs ∷ frames) (value false))
next (fields fs k ∷ frames) = some (reading (fields fs k ∷ frames) (key false))
next [] = none

abbrev pub named : Option String → List Frame → Option State
named (some k) (fields fs j ∷ frames) = some (reading (fields fs k ∷ frames) colon)
named _ _ = none

abbrev pub delivered : Option String → List Frame → Option State
delivered (some s) frames = some (deliver (str s) frames)
delivered none frames = none

abbrev pub close_string : Bool → List ℕ → List Frame → Option State
close_string true buffer frames = named (text_of buffer "") frames
close_string false buffer frames = delivered (text_of buffer "") frames

abbrev pub begin_value : Bool → List Frame → ℕ → Option State
begin_value closing frames c =
    if is_space c
    then some (reading frames (value closing))
    else if eqb c b'"'
    then some (reading frames (string false []))
    else if eqb c b'{'
    then some (reading (fields end "" ∷ frames) (key true))
    else if eqb c b'['
    then some (reading (items nil ∷ frames) (value true))
    else if eqb c b'-'
    then some (reading frames minus)
    else if eqb c b'0'
    then some (reading frames (number false false 0))
    else if is_digit c
    then some (reading frames (number false true (c - b'0')))
    else if eqb c b't'
    then some (reading frames (word (codes "rue") (bool true)))
    else if eqb c b'f'
    then some (reading frames (word (codes "alse") (bool false)))
    else if eqb c b'n'
    then some (reading frames (word (codes "ull") null))
    else if closing && eqb c b']'
    then close_items frames
    else none

abbrev pub unit_done : Bool → List ℕ → ℕ → ℕ → Mode
unit_done is_key buffer zero u = string is_key (push_unit u buffer)
unit_done is_key buffer (suc left) u = hex is_key buffer left u

-- One character, but for the one that ends a number.
unfoldable pub step : List Frame → Mode → ℕ → Option State
unfolding deliver text_of
step frames (value closing) c = begin_value closing frames c
step frames (key closing) c =
    if is_space c
    then some (reading frames (key closing))
    else if eqb c b'"'
    then some (reading frames (string true []))
    else if closing && eqb c b'}'
    then close_fields frames
    else none
step frames colon c =
    if is_space c
    then some (reading frames colon)
    else if eqb c b':'
    then some (reading frames (value false))
    else none
step frames after c =
    if is_space c
    then some (reading frames after)
    else if eqb c b','
    then next frames
    else if eqb c b']'
    then close_items frames
    else if eqb c b'}'
    then close_fields frames
    else none
step frames (word [] x) c = none
step frames (word (w ∷ []) x) c = if eqb c w then some (deliver x frames) else none
step frames (word (w ∷ v ∷ ws) x) c =
    if eqb c w then some (reading frames (word (v ∷ ws) x)) else none
step frames minus c =
    if eqb c b'0'
    then some (reading frames (number true false 0))
    else if is_digit c
    then some (reading frames (number true true (c - b'0')))
    else none
step frames (number negative more n) c =
    if is_digit c then some (reading frames (number negative more (n * 10 + (c - b'0')))) else none
step frames (string is_key buffer) c =
    if eqb c b'"'
    then close_string is_key buffer frames
    else if eqb c b'\\'
    then some (reading frames (escaped is_key buffer))
    else if ltb c 32
    then none
    else some (reading frames (string is_key (c ∷ buffer)))
step frames (escaped is_key buffer) c =
    if eqb c b'u' then some (reading frames (hex is_key buffer 3 0)) else elim (unescape c) [
      | none ↦ none
      | some d ↦ some (reading frames (string is_key (d ∷ buffer)))
    ]
step frames (hex is_key buffer left u) c = elim (hex_value c) [
  | none ↦ none
  | some v ↦ some (reading frames (unit_done is_key buffer left (u * 16 + v)))
]

-- A number ends before a character that does not belong to it.
abbrev pub ends_number : Bool → ℕ → Bool
ends_number more c = not (more && is_digit c || is_fraction c)

abbrev pub settle : State → ℕ → State
settle (reading frames (number negative more n)) c =
    if ends_number more c
    then deliver (num (signed negative n)) frames
    else reading frames (number negative more n)
settle state c = state

-- A number also ends with the text.
abbrev pub completed : State → Option (Json × List ℕ)
completed (done x) = some (x, [])
completed (reading frames m) = none

abbrev pub finish : State → Option (Json × List ℕ)
finish (reading frames (number negative more n)) =
    completed (deliver (num (signed negative n)) frames)
finish state = completed state

-- The value at the head of the text, and what is left of it.
unfoldable pub run : State → List ℕ → Option (Json × List ℕ)
unfolding step deliver
run state [] = finish state
run state (c ∷ cs) = elim (settle state c) [
  | done x ↦ some (x, c ∷ cs)
  | reading frames m ↦ elim (step frames m c) [ none ↦ none | some state' ↦ run state' cs ]
]

abbrev pub all_space : List ℕ → Bool
all_space [] = true
all_space (c ∷ cs) = is_space c && all_space cs

abbrev pub start : State
start = reading [] (value false)

abbrev pub only : Option (Json × List ℕ) → Option Json
only none = none
only (some (x, rest)) = if all_space rest then some x else none

unfoldable pub loads : List ℕ → Option Json
unfolding run
loads text = only (run start text)

abbrev pub with_end : ℕ → Option (Json × List ℕ) → Option (Json × ℕ)
with_end n none = none
with_end n (some (x, rest)) = some (x, n - length rest)

-- `raw_decode` does not skip spaces before the value.
unfoldable pub raw_decode : List ℕ → Option (Json × ℕ)
unfolding run
raw_decode [] = none
raw_decode (c ∷ cs) = if is_space c then none else with_end (suc (length cs)) (run start (c ∷ cs))
