-- ===== src/Codec/Printer.antt =====
-- What `json.dumps` writes: ASCII, with the default separators and escapes.
pub mod Ascii
use Prim.Native.Char.{Char, code}
use Prim.Native.String.{String}
use dlight_client.Common.{
  ℕ, suc, ◌+◌, ◌-◌, ◌/◌, ◌%◌, Bool, true, false, List, [], ◌∷◌, ◌++◌, ℤ, pos, negsuc, decimal,
  codes, ltb, leb, eqb, if◌then◌else◌, ◌&&◌, ◌||◌,
}
use dlight_client.Json.{Json, null, bool, num, str, arr, obj, Items, nil, cons, Fields, end, field}

abbrev pub hex_digit : ℕ → ℕ
hex_digit d = if ltb d 10 then d + b'0' else d - 10 + b'a'

-- '\\u{0:04x}'
abbrev pub unicode_escape : ℕ → List ℕ
unicode_escape u =
    b'\\'
    ∷ b'u'
    ∷ hex_digit (u / 4096 % 16)
    ∷ hex_digit (u / 256 % 16)
    ∷ hex_digit (u / 16 % 16)
    ∷ hex_digit (u % 16)
    ∷ []

-- A character above U+FFFF is written as a surrogate pair.
abbrev pub long_escape : ℕ → List ℕ
long_escape c =
    if ltb c 65536
    then unicode_escape c
    else unicode_escape (55296 + (c - 65536) / 1024) ++ unicode_escape (56320 + (c - 65536) % 1024)

abbrev pub is_plain : ℕ → Bool
is_plain c = leb 32 c && leb c 126

unfoldable pub escape : ℕ → List ℕ
escape c =
    if eqb c b'"'
    then b'\\' ∷ b'"' ∷ []
    else if eqb c b'\\'
    then b'\\' ∷ b'\\' ∷ []
    else if is_plain c
    then c ∷ []
    else if eqb c 10
    then b'\\' ∷ b'n' ∷ []
    else if eqb c 13
    then b'\\' ∷ b'r' ∷ []
    else if eqb c 9
    then b'\\' ∷ b't' ∷ []
    else if eqb c 12
    then b'\\' ∷ b'f' ∷ []
    else if eqb c 8
    then b'\\' ∷ b'b' ∷ []
    else long_escape c

unfoldable pub escape_all : String → List ℕ
unfolding escape
escape_all String.[] = []
escape_all (String.◌∷◌ c s) = escape (code c) ++ escape_all s

abbrev pub quoted : String → List ℕ
quoted s = b'"' ∷ escape_all s ++ b'"' ∷ []

abbrev pub number_text : ℤ → List ℕ
number_text (pos n) = decimal n
number_text (negsuc n) = b'-' ∷ decimal (suc n)

unfoldable mutual
  unfolding escape_all decimal

  pub print : Json → List ℕ
  print null = codes "null"
  print (bool true) = codes "true"
  print (bool false) = codes "false"
  print (num z) = number_text z
  print (str s) = quoted s
  print (arr nil) = codes "[]"
  print (arr (cons x xs)) = b'[' ∷ (print x ++ print_items xs)
  print (obj end) = codes "{}"
  print (obj (field k v fs)) = b'{' ∷ (quoted k ++ b':' ∷ b' ' ∷ (print v ++ print_fields fs))

  -- the items after the first, and the end of the list
  pub print_items : Items → List ℕ
  print_items nil = b']' ∷ []
  print_items (cons x xs) = b',' ∷ b' ' ∷ (print x ++ print_items xs)

  pub print_fields : Fields → List ℕ
  print_fields end = b'}' ∷ []
  print_fields (field k v fs) =
      b',' ∷ b' ' ∷ (quoted k ++ b':' ∷ b' ' ∷ (print v ++ print_fields fs))
