-- ===== src/Codec/Utf8.antt =====
-- UTF-8 as Python writes and reads it, without its error handlers.
use dlight_client.Common.{
  ◌≡◌, refl, ap, arith, ℕ, zero, suc, ◌+◌, ◌-◌, ◌*◌, ◌/◌, ◌%◌, Bool, true, not, ◌&&◌, Option, none,
  some, List, [], ◌∷◌, ◌++◌, ltb, leb, if◌then◌else◌,
}
use dlight_client.Codec.{IsAscii}

abbrev pub encode_char : ℕ → List ℕ
encode_char c =
    if ltb c 128
    then c ∷ []
    else if ltb c 2048
    then (192 + c / 64) ∷ (128 + c % 64) ∷ []
    else if ltb c 65536
    then (224 + c / 4096) ∷ (128 + c / 64 % 64) ∷ (128 + c % 64) ∷ []
    else (240 + c / 262144) ∷ (128 + c / 4096 % 64) ∷ (128 + c / 64 % 64) ∷ (128 + c % 64) ∷ []

unfoldable pub encode_utf8 : List ℕ → List ℕ
encode_utf8 [] = []
encode_utf8 (c ∷ cs) = encode_char c ++ encode_utf8 cs

abbrev pub is_surrogate : ℕ → Bool
is_surrogate c = leb 55296 c && leb c 57343

abbrev pub add_char : ℕ → Option (List ℕ) → Option (List ℕ)
add_char c none = none
add_char c (some cs) = some (c ∷ cs)

-- How many bytes of a character are missing, what the others stand for, and the least character that
-- may be written in so many bytes.
unfoldable pub decode_from : ℕ → ℕ → ℕ → List ℕ → Option (List ℕ)
decode_from zero acc least [] = some []
decode_from (suc missing) acc least [] = none
decode_from zero acc least (b ∷ bs) =
    let one = add_char b (decode_from 0 0 0 bs) in
    let two = decode_from 1 (b - 192) 128 bs in
    let three = decode_from 2 (b - 224) 2048 bs in
    let four = decode_from 3 (b - 240) 65536 bs in
    if ltb b 128
    then one
    else if leb 194 b && ltb b 224
    then two
    else if leb 224 b && ltb b 240
    then three
    else if leb 240 b && ltb b 245
    then four
    else none
decode_from (suc zero) acc least (b ∷ bs) =
    let c = acc * 64 + (b - 128) in
    let rest = add_char c (decode_from 0 0 0 bs) in
    if leb 128 b && ltb b 192 && (leb least c && ltb c 1114112 && not (is_surrogate c))
    then rest
    else none
decode_from (suc (suc missing)) acc least (b ∷ bs) =
    let rest = decode_from (suc missing) (acc * 64 + (b - 128)) least bs in
    if leb 128 b && ltb b 192 then rest else none

unfoldable pub decode_utf8 : List ℕ → Option (List ℕ)
unfolding decode_from
decode_utf8 bytes = decode_from 0 0 0 bytes

pub encode_utf8_ascii : (text : List ℕ) → IsAscii text → encode_utf8 text ≡ text
unfolding encode_utf8
encode_utf8_ascii [] a = refl
encode_utf8_ascii (c ∷ cs) a =
    let low : ltb c 128 ≡ true = ground (arith, a.0) in
    rw low (ap (λ bs. c ∷ bs) (encode_utf8_ascii cs a.1))

decode_from_ascii : (bytes : List ℕ) → IsAscii bytes → decode_from 0 0 0 bytes ≡ some bytes
unfolding decode_from
decode_from_ascii [] a = refl
decode_from_ascii (b ∷ bs) a =
    let low : ltb b 128 ≡ true = ground (arith, a.0) in
    rw low (ap (add_char b) (decode_from_ascii bs a.1))

pub decode_utf8_ascii : (bytes : List ℕ) → IsAscii bytes → decode_utf8 bytes ≡ some bytes
unfolding decode_utf8
decode_utf8_ascii bytes a = decode_from_ascii bytes a
