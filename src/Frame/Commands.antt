-- ===== src/Frame/Commands.antt =====
-- `decode_command` of _frame.py: it finds the end of a command, and not before it is there.
use dlight_client.Common.{
  ℕ, zero, suc, ◌≡◌, ◌<◌, refl, ap, ◌∙◌, some, none, List, [], ◌∷◌, ◌++◌, All-append, length,
  length-append, take, drop, take-length_append, drop-length_append, arith,
}
use dlight_client.Errors.{ok}
use dlight_client.Json.{Json, obj, Fields}
use dlight_client.Codec.{Codec, IsAscii, Delimits, IsUtf8}
use dlight_client.Frame.{decode_command, parse_command, encode_command}

pub IsAscii-take : (n : ℕ) (text : List ℕ) → IsAscii text → IsAscii (take n text)
IsAscii-take zero text h = tt
IsAscii-take (suc n) [] h = tt
IsAscii-take (suc n) (b ∷ text) h = (h.0, IsAscii-take n text h.1)

pub IsAscii-prefix : (xs ys : List ℕ) → IsAscii (xs ++ ys) → IsAscii xs
IsAscii-prefix [] ys h = tt
IsAscii-prefix (x ∷ xs) ys h = (h.0, IsAscii-prefix xs ys h.1)

pub IsAscii-suffix : (xs ys : List ℕ) → IsAscii (xs ++ ys) → IsAscii ys
IsAscii-suffix [] ys h = h
IsAscii-suffix (x ∷ xs) ys h = IsAscii-suffix xs ys h.1

take-IsNotEmpty : (n : ℕ) (text : List ℕ) → 0 < length text → 0 < length (take (suc n) text)
take-IsNotEmpty n [] h = h
take-IsNotEmpty n (b ∷ text) h = omega arith

module _ (codec : Codec) (utf8 : IsUtf8 codec) where
  -- A buffer that is not empty is decoded as a text first.
  decode_command-ascii :
      (buffer : List ℕ)
      → 0 < length buffer
      → IsAscii buffer
      → decode_command codec buffer ≡ parse_command codec buffer (some buffer)
  unfolding decode_command
  decode_command-ascii [] h a = absurd (omega arith)
  decode_command-ascii (b ∷ bs) h a =
      ap (parse_command codec (b ∷ bs)) (utf8.decode_ascii (b ∷ bs) a)

  parse_command-some :
      (x : Json) (n : ℕ) (buffer text : List ℕ)
      → codec.raw_decode text ≡ some (x, n)
      → parse_command codec buffer (some text)
        ≡ (some x, drop (length (codec.encode_utf8 (take n text))) buffer)
  parse_command-some x n buffer text e = ground arith

  parse_command-none :
      (buffer text : List ℕ)
      → codec.raw_decode text ≡ none
      → parse_command codec buffer (some text) ≡ (none, buffer)
  parse_command-none buffer text e = ground arith

  -- What `raw_decode` has read is cut off, whatever follows it.
  drop-read :
      (text rest : List ℕ)
      → IsAscii text
      → drop (length (codec.encode_utf8 (take (length text) (text ++ rest)))) (text ++ rest) ≡ rest
  drop-read text rest a =
      rw (take-length_append text rest, utf8.encode_ascii text a) (drop-length_append text rest)

  pub decode_command_complete :
      (x : Json) (text rest : List ℕ)
      → Delimits codec x text
      → IsAscii rest
      → decode_command codec (text ++ rest) ≡ (some x, rest)
  decode_command_complete x text rest d a =
      decode_command-ascii (text ++ rest) (omega (arith, d.not_empty, length-append text rest))
        (All-append (λ b. b < 128) text rest d.ascii a)
      ∙ (parse_command-some x (length text) (text ++ rest) (text ++ rest) (d.complete rest a)
          ∙ ap (λ left. (some x, left)) (drop-read text rest d.ascii))

  pub decode_command_partial :
      (x : Json) (text : List ℕ) (n : ℕ)
      → Delimits codec x text
      → n < length text
      → decode_command codec (take n text) ≡ (none, take n text)
  unfolding decode_command
  decode_command_partial x text zero d h = refl
  decode_command_partial x text (suc n) d h =
      decode_command-ascii (take (suc n) text) (take-IsNotEmpty n text (omega arith))
        (IsAscii-take (suc n) text d.ascii)
      ∙ parse_command-none (take (suc n) text) (take (suc n) text)
          (d.partial (suc n) (omega arith) h)

-- A command that the client encodes is read back from the head of a buffer, whatever ASCII follows it,
-- and exactly its bytes are removed; and while a part of it is missing nothing is read or removed.
pub decode_command-encode_command :
    (codec : Codec) (command : Fields) (text rest : List ℕ) (n : ℕ)
    → IsUtf8 codec
    → Delimits codec (obj command) text
    → IsAscii rest
    → n < length text
    → (encode_command codec command ≡ ok text)
      × (decode_command codec (text ++ rest) ≡ (some (obj command), rest))
      × (decode_command codec (take n text) ≡ (none, take n text))
unfolding encode_command
decode_command-encode_command codec command text rest n utf8 d a h = (
  encoded (utf8.encode_ascii text d.ascii),
  decode_command_complete codec utf8 (obj command) text rest d a,
  decode_command_partial codec utf8 (obj command) text n d h,
)
  where
    encoded : codec.encode_utf8 text ≡ text → encode_command codec command ≡ ok text
    encoded e = ground (arith, d.dumped)
