-- ===== src/Codec.antt =====
-- What the package uses of Python's `json` module and of UTF-8, as an interface.
-- A text is the list of its code points, and bytes are a list of numbers.
pub mod Printer
pub mod Characters
pub mod Reader
pub mod Utf8
pub mod Python
use dlight_client.Common.{ℕ, ◌≡◌, ◌<◌, Option, none, some, List, ◌++◌, All, length, take}
use dlight_client.Errors.{Result, ok}
use dlight_client.Json.{Json}

pub record Codec : Type 0 where
  -- `json.dumps(x)`; `none` is a `TypeError`
  pub dumps : Json → Option (List ℕ)
  -- `json.loads(text)`; it may raise more than a `JSONDecodeError`: a `ValueError` for an integer of
  -- too many digits, a `RecursionError` for too many brackets
  pub loads : List ℕ → Result Json
  -- `json.JSONDecoder().raw_decode(text)`: the value at the head of the text and where it ends
  pub raw_decode : List ℕ → Option (Json × ℕ)
  -- `text.encode("utf-8")`
  pub encode_utf8 : List ℕ → List ℕ
  -- `bytes.decode("utf-8")`; `none` is a `UnicodeDecodeError`
  pub decode_utf8 : List ℕ → Option (List ℕ)

-- The codec carries the value over the wire as this text: it is what `dumps` makes of the value,
-- it survives UTF-8, and `loads` reads the value back.
pub record Carries (codec : Codec) (x : Json) (text : List ℕ) : Type 0 where
  pub dumped : codec.dumps x ≡ some text
  pub survives : codec.decode_utf8 (codec.encode_utf8 text) ≡ some text
  pub loaded : codec.loads text ≡ ok x

abbrev pub IsAscii : List ℕ → Type 0
IsAscii text = All (λ b. b < 128) text

-- What the codec does with ASCII, and with a value whose text shows its own end, as that of a dict
-- does: `dumps` writes ASCII, `raw_decode` reads the value at the head of any ASCII text and fails on
-- a part of it.
pub record Delimits (codec : Codec) (x : Json) (text : List ℕ) : Type 0 where
  pub dumped : codec.dumps x ≡ some text
  pub ascii : IsAscii text
  pub not_empty : 0 < length text
  pub complete :
      (rest : List ℕ) → IsAscii rest → codec.raw_decode (text ++ rest) ≡ some (x, length text)
  pub partial : (n : ℕ) → 0 < n → n < length text → codec.raw_decode (take n text) ≡ none

-- UTF-8 is ASCII on ASCII.
pub record IsUtf8 (codec : Codec) : Type 0 where
  pub encode_ascii : (text : List ℕ) → IsAscii text → codec.encode_utf8 text ≡ text
  pub decode_ascii : (bytes : List ℕ) → IsAscii bytes → codec.decode_utf8 bytes ≡ some bytes
