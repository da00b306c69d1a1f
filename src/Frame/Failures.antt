-- ===== src/Frame/Failures.antt =====
-- What `read_response` returns and raises, and how far it reads.
use dlight_client.Common.{
  ◌⊎◌, Option-cases, none, some, false, sym, ap, ◌∙◌, ℕ, ◌+◌, ◌≤◌, ◌≡◌, inl, inr, refl, Option,
  List, arith, ltb, eqb, length, length-drop, Bool-cases, true,
}
use dlight_client.Errors.{
  Error, timeout_error, connection_error, response_error, attribute_error, Result, ok, err,
  and_then,
}
use dlight_client.Json.{as_dict, Json, obj, Fields, get, json_eq}
use dlight_client.Models.{max_payload_size}
use dlight_client.Codec.{Codec}
use dlight_client.Frame.{
  is_decode_error, caught, is_echo, check_status, unpack_length, Stream, Read, got, timed_out,
  incomplete, failed, read_exactly, validate, decode_payload, read_payload, read_body, read_header,
  read_response, is_success,
}

-- `read_response` raises these, and nothing else.
abbrev pub IsReadError : Error → Type 0
IsReadError timeout_error = Unit {0}
IsReadError connection_error = Unit
IsReadError response_error = Unit
IsReadError attribute_error = Unit
IsReadError _ = ⊥

-- What `json.loads` raises for some text, and `read_response` does not catch.
abbrev pub IsUncaught : Codec → Error → Type 0
IsUncaught codec e = (text : List ℕ) × (codec.loads text ≡ err e) × (is_decode_error e ≡ false)

-- What `read_response` comes to: a response that reports success, or one of these errors.
abbrev pub IsOutcome : Codec → Result Fields → Type 0
IsOutcome codec (ok response) = is_success (get "status" response) ≡ true
IsOutcome codec (err e) = IsReadError e ⊎ IsUncaught codec e

checked-IsOutcome : (codec : Codec) (x : Json) → IsOutcome codec (and_then (as_dict x) check_status)
unfolding check_status
checked-IsOutcome codec (obj fs) = elim (Bool-cases (is_success (get "status" fs))) [
  | inl success ↦ rw success success
  | inr other ↦ rw other (inl tt)
]
checked-IsOutcome codec _ = inl tt

validate-IsOutcome :
    (codec : Codec) (command : Option Fields) (x : Json) → IsOutcome codec (validate command x)
unfolding validate
validate-IsOutcome codec command x = elim (Bool-cases (is_echo x command)) [
  | inl echo ↦ rw echo (inl tt)
  | inr differs ↦ rw differs (checked-IsOutcome codec x)
]

err_injective : {a b : Error} → ◌≡◌ {A = Result Json} (err a) (err b) → a ≡ b
err_injective h = cc

caught_error :
    (codec : Codec) (text : List ℕ) (r : Result Json) (e : Error)
    → codec.loads text ≡ r
    → caught r ≡ err e
    → (e ≡ response_error) ⊎ IsUncaught codec e
caught_error codec text (ok x) e l h = absurd (cc h)
caught_error codec text (err x) e l h = elim (Bool-cases (is_decode_error x)) [
  | inl decoding ↦ inl (sym (err_injective h) ∙ rw decoding refl)
  | inr other ↦
      let same : x ≡ e = sym (rw other refl) ∙ err_injective h in
      inr (text, l ∙ ap err same, ap is_decode_error (sym same) ∙ other)
]

abbrev decoded : Codec → Option (List ℕ) → Result Json
decoded codec none = err response_error
decoded codec (some text) = caught (codec.loads text)

decode_payload_error :
    (codec : Codec) (bytes : List ℕ) (e : Error)
    → decode_payload codec bytes ≡ err e
    → (e ≡ response_error) ⊎ IsUncaught codec e
unfolding decode_payload
decode_payload_error codec bytes e h = elim (Option-cases (codec.decode_utf8 bytes)) [
  | inl bad ↦ inl (sym (err_injective (sym (ap (decoded codec) bad) ∙ h)))
  | inr (text, good) ↦
      caught_error codec text (codec.loads text) e refl (sym (ap (decoded codec) good) ∙ h)
]

and_then-IsOutcome :
    (codec : Codec) (command : Option Fields) (r : Result Json)
    → ((e : Error) → r ≡ err e → (e ≡ response_error) ⊎ IsUncaught codec e)
    → IsOutcome codec (and_then r (validate command))
and_then-IsOutcome codec command (ok x) h = validate-IsOutcome codec command x
and_then-IsOutcome codec command (err e) h = elim (h e refl) [
  | inl response ↦ inl (rw response tt)
  | inr uncaught ↦ inr uncaught
]

read_exactly_taken : (n : ℕ) (s : Stream) → length s.bytes ≤ length (read_exactly n s).1.bytes + n
unfolding read_exactly
read_exactly_taken n s = ground (arith, length-drop n s.bytes)

-- What a part of `read_response` did to a stream that had `n` bytes: it failed in an expected way
-- if at all, and took no more than `limit` of them.
abbrev Within : Codec → ℕ → ℕ → Result Fields × Stream → Type 0
Within codec n limit (r, s) = IsOutcome codec r × (n ≤ length s.bytes + limit)

module _ (codec : Codec) (command : Option Fields) where
  read_payload-Within :
      (n limit : ℕ) (r : Read × Stream)
      → n ≤ length r.1.bytes + limit
      → Within codec n limit (read_payload codec command r)
  read_payload-Within n limit (got bytes, s) h = (
    and_then-IsOutcome codec command (decode_payload codec bytes)
        (decode_payload_error codec bytes),
    h,
  )
  read_payload-Within n limit (timed_out, s) h = (inl tt, h)
  read_payload-Within n limit (incomplete, s) h = (inl tt, h)
  read_payload-Within n limit (failed, s) h = (inl tt, h)

  read_body-Within :
      (n : ℕ) (s : Stream)
      → Within codec (length s.bytes) max_payload_size (read_body codec command n s)
  unfolding json_eq get
  read_body-Within n s = elim (Bool-cases (ltb max_payload_size n)) [
    | inl long ↦ rw long (inl tt, omega arith)
    | inr fits ↦ elim (Bool-cases (eqb n 0)) [
      | inl empty ↦ rw (fits, empty) (refl, omega arith)
      | inr some_body ↦
          rw (fits, some_body)
            (read_payload-Within (length s.bytes) max_payload_size (read_exactly n s)
              (ground (arith, read_exactly_taken n s)))
    ]
  ]

  widen :
      (n m limit more : ℕ) (x : Result Fields × Stream)
      → n ≤ m + more
      → Within codec m limit x
      → Within codec n (limit + more) x
  widen n m limit more (r, s) h w = (w.0, omega arith)

  read_header-Within :
      (n : ℕ) (r : Read × Stream)
      → n ≤ length r.1.bytes + 4
      → Within codec n (max_payload_size + 4) (read_header codec command r)
  read_header-Within n (got header, s) h =
      widen n (length s.bytes) max_payload_size 4 (read_body codec command (unpack_length header) s)
        h (read_body-Within (unpack_length header) s)
  read_header-Within n (timed_out, s) h = (inl tt, omega arith)
  read_header-Within n (incomplete, s) h = (inl tt, omega arith)
  read_header-Within n (failed, s) h = (inl tt, omega arith)

  -- Whatever arrives, and however the stream ends: `read_response` returns a response with the status
  -- SUCCESS, or fails by a timeout, a network error, a response error, the `AttributeError` of a
  -- payload that is no dict, or an error other than a `JSONDecodeError` that `json.loads` raises for
  -- some text; and it takes at most a header and the largest allowed payload from the
  -- stream, also when it fails.
  pub read_response-IsOutcome :
      (s : Stream)
      → IsOutcome codec (read_response codec command s).0
        × (length s.bytes ≤ length (read_response codec command s).1.bytes + (max_payload_size + 4))
  unfolding read_response
  read_response-IsOutcome s =
      read_header-Within (length s.bytes) (read_exactly 4 s) (read_exactly_taken 4 s)
