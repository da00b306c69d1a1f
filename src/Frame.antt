-- ===== src/Frame.antt =====
-- _frame.py: the wire format. Commands are bare JSON; responses are a 4-byte big-endian length
-- and as many bytes of JSON.
pub mod Masking
pub mod Prefix
pub mod Responses
pub mod Failures
pub mod Commands
pub mod Exchange
use dlight_client.Common.{
  ℕ, ◌+◌, ◌*◌, ◌/◌, ◌%◌, ◌^◌, String, Option, none, some, Bool, true, false, not, ◌&&◌, ◌||◌, List,
  [], ◌∷◌, ◌++◌, leb, ltb, eqb, is_some, length, take, drop, if◌then◌else◌,
}
use dlight_client.Errors.{
  json_decode_error, Error, timeout_error, connection_error, response_error, command_error,
  type_error, unexpected, attribute_error, Result, ok, err, and_then,
}
use dlight_client.Json.{Json, null, str, obj, Fields, get, put, json_eq, as_dict}
use dlight_client.Models.{max_payload_size, status_success, acknowledged}
use dlight_client.Codec.{Codec}

abbrev pub masked_value : Json
masked_value = str "********"

abbrev pub mask_key : String → Fields → Fields
mask_key key command = if is_some (get key command) then put key masked_value command else command

-- `mask_command`, over `_SENSITIVE_KEYS`
unfoldable pub mask_command : Fields → Fields
mask_command command =
    if not (is_some (get "password" command) || is_some (get "ssid" command))
    then command
    else mask_key "ssid" (mask_key "password" command)

-- `struct.pack(">I", n)` for n < 2 ** 32
unfoldable pub pack_length : ℕ → List ℕ
pack_length n = (n / 2 ^ 24) % 256 ∷ (n / 2 ^ 16) % 256 ∷ (n / 2 ^ 8) % 256 ∷ n % 256 ∷ []

-- `struct.unpack(">I", header)[0]`
unfoldable pub unpack_length : List ℕ → ℕ
unpack_length (a ∷ b ∷ c ∷ d ∷ []) = a * 2 ^ 24 + b * 2 ^ 16 + c * 2 ^ 8 + d
unpack_length _ = 0

-- What a reader will yet see: the bytes that arrive before the timeout, the end of the stream or
-- a network error, and which of the three comes after them.
pub data Ending : Type 0 where
  stalled closed broken : Ending

pub record Stream : Type 0 where
  pub bytes : List ℕ
  pub ending : Ending

pub data Read : Type 0 where
  got : List ℕ → Read
  timed_out incomplete failed : Read

abbrev pub short_read : Ending → Read
short_read stalled = timed_out
short_read closed = incomplete
short_read broken = failed

-- An incomplete read at the end of the stream clears the buffer; a timeout leaves it.
abbrev pub left_after : Ending → List ℕ → List ℕ
left_after closed bytes = []
left_after _ bytes = bytes

-- `asyncio.wait_for(reader.readexactly(n), timeout)`
unfoldable pub read_exactly : ℕ → Stream → Read × Stream
read_exactly n s =
    if leb n (length s.bytes)
    then (got (take n s.bytes), record s { bytes = drop n s.bytes })
    else (short_read s.ending, record s { bytes = left_after s.ending s.bytes })

-- The `except` clauses round both reads.
abbrev pub read_error : Read → Error
read_error timed_out = timeout_error
read_error incomplete = response_error
read_error _ = connection_error

-- `command is not None and response == command`
abbrev pub is_echo : Json → Option Fields → Bool
is_echo response none = false
is_echo response (some command) = json_eq response (obj command)

-- `status != STATUS_SUCCESS`; a missing status is `None`
abbrev pub is_success : Option Json → Bool
is_success none = false
is_success (some status) = json_eq status (str status_success)

unfoldable pub check_status : Fields → Result Fields
check_status fs = if is_success (get "status" fs) then ok fs else err response_error

-- The checks on a decoded payload.
unfoldable pub validate : Option Fields → Json → Result Fields
unfolding check_status
validate command response =
    if is_echo response command
    then err response_error
    else and_then (as_dict response) check_status

-- `except json.JSONDecodeError`; other errors of `json.loads` go through.
abbrev pub is_decode_error : Error → Bool
is_decode_error json_decode_error = true
is_decode_error _ = false

abbrev pub caught : Result Json → Result Json
caught (ok x) = ok x
caught (err e) = err (if is_decode_error e then response_error else e)

module _ (codec : Codec) where
  unfoldable pub encode_command : Fields → Result (List ℕ)
  encode_command command = elim (codec.dumps (obj command)) [
    | none ↦ err command_error
    | some text ↦ ok (codec.encode_utf8 text)
  ]

  -- `struct.pack` refuses a length of 2 ** 32 or more.
  unfoldable pub encode_response : Fields → Result (List ℕ)
  unfolding pack_length
  encode_response payload = elim (codec.dumps (obj payload)) [
    | none ↦ err type_error
    | some text ↦
        let body = codec.encode_utf8 text in
        if ltb (length body) (2 ^ 32)
        then ok (pack_length (length body) ++ body)
        else err unexpected
  ]

  abbrev pub parse_command : List ℕ → Option (List ℕ) → Option Json × List ℕ
  parse_command buffer none = (none, buffer)
  parse_command buffer (some text) = elim (codec.raw_decode text) [
    | none ↦ (none, buffer)
    | some (command, end_at) ↦
        (some command, drop (length (codec.encode_utf8 (take end_at text))) buffer)
  ]

  -- Returns the command and what is left in the buffer.
  unfoldable pub decode_command : List ℕ → Option Json × List ℕ
  decode_command [] = (none, [])
  decode_command (b ∷ buffer) = parse_command (b ∷ buffer) (codec.decode_utf8 (b ∷ buffer))

  -- `json.loads(payload_bytes.decode("utf-8"))` and its two `except` clauses
  unfoldable pub decode_payload : List ℕ → Result Json
  decode_payload bytes = elim (codec.decode_utf8 bytes) [
    | none ↦ err response_error
    | some text ↦ caught (codec.loads text)
  ]

  abbrev pub read_payload : Option Fields → Read × Stream → Result Fields × Stream
  read_payload command (got bytes, s) = (and_then (decode_payload bytes) (validate command), s)
  read_payload command (failure, s) = (err (read_error failure), s)

  abbrev pub read_body : Option Fields → ℕ → Stream → Result Fields × Stream
  read_body command n s =
      if ltb max_payload_size n
      then (err response_error, s)
      else if eqb n 0
      then (ok acknowledged, s)
      else read_payload command (read_exactly n s)

  abbrev pub read_header : Option Fields → Read × Stream → Result Fields × Stream
  read_header command (got header, s) = read_body command (unpack_length header) s
  read_header command (failure, s) = (err (read_error failure), s)

  unfoldable pub read_response : Option Fields → Stream → Result Fields × Stream
  read_response command s = read_header command (read_exactly 4 s)
