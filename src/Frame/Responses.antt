-- ===== src/Frame/Responses.antt =====
-- An answer that the sender encoded is read back.
use mathlib.Core.List.{append_assoc}
use dlight_client.Common.{ℕ, ◌≤◌, ◌<◌, ◌≡◌, refl, Option, true, false, List, ◌++◌, arith, length}
use dlight_client.Errors.{ok}
use dlight_client.Json.{Json, obj, Fields, get}
use dlight_client.Models.{max_payload_size}
use dlight_client.Codec.{Codec, Carries}
use dlight_client.Frame.{
  pack_length, Ending, Stream, read_exactly, is_echo, is_success, validate, encode_response,
  decode_payload, read_payload, read_body, read_response,
}
use dlight_client.Frame.Prefix.{unpack_length-pack_length, length-pack_length, read_exactly-append}

decode_payload_carried :
    (codec : Codec) (x : Json) (text : List ℕ)
    → Carries codec x text
    → decode_payload codec (codec.encode_utf8 text) ≡ ok x
unfolding decode_payload
decode_payload_carried codec x text c =
    rw (c.survives, decode_payload) (rw (c.loaded, decode_payload) refl)

-- A decoded payload passes the checks as it stands.
validate-obj :
    (command : Option Fields) (response : Fields)
    → is_success (get "status" response) ≡ true
    → is_echo (obj response) command ≡ false
    → validate command (obj response) ≡ ok response
unfolding validate
validate-obj command response success differs = rw (differs, success) refl

-- The bytes that `encode_response` sends.
encode_response_bytes :
    (codec : Codec) (payload : Fields) (text frame : List ℕ)
    → Carries codec (obj payload) text
    → length (codec.encode_utf8 text) ≤ max_payload_size
    → encode_response codec payload ≡ ok frame
    → frame ≡ pack_length (length (codec.encode_utf8 text)) ++ codec.encode_utf8 text
unfolding encode_response
encode_response_bytes codec payload text frame c fits sent = ground (arith, c.dumped)

module _ (codec : Codec) (command : Option Fields) where
  read_body_fitting :
      (n : ℕ) (bytes : List ℕ) (ending : Ending)
      → 0 < n
      → n ≤ max_payload_size
      → let s : Stream = record { bytes = bytes; ending = ending } in
        read_body codec command n s ≡ read_payload codec command (read_exactly n s)
  read_body_fitting n bytes ending some_body fits = ground arith

  -- A reply that the sender encoded is read back as it was sent, if it reports success, is not
  -- empty, is no longer than the limit, and does not equal the command. Exactly its frame is taken
  -- from the stream: what follows it, and the way the stream ends, is left.
  pub read_response-encode_response :
      (payload : Fields) (text frame rest : List ℕ) (ending : Ending)
      → Carries codec (obj payload) text
      → 0 < length (codec.encode_utf8 text)
      → length (codec.encode_utf8 text) ≤ max_payload_size
      → is_success (get "status" payload) ≡ true
      → is_echo (obj payload) command ≡ false
      → encode_response codec payload ≡ ok frame
      → read_response codec command (record { bytes = frame ++ rest; ending = ending })
        ≡ (ok payload, record { bytes = rest; ending = ending })
  unfolding read_response
  read_response-encode_response payload text frame rest ending c some_body fits success differs
        sent =
      let body : List ℕ = codec.encode_utf8 text in
      rw (encode_response_bytes codec payload text frame c fits sent) (
        rw (append_assoc (pack_length (length body)) body rest) (
          rw
            (read_exactly-append 4 (pack_length (length body)) (body ++ rest) ending
              (length-pack_length _))
            (rw (unpack_length-pack_length (length body) (omega arith)) (
              rw (read_body_fitting (length body) (body ++ rest) ending some_body fits) (
                rw (read_exactly-append (length body) body rest ending refl) (
                  rw (decode_payload_carried codec (obj payload) text c)
                    (rw (validate-obj command payload success differs) refl)))))))
