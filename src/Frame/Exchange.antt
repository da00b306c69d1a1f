-- ===== src/Frame/Exchange.antt =====
-- _frame.py over Python's own `json` and UTF-8: what one side encodes the other side reads.
use mathlib.Core.Path.{subst}
use dlight_client.Common.{
  ℕ, ◌≡◌, ◌<◌, ◌≤◌, ◌^◌, sym, ap, ◌∙◌, arith, true, false, Option, none, some, List, ◌++◌, length,
  take, ltb, if◌then◌else◌,
}
use dlight_client.Errors.{Result, ok, err, unexpected}
use dlight_client.Json.{obj, Fields, get}
use dlight_client.Json.Equality.{IsUnique}
use dlight_client.Models.{max_payload_size}
use dlight_client.Codec.{IsAscii}
use dlight_client.Codec.Printer.{print}
use dlight_client.Codec.Printer.Ascii.{print-IsAscii}
use dlight_client.Codec.Utf8.{encode_utf8, encode_utf8_ascii}
use dlight_client.Codec.Python.{python, python-IsUtf8, python-Carries, python-Delimits}
use dlight_client.Frame.{
  Ending, is_echo, is_success, pack_length, encode_command, encode_response, decode_command,
  read_response,
}
use dlight_client.Frame.Commands.{decode_command-encode_command}
use dlight_client.Frame.Responses.{read_response-encode_response}

-- The client's bytes for a command are its text.
pub encode_command-python :
    (command : Fields) → encode_command python command ≡ ok (print (obj command))
unfolding encode_command
encode_command-python command =
    ap ok (encode_utf8_ascii (print (obj command)) (print-IsAscii (obj command)))

-- The bytes of a short answer.
abbrev pub framed : Fields → List ℕ
framed reply = pack_length (length (print (obj reply))) ++ print (obj reply)

abbrev packed : List ℕ → Result (List ℕ)
packed body =
    if ltb (length body) (2 ^ 32) then ok (pack_length (length body) ++ body) else err unexpected

pub encode_response-python :
    (reply : Fields)
    → length (print (obj reply)) ≤ max_payload_size
    → encode_response python reply ≡ ok (framed reply)
unfolding encode_response
encode_response-python reply fits =
    let small : ltb (length (print (obj reply))) (2 ^ 32) ≡ true = ground arith in
    ap packed (encode_utf8_ascii (print (obj reply)) (print-IsAscii (obj reply)))
    ∙ ap (λ b. if b then ok (framed reply) else err unexpected) small

-- Over Python's `json`, without the interpreter's limits on digits and depth, and UTF-8: the text of
-- any command without repeated keys is read back from the head of a buffer, whatever ASCII follows it,
-- and exactly its bytes are removed; while a part of it is missing nothing is read or removed.
pub command_received :
    (command : Fields) (rest : List ℕ) (n : ℕ)
    → IsUnique (obj command)
    → IsAscii rest
    → n < length (print (obj command))
    → (encode_command python command ≡ ok (print (obj command)))
      × (decode_command python (print (obj command) ++ rest) ≡ (some (obj command), rest))
      × (decode_command python (take n (print (obj command)))
          ≡ (none, take n (print (obj command))))
command_received command rest n u a h =
    decode_command-encode_command python command (print (obj command)) rest n python-IsUtf8
      (python-Delimits command u) a h

-- Over Python's `json`, without the interpreter's limits on digits and depth, and UTF-8: an answer
-- without repeated keys that reports success, is no longer than the limit, and does not equal the
-- command, is read back as it was sent, and exactly its frame is taken from the stream.
pub response_received :
    (command : Option Fields) (reply : Fields) (rest : List ℕ) (ending : Ending)
    → IsUnique (obj reply)
    → length (print (obj reply)) ≤ max_payload_size
    → is_success (get "status" reply) ≡ true
    → is_echo (obj reply) command ≡ false
    → (encode_response python reply ≡ ok (framed reply))
      × (read_response python command (record { bytes = framed reply ++ rest; ending = ending })
          ≡ (ok reply, record { bytes = rest; ending = ending }))
response_received command reply rest ending u fits success differs =
    let text : List ℕ = print (obj reply) in
    let same : encode_utf8 text ≡ text = encode_utf8_ascii text (print-IsAscii (obj reply)) in
    (
      encode_response-python reply fits,
      read_response-encode_response python command reply text (framed reply) rest ending
          (python-Carries (obj reply) u)
          (subst (λ t. 0 < length t) (sym same) (python-Delimits reply u).not_empty)
          (subst (λ t. length t ≤ max_payload_size) (sym same) fits) success differs
          (encode_response-python reply fits),
    )
