-- ===== src/Examples/Conversations.antt =====
-- A codec that knows one command and one reply, and a lamp that is sent the command twice, in three
-- chunks.
use dlight_client.Common.{
  ℕ, zero, suc, ◌≡◌, ◌<◌, refl, none, some, Bool, true, false, ◌&&◌, List, [], ◌∷◌, ◌++◌, pos,
  length, take, drop, eqb, codes, arith, if◌then◌else◌,
}
use dlight_client.Errors.{err, json_decode_error, ok}
use dlight_client.Json.{obj, Fields, json_eq, items_eq, fields_within, get}
use dlight_client.Models.{acknowledged}
use dlight_client.Codec.{Codec, Delimits, IsUtf8}
use dlight_client.Frame.{encode_response}
use dlight_client.Client.Commands.{execute_command, on_change}
use dlight_client.Lamp.{initial_light, handle_command, apply, apply_all, when_key, subscript, Light}
use dlight_client.Lamp.Server.{converse, reading}
use dlight_client.Lamp.Server.Script.{Script, calm, handler, Served, served_none, served_next}
use dlight_client.Lamp.Server.Chunks.{converse_lem}
use dlight_client.Examples.Samples.{reply_text, frame}
use dlight_client.Examples.Fakes.{no_int, fake_info}

-- Whether the second text begins with the first.
starts : List ℕ → List ℕ → Bool
starts [] ys = true
starts (x ∷ xs) [] = false
starts (x ∷ xs) (y ∷ ys) = eqb x y && starts xs ys

starts-append : (xs ys : List ℕ) → starts xs (xs ++ ys) ≡ true
unfolding starts
starts-append [] ys = refl
starts-append (x ∷ xs) ys = ground (arith, starts-append xs ys)

starts-take : (xs : List ℕ) (n : ℕ) → n < length xs → starts xs (take n xs) ≡ false
unfolding starts
starts-take [] n h = absurd (omega arith)
starts-take (x ∷ xs) zero h = refl
starts-take (x ∷ xs) (suc n) h = ground (arith, starts-take xs n)

abbrev turn_on_command : Fields
turn_on_command = execute_command "1" "lamp" (on_change true)

abbrev command_text : List ℕ
command_text = codes "{\"commandId\": \"1\", \"commandType\": \"EXECUTE\"}"

abbrev phrase_codec : Codec
phrase_codec = record {
  dumps = λ x. some (if json_eq x (obj turn_on_command) then command_text else reply_text);
  loads = λ text. err json_decode_error;
  raw_decode = λ text.
      if starts command_text text then some (obj turn_on_command, length command_text) else none;
  encode_utf8 = λ text. text;
  decode_utf8 = λ bytes. some bytes;
}

phrase_codec-IsUtf8 : IsUtf8 phrase_codec
phrase_codec-IsUtf8 = record { encode_ascii = λ text a. refl; decode_ascii = λ bytes a. refl }

turn_on-Delimits : Delimits phrase_codec (obj turn_on_command) command_text
unfolding json_eq items_eq fields_within get
turn_on-Delimits = record {
  dumped = refl;
  ascii = omega arith;
  not_empty = omega arith;
  complete = λ rest a. rw (starts-append command_text rest) refl;
  partial = λ n p h. rw (starts-take command_text n h) refl;
}

abbrev twice : Script
twice = (turn_on_command, command_text) ∷ (turn_on_command, command_text) ∷ []

abbrev shining : Light
shining = record initial_light { on = true }

answered : encode_response phrase_codec acknowledged ≡ ok frame
unfolding encode_response json_eq items_eq fields_within get
answered = refl

obeyed :
    (l : Light)
    → handle_command no_int fake_info turn_on_command l ≡ (ok acknowledged, record l { on = true })
unfolding handle_command apply_all apply when_key subscript get
obeyed l = refl

twice-Served :
    Served no_int phrase_codec fake_info twice initial_light (frame ++ frame ++ []) shining
twice-Served =
    served_next turn_on_command command_text acknowledged frame (frame ++ []) _ _ shining _
      turn_on-Delimits (obeyed initial_light) answered
      (served_next turn_on_command command_text acknowledged frame [] [] shining shining _
        turn_on-Delimits (obeyed shining) answered (served_none shining))

converse_lem_example :
    converse no_int phrase_codec fake_info
      (take 9 command_text
        ∷ (drop 9 command_text ++ take 3 command_text)
        ∷ drop 3 command_text
        ∷ [])
      (handler reading [] [])
      (calm (pos 500) initial_light)
    ≡ (handler reading [] (frame ++ frame), calm (pos 500) shining)
converse_lem_example =
    converse_lem no_int phrase_codec fake_info
      (take 9 command_text
        ∷ (drop 9 command_text ++ take 3 command_text)
        ∷ drop 3 command_text
        ∷ [])
      twice [] (frame ++ frame) (pos 500) initial_light shining phrase_codec-IsUtf8 twice-Served
      (omega arith) refl
