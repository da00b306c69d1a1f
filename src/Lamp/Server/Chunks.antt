-- ===== src/Lamp/Server/Chunks.antt =====
-- tools/fake_dlight_server.py: commands that arrive in pieces.
use dlight_client.Common.{
  ℕ, zero, suc, ◌+◌, ◌≡◌, ◌<◌, refl, sym, ap, ◌∙◌, Option, some, none, String, List, [], ◌∷◌, ◌++◌,
  ℤ, length, length-append, take, All, append_split, append_prefix, arith,
}
use mathlib.Core.Path.{subst}
use native.Mathlib.Decide.{dec_lt}
use mathlib.Core.List.{append-nil, append_assoc}
use dlight_client.Json.{obj, Fields}
use dlight_client.Codec.{Codec, IsAscii, Delimits, IsUtf8}
use dlight_client.Frame.{decode_command}
use dlight_client.Frame.Commands.{decode_command_complete, decode_command_partial, IsAscii-prefix}
use dlight_client.Lamp.{Info, Light}
use dlight_client.Lamp.Control.{Lamp}
use dlight_client.Lamp.Server.Script.{
  Script, bytes_of, joined, calm, handler, Served, served_none, served_next, pump-reading,
  Served-IsAscii, pump-answer,
}
use dlight_client.Lamp.Server.{Connection, parsing, reading, turn, pump, converse, decoded}

module _ (int_of : String → Option ℤ) (codec : Codec) (info : Info) where
  -- A handler that waits after some of the commands: what is to come, and what it has yet to write.
  pub record Waits (later : List ℕ) (delay : ℤ) (sent out : List ℕ) (l2 : Light)
      (r : Connection × Lamp) : Type 0 where
    pub todo : Script
    pub buffer : List ℕ
    pub written : List ℕ
    pub rest : List ℕ
    pub light : Light
    pub stands : r ≡ (handler reading buffer (sent ++ written), calm delay light)
    pub answers : written ++ rest ≡ out
    pub remaining : buffer ++ later ≡ bytes_of todo
    pub serves : Served int_of codec info todo light rest l2
    pub unread : decode_command codec buffer ≡ (none, buffer)

  -- With no whole command in the buffer the handler goes to wait.
  pump-short :
      (fuel : ℕ) (buffer sent : List ℕ) (delay : ℤ) (l : Light)
      → decode_command codec buffer ≡ (none, buffer)
      → pump int_of codec info (suc fuel) (handler parsing buffer sent) (calm delay l)
        ≡ (handler reading buffer sent, calm delay l)
  unfolding pump turn
  pump-short fuel buffer sent delay l d =
      ap
        (λ r.
          let (c, l') = decoded int_of codec info r (handler parsing buffer sent) (calm delay l) in
          pump int_of codec info fuel c l')
        d
      ∙ pump-reading int_of codec info fuel buffer sent (calm delay l)

  no_bytes : decode_command codec [] ≡ (none, [])
  unfolding decode_command
  no_bytes = refl

  partly :
      {command : Fields} {text buffer : List ℕ}
      → IsUtf8 codec
      → Delimits codec (obj command) text
      → buffer ≡ take (length buffer) text
      → length buffer < length text
      → decode_command codec buffer ≡ (none, buffer)
  partly {command} {text} {buffer} u d e few =
      subst (λ bs. decode_command codec bs ≡ (none, bs)) (sym e)
        (decode_command_partial codec u (obj command) text (length buffer) d few)

  wholly :
      {command : Fields} {text buffer rest : List ℕ}
      → IsUtf8 codec
      → Delimits codec (obj command) text
      → buffer ≡ text ++ rest
      → IsAscii rest
      → decode_command codec buffer ≡ (some (obj command), rest)
  wholly {command} {text} {buffer} {rest} u d e a =
      ap (decode_command codec) e ∙ decode_command_complete codec u (obj command) text rest d a

  short-Waits :
      (fuel : ℕ) (buffer later sent : List ℕ) (delay : ℤ) (s : Script) (l l2 : Light) (out : List ℕ)
      → decode_command codec buffer ≡ (none, buffer)
      → buffer ++ later ≡ bytes_of s
      → Served int_of codec info s l out l2
      → Waits later delay sent out l2
          (pump int_of codec info (suc fuel) (handler parsing buffer sent) (calm delay l))
  short-Waits fuel buffer later sent delay s l l2 out d e v = record {
    todo = s;
    buffer = buffer;
    written = [];
    rest = out;
    light = l;
    stands =
        pump-short fuel buffer sent delay l d
        ∙ ap (λ bs. (handler reading buffer bs, calm delay l)) (sym (append-nil sent));
    answers = refl;
    remaining = e;
    serves = v;
    unread = d;
  }

  -- An answer in front of what a handler goes on to write.
  Waits-answer :
      (later sent bytes out : List ℕ) (delay : ℤ) (l2 : Light) (r r' : Connection × Lamp)
      → r ≡ r'
      → Waits later delay (sent ++ bytes) out l2 r'
      → Waits later delay sent (bytes ++ out) l2 r
  Waits-answer later sent bytes out delay l2 r r' same w = record {
    todo = w.todo;
    buffer = w.buffer;
    written = bytes ++ w.written;
    rest = w.rest;
    light = w.light;
    stands =
        same
        ∙ (w.stands
            ∙ ap (λ bs. (handler reading w.buffer bs, calm delay w.light))
                (append_assoc sent bytes w.written));
    answers = append_assoc bytes w.written w.rest ∙ ap (bytes ++◌) w.answers;
    remaining = w.remaining;
    serves = w.serves;
    unread = w.unread;
  }

  -- However much of the commands is in the buffer, the handler answers those that are whole and
  -- waits for the others.
  pump-Waits :
      (fuel : ℕ) (buffer later sent : List ℕ) (delay : ℤ) (s : Script) (l l2 : Light) (out : List ℕ)
      → IsUtf8 codec
      → Served int_of codec info s l out l2
      → buffer ++ later ≡ bytes_of s
      → length buffer + length buffer < fuel
      → Waits later delay sent out l2
          (pump int_of codec info fuel (handler parsing buffer sent) (calm delay l))
  pump-Waits zero buffer later sent delay s l l2 out u v e f = absurd (omega arith)
  pump-Waits (suc fuel) [] later sent delay s l l2 out u v e f =
      short-Waits fuel [] later sent delay s l l2 out no_bytes e v
  pump-Waits (suc zero) (b ∷ buffer) later sent delay s l l2 out u v e f = absurd (omega arith)
  pump-Waits (suc (suc fuel)) (b ∷ buffer) later sent delay _ _ l2 _ u (served_none l) e f =
      absurd (omega (arith, ap length e))
  pump-Waits (suc (suc fuel)) (b ∷ buffer) later sent delay _ _ l2 _ u
        (served_next command text reply bytes out s l l1 l2' d h enc v) e f =
      elim (dec_lt (length (b ∷ buffer)) (length text)) [
        | yes few ↦
            short-Waits (suc fuel) (b ∷ buffer) later sent delay ((command, text) ∷ s) l l2
              (bytes ++ out)
              (partly u d (append_prefix (b ∷ buffer) later text (bytes_of s) e (omega arith)) few)
              e (served_next command text reply bytes out s l l1 l2 d h enc v)
        | no whole ↦
            let (rest, head, tail) =
              append_split (b ∷ buffer) later text (bytes_of s) e (omega arith) in
            let (k, enough, same) =
              pump-answer int_of codec info fuel delay command (b ∷ buffer) rest sent reply bytes l
                l1
                (wholly u d head (
                  IsAscii-prefix rest later
                    (subst IsAscii (sym tail) (Served-IsAscii int_of codec info v))))
                h enc in
            Waits-answer later sent bytes out delay l2 _ _ same (
              pump-Waits k rest later (sent ++ bytes) delay s l1 l2 out u v tail
                (omega (arith, ap length head, length-append text rest, d.not_empty)))
      ]

  -- If all bytes are in the buffer and none can be read, nothing is left to do.
  unread-done :
      {s : Script} {l l2 : Light} {out : List ℕ}
      → IsUtf8 codec
      → Served int_of codec info s l out l2
      → decode_command codec (bytes_of s) ≡ (none, bytes_of s)
      → (bytes_of s ≡ []) × (out ≡ []) × (l ≡ l2)
  unread-done u (served_none l) e = (refl, refl, refl)
  unread-done u (served_next command text reply bytes out s l l1 l2 d h enc v) e = absurd (
      cc (
        decode_command_complete codec u (obj command) text (bytes_of s) d
          (Served-IsAscii int_of codec info v)))

  converse-chunks :
      (chunks : List (List ℕ)) (s : Script) (buffer sent out : List ℕ) (delay : ℤ) (l l2 : Light)
      → IsUtf8 codec
      → Served int_of codec info s l out l2
      → decode_command codec buffer ≡ (none, buffer)
      → All (λ chunk. 0 < length chunk) chunks
      → buffer ++ joined chunks ≡ bytes_of s
      → converse int_of codec info chunks (handler reading buffer sent) (calm delay l)
        ≡ (handler reading [] (sent ++ out), calm delay l2)
  unfolding converse
  converse-chunks [] s buffer sent out delay l l2 u v d nonempty e =
      let all : buffer ≡ bytes_of s = sym (append-nil buffer) ∙ e in
      let (none_left, nothing, same) =
        unread-done u v (subst (λ bs. decode_command codec bs ≡ (none, bs)) all d) in
      ap (λ bs. (handler reading bs sent, calm delay l)) (all ∙ none_left)
      ∙ (ap (λ bs. (handler reading [] bs, calm delay l)) (sym (append-nil sent))
          ∙ (ap (λ bs. (handler reading [] (sent ++ bs), calm delay l)) (sym nothing)
              ∙ ap (λ x. (handler reading [] (sent ++ out), calm delay x)) same))
  converse-chunks ([] ∷ chunks) s buffer sent out delay l l2 u v d nonempty e =
      absurd (omega (arith, nonempty.0))
  converse-chunks ((b ∷ chunk) ∷ chunks) s buffer sent out delay l l2 u v d nonempty e =
      let buffer' : List ℕ = buffer ++ b ∷ chunk in
      let w =
        pump-Waits (suc (length buffer' + length buffer')) buffer' (joined chunks) sent delay s l l2
          out u v (append_assoc buffer (b ∷ chunk) (joined chunks) ∙ e) (omega arith) in
      ap (λ r. converse int_of codec info chunks r.0 r.1) w.stands
      ∙ (converse-chunks chunks w.todo w.buffer (sent ++ w.written) w.rest delay w.light l2 u
            w.serves w.unread nonempty.1 w.remaining
          ∙ ap (λ bs. (handler reading [] bs, calm delay l2))
              (append_assoc sent w.written w.rest ∙ ap (sent ++◌) w.answers))

-- A client that sends commands over one connection, while no failure is injected, gets the answers to
-- them in their order, and the lamp is left as they leave it, however the bytes are cut into chunks
-- and whatever the delay.
pub converse_lem :
    (int_of : String → Option ℤ) (codec : Codec) (info : Info) (chunks : List (List ℕ)) (s : Script)
    (sent out : List ℕ) (delay : ℤ) (l l2 : Light)
    → IsUtf8 codec
    → Served int_of codec info s l out l2
    → All (λ chunk. 0 < length chunk) chunks
    → joined chunks ≡ bytes_of s
    → converse int_of codec info chunks (handler reading [] sent) (calm delay l)
      ≡ (handler reading [] (sent ++ out), calm delay l2)
converse_lem int_of codec info chunks s sent out delay l l2 u v nonempty e =
    converse-chunks int_of codec info chunks s [] sent out delay l l2 u v
      (no_bytes int_of codec info) nonempty e
