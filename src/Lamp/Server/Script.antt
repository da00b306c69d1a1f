-- ===== src/Lamp/Server/Script.antt =====
-- tools/fake_dlight_server.py: commands, and how a handler answers one of them.
use dlight_client.Common.{
  ℕ, zero, suc, ◌≡◌, ◌<◌, ◌≤◌, refl, ap, ◌∙◌, Option, some, none, String, List, [], ◌∷◌, ◌++◌, ℤ,
  pos, All-append, arith, Bool-cases, inl, inr, Bool, false, eqb_ℤ, if◌then◌else◌,
}
use dlight_client.Errors.{ok}
use dlight_client.Json.{obj, Fields}
use dlight_client.Codec.{Codec, IsAscii, Delimits}
use dlight_client.Frame.{encode_response, decode_command}
use dlight_client.Lamp.{normal, Info, Light, handle_command}
use dlight_client.Lamp.Control.{Lamp}
use dlight_client.Lamp.Server.{
  Connection, Phase, parsing, reading, sleeping, turn, pump, respond, decoded,
}

-- Commands with their texts.
abbrev pub Script : Type 0
Script = List (Fields × List ℕ)

abbrev pub bytes_of : Script → List ℕ
bytes_of [] = []
bytes_of ((command, text) ∷ s) = text ++ bytes_of s

abbrev pub joined : List (List ℕ) → List ℕ
joined [] = []
joined (chunk ∷ chunks) = chunk ++ joined chunks

-- No failure is injected.
abbrev pub calm : ℤ → Light → Lamp
calm delay l = record {
  failures = record { mode = normal; remaining = none };
  delay = delay;
  light = l;
}

abbrev pub handler : Phase → List ℕ → List ℕ → Connection
handler p buffer sent = record { phase = p; buffer = buffer; sent = sent; reset = false }

module _ (int_of : String → Option ℤ) (codec : Codec) (info : Info) where
  -- What a lamp that gets each command as a whole answers, and what becomes of it: the commands, the
  -- lamp before, the bytes of the answers, the lamp after.
  pub data Served : Script → Light → List ℕ → Light → Type 0 where
    served_none : (l : Light) → Served [] l [] l
    served_next :
        (command : Fields) (text : List ℕ) (reply : Fields) (bytes out : List ℕ) (s : Script)
        (l l1 l2 : Light)
        → Delimits codec (obj command) text
        → handle_command int_of info command l ≡ (ok reply, l1)
        → encode_response codec reply ≡ ok bytes
        → Served s l1 out l2
        → Served ((command, text) ∷ s) l (bytes ++ out) l2

  -- A handler that waits has no more turns.
  pub pump-reading :
      (fuel : ℕ) (buffer sent : List ℕ) (l : Lamp)
      → pump int_of codec info fuel (handler reading buffer sent) l
        ≡ (handler reading buffer sent, l)
  unfolding pump
  pump-reading zero buffer sent l = refl
  pump-reading (suc fuel) buffer sent l = pump-reading fuel buffer sent l

  pub Served-IsAscii :
      {s : Script} {l l2 : Light} {out : List ℕ} → Served s l out l2 → IsAscii (bytes_of s)
  Served-IsAscii (served_none l) = tt
  Served-IsAscii (served_next command text reply bytes out s l l1 l2 d h e v) =
      All-append (λ b. b < 128) text (bytes_of s) d.ascii (Served-IsAscii v)

  respond-handler :
      (delay : ℤ) (command : Fields) (p : Phase) (rest sent : List ℕ) (reply : Fields)
      (bytes : List ℕ) (l l1 : Light)
      → handle_command int_of info command l ≡ (ok reply, l1)
      → encode_response codec reply ≡ ok bytes
      → respond int_of codec info (obj command) (handler p rest sent) (calm delay l)
        ≡ (handler parsing rest (sent ++ bytes), calm delay l1)
  respond-handler delay command p rest sent reply bytes l l1 h e = rw h (rw e refl)

  -- The test of the delay, as a turn finds it.
  abbrev delayed : Bool → ℤ → Fields → List ℕ → List ℕ → Light → Connection × Lamp
  delayed now delay command rest sent l =
      if now
      then respond int_of codec info (obj command) (handler parsing rest sent) (calm delay l)
      else (handler (sleeping (obj command)) rest sent, calm delay l)

  turn-parsing :
      (delay : ℤ) (command : Fields) (buffer rest sent : List ℕ) (l : Light)
      → decode_command codec buffer ≡ (some (obj command), rest)
      → turn int_of codec info (handler parsing buffer sent) (calm delay l)
        ≡ delayed (eqb_ℤ delay (pos 0)) delay command rest sent l
  unfolding turn
  turn-parsing delay command buffer rest sent l d =
      ap (λ r. decoded int_of codec info r (handler parsing buffer sent) (calm delay l)) d

  -- A whole command at the head of the buffer is answered, in one turn or in two.
  pub pump-answer :
      (fuel : ℕ) (delay : ℤ) (command : Fields) (buffer rest sent : List ℕ) (reply : Fields)
      (bytes : List ℕ) (l l1 : Light)
      → decode_command codec buffer ≡ (some (obj command), rest)
      → handle_command int_of info command l ≡ (ok reply, l1)
      → encode_response codec reply ≡ ok bytes
      → (k : ℕ) × (fuel ≤ k)
        × (pump int_of codec info (suc (suc fuel)) (handler parsing buffer sent) (calm delay l)
            ≡ pump int_of codec info k (handler parsing rest (sent ++ bytes)) (calm delay l1))
  unfolding pump
  pump-answer fuel delay command buffer rest sent reply bytes l l1 d h e =
      elim (Bool-cases (eqb_ℤ delay (pos 0))) [
        | inl now ↦ (
          suc fuel,
          omega arith,
          ap (λ r. pump int_of codec info (suc fuel) r.0 r.1)
              (turn-parsing delay command buffer rest sent l d
                ∙ (ap (λ b. delayed b delay command rest sent l) now
                    ∙ respond-handler delay command parsing rest sent reply bytes l l1 h e)),
        )
        | inr later ↦ (
          fuel,
          omega arith,
          ap (λ r. pump int_of codec info (suc fuel) r.0 r.1)
                (turn-parsing delay command buffer rest sent l d
                  ∙ ap (λ b. delayed b delay command rest sent l) later)
              ∙ ap (λ r. pump int_of codec info fuel r.0 r.1)
                  (respond-handler delay command (sleeping (obj command)) rest sent reply bytes l l1
                    h e),
        )
      ]
