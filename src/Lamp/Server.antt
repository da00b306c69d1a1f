-- ===== src/Lamp/Server.antt =====
-- tools/fake_dlight_server.py: `_handle_tcp`, the handler of one connection, as what it does between
-- two awaits. The failure modes and the lamp are shared by all connections.
pub mod Script
pub mod Chunks
use dlight_client.Common.{
  ℕ, zero, suc, ◌+◌, Option, none, some, Bool, true, false, String, List, [], ◌∷◌, ◌++◌, ℤ, pos,
  length, eqb_ℤ, if◌then◌else◌,
}
use dlight_client.Errors.{Error, attribute_error, Result, ok, err, and_then, Action}
use dlight_client.Json.{Json, null, obj, Fields}
use dlight_client.Codec.{Codec}
use dlight_client.Frame.{encode_response, decode_command}
use dlight_client.Lamp.{Mode, normal, hang, reset, drop, take, Info, Light, handle_command}
use dlight_client.Lamp.Control.{Lamp}

-- Where a handler stands: before `decode_command`, in `reader.read`, in the `reader.read` of a hang,
-- in the `sleep` before the reply to a command, or after its end.
pub data Phase : Type 0 where
  parsing reading hanging ended : Phase
  sleeping : Json → Phase

pub record Connection : Type 0 where
  pub phase : Phase
  pub buffer : List ℕ
  -- the bytes written to the client
  pub sent : List ℕ
  -- whether the socket was set to be reset when it is closed
  pub reset : Bool

module _ (int_of : String → Option ℤ) (codec : Codec) (info : Info) where
  -- `device.handle_command(command)`: only a dict has `get`
  abbrev pub handle_json : Json → Action Light Fields
  handle_json (obj command) l = handle_command int_of info command l
  handle_json _ l = (err attribute_error, l)

  -- `writer.write(encode_response(response))`. An exception ends the handler.
  abbrev pub write : Result (List ℕ) → Connection → Connection
  write (ok bytes) c = record c { phase = parsing; sent = c.sent ++ bytes }
  write (err e) c = record c { phase = ended }

  abbrev pub respond : Json → Connection → Lamp → Connection × Lamp
  respond command c l =
      let (r, light) = handle_json command l.light in
      (write (and_then r (encode_response codec)) c, record l { light = light })

  abbrev pub dispatch : Mode → Json → Connection → Lamp → Connection × Lamp
  dispatch hang command c l = (record c { phase = hanging }, l)
  dispatch reset command c l = (record c { phase = ended; reset = true }, l)
  dispatch drop command c l = (record c { phase = ended }, l)
  dispatch normal command c l =
      if eqb_ℤ l.delay (pos 0)
      then respond command c l
      else (record c { phase = sleeping command }, l)

  -- What follows `decode_command`. A JSON null is read as `None`, and so as no command.
  abbrev pub decoded : Option Json × List ℕ → Connection → Lamp → Connection × Lamp
  decoded (none, buffer) c l = (record c { phase = reading; buffer = buffer }, l)
  decoded (some null, buffer) c l = (record c { phase = reading; buffer = buffer }, l)
  decoded (some command, buffer) c l =
      let (mode, failures) = take l.failures in
      dispatch mode command (record c { buffer = buffer }) (record l { failures = failures })

  abbrev pub run_phase : Phase → Connection → Lamp → Connection × Lamp
  run_phase parsing c l = decoded (decode_command codec c.buffer) c l
  run_phase (sleeping command) c l = respond command c l
  run_phase _ c l = (c, l)

  -- The handler runs until it waits for bytes, for the end of a sleep or of `drain`.
  unfoldable pub turn : Connection → Lamp → Connection × Lamp
  unfolding take
  turn c l = run_phase c.phase c l

  -- `reader.read` returns: no bytes are the end of the stream. A hang swallows what comes.
  abbrev pub arrive : Phase → List ℕ → Connection → Connection
  arrive reading [] c = record c { phase = ended }
  arrive reading (b ∷ chunk) c = record c { phase = parsing; buffer = c.buffer ++ b ∷ chunk }
  arrive hanging [] c = record c { phase = ended }
  arrive _ chunk c = c

  -- Turns until the handler waits for bytes or has ended.
  unfoldable pub pump : ℕ → Connection → Lamp → Connection × Lamp
  unfolding turn
  pump zero c l = (c, l)
  pump (suc fuel) c l = let (c', l') = turn c l in pump fuel c' l'

  -- The chunks arrive one after the other, each after the handler has dealt with the one before. Two
  -- turns for each byte in the buffer, and one, are enough.
  unfoldable pub converse : List (List ℕ) → Connection → Lamp → Connection × Lamp
  unfolding pump
  converse [] c l = (c, l)
  converse (chunk ∷ chunks) c l =
      let c' : Connection = arrive c.phase chunk c in
      let (c2, l2) = pump (suc (length c'.buffer + length c'.buffer)) c' l in converse chunks c2 l2
