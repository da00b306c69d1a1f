-- ===== src/Remote/Wire.antt =====
-- A command of client.py all the way: the client's bytes, in any pieces, to the handler of
-- tools/fake_dlight_server.py, and the handler's bytes back to the client.
pub mod Retried
pub mod Requests
pub mod Changes
pub mod Conversation
use mathlib.Core.Path.{subst}
use mathlib.Core.List.{append-nil}
use dlight_client.Common.{
  ◌+◌, ◌≡◌, refl, sym, ap, ◌∙◌, ◌<◌, ◌≤◌, arith, ℕ, zero, suc, Bool, true, false, Option, none,
  some, String, List, [], ◌∷◌, ◌++◌, ℤ, pos, All, length,
}
use dlight_client.Errors.{Result, ok, err, timeout_error}
use dlight_client.Json.{Json, obj, Fields, get, json_eq}
use dlight_client.Json.Equality.{IsUnique}
use dlight_client.Models.{max_payload_size}
use dlight_client.Codec.{Codec}
use dlight_client.Codec.Printer.{print}
use dlight_client.Codec.Python.{python, python-IsUtf8, python-Delimits}
use dlight_client.Frame.{Stream, Ending, is_success, encode_command, encode_response, read_response}
use dlight_client.Frame.Exchange.{
  framed, encode_command-python, encode_response-python, response_received,
}
use dlight_client.Pool.{
  late, Connection as Socket, give_back, Pool, Dial, connected, key_of, checkout, take_cached, dial,
}
use dlight_client.Pool.Endpoint.{Key, SslArg, pool_key}
use dlight_client.Pool.Keyed.{find, drop_key}
use dlight_client.Client.{
  Client, Attempt, Session, Network, drained, done, judge, rounds, attempt_once, send_loop,
  send_encoded, or_default, ssl_or_default, send_tcp_command, talk, leave,
}
use dlight_client.Lamp.{Info, Light, handle_command}
use dlight_client.Lamp.Control.{Lamp}
use dlight_client.Lamp.Server.{Connection, reading, converse}
use dlight_client.Lamp.Server.Script.{joined, calm, handler, Served, served_none, served_next}
use dlight_client.Lamp.Server.Chunks.{converse_lem}

-- The handler of a new connection, after these pieces.
abbrev pub handled : (String → Option ℤ) → Info → List (List ℕ) → Lamp → Connection × Lamp
handled int_of info pieces lamp = converse int_of python info pieces (handler reading [] []) lamp

-- A client that keeps no connections, and has none.
abbrev pub IsUnpooled : Session → Type 0
IsUnpooled s = (s.pool.connections ≡ []) × (s.pool.persistent ≡ false)

-- What a command came to after this many attempts in vain, and what it wrote to which connection.
pub record Ended (failures : ℕ) (s : Session) (r : Result Fields) (written : List (ℕ × List ℕ))
    (out : Result Fields × Session) : Type 0 where
  pub result : out.0 ≡ r
  pub wire : out.1.wire ≡ s.wire ++ written
  pub attempts : out.1.attempts ≡ suc (failures + s.attempts)
  pub ids : out.1.ids ≡ s.ids
  pub unpooled : IsUnpooled s → IsUnpooled out.1

-- The same client after so many attempts in vain.
pub record IsLater (failures : ℕ) (s s' : Session) : Type 0 where
  pub attempts : s'.attempts ≡ failures + s.attempts
  pub ids : s'.ids ≡ s.ids
  pub wire : s'.wire ≡ s.wire
  pub opened : s'.pool.opened ≡ s.pool.opened
  pub unpooled : IsUnpooled s'

pub nothing_cached :
    (s : Session) (key : Key) → IsUnpooled s → find key_of key s.pool.connections ≡ none
unfolding find
nothing_cached s key u = rw (u.0) refl

give_back_unpooled :
    (key : Key) (c : Socket) (closing : Bool) (now : ℕ) (p : Pool)
    → p.persistent ≡ false
    → ((give_back key c closing now p).connections ≡ p.connections)
      × ((give_back key c closing now p).persistent ≡ false)
unfolding give_back
give_back_unpooled key c closing now p h = ground arith

module _ (key : Key) (command : Fields) (a : Attempt) (s : Session)
    (nothing : find key_of key s.pool.connections ≡ none) where
  abbrev fresh : Pool
  fresh = record s.pool {
    connections = drop_key key_of key s.pool.connections;
    opened = suc s.pool.opened;
  }

  checkout-fresh :
      a.dial ≡ connected
      → checkout key a.now a.probe a.dial s.pool
        ≡ (ok (record { id = s.pool.opened; buffered = [] }), fresh)
  unfolding checkout take_cached dial
  checkout-fresh d = rw (nothing, d) refl

  fresh_unpooled : IsUnpooled s → fresh.connections ≡ []
  unfolding drop_key
  fresh_unpooled u = rw (u.0) refl

  pub attempt_answered :
      (codec : Codec) (json_data : List ℕ) (reply : Fields) (left : Stream)
      → a.dial ≡ connected
      → a.drain ≡ drained
      → read_response codec
          (some command)
          (record { bytes = a.arrives.bytes; ending = a.arrives.ending })
        ≡ (ok reply, left)
      → Ended 0 s
          (ok reply)
          ((s.pool.opened, json_data) ∷ [])
          (attempt_once codec key command json_data a s)
  unfolding attempt_once
  attempt_answered codec json_data reply left d w r =
      let kept : Socket = record { id = s.pool.opened; buffered = left.bytes } in
      rw (checkout-fresh d) (
        rw w (
          rw r (record {
            result = refl;
            wire = refl;
            attempts = omega arith;
            ids = refl;
            unpooled = λ u.
                let back = give_back_unpooled key kept a.closing a.finished fresh u.1 in
                (back.0 ∙ fresh_unpooled u, back.1);
          })))

  pub attempt_late :
      (codec : Codec) (json_data : List ℕ)
      → IsUnpooled s
      → a.dial ≡ late
      → ((attempt_once codec key command json_data a s).0 ≡ err timeout_error)
        × IsLater 1 s (attempt_once codec key command json_data a s).1
  unfolding attempt_once checkout take_cached dial drop_key
  attempt_late codec json_data u d =
      rw (nothing, d)
        (
          refl,
          record {
            attempts = omega arith;
            ids = refl;
            wire = refl;
            opened = refl;
            unpooled = (rw (u.0) refl, u.1);
          },
        )

-- A lamp that gets a command of a client whole answers it.
pub served :
    (int_of : String → Option ℤ) (info : Info) (command reply : Fields) (delay : ℤ) (l l1 : Light)
    (pieces : List (List ℕ))
    → IsUnique (obj command)
    → length (print (obj reply)) ≤ max_payload_size
    → handle_command int_of info command l ≡ (ok reply, l1)
    → All (λ piece. 0 < length piece) pieces
    → joined pieces ≡ print (obj command)
    → handled int_of info pieces (calm delay l) ≡ (handler reading [] (framed reply), calm delay l1)
served int_of info command reply delay l l1 pieces u fits answered nonempty whole =
    converse_lem int_of python info pieces ((command, print (obj command)) ∷ []) []
      (framed reply ++ []) delay l l1 python-IsUtf8
      (served_next command (print (obj command)) reply (framed reply) [] [] l l1 l1
        (python-Delimits command u) answered (encode_response-python reply fits) (served_none l1))
      nonempty (whole ∙ sym (append-nil (print (obj command))))
    ∙ ap (λ bs. (handler reading [] bs, calm delay l1)) (append-nil (framed reply))

-- A client and a lamp with the wire between them: an attempt of the client connects, sends, and gets
-- what the handler of the lamp writes to the pieces that the client's bytes come in.
pub record Wired (int_of : String → Option ℤ) (info : Info) (a : Attempt) (pieces : List (List ℕ))
    (lamp : Lamp) : Type 0 where
  pub dials : a.dial ≡ connected
  pub drains : a.drain ≡ drained
  pub arrives : a.arrives.bytes ≡ (handled int_of info pieces lamp).0.sent
  pub nonempty : All (λ piece. 0 < length piece) pieces

module _ (int_of : String → Option ℤ) (info : Info) (key : Key) (a : Attempt) (s : Session)
    (pieces : List (List ℕ)) where
  pub exchange :
      (command reply : Fields) (delay : ℤ) (l l1 : Light)
      → find key_of key s.pool.connections ≡ none
      → Wired int_of info a pieces (calm delay l)
      → joined pieces ≡ print (obj command)
      → IsUnique (obj command)
      → IsUnique (obj reply)
      → length (print (obj reply)) ≤ max_payload_size
      → is_success (get "status" reply) ≡ true
      → json_eq (obj reply) (obj command) ≡ false
      → handle_command int_of info command l ≡ (ok reply, l1)
      → Ended 0 s
          (ok reply)
          ((s.pool.opened, joined pieces) ∷ [])
          (attempt_once python key command (print (obj command)) a s)
  exchange command reply delay l l1 nothing w whole u v fits success differs answered =
      let answer =
        served int_of info command reply delay l l1 pieces u fits answered w.nonempty whole in
      let bytes : a.arrives.bytes ≡ framed reply =
        w.arrives ∙ ap (λ (r : Connection × Lamp). r.0.sent) answer in
      let read : read_response python (some command)
            (record { bytes = a.arrives.bytes; ending = a.arrives.ending })
          ≡ (ok reply, record { bytes = []; ending = a.arrives.ending }) =
        ap
          (λ bs.
            read_response python (some command) (record { bytes = bs; ending = a.arrives.ending }))
          (bytes ∙ sym (append-nil (framed reply)))
        ∙ (response_received (some command) reply [] a.arrives.ending v fits success differs).1 in
      let answered =
        attempt_answered key command a s nothing python (print (obj command)) reply
          (record { bytes = []; ending = a.arrives.ending }) w.dials w.drains read in
      subst
        (λ bytes.
          Ended 0 s (ok reply) ((s.pool.opened, bytes) ∷ [])
            (attempt_once python key command (print (obj command)) a s))
        (sym whole) answered
