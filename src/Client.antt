-- ===== src/Client.antt =====
-- client.py: sending one command, with retries, over the pool.
pub mod Commands
pub mod Attempts
pub mod Retries
pub mod Contract
pub mod Dropped
pub mod Context
use dlight_client.Common.{
  ℕ, zero, suc, ◌+◌, ◌*◌, ◌^◌, Option, none, some, Bool, true, false, List, [], ◌∷◌, ◌++◌, ltb, ℤ,
  pos, negsuc, if◌then◌else◌,
}
use dlight_client.Errors.{
  Error, dlight_error, timeout_error, connection_error, Result, ok, err, is_dlight_error,
  is_connection_error, is_exception,
}
use dlight_client.Json.{Fields}
use dlight_client.Codec.{Codec}
use dlight_client.Frame.{Stream, encode_command, read_response}
use dlight_client.Pool.{Connection, Pool, Probe, Dial, checkout, evict, give_back, empty_pool}
use dlight_client.Pool.Endpoint.{Key, SslArg, absent, pool_key}

-- `AsyncDLightClient`, but for its pool. Durations are in milliseconds.
pub record Client : Type 0 where
  pub default_timeout : ℕ
  pub max_retries : ℤ
  pub retry_backoff : ℕ
  pub ssl : SslArg

-- How `asyncio.wait_for(writer.drain(), timeout)` ends.
pub data Drain : Type 0 where
  drained drain_late drain_broken : Drain
  drain_raised : Error → Drain

-- What the clock and the network do in one attempt: the time and the cached connection when it
-- starts, how dialling and sending end, what arrives, and the writer and the time at its end.
pub record Attempt : Type 0 where
  pub now : ℕ
  pub probe : Probe
  pub dial : Dial
  pub drain : Drain
  pub arrives : Stream
  pub closing : Bool
  pub finished : ℕ

-- The pool, and what the client has done so far: the attempts made, the bytes written and to which
-- connection, the pauses between attempts, and the command ids given out.
pub record Session : Type 0 where
  pub pool : Pool
  pub attempts : ℕ
  pub wire : List (ℕ × List ℕ)
  pub sleeps : List ℕ
  pub ids : ℕ

-- A client that has done nothing yet.
abbrev pub initial_session : Bool → ℕ → Session
initial_session persistent idle_timeout = record {
  pool = empty_pool persistent idle_timeout;
  attempts = 0;
  wire = [];
  sleeps = [];
  ids = 0;
}

-- The attempts by their number and the timeout in force.
abbrev pub Network : Type 0
Network = ℕ → ℕ → Attempt

-- The errors that `writer.drain()` leads to.
abbrev pub drain_error : Drain → Option Error
drain_error drained = none
drain_error drain_late = some timeout_error
drain_error drain_broken = some connection_error
drain_error (drain_raised e) = some e

-- What is done after an attempt.
pub data Verdict : Type 0 where
  done : Result Fields → Verdict
  again : Verdict

-- `attempt < self.max_retries`
abbrev pub may_retry : ℕ → ℤ → Bool
may_retry attempt (pos n) = ltb attempt n
may_retry attempt (negsuc n) = false

-- `range(self.max_retries + 1)`
abbrev pub rounds : ℤ → ℕ
rounds (pos n) = suc n
rounds (negsuc n) = 0

-- The `except` clauses of the loop, in their order.
unfoldable pub judge : ℤ → ℕ → Result Fields → Verdict
judge max_retries attempt (ok response) = done (ok response)
judge max_retries attempt (err e) =
    if is_connection_error e
    then (if may_retry attempt max_retries then again else done (err e))
    else if is_dlight_error e
    then done (err e)
    else if is_exception e
    then done (err dlight_error)
    else done (err e)

module _ (codec : Codec) where
  -- The end of the `async with`: the connection goes back, or it is closed.
  abbrev pub leave :
      Key → Connection → Attempt → Result Fields × Stream → Session → Result Fields × Session
  leave key c a (ok response, left) s = (
    ok response,
    record s {
      pool = give_back key (record c { buffered = left.bytes }) a.closing a.finished s.pool;
    },
  )
  leave key c a (err e, left) s = (err e, record s { pool = evict c s.pool })

  abbrev pub after_drain :
      Option Error → Key → Fields → Connection → Attempt → Session → Result Fields × Session
  after_drain (some e) key command c a s = (err e, record s { pool = evict c s.pool })
  after_drain none key command c a s =
      leave key c a
        (read_response codec (some command)
          (record { bytes = c.buffered ++ a.arrives.bytes; ending = a.arrives.ending }))
        s

  -- The body of the `async with`: write, drain, read.
  abbrev pub talk :
      Result Connection × Pool → Key → Fields → List ℕ → Attempt → Session → Result Fields × Session
  talk (err e, p) key command json_data a s = (err e, record s { pool = p })
  talk (ok c, p) key command json_data a s =
      after_drain (drain_error a.drain) key command c a
        (record s { pool = p; wire = s.wire ++ (c.id, json_data) ∷ [] })

  -- One turn of the loop, up to the `except` clauses.
  unfoldable pub attempt_once : Key → Fields → List ℕ → Attempt → Session → Result Fields × Session
  attempt_once key command json_data a s =
      talk (checkout key a.now a.probe a.dial s.pool) key command json_data a
        (record s { attempts = suc s.attempts })

  module _ (network : Network) (client : Client) (timeout : ℕ) where
    -- `await asyncio.sleep(backoff)`
    abbrev pub pause : ℕ → Session → Session
    pause attempt s = record s { sleeps = s.sleeps ++ (client.retry_backoff * 2 ^ attempt) ∷ [] }

    -- The loop over `range(max_retries + 1)`: the rounds left, and `attempt`.
    unfoldable pub send_loop : ℕ → ℕ → Key → Fields → List ℕ → Session → Result Fields × Session
    send_loop zero attempt key command json_data s = (err dlight_error, s)
    send_loop (suc left) attempt key command json_data s =
        let (r, s') = attempt_once key command json_data (network s.attempts timeout) s in
        elim (judge client.max_retries attempt r) [
          | done result ↦ (result, s')
          | again ↦ send_loop left (suc attempt) key command json_data (pause attempt s')
        ]

  abbrev pub or_default : Option ℕ → ℕ → ℕ
  or_default none d = d
  or_default (some t) d = t

  abbrev pub ssl_or_default : SslArg → SslArg → SslArg
  ssl_or_default absent d = d
  ssl_or_default ssl d = ssl

  abbrev pub send_encoded :
      Network → Client → ℕ → Key → Fields → Result (List ℕ) → Session → Result Fields × Session
  send_encoded network client timeout key command (err e) s = (err e, s)
  send_encoded network client timeout key command (ok json_data) s =
      send_loop network client timeout (rounds client.max_retries) 0 key command json_data s

  -- `_async_send_tcp_command`
  unfoldable pub send_tcp_command :
      Network → Client → List ℕ → Fields → ℕ → SslArg → Option ℕ → Session → Result Fields × Session
  send_tcp_command network client target_ip command port ssl timeout s =
      send_encoded network client (or_default timeout client.default_timeout)
        (pool_key target_ip port (ssl_or_default ssl client.ssl)) command
        (encode_command codec command) s
