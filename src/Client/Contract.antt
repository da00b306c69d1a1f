-- ===== src/Client/Contract.antt =====
-- The errors of a command, and its part in the life of the pool.
use dlight_client.Common.{
  ℕ, zero, suc, ◌≡◌, ◌⊎◌, inl, inr, refl, Option, none, some, true, List, [], ◌∷◌, arith, ℤ,
}
use dlight_client.Errors.{Error, cancelled, Result, ok, err, is_dlight_error}
use dlight_client.Json.{Fields}
use dlight_client.Codec.{Codec}
use dlight_client.Frame.{Stream, encode_command}
use dlight_client.Pool.{Connection, Pool, checkout, or_dial, take_cached, dial}
use dlight_client.Pool.Endpoint.{Key, SslArg, pool_key}
use dlight_client.Pool.Endpoint.Separation.{same_key_refl}
use dlight_client.Pool.Keyed.{find, drop_key}
use dlight_client.Pool.Sharing.{
  lock_key, Sharing, reuse, miss, dialled, not_dialled, finish, fail, Reach, here, next,
}
use dlight_client.Client.Attempts.{Verdict-cases}
use dlight_client.Client.{
  Client, Attempt, Session, Network, done, judge, rounds, leave, after_drain, talk, drain_error,
  attempt_once, send_loop, pause, send_encoded, or_default, ssl_or_default, send_tcp_command,
}

-- A `DLightError`, or the cancellation of the task.
abbrev pub IsReported : Error → Type 0
IsReported e = (is_dlight_error e ≡ true) ⊎ (e ≡ cancelled)

abbrev Reports : Result Fields → Type 0
Reports (ok response) = Unit {0}
Reports (err e) = IsReported e

judge-Reports :
    (m : ℤ) (attempt : ℕ) (r r' : Result Fields) → judge m attempt r ≡ done r' → Reports r'
unfolding judge
judge-Reports m attempt r (ok response) h = tt
judge-Reports m attempt r (err e) h = ground arith

-- The state of the pool between commands, when no lock is held.
abbrev pub idle : Pool → Sharing
idle p = record { pool = p; locks = [] }

abbrev busy : Key → Option Connection → Pool → Sharing
busy key held p = record { pool = p; locks = record { key = key; held = held } ∷ [] }

find_own :
    (key : Key) (held : Option Connection) (p : Pool)
    → find lock_key key (busy key held p).locks ≡ some (record { key = key; held = held })
unfolding find
find_own key held p = rw same_key_refl refl

drop_own :
    (key : Key) (held : Option Connection) (p : Pool)
    → drop_key lock_key key (busy key held p).locks ≡ []
unfolding drop_key
drop_own key held p = rw same_key_refl refl

module _ (codec : Codec) (start : Sharing) (key : Key) (command : Fields) (a : Attempt) where
  leave-Reach :
      (c : Connection) (r : Result Fields × Stream) (s : Session)
      → Reach start (busy key (some c) s.pool)
      → Reach start (idle (leave codec key c a r s).1.pool)
  leave-Reach c (ok response, left) s before = next before (
      rw (drop_own key (some c) s.pool) at (
        finish {s = busy key (some c) s.pool} key a.closing a.finished left.bytes
          (find_own key (some c) s.pool) refl))
  leave-Reach c (err e, left) s before = next before (
      rw (drop_own key (some c) s.pool) at
        (fail {s = busy key (some c) s.pool} key (find_own key (some c) s.pool) refl))

  after_drain-Reach :
      (o : Option Error) (c : Connection) (s : Session)
      → Reach start (busy key (some c) s.pool)
      → Reach start (idle (after_drain codec o key command c a s).1.pool)
  after_drain-Reach (some e) c s before = leave-Reach c (err e, a.arrives) s before
  after_drain-Reach none c s before = leave-Reach c _ s before

  module _ (json_data : List ℕ) where
    dialling :
        (p : Pool) (r : Result Connection × Pool)
        → Reach start (busy key none p)
        → dial a.dial p ≡ r
        → (s : Session) → Reach start (idle (talk codec r key command json_data a s).1.pool)
    dialling p (ok c, p') before e s = after_drain-Reach (drain_error a.drain) c _ (
        next before (
          rw (drop_own key none p) at
            (dialled {s = busy key none p} key a.dial (find_own key none p) refl e)))
    dialling p (err e', p') before e s = next before (
        rw (drop_own key none p) at
          (not_dialled {s = busy key none p} key a.dial (find_own key none p) refl e))

    attempt-Reach :
        (s : Session)
        → Reach start (idle s.pool)
        → Reach start (idle (attempt_once codec key command json_data a s).1.pool)
    unfolding attempt_once checkout find
    attempt-Reach s before = go (take_cached key a.now a.probe s.pool) refl
      where
        go :
            (r : Option Connection × Pool)
            → take_cached key a.now a.probe s.pool ≡ r
            → Reach start (
                idle
                  (talk codec
                    (or_dial r a.dial)
                    key
                    command
                    json_data
                    a
                    (record s { attempts = suc s.attempts })).1.pool)
        go (some c, p) e =
            after_drain-Reach (drain_error a.drain) c _
              (next before (reuse key a.now a.probe refl e))
        go (none, p) e =
            dialling p (dial a.dial p) (next before (miss key a.now a.probe refl e)) refl _

module _ (codec : Codec) (network : Network) (client : Client) where
  loop_contract :
      (timeout left attempt : ℕ) (key : Key) (command : Fields) (json_data : List ℕ)
      (start : Sharing) (s : Session)
      → Reach start (idle s.pool)
      → let out : Result Fields × Session =
          send_loop codec network client timeout left attempt key command json_data s in
        Reports out.0 × Reach start (idle out.1.pool)
  unfolding send_loop
  loop_contract timeout zero attempt key command json_data start s before = (inl refl, before)
  loop_contract timeout (suc left) attempt key command json_data start s before =
      let turn : Result Fields × Session =
        attempt_once codec key command json_data (network s.attempts timeout) s in
      let after : Reach start (idle turn.1.pool) =
        attempt-Reach codec start key command (network s.attempts timeout) json_data s before in
      elim (Verdict-cases (judge client.max_retries attempt turn.0)) [
        | inl (r, j) ↦
            rw (j, send_loop) (judge-Reports client.max_retries attempt turn.0 r j, after)
        | inr j ↦
            rw (j, send_loop)
              (loop_contract timeout left (suc attempt) key command json_data start
                (pause codec network client timeout attempt turn.1) after)
      ]

  encode_error :
      (command : Fields) (e : Error) → encode_command codec command ≡ err e → IsReported e
  unfolding encode_command
  encode_error command e h = ground arith

  contract :
      (timeout : ℕ) (key : Key) (command : Fields) (encoded : Result (List ℕ)) (s : Session)
      → ((e : Error) → encoded ≡ err e → IsReported e)
      → let out : Result Fields × Session =
          send_encoded codec network client timeout key command encoded s in
        Reports out.0 × Reach (idle s.pool) (idle out.1.pool)
  contract timeout key command (err e) s reported = (reported e refl, here)
  contract timeout key command (ok json_data) s reported =
      loop_contract timeout (rounds client.max_retries) 0 key command json_data (idle s.pool) s here

  module _ (target_ip : List ℕ) (command : Fields) (port : ℕ) (ssl : SslArg) (timeout : Option ℕ)
      (s : Session) where
    command_contract :
        let out : Result Fields × Session =
          send_tcp_command codec network client target_ip command port ssl timeout s in
        Reports out.0 × Reach (idle s.pool) (idle out.1.pool)
    unfolding send_tcp_command
    command_contract =
        contract (or_default codec timeout client.default_timeout)
          (pool_key target_ip port (ssl_or_default codec ssl client.ssl)) command
          (encode_command codec command) s (encode_error command)

    -- Whatever the network does, and whatever exception it raises, a command that fails raises a
    -- `DLightError` or is cancelled.
    pub send_tcp_command-IsReported :
        (s' : Session) (e : Error)
        → send_tcp_command codec network client target_ip command port ssl timeout s ≡ (err e, s')
        → IsReported e
    send_tcp_command-IsReported s' e h = rw h at (command_contract.0)

    -- What a command does to the pool is a sequence of the pool's own steps, which begins and ends
    -- with no lock held.
    pub send_tcp_command-Reach :
        Reach
          (idle s.pool)
          (idle (send_tcp_command codec network client target_ip command port ssl timeout s).1.pool)
    send_tcp_command-Reach = command_contract.1
