-- ===== src/Client/Dropped.antt =====
-- The connection of a command that fails: it is not used again.
use dlight_client.Common.{
  ℕ, zero, suc, ◌≡◌, refl, sym, ◌∙◌, ap, Option, none, some, Bool, true, false, List, arith, inl,
  inr, ℤ, pos,
}
use mathlib.Core.Path.{subst}
use dlight_client.Errors.{Error, Result, ok, err}
use dlight_client.Json.{Fields}
use dlight_client.Codec.{Codec}
use dlight_client.Frame.{Stream, encode_command}
use dlight_client.Pool.{
  Connection, Pool, evict, Probe, Dial, key_of, checkout, or_dial, take_cached, dial,
}
use dlight_client.Pool.Custody.{take_cached_connections}
use dlight_client.Pool.Endpoint.{Key, SslArg, pool_key}
use dlight_client.Pool.Keyed.{
  find, drop_key, UniqueKeys, find-drop_key_self, drop_key-UniqueKeys, drop_key_absent,
}
use dlight_client.Client.Attempts.{Verdict-cases}
use dlight_client.Client.{
  Client, Attempt, Session, Network, done, again, judge, rounds, leave, after_drain, talk,
  drain_error, attempt_once, send_loop, pause, send_encoded, or_default, ssl_or_default,
  send_tcp_command,
}

-- A result that is an exception.
abbrev failed : Result Fields → Bool
failed (ok response) = false
failed (err e) = true

dial_connections : (d : Dial) (p : Pool) → (dial d p).1.connections ≡ p.connections
unfolding dial
dial_connections d p = ground arith

or_dial_connections :
    (r : Option Connection × Pool) (d : Dial) → (or_dial r d).1.connections ≡ r.1.connections
or_dial_connections (some c, p) d = refl
or_dial_connections (none, p) d = dial_connections d p

checkout_connections :
    (key : Key) (now : ℕ) (probe : Probe) (d : Dial) (p : Pool)
    → (checkout key now probe d p).1.connections ≡ drop_key key_of key p.connections
unfolding checkout
checkout_connections key now probe d p =
    or_dial_connections (take_cached key now probe p) d ∙ take_cached_connections key now probe p

judge_done_failed :
    (m : ℤ) (attempt : ℕ) (r r' : Result Fields)
    → judge m attempt r ≡ done r'
    → failed r' ≡ true
    → failed r ≡ true
unfolding judge
judge_done_failed m attempt r r' j h = ground arith

judge_again_failed :
    (m : ℤ) (attempt : ℕ) (r : Result Fields) → judge m attempt r ≡ again → failed r ≡ true
unfolding judge
judge_again_failed m attempt r j = ground arith

-- Nothing is cached for the endpoint of a failed command, and the other entries are kept.
abbrev Dropped : Key → Pool → Result Fields × Session → Type 0
Dropped key p out = failed out.0 ≡ true → out.1.pool.connections ≡ drop_key key_of key p.connections

module _ (codec : Codec) (key : Key) (command : Fields) (a : Attempt) where
  leave_dropped :
      (c : Connection) (r : Result Fields × Stream) (s : Session)
      → failed (leave codec key c a r s).0 ≡ true
      → (leave codec key c a r s).1.pool.connections ≡ s.pool.connections
  unfolding evict
  leave_dropped c (ok response, left) s h = ground arith
  leave_dropped c (err e, left) s h = refl

  after_drain_dropped :
      (o : Option Error) (c : Connection) (s : Session)
      → failed (after_drain codec o key command c a s).0 ≡ true
      → (after_drain codec o key command c a s).1.pool.connections ≡ s.pool.connections
  unfolding evict
  after_drain_dropped (some e) c s h = refl
  after_drain_dropped none c s h = leave_dropped c _ s h

  talk_dropped :
      (r : Result Connection × Pool) (json_data : List ℕ) (s : Session)
      → failed (talk codec r key command json_data a s).0 ≡ true
      → (talk codec r key command json_data a s).1.pool.connections ≡ r.1.connections
  talk_dropped (err e, p) json_data s h = refl
  talk_dropped (ok c, p) json_data s h = after_drain_dropped (drain_error a.drain) c _ h

  attempt_dropped :
      (json_data : List ℕ) (s : Session)
      → failed (attempt_once codec key command json_data a s).0 ≡ true
      → (attempt_once codec key command json_data a s).1.pool.connections
        ≡ drop_key key_of key s.pool.connections
  unfolding attempt_once
  attempt_dropped json_data s h =
      talk_dropped (checkout key a.now a.probe a.dial s.pool) json_data _ h
      ∙ checkout_connections key a.now a.probe a.dial s.pool

module _ (codec : Codec) (network : Network) (client : Client) where
  drop_twice :
      (key : Key) (p : Pool)
      → UniqueKeys key_of p.connections
      → drop_key key_of key (drop_key key_of key p.connections) ≡ drop_key key_of key p.connections
  drop_twice key p u =
      drop_key_absent key_of key (drop_key key_of key p.connections)
        (find-drop_key_self key_of key p.connections u)

  turn : ℕ → Key → Fields → List ℕ → Session → Result Fields × Session
  turn timeout key command json_data s =
      attempt_once codec key command json_data (network s.attempts timeout) s

  -- The loop ends with the result of an attempt.
  last-Dropped :
      (timeout attempt : ℕ) (key : Key) (command : Fields) (json_data : List ℕ) (s : Session)
      (r : Result Fields)
      → judge client.max_retries attempt (turn timeout key command json_data s).0 ≡ done r
      → Dropped key s.pool (r, (turn timeout key command json_data s).1)
  unfolding turn
  last-Dropped timeout attempt key command json_data s r j h =
      attempt_dropped codec key command (network s.attempts timeout) json_data s (
        judge_done_failed client.max_retries attempt (turn timeout key command json_data s).0 r j h)

  -- An attempt that is made again has failed.
  again_dropped :
      (timeout attempt : ℕ) (key : Key) (command : Fields) (json_data : List ℕ) (s : Session)
      → judge client.max_retries attempt (turn timeout key command json_data s).0 ≡ again
      → (turn timeout key command json_data s).1.pool.connections
        ≡ drop_key key_of key s.pool.connections
  unfolding turn
  again_dropped timeout attempt key command json_data s j =
      attempt_dropped codec key command (network s.attempts timeout) json_data s
        (judge_again_failed client.max_retries attempt (turn timeout key command json_data s).0 j)

  send_loop-Dropped :
      (timeout left attempt : ℕ) (key : Key) (command : Fields) (json_data : List ℕ) (s : Session)
      → UniqueKeys key_of s.pool.connections
      → Dropped key s.pool
          (send_loop codec network client timeout (suc left) attempt key command json_data s)
  unfolding send_loop turn
  send_loop-Dropped timeout zero attempt key command json_data s u =
      elim (Verdict-cases
        (judge client.max_retries attempt (turn timeout key command json_data s).0)) [
          | inl (r, j) ↦
              rw (j, send_loop) (last-Dropped timeout attempt key command json_data s r j)
          | inr j ↦ rw (j, send_loop) (λ h. again_dropped timeout attempt key command json_data s j)
        ]
  send_loop-Dropped timeout (suc left) attempt key command json_data s u =
      elim (Verdict-cases
        (judge client.max_retries attempt (turn timeout key command json_data s).0)) [
          | inl (r, j) ↦
              rw (j, send_loop) (last-Dropped timeout attempt key command json_data s r j)
          | inr j ↦
              rw (j, send_loop)
                (λ h.
                  let e = again_dropped timeout attempt key command json_data s j in
                  send_loop-Dropped timeout left (suc attempt) key command json_data
                    (pause codec network client timeout attempt
                      (turn timeout key command json_data s).1)
                    (subst (UniqueKeys key_of) (sym e)
                      (drop_key-UniqueKeys key_of key s.pool.connections u))
                    h
                  ∙ (ap (drop_key key_of key) e ∙ drop_twice key s.pool u))
        ]

-- An absent key leaves nothing to reuse and nothing to close.
take_cached_absent :
    (key : Key) (now : ℕ) (probe : Probe) (p : Pool)
    → find key_of key p.connections ≡ none
    → take_cached key now probe p ≡ (none, p)
unfolding take_cached
take_cached_absent key now probe p absent =
    rw (absent, drop_key_absent key_of key p.connections absent) refl

module _ (codec : Codec) (network : Network) (client : Client) where
  -- A command that could be encoded and yet ends with an exception, of a client with max_retries at 0
  -- or above and one entry for each endpoint in its pool, leaves the pool's entries as they were but
  -- for its own endpoint, which has none: the next command to it finds nothing to reuse and nothing
  -- to close, whatever the clock and the sockets say.
  pub send_tcp_command_dropped :
      (target_ip : List ℕ) (command : Fields) (port : ℕ) (ssl : SslArg) (timeout : Option ℕ)
      (s s' : Session) (n : ℕ) (json_data : List ℕ) (e : Error) (now : ℕ) (probe : Probe)
      → UniqueKeys key_of s.pool.connections
      → client.max_retries ≡ pos n
      → encode_command codec command ≡ ok json_data
      → send_tcp_command codec network client target_ip command port ssl timeout s ≡ (err e, s')
      → let key : Key = pool_key target_ip port (ssl_or_default codec ssl client.ssl) in
        (s'.pool.connections ≡ drop_key key_of key s.pool.connections)
        × (take_cached key now probe s'.pool ≡ (none, s'.pool))
  unfolding send_tcp_command
  send_tcp_command_dropped target_ip command port ssl timeout s s' n json_data e now probe u m c q =
      let key : Key = pool_key target_ip port (ssl_or_default codec ssl client.ssl) in
      let time : ℕ = or_default codec timeout client.default_timeout in
      let looped : send_loop codec network client time (suc n) 0 key command json_data s
          ≡ (err e, s') =
        sym (
          ap (λ r. send_encoded codec network client time key command r s) c
          ∙ ap (λ k. send_loop codec network client time (rounds k) 0 key command json_data s) m)
        ∙ q in
      let gone : s'.pool.connections ≡ drop_key key_of key s.pool.connections =
        subst (Dropped key s.pool) looped
          (send_loop-Dropped codec network client time n 0 key command json_data s u) refl in
      (
        gone,
        take_cached_absent key now probe s'.pool
            (ap (find key_of key) gone ∙ find-drop_key_self key_of key s.pool.connections u),
      )
