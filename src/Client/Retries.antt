-- ===== src/Client/Retries.antt =====
-- The retry loop of `_async_send_tcp_command`: how often it tries, writes and waits.
use mathlib.Core.List.{append_assoc, append-nil}
use dlight_client.Common.{
  ℕ, zero, suc, ◌+◌, ◌*◌, ◌^◌, ◌≤◌, ◌<◌, ◌≡◌, refl, sym, ◌∙◌, ap, Option, Bool, true, false, List,
  [], ◌∷◌, ◌++◌, arith, length, All-append, length-append, inl, inr, ℤ, pos,
}
use dlight_client.Errors.{Result, ok, err, is_connection_error}
use dlight_client.Json.{Fields}
use dlight_client.Codec.{Codec}
use dlight_client.Frame.{encode_command}
use dlight_client.Pool.Endpoint.{Key, SslArg, pool_key}
use dlight_client.Client.{
  Client, Session, Network, done, again, judge, rounds, attempt_once, send_loop, pause,
  send_encoded, or_default, ssl_or_default, send_tcp_command,
}
use dlight_client.Client.Attempts.{Turn, Copies, attempt_once-Turn, Verdict-cases}

-- The pauses after the attempts from `attempt` on, `n` of them.
abbrev pub backoffs : ℕ → ℕ → ℕ → List ℕ
backoffs backoff attempt zero = []
backoffs backoff attempt (suc n) = (backoff * 2 ^ attempt) ∷ backoffs backoff (suc attempt) n

abbrev pub is_transient : Result Fields → Bool
is_transient (ok response) = false
is_transient (err e) = is_connection_error e

-- What the loop did when it had `left` retries left: it used `extra` of them.
pub record Run (client : Client) (json_data : List ℕ) (left attempt : ℕ) (s : Session)
    (out : Result Fields × Session) : Type 0 where
  pub extra : ℕ
  pub bounded : extra ≤ left
  pub attempts : out.1.attempts ≡ s.attempts + suc extra
  pub sleeps : out.1.sleeps ≡ s.sleeps ++ backoffs client.retry_backoff attempt extra
  pub sent : List (ℕ × List ℕ)
  pub wire : out.1.wire ≡ s.wire ++ sent
  pub few : length sent ≤ suc extra
  pub copies : Copies json_data sent
  pub exhausted : is_transient out.0 ≡ true → extra ≡ left

module _ (client : Client) (json_data : List ℕ) where
  Run-last :
      (left attempt : ℕ) (s s' : Session) (r : Result Fields)
      → Turn json_data s s'
      → (is_transient r ≡ true → 0 ≡ left)
      → Run client json_data left attempt s (r, s')
  Run-last left attempt s s' r t last = record {
    extra = 0;
    bounded = omega arith;
    attempts = omega (arith, t.attempts);
    sleeps = t.sleeps ∙ sym (append-nil s.sleeps);
    sent = t.sent;
    wire = t.wire;
    few = t.once;
    copies = t.copies;
    exhausted = last;
  }

  Run-more :
      (left attempt : ℕ) (s s' : Session) (out : Result Fields × Session)
      → Turn json_data s s'
      → Run client json_data left
          (suc attempt)
          (record s' { sleeps = s'.sleeps ++ (client.retry_backoff * 2 ^ attempt) ∷ [] })
          out
      → Run client json_data (suc left) attempt s out
  Run-more left attempt s s' out t more = record {
    extra = suc more.extra;
    bounded = omega (arith, more.bounded);
    attempts = omega (arith, t.attempts, more.attempts);
    sleeps =
        more.sleeps
        ∙ append_assoc s'.sleeps ((client.retry_backoff * 2 ^ attempt) ∷ [])
            (backoffs client.retry_backoff (suc attempt) more.extra)
        ∙ ap (λ w. w ++ backoffs client.retry_backoff attempt (suc more.extra)) t.sleeps;
    sent = t.sent ++ more.sent;
    wire = more.wire ∙ ap (λ w. w ++ more.sent) t.wire ∙ append_assoc s.wire t.sent more.sent;
    few = omega (arith, length-append t.sent more.sent, t.once, more.few);
    copies = All-append (λ w. w.1 ≡ json_data) t.sent more.sent t.copies more.copies;
    exhausted = λ h. ap suc (more.exhausted h);
  }

judge_done :
    (m : ℤ) (n attempt left : ℕ) (r r' : Result Fields)
    → m ≡ pos n
    → n ≡ attempt + left
    → judge m attempt r ≡ done r'
    → is_transient r' ≡ true
    → 0 ≡ left
unfolding judge
judge_done m n attempt left r r' e f j h = ground arith

judge_again :
    (m : ℤ) (n attempt left : ℕ) (r : Result Fields)
    → m ≡ pos n
    → n ≡ attempt + left
    → judge m attempt r ≡ again
    → 0 < left
unfolding judge
judge_again m n attempt left r e f j = ground arith

module _ (codec : Codec) (network : Network) (client : Client) (timeout : ℕ) where
  module _ (key : Key) (command : Fields) (json_data : List ℕ) where
    turn : Session → Result Fields × Session
    turn s = attempt_once codec key command json_data (network s.attempts timeout) s

    turn-Turn : (s : Session) → Turn json_data s (turn s).1
    unfolding turn
    turn-Turn s = attempt_once-Turn codec key command (network s.attempts timeout) json_data s

    -- With `max_retries` at 0 or above, and as many rounds left as the loop has, it ends by a
    -- verdict and never by running out.
    send_loop-Run :
        (n left attempt : ℕ) (s : Session)
        → client.max_retries ≡ pos n
        → n ≡ attempt + left
        → Run client json_data left attempt s
            (send_loop codec network client timeout (suc left) attempt key command json_data s)
    unfolding send_loop turn
    send_loop-Run n zero attempt s e f =
        elim (Verdict-cases (judge client.max_retries attempt (turn s).0)) [
          | inl (r, j) ↦
              rw (j, send_loop)
                (Run-last client json_data zero attempt s (turn s).1 r (turn-Turn s) (λ h. refl))
          | inr j ↦
              absurd (omega (arith, judge_again client.max_retries n attempt zero (turn s).0 e f j))
        ]
    send_loop-Run n (suc left) attempt s e f =
        elim (Verdict-cases (judge client.max_retries attempt (turn s).0)) [
          | inl (r, j) ↦
              rw (j, send_loop)
                (Run-last client json_data (suc left) attempt s (turn s).1 r (turn-Turn s)
                  (judge_done client.max_retries n attempt (suc left) (turn s).0 r e f j))
          | inr j ↦
              rw (j, send_loop)
                (Run-more client json_data left attempt s (turn s).1 _ (turn-Turn s) (
                  send_loop-Run n left (suc attempt)
                    (pause codec network client timeout attempt (turn s).1) e (omega arith)))
        ]

-- The command, or the failure to encode it.
abbrev pub Sent : Client → Session → Result (List ℕ) → ℕ → Result Fields × Session → Type 0
Sent client s (err e) n out = out ≡ (err e, s)
Sent client s (ok json_data) n out = Run client json_data n 0 s out

module _ (codec : Codec) (network : Network) (client : Client) where
  -- With `max_retries` at n, a command that cannot be encoded is reported and nothing is done. Any
  -- other is tried once and then again at most n times, with pauses of retry_backoff, twice, four
  -- times that and so on between the attempts. What is written are copies of the encoded command,
  -- at most one for each attempt, so at most n + 1. A transient error is raised only when all n
  -- retries are used up.
  pub send_tcp_command-Sent :
      (target_ip : List ℕ) (command : Fields) (port : ℕ) (ssl : SslArg) (timeout : Option ℕ)
      (s : Session) (n : ℕ)
      → client.max_retries ≡ pos n
      → Sent client s
          (encode_command codec command)
          n
          (send_tcp_command codec network client target_ip command port ssl timeout s)
  unfolding send_tcp_command
  send_tcp_command-Sent target_ip command port ssl timeout s n e = go (encode_command codec command)
    where
      go :
          (r : Result (List ℕ))
          → Sent client s r n (
              send_encoded codec network client
                (or_default codec timeout client.default_timeout)
                (pool_key target_ip port (ssl_or_default codec ssl client.ssl))
                command
                r
                s)
      go (err e') = refl
      go (ok json_data) = rw (ap rounds e) (
          send_loop-Run codec network client (or_default codec timeout client.default_timeout)
            (pool_key target_ip port (ssl_or_default codec ssl client.ssl)) command json_data n n 0
            s e (omega arith))
