-- ===== src/Remote/Wire/Retried.antt =====
-- A command whose first attempts fail to dial in time.
use mathlib.Core.Path.{subst}
use dlight_client.Common.{
  ◌≡◌, ◌<◌, ◌≤◌, refl, sym, ap, ◌∙◌, arith, ℕ, zero, suc, ◌+◌, Option, List, [], ◌++◌, ℤ, pos,
}
use dlight_client.Errors.{Result, ok, err, timeout_error}
use dlight_client.Json.{Fields}
use dlight_client.Codec.{Codec}
use dlight_client.Pool.{late}
use dlight_client.Pool.Endpoint.{Key, SslArg, pool_key}
use dlight_client.Frame.{encode_command}
use mathlib.Core.List.{append-nil}
use dlight_client.Client.{
  Client, Attempt, Session, Network, done, again, judge, attempt_once, send_loop, pause, or_default,
  ssl_or_default, send_encoded, rounds, send_tcp_command,
}
use dlight_client.Remote.Wire.{Ended, IsLater, IsUnpooled, nothing_cached, attempt_late}

-- So many attempts in a row fail to dial in time.
abbrev pub AreLate : Network → ℕ → ℕ → ℕ → Type 0
AreLate network time zero attempts = Unit
AreLate network time (suc k) attempts =
    ((network attempts time).dial ≡ late) × AreLate network time k (suc attempts)

judge_late : (n attempt : ℕ) → attempt < n → judge (pos n) attempt (err timeout_error) ≡ again
unfolding judge
judge_late n attempt h = ground arith

pub judge_ok : (m : ℤ) (attempt : ℕ) (reply : Fields) → judge m attempt (ok reply) ≡ done (ok reply)
unfolding judge
judge_ok m attempt reply = refl

pub judge_last : (n : ℕ) → judge (pos n) n (err timeout_error) ≡ done (err timeout_error)
unfolding judge
judge_last n = ground arith

then :
    {failures : ℕ} {s s₁ s' : Session}
    → IsLater 1 s s₁
    → IsLater failures s₁ s'
    → IsLater (suc failures) s s'
then l l' = record {
  attempts = omega (arith, l.attempts, l'.attempts);
  ids = l'.ids ∙ l.ids;
  wire = l'.wire ∙ l.wire;
  opened = l'.opened ∙ l.opened;
  unpooled = l'.unpooled;
}

since :
    {failures : ℕ} {s s₁ : Session} {r : Result Fields} {written : List (ℕ × List ℕ)}
    {out : Result Fields × Session}
    → IsLater 1 s s₁
    → Ended failures s₁ r written out
    → Ended (suc failures) s r written out
since {written} l ended = record {
  result = ended.result;
  wire = ended.wire ∙ ap (◌++ written) l.wire;
  attempts = omega (arith, l.attempts, ended.attempts);
  ids = ended.ids ∙ l.ids;
  unpooled = λ u. ended.unpooled l.unpooled;
}

module _ (codec : Codec) (network : Network) (client : Client) (time : ℕ) (key : Key)
    (command : Fields) (json_data : List ℕ) where
  abbrev attempted : Session → Result Fields × Session
  attempted s = attempt_once codec key command json_data (network s.attempts time) s

  abbrev looped : ℕ → ℕ → Session → Result Fields × Session
  looped left attempt s = send_loop codec network client time left attempt key command json_data s

  looped_done :
      (left attempt : ℕ) (s : Session) (r : Result Fields)
      → judge client.max_retries attempt r ≡ done r
      → (attempted s).0 ≡ r
      → looped (suc left) attempt s ≡ attempted s
  unfolding send_loop
  looped_done left attempt s r final h =
      let judged : judge client.max_retries attempt (attempted s).0 ≡ done r =
        ap (judge client.max_retries attempt) h ∙ final in
      rw (judged, send_loop) (ap (λ (r' : Result Fields). (r', (attempted s).1)) (sym h))

  looped_again :
      (left attempt : ℕ) (s : Session)
      → judge client.max_retries attempt (attempted s).0 ≡ again
      → looped (suc left) attempt s
        ≡ looped left (suc attempt) (pause codec network client time attempt (attempted s).1)
  unfolding send_loop
  looped_again left attempt s judged = rw (judged, send_loop) refl

  -- After an attempt in vain and the pause.
  later :
      (attempt : ℕ) (s : Session)
      → IsUnpooled s
      → (network s.attempts time).dial ≡ late
      → ((attempted s).0 ≡ err timeout_error)
        × IsLater 1 s (pause codec network client time attempt (attempted s).1)
  later attempt s u dials =
      let (told, l) =
        attempt_late key command (network s.attempts time) s (nothing_cached s key u) codec
          json_data u dials in
      (
        told,
        record {
          attempts = l.attempts;
          ids = l.ids;
          wire = l.wire;
          opened = l.opened;
          unpooled = l.unpooled;
        },
      )

  -- The loop after some attempts in vain, and one more which is the last.
  pub looped-Ended :
      (n : ℕ) (r : Result Fields) (written : List (ℕ × List ℕ))
      → client.max_retries ≡ pos n
      → (failures left attempt : ℕ) (s : Session) → left + attempt ≡ suc n
      → failures < left
      → judge client.max_retries (failures + attempt) r ≡ done r
      → IsUnpooled s
      → AreLate network time failures s.attempts
      → ((s' : Session) → IsLater failures s s' → Ended 0 s' r written (attempted s'))
      → Ended failures s r written (looped left attempt s)
  looped-Ended n r written m failures zero attempt s e few final u lates last = absurd (omega arith)
  looped-Ended n r written m zero (suc left) attempt s e few final u lates last =
      let ended =
        last s (record {
          attempts = omega arith;
          ids = refl;
          wire = refl;
          opened = refl;
          unpooled = u;
        }) in
      let index : judge client.max_retries attempt r ≡ done r =
        subst (λ k. judge client.max_retries k r ≡ done r) {x = 0 + attempt} (omega arith) final in
      subst (Ended 0 s r written) (sym (looped_done left attempt s r index ended.result)) ended
  looped-Ended n r written m (suc failures) (suc left) attempt s e few final u lates last =
      let (told, l) = later attempt s u (lates.0) in
      let s₁ : Session = pause codec network client time attempt (attempted s).1 in
      let retried : judge client.max_retries attempt (attempted s).0 ≡ again =
        ap (judge client.max_retries attempt) told
        ∙ ap (λ k. judge k attempt (err timeout_error)) m
        ∙ judge_late n attempt (omega arith) in
      let rest =
        looped-Ended n r written m failures left (suc attempt) s₁ (omega arith) (omega arith)
          (subst (λ k. judge client.max_retries k r ≡ done r) {x = suc failures + attempt}
            (omega arith) final)
          l.unpooled
          (subst (AreLate network time failures) {x = suc s.attempts} (omega (arith, l.attempts))
            (lates.1))
          (λ s' l'. last s' (then l l')) in
      subst (Ended (suc failures) s r written) (sym (looped_again left attempt s retried))
        (since l rest)

-- A command to a client without connections: some attempts in vain, as many as it is allowed at most,
-- and one that is the last.
pub send-Ended :
    (codec : Codec) (network : Network) (client : Client) (target_ip : List ℕ) (command : Fields)
    (port : ℕ) (ssl : SslArg) (timeout : Option ℕ) (s : Session) (n failures : ℕ)
    (json_data : List ℕ) (r : Result Fields) (written : List (ℕ × List ℕ))
    → client.max_retries ≡ pos n
    → encode_command codec command ≡ ok json_data
    → failures ≤ n
    → judge client.max_retries failures r ≡ done r
    → IsUnpooled s
    → let time : ℕ = or_default codec timeout client.default_timeout in
      let key : Key = pool_key target_ip port (ssl_or_default codec ssl client.ssl) in
      AreLate network time failures s.attempts
      → ((s' : Session)
          → IsLater failures s s'
          → Ended 0 s' r written
              (attempt_once codec key command json_data (network s'.attempts time) s'))
      → Ended failures s r written
          (send_tcp_command codec network client target_ip command port ssl timeout s)
unfolding send_tcp_command
send-Ended codec network client target_ip command port ssl timeout s n failures json_data r written
      m c few final u lates last =
    let time : ℕ = or_default codec timeout client.default_timeout in
    let key : Key = pool_key target_ip port (ssl_or_default codec ssl client.ssl) in
    subst (Ended failures s r written)
      (sym (
        ap (λ r'. send_encoded codec network client time key command r' s) c
        ∙ ap (λ k. send_loop codec network client time (rounds k) 0 key command json_data s) m))
      (looped-Ended codec network client time key command json_data n r written m failures (suc n) 0
        s (omega arith) (omega arith)
        (subst (λ k. judge client.max_retries k r ≡ done r) {y = failures + 0} (omega arith) final)
        u lates last)

-- An attempt in vain that is the last.
pub late-Ended :
    (codec : Codec) (key : Key) (command : Fields) (json_data : List ℕ) (a : Attempt) (s : Session)
    → IsUnpooled s
    → a.dial ≡ late
    → Ended 0 s (err timeout_error) [] (attempt_once codec key command json_data a s)
late-Ended codec key command json_data a s u dials =
    let (told, l) = attempt_late key command a s (nothing_cached s key u) codec json_data u dials in
    record {
      result = told;
      wire = l.wire ∙ sym (append-nil s.wire);
      attempts = omega (arith, l.attempts);
      ids = l.ids;
      unpooled = λ before. l.unpooled;
    }
