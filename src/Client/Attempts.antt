-- ===== src/Client/Attempts.antt =====
-- One attempt: what it writes, and what it leaves in the pool.
use mathlib.Core.List.{append-nil}
use dlight_client.Common.{
  ℕ, suc, ◌≤◌, ◌≡◌, ◌⊎◌, inl, inr, refl, sym, Option, none, some, List, [], ◌∷◌, ◌++◌, arith,
  length, All,
}
use dlight_client.Errors.{Error, Result, ok, err}
use dlight_client.Json.{Fields}
use dlight_client.Codec.{Codec}
use dlight_client.Frame.{Stream}
use dlight_client.Pool.{Connection, Pool, checkout}
use dlight_client.Pool.Endpoint.{Key}
use dlight_client.Client.{
  Attempt, Session, Verdict, done, again, drain_error, leave, after_drain, talk, attempt_once,
}

-- The bytes of a command, and nothing else, on any connections.
abbrev pub Copies : List ℕ → List (ℕ × List ℕ) → Type 0
Copies json_data sent = All (λ w. w.1 ≡ json_data) sent

-- What one attempt does to the session.
pub record Turn (json_data : List ℕ) (s s' : Session) : Type 0 where
  pub attempts : s'.attempts ≡ suc s.attempts
  pub sleeps : s'.sleeps ≡ s.sleeps
  pub ids : s'.ids ≡ s.ids
  pub sent : List (ℕ × List ℕ)
  pub wire : s'.wire ≡ s.wire ++ sent
  pub once : length sent ≤ 1
  pub copies : Copies json_data sent

-- The same fields after the command was written, or before.
abbrev Unchanged : Session → Session → Type 0
Unchanged s s' =
    (s'.attempts ≡ s.attempts) × (s'.sleeps ≡ s.sleeps) × (s'.ids ≡ s.ids) × (s'.wire ≡ s.wire)

module _ (codec : Codec) (key : Key) (command : Fields) (a : Attempt) where
  leave-Unchanged :
      (c : Connection) (r : Result Fields × Stream) (s : Session)
      → Unchanged s (leave codec key c a r s).1
  leave-Unchanged c (ok response, left) s = (refl, refl, refl, refl)
  leave-Unchanged c (err e, left) s = (refl, refl, refl, refl)

  after_drain-Unchanged :
      (o : Option Error) (c : Connection) (s : Session)
      → Unchanged s (after_drain codec o key command c a s).1
  after_drain-Unchanged (some e) c s = (refl, refl, refl, refl)
  after_drain-Unchanged none c s = leave-Unchanged c _ s

  module _ (json_data : List ℕ) where
    talk-Turn :
        (r : Result Connection × Pool) (s : Session)
        → Turn json_data s
            (talk codec r key command json_data a (record s { attempts = suc s.attempts })).1
    talk-Turn (err e, p) s = record {
      attempts = refl;
      sleeps = refl;
      ids = refl;
      sent = [];
      wire = sym (append-nil s.wire);
      once = omega arith;
      copies = tt;
    }
    talk-Turn (ok c, p) s =
        let s₁ : Session = record s {
          pool = p;
          attempts = suc s.attempts;
          wire = s.wire ++ (c.id, json_data) ∷ [];
        } in
        let u : Unchanged s₁ (after_drain codec (drain_error a.drain) key command c a s₁).1 =
          after_drain-Unchanged (drain_error a.drain) c s₁ in
        record {
          attempts = u.0;
          sleeps = u.1;
          ids = u.2;
          sent = (c.id, json_data) ∷ [];
          wire = u.3;
          once = omega arith;
          copies = (refl, tt);
        }

    -- An attempt writes the command at most once.
    pub attempt_once-Turn :
        (s : Session) → Turn json_data s (attempt_once codec key command json_data a s).1
    unfolding attempt_once
    attempt_once-Turn s = talk-Turn (checkout key a.now a.probe a.dial s.pool) s

-- To split on what the loop does next.
pub Verdict-cases : (v : Verdict) → ((r : Result Fields) × (v ≡ done r)) ⊎ (v ≡ again)
Verdict-cases (done r) = inl (r, refl)
Verdict-cases again = inr refl
