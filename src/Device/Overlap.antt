-- ===== src/Device/Overlap.antt =====
-- Methods of one device that run at the same time, as steps of the event loop: a method up to its
-- await, and what it does when the client has answered. The cache is shared by all.
pub mod Plain
pub mod Agreement
pub mod Stale
pub mod Refresh
use dlight_client.Common.{
  ◌≡◌, Option, none, some, Bool, true, String, ℤ, is_some, ◌||◌, ◌==◌, if◌then◌else◌,
}
use dlight_client.Errors.{Error, key_error, Result, ok, err}
use dlight_client.Json.{Json, bool, num, Fields, get, put, remove}
use dlight_client.Device.State.{not_none, with_temperature, saved_color}

pub data Method : Type 0 where
  switch : Bool → Method
  brightness temperature : ℤ → Method

-- The key that a method writes to.
abbrev pub key_of : Method → String
key_of (switch on) = "on"
key_of (brightness z) = "brightness"
key_of (temperature z) = "color"

-- The value that it writes.
abbrev pub value_of : Method → Fields → Json
value_of (switch on) fs = bool on
value_of (brightness z) fs = num z
value_of (temperature z) fs = with_temperature (get "color" fs) (num z)

-- The value that it saves for a rollback.
abbrev pub saved : Method → Fields → Result (Option Json)
saved (temperature z) fs = saved_color (num z) (get "color" fs)
saved m fs = ok (get (key_of m) fs)

-- A method that waits for the client: what it wrote and what it saved.
pub record Pending : Type 0 where
  pub written : Json
  pub old : Option Json

-- `known` is what the lamp has. No two methods on one key wait at a time. A key is in doubt once a
-- method on it was cancelled, a command on it reached the lamp and its answer was lost, or a state
-- query was answered while a method on it waited.
pub record Shared : Type 0 where
  pub cache : Fields
  pub known : Fields
  pub pending : String → Option Pending
  pub in_doubt : String → Bool

abbrev pub set_pending :
    String → Option Pending → (String → Option Pending) → String → Option Pending
set_pending k p pending j = if k == j then p else pending j

abbrev pub begun : Method → Option Json → Shared → Shared
begun m old s = record s {
  cache = put (key_of m) (value_of m s.cache) s.cache;
  pending =
      set_pending (key_of m) (some (record { written = value_of m s.cache; old = old })) s.pending;
}

-- `except Exception`: `del` of a key that is not there is a `KeyError`.
abbrev pub revert : Option Json → String → Fields → Result Fields
revert (some v) k fs = ok (put k v fs)
revert none k fs = if is_some (get k fs) then ok (remove k fs) else err key_error

-- The command of a method is accepted.
abbrev pub after_accepted : String → Pending → Shared → Shared
after_accepted k p s = record s {
  known = put k p.written s.known;
  pending = set_pending k none s.pending;
}

-- `get_state` gets the lamp's states.
abbrev pub refresh : Shared → Shared
refresh s = record s { cache = s.known; in_doubt = λ k. s.in_doubt k || is_some (s.pending k) }

-- The answer to a command that the lamp has executed is lost.
abbrev pub after_lost : String → Shared → Shared
after_lost k s = record s { in_doubt = λ j. s.in_doubt j || k == j }

-- A `CancelledError` is no `Exception`: the value that was written stays.
abbrev pub after_cancelled : String → Shared → Shared
after_cancelled k s = record s {
  pending = set_pending k none s.pending;
  in_doubt = λ j. s.in_doubt j || k == j;
}

pub data Step (s : Shared) : Shared → Type 0 where
  begins :
      (m : Method) (old : Option Json)
      → s.pending (key_of m) ≡ none
      → saved m s.cache ≡ ok old
      → Step s (begun m old s)
  accepted : (k : String) (p : Pending) → s.pending k ≡ some p → Step s (after_accepted k p s)
  failed :
      (k : String) (p : Pending) (fs : Fields)
      → s.pending k ≡ some p
      → revert (not_none p.old) k s.cache ≡ ok fs
      → Step s (record s { cache = fs; pending = set_pending k none s.pending })
  -- the rollback itself raises
  broken :
      (k : String) (p : Pending) (e : Error)
      → s.pending k ≡ some p
      → revert (not_none p.old) k s.cache ≡ err e
      → Step s (record s { pending = set_pending k none s.pending })
  -- the command may have been sent by then, or not
  cancelled : (k : String) (p : Pending) → s.pending k ≡ some p → Step s (after_cancelled k s)
  -- one attempt of a command is executed by the lamp, and the client has no answer to it
  lost : (k : String) → Step s (after_lost k s)
  -- what such a command, or a cancelled one, makes of the lamp, whenever it does
  strays :
      (k : String) (v : Json) → s.in_doubt k ≡ true → Step s (record s { known = put k v s.known })
  -- `get_state(True)` is answered
  queried : Step s (refresh s)

pub data Reach (s : Shared) : Shared → Type 0 where
  here : Reach s s
  next : {t u : Shared} → Reach s t → Step t u → Reach s u
