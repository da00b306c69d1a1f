-- ===== src/Remote/Wire/Conversation.antt =====
-- What becomes of the commands of a client, one after the other.
use dlight_client.Common.{◌≡◌, ◌≤◌, ◌+◌, sym, ℕ, suc, Option, String, List, [], ◌∷◌, ℤ}
use mathlib.Core.Path.{subst}
use dlight_client.Errors.{Result, ok, err, value_error, timeout_error}
use dlight_client.Json.{obj, Fields}
use dlight_client.Models.{acknowledged}
use dlight_client.Codec.Printer.{print}
use dlight_client.Pool.{late}
use dlight_client.Client.{Client, Network}
use dlight_client.Lamp.{Info}
use dlight_client.Lamp.Control.{Lamp}
use dlight_client.Lamp.Server.Script.{joined}
use dlight_client.Lamp.Reports.{Change}
use dlight_client.Remote.Wire.{handled, Wired}
use dlight_client.Remote.Wire.Retried.{AreLate}
use dlight_client.Remote.Wire.Requests.{IsInRange, IsOutOfRange, command_of}

module _ (int_of : String → Option ℤ) (info : Info) (network : Network) (client : Client)
    (command_ids : ℕ → String) (device_id : String) (n : ℕ) where
  abbrev time : ℕ
  time = client.default_timeout

  -- What becomes of these changes, from this attempt and this command id on, for a client with
  -- max_retries at n: what the methods give, and the changes that reach the lamp; the lamp before the
  -- first and after the last one.
  pub data Conversation
      : List Change → List (Result Fields) → List Change → ℕ → ℕ → Lamp → Lamp → Type 0 where
    over : {attempts ids : ℕ} {lamp : Lamp} → Conversation [] [] [] attempts ids lamp lamp
    -- a value out of range
    refused :
        {c : Change} {cs heard : List Change} {replies : List (Result Fields)} {attempts ids : ℕ}
        {lamp last : Lamp}
        → IsOutOfRange c
        → Conversation cs replies heard attempts ids lamp last
        → Conversation (c ∷ cs) (err value_error ∷ replies) heard attempts ids lamp last
    -- some attempts fail to dial in time, then one connects, and the bytes of the command come to the
    -- lamp in pieces
    obeyed :
        {c : Change} {cs heard : List Change} {replies : List (Result Fields)} {attempts ids : ℕ}
        {lamp last : Lamp} (failures : ℕ) (pieces : List (List ℕ))
        → IsInRange c
        → failures ≤ n
        → AreLate network time failures attempts
        → Wired int_of info (network (failures + attempts) time) pieces lamp
        → joined pieces ≡ print (obj (command_of (command_ids ids) device_id c))
        → Conversation cs replies heard
            (suc (failures + attempts))
            (suc ids)
            (handled int_of info pieces lamp).1
            last
        → Conversation (c ∷ cs) (ok acknowledged ∷ replies) (c ∷ heard) attempts ids lamp last
    -- all attempts fail to dial in time
    lost :
        {c : Change} {cs heard : List Change} {replies : List (Result Fields)} {attempts ids : ℕ}
        {lamp last : Lamp}
        → IsInRange c
        → AreLate network time n attempts
        → (network (n + attempts) time).dial ≡ late
        → Conversation cs replies heard (suc (n + attempts)) (suc ids) lamp last
        → Conversation (c ∷ cs) (err timeout_error ∷ replies) heard attempts ids lamp last

  pub moved :
      {a a' i i' : ℕ} {lamp lamp' : Lamp} (cs heard : List Change) (rs : List (Result Fields))
      (last : Lamp)
      → a' ≡ a
      → i' ≡ i
      → lamp ≡ lamp'
      → Conversation cs rs heard a i lamp last
      → Conversation cs rs heard a' i' lamp' last
  moved {a'} {i} {i'} {lamp} cs heard rs last p q r x =
      subst (λ y. Conversation cs rs heard a' i' y last) r
        (subst (λ j. Conversation cs rs heard a' j lamp last) (sym q)
          (subst (λ b. Conversation cs rs heard b i lamp last) (sym p) x))
