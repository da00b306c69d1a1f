-- ===== src/Errors.antt =====
-- exceptions.py, the built-in exceptions that the package lets through, and methods that mutate
-- an object and may raise.
use dlight_client.Common.{Bool, true, false}

-- The package's classes first. `unexpected` stands for any other `Exception`, `RecursionError` among them; `cancelled` is
-- `asyncio.CancelledError`, which is a `BaseException` and no `Exception`.
pub data Error : Type 0 where
  dlight_error connection_error timeout_error command_error response_error : Error
  value_error type_error attribute_error key_error json_decode_error unexpected cancelled : Error

-- `except DLightError`
abbrev pub is_dlight_error : Error → Bool
is_dlight_error dlight_error = true
is_dlight_error connection_error = true
is_dlight_error timeout_error = true
is_dlight_error command_error = true
is_dlight_error response_error = true
is_dlight_error _ = false

-- `except DLightConnectionError`, which a `DLightTimeoutError` is too
abbrev pub is_connection_error : Error → Bool
is_connection_error connection_error = true
is_connection_error timeout_error = true
is_connection_error _ = false

-- `except Exception`
abbrev pub is_exception : Error → Bool
is_exception cancelled = false
is_exception _ = true

pub data Result {ℓ} (A : Type ℓ) : Type ℓ where
  ok : A → Result A
  err : Error → Result A

-- A pure chain of steps that may raise.
abbrev pub and_then {ℓ κ} : {A : Type ℓ} {B : Type κ} → Result A → (A → Result B) → Result B
and_then (ok a) f = f a
and_then (err e) f = err e

-- What was written before a raise stays written, so the state comes back beside the error too.
abbrev pub Action {ℓ} : Type ℓ → Type ℓ → Type ℓ
Action S A = S → Result A × S

module _ {ℓ} {S A : Type ℓ} where
  abbrev pub pure : A → Action S A
  pure a s = (ok a, s)

  abbrev pub raise : Error → Action S A
  raise e s = (err e, s)

  abbrev pub lift : Result A → Action S A
  lift r s = (r, s)

module _ {ℓ} {S A B : Type ℓ} where
  abbrev pub continue : Result A × S → (A → Action S B) → Result B × S
  continue (ok a, s) f = f a s
  continue (err e, s) f = (err e, s)

  infixl 10 ◌>>=◌ ◌>>◌
  abbrev pub ◌>>=◌ : Action S A → (A → Action S B) → Action S B
  ◌>>=◌ m f s = continue (m s) f

  abbrev pub ◌>>◌ : Action S A → Action S B → Action S B
  m >> n = m >>= λ _. n
