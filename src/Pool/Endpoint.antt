-- ===== src/Pool/Endpoint.antt =====
-- The key of a pooled connection, `_key` of _pool.py.
pub mod Separation
use dlight_client.Common.{ℕ, Bool, true, false, ◌&&◌, List, [], ◌∷◌, ◌++◌, eqb, decimal, codes}

-- The `ssl` argument: `None`, a bool, or an `SSLContext` by its `id`.
pub data SslArg : Type 0 where
  absent : SslArg
  flag : Bool → SslArg
  context : ℕ → SslArg

abbrev pub Key : Type 0
Key = List ℕ

-- `ssl_identifier`
unfoldable pub ssl_identifier : SslArg → List ℕ
unfolding decimal
ssl_identifier absent = codes "None"
ssl_identifier (flag true) = codes "True"
ssl_identifier (flag false) = codes "False"
ssl_identifier (context id) = codes "ctx_" ++ decimal id

-- f"{host}:{port}:{ssl_identifier}"
unfoldable pub pool_key : List ℕ → ℕ → SslArg → Key
unfolding ssl_identifier
pool_key host port ssl = (host ++ b':' ∷ decimal port) ++ b':' ∷ ssl_identifier ssl

-- `==` on texts
unfoldable pub same_key : Key → Key → Bool
same_key [] [] = true
same_key (a ∷ as_) (b ∷ bs) = eqb a b && same_key as_ bs
same_key _ _ = false
