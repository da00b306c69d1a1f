-- ===== src/Examples/Pooled.antt =====
-- The theorems on the pool.
use dlight_client.Common.{
  ◌+◌, false, ℕ, ◌≡◌, refl, none, some, true, [], ◌∷◌, ltb, ◌⊎◌, if◌then◌else◌,
}
use dlight_client.Client.Context.{Exits, closes, empties, Exits-closed}
use dlight_client.Pool.{give_back, close_one, connected, take_cached, dial, empty_pool, key_of}
use dlight_client.Pool.Endpoint.{Key, flag, same_key}
use dlight_client.Pool.Endpoint.Separation.{pool_key_injective}
use dlight_client.Pool.Keyed.{find, drop_key, store, total}
use dlight_client.Pool.Sharing.{
  finish, in_closed, in_lock, lock_key, Sharing, Reach, here, next, miss, dialled, places,
}
use dlight_client.Pool.Safety.{start, reachable_custody}
use dlight_client.Examples.Samples.{host, idle_probe}

-- One exchange has dialled.
abbrev in_use : Sharing
in_use = record {
  pool = record (empty_pool true 60000) { opened = 1 };
  locks = record { key = 1 ∷ []; held = some (record { id = 0; buffered = [] }) } ∷ [];
}

reached : Reach (start true 60000) in_use
unfolding find drop_key take_cached dial same_key
reached =
    next (next here (miss (1 ∷ []) 1000 idle_probe refl refl))
      (dialled {l = record { key = 1 ∷ []; held = none }} (1 ∷ []) connected refl refl refl)

reachable_custody_example :
    ((id : ℕ) → places id in_use ≡ (if ltb id 1 then 1 else 0))
    × ((key : Key)
        → (find lock_key key in_use.locks ≡ none)
          ⊎ (find key_of key in_use.pool.connections ≡ none))
reachable_custody_example = reachable_custody true 60000 in_use reached

pool_key_injective_example : (host ≡ host) × (◌≡◌ {A = ℕ} 3333 3333) × (flag true ≡ flag true)
pool_key_injective_example = pool_key_injective host host 3333 3333 (flag true) (flag true) refl

-- The one exchange ends, and the pool is closed.
abbrev pooled : Sharing
pooled = record {
  pool = record (empty_pool true 60000) {
    opened = 1;
    connections =
        record { key = 1 ∷ []; connection = record { id = 0; buffered = [] }; last_activity = 1001 }
        ∷ [];
  };
  locks = [];
}

pooled-Reach : Reach (start true 60000) pooled
unfolding find drop_key give_back same_key store
pooled-Reach = next reached (
    finish {l = record { key = 1 ∷ []; held = some (record { id = 0; buffered = [] }) }} (1 ∷ [])
      false 1001 [] refl refl)

abbrev shut : Sharing
shut = record { pool = record (empty_pool true 60000) { opened = 1; closed = 0 ∷ [] }; locks = [] }

pooled-Exits : Exits pooled shut
unfolding close_one drop_key same_key
pooled-Exits = closes here (empties refl)

Exits-closed_example :
    (shut.pool.connections ≡ [])
    × ((id : ℕ)
        → total (in_closed id) shut.pool.closed + total (in_lock id) shut.locks
          ≡ (if ltb id 1 then 1 else 0))
Exits-closed_example = Exits-closed true 60000 pooled shut pooled-Reach pooled-Exits
