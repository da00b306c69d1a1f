-- ===== src/Client/Context.antt =====
-- `AsyncDLightClient` as a context manager: tasks that use the client, and the closing after them.
use dlight_client.Common.{◌≡◌, ap, arith, ℕ, ◌+◌, Bool, [], ltb, if◌then◌else◌}
use dlight_client.Pool.{close_one}
use dlight_client.Pool.Keyed.{total}
use dlight_client.Pool.Sharing.{
  Sharing, Reach, here, next, pop, IsSound, in_closed, in_entry, in_lock,
}
use dlight_client.Pool.Safety.{Reach-IsSound, start, start-IsSound}

-- `__aexit__`, until it returns: while the pool has connections, one is popped and closed, and before
-- the next look other tasks may take any steps.
pub data Exits : Sharing → Sharing → Type 0 where
  empties : {s : Sharing} → s.pool.connections ≡ [] → Exits s s
  closes :
      {s t u : Sharing} → Reach (record s { pool = close_one s.pool }) t → Exits t u → Exits s u

Exits-IsSound : {s t : Sharing} → IsSound s → Exits s t → IsSound t
Exits-IsSound h (empties e) = h
Exits-IsSound {s} h (closes r x) =
    Exits-IsSound (Reach-IsSound (Reach-IsSound h (next here pop)) r) x

Exits-emptied : {s t : Sharing} → Exits s t → t.pool.connections ≡ []
Exits-emptied (empties e) = e
Exits-emptied (closes r x) = Exits-emptied x

-- A block `async with` around any tasks that use a new client, one after the other or at the same
-- time, through exchanges, closings and changes of the settings: when the closing at its end returns,
-- whatever tasks that are left do meanwhile, the pool is empty, and each connection that was ever
-- opened has been closed exactly once or is in use by exactly one exchange that still runs.
pub Exits-closed :
    (persistent : Bool) (idle_timeout : ℕ) (t u : Sharing)
    → Reach (start persistent idle_timeout) t
    → Exits t u
    → (u.pool.connections ≡ [])
      × ((id : ℕ)
          → total (in_closed id) u.pool.closed + total (in_lock id) u.locks
            ≡ (if ltb id u.pool.opened then 1 else 0))
Exits-closed persistent idle_timeout t u r x =
    let sound = Exits-IsSound (Reach-IsSound (start-IsSound persistent idle_timeout) r) x in
    let gone = Exits-emptied x in
    (gone, λ id. ground (arith, sound.custody id, ap (total (in_entry id)) gone))
