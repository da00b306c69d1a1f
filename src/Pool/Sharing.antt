-- ===== src/Pool/Sharing.antt =====
-- Concurrent exchanges over one pool: the atomic parts of `connection` of _pool.py, in any order.
use dlight_client.Common.{
  ℕ, ◌+◌, ◌≡◌, Option, none, some, Bool, true, List, ◌∷◌, eqb, ltb, is_some, if◌then◌else◌,
}
use dlight_client.Errors.{Error, ok, err}
use dlight_client.Pool.{
  Connection, Entry, Pool, Probe, Dial, key_of, take_cached, dial, evict, give_back, close_all,
  close_one,
}
use dlight_client.Pool.Endpoint.{Key}
use dlight_client.Pool.Keyed.{find, drop_key, UniqueKeys, total}

-- A lock that an exchange holds, and its connection; `none` while it dials.
pub record Lock : Type 0 where
  pub key : Key
  pub held : Option Connection

abbrev pub lock_key : Lock → Key
lock_key l = l.key

pub record Sharing : Type 0 where
  pub pool : Pool
  pub locks : List Lock

abbrev pub IsFree : Key → Sharing → Type 0
IsFree key s = find lock_key key s.locks ≡ none

-- Between two of these steps the event loop may run any other exchange. The bytes that a reader
-- holds may change while a connection is in use, its identity does not.
pub data Step : Sharing → Sharing → Type 0 where
  -- the lock is taken, and the cached connection is good
  reuse :
      {s : Sharing} {c : Connection} {p : Pool} (key : Key) (now : ℕ) (probe : Probe)
      → IsFree key s
      → take_cached key now probe s.pool ≡ (some c, p)
      → Step s (record { pool = p; locks = record { key = key; held = some c } ∷ s.locks })
  -- the lock is taken, and a connection has to be made
  miss :
      {s : Sharing} {p : Pool} (key : Key) (now : ℕ) (probe : Probe)
      → IsFree key s
      → take_cached key now probe s.pool ≡ (none, p)
      → Step s (record { pool = p; locks = record { key = key; held = none } ∷ s.locks })
  dialled :
      {s : Sharing} {l : Lock} {c : Connection} {p : Pool} (key : Key) (d : Dial)
      → find lock_key key s.locks ≡ some l
      → l.held ≡ none
      → dial d s.pool ≡ (ok c, p)
      → Step s (record {
        pool = p;
        locks = record { key = key; held = some c } ∷ drop_key lock_key key s.locks;
      })
  not_dialled :
      {s : Sharing} {l : Lock} {e : Error} {p : Pool} (key : Key) (d : Dial)
      → find lock_key key s.locks ≡ some l
      → l.held ≡ none
      → dial d s.pool ≡ (err e, p)
      → Step s (record { pool = p; locks = drop_key lock_key key s.locks })
  -- the body of `connection` ends, without an exception and with one
  finish :
      {s : Sharing} {l : Lock} {c : Connection} (key : Key) (closing : Bool) (now : ℕ)
      (buffered : List ℕ)
      → find lock_key key s.locks ≡ some l
      → l.held ≡ some c
      → Step s (record {
        pool = give_back key (record c { buffered = buffered }) closing now s.pool;
        locks = drop_key lock_key key s.locks;
      })
  fail :
      {s : Sharing} {l : Lock} {c : Connection} (key : Key)
      → find lock_key key s.locks ≡ some l
      → l.held ≡ some c
      → Step s (record { pool = evict c s.pool; locks = drop_key lock_key key s.locks })
  close : {s : Sharing} → Step s (record s { pool = close_all s.pool })
  -- one round of the loop of `close_all`, up to its await
  pop : {s : Sharing} → Step s (record s { pool = close_one s.pool })
  configure :
      {s : Sharing} (persistent : Bool) (idle_timeout : ℕ)
      → Step s (record s {
        pool = record s.pool { persistent = persistent; idle_timeout = idle_timeout };
      })

pub data Reach (s : Sharing) : Sharing → Type 0 where
  here : Reach s s
  next : {t u : Sharing} → Reach s t → Step t u → Reach s u

-- How often a connection is among those closed, in the pool, and in use.
abbrev pub in_closed : ℕ → ℕ → ℕ
in_closed id c = if eqb c id then 1 else 0

abbrev pub in_entry : ℕ → Entry → ℕ
in_entry id e = if eqb e.connection.id id then 1 else 0

abbrev pub in_held : ℕ → Option Connection → ℕ
in_held id none = 0
in_held id (some c) = if eqb c.id id then 1 else 0

abbrev pub in_lock : ℕ → Lock → ℕ
in_lock id l = in_held id l.held

abbrev pub at_rest : ℕ → Pool → ℕ
at_rest id p = total (in_closed id) p.closed + total (in_entry id) p.connections

abbrev pub places : ℕ → Sharing → ℕ
places id s = at_rest id s.pool + total (in_lock id) s.locks

pub record IsSound (s : Sharing) : Type 0 where
  -- each connection that was opened is in one place, and no other connection is anywhere
  pub custody : (id : ℕ) → places id s ≡ (if ltb id s.pool.opened then 1 else 0)
  pub unique_entries : UniqueKeys key_of s.pool.connections
  pub unique_locks : UniqueKeys lock_key s.locks
  -- while a key is locked the pool has nothing under it
  pub apart :
      (key : Key)
      → is_some (find lock_key key s.locks) ≡ true
      → find key_of key s.pool.connections ≡ none
