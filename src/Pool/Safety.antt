-- ===== src/Pool/Safety.antt =====
-- The pool stays sound under every step of its concurrent exchanges.
use dlight_client.Common.{
  ◌⊎◌, ap, Option-cases, ℕ, ◌+◌, suc, ◌≡◌, refl, Option, none, some, Bool, [], ◌∷◌, ltb, is_some,
  if◌then◌else◌, arith, Bool-cases, inl, inr, true, false,
}
use dlight_client.Errors.{ok}
use dlight_client.Pool.{
  close_one, Connection, Pool, Probe, Dial, key_of, take_cached, dial, evict, give_back, close_all,
  empty_pool,
}
use dlight_client.Pool.Endpoint.{Key, same_key}
use dlight_client.Pool.Endpoint.Separation.{same_key→eq}
use dlight_client.Pool.Keyed.{
  find, drop_key, UniqueKeys, total, total-drop_key, find-drop_key_absent, find-drop_key_self,
  drop_key-UniqueKeys,
}
use dlight_client.Pool.Sharing.{
  Lock, lock_key, Sharing, IsFree, Step, reuse, miss, dialled, not_dialled, finish, fail, close,
  pop, configure, Reach, here, next, in_held, in_lock, at_rest, places, IsSound,
}
use dlight_client.Pool.Custody.{
  close_one_rest, close_one_opened, close_one-UniqueKeys, close_one_absent, take_cached_rest,
  take_cached_connections, take_cached_opened, dial_rest, dial_failed, close_all_rest,
  close_all_state, evict_opened, evict_connections, evict_rest, give_back_rest, give_back_opened,
  give_back_unique, give_back_apart, locked_before, other_key,
}

-- The steps of an exchange under one key.
module _ (s : Sharing) (h : IsSound s) (key : Key) where
  -- Taking the lock of a key and popping its entry.
  popped_apart :
      (j : Key)
      → (same_key key j ≡ false → find key_of j s.pool.connections ≡ none)
      → find key_of j (drop_key key_of key s.pool.connections) ≡ none
  popped_apart j other = elim (Bool-cases (same_key key j)) [
    | inl same ↦
        rw (← same_key→eq key j same)
          (find-drop_key_self key_of key s.pool.connections h.unique_entries)
    | inr differs ↦ find-drop_key_absent key_of key j s.pool.connections (other differs)
  ]

  taken :
      (now : ℕ) (probe : Probe) (got : Option Connection) (p : Pool)
      → IsFree key s
      → take_cached key now probe s.pool ≡ (got, p)
      → IsSound (record { pool = p; locks = record { key = key; held = got } ∷ s.locks })
  unfolding find
  taken now probe got p free e =
      let es : p.connections ≡ drop_key key_of key s.pool.connections =
        rw e at (take_cached_connections key now probe s.pool) in
      let n : p.opened ≡ s.pool.opened = rw e at (take_cached_opened key now probe s.pool) in
      record {
        custody = λ id.
            let r : at_rest id s.pool ≡ at_rest id p + in_held id got =
              rw e at (take_cached_rest key now probe s.pool id) in
            rw n (ground (arith, h.custody id));
        unique_entries = rw es (drop_key-UniqueKeys key_of key s.pool.connections h.unique_entries);
        unique_locks = (free, h.unique_locks);
        apart = λ j locked. rw es (popped_apart j (λ differs. h.apart j (rw differs at locked)));
      }

  module _ (l : Lock) (found : find lock_key key s.locks ≡ some l) where
    lock_weight :
        (id : ℕ)
        → total (in_lock id) s.locks
          ≡ total (in_lock id) (drop_key lock_key key s.locks) + in_held id l.held
    lock_weight id = rw found at (total-drop_key lock_key (in_lock id) key s.locks)

    -- Releasing the lock, when its connection has gone to rest in the pool `p`.
    released :
        (p : Pool)
        → ((id : ℕ) → at_rest id p ≡ at_rest id s.pool + in_held id l.held)
        → p.opened ≡ s.pool.opened
        → UniqueKeys key_of p.connections
        → ((j : Key)
            → find key_of j s.pool.connections ≡ none
            → same_key key j ≡ false
            → find key_of j p.connections ≡ none)
        → IsSound (record { pool = p; locks = drop_key lock_key key s.locks })
    released p rest n unique others = record {
      custody = λ id. rw n (ground (arith, h.custody id, rest id, lock_weight id));
      unique_entries = unique;
      unique_locks = drop_key-UniqueKeys lock_key key s.locks h.unique_locks;
      apart = λ j locked.
          others j (h.apart j (locked_before key j s.locks locked))
            (other_key key j s.locks locked h.unique_locks);
    }

    still_locked :
        (j : Key) (held : Option Connection)
        → is_some
            (find lock_key j (record { key = key; held = held } ∷ drop_key lock_key key s.locks))
          ≡ true
        → is_some (find lock_key j s.locks) ≡ true
    unfolding find
    still_locked j held locked = elim (Bool-cases (same_key key j)) [
      | inl same ↦ rw (← same_key→eq key j same) (rw found refl)
      | inr differs ↦ locked_before key j s.locks (rw differs at locked)
    ]

    -- A dialled connection under the lock that was taken for it.
    filled :
        (c : Connection) (p : Pool) (d : Dial)
        → l.held ≡ none
        → dial d s.pool ≡ (ok c, p)
        → IsSound (record {
          pool = p;
          locks = record { key = key; held = some c } ∷ drop_key lock_key key s.locks;
        })
    filled c p d empty e =
        let es : p.connections ≡ s.pool.connections = (dial_rest d s.pool c p 0 e).1 in
        let n : p.opened ≡ suc s.pool.opened = (dial_rest d s.pool c p 0 e).2 in
        record {
          custody = λ id.
              let w : total (in_lock id) s.locks
                  ≡ total (in_lock id) (drop_key lock_key key s.locks) =
                ground (arith, lock_weight id) in
              rw n (ground (arith, h.custody id, dial_rest d s.pool c p id e, w));
          unique_entries = rw es h.unique_entries;
          unique_locks = (
            find-drop_key_self lock_key key s.locks h.unique_locks,
            drop_key-UniqueKeys lock_key key s.locks h.unique_locks,
          );
          apart = λ j locked. rw es (h.apart j (still_locked j (some c) locked));
        }

close_all-IsSound : (s : Sharing) → IsSound s → IsSound (record s { pool = close_all s.pool })
unfolding find
close_all-IsSound s h = record {
  custody =
      λ id. rw (close_all_state s.pool).1 (ground (arith, h.custody id, close_all_rest id s.pool));
  unique_entries = rw (close_all_state s.pool).0 tt;
  unique_locks = h.unique_locks;
  apart = λ j locked. rw (close_all_state s.pool).0 refl;
}

close_one-IsSound : (s : Sharing) → IsSound s → IsSound (record s { pool = close_one s.pool })
close_one-IsSound s h = record {
  custody = λ id.
      rw (close_one_opened s.pool)
        (ground (arith, h.custody id, close_one_rest id s.pool h.unique_entries));
  unique_entries = close_one-UniqueKeys s.pool h.unique_entries;
  unique_locks = h.unique_locks;
  apart = λ j locked. close_one_absent s.pool j (h.apart j locked);
}

-- Every step of any exchange keeps the pool sound.
pub Step-IsSound : {s t : Sharing} → Step s t → IsSound s → IsSound t
Step-IsSound {s} (reuse {c} {p} key now probe free e) h = taken s h key now probe (some c) p free e
Step-IsSound {s} (miss {p} key now probe free e) h = taken s h key now probe none p free e
Step-IsSound {s} (dialled {l} {c} {p} key d found empty e) h = filled s h key l found c p d empty e
Step-IsSound {s} (not_dialled {l} {p} key d found empty e) h = rw (dial_failed d s.pool _ p e) (
    released s h key l found s.pool (λ id. rw empty (omega arith)) refl h.unique_entries
      (λ j absent differs. absent))
Step-IsSound {s} (finish {l} {c} key closing now buffered found held) h =
    let kept : Connection = record c { buffered = buffered } in
    let vacant : find key_of key s.pool.connections ≡ none = h.apart key (rw found refl) in
    released s h key l found (give_back key kept closing now s.pool)
      (λ id. rw held (give_back_rest key kept closing now s.pool id vacant))
      (give_back_opened key kept closing now s.pool)
      (give_back_unique key kept closing now s.pool vacant h.unique_entries)
      (give_back_apart key kept closing now s.pool)
Step-IsSound {s} (fail {l} {c} key found held) h =
    released s h key l found (evict c s.pool) (λ id. rw held (evict_rest id c s.pool))
      (evict_opened c s.pool) (rw evict_connections h.unique_entries)
      (λ j absent differs. rw evict_connections absent)
Step-IsSound {s} close h = close_all-IsSound s h
Step-IsSound {s} pop h = close_one-IsSound s h
Step-IsSound {s} (configure persistent idle_timeout) h = record {
  custody = h.custody;
  unique_entries = h.unique_entries;
  unique_locks = h.unique_locks;
  apart = h.apart;
}

pub Reach-IsSound : {s t : Sharing} → IsSound s → Reach s t → IsSound t
Reach-IsSound h here = h
Reach-IsSound h (next r step) = Step-IsSound step (Reach-IsSound h r)

-- No connection, and no lock held.
abbrev pub start : Bool → ℕ → Sharing
start persistent idle_timeout = record { pool = empty_pool persistent idle_timeout; locks = [] }

pub start-IsSound : (persistent : Bool) (idle_timeout : ℕ) → IsSound (start persistent idle_timeout)
unfolding find
start-IsSound persistent idle_timeout = record {
  custody = λ id. ground arith;
  unique_entries = tt;
  unique_locks = tt;
  apart = λ j locked. refl;
}

-- In every state that exchanges, closings and changes of the settings can reach from an empty pool,
-- in any order, each connection that was opened is in exactly one place: closed, in the pool under
-- one key, or in use by one exchange. None is leaked, shared, or in use after it was closed. And no
-- endpoint that is in use has another connection in the pool.
pub reachable_custody :
    (persistent : Bool) (idle_timeout : ℕ) (t : Sharing)
    → Reach (start persistent idle_timeout) t
    → ((id : ℕ) → places id t ≡ (if ltb id t.pool.opened then 1 else 0))
      × ((key : Key)
          → (find lock_key key t.locks ≡ none) ⊎ (find key_of key t.pool.connections ≡ none))
reachable_custody persistent idle_timeout t r =
    let sound = Reach-IsSound (start-IsSound persistent idle_timeout) r in
    (
      sound.custody,
      λ key. elim (Option-cases (find lock_key key t.locks)) [
        | inl free ↦ inl free
        | inr (l, locked) ↦ inr (sound.apart key (ap is_some locked))
      ],
    )
