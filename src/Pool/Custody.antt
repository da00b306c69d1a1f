-- ===== src/Pool/Custody.antt =====
-- Every connection is in one place, however the exchanges interleave.
use mathlib.Core.Path.{subst}
use dlight_client.Common.{
  Option-cases, ◌≢◌, sym, ◌∙◌, ℕ, ◌+◌, suc, ◌≡◌, refl, Option, none, some, Bool, List, [], ◌∷◌,
  is_some, arith, Bool-cases, inl, inr, ◌&&◌, not, true, false,
}
use dlight_client.Errors.{Error, ok, err}
use dlight_client.Pool.{
  close_one, youngest, Connection, Entry, Pool, Probe, Dial, key_of, take_cached, dial, evict,
  give_back, close_all, close_entries,
}
use dlight_client.Pool.Endpoint.{Key, same_key}
use dlight_client.Pool.Endpoint.Separation.{same_key→eq, same_key_refl}
use dlight_client.Pool.Keyed.{
  drop_key-UniqueKeys, find, drop_key, UniqueKeys, total, total-drop_key, total-store,
  store-UniqueKeys, find-store_absent, find-drop_key_absent, find-drop_key_self,
}
use dlight_client.Pool.Sharing.{Lock, lock_key, in_closed, in_entry, in_held, at_rest}

none_ne_some : {e : Entry} → ◌≢◌ {A = Option Entry} none (some e)
none_ne_some h = cc

-- The pop, and the closing of what is stale, lose nothing.
pub take_cached_rest :
    (key : Key) (now : ℕ) (probe : Probe) (p : Pool) (id : ℕ)
    → let r : Option Connection × Pool = take_cached key now probe p in
      at_rest id p ≡ at_rest id r.1 + in_held id r.0
unfolding take_cached
take_cached_rest key now probe p id =
    ground (arith, total-drop_key key_of (in_entry id) key p.connections)

pub take_cached_connections :
    (key : Key) (now : ℕ) (probe : Probe) (p : Pool)
    → (take_cached key now probe p).1.connections ≡ drop_key key_of key p.connections
unfolding take_cached
take_cached_connections key now probe p = ground arith

pub take_cached_opened :
    (key : Key) (now : ℕ) (probe : Probe) (p : Pool)
    → (take_cached key now probe p).1.opened ≡ p.opened
unfolding take_cached
take_cached_opened key now probe p = ground arith

pub dial_rest :
    (d : Dial) (p : Pool) (c : Connection) (p' : Pool) (id : ℕ)
    → dial d p ≡ (ok c, p')
    → (at_rest id p' ≡ at_rest id p)
      × (p'.connections ≡ p.connections)
      × (p'.opened ≡ suc p.opened)
      × (c.id ≡ p.opened)
unfolding dial
dial_rest d p c p' id h = ground arith

pub dial_failed : (d : Dial) (p : Pool) (e : Error) (p' : Pool) → dial d p ≡ (err e, p') → p' ≡ p
unfolding dial
dial_failed d p e p' h = ground arith

total-close_entries :
    (id : ℕ) (es : List Entry) (closed : List ℕ)
    → total (in_closed id) (close_entries es closed)
      ≡ total (in_closed id) closed + total (in_entry id) es
unfolding close_entries
total-close_entries id [] closed = omega arith
total-close_entries id (e ∷ es) closed = omega (arith, total-close_entries id es closed)

pub close_all_rest : (id : ℕ) (p : Pool) → at_rest id (close_all p) ≡ at_rest id p
unfolding close_all
close_all_rest id p = omega (arith, total-close_entries id p.connections p.closed)

pub close_all_state :
    (p : Pool) → ((close_all p).connections ≡ []) × ((close_all p).opened ≡ p.opened)
unfolding close_all
close_all_state p = (refl, refl)

youngest-find :
    (es : List Entry) (e : Entry)
    → UniqueKeys key_of es
    → youngest es ≡ some e
    → find key_of e.key es ≡ some e
unfolding find
youngest-find [] e u h = absurd (cc h)
youngest-find (x ∷ []) e u h = ground (arith, same_key_refl e.key)
youngest-find (x ∷ y ∷ es) e u h =
    let found : find key_of e.key (y ∷ es) ≡ some e = youngest-find (y ∷ es) e u.1 h in
    elim (Bool-cases (same_key x.key e.key)) [
      | inl same ↦
          let missing : find key_of e.key (y ∷ es) ≡ none =
            subst (λ k. find key_of k (y ∷ es) ≡ none) (same_key→eq x.key e.key same) u.0 in
          absurd (none_ne_some (sym missing ∙ found))
      | inr differs ↦ rw differs found
    ]

-- What one round of the closing loop does.
pub close_one_rest :
    (id : ℕ) (p : Pool) → UniqueKeys key_of p.connections → at_rest id (close_one p) ≡ at_rest id p
unfolding close_one
close_one_rest id p u = elim (Option-cases (youngest p.connections)) [
  | inl empty ↦ rw empty refl
  | inr (e, last) ↦
      let found = youngest-find p.connections e u last in
      rw last (ground (arith, total-drop_key key_of (in_entry id) e.key p.connections, found))
]

pub close_one_opened : (p : Pool) → (close_one p).opened ≡ p.opened
unfolding close_one
close_one_opened p = elim (Option-cases (youngest p.connections)) [
  | inl empty ↦ rw empty refl
  | inr (e, last) ↦ rw last refl
]

pub close_one-UniqueKeys :
    (p : Pool) → UniqueKeys key_of p.connections → UniqueKeys key_of (close_one p).connections
unfolding close_one
close_one-UniqueKeys p u = elim (Option-cases (youngest p.connections)) [
  | inl empty ↦ rw empty u
  | inr (e, last) ↦ rw last (drop_key-UniqueKeys key_of e.key p.connections u)
]

pub close_one_absent :
    (p : Pool) (key : Key)
    → find key_of key p.connections ≡ none
    → find key_of key (close_one p).connections ≡ none
unfolding close_one
close_one_absent p key h = elim (Option-cases (youngest p.connections)) [
  | inl empty ↦ rw empty h
  | inr (e, last) ↦ rw last (find-drop_key_absent key_of e.key key p.connections h)
]

pub evict_opened : (c : Connection) (p : Pool) → (evict c p).opened ≡ p.opened
unfolding evict
evict_opened c p = refl

pub evict_connections : (c : Connection) (p : Pool) → (evict c p).connections ≡ p.connections
unfolding evict
evict_connections c p = refl

pub evict_rest :
    (id : ℕ) (c : Connection) (p : Pool)
    → at_rest id (evict c p) ≡ at_rest id p + in_held id (some c)
unfolding evict
evict_rest id c p = omega arith

module _ (key : Key) (c : Connection) (closing : Bool) (now : ℕ) (p : Pool) where
  kept : Entry
  kept = record { key = key; connection = c; last_activity = now }

  pub give_back_rest :
      (id : ℕ)
      → find key_of key p.connections ≡ none
      → at_rest id (give_back key c closing now p) ≡ at_rest id p + in_held id (some c)
  unfolding give_back kept
  give_back_rest id h = ground (arith, total-store key_of (in_entry id) kept p.connections)

  pub give_back_opened : (give_back key c closing now p).opened ≡ p.opened
  unfolding give_back
  give_back_opened = ground arith

  pub give_back_unique :
      find key_of key p.connections ≡ none
      → UniqueKeys key_of p.connections
      → UniqueKeys key_of (give_back key c closing now p).connections
  unfolding give_back kept
  give_back_unique h u = elim (Bool-cases (p.persistent && not closing)) [
    | inl stays ↦ rw stays (store-UniqueKeys key_of kept p.connections h u)
    | inr goes ↦ rw goes u
  ]

  pub give_back_apart :
      (j : Key)
      → find key_of j p.connections ≡ none
      → same_key key j ≡ false
      → find key_of j (give_back key c closing now p).connections ≡ none
  unfolding give_back kept
  give_back_apart j h differs = elim (Bool-cases (p.persistent && not closing)) [
    | inl stays ↦ rw stays (find-store_absent key_of kept j p.connections h differs)
    | inr goes ↦ rw goes h
  ]

-- Releasing a lock leaves the other locks, and only those.
module _ (key j : Key) (locks : List Lock)
    (still : is_some (find lock_key j (drop_key lock_key key locks)) ≡ true) where
  pub locked_before : is_some (find lock_key j locks) ≡ true
  locked_before = ground (arith, find-drop_key_absent lock_key key j locks)

  pub other_key : UniqueKeys lock_key locks → same_key key j ≡ false
  other_key u = elim (Bool-cases (same_key key j)) [
    | inl same ↦
        let e : key ≡ j = same_key→eq key j same in
        let gone : find lock_key j (drop_key lock_key key locks) ≡ none =
          rw (← e) (find-drop_key_self lock_key key locks u) in
        ground arith
    | inr differs ↦ differs
  ]
