-- ===== src/Device/Overlap/Agreement.antt =====
-- What overlapping methods leave in the cache.
use mathlib.Core.Path.{subst}
use dlight_client.Common.{
  ◌≢◌, ap, arith, Bool, Option-cases, is_some, ◌||◌, eq_iff, ◌≡◌, refl, sym, ◌∙◌, inl, inr, Option,
  none, some, true, false, String, ◌==◌, eq_refl, Bool-cases,
}
use dlight_client.Errors.{Error, Result, ok, err, key_error}
use dlight_client.Json.{Json, Fields, get, put, remove}
use dlight_client.Json.Dict.{get-put}
use dlight_client.Json.Keys.{HasUniqueKeys, put-HasUniqueKeys, get-remove, remove-HasUniqueKeys}
use dlight_client.Device.State.{not_none}
use dlight_client.Device.Overlap.Plain.{
  IsPlain, Fits, IsTracked, value_of-IsPlain, saved-eq, not_none-IsPlain, Fits-update, put_other,
  put_self, free_agrees, waits-Fits,
}
use dlight_client.Device.Overlap.{
  Method, key_of, value_of, saved, Pending, Shared, set_pending, begun, revert, Step, begins,
  accepted, failed, broken, cancelled, strays, queried, refresh, after_cancelled, after_lost, lost,
  Reach, here, next,
}

begins-IsTracked :
    (s : Shared) (m : Method) (old : Option Json)
    → IsTracked s
    → s.pending (key_of m) ≡ none
    → saved m s.cache ≡ ok old
    → IsTracked (begun m old s)
begins-IsTracked s m old t free kept =
    let k : String = key_of m in
    record {
      fits =
          Fits-update k (some (record { written = value_of m s.cache; old = old })) s.pending
            s.in_doubt (λ j. get j s.cache) (λ j. get j (put k (value_of m s.cache) s.cache))
            (λ j. get j s.known) (λ j. get j s.known)
            (λ sure.
              let same : get k s.cache ≡ get k s.known = free_agrees s k t sure free in
              (
                put_self k (value_of m s.cache) s.cache,
                saved-eq m old s.cache (λ v e. t.plain k v sure (sym same ∙ e)) kept ∙ same,
                value_of-IsPlain m s.cache,
              ))
            (λ j h. (put_other k j (value_of m s.cache) s.cache h, refl)) t.fits;
      plain = t.plain;
      keys = put-HasUniqueKeys k (value_of m s.cache) s.cache t.keys;
      known_keys = t.known_keys;
    }

put_at : (k j : String) (v : Json) (fs : Fields) → (k == j) ≡ true → get j (put k v fs) ≡ some v
put_at k j v fs h = get-put k j v fs ∙ rw h refl

put-IsPlain :
    (k j : String) (w v : Json) (fs : Fields)
    → IsPlain w
    → (get j fs ≡ some v → IsPlain v)
    → get j (put k w fs) ≡ some v
    → IsPlain v
put-IsPlain k j w v fs pw old h = elim (Bool-cases (k == j)) [
  | inl same ↦
      let at_key : get j (put k w fs) ≡ some w = put_at k j w fs same in
      let wrote : w ≡ v = cc in subst IsPlain wrote pw
  | inr differs ↦ old (sym (put_other k j w fs differs) ∙ h)
]

accepted-IsTracked :
    (s : Shared) (k : String) (p : Pending)
    → IsTracked s
    → s.pending k ≡ some p
    → IsTracked
        (record s { known = put k p.written s.known; pending = set_pending k none s.pending })
accepted-IsTracked s k p t e = record {
  fits =
      Fits-update k none s.pending s.in_doubt (λ j. get j s.cache) (λ j. get j s.cache)
        (λ j. get j s.known) (λ j. get j (put k p.written s.known))
        (λ sure. (waits-Fits s k p t sure e).0 ∙ sym (put_self k p.written s.known))
        (λ j h. (refl, put_other k j p.written s.known h)) t.fits;
  plain = λ j v sure h. elim (Bool-cases (k == j)) [
    | inl same ↦
        let here : s.in_doubt k ≡ false =
          subst (λ i. s.in_doubt i ≡ false) (sym ((eq_iff k j).0 same)) sure in
        put-IsPlain k j p.written v s.known (waits-Fits s k p t here e).2 (t.plain j v sure) h
    | inr differs ↦ t.plain j v sure (sym (put_other k j p.written s.known differs) ∙ h)
  ];
  keys = t.keys;
  known_keys = put-HasUniqueKeys k p.written s.known t.known_keys;
}

-- A rollback of a key that is there does not raise. It writes this key only.
pub revert-eq :
    (o : Option Json) (k : String) (w : Json) (cache : Fields)
    → HasUniqueKeys cache
    → get k cache ≡ some w
    → (fs : Fields) × (revert o k cache ≡ ok fs)
      × HasUniqueKeys fs
      × (get k fs ≡ o)
      × ((j : String) → (k == j) ≡ false → get j fs ≡ get j cache)
revert-eq (some v) k w cache u h = (
  put k v cache,
  refl,
  put-HasUniqueKeys k v cache u,
  put_self k v cache,
  λ j d. put_other k j v cache d,
)
revert-eq none k w cache u h = (
  remove k cache,
  rw h refl,
  remove-HasUniqueKeys k cache u,
  get-remove k k cache u ∙ rw (eq_refl k) refl,
  λ j d. get-remove k j cache u ∙ rw d refl,
)

-- What the rollback of a method that waits comes to.
reverted :
    (s : Shared) (k : String) (p : Pending)
    → IsTracked s
    → s.in_doubt k ≡ false
    → s.pending k ≡ some p
    → (fs : Fields) × (revert (not_none p.old) k s.cache ≡ ok fs)
      × HasUniqueKeys fs
      × (get k fs ≡ get k s.known)
      × ((j : String) → (k == j) ≡ false → get j fs ≡ get j s.cache)
reverted s k p t sure e =
    let f = waits-Fits s k p t sure e in
    let old : not_none p.old ≡ get k s.known =
      not_none-IsPlain p.old (λ v h. t.plain k v sure (sym f.1 ∙ h)) ∙ f.1 in
    let (fs, back, keys, own, others) = revert-eq (not_none p.old) k p.written s.cache t.keys f.0 in
    (fs, back, keys, own ∙ old, others)

ok_injective : {a b : Fields} → ◌≡◌ {A = Result Fields} (ok a) (ok b) → a ≡ b
ok_injective h = cc

ok_ne_err : {a : Fields} {e : Error} → ◌≢◌ {A = Result Fields} (ok a) (err e)
ok_ne_err h = cc

-- Any rollback that does not raise writes its own key only.
revert-others :
    (o : Option Json) (k : String) (cache fs : Fields)
    → HasUniqueKeys cache
    → revert o k cache ≡ ok fs
    → HasUniqueKeys fs × ((j : String) → (k == j) ≡ false → get j fs ≡ get j cache)
revert-others (some v) k cache fs u r =
    subst (λ x. HasUniqueKeys x × ((j : String) → (k == j) ≡ false → get j x ≡ get j cache))
      (ok_injective r) (put-HasUniqueKeys k v cache u, λ j d. put_other k j v cache d)
revert-others none k cache fs u r = elim (Option-cases (get k cache)) [
  | inl missing ↦ absurd (ok_ne_err {e = key_error} (sym r ∙ rw missing refl))
  | inr (w, there) ↦
      let (fs', back, keys, _, others) = revert-eq none k w cache u there in
      subst (λ x. HasUniqueKeys x × ((j : String) → (k == j) ≡ false → get j x ≡ get j cache))
        (ok_injective (sym back ∙ r)) (keys, others)
]

failed-IsTracked :
    (s : Shared) (k : String) (p : Pending) (fs : Fields)
    → IsTracked s
    → s.pending k ≡ some p
    → revert (not_none p.old) k s.cache ≡ ok fs
    → IsTracked (record s { cache = fs; pending = set_pending k none s.pending })
failed-IsTracked s k p fs t e r =
    let (keys, others) = revert-others (not_none p.old) k s.cache fs t.keys r in
    record {
      fits =
          Fits-update k none s.pending s.in_doubt (λ j. get j s.cache) (λ j. get j fs)
            (λ j. get j s.known) (λ j. get j s.known)
            (λ sure.
              let (fs', back, _, own, _) = reverted s k p t sure e in
              ap (get k) (sym (ok_injective (sym back ∙ r))) ∙ own)
            (λ j h. (others j h, refl)) t.fits;
      plain = t.plain;
      keys = keys;
      known_keys = t.known_keys;
    }

-- A key that a step does not put in doubt was in none before it.
unless : (a b : Bool) → (a || b) ≡ false → (a ≡ false) × (b ≡ false)
unless a b h = ground arith

idle_key : (p : Option Pending) → is_some p ≡ false → p ≡ none
idle_key none h = refl
idle_key (some p) h = absurd (cc h)

cancelled-IsTracked : (s : Shared) (k : String) → IsTracked s → IsTracked (after_cancelled k s)
cancelled-IsTracked s k t = record {
  fits = λ j sure.
      let (before, other) = unless (s.in_doubt j) (k == j) sure in rw other (t.fits j before);
  plain = λ j v sure. t.plain j v (unless (s.in_doubt j) (k == j) sure).0;
  keys = t.keys;
  known_keys = t.known_keys;
}

lost-IsTracked : (s : Shared) (k : String) → IsTracked s → IsTracked (after_lost k s)
lost-IsTracked s k t = record {
  fits = λ j sure. t.fits j (unless (s.in_doubt j) (k == j) sure).0;
  plain = λ j v sure. t.plain j v (unless (s.in_doubt j) (k == j) sure).0;
  keys = t.keys;
  known_keys = t.known_keys;
}

strays-IsTracked :
    (s : Shared) (k : String) (v : Json)
    → IsTracked s
    → s.in_doubt k ≡ true
    → IsTracked (record s { known = put k v s.known })
strays-IsTracked s k v t doubt =
    let other : (j : String) → s.in_doubt j ≡ false → get j (put k v s.known) ≡ get j s.known =
      λ j sure. elim (Bool-cases (k == j)) [
        | inl same ↦
            let here : s.in_doubt k ≡ false =
              subst (λ i. s.in_doubt i ≡ false) (sym ((eq_iff k j).0 same)) sure in
            absurd (cc (here, doubt))
        | inr differs ↦ put_other k j v s.known differs
      ] in
    record {
      fits = λ j sure. rw (other j sure) (t.fits j sure);
      plain = λ j w sure h. t.plain j w sure (sym (other j sure) ∙ h);
      keys = t.keys;
      known_keys = put-HasUniqueKeys k v s.known t.known_keys;
    }

queried-IsTracked : (s : Shared) → IsTracked s → IsTracked (refresh s)
queried-IsTracked s t = record {
  fits = λ j sure.
      let free = idle_key (s.pending j) (unless (s.in_doubt j) (is_some (s.pending j)) sure).1 in
      subst (λ p. Fits p (get j s.known) (get j s.known)) (sym free) refl;
  plain = λ j v sure. t.plain j v (unless (s.in_doubt j) (is_some (s.pending j)) sure).0;
  keys = t.known_keys;
  known_keys = t.known_keys;
}

-- A method whose rollback raises waits no more; it was in doubt.
broken-IsTracked :
    (s : Shared) (k : String) (p : Pending) (x : Error)
    → IsTracked s
    → s.pending k ≡ some p
    → revert (not_none p.old) k s.cache ≡ err x
    → IsTracked (record s { pending = set_pending k none s.pending })
broken-IsTracked s k p x t e r = record {
  fits =
      Fits-update k none s.pending s.in_doubt (λ j. get j s.cache) (λ j. get j s.cache)
        (λ j. get j s.known) (λ j. get j s.known)
        (λ sure. let (fs, back, _, _, _) = reverted s k p t sure e in absurd (cc (sym back ∙ r)))
        (λ j h. (refl, refl)) t.fits;
  plain = t.plain;
  keys = t.keys;
  known_keys = t.known_keys;
}

Step-IsTracked : {s t : Shared} → Step s t → IsTracked s → IsTracked t
Step-IsTracked {s} (begins m old free kept) k = begins-IsTracked s m old k free kept
Step-IsTracked {s} (accepted key p e) k = accepted-IsTracked s key p k e
Step-IsTracked {s} (failed key p fs e r) k = failed-IsTracked s key p fs k e r
Step-IsTracked {s} (broken key p x e r) k = broken-IsTracked s key p x k e r
Step-IsTracked {s} (cancelled key p e) k = cancelled-IsTracked s key k
Step-IsTracked {s} (lost key) k = lost-IsTracked s key k
Step-IsTracked {s} (strays key v doubt) k = strays-IsTracked s key v k doubt
Step-IsTracked {s} queried k = queried-IsTracked s k

pub Reach-IsTracked : {s t : Shared} → Reach s t → IsTracked s → IsTracked t
Reach-IsTracked here k = k
Reach-IsTracked (next r st) k = Step-IsTracked st (Reach-IsTracked r k)
