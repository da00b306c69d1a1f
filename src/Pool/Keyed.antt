-- ===== src/Pool/Keyed.antt =====
-- Lists with at most one item under a key: the pool's dict, and the locks that are held.
use dlight_client.Common.{
  ℕ, ◌+◌, ◌≡◌, refl, ◌∙◌, Option, none, some, false, List, [], ◌∷◌, arith, inl, inr, if◌then◌else◌,
  Bool-cases,
}
use dlight_client.Pool.Endpoint.{Key, same_key}
use dlight_client.Pool.Endpoint.Separation.{same_key_comm, same_key→eq}

abbrev pub total {ℓ} : {A : Type ℓ} → (A → ℕ) → List A → ℕ
total w [] = 0
total w (e ∷ es) = w e + total w es

abbrev pub weight {ℓ} : {A : Type ℓ} → (A → ℕ) → Option A → ℕ
weight w none = 0
weight w (some e) = w e

module _ {A : Type 0} (key_of : A → Key) where
  -- `d.get(key)`
  unfoldable pub find : Key → List A → Option A
  find key [] = none
  find key (e ∷ es) = if same_key (key_of e) key then some e else find key es

  -- `d.pop(key, None)`, without its result
  unfoldable pub drop_key : Key → List A → List A
  drop_key key [] = []
  drop_key key (e ∷ es) =
      let rest = drop_key key es in if same_key (key_of e) key then es else e ∷ rest

  -- `d[key] = new`: a key that is there keeps its place
  unfoldable pub store : A → List A → List A
  store new [] = new ∷ []
  store new (e ∷ es) =
      let rest = store new es in if same_key (key_of e) (key_of new) then new ∷ es else e ∷ rest

  abbrev pub UniqueKeys : List A → Type 0
  UniqueKeys [] = Unit
  UniqueKeys (e ∷ es) = (find (key_of e) es ≡ none) × UniqueKeys es

  pub find_key : (key : Key) (es : List A) (e : A) → find key es ≡ some e → key_of e ≡ key
  unfolding find
  find_key key [] e h = ground arith
  find_key key (x ∷ es) e h = ground (arith, find_key key es e, same_key→eq (key_of x) key)

  -- A removal takes away the weight of what was found, and nothing if nothing was.
  pub total-drop_key :
      (w : A → ℕ) (key : Key) (es : List A)
      → total w es ≡ total w (drop_key key es) + weight w (find key es)
  unfolding find drop_key
  total-drop_key w key [] = omega arith
  total-drop_key w key (x ∷ es) = ground (arith, total-drop_key w key es)

  pub drop_key_absent : (key : Key) (es : List A) → find key es ≡ none → drop_key key es ≡ es
  unfolding find drop_key
  drop_key_absent key [] h = refl
  drop_key_absent key (x ∷ es) h = ground (arith, drop_key_absent key es)

  pub total-store :
      (w : A → ℕ) (new : A) (es : List A)
      → find (key_of new) es ≡ none
      → total w (store new es) ≡ w new + total w es
  unfolding find store
  total-store w new [] h = refl
  total-store w new (x ∷ es) h = ground (arith, total-store w new es)

  -- An absent key stays absent under a removal, and under a write of another key.
  pub find-drop_key_absent :
      (key j : Key) (es : List A) → find j es ≡ none → find j (drop_key key es) ≡ none
  unfolding find drop_key
  find-drop_key_absent key j [] h = refl
  find-drop_key_absent key j (x ∷ es) h = ground (arith, find-drop_key_absent key j es)

  pub find-store_absent :
      (new : A) (j : Key) (es : List A)
      → find j es ≡ none
      → same_key (key_of new) j ≡ false
      → find j (store new es) ≡ none
  unfolding find store
  find-store_absent new j [] h ne = rw ne
  find-store_absent new j (x ∷ es) h ne = ground (arith, find-store_absent new j es)

  pub find-drop_key_self :
      (key : Key) (es : List A) → UniqueKeys es → find key (drop_key key es) ≡ none
  unfolding find drop_key
  find-drop_key_self key [] u = refl
  find-drop_key_self key (x ∷ es) u =
      ground (arith, find-drop_key_self key es u.1, same_key→eq (key_of x) key)

  pub drop_key-UniqueKeys : (key : Key) (es : List A) → UniqueKeys es → UniqueKeys (drop_key key es)
  unfolding drop_key
  drop_key-UniqueKeys key [] u = tt
  drop_key-UniqueKeys key (x ∷ es) u = elim (Bool-cases (same_key (key_of x) key)) [
    | inl same ↦ rw same u.1
    | inr differs ↦
        rw differs (find-drop_key_absent key (key_of x) es u.0, drop_key-UniqueKeys key es u.1)
  ]

  pub store-UniqueKeys :
      (new : A) (es : List A)
      → find (key_of new) es ≡ none
      → UniqueKeys es
      → UniqueKeys (store new es)
  unfolding find store
  store-UniqueKeys new [] h u = (refl, tt)
  store-UniqueKeys new (x ∷ es) h u = elim (Bool-cases (same_key (key_of x) (key_of new))) [
    | inl same ↦ ground arith
    | inr differs ↦ rw differs (
      find-store_absent new (key_of x) es u.0 (same_key_comm (key_of new) (key_of x) ∙ differs),
      store-UniqueKeys new es (ground arith) u.1,
    )
  ]
