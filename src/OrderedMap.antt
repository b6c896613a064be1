-- ===== src/OrderedMap.antt =====
-- `std::map` with `unsigned long long` keys, as the analyses use it: an association list with
-- increasing keys, which is the order of iteration.
use ibm_pisa.Base.{
  ℕ, ◌<◌, ◌≡◌, refl, ap, Option, none, some, List, [], ◌∷◌, map, arith, Above, IsSorted, Above-mono,
  compare_cases, inl, inr, ltb, ◌==◌, if◌then◌else◌,
}

abbrev pub OrderedMap {ℓ} : Type ℓ → Type ℓ
OrderedMap V = List (ℕ × V)

abbrev pub map_keys {ℓ} : {V : Type ℓ} → OrderedMap V → List ℕ
map_keys = map (λ e. e.0)

module _ {ℓ} {V : Type ℓ} where
  unfoldable pub find : ℕ → OrderedMap V → Option V
  find k [] = none
  find k ((j, v) ∷ m) = if j == k then some v else find k m

  -- `insert(pair(k, v))`: a key that is there keeps its value.
  unfoldable pub insert : ℕ → V → OrderedMap V → OrderedMap V
  insert k v [] = (k, v) ∷ []
  insert k v ((j, w) ∷ m) =
      let rest = insert k v m in
      if ltb k j then (k, v) ∷ (j, w) ∷ m else if ltb j k then (j, w) ∷ rest else (j, w) ∷ m

  -- `it->second = v` at the key that `find` returned.
  unfoldable pub assign : ℕ → V → OrderedMap V → OrderedMap V
  assign k v [] = []
  assign k v ((j, w) ∷ m) = if j == k then (j, v) ∷ m else (j, w) ∷ assign k v m

  -- `m[k] = v`: `operator[]` makes an item for the key where there is none.
  unfoldable pub put : ℕ → V → OrderedMap V → OrderedMap V
  unfolding insert assign
  put k v m = assign k v (insert k v m)

  find-Above : (k : ℕ) (m : OrderedMap V) → Above k (map_keys m) → find k m ≡ none
  unfolding find
  find-Above k [] a = refl
  find-Above k ((j, w) ∷ m) a = ground (arith, find-Above k m a.1)

  pub find-insert :
      (j k : ℕ) (v : V) (m : OrderedMap V)
      → IsSorted (map_keys m)
      → find k m ≡ none
      → find j (insert k v m) ≡ (if k == j then some v else find j m)
  unfolding find insert
  find-insert j k v [] s h = refl
  find-insert j k v ((i, w) ∷ m) s h = ground (arith, find-insert j k v m s.1)

  pub find-assign :
      (j k : ℕ) (v w : V) (m : OrderedMap V)
      → find k m ≡ some w
      → find j (assign k v m) ≡ (if k == j then some v else find j m)
  unfolding find assign
  find-assign j k v w [] h = ground arith
  find-assign j k v w ((i, u) ∷ m) h = ground (arith, find-assign j k v w m)

  Above-insert :
      (a k : ℕ) (v : V) (m : OrderedMap V)
      → a < k
      → Above a (map_keys m)
      → Above a (map_keys (insert k v m))
  unfolding insert
  Above-insert a k v [] h p = (h, tt)
  Above-insert a k v ((j, w) ∷ m) h p = ground (arith, Above-insert a k v m h p.1)

  pub IsSorted-insert :
      (k : ℕ) (v : V) (m : OrderedMap V)
      → IsSorted (map_keys m)
      → IsSorted (map_keys (insert k v m))
  unfolding insert
  IsSorted-insert k v [] s = (tt, tt)
  IsSorted-insert k v ((j, w) ∷ m) s =
      ground (arith, IsSorted-insert k v m s.1, Above-insert j k v m, Above-mono k j (map_keys m))

  pub map_keys-assign : (k : ℕ) (v : V) (m : OrderedMap V) → map_keys (assign k v m) ≡ map_keys m
  unfolding assign
  map_keys-assign k v [] = refl
  map_keys-assign k v ((j, w) ∷ m) = ground (arith, map_keys-assign k v m)

  -- A key that is there keeps its value, and the map stays as it is.
  pub insert_present :
      (k : ℕ) (v w : V) (m : OrderedMap V)
      → IsSorted (map_keys m)
      → find k m ≡ some w
      → insert k v m ≡ m
  unfolding find insert
  insert_present k v w [] s h = absurd (ground arith)
  insert_present k v w ((j, u) ∷ m) s h = elim (compare_cases k j) [
    | inl (lt, e, _, _) ↦
        let absent = find-Above k m (Above-mono k j (map_keys m) (omega arith) s.0) in
        absurd (ground (arith, absent))
    | inr (inl (eq, e, f, _)) ↦ rw (e, f) refl
    | inr (inr (lt, e, f, _)) ↦
        rw (e, f) (ap (λ l. (j, u) ∷ l) (insert_present k v w m s.1 (ground arith)))
  ]

  pub find-put :
      (j k : ℕ) (v : V) (m : OrderedMap V)
      → find j (put k v m) ≡ (if k == j then some v else find j m)
  unfolding find insert assign put
  find-put j k v [] = ground arith
  find-put j k v ((i, w) ∷ m) = ground (arith, find-put j k v m)

  pub find-insert_absent :
      (j k : ℕ) (v : V) (m : OrderedMap V)
      → find k m ≡ none
      → find j (insert k v m) ≡ (if k == j then some v else find j m)
  unfolding find insert
  find-insert_absent j k v [] h = refl
  find-insert_absent j k v ((i, w) ∷ m) h = ground (arith, find-insert_absent j k v m)
