-- ===== src/Splay/Exact.antt =====
-- The invariant of the tree of library/splay.cc between calls, and what `ComputeDistance` and
-- `TreeSize` count.
use ibm_pisa.Base.{
  ℕ, suc, ◌+◌, ◌<◌, ◌≡◌, refl, ap, subst, Below, ◌∙◌, List, ◌∷◌, ◌++◌, Above, IsSorted, length,
  Bool-cases, All-append_left, compare_cases, inl, inr, arith, u64, ◌==◌, if◌then◌else◌,
}
use ibm_pisa.Splay.{Tree, nil, node, new_node, count, splay}
use ibm_pisa.Splay.Keys.{keys, keys-splay, length-keys}
use ibm_pisa.Splay.Order.{splay_parts}
use ibm_pisa.Splay.Sizes.{IsSized, IsPositive, splay-IsSized, size_of-eq-count}
use ibm_pisa.Splay.Ops.{
  take_size, place, insert, remove_root, hang_right, drop, delete, attach, update, distance_of,
  compute_distance, tree_size,
}
use ibm_pisa.Splay.SortedKeys.{
  has_key, count_above, has_key_between, count_above_between, Above-insert_key, Above-remove_key,
}
use ibm_pisa.Splay.Refine.{
  keys-insert, keys-delete, keys-update, detach-eq-delete, splay_ops-IsSorted,
}

-- A search tree with keys above 0 and exact sizes.
pub record IsValid (t : Tree) : Type 0 where
  pub sorted : IsSorted (keys t)
  pub sized : IsSized t
  pub positive : IsPositive t

take_size-IsSized : (s n : ℕ) (t : Tree) → IsSized t → s ≡ u64 (n + count t) → take_size s t ≡ u64 n
unfolding count
take_size-IsSized s n nil h e = omega arith
take_size-IsSized s n (node k c l r) h e = omega arith

place-IsSized :
    (q k s : ℕ) (l r : Tree)
    → IsSized (node k s l r)
    → IsSized (place q (new_node q) (node k s l r))
unfolding place new_node count
place-IsSized q k s l r h = elim (compare_cases q k) [
  | inl (lt, e, _, _) ↦
      rw e
        (omega arith, h.1, (take_size-IsSized s (suc (0 + count r)) l h.1 (omega arith), tt, h.2))
  | inr (inl (eq, e, e', _)) ↦ rw (e, e') h
  | inr (inr (lt, e, e', _)) ↦
      rw (e, e')
        (omega arith, (take_size-IsSized s (suc (count l + 0)) r h.2 (omega arith), h.1, tt), h.2)
]

attach-IsSized : (q : ℕ) (t : Tree) → IsSized t → IsPositive t → IsSized (attach q (new_node q) t)
unfolding attach
attach-IsSized q nil h p = unfold new_node in (refl, tt, tt)
attach-IsSized q (node k s l r) h p =
    placed (splay q (node k s l r)) (splay-IsSized q (node k s l r) h p)
  where
    placed : (u : Tree) → IsSized u → IsSized (place q (new_node q) u)
    placed nil h = unfold place new_node in (refl, tt, tt)
    placed (node k s l r) h = place-IsSized q k s l r h

pub insert-IsSized : (q : ℕ) (t : Tree) → IsSized t → IsPositive t → IsSized (insert q t)
unfolding insert attach
insert-IsSized q nil h p = attach-IsSized q nil h p
insert-IsSized q (node k s l r) h p = attach-IsSized q (node k s l r) h p

hang_right-IsSized : (t r : Tree) → IsSized t → IsSized r → IsSized (hang_right t r)
unfolding hang_right
hang_right-IsSized nil r h g = tt
hang_right-IsSized (node k s l _) r h g =
    (omega (arith, size_of-eq-count l h.1, size_of-eq-count r g), h.1, g)

remove_root-IsSized :
    (q : ℕ) (l r : Tree) → IsSized l → IsPositive l → IsSized r → IsSized (remove_root q l r)
unfolding remove_root
remove_root-IsSized q nil r h p g = g
remove_root-IsSized q (node k s l r') r h p g =
    hang_right-IsSized (splay q (node k s l r')) r (splay-IsSized q (node k s l r') h p) g

drop-IsSized : (q : ℕ) (t : Tree) → IsSized t → IsPositive t → IsSized (drop q t)
unfolding drop
drop-IsSized q nil h p = tt
drop-IsSized q (node k s l r) h p = elim (Bool-cases (q == k)) [
  | inl e ↦ rw e (
      remove_root-IsSized q l r h.1
        (All-append_left (λ x. 0 < x) (keys l) (k ∷ keys r) (unfold keys in p)) h.2)
  | inr e ↦ rw e h
]

pub delete-IsSized : (q : ℕ) (t : Tree) → IsSized t → IsPositive t → IsSized (delete q t)
unfolding delete
delete-IsSized q nil h p = tt
delete-IsSized q (node k s l r) h p =
    let t : Tree = node k s l r in
    drop-IsSized q (splay q t) (splay-IsSized q t h p) (rw (keys-splay q t) p)

-- Inserting a key above 0 into a valid tree gives a valid tree.
pub insert-IsValid : (q : ℕ) (t : Tree) → 0 < q → IsValid t → IsValid (insert q t)
insert-IsValid q t pos v = record {
  sorted = (splay_ops-IsSorted q q t v.sorted).0;
  sized = insert-IsSized q t v.sized v.positive;
  positive = rw (keys-insert q t v.sorted) (Above-insert_key 0 q (keys t) pos v.positive);
}

-- Deleting a key from a valid tree gives a valid tree.
pub delete-IsValid : (q : ℕ) (t : Tree) → IsValid t → IsValid (delete q t)
delete-IsValid q t v = record {
  sorted = (splay_ops-IsSorted q q t v.sorted).1;
  sized = delete-IsSized q t v.sized v.positive;
  positive = rw (keys-delete q t v.sorted) (Above-remove_key 0 q (keys t) v.positive);
}

-- Updating a valid tree to a new key above 0 gives a valid tree: sorted, with keys above 0 and
-- exact sizes.
pub update-IsValid : (p q : ℕ) (t : Tree) → 0 < q → IsValid t → IsValid (update p q t)
update-IsValid p q t pos v =
    let d = delete-IsValid p t v in
    record {
      sorted = (splay_ops-IsSorted p q t v.sorted).2;
      sized =
          unfold update in
          rw (detach-eq-delete p q t) (attach-IsSized q (delete p t) d.sized d.positive);
      positive =
          rw (keys-update p q t v.sorted)
            (Above-insert_key 0 q _ pos (Above-remove_key 0 p (keys t) v.positive));
    }

-- Splaying a valid tree for any key gives a valid tree: the walks along `p` leave every
-- `subtree_size` exact.
pub splay-IsValid : (q : ℕ) (t : Tree) → IsValid t → IsValid (splay q t)
splay-IsValid q t v = record {
  sorted = rw (keys-splay q t) v.sorted;
  sized = splay-IsSized q t v.sized v.positive;
  positive = rw (keys-splay q t) v.positive;
}

distance_of-root :
    (q k s : ℕ) (l r : Tree)
    → IsSized r
    → distance_of q (node k s l r) ≡ (if k == q then u64 (length (keys r)) else 0)
unfolding distance_of
distance_of-root q k s l nil h = unfold keys in ground arith
distance_of-root q k s l (node kr sr rl rr) h =
    ground (arith, length-keys (node kr sr rl rr), size_of-eq-count (node kr sr rl rr) h)

root_distance :
    (q k : ℕ) (xs ys : List ℕ)
    → Below q xs
    → Above q ys
    → (if k == q then u64 (length ys) else 0)
      ≡ (if has_key q (xs ++ k ∷ ys) then u64 (count_above q (xs ++ k ∷ ys)) else 0)
root_distance q k xs ys b a = rw (has_key_between q xs k ys b a) (elim (compare_cases k q) [
  | inl (_, _, _, e) ↦ rw e
  | inr (inl (eq, _, _, e)) ↦ rw (e, eq, count_above_between q xs ys b a)
  | inr (inr (_, _, _, e)) ↦ rw e
])

-- In a valid tree, `compute_distance` gives the number of keys greater than the key asked for, as
-- an `unsigned long long`, if the tree has that key, and 0 if it has not; the keys stay as they
-- are.
pub compute_distance_lem :
    (q : ℕ) (t : Tree)
    → IsValid t
    → ((compute_distance q t).1 ≡ (if has_key q (keys t) then u64 (count_above q (keys t)) else 0))
      × (keys (compute_distance q t).0 ≡ keys t)
unfolding compute_distance
compute_distance_lem q nil v = unfold splay keys has_key in (refl, refl)
compute_distance_lem q (node k s l r) v =
    let t : Tree = node k s l r in
    let (k', s', l', r', e, parts, b, a) = splay_parts q t (unfold count in omega arith) v.sorted in
    let sized : IsSized (node k' s' l' r') =
      subst IsSized e (splay-IsSized q t v.sized v.positive) in
    (
      ap (distance_of q) e
          ∙ distance_of-root q k' s' l' r' sized.2
          ∙ rw parts (root_distance q k' (keys l') (keys r') b a),
      keys-splay q t,
    )

-- `tree_size` counts the keys of the tree, as an `unsigned long long`.
pub tree_size-count : (t : Tree) → tree_size t ≡ u64 (length (keys t))
unfolding tree_size count
tree_size-count nil = unfold keys in refl
tree_size-count (node k s l r) = omega (
  arith,
  length-keys (node k s l r),
  length-keys l,
  length-keys r,
  tree_size-count l,
  tree_size-count r,
)
