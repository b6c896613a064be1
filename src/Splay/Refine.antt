-- ===== src/Splay/Refine.antt =====
-- The operations of library/splay.cc and the sorted list of keys.
use ibm_pisa.Base.{
  ℕ, ◌<◌, ◌≡◌, refl, sym, ap, ◌∙◌, List, [], ◌∷◌, ◌++◌, Below, Above, IsSorted, All-append,
  All-append_right, IsSorted-split, compare_cases, Bool-cases, inl, inr, append_assoc, arith, ◌==◌,
}
use ibm_pisa.Splay.{Tree, nil, node, new_node, count, splay}
use ibm_pisa.Splay.Keys.{keys}
use ibm_pisa.Splay.Order.{splay_parts}
use ibm_pisa.Splay.Ops.{
  place, insert, remove_root, hang_right, drop, delete, detach, detach_root, attach, update,
}
use ibm_pisa.Splay.SortedKeys.{
  insert_key, remove_key, insert_key_between, insert_key_present, remove_key_between,
  remove_key_present, IsSorted-insert_key, IsSorted-remove_key,
}

count_pos : (k s : ℕ) (l r : Tree) → 0 < count (node k s l r)
unfolding count
count_pos k s l r = omega arith

-- Where the root stands between the smaller and the greater keys, placing a key inserts it.
keys-place :
    (q z k s : ℕ) (l r : Tree)
    → Below q (keys l)
    → Above q (keys r)
    → keys (place q (node q z nil nil) (node k s l r)) ≡ insert_key q (keys l ++ k ∷ keys r)
unfolding place keys
keys-place q z k s l r b a = elim (compare_cases q k) [
  | inl (lt, e, _, _) ↦ rw e (sym (insert_key_between q (keys l) (k ∷ keys r) b (lt, a)))
  | inr (inl (eq, e, e', _)) ↦ rw (e, e', ← eq) (sym (insert_key_present q (keys l) (keys r) b))
  | inr (inr (lt, e, e', _)) ↦
      let below = All-append (λ x. x < q) (keys l) (k ∷ []) b (lt, tt) in
      rw (e, e')
        (sym (insert_key_between q (keys l ++ k ∷ []) (keys r) below a)
          ∙ ap (insert_key q) (append_assoc (keys l) (k ∷ []) (keys r)))
]

-- A new node or the reused node takes its place in the order of the keys.
keys-attach :
    (q z : ℕ) (t : Tree)
    → IsSorted (keys t)
    → keys (attach q (node q z nil nil) t) ≡ insert_key q (keys t)
unfolding attach
keys-attach q z nil h = unfold keys insert_key in refl
keys-attach q z (node k s l r) h =
    let (k', s', l', r', e, parts, b, a) = splay_parts q (node k s l r) (count_pos k s l r) h in
    rw e (keys-place q z k' s' l' r' b a ∙ ap (insert_key q) (sym parts))

-- Inserting a key into a search tree inserts it into its sorted list of keys.
pub keys-insert : (q : ℕ) (t : Tree) → IsSorted (keys t) → keys (insert q t) ≡ insert_key q (keys t)
unfolding insert attach
keys-insert q nil h = keys-attach q 1 nil h
keys-insert q (node k s l r) h = keys-attach q 1 (node k s l r) h

Below-Above : (q : ℕ) (xs : List ℕ) → Below q xs → Above q xs → xs ≡ []
Below-Above q [] b a = refl
Below-Above q (x ∷ xs) b a = absurd (omega arith)

keys-remove_root :
    (q : ℕ) (l r : Tree)
    → IsSorted (keys l)
    → Below q (keys l)
    → keys (remove_root q l r) ≡ keys l ++ keys r
unfolding remove_root
keys-remove_root q nil r h b = unfold keys in refl
keys-remove_root q (node k s l r') r h b =
    let t : Tree = node k s l r' in
    let (k', s', l', r'', e, parts, _, a) = splay_parts q t (count_pos k s l r') h in
    let none_right : keys r'' ≡ [] =
      Below-Above q (keys r'')
        (All-append_right (λ x. x < q) (keys l') (k' ∷ keys r'') (rw parts at b)).1 a in
    rw (e, parts, none_right)
      (unfold keys hang_right in sym (append_assoc (keys l') (k' ∷ []) (keys r)))

keys-drop :
    (q k s : ℕ) (l r : Tree)
    → IsSorted (keys l ++ k ∷ keys r)
    → Below q (keys l)
    → Above q (keys r)
    → keys (drop q (node k s l r)) ≡ remove_key q (keys l ++ k ∷ keys r)
unfolding drop
keys-drop q k s l r h b a = elim (compare_cases q k) [
  | inl (lt, _, _, e) ↦
      rw e (unfold keys in sym (remove_key_between q (keys l) (k ∷ keys r) b (lt, a)))
  | inr (inl (eq, _, _, e)) ↦
      rw (e, ← eq)
        (keys-remove_root q l r (IsSorted-split (keys l) k (keys r) h).0 b
          ∙ sym (remove_key_present q (keys l) (keys r) b a))
  | inr (inr (lt, _, _, e)) ↦
      let below = All-append (λ x. x < q) (keys l) (k ∷ []) b (lt, tt) in
      rw e (
        unfold keys in
        sym (
          ap (remove_key q) (sym (append_assoc (keys l) (k ∷ []) (keys r)))
          ∙ remove_key_between q (keys l ++ k ∷ []) (keys r) below a
          ∙ append_assoc (keys l) (k ∷ []) (keys r)))
]

-- Deleting a key from a search tree removes it from its sorted list of keys.
pub keys-delete : (q : ℕ) (t : Tree) → IsSorted (keys t) → keys (delete q t) ≡ remove_key q (keys t)
unfolding delete
keys-delete q nil h = unfold keys remove_key in refl
keys-delete q (node k s l r) h =
    let (k', s', l', r', e, parts, b, a) = splay_parts q (node k s l r) (count_pos k s l r) h in
    rw e (keys-drop q k' s' l' r' (rw parts at h) b a ∙ ap (remove_key q) (sym parts))

-- `Update` takes the node of the previous key out, as `Delete` does, and uses it again.
pub detach-eq-delete : (p q : ℕ) (t : Tree) → detach p q t ≡ (delete p t, new_node q)
unfolding detach delete
detach-eq-delete p q nil = refl
detach-eq-delete p q (node k s l r) = dropped (splay p (node k s l r))
  where
    dropped : (u : Tree) → detach_root p q u ≡ (drop p u, new_node q)
    dropped nil = refl
    dropped (node k s l r) = elim (Bool-cases (p == k)) [ inl e ↦ rw e | inr e ↦ rw e ]

-- Updating a search tree removes the previous key from its sorted list of keys and inserts the new
-- one.
pub keys-update :
    (p q : ℕ) (t : Tree)
    → IsSorted (keys t)
    → keys (update p q t) ≡ insert_key q (remove_key p (keys t))
unfolding update
keys-update p q t h =
    let removed = keys-delete p t h in
    rw (detach-eq-delete p q t) (
      unfold new_node in
      keys-attach q 1 (delete p t) (rw removed (IsSorted-remove_key p (keys t) h))
      ∙ ap (insert_key q) removed)

-- The three operations keep a search tree a search tree.
pub splay_ops-IsSorted :
    (p q : ℕ) (t : Tree)
    → IsSorted (keys t)
    → IsSorted (keys (insert q t)) × IsSorted (keys (delete p t)) × IsSorted (keys (update p q t))
splay_ops-IsSorted p q t h =
    let removed = IsSorted-remove_key p (keys t) h in
    (
      rw (keys-insert q t h) (IsSorted-insert_key q (keys t) h),
      rw (keys-delete p t h) removed,
      rw (keys-update p q t h) (IsSorted-insert_key q (remove_key p (keys t)) removed),
    )
