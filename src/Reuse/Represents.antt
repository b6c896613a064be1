-- ===== src/Reuse/Represents.antt =====
-- How the map of last accesses and the splay tree of issue cycles represent the LRU stack, for
-- library/InstTempReuse.cc and library/DataTempReuse.cc.
use ibm_pisa.Base.{
  ℕ, ◌<◌, ◌≡◌, refl, sym, ap, subst, ◌∙◌, none, some, [], Bool, true, false, arith, Below, IsSorted,
  ◌==◌, if◌then◌else◌, u64,
}
use ibm_pisa.OrderedMap.{
  OrderedMap, map_keys, find-insert, find-assign, IsSorted-insert, map_keys-assign,
}
use ibm_pisa.OrderedMap
use ibm_pisa.Splay.{Tree, nil, node, count, splay}
use ibm_pisa.Splay.Keys.{keys, keys-splay}
use ibm_pisa.Splay.Order.{splay_parts}
use ibm_pisa.Splay.Ops.{compute_distance, update}
use ibm_pisa.Splay.Ops
use ibm_pisa.Splay.Exact.{
  IsValid, insert-IsValid, update-IsValid, splay-IsValid, compute_distance_lem,
}
use ibm_pisa.Splay.Refine.{keys-insert, keys-update}
use ibm_pisa.Splay.SortedKeys.{insert_key, remove_key, has_key, has_key_between, count_above}
use ibm_pisa.Reuse.Stack.{
  Stack, cycles, last_access, forget, depth, access, IsDistinct, last_access-access,
  access-IsDistinct, has_key-cycles, count_above-cycles, remove_key-cycles, forget_absent,
  insert_key-cycles,
}

-- `DistanceTree && DistanceTree->key == key`.
abbrev pub root_is : ℕ → Tree → Bool
root_is key nil = false
root_is key (node k _ _ _) = k == key

pub record Represents (s : Stack) (last : OrderedMap ℕ) (tree : Tree) : Type 0 where
  pub distinct : IsDistinct s
  pub map_sorted : IsSorted (map_keys last)
  pub same_access : (l : ℕ) → OrderedMap.find l last ≡ last_access l s
  pub tree_valid : IsValid tree
  pub tree_keys : keys tree ≡ cycles s

pub empty-Represents : Represents [] [] nil
empty-Represents = record {
  distinct = tt;
  map_sorted = tt;
  same_access = λ l. unfold OrderedMap.find last_access in refl;
  tree_valid = record { sorted = unfold keys in tt; sized = tt; positive = unfold keys in tt };
  tree_keys = unfold keys in refl;
}

-- A key that the tree has is at the root after the splay for it.
pub root_is-splay :
    (q : ℕ) (t : Tree)
    → IsSorted (keys t)
    → has_key q (keys t) ≡ true
    → root_is q (splay q t) ≡ true
root_is-splay q nil s h = absurd (unfold keys has_key in ground arith)
root_is-splay q (node k z l r) s h =
    let (k', z', l', r', e, parts, b, a) =
      splay_parts q (node k z l r) (unfold count in omega arith) s in
    ap (root_is q) e
    ∙ sym (has_key_between q (keys l') k' (keys r') b a)
    ∙ ap (has_key q) (sym parts)
    ∙ h

module _ (l c : ℕ) (s : Stack) {last : OrderedMap ℕ} {tree : Tree} (r : Represents s last tree)
    (later : Below c (cycles s)) (pos : 0 < c) where
  -- A line that was not accessed before.
  pub first_access :
      OrderedMap.find l last ≡ none
      → Represents (access l c s) (OrderedMap.insert l c last) (Ops.insert c tree)
  first_access e =
      let absent : last_access l s ≡ none = sym (r.same_access l) ∙ e in
      record {
        distinct = access-IsDistinct l c s r.distinct;
        map_sorted = IsSorted-insert l c last r.map_sorted;
        same_access = λ j.
            find-insert j l c last r.map_sorted e
            ∙ ap (λ o. if l == j then some c else o) (r.same_access j)
            ∙ sym (last_access-access j l c s r.distinct);
        tree_valid = insert-IsValid c tree pos r.tree_valid;
        tree_keys =
            keys-insert c tree r.tree_valid.sorted
            ∙ ap (insert_key c) (r.tree_keys ∙ ap cycles (sym (forget_absent l s absent)))
            ∙ insert_key-cycles l c s later;
      }

  -- A line that was accessed before, at cycle `p`: the splay for `p` brings it to the root, and
  -- updating it to the new cycle moves the line to the top of the stack.
  pub again_access :
      (p : ℕ)
      → OrderedMap.find l last ≡ some p
      → Represents (access l c s) (OrderedMap.assign l c last) (update p c (splay p tree))
  again_access p e =
      let before : last_access l s ≡ some p = sym (r.same_access l) ∙ e in
      let v = splay-IsValid p tree r.tree_valid in
      let same : keys (splay p tree) ≡ cycles s = keys-splay p tree ∙ r.tree_keys in
      let removed : remove_key p (keys (splay p tree)) ≡ cycles (forget l s) =
        ap (remove_key p) same ∙ remove_key-cycles l p s (subst IsSorted same v.sorted) before in
      record {
        distinct = access-IsDistinct l c s r.distinct;
        map_sorted = rw (map_keys-assign l c last) r.map_sorted;
        same_access = λ j.
            find-assign j l c p last e
            ∙ ap (λ o. if l == j then some c else o) (r.same_access j)
            ∙ sym (last_access-access j l c s r.distinct);
        tree_valid = update-IsValid p c (splay p tree) pos v;
        tree_keys =
            keys-update p c (splay p tree) v.sorted
            ∙ ap (insert_key c) removed
            ∙ insert_key-cycles l c s later;
      }

module _ (l p : ℕ) (s : Stack) {last : OrderedMap ℕ} {tree : Tree} (r : Represents s last tree)
    (e : OrderedMap.find l last ≡ some p) where
  present : has_key p (keys tree) ≡ true
  present = ap (has_key p) r.tree_keys ∙ has_key-cycles l p s (sym (r.same_access l) ∙ e)

  -- `ComputeDistance` for the last cycle of a line finds that cycle, and the line's depth.
  pub distance-depth :
      (root_is p (compute_distance p tree).0 ≡ true)
      × ((compute_distance p tree).1 ≡ u64 (depth l s))
  distance-depth =
      let counted : count_above p (keys tree) ≡ depth l s =
        ap (count_above p) r.tree_keys
        ∙ count_above-cycles l p s (subst IsSorted r.tree_keys r.tree_valid.sorted)
            (sym (r.same_access l) ∙ e) in
      (
        unfold compute_distance in root_is-splay p tree r.tree_valid.sorted present,
        (compute_distance_lem p tree r.tree_valid).0 ∙ rw (present, counted) refl,
      )
