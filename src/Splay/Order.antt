-- ===== src/Splay/Order.antt =====
-- `Splay` of library/splay.cc on search trees.
use ibm_pisa.Base.{
  ℕ, ◌<◌, ◌≡◌, refl, sym, ap, ◌∙◌, List, [], ◌∷◌, ◌++◌, Below, Above, IsSorted, All-append,
  Above-mono, Below-mono, IsSorted-split, compare_cases, inl, inr, arith,
}
use ibm_pisa.Splay.Loop.{Ensures, splay-Ensures}
use ibm_pisa.Splay.Keys.{
  keys, left_keys, right_keys, left_keys-resize, right_keys-resize, keys-right_rotate,
  keys-left_rotate, assemble-keys, keys-splay,
}
use ibm_pisa.Splay.{
  Tree, nil, node, Frame, Locals, right_rotate, left_rotate, link_right, link_left, go_left,
  go_right, iterate, count, splay, resize, sum_sizes, size_of,
}

module _ (key : ℕ) where
  -- The invariant of the loop: the key lies between the two chains.
  record IsBetween (st : Locals) : Type 0 where
    below : Below key (left_keys st.ltree)
    above : Above key (right_keys st.rtree)
    sorted : IsSorted (keys st.root)

  -- What the exit adds: the key lies between what will hang left and right of `root`.
  abbrev IsParted : Tree → List Frame → List Frame → Type 0
  IsParted nil L R = Unit
  IsParted (node k s l r) L R =
      Below key (left_keys L ++ keys l) × Above key (keys r ++ right_keys R)

  abbrev Parted : Locals → Type 0
  Parted st = IsParted st.root st.ltree st.rtree

  link_right-Ensures :
      (k s : ℕ) (l r : Tree) (L R : List Frame)
      → key < k
      → IsSorted (keys (node k s l r))
      → Below key (left_keys L)
      → Above key (right_keys R)
      → Ensures IsBetween Parted (link_right (node k s l r) L R)
  unfolding link_right keys right_keys
  link_right-Ensures k s nil r L R lt sorted below above = (
    All-append (λ x. x < key) (left_keys L) [] below tt,
    All-append (λ x. key < x) (keys r) (right_keys R)
        (Above-mono key k (keys r) (omega arith) sorted.0) above,
  )
  link_right-Ensures k s (node kl sl ll lr) r L R lt sorted below above =
      let (sl', bl, ar, sr) = IsSorted-split (keys (node kl sl ll lr)) k (keys r) sorted in
      record {
        below = below;
        above = (
          lt,
          All-append (λ x. key < x) (keys r) _ (Above-mono key k (keys r) (omega arith) ar)
              (rw right_keys-resize above),
        );
        sorted = sl';
      }

  link_left-Ensures :
      (k s : ℕ) (l r : Tree) (L R : List Frame)
      → k < key
      → IsSorted (keys (node k s l r))
      → Below key (left_keys L)
      → Above key (right_keys R)
      → Ensures IsBetween Parted (link_left (node k s l r) L R)
  unfolding link_left keys left_keys
  link_left-Ensures k s l nil L R lt sorted below above =
      let (sl, bl, _, _) = IsSorted-split (keys l) k [] sorted in
      (
        All-append (λ x. x < key) (left_keys L) (keys l) below
            (Below-mono k key (keys l) (omega arith) bl),
        above,
      )
  link_left-Ensures k s l (node kr sr rl rr) L R lt sorted below above =
      let size = sum_sizes (size_of l) 0 in
      let (sl, bl, ar, sr') = IsSorted-split (keys l) k (keys (node kr sr rl rr)) sorted in
      record {
        below =
            All-append (λ x. x < key) (left_keys (resize size L)) (keys l ++ k ∷ [])
              (rw left_keys-resize below)
              (All-append (λ x. x < key) (keys l) (k ∷ [])
                (Below-mono k key (keys l) (omega arith) bl) (lt, tt));
        above = above;
        sorted = sr';
      }

  go_left-Ensures :
      (k s : ℕ) (l r : Tree) (L R : List Frame)
      → key < k
      → IsSorted (keys (node k s l r))
      → Below key (left_keys L)
      → Above key (right_keys R)
      → Ensures IsBetween Parted (go_left key (node k s l r) L R)
  unfolding go_left
  go_left-Ensures k s nil r L R lt sorted below above =
      link_right-Ensures k s nil r L R lt sorted below above
  go_left-Ensures k s (node kl sl ll lr) r L R lt sorted below above =
      let t : Tree = node k s (node kl sl ll lr) r in
      elim (compare_cases key kl) [
        | inl (lt', e, _, _) ↦ rw e (
            unfold right_rotate in
            link_right-Ensures kl _ ll _ L R lt' (rw (sym (keys-right_rotate t)) at sorted) below
              above)
        | inr (inl (_, e, _, _)) ↦ rw e (link_right-Ensures k s _ r L R lt sorted below above)
        | inr (inr (_, e, _, _)) ↦ rw e (link_right-Ensures k s _ r L R lt sorted below above)
      ]

  go_right-Ensures :
      (k s : ℕ) (l r : Tree) (L R : List Frame)
      → k < key
      → IsSorted (keys (node k s l r))
      → Below key (left_keys L)
      → Above key (right_keys R)
      → Ensures IsBetween Parted (go_right key (node k s l r) L R)
  unfolding go_right
  go_right-Ensures k s l nil L R lt sorted below above =
      link_left-Ensures k s l nil L R lt sorted below above
  go_right-Ensures k s l (node kr sr rl rr) L R lt sorted below above =
      let t : Tree = node k s l (node kr sr rl rr) in
      elim (compare_cases kr key) [
        | inl (lt', e, _, _) ↦ rw e (
            unfold left_rotate in
            link_left-Ensures kr _ _ rr L R lt' (rw (sym (keys-left_rotate t)) at sorted) below
              above)
        | inr (inl (_, e, _, _)) ↦ rw e (link_left-Ensures k s l _ L R lt sorted below above)
        | inr (inr (_, e, _, _)) ↦ rw e (link_left-Ensures k s l _ L R lt sorted below above)
      ]

  iterate-Ensures :
      (t : Tree) (L R : List Frame)
      → IsSorted (keys t)
      → Below key (left_keys L)
      → Above key (right_keys R)
      → Ensures IsBetween Parted (iterate key t L R)
  unfolding iterate
  iterate-Ensures nil L R sorted below above = tt
  iterate-Ensures (node k s l r) L R sorted below above = elim (compare_cases key k) [
    | inl (lt, e, _, _) ↦ rw e (go_left-Ensures k s l r L R lt sorted below above)
    | inr (inl (eq, e, e', _)) ↦
        rw (e, e') (found eq (unfold keys in IsSorted-split (keys l) k (keys r) sorted))
    | inr (inr (lt, e, e', _)) ↦ rw (e, e') (go_right-Ensures k s l r L R lt sorted below above)
  ]
    where
      found :
          key ≡ k
          → IsSorted (keys l) × Below k (keys l) × Above k (keys r) × IsSorted (keys r)
          → IsParted (node k s l r) L R
      found eq (_, bl, ar, _) = (
        All-append (λ x. x < key) (left_keys L) (keys l) below
            (Below-mono k key (keys l) (omega arith) bl),
        All-append (λ x. key < x) (keys r) (right_keys R)
            (Above-mono key k (keys r) (omega arith) ar) above,
      )

  -- Splaying a search tree that is not empty gives a node whose left subtree has only keys below
  -- the key asked for and whose right subtree has only keys above it, with the keys in their
  -- order.
  pub splay_parts :
      (t : Tree)
      → 0 < count t
      → IsSorted (keys t)
      → (k s : ℕ) × (l r : Tree) × (splay key t ≡ node k s l r)
        × (keys t ≡ keys l ++ k ∷ keys r)
        × Below key (keys l)
        × Above key (keys r)
  splay_parts t pos sorted =
      let (k, s, l, r, L, R, e, q) =
        splay-Ensures key IsBetween Parted
          (λ q _ p. iterate-Ensures q.root q.ltree q.rtree p.sorted p.below p.above) t pos
          (record {
            below = unfold left_keys in tt;
            above = unfold right_keys in tt;
            sorted = sorted;
          }) in
      let (s', l', r', e', kl, kr) = assemble-keys k s l r L R in
      let parts : keys t ≡ keys l' ++ k ∷ keys r' =
        sym (keys-splay key t) ∙ ap keys (e ∙ e') ∙ unfold keys in refl in
      (k, s', l', r', e ∙ e', parts, rw kl q.0, rw kr q.1)
