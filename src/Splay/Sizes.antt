-- ===== src/Splay/Sizes.antt =====
-- The field `subtree_size` of library/splay.cc, and the walks along `p` that set it.
use native.Mathlib.Nat.{add_comm}
use ibm_pisa.Base.{
  ℕ, suc, ◌+◌, ◌<◌, ◌≡◌, refl, List, [], ◌∷◌, All, Above, All-append_left, All-append_right,
  Bool-cases, inl, inr, false, compare_cases, arith, u64, ltb, ◌==◌,
}
use ibm_pisa.Splay.Loop.{Ensures, splay-Ensures}
use ibm_pisa.Splay.Keys.{keys, keys-right_rotate, keys-left_rotate}
use ibm_pisa.Splay.{
  Tree, nil, node, Frame, Locals, right_rotate, left_rotate, link_right, link_left, go_left,
  go_right, iterate, count, assemble, splay, resize, size_of, sum_sizes, settle, rebuild_left,
  rebuild_right,
}

abbrev pub IsSized : Tree → Type 0
IsSized nil = Unit
IsSized (node k s l r) = (s ≡ u64 (suc (count l + count r))) × IsSized l × IsSized r

abbrev pub IsPositive : Tree → Type 0
IsPositive t = Above 0 (keys t)

-- The sizes along a chain with `below` nodes hung at its end.
abbrev ChainSized : ℕ → List Frame → Type 0
ChainSized below [] = Unit
ChainSized below (f ∷ fs) =
    (f.subtree_size ≡ u64 (suc (count f.child + below)))
    × IsSized f.child
    × ChainSized (suc (count f.child + below)) fs

abbrev ChainPositive : List Frame → Type 0
ChainPositive = All (λ f. 0 < f.key)

pub size_of-eq-count : (t : Tree) → IsSized t → size_of t ≡ u64 (count t)
unfolding count
size_of-eq-count nil h = refl
size_of-eq-count (node k s l r) h = h.0

sum_sizes_lem : (a b m n : ℕ) → a ≡ u64 m → b ≡ u64 n → sum_sizes a b ≡ u64 (suc (m + n))
sum_sizes_lem a b m n p q = omega arith

sum_sizes-size_of :
    (l r : Tree)
    → IsSized l
    → IsSized r
    → sum_sizes (size_of l) (size_of r) ≡ u64 (suc (count l + count r))
sum_sizes-size_of l r p q =
    sum_sizes_lem (size_of l) (size_of r) (count l) (count r) (size_of-eq-count l p)
      (size_of-eq-count r q)

resize-ChainPositive : (n : ℕ) (fs : List Frame) → ChainPositive fs → ChainPositive (resize n fs)
unfolding resize
resize-ChainPositive n [] p = tt
resize-ChainPositive n (f ∷ fs) p =
    ground (arith, resize-ChainPositive (sum_sizes (size_of f.child) n) fs)

-- The walk mends the sizes above the place where nodes were hung.
resize-ChainSized :
    (old n s : ℕ) (fs : List Frame)
    → s ≡ u64 n
    → ChainSized old fs
    → ChainPositive fs
    → ChainSized n (resize s fs)
unfolding resize
resize-ChainSized old n s [] e h p = tt
resize-ChainSized old n s (f ∷ fs) e h p =
    let s' : sum_sizes (size_of f.child) s ≡ u64 (suc (count f.child + n)) =
      sum_sizes_lem _ s (count f.child) n (size_of-eq-count f.child h.1) e in
    let rest =
      resize-ChainSized (suc (count f.child + old)) (suc (count f.child + n)) _ fs s' h.2 p.1 in
    let away : (f.key == 0) ≡ false = ground arith in rw away (s', h.1, rest)

right_rotate-IsSized : (t : Tree) → IsSized t → IsSized (right_rotate t)
unfolding right_rotate count
right_rotate-IsSized nil h = tt
right_rotate-IsSized (node k s nil r) h = h
right_rotate-IsSized (node k s (node kl sl ll lr) r) (e, (el, hl, hr), h) =
    let inner = sum_sizes-size_of lr r hr h in
    (
      sum_sizes_lem _ _ (count ll) (suc (count lr + count r)) (size_of-eq-count ll hl) inner,
      hl,
      (inner, hr, h),
    )

left_rotate-IsSized : (t : Tree) → IsSized t → IsSized (left_rotate t)
unfolding left_rotate count
left_rotate-IsSized nil h = tt
left_rotate-IsSized (node k s l nil) h = h
left_rotate-IsSized (node k s l (node kr sr rl rr)) (e, h, (er, hl, hr)) =
    let inner = sum_sizes-size_of l rl h hl in
    (
      sum_sizes_lem _ _ (suc (count l + count rl)) (count rr) inner (size_of-eq-count rr hr),
      (inner, h, hl),
      hr,
    )

record Fits (st : Locals) : Type 0 where
  root_sized : IsSized st.root
  left_sized : ChainSized 0 st.ltree
  right_sized : ChainSized 0 st.rtree
  root_positive : IsPositive st.root
  left_positive : ChainPositive st.ltree
  right_positive : ChainPositive st.rtree

-- The keys of a node's parts, of `Above 0 (keys l ++ k ∷ keys r)`.
node-IsPositive :
    (k s : ℕ) (l r : Tree) → IsPositive (node k s l r) → IsPositive l × (0 < k) × IsPositive r
unfolding keys
node-IsPositive k s l r p =
    let (pk, pr) = All-append_right (λ x. 0 < x) (keys l) (k ∷ keys r) p in
    (All-append_left (λ x. 0 < x) (keys l) (k ∷ keys r) p, pk, pr)

link_right-Fits :
    (t : Tree) (L R : List Frame)
    → Fits (record { root = t; ltree = L; rtree = R })
    → Ensures Fits Fits (link_right t L R)
unfolding link_right
link_right-Fits nil L R h = h
link_right-Fits (node k s nil r) L R h = h
link_right-Fits (node k s (node kl sl ll lr) r) L R h =
    let (pl, pk, _) = node-IsPositive k s _ r h.root_positive in
    let size : sum_sizes 0 (size_of r) ≡ u64 (suc (count r + 0)) =
      omega (arith, size_of-eq-count r h.root_sized.2) in
    record {
      root_sized = h.root_sized.1;
      left_sized = h.left_sized;
      right_sized = (
        size,
        h.root_sized.2,
        resize-ChainSized 0 (suc (count r + 0)) _ R size h.right_sized h.right_positive,
      );
      root_positive = pl;
      left_positive = h.left_positive;
      right_positive = (pk, resize-ChainPositive _ R h.right_positive);
    }

link_left-Fits :
    (t : Tree) (L R : List Frame)
    → Fits (record { root = t; ltree = L; rtree = R })
    → Ensures Fits Fits (link_left t L R)
unfolding link_left
link_left-Fits nil L R h = h
link_left-Fits (node k s l nil) L R h = h
link_left-Fits (node k s l (node kr sr rl rr)) L R h =
    let (_, pk, pr) = node-IsPositive k s l _ h.root_positive in
    let size = sum_sizes_lem (size_of l) 0 (count l) 0 (size_of-eq-count l h.root_sized.1) refl in
    record {
      root_sized = h.root_sized.2;
      left_sized = (
        size,
        h.root_sized.1,
        resize-ChainSized 0 (suc (count l + 0)) _ L size h.left_sized h.left_positive,
      );
      right_sized = h.right_sized;
      root_positive = pr;
      left_positive = (pk, resize-ChainPositive _ L h.left_positive);
      right_positive = h.right_positive;
    }

-- A rotation of `root` keeps the invariant.
rotate-Fits :
    (t t' : Tree) (L R : List Frame)
    → (IsSized t → IsSized t')
    → keys t' ≡ keys t
    → Fits (record { root = t; ltree = L; rtree = R })
    → Fits (record { root = t'; ltree = L; rtree = R })
rotate-Fits t t' L R sized same h = record {
  root_sized = sized h.root_sized;
  left_sized = h.left_sized;
  right_sized = h.right_sized;
  root_positive = rw same h.root_positive;
  left_positive = h.left_positive;
  right_positive = h.right_positive;
}

go_left-Fits :
    (key : ℕ) (t : Tree) (L R : List Frame)
    → Fits (record { root = t; ltree = L; rtree = R })
    → Ensures Fits Fits (go_left key t L R)
unfolding go_left
go_left-Fits key nil L R h = link_right-Fits nil L R h
go_left-Fits key (node k s nil r) L R h = link_right-Fits (node k s nil r) L R h
go_left-Fits key (node k s (node kl sl ll lr) r) L R h =
    let t : Tree = node k s (node kl sl ll lr) r in
    elim (Bool-cases (ltb key kl)) [
      | inl e ↦ rw e (
          link_right-Fits (right_rotate t) L R
            (rotate-Fits t (right_rotate t) L R (right_rotate-IsSized t) (keys-right_rotate t) h))
      | inr e ↦ rw e (link_right-Fits t L R h)
    ]

go_right-Fits :
    (key : ℕ) (t : Tree) (L R : List Frame)
    → Fits (record { root = t; ltree = L; rtree = R })
    → Ensures Fits Fits (go_right key t L R)
unfolding go_right
go_right-Fits key nil L R h = link_left-Fits nil L R h
go_right-Fits key (node k s l nil) L R h = link_left-Fits (node k s l nil) L R h
go_right-Fits key (node k s l (node kr sr rl rr)) L R h =
    let t : Tree = node k s l (node kr sr rl rr) in
    elim (Bool-cases (ltb kr key)) [
      | inl e ↦ rw e (
          link_left-Fits (left_rotate t) L R
            (rotate-Fits t (left_rotate t) L R (left_rotate-IsSized t) (keys-left_rotate t) h))
      | inr e ↦ rw e (link_left-Fits t L R h)
    ]

iterate-Fits :
    (key : ℕ) (t : Tree) (L R : List Frame)
    → Fits (record { root = t; ltree = L; rtree = R })
    → Ensures Fits Fits (iterate key t L R)
unfolding iterate
iterate-Fits key nil L R h = h
iterate-Fits key (node k s l r) L R h = elim (compare_cases key k) [
  | inl (_, e, _, _) ↦ rw e (go_left-Fits key (node k s l r) L R h)
  | inr (inl (_, e, e', _)) ↦ rw (e, e') h
  | inr (inr (_, e, e', _)) ↦ rw (e, e') (go_right-Fits key (node k s l r) L R h)
]

-- The walks after the loop.
settle-ChainSized :
    (t : Tree) (fs : List Frame)
    → IsSized t
    → IsPositive t
    → ChainSized 0 fs
    → ChainPositive fs
    → let (t', fs') = settle t fs in IsSized t' × ChainSized (count t') fs'
unfolding settle count
settle-ChainSized nil fs st pt sc pc = (tt, sc)
settle-ChainSized (node k s l r) fs st pt sc pc =
    let (_, pk, _) = node-IsPositive k s l r pt in
    let away : (k == 0) ≡ false = ground arith in
    let size : sum_sizes (size_of r) (size_of l) ≡ u64 (suc (count l + count r)) =
      omega (arith, size_of-eq-count l st.1, size_of-eq-count r st.2) in
    rw away ((size, st.1, st.2), resize-ChainSized 0 (suc (count l + count r)) _ fs size sc pc)

rebuild_left-IsSized :
    (t : Tree) (fs : List Frame) → IsSized t → ChainSized (count t) fs → IsSized (rebuild_left t fs)
unfolding rebuild_left
rebuild_left-IsSized t [] h c = h
rebuild_left-IsSized t (f ∷ fs) h c =
    rebuild_left-IsSized (node f.key f.subtree_size f.child t) fs (c.0, c.1, h)
      (unfold count in c.2)

rebuild_right-IsSized :
    (t : Tree) (fs : List Frame)
    → IsSized t
    → ChainSized (count t) fs
    → IsSized (rebuild_right t fs)
unfolding rebuild_right
rebuild_right-IsSized t [] h c = h
rebuild_right-IsSized t (f ∷ fs) h c =
    rebuild_right-IsSized (node f.key f.subtree_size t f.child) fs (rw add_comm c.0, h, c.1)
      (unfold count in rw add_comm c.2)

assemble-IsSized :
    (k s : ℕ) (l r : Tree) (L R : List Frame)
    → Fits (record { root = node k s l r; ltree = L; rtree = R })
    → IsSized (assemble (node k s l r) L R)
unfolding assemble
assemble-IsSized k s l r L R h =
    let (pl, _, pr) = node-IsPositive k s l r h.root_positive in
    let (a, b) = settle-ChainSized l L h.root_sized.1 pl h.left_sized h.left_positive in
    let (c, d) = settle-ChainSized r R h.root_sized.2 pr h.right_sized h.right_positive in
    let left = rebuild_left-IsSized _ _ a b in
    let right = rebuild_right-IsSized _ _ c d in (sum_sizes-size_of _ _ left right, left, right)

-- Splaying keeps every `subtree_size` right in a tree that does not hold the key 0.
pub splay-IsSized : (key : ℕ) (t : Tree) → IsSized t → IsPositive t → IsSized (splay key t)
splay-IsSized key nil h p = unfold splay in tt
splay-IsSized key (node k s l r) h p =
    let (k', s', l', r', L, R, e, q) =
      splay-Ensures key Fits Fits (λ st _ f. iterate-Fits key st.root st.ltree st.rtree f)
        (node k s l r) (unfold count in omega arith)
        (record {
          root_sized = h;
          left_sized = tt;
          right_sized = tt;
          root_positive = p;
          left_positive = tt;
          right_positive = tt;
        }) in
    rw e (assemble-IsSized k' s' l' r' L R q)
