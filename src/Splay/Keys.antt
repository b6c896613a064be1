-- ===== src/Splay/Keys.antt =====
-- The tree of library/splay.cc as the list of its keys in order.
use ibm_pisa.Base.{
  ℕ, ◌<◌, ◌≡◌, refl, ap₂, ◌∙◌, List, [], ◌∷◌, ◌++◌, append_assoc, append-nil, arith, length,
  length-append,
}
use ibm_pisa.Splay.Loop.{Ensures, splay_loop-Ensures, splay_loop-count_pos}
use ibm_pisa.Splay.{
  Tree, nil, node, Frame, Locals, Outcome, stop, again, size_of, sum_sizes, right_rotate,
  left_rotate, resize, link_right, link_left, go_left, go_right, iterate, count, splay_loop, settle,
  rebuild_left, rebuild_right, assemble, splay,
}

unfoldable pub keys : Tree → List ℕ
keys nil = []
keys (node k _ l r) = keys l ++ k ∷ keys r

-- A left chain lists its frames before `root`, innermost last; a right chain after it.
unfoldable pub left_keys : List Frame → List ℕ
unfolding keys
left_keys [] = []
left_keys (f ∷ fs) = left_keys fs ++ (keys f.child ++ f.key ∷ [])

unfoldable pub right_keys : List Frame → List ℕ
unfolding keys
right_keys [] = []
right_keys (f ∷ fs) = f.key ∷ keys f.child ++ right_keys fs

unfoldable pub locals_keys : Locals → List ℕ
unfolding left_keys right_keys
locals_keys st = left_keys st.ltree ++ keys st.root ++ right_keys st.rtree

abbrev pub outcome_locals : Outcome → Locals
outcome_locals (stop st) = st
outcome_locals (again st) = st

pub length-keys : (t : Tree) → length (keys t) ≡ count t
unfolding keys count
length-keys nil = refl
length-keys (node k s l r) =
    omega (arith, length-append (keys l) (k ∷ keys r), length-keys l, length-keys r)

pub left_keys-resize : (n : ℕ) (fs : List Frame) → left_keys (resize n fs) ≡ left_keys fs
unfolding left_keys resize
left_keys-resize n [] = refl
left_keys-resize n (f ∷ fs) = ground (arith, left_keys-resize (sum_sizes (size_of f.child) n) fs)

pub right_keys-resize : (n : ℕ) (fs : List Frame) → right_keys (resize n fs) ≡ right_keys fs
unfolding right_keys resize
right_keys-resize n [] = refl
right_keys-resize n (f ∷ fs) = ground (arith, right_keys-resize (sum_sizes (size_of f.child) n) fs)

pub keys-right_rotate : (t : Tree) → keys (right_rotate t) ≡ keys t
unfolding keys right_rotate
keys-right_rotate (node k s (node kl sl ll lr) r) = simp append_assoc
keys-right_rotate t = refl

pub keys-left_rotate : (t : Tree) → keys (left_rotate t) ≡ keys t
unfolding keys left_rotate
keys-left_rotate (node k s l (node kr sr rl rr)) = simp append_assoc
keys-left_rotate t = refl

link_right-keys :
    (t : Tree) (L R : List Frame)
    → locals_keys (outcome_locals (link_right t L R)) ≡ left_keys L ++ keys t ++ right_keys R
unfolding locals_keys link_right
link_right-keys nil L R = refl
link_right-keys (node k s nil r) L R = refl
link_right-keys (node k s (node kl sl ll lr) r) L R = simp (append_assoc, right_keys-resize)

link_left-keys :
    (t : Tree) (L R : List Frame)
    → locals_keys (outcome_locals (link_left t L R)) ≡ left_keys L ++ keys t ++ right_keys R
unfolding locals_keys link_left
link_left-keys nil L R = refl
link_left-keys (node k s l nil) L R = refl
link_left-keys (node k s l (node kr sr rl rr)) L R = simp (append_assoc, left_keys-resize)

go_left-keys :
    (key : ℕ) (t : Tree) (L R : List Frame)
    → locals_keys (outcome_locals (go_left key t L R)) ≡ left_keys L ++ keys t ++ right_keys R
unfolding go_left
go_left-keys key nil L R = link_right-keys nil L R
go_left-keys key (node k s nil r) L R = link_right-keys (node k s nil r) L R
go_left-keys key (node k s (node kl sl ll lr) r) L R =
    let t : Tree = node k s (node kl sl ll lr) r in
    ground (arith, link_right-keys t L R, link_right-keys (right_rotate t) L R, keys-right_rotate t)

go_right-keys :
    (key : ℕ) (t : Tree) (L R : List Frame)
    → locals_keys (outcome_locals (go_right key t L R)) ≡ left_keys L ++ keys t ++ right_keys R
unfolding go_right
go_right-keys key nil L R = link_left-keys nil L R
go_right-keys key (node k s l nil) L R = link_left-keys (node k s l nil) L R
go_right-keys key (node k s l (node kr sr rl rr)) L R =
    let t : Tree = node k s l (node kr sr rl rr) in
    ground (arith, link_left-keys t L R, link_left-keys (left_rotate t) L R, keys-left_rotate t)

pub iterate-keys :
    (key : ℕ) (t : Tree) (L R : List Frame)
    → locals_keys (outcome_locals (iterate key t L R)) ≡ left_keys L ++ keys t ++ right_keys R
unfolding iterate
iterate-keys key nil L R = unfold locals_keys in refl
iterate-keys key (node k s l r) L R =
    let t : Tree = node k s l r in
    let done : locals_keys (record { root = t; ltree = L; rtree = R })
        ≡ left_keys L ++ keys t ++ right_keys R =
      unfold locals_keys in refl in
    ground (arith, go_left-keys key t L R, go_right-keys key t L R, done)

locals_keys-splay_loop :
    (key : ℕ) (st : Locals)
    → 0 < count st.root
    → locals_keys (splay_loop (count st.root) key st) ≡ locals_keys st
locals_keys-splay_loop key st pos =
    splay_loop-Ensures key Same Same
      (λ s _ p.
        kept (iterate key s.root s.ltree s.rtree)
          (iterate-keys key s.root s.ltree s.rtree ∙ flat s ∙ p))
      (count st.root) st (omega arith) pos refl
  where
    Same : Locals → Type 0
    Same s = locals_keys s ≡ locals_keys st

    flat : (s : Locals) → left_keys s.ltree ++ keys s.root ++ right_keys s.rtree ≡ locals_keys s
    flat s = unfold locals_keys in refl

    kept : (o : Outcome) → Same (outcome_locals o) → Ensures Same Same o
    kept (stop r) e = e
    kept (again r) e = e

-- The walks after the loop change sizes only.
left_keys-settle :
    (t : Tree) (fs : List Frame)
    → let (t', fs') = settle t fs in (keys t' ≡ keys t) × (left_keys fs' ≡ left_keys fs)
unfolding settle keys
left_keys-settle nil fs = (refl, refl)
left_keys-settle (node k s l r) fs =
    ground (arith, left_keys-resize (sum_sizes (size_of r) (size_of l)) fs)

right_keys-settle :
    (t : Tree) (fs : List Frame)
    → let (t', fs') = settle t fs in (keys t' ≡ keys t) × (right_keys fs' ≡ right_keys fs)
unfolding settle keys
right_keys-settle nil fs = (refl, refl)
right_keys-settle (node k s l r) fs =
    ground (arith, right_keys-resize (sum_sizes (size_of r) (size_of l)) fs)

keys-rebuild_left : (t : Tree) (fs : List Frame) → keys (rebuild_left t fs) ≡ left_keys fs ++ keys t
unfolding rebuild_left left_keys keys
keys-rebuild_left t [] = refl
keys-rebuild_left t (f ∷ fs) =
    simp (keys-rebuild_left (node f.key f.subtree_size f.child t) fs, append_assoc)

keys-rebuild_right :
    (t : Tree) (fs : List Frame) → keys (rebuild_right t fs) ≡ keys t ++ right_keys fs
unfolding rebuild_right right_keys keys
keys-rebuild_right t [] = simp append-nil
keys-rebuild_right t (f ∷ fs) =
    simp (keys-rebuild_right (node f.key f.subtree_size t f.child) fs, append_assoc)

-- The two subtrees that `assemble` hangs below `root`, by their keys.
pub assemble-keys :
    (k s : ℕ) (l r : Tree) (L R : List Frame)
    → (s' : ℕ) × (l' : Tree) × (r' : Tree) × (assemble (node k s l r) L R ≡ node k s' l' r')
      × (keys l' ≡ left_keys L ++ keys l)
      × (keys r' ≡ keys r ++ right_keys R)
unfolding assemble
assemble-keys k s l r L R =
    let (a, b) = left_keys-settle l L in
    let (c, d) = right_keys-settle r R in
    (_, _, _, refl, keys-rebuild_left _ _ ∙ ap₂ ◌++◌ b a, keys-rebuild_right _ _ ∙ ap₂ ◌++◌ c d)

keys-assemble :
    (t : Tree) (L R : List Frame)
    → 0 < count t
    → keys (assemble t L R) ≡ left_keys L ++ keys t ++ right_keys R
unfolding count
keys-assemble nil L R pos = absurd (omega arith)
keys-assemble (node k s l r) L R pos =
    let (s', l', r', e, a, b) = assemble-keys k s l r L R in
    rw e (unfold keys in rw (a, b) (simp append_assoc))

-- Splaying any tree for any key keeps its keys, in their order.
pub keys-splay : (key : ℕ) (t : Tree) → keys (splay key t) ≡ keys t
unfolding splay
keys-splay key nil = refl
keys-splay key (node k s l r) =
    let t : Tree = node k s l r in
    let st : Locals = record { root = t; ltree = []; rtree = [] } in
    let pos : 0 < count t = unfold count in omega arith in
    let out = splay_loop (count t) key st in
    keys-assemble out.root out.ltree out.rtree (splay_loop-count_pos key st pos)
    ∙ (unfold locals_keys in (locals_keys-splay_loop key st pos ∙ append-nil (keys t)))
