-- ===== src/Splay.antt =====
-- The splay tree of library/splay.cc. A `tree*` is a `Tree`; NULL is `nil`. The field `p` is read
-- only by the loops `while (tmp && tmp->key)`, and only on nodes that the same call of `Splay` has
-- hung below its header node `ref`; there it leads from a node to the node above it. So the chains
-- that grow below `ref` are lists of frames, innermost first, and a walk along `p` is a walk down
-- such a list.
pub mod Keys
pub mod Loop
pub mod Order
pub mod Exact
pub mod Ops
pub mod Refine
pub mod Sizes
pub mod SortedKeys
use ibm_pisa.Base.{ℕ, zero, suc, ◌+◌, List, [], ◌∷◌, add64, ltb, ◌==◌, if◌then◌else◌}

pub data Tree : Type 0 where
  nil : Tree
  node : (key subtree_size : ℕ) → (left right : Tree) → Tree

-- A node of a chain: its key, its size, and the child that does not continue the chain.
pub record Frame : Type 0 where
  pub key : ℕ
  pub subtree_size : ℕ
  pub child : Tree

-- The local variables of `Splay`: `root`, and the chains that end in `ltree` and in `rtree`.
pub record Locals : Type 0 where
  pub root : Tree
  pub ltree : List Frame
  pub rtree : List Frame

-- How an iteration of `while(1)` ends.
pub data Outcome : Type 0 where
  stop : Locals → Outcome
  again : Locals → Outcome

unfoldable pub new_node : ℕ → Tree
new_node key = node key 1 nil nil

-- `CleanNode`: the node that a pointer leads to after the call.
unfoldable pub clean_node : Tree → ℕ → Tree
clean_node nil key = nil
clean_node (node _ _ _ _) key = node key 1 nil nil

-- `subtree_size` behind a pointer that may be NULL, as the guarded additions read it.
abbrev pub size_of : Tree → ℕ
size_of nil = 0
size_of (node _ s _ _) = s

-- `x->subtree_size = 1; if (x->left) x->subtree_size += ...; if (x->right) ...`.
abbrev pub sum_sizes : ℕ → ℕ → ℕ
sum_sizes a b = add64 (add64 1 a) b

-- The source reads `root->left` without a test: its callers have made sure that it is not NULL.
unfoldable pub right_rotate : Tree → Tree
right_rotate (node k s (node kl sl ll lr) r) =
    let root = node k (sum_sizes (size_of lr) (size_of r)) lr r in
    node kl (sum_sizes (size_of ll) (size_of root)) ll root
right_rotate t = t

unfoldable pub left_rotate : Tree → Tree
left_rotate (node k s l (node kr sr rl rr)) =
    let root = node k (sum_sizes (size_of l) (size_of rl)) l rl in
    node kr (sum_sizes (size_of root) (size_of rr)) root rr
left_rotate t = t

-- `while (tmp && tmp->key)` along `p`. `below` is the size of the child that the chain runs
-- through; a node with key 0 ends the walk, as `ref` does.
unfoldable pub resize : ℕ → List Frame → List Frame
resize below [] = []
resize below (f ∷ fs) =
    let s = sum_sizes (size_of f.child) below in
    if f.key == 0 then f ∷ fs else record f { subtree_size = s } ∷ resize s fs

unfoldable pub link_right : Tree → List Frame → List Frame → Outcome
unfolding resize
link_right nil ltree rtree = stop (record { root = nil; ltree = ltree; rtree = rtree })
link_right (node k s nil r) ltree rtree =
    stop (record { root = node k s nil r; ltree = ltree; rtree = rtree })
link_right (node k s (node kl sl ll lr) r) ltree rtree =
    let size = sum_sizes 0 (size_of r) in
    again (record {
      root = node kl sl ll lr;
      ltree = ltree;
      rtree = record { key = k; subtree_size = size; child = r } ∷ resize size rtree;
    })

unfoldable pub link_left : Tree → List Frame → List Frame → Outcome
unfolding resize
link_left nil ltree rtree = stop (record { root = nil; ltree = ltree; rtree = rtree })
link_left (node k s l nil) ltree rtree =
    stop (record { root = node k s l nil; ltree = ltree; rtree = rtree })
link_left (node k s l (node kr sr rl rr)) ltree rtree =
    let size = sum_sizes (size_of l) 0 in
    again (record {
      root = node kr sr rl rr;
      ltree = record { key = k; subtree_size = size; child = l } ∷ resize size ltree;
      rtree = rtree;
    })

-- The branch `key < root->key`: rotate if the key lies left of the left child too, then link.
unfoldable pub go_left : ℕ → Tree → List Frame → List Frame → Outcome
unfolding link_right right_rotate
go_left key (node k s (node kl sl ll lr) r) ltree rtree =
    if ltb key kl
    then link_right (right_rotate (node k s (node kl sl ll lr) r)) ltree rtree
    else link_right (node k s (node kl sl ll lr) r) ltree rtree
go_left key t ltree rtree = link_right t ltree rtree

unfoldable pub go_right : ℕ → Tree → List Frame → List Frame → Outcome
unfolding link_left left_rotate
go_right key (node k s l (node kr sr rl rr)) ltree rtree =
    if ltb kr key
    then link_left (left_rotate (node k s l (node kr sr rl rr))) ltree rtree
    else link_left (node k s l (node kr sr rl rr)) ltree rtree
go_right key t ltree rtree = link_left t ltree rtree

-- One iteration of `while(1)`. The source never enters it with a NULL `root`.
unfoldable pub iterate : ℕ → Tree → List Frame → List Frame → Outcome
unfolding go_left go_right
iterate key nil ltree rtree = stop (record { root = nil; ltree = ltree; rtree = rtree })
iterate key (node k s l r) ltree rtree =
    if ltb key k
    then go_left key (node k s l r) ltree rtree
    else if ltb k key
    then go_right key (node k s l r) ltree rtree
    else stop (record { root = node k s l r; ltree = ltree; rtree = rtree })

unfoldable pub count : Tree → ℕ
count nil = 0
count (node _ _ l r) = suc (count l + count r)

-- `while(1)`, on fuel. Each round moves `root` to a proper subtree, so the number of nodes is
-- enough fuel.
unfoldable pub splay_loop : ℕ → ℕ → Locals → Locals
splay_loop zero key st = st
splay_loop (suc fuel) key st = elim (iterate key st.root st.ltree st.rtree) [
  | stop st' ↦ st'
  | again st' ↦ splay_loop fuel key st'
]

-- The walk after the loop starts at the subtree `sub` that was hung below the chain.
unfoldable pub settle : Tree → List Frame → Tree × List Frame
unfolding resize
settle nil chain = (nil, chain)
settle (node k s l r) chain =
    let s' = sum_sizes (size_of r) (size_of l) in
    if k == 0 then (node k s l r, chain) else (node k s' l r, resize s' chain)

-- The tree that a chain and the subtree below its end make up.
unfoldable pub rebuild_left : Tree → List Frame → Tree
rebuild_left sub [] = sub
rebuild_left sub (f ∷ fs) = rebuild_left (node f.key f.subtree_size f.child sub) fs

unfoldable pub rebuild_right : Tree → List Frame → Tree
rebuild_right sub [] = sub
rebuild_right sub (f ∷ fs) = rebuild_right (node f.key f.subtree_size sub f.child) fs

-- The code after the loop: `t->right` and `t->left` become the children of `root`.
unfoldable pub assemble : Tree → List Frame → List Frame → Tree
unfolding settle rebuild_left rebuild_right
assemble nil ltree rtree = nil
assemble (node k s l r) ltree rtree =
    let (lsub, lchain) = settle l ltree in
    let (rsub, rchain) = settle r rtree in
    let left = rebuild_left lsub lchain in
    let right = rebuild_right rsub rchain in
    node k (sum_sizes (size_of left) (size_of right)) left right

unfoldable pub splay : ℕ → Tree → Tree
unfolding count iterate splay_loop assemble
splay key root =
    let st = splay_loop (count root) key (record { root = root; ltree = []; rtree = [] }) in
    assemble st.root st.ltree st.rtree
