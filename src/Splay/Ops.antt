-- ===== src/Splay/Ops.antt =====
-- The operations of library/splay.cc on the tree, all through `Splay`.
use ibm_pisa.Base.{ℕ, List, [], ◌∷◌, ◌++◌, add64, sub64, ltb, ◌==◌, if◌then◌else◌}
use ibm_pisa.Splay.{Tree, nil, node, new_node, clean_node, size_of, sum_sizes, splay}

-- `if (child) root->subtree_size = root->subtree_size - child->subtree_size`.
abbrev pub take_size : ℕ → Tree → ℕ
take_size s nil = s
take_size s (node _ c _ _) = sub64 s c

-- The assignments to `node->subtree_size`, `node->left` and `node->right`.
abbrev pub set_node : Tree → ℕ → Tree → Tree → Tree
set_node nil s l r = nil
set_node (node k _ _ _) s l r = node k s l r

-- The end of `Insert` and of `Update`, after the splay: a `node` with a new key becomes the root,
-- and a key that is there already leaves the tree alone.
unfoldable pub place : ℕ → Tree → Tree → Tree
place key new nil = new
place key new (node k s l r) =
    if ltb key k
    then set_node new (add64 s 1) l (node k (take_size s l) nil r)
    else if ltb k key
    then set_node new (add64 s 1) (node k (take_size s r) l nil) r
    else node k s l r

unfoldable pub insert : ℕ → Tree → Tree
unfolding new_node place splay
insert key nil = new_node key
insert key (node k s l r) = place key (new_node key) (splay key (node k s l r))

-- The tree without its root: `root->right` if there is no left child, and otherwise the left child
-- splayed for the same key, with the right child hung below it.
unfoldable pub hang_right : Tree → Tree → Tree
hang_right nil r = nil
hang_right (node k _ l _) r = node k (sum_sizes (size_of r) (size_of l)) l r

unfoldable pub remove_root : ℕ → Tree → Tree → Tree
unfolding hang_right splay
remove_root key nil r = r
remove_root key (node k s l r') r = hang_right (splay key (node k s l r')) r

unfoldable pub drop : ℕ → Tree → Tree
unfolding remove_root
drop key nil = nil
drop key (node k s l r) = if key == k then remove_root key l r else node k s l r

unfoldable pub delete : ℕ → Tree → Tree
unfolding drop splay
delete key nil = nil
delete key (node k s l r) = drop key (splay key (node k s l r))

-- The first half of `Update`: the tree without the previous key, and the node `tmp` for the new one,
-- which is the node taken out if there is one.
unfoldable pub detach_root : ℕ → ℕ → Tree → Tree × Tree
unfolding remove_root clean_node new_node
detach_root previous_key new_key nil = (nil, new_node new_key)
detach_root previous_key new_key (node k s l r) =
    if previous_key == k
    then (remove_root previous_key l r, clean_node (node k s l r) new_key)
    else (node k s l r, new_node new_key)

unfoldable pub detach : ℕ → ℕ → Tree → Tree × Tree
unfolding detach_root splay new_node
detach previous_key new_key nil = (nil, new_node new_key)
detach previous_key new_key (node k s l r) =
    detach_root previous_key new_key (splay previous_key (node k s l r))

unfoldable pub attach : ℕ → Tree → Tree → Tree
unfolding place splay
attach key tmp nil = tmp
attach key tmp (node k s l r) = place key tmp (splay key (node k s l r))

unfoldable pub update : ℕ → ℕ → Tree → Tree
unfolding detach attach
update previous_key new_key root =
    let (rest, tmp) = detach previous_key new_key root in attach new_key tmp rest

-- What `ComputeDistance` stores in `*distance`.
unfoldable pub distance_of : ℕ → Tree → ℕ
distance_of key nil = 0
distance_of key (node k _ _ nil) = 0
distance_of key (node k _ _ (node _ s _ _)) = if k == key then s else 0

unfoldable pub compute_distance : ℕ → Tree → Tree × ℕ
unfolding distance_of splay
compute_distance key root = let tmp = splay key root in (tmp, distance_of key tmp)

unfoldable pub find : ℕ → Tree → Tree
unfolding splay
find key root = splay key root

unfoldable pub tree_size : Tree → ℕ
tree_size nil = 0
tree_size (node _ _ l r) = add64 (add64 (tree_size r) (tree_size l)) 1

-- The keys of the nodes in the order in which `DeleteAll` frees them.
unfoldable pub delete_all : Tree → List ℕ
delete_all nil = []
delete_all (node k _ l r) = delete_all r ++ (delete_all l ++ k ∷ [])
