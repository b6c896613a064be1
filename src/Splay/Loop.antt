-- ===== src/Splay/Loop.antt =====
-- The loop `while(1)` of `Splay` in library/splay.cc: its rounds, its end and its fuel.
use ibm_pisa.Base.{ℕ, zero, suc, ◌≤◌, ◌<◌, ◌≡◌, refl, List, [], arith}
use ibm_pisa.Splay.{
  Tree, nil, node, Frame, Locals, Outcome, stop, again, right_rotate, left_rotate, link_right,
  link_left, go_left, go_right, iterate, count, splay_loop, assemble, splay,
}

-- What holds of the variables after a round, if `P` is kept by a further round and `Q` is reached
-- by leaving the loop.
abbrev pub Ensures : (Locals → Type 0) → (Locals → Type 0) → Outcome → Type 0
Ensures P Q (stop st) = Q st
Ensures P Q (again st) = P st

-- A round that goes on moves to a smaller subtree; one that leaves the loop keeps the nodes.
abbrev pub Shrinks : ℕ → Outcome → Type 0
Shrinks n (stop st) = count st.root ≡ n
Shrinks n (again st) = (0 < count st.root) × (count st.root < n)

count-right_rotate : (t : Tree) → count (right_rotate t) ≡ count t
unfolding count right_rotate
count-right_rotate (node k s (node kl sl ll lr) r) = omega arith
count-right_rotate t = refl

count-left_rotate : (t : Tree) → count (left_rotate t) ≡ count t
unfolding count left_rotate
count-left_rotate (node k s l (node kr sr rl rr)) = omega arith
count-left_rotate t = refl

link_right-Shrinks : (t : Tree) (L R : List Frame) → Shrinks (count t) (link_right t L R)
unfolding link_right count
link_right-Shrinks nil L R = refl
link_right-Shrinks (node k s nil r) L R = refl
link_right-Shrinks (node k s (node kl sl ll lr) r) L R = (omega arith, omega arith)

link_left-Shrinks : (t : Tree) (L R : List Frame) → Shrinks (count t) (link_left t L R)
unfolding link_left count
link_left-Shrinks nil L R = refl
link_left-Shrinks (node k s l nil) L R = refl
link_left-Shrinks (node k s l (node kr sr rl rr)) L R = (omega arith, omega arith)

go_left-Shrinks : (key : ℕ) (t : Tree) (L R : List Frame) → Shrinks (count t) (go_left key t L R)
unfolding go_left
go_left-Shrinks key nil L R = link_right-Shrinks nil L R
go_left-Shrinks key (node k s nil r) L R = link_right-Shrinks (node k s nil r) L R
go_left-Shrinks key (node k s (node kl sl ll lr) r) L R =
    let t : Tree = node k s (node kl sl ll lr) r in
    let rotated : Shrinks (count t) (link_right (right_rotate t) L R) =
      rw (count-right_rotate t) at (link_right-Shrinks (right_rotate t) L R) in
    ground (arith, link_right-Shrinks t L R, rotated)

go_right-Shrinks : (key : ℕ) (t : Tree) (L R : List Frame) → Shrinks (count t) (go_right key t L R)
unfolding go_right
go_right-Shrinks key nil L R = link_left-Shrinks nil L R
go_right-Shrinks key (node k s l nil) L R = link_left-Shrinks (node k s l nil) L R
go_right-Shrinks key (node k s l (node kr sr rl rr)) L R =
    let t : Tree = node k s l (node kr sr rl rr) in
    let rotated : Shrinks (count t) (link_left (left_rotate t) L R) =
      rw (count-left_rotate t) at (link_left-Shrinks (left_rotate t) L R) in
    ground (arith, link_left-Shrinks t L R, rotated)

-- A round that goes on has a smaller `root`, which is not NULL.
pub iterate-Shrinks :
    (key : ℕ) (t : Tree) (L R : List Frame) → Shrinks (count t) (iterate key t L R)
unfolding iterate
iterate-Shrinks key nil L R = refl
iterate-Shrinks key (node k s l r) L R =
    let t : Tree = node k s l r in
    ground (arith, go_left-Shrinks key t L R, go_right-Shrinks key t L R)

module _ (key : ℕ) (P Q : Locals → Type 0)
    (round : (st : Locals)
      → 0 < count st.root
      → P st
      → Ensures P Q (iterate key st.root st.ltree st.rtree)) where
  -- With as much fuel as there are nodes, the loop is left by a `break`, and so in `Q`.
  pub splay_loop-Ensures :
      (fuel : ℕ) (st : Locals)
      → count st.root ≤ fuel
      → 0 < count st.root
      → P st
      → Q (splay_loop fuel key st)
  unfolding splay_loop
  splay_loop-Ensures zero st le pos p = absurd (omega arith)
  splay_loop-Ensures (suc fuel) st le pos p =
      (elim (iterate key st.root st.ltree st.rtree)
          as (λ o.
            Shrinks (count st.root) o
            → Ensures P Q o
            → Q (elim o [ stop st' ↦ st' | again st' ↦ splay_loop fuel key st' ])) [
              | stop st' ↦ λ _ q. q
              | again st' ↦ λ small p'. splay_loop-Ensures fuel st' (omega arith) small.0 p'
            ])
        (iterate-Shrinks key st.root st.ltree st.rtree) (round st pos p)

-- `root` is not NULL after the loop.
pub splay_loop-count_pos :
    (key : ℕ) (st : Locals) → 0 < count st.root → 0 < count (splay_loop (count st.root) key st).root
splay_loop-count_pos key st pos =
    splay_loop-Ensures key (λ _. Unit) (λ s. 0 < count s.root)
      (λ s p _.
        kept s p (iterate key s.root s.ltree s.rtree) (iterate-Shrinks key s.root s.ltree s.rtree))
      (count st.root) st (omega arith) pos tt
  where
    kept :
        (s : Locals)
        → 0 < count s.root
        → (o : Outcome) → Shrinks (count s.root) o
        → Ensures (λ _. Unit) (λ s. 0 < count s.root) o
    kept s p (stop r) h = omega arith
    kept s p (again r) h = tt

module _ (key : ℕ) (P Q : Locals → Type 0)
    (round : (st : Locals)
      → 0 < count st.root
      → P st
      → Ensures P Q (iterate key st.root st.ltree st.rtree)) where
  -- What `assemble` works on: a node between two chains, in `Q`.
  abbrev Leaves : Tree → Type 0
  Leaves t =
      (k s : ℕ) × (l r : Tree) × (L R : List Frame) × (t ≡ assemble (node k s l r) L R)
      × Q (record { root = node k s l r; ltree = L; rtree = R })

  exit_of :
      (t : Tree) (L R : List Frame)
      → 0 < count t
      → Q (record { root = t; ltree = L; rtree = R })
      → Leaves (assemble t L R)
  exit_of nil L R pos q = absurd (unfold count in omega arith)
  exit_of (node k s l r) L R pos q = (k, s, l, r, L, R, refl, q)

  pub splay-Ensures :
      (t : Tree)
      → 0 < count t
      → P (record { root = t; ltree = []; rtree = [] })
      → Leaves (splay key t)
  splay-Ensures t pos p =
      let st : Locals = record { root = t; ltree = []; rtree = [] } in
      let out = splay_loop (count t) key st in
      unfold splay in
      exit_of out.root out.ltree out.rtree (splay_loop-count_pos key st pos)
        (splay_loop-Ensures key P Q round (count t) st (omega arith) pos p)

-- From any state of the loop whose root is a node, with as much fuel as the root's tree has nodes,
-- the loop is left by a `break`: its result is what an iteration stops with.
pub splay_loop_ends :
    (key : ℕ) (st : Locals)
    → 0 < count st.root
    → (last : Locals) × (iterate key last.root last.ltree last.rtree
        ≡ stop (splay_loop (count st.root) key st))
splay_loop_ends key st pos =
    splay_loop-Ensures key (λ _. Unit) Left
      (λ s _ _. leave s (iterate key s.root s.ltree s.rtree) refl) (count st.root) st (omega arith)
      pos tt
  where
    Left : Locals → Type 0
    Left r = (last : Locals) × (iterate key last.root last.ltree last.rtree ≡ stop r)

    leave :
        (s : Locals) (o : Outcome)
        → iterate key s.root s.ltree s.rtree ≡ o
        → Ensures (λ _. Unit) Left o
    leave s (stop r) e = (s, e)
    leave s (again r) e = tt

splay_loop_agree :
    (m n key : ℕ) (st : Locals)
    → count st.root ≤ m
    → count st.root ≤ n
    → 0 < count st.root
    → splay_loop m key st ≡ splay_loop n key st
unfolding splay_loop
splay_loop_agree zero n key st a b pos = absurd (omega arith)
splay_loop_agree (suc m) zero key st a b pos = absurd (omega arith)
splay_loop_agree (suc m) (suc n) key st a b pos =
    (elim (iterate key st.root st.ltree st.rtree)
        as (λ o.
          Shrinks (count st.root) o
          → (elim o [ stop st' ↦ st' | again st' ↦ splay_loop m key st' ])
            ≡ (elim o [ stop st' ↦ st' | again st' ↦ splay_loop n key st' ])) [
              | stop st' ↦ λ _. refl
              | again st' ↦
                  λ small. splay_loop_agree m n key st' (omega arith) (omega arith) small.0
            ])
      (iterate-Shrinks key st.root st.ltree st.rtree)

-- From any state of the loop whose root is a node, fuel above the number of nodes of the root's
-- tree changes nothing.
pub splay_loop_fuel :
    (fuel key : ℕ) (st : Locals)
    → count st.root ≤ fuel
    → 0 < count st.root
    → splay_loop fuel key st ≡ splay_loop (count st.root) key st
splay_loop_fuel fuel key st le pos =
    splay_loop_agree fuel (count st.root) key st le (omega arith) pos
