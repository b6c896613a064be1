-- ===== src/Splay/SortedKeys.antt =====
-- The specification of the tree: a strictly increasing list of keys, with insertion, removal and
-- the number of greater keys.
use ibm_pisa.Base.{
  ℕ, ◌+◌, ◌<◌, ◌≡◌, refl, Bool, false, List, [], ◌∷◌, ◌++◌, arith, length, Below, Above, IsSorted,
  ltb, ◌==◌, if◌then◌else◌, ◌||◌, Above-mono,
}

unfoldable pub insert_key : ℕ → List ℕ → List ℕ
insert_key q [] = q ∷ []
insert_key q (x ∷ xs) =
    let rest = insert_key q xs in
    if ltb q x then q ∷ x ∷ xs else if ltb x q then x ∷ rest else x ∷ xs

unfoldable pub remove_key : ℕ → List ℕ → List ℕ
remove_key q [] = []
remove_key q (x ∷ xs) = let rest = remove_key q xs in if x == q then rest else x ∷ rest

unfoldable pub has_key : ℕ → List ℕ → Bool
has_key q [] = false
has_key q (x ∷ xs) = x == q || has_key q xs

unfoldable pub count_above : ℕ → List ℕ → ℕ
count_above q [] = 0
count_above q (x ∷ xs) = (if ltb q x then 1 else 0) + count_above q xs

pub insert_key_between :
    (q : ℕ) (xs ys : List ℕ) → Below q xs → Above q ys → insert_key q (xs ++ ys) ≡ xs ++ q ∷ ys
unfolding insert_key
insert_key_between q [] [] b a = refl
insert_key_between q [] (y ∷ ys) b a = ground arith
insert_key_between q (x ∷ xs) ys b a = ground (arith, insert_key_between q xs ys b.1 a)

pub insert_key_present :
    (q : ℕ) (xs ys : List ℕ) → Below q xs → insert_key q (xs ++ q ∷ ys) ≡ xs ++ q ∷ ys
unfolding insert_key
insert_key_present q [] ys b = ground arith
insert_key_present q (x ∷ xs) ys b = ground (arith, insert_key_present q xs ys b.1)

pub remove_key-Above : (q : ℕ) (xs : List ℕ) → Above q xs → remove_key q xs ≡ xs
unfolding remove_key
remove_key-Above q [] a = refl
remove_key-Above q (x ∷ xs) a = ground (arith, remove_key-Above q xs a.1)

pub remove_key_between :
    (q : ℕ) (xs ys : List ℕ) → Below q xs → Above q ys → remove_key q (xs ++ ys) ≡ xs ++ ys
unfolding remove_key
remove_key_between q [] ys b a = remove_key-Above q ys a
remove_key_between q (x ∷ xs) ys b a = ground (arith, remove_key_between q xs ys b.1 a)

pub remove_key_present :
    (q : ℕ) (xs ys : List ℕ) → Below q xs → Above q ys → remove_key q (xs ++ q ∷ ys) ≡ xs ++ ys
unfolding remove_key
remove_key_present q [] ys b a = ground (arith, remove_key-Above q ys a)
remove_key_present q (x ∷ xs) ys b a = ground (arith, remove_key_present q xs ys b.1 a)

has_key-Above : (q : ℕ) (xs : List ℕ) → Above q xs → has_key q xs ≡ false
unfolding has_key
has_key-Above q [] a = refl
has_key-Above q (x ∷ xs) a = ground (arith, has_key-Above q xs a.1)

-- The item between smaller and greater ones decides whether the key is there.
pub has_key_between :
    (q : ℕ) (xs : List ℕ) (k : ℕ) (ys : List ℕ)
    → Below q xs
    → Above q ys
    → has_key q (xs ++ k ∷ ys) ≡ (k == q)
unfolding has_key
has_key_between q [] k ys b a = ground (arith, has_key-Above q ys a)
has_key_between q (x ∷ xs) k ys b a = ground (arith, has_key_between q xs k ys b.1 a)

pub count_above-Above : (q : ℕ) (xs : List ℕ) → Above q xs → count_above q xs ≡ length xs
unfolding count_above
count_above-Above q [] a = refl
count_above-Above q (x ∷ xs) a = ground (arith, count_above-Above q xs a.1)

pub count_above_between :
    (q : ℕ) (xs ys : List ℕ) → Below q xs → Above q ys → count_above q (xs ++ q ∷ ys) ≡ length ys
unfolding count_above
count_above_between q [] ys b a = ground (arith, count_above-Above q ys a)
count_above_between q (x ∷ xs) ys b a = ground (arith, count_above_between q xs ys b.1 a)

pub Above-insert_key : (a q : ℕ) (xs : List ℕ) → a < q → Above a xs → Above a (insert_key q xs)
unfolding insert_key
Above-insert_key a q [] h p = (h, tt)
Above-insert_key a q (x ∷ xs) h p = ground (arith, Above-insert_key a q xs h p.1)

pub IsSorted-insert_key : (q : ℕ) (xs : List ℕ) → IsSorted xs → IsSorted (insert_key q xs)
unfolding insert_key
IsSorted-insert_key q [] s = (tt, tt)
IsSorted-insert_key q (x ∷ xs) s =
    ground (arith, IsSorted-insert_key q xs s.1, Above-insert_key x q xs, Above-mono q x xs)

pub Above-remove_key : (a q : ℕ) (xs : List ℕ) → Above a xs → Above a (remove_key q xs)
unfolding remove_key
Above-remove_key a q [] p = tt
Above-remove_key a q (x ∷ xs) p = ground (arith, Above-remove_key a q xs p.1)

pub IsSorted-remove_key : (q : ℕ) (xs : List ℕ) → IsSorted xs → IsSorted (remove_key q xs)
unfolding remove_key
IsSorted-remove_key q [] s = tt
IsSorted-remove_key q (x ∷ xs) s =
    ground (arith, IsSorted-remove_key q xs s.1, Above-remove_key x q xs s.0)
