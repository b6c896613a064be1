-- ===== src/Base/Lists.antt =====
-- Lists over the native numbers: length, the predicate that holds of every item, and increasing
-- lists.
use Prim.Native.Nat.{ℕ, suc, ◌+◌, ◌<◌, ◌≤◌}
use mathlib.Core.Path.{◌≡◌}
use mathlib.Core.List.{List, [], ◌∷◌, ◌++◌}
use native.Mathlib.Omega.{arith}

module _ {ℓ} {A : Type ℓ} where
  abbrev pub length : List A → ℕ
  length [] = 0
  length (x ∷ xs) = suc (length xs)

  pub length-append : (xs ys : List A) → length (xs ++ ys) ≡ length xs + length ys
  length-append [] ys = omega arith
  length-append (x ∷ xs) ys = omega (arith, length-append xs ys)

abbrev pub All {ℓ κ} : {A : Type ℓ} → (A → Type κ) → List A → Type κ
All P [] = Unit
All P (x ∷ xs) = P x × All P xs

module _ {ℓ κ} {A : Type ℓ} (P : A → Type κ) where
  pub All-append : (xs ys : List A) → All P xs → All P ys → All P (xs ++ ys)
  All-append [] ys hx hy = hy
  All-append (x ∷ xs) ys hx hy = (hx.0, All-append xs ys hx.1 hy)

  pub All-append_left : (xs ys : List A) → All P (xs ++ ys) → All P xs
  All-append_left [] ys h = tt
  All-append_left (x ∷ xs) ys h = (h.0, All-append_left xs ys h.1)

  pub All-append_right : (xs ys : List A) → All P (xs ++ ys) → All P ys
  All-append_right [] ys h = h
  All-append_right (x ∷ xs) ys h = All-append_right xs ys h.1

  pub All-imp {μ} : (Q : A → Type μ) → ((a : A) → P a → Q a) → (xs : List A) → All P xs → All Q xs
  All-imp Q f [] h = tt
  All-imp Q f (x ∷ xs) h = (f x h.0, All-imp Q f xs h.1)

abbrev pub Below : ℕ → List ℕ → Type 0
Below k = All (λ x. x < k)

abbrev pub Above : ℕ → List ℕ → Type 0
Above k = All (λ x. k < x)

-- Strictly increasing.
abbrev pub IsSorted : List ℕ → Type 0
IsSorted [] = Unit
IsSorted (x ∷ xs) = Above x xs × IsSorted xs

pub Above-mono : (a b : ℕ) (xs : List ℕ) → a ≤ b → Above b xs → Above a xs
Above-mono a b [] h p = tt
Above-mono a b (x ∷ xs) h p = (omega arith, Above-mono a b xs h p.1)

pub Below-mono : (a b : ℕ) (xs : List ℕ) → a ≤ b → Below a xs → Below b xs
Below-mono a b [] h p = tt
Below-mono a b (x ∷ xs) h p = (omega arith, Below-mono a b xs h p.1)

-- A list is sorted around an item exactly when both sides are sorted and on their side of it.
pub IsSorted-split :
    (xs : List ℕ) (k : ℕ) (ys : List ℕ)
    → IsSorted (xs ++ k ∷ ys)
    → IsSorted xs × Below k xs × Above k ys × IsSorted ys
IsSorted-split [] k ys s = (tt, tt, s.0, s.1)
IsSorted-split (x ∷ xs) k ys s =
    let (sx, bx, ak, sy) = IsSorted-split xs k ys s.1 in
    (
      (All-append_left (λ y. x < y) xs (k ∷ ys) s.0, sx),
      ((All-append_right (λ y. x < y) xs (k ∷ ys) s.0).0, bx),
      ak,
      sy,
    )

pub IsSorted-join :
    (xs : List ℕ) (k : ℕ) (ys : List ℕ)
    → IsSorted xs
    → Below k xs
    → Above k ys
    → IsSorted ys
    → IsSorted (xs ++ k ∷ ys)
IsSorted-join [] k ys sx bx ak sy = (ak, sy)
IsSorted-join (x ∷ xs) k ys sx bx ak sy = (
  All-append (λ y. x < y) xs (k ∷ ys) sx.0 (bx.0, Above-mono x k ys (omega arith) ak),
  IsSorted-join xs k ys sx.1 bx.1 ak sy,
)

pub IsSorted-append_left : (xs ys : List ℕ) → IsSorted (xs ++ ys) → IsSorted xs
IsSorted-append_left [] ys s = tt
IsSorted-append_left (x ∷ xs) ys s =
    (All-append_left (λ y. x < y) xs ys s.0, IsSorted-append_left xs ys s.1)

pub IsSorted-append_right : (xs ys : List ℕ) → IsSorted (xs ++ ys) → IsSorted ys
IsSorted-append_right [] ys s = s
IsSorted-append_right (x ∷ xs) ys s = IsSorted-append_right xs ys s.1
