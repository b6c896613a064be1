-- ===== src/Utils/Bits.antt =====
-- Facts about `|` and `>>` at variables.
use Prim.Native.Nat.{bit_or, max, digits, bit_or-bitwise}
use native.Mathlib.Nat.{
  pow-suc, one-le-pow, div-div-eq-div-mul, add-zero, add-suc, mul_assoc, pow-succ',
}
use ibm_pisa.Base.{ℕ, zero, suc, ◌+◌, ◌-◌, ◌*◌, ◌/◌, ◌%◌, ◌^◌, ◌≤◌, ◌<◌, ◌≡◌, refl, sym, ap, arith}

-- The recursion that `bit_or` stands for does not depend on its fuel.
or_digits_enough :
    (a b n m : ℕ) → a ≤ n → a ≤ m → digits (λ d. d) max n a b ≡ digits (λ d. d) max m a b
or_digits_enough a b zero zero p q = refl
or_digits_enough zero b zero (suc m) p q = refl
or_digits_enough zero b (suc n) zero p q = refl
or_digits_enough zero b (suc n) (suc m) p q = refl
or_digits_enough (suc a) b zero m p q = absurd (omega arith)
or_digits_enough (suc a) b (suc n) zero p q = absurd (omega arith)
or_digits_enough (suc a) b (suc n) (suc m) p q =
    let half = or_digits_enough (suc a / 2) (b / 2) n m (omega arith) (omega arith) in
    omega (arith, half)

bit_or_digits : (a b : ℕ) → bit_or a b ≡ bit_or (a / 2) (b / 2) * 2 + max (a % 2) (b % 2)
bit_or_digits zero b = omega (arith, bit_or-bitwise 0 b, bit_or-bitwise 0 (b / 2))
bit_or_digits (suc a) b = omega (
  arith,
  bit_or-bitwise (suc a) b,
  bit_or-bitwise (suc a / 2) (b / 2),
  or_digits_enough (suc a / 2) (b / 2) a (suc a / 2) (omega arith) (omega arith),
)

pub pow_add : (a b : ℕ) → 2 ^ (a + b) ≡ 2 ^ a * 2 ^ b
pow_add a zero = rw add-zero (omega arith)
pow_add a (suc b) = simp (add-suc, pow-suc, pow_add a b, mul_assoc)

pub div_pow_add : (w a b : ℕ) → w / 2 ^ (a + b) ≡ w / 2 ^ a / 2 ^ b
div_pow_add w a b = rw pow_add (sym (div-div-eq-div-mul w (2 ^ a) (2 ^ b)))

div_pow-suc : (w k : ℕ) → w / 2 ^ suc k ≡ w / 2 ^ k / 2
div_pow-suc w k = rw pow-suc (sym (div-div-eq-div-mul w (2 ^ k) 2))

half_div_pow : (w k : ℕ) → w / 2 ^ suc k ≡ w / 2 / 2 ^ k
half_div_pow w k = rw pow-succ' (sym (div-div-eq-div-mul w 2 (2 ^ k)))

bit_or_half : (a b : ℕ) → bit_or a b / 2 ≡ bit_or (a / 2) (b / 2)
bit_or_half a b = omega (arith, bit_or_digits a b)

-- Shifting both operands shifts the result.
pub bit_or-shift : (k a b : ℕ) → bit_or a b / 2 ^ k ≡ bit_or (a / 2 ^ k) (b / 2 ^ k)
bit_or-shift zero a b = ground arith
bit_or-shift (suc k) a b =
    rw (div_pow-suc a k, div_pow-suc b k, div_pow-suc (bit_or a b) k, bit_or-shift k a b)
      (bit_or_half (a / 2 ^ k) (b / 2 ^ k))

bit_or-zero : (n a : ℕ) → a ≤ n → bit_or a 0 ≡ a
bit_or-zero n zero h = refl
bit_or-zero zero (suc a) h = absurd (omega arith)
bit_or-zero (suc n) (suc a) h =
    omega (arith, bit_or_digits (suc a) 0, bit_or-zero n (suc a / 2) (omega arith))

-- Or with a run of low ones fills those digits and keeps the others.
pub bit_or_ones : (k a : ℕ) → bit_or a (2 ^ k - 1) ≡ a / 2 ^ k * 2 ^ k + (2 ^ k - 1)
bit_or_ones zero a = omega (arith, bit_or-zero a a (omega arith))
bit_or_ones (suc k) a = ground (
  arith,
  pow-suc 2 k,
  one-le-pow k 2,
  bit_or_digits a (2 ^ suc k - 1),
  bit_or_ones k (a / 2),
  half_div_pow a k,
  ap (λ (t : ℕ). a / 2 / 2 ^ k * t) (pow-suc 2 k),
)

pub ones-bit_or : (k b : ℕ) → b < 2 ^ k → bit_or (2 ^ k - 1) b ≡ 2 ^ k - 1
ones-bit_or zero b h = ground arith
ones-bit_or (suc k) b h =
    ground
      (arith, pow-suc 2 k, one-le-pow k 2, bit_or_digits (2 ^ suc k - 1) b, ones-bit_or k (b / 2))
