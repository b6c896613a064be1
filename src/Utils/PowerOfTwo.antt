-- ===== src/Utils/PowerOfTwo.antt =====
-- `upperPowerOfTwo` of library/utils.cc, which chooses the bins of the reuse distributions.
use Prim.Native.Nat.{bit_or}
use native.Mathlib.Nat.{
  one-le-pow, div-eq_of_lt, div-eq_of_lt-le, div-le_self, pow-suc, add-zero, add_comm, mul_comm,
}
use native.Mathlib.Decide.{dec_le}
use ibm_pisa.Base.{
  ℕ, zero, suc, ◌+◌, ◌-◌, ◌*◌, ◌/◌, ◌^◌, ◌≤◌, ◌<◌, ◌≡◌, refl, sym, ap, ◌∙◌, ◌⊎◌, inl, inr, false,
  arith, add64, u64, ◌==◌, if◌then◌else◌,
}
use ibm_pisa.Utils.Bits.{pow_add, div_pow_add, bit_or-shift, bit_or_ones, ones-bit_or}

-- `v |= v >> k`.
unfoldable pub smear : ℕ → ℕ → ℕ
smear k v = bit_or v (v / 2 ^ k)

unfoldable pub upper_power_of_two : ℕ → ℕ
unfolding smear
upper_power_of_two v =
    if v == 0
    then v
    else add64 (smear 32 (smear 16 (smear 8 (smear 4 (smear 2 (smear 1 (v - 1))))))) 1

-- A number below `2 ^ n` whose top `m` digits (all of them, if `n < m`) are ones.
Ones : ℕ → ℕ → ℕ → Type 0
Ones n m w = (j p : ℕ) → j + p ≡ n → p ≤ m → w / 2 ^ j ≡ 2 ^ p - 1

Ones-start : (n w : ℕ) → w < 2 ^ n → 2 ^ n ≤ 2 * w + 1 → Ones n 1 w
unfolding Ones
Ones-start n w lt le j zero e h = rw (sym (add-zero j) ∙ e) (div-eq_of_lt lt)
Ones-start n w lt le j (suc zero) e h =
    let n_is : n ≡ suc j = omega arith in
    let power : 2 ^ n ≡ 2 ^ j * 2 = ap (λ (t : ℕ). 2 ^ t) n_is ∙ pow-suc 2 j in
    div-eq_of_lt-le {k = 1} (2 ^ j) (omega (arith, one-le-pow j 2)) (omega arith)
Ones-start n w lt le j (suc (suc p)) e h = absurd (omega arith)

ones_times : (x y : ℕ) → 0 < x → 0 < y → (x - 1) * y + (y - 1) ≡ x * y - 1
ones_times zero y hx hy = absurd (omega arith)
ones_times (suc x) y hx hy = let e : suc x - 1 ≡ x = omega arith in rw e (omega arith)

-- One smearing step doubles the run.
Ones-smear : (n m w : ℕ) → Ones n m w → Ones n (m + m) (smear m w)
unfolding Ones smear
Ones-smear n m w ones j p e h = rw (bit_or-shift j w (w / 2 ^ m)) (elim (dec_le p m) [
  | yes short ↦
      rw (ones j p e short)
        (ones-bit_or p (w / 2 ^ m / 2 ^ j) (omega (arith, one-le-pow p 2, low, ones j p e short)))
  | no long ↦ filled (p - m) (omega arith)
])
  where
    shifted : w / 2 ^ m / 2 ^ j ≡ w / 2 ^ (j + m)
    shifted = sym (div_pow_add w m j) ∙ ap (λ (t : ℕ). w / 2 ^ t) (add_comm m j)

    low : w / 2 ^ m / 2 ^ j ≤ w / 2 ^ j
    low = rw (shifted, div_pow_add w j m) (div-le_self (w / 2 ^ j) (2 ^ m))

    filled : (q : ℕ) → q + m ≡ p → bit_or (w / 2 ^ j) (w / 2 ^ m / 2 ^ j) ≡ 2 ^ p - 1
    filled q eq =
        let below : w / 2 ^ (j + m) ≡ 2 ^ q - 1 = ones (j + m) q (omega arith) (omega arith) in
        let top : w / 2 ^ j / 2 ^ q ≡ 2 ^ m - 1 =
          sym (div_pow_add w j q) ∙ ones (j + q) m (omega arith) (omega arith) in
        let power : 2 ^ p ≡ 2 ^ q * 2 ^ m = ap (λ (t : ℕ). 2 ^ t) (sym eq) ∙ pow_add q m in
        rw (shifted, below, bit_or_ones q (w / 2 ^ j), top)
          (ones_times (2 ^ m) (2 ^ q) (one-le-pow m 2 (omega arith)) (one-le-pow q 2 (omega arith))
            ∙ ap (λ (t : ℕ). t - 1) (mul_comm (2 ^ m) (2 ^ q) ∙ sym power))

bit_length : (fuel w : ℕ) → w ≤ fuel → (n : ℕ) × (w < 2 ^ n) × (2 ^ n ≤ 2 * w + 1)
bit_length fuel zero h = (0, omega arith, omega arith)
bit_length zero (suc w) h = absurd (omega arith)
bit_length (suc fuel) (suc w) h = grow (bit_length fuel (suc w / 2) (omega arith))
  where
    grow :
        ((n : ℕ) × (suc w / 2 < 2 ^ n) × (2 ^ n ≤ 2 * (suc w / 2) + 1))
        → (n : ℕ) × (suc w < 2 ^ n) × (2 ^ n ≤ 2 * suc w + 1)
    grow (zero, a, b) = (1, omega arith, omega arith)
    grow (suc n, a, b) = (
      suc (suc n),
      omega (arith, pow-suc 2 (suc n)),
      omega (arith, pow-suc 2 (suc n), pow-suc 2 n),
    )

Ones-all : (n w : ℕ) → Ones n 64 w → n ≤ 64 → w ≡ 2 ^ n - 1
unfolding Ones
Ones-all n w ones h = omega (arith, ones 0 n (omega arith) h)

pow_mono : (a b : ℕ) → a ≤ b → 2 ^ a ≤ 2 ^ b
pow_mono a b h =
    let e : 2 ^ b ≡ 2 ^ a * 2 ^ (b - a) = ap (λ (t : ℕ). 2 ^ t) (omega arith) ∙ pow_add a (b - a) in
    rw e (grind (arith, one-le-pow (b - a) 2))

pow_lt : (a b : ℕ) → 2 ^ a < 2 ^ b → a < b
pow_lt a b h = elim (dec_le b a) [
  | yes le ↦ absurd (omega (arith, pow_mono b a le))
  | no gt ↦ omega arith
]

-- Up to the final wrap, the function returns the least power of two that is not below `v`.
power_at_most_64 :
    (v : ℕ)
    → 0 < v
    → v < 2 ^ 64
    → (n : ℕ) × (upper_power_of_two v ≡ u64 (2 ^ n)) × (v ≤ 2 ^ n) × (2 ^ n < 2 * v)
unfolding upper_power_of_two
power_at_most_64 v pos lt =
    let (n, a, b) = bit_length (v - 1) (v - 1) (omega arith) in
    let n_le : n < 65 = pow_lt n 65 (omega arith) in
    let s1 = Ones-smear n 1 _ (Ones-start n (v - 1) a b) in
    let s2 = Ones-smear n 2 _ s1 in
    let s4 = Ones-smear n 4 _ s2 in
    let s8 = Ones-smear n 8 _ s4 in
    let s16 = Ones-smear n 16 _ s8 in
    let s32 = Ones-smear n 32 _ s16 in
    let all = Ones-all n _ s32 (omega arith) in
    let away : (v == 0) ≡ false = ground arith in
    (n, rw (away, all) (omega (arith, one-le-pow n 2)), omega arith, omega arith)

-- For a number above 0 and at most 2^63, `upper_power_of_two` gives a power of two that is at
-- least the number and less than twice the number, which is the least power of two not below it.
pub upper_power_of_two_least :
    (v : ℕ)
    → 0 < v
    → v ≤ 2 ^ 63
    → (n : ℕ) × (upper_power_of_two v ≡ 2 ^ n)
      × (v ≤ upper_power_of_two v)
      × (upper_power_of_two v < 2 * v)
upper_power_of_two_least v pos le =
    let (n, e, a, b) = power_at_most_64 v pos (omega arith) in
    let e' : upper_power_of_two v ≡ 2 ^ n = omega arith in (n, e', omega arith, omega arith)

-- For 0, and for a 64-bit number above 2^63, `upper_power_of_two` gives 0.
pub upper_power_of_two_wraps :
    (v : ℕ) → v < 2 ^ 64 → (v ≡ 0) ⊎ (2 ^ 63 < v) → upper_power_of_two v ≡ 0
upper_power_of_two_wraps v lt (inl e) = rw e (unfold upper_power_of_two in refl)
upper_power_of_two_wraps v lt (inr high) =
    let (n, e, a, b) = power_at_most_64 v (omega arith) lt in
    let above : 63 < n = pow_lt 63 n (omega arith) in
    let below : n < 65 = pow_lt n 65 (omega arith) in let is : n ≡ 64 = omega arith in rw is at e
