-- ===== src/Ilp/Window.antt =====
-- The window of the scheduler.
use ibm_pisa.Base.{
  ℕ, zero, suc, ◌+◌, ◌-◌, ◌≤◌, ◌<◌, ◌%◌, ◌^◌, ◌≡◌, ◌≢◌, refl, false, arith, List, [], ◌∷◌, ◌++◌,
  All, All-append, length, length-append, Bool-cases, inl, inr, add64, ◌==◌,
}
use ibm_pisa.Ilp.{remove, release, schedule}

length-remove : (cycle : ℕ) (cs : List ℕ) → length (remove cycle cs) ≤ length cs
unfolding remove
length-remove cycle [] = omega arith
length-remove cycle (c ∷ cs) = ground (arith, length-remove cycle cs)

-- How far the window must move to reach a cycle, as values of an `int`.
abbrev gap : ℕ → ℕ → ℕ
gap cycle c = (c % 2 ^ 32 + 2 ^ 32 - cycle % 2 ^ 32) % 2 ^ 32

release_short :
    (fuel size cycle : ℕ) (cs : List ℕ)
    → length cs < size
    → release fuel size cycle cs ≡ (cycle, cs)
unfolding release
release_short zero size cycle cs h = refl
release_short (suc fuel) size cycle cs h = ground arith

gap_step :
    (cycle c : ℕ)
    → (c % 2 ^ 32 == cycle % 2 ^ 32) ≡ false
    → suc (gap (add64 cycle 1) c) ≡ gap cycle c
gap_step cycle c h =
    let apart : c % 2 ^ 32 ≢ cycle % 2 ^ 32 = ground arith in
    let next : add64 cycle 1 % 2 ^ 32 ≡ (cycle % 2 ^ 32 + 1) % 2 ^ 32 = omega arith in
    rw next (omega arith)

-- With more fuel than the gap of the oldest item, the loop ends below the size of the window.
release_ends :
    (fuel size cycle c : ℕ) (cs : List ℕ)
    → gap cycle c < fuel
    → length (c ∷ cs) ≤ size
    → length (release fuel size cycle (c ∷ cs)).1 < size
unfolding release remove
release_ends zero size cycle c cs h l = absurd (omega arith)
release_ends (suc fuel) size cycle c cs h l = elim (Bool-cases (suc (length cs) == size)) [
  | inr e ↦ rw e (ground arith)
  | inl e ↦ elim (Bool-cases (c % 2 ^ 32 == cycle % 2 ^ 32)) [
    | inl f ↦
        let short : length (remove cycle cs) < size = omega (arith, length-remove cycle cs) in
        rw (e, f, release_short fuel size (add64 cycle 1) (remove cycle cs) short) short
    | inr f ↦
        rw (e, f)
          (release_ends fuel size (add64 cycle 1) c (remove cycle cs)
            (omega (arith, gap_step cycle c f)) (omega (arith, length-remove cycle cs)))
  ]
]

-- With a window of size above 0 and fewer instructions in it than its size, issuing one more
-- instruction ends with room in the window, whatever the cycles are.
pub schedule_ends :
    (size cycle : ℕ) (cs : List ℕ) (value : ℕ)
    → 0 < size
    → length cs < size
    → length (schedule size cycle cs value).1 < size
unfolding schedule
schedule_ends size cycle [] value pos h =
    let big : (size == 0) ≡ false = ground arith in
    rw big (release_ends (2 ^ 32) size cycle (value % 2 ^ 32) [] (omega arith) (omega arith))
schedule_ends size cycle (c ∷ cs) value pos h =
    let big : (size == 0) ≡ false = ground arith in
    let more : length (c ∷ (cs ++ value % 2 ^ 32 ∷ [])) ≤ size =
      omega (arith, length-append cs (value % 2 ^ 32 ∷ [])) in
    rw big (release_ends (2 ^ 32) size cycle c (cs ++ value % 2 ^ 32 ∷ []) (omega arith) more)

-- The cycles in the list are that of the window or later ones, and an `int` can hold them.
abbrev pub IsAhead : ℕ → List ℕ → Type 0
IsAhead cycle = All (λ c. (cycle ≤ c) × (c < 2 ^ 31))

remove-IsAhead :
    (cycle : ℕ) (cs : List ℕ) → IsAhead cycle cs → IsAhead (suc cycle) (remove cycle cs)
unfolding remove
remove-IsAhead cycle [] h = tt
remove-IsAhead cycle (c ∷ cs) h = ground (arith, remove-IsAhead cycle cs)

release-IsAhead :
    (fuel size cycle : ℕ) (cs : List ℕ)
    → 0 < size
    → IsAhead cycle cs
    → (cycle ≤ (release fuel size cycle cs).0)
      × IsAhead (release fuel size cycle cs).0 (release fuel size cycle cs).1
unfolding release
release-IsAhead zero size cycle cs pos h = (omega arith, h)
release-IsAhead (suc fuel) size cycle [] pos h =
    let big : (0 == size) ≡ false = ground arith in rw big (omega arith, tt)
release-IsAhead (suc fuel) size cycle (c ∷ cs) pos h = elim (Bool-cases (suc (length cs) == size)) [
  | inr e ↦ rw e (omega arith, h)
  | inl e ↦
      let same : add64 cycle 1 ≡ suc cycle = omega (arith, h.0) in
      let (later, ahead) =
        release-IsAhead fuel size (suc cycle) (remove cycle (c ∷ cs)) pos
          (remove-IsAhead cycle (c ∷ cs) h) in
      rw (e, same) (omega (arith, later), ahead)
]

-- If the cycles in the window are that of the window or later ones, and these and the cycle of the
-- instruction issued next are below 2^31, then the cycle of the window does not fall, and the
-- cycles left in the window are the new cycle of the window or later ones.
pub schedule-IsAhead :
    (size cycle : ℕ) (cs : List ℕ) (value : ℕ)
    → IsAhead cycle cs
    → cycle ≤ value
    → value < 2 ^ 31
    → (cycle ≤ (schedule size cycle cs value).0)
      × IsAhead (schedule size cycle cs value).0 (schedule size cycle cs value).1
unfolding schedule
schedule-IsAhead size cycle cs value h le lt = elim (Bool-cases (size == 0)) [
  | inl e ↦ rw e (omega arith, h)
  | inr e ↦
      let same : value % 2 ^ 32 ≡ value = omega arith in
      rw (e, same)
        (release-IsAhead (2 ^ 32) size cycle (cs ++ value ∷ []) (ground arith)
          (All-append (λ c. (cycle ≤ c) × (c < 2 ^ 31)) cs (value ∷ []) h ((le, lt), tt)))
]
