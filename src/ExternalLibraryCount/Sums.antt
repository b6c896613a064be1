-- ===== src/ExternalLibraryCount/Sums.antt =====
-- The counts of library/ExternalLibraryCount.cc, name by name and in all.
use Prim.Native.String.{String}
use ibm_pisa.Base.{
  ℕ, ◌+◌, ◌≡◌, refl, ap, Bool, false, not, ◌&&◌, none, some, List, [], ◌∷◌, u64, add64,
  if◌then◌else◌, arith, Bool-cases, inl, inr,
}
use ibm_pisa.ExternalLibraryCount.{
  CallCount, Instruction, call, other, count_call, visit, run_visits, json_dump,
}

-- The names that a test holds of, with their counts together.
abbrev pub sum_of : (String → Bool) → List (String × ℕ) → ℕ
sum_of test [] = 0
sum_of test ((key, n) ∷ rows) =
    let rest = sum_of test rows in if test key then add64 n rest else rest

-- How many instructions of a run call a function without a body whose name the test holds of.
abbrev is_external : (String → Bool) → Instruction → Bool
is_external test other = false
is_external test (call none) = false
is_external test (call (some callee)) = not callee.has_body && test callee.name

abbrev pub external_calls : (String → Bool) → List Instruction → ℕ
external_calls test [] = 0
external_calls test (i ∷ is) = (if is_external test i then 1 else 0) + external_calls test is

json_dump-same : (m : CallCount) → json_dump m ≡ m
unfolding json_dump
json_dump-same [] = refl
json_dump-same ((key, n) ∷ m) = ap (λ rest. (key, n) ∷ rest) (json_dump-same m)

-- The test does not tell apart names that the order takes for the same.
abbrev pub Respects : (less : String → String → Bool) (test : String → Bool) → Type 0
Respects less test = (a b : String) → less a b ≡ false → less b a ≡ false → test a ≡ test b

sum_of-u64 : (test : String → Bool) (m : CallCount) → u64 (sum_of test m) ≡ sum_of test m
sum_of-u64 test [] = refl
sum_of-u64 test ((key, n) ∷ m) = elim (Bool-cases (test key)) [
  | inl e ↦ rw e (omega arith)
  | inr e ↦ rw e (sum_of-u64 test m)
]

sum_of-count_call :
    (less : String → String → Bool) (test : String → Bool) (name : String) (m : CallCount)
    → Respects less test
    → sum_of test (count_call less name m) ≡ u64 (sum_of test m + (if test name then 1 else 0))
unfolding count_call
sum_of-count_call less test name [] r = ground arith
sum_of-count_call less test name ((key, n) ∷ m) r =
    ground (arith, sum_of-count_call less test name m r, sum_of-u64 test m, r name key)

visit-sum :
    (less : String → String → Bool) (test : String → Bool) (i : Instruction) (m : CallCount)
    → Respects less test
    → sum_of test (visit less i m) ≡ u64 (sum_of test m + (if is_external test i then 1 else 0))
unfolding visit
visit-sum less test other m r = omega (arith, sum_of-u64 test m)
visit-sum less test (call none) m r = omega (arith, sum_of-u64 test m)
visit-sum less test (call (some callee)) m r = elim (Bool-cases callee.has_body) [
  | inl e ↦ rw e (omega (arith, sum_of-u64 test m))
  | inr e ↦ rw e (sum_of-count_call less test callee.name m r)
]

run_visits-sum :
    (less : String → String → Bool) (test : String → Bool) (is : List Instruction) (m : CallCount)
    → Respects less test
    → sum_of test (run_visits less is m) ≡ u64 (sum_of test m + external_calls test is)
unfolding run_visits
run_visits-sum less test [] m r = omega (arith, sum_of-u64 test m)
run_visits-sum less test (i ∷ is) m r =
    omega (arith, run_visits-sum less test is (visit less i m) r, visit-sum less test i m r)

-- Take a test on names that does not tell apart names which the order of the map takes for the
-- same. After a run of instructions from an empty map, the counts in the report under names that
-- pass the test sum up, in 64 bits, to the number of calls of functions without a body whose name
-- passes the test.
pub json_dump-external_calls :
    (less : String → String → Bool) (test : String → Bool) (is : List Instruction)
    → Respects less test
    → sum_of test (json_dump (run_visits less is [])) ≡ u64 (external_calls test is)
json_dump-external_calls less test is r =
    rw (json_dump-same (run_visits less is [])) (omega (arith, run_visits-sum less test is [] r))
