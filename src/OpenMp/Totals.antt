-- ===== src/OpenMp/Totals.antt =====
-- The counters of the categories of library/OpenMPstats.cc, and their sum.
use Prim.Native.String.{String}
use text.Mathlib.Text
use ibm_pisa.Base.{
  ℕ, ◌+◌, ◌≡◌, refl, Bool, true, false, ◌&&◌, Option, none, some, List, [], ◌∷◌, arith, Bool-cases,
  inl, inr, u64, add64, ◌==◌, if◌then◌else◌, ==_iff,
}
use ibm_pisa.OpenMp.{
  Counter, OpenMpStats, bump, same, num_atomic, num_others, num_parallel, num_startup_shutdown,
  num_synchronization, num_tasking_support, num_thread_info, num_thread_private_data_support,
  num_work_sharing,
}
use ibm_pisa.OpenMp.Names.{contains, lookup, visit, run_visits}
use ibm_pisa.OpenMp.Flat.{all_names, row, bumped, bump_all, visit-bump_all}

-- The sum of some counters, in 64 bits.
abbrev pub sum : List Counter → OpenMpStats → ℕ
sum [] st = 0
sum (c ∷ cs) st = add64 (st c) (sum cs st)

abbrev pub occurrences : Counter → List Counter → ℕ
occurrences c [] = 0
occurrences c (d ∷ ds) = (if same c d then 1 else 0) + occurrences c ds

-- How often a bump of each of `bs` shows in the sum over `cs`.
abbrev pub gain : List Counter → List Counter → ℕ
gain [] cs = 0
gain (b ∷ bs) cs = occurrences b cs + gain bs cs

sum-bump :
    (c : Counter) (cs : List Counter) (st : OpenMpStats)
    → sum cs (bump c st) ≡ u64 (sum cs st + occurrences c cs)
unfolding bump
sum-bump c [] st = refl
sum-bump c (d ∷ ds) st = elim (Bool-cases (same c d)) [
  | inl e ↦ rw e (omega (arith, sum-bump c ds st))
  | inr e ↦ rw e (omega (arith, sum-bump c ds st))
]

pub sum-u64 : (cs : List Counter) (st : OpenMpStats) → sum cs st ≡ u64 (sum cs st)
sum-u64 [] st = refl
sum-u64 (c ∷ cs) st = omega arith

pub sum-bump_all :
    (bs cs : List Counter) (st : OpenMpStats)
    → sum cs (bump_all bs st) ≡ u64 (sum cs st + gain bs cs)
sum-bump_all [] cs st = omega (arith, sum-u64 cs st)
sum-bump_all (b ∷ bs) cs st = omega (arith, sum-bump_all bs cs (bump b st), sum-bump b cs st)

abbrev pub all_entries : (List Counter → Bool) → List (String × (Counter × Counter)) → Bool
all_entries test [] = true
all_entries test ((name, (member, total)) ∷ table) =
    test (member ∷ total ∷ []) && all_entries test table

&&_left : (a b : Bool) → a && b ≡ true → a ≡ true
&&_left a b h = ground arith

&&_right : (a b : Bool) → a && b ≡ true → b ≡ true
&&_right a b h = ground arith

-- What holds of every row of a table, and of a name that is not there, holds of what is found.
row-test :
    (test : List Counter → Bool) (name : String) (table : List (String × (Counter × Counter)))
    → test (num_others ∷ []) ≡ true
    → all_entries test table ≡ true
    → test (row (lookup name table)) ≡ true
row-test test name [] o h = o
row-test test name ((key, (member, total)) ∷ table) o h = elim (Bool-cases (Text.◌==◌ name key)) [
  | inl e ↦ rw e (&&_left (test (member ∷ total ∷ [])) (all_entries test table) h)
  | inr e ↦ rw e (
      row-test test name table o (&&_right (test (member ∷ total ∷ [])) (all_entries test table) h))
]

abbrev pub passes : (List Counter → Bool) → Bool
passes test = test (num_atomic ∷ []) && (test (num_others ∷ []) && all_entries test all_names)

pub bumped-test :
    (test : List Counter → Bool) (name : String)
    → contains name "kmpc" ≡ true
    → passes test ≡ true
    → test (bumped name) ≡ true
unfolding bumped
bumped-test test name k h =
    let rest =
      &&_right (test (num_atomic ∷ [])) (test (num_others ∷ []) && all_entries test all_names) h in
    elim (Bool-cases (contains name "atomic")) [
      | inl e ↦
          rw (k, e)
            (&&_left (test (num_atomic ∷ [])) (test (num_others ∷ []) && all_entries test all_names)
              h)
      | inr e ↦
          rw (k, e)
            (row-test test name all_names
              (&&_left (test (num_others ∷ [])) (all_entries test all_names) rest)
              (&&_right (test (num_others ∷ [])) (all_entries test all_names) rest))
    ]

abbrev is_kmpc : Option String → Bool
is_kmpc none = false
is_kmpc (some name) = contains name "kmpc"

abbrev pub totals : List Counter
totals =
    num_atomic ∷ num_startup_shutdown ∷ num_parallel ∷ num_thread_info ∷ num_work_sharing
    ∷ num_synchronization ∷ num_thread_private_data_support ∷ num_tasking_support ∷ num_others ∷ []

bumped-once : (name : String) → contains name "kmpc" ≡ true → gain (bumped name) totals ≡ 1
bumped-once name k = (==_iff _ 1).0 (bumped-test (λ bs. gain bs totals == 1) name k refl)

pub bumped-none : (name : String) → contains name "kmpc" ≡ false → bumped name ≡ []
unfolding bumped
bumped-none name k = rw k

visit-totals :
    (callee : Option String) (st : OpenMpStats)
    → sum totals (visit callee st) ≡ u64 (sum totals st + (if is_kmpc callee then 1 else 0))
visit-totals none st = rw (visit-bump_all none st) (omega (arith, sum-u64 totals st))
visit-totals (some name) st = elim (Bool-cases (contains name "kmpc")) [
  | inl e ↦
      rw
        (visit-bump_all (some name) st, e, sum-bump_all (bumped name) totals st, bumped-once name e)
  | inr e ↦
      rw (visit-bump_all (some name) st, e, bumped-none name e) (omega (arith, sum-u64 totals st))
]

-- How many of the calls name a function of the OpenMP runtime.
abbrev pub kmpc_calls : List (Option String) → ℕ
kmpc_calls [] = 0
kmpc_calls (c ∷ calls) = (if is_kmpc c then 1 else 0) + kmpc_calls calls

-- Over any run, the sum of the counters of the categories, with those for atomic and for other
-- calls, grows by the number of calls whose name contains `kmpc`, as an `unsigned long long`.
pub run_visits-totals :
    (calls : List (Option String)) (st : OpenMpStats)
    → sum totals (run_visits calls st) ≡ u64 (sum totals st + kmpc_calls calls)
unfolding run_visits
run_visits-totals [] st = omega (arith, sum-u64 totals st)
run_visits-totals (c ∷ calls) st =
    omega (arith, run_visits-totals calls (visit c st), visit-totals c st)
