-- ===== src/MpiStats/Totals.antt =====
-- The totals of library/MPIstats.cc: each call of a function of MPI adds 1 to one of them.
use Prim.Native.String.{String}
use ibm_pisa.Base.{
  ℕ, ◌+◌, ◌≡◌, refl, ap, ◌∙◌, Bool, true, false, Option, none, some, List, [], ◌∷◌, arith,
  Bool-cases, inl, inr, u64,
}
use ibm_pisa.BranchEntropy.{codes}
use ibm_pisa.MpiStats.{Counter, MpiStats, init}
use ibm_pisa.MpiStats.Names.{
  has_prefix, count_environment_management, count_point_to_point_communication,
  count_collective_communication, count_process_group, or_else, count_communicators,
  count_derived_types, count_virtual_topology, count_miscellaneous, count_call, visit, run_visits,
  count_other,
}
use ibm_pisa.MpiStats.Report.{sum, totals, json_dump}
use ibm_pisa.MpiStats.Counts.{
  one_if, Counts, sum-u64, count_call-Counts, from_miscellaneous, from_virtual_topology,
  from_derived_types, from_communicators, from_process_group, from_collective_communication,
  from_point_to_point_communication,
}

abbrev Always : (List ℕ → MpiStats → MpiStats × Bool) → Type 0
Always f = (name : List ℕ) (st : MpiStats) → (f name st).1 ≡ true

or_else-Always : (f g : List ℕ → MpiStats → MpiStats × Bool) → Always g → Always (or_else f g)
or_else-Always f g h name st = elim (Bool-cases (f name st).1) [
  | inl e ↦ rw e refl
  | inr e ↦ rw e (h name (f name st).0)
]

count_call-Always : Always count_call
count_call-Always =
    let h_miscellaneous : Always from_miscellaneous =
      or_else-Always count_miscellaneous count_other (λ name st. refl) in
    let h_virtual_topology : Always from_virtual_topology =
      or_else-Always count_virtual_topology from_miscellaneous (h_miscellaneous) in
    let h_derived_types : Always from_derived_types =
      or_else-Always count_derived_types from_virtual_topology (h_virtual_topology) in
    let h_communicators : Always from_communicators =
      or_else-Always count_communicators from_derived_types (h_derived_types) in
    let h_process_group : Always from_process_group =
      or_else-Always count_process_group from_communicators (h_communicators) in
    let h_collective_communication : Always from_collective_communication =
      or_else-Always count_collective_communication from_process_group (h_process_group) in
    let h_point_to_point_communication : Always from_point_to_point_communication =
      or_else-Always count_point_to_point_communication from_collective_communication
        (h_collective_communication) in
    or_else-Always count_environment_management from_point_to_point_communication
      h_point_to_point_communication

abbrev is_mpi : Option (List ℕ) → Bool
is_mpi none = false
is_mpi (some name) = has_prefix (codes "MPI_") name

abbrev pub mpi_calls : List (Option (List ℕ)) → ℕ
mpi_calls [] = 0
mpi_calls (c ∷ calls) = one_if (is_mpi c) + mpi_calls calls

-- With the list of the totals as a variable, which keeps their sum shut.
visit-sum :
    (cs : List Counter) (callee : Option (List ℕ)) (st : MpiStats)
    → Counts cs count_call
    → sum cs (visit callee st) ≡ u64 (sum cs st + one_if (is_mpi callee))
unfolding visit
visit-sum cs none st h = omega (arith, sum-u64 cs st)
visit-sum cs (some name) st h = elim (Bool-cases (has_prefix (codes "MPI_") name)) [
  | inl e ↦ rw e (omega (arith, h name st, ap one_if (count_call-Always name st)))
  | inr e ↦ rw e (omega (arith, sum-u64 cs st))
]

run_visits-sum :
    (cs : List Counter) (calls : List (Option (List ℕ))) (st : MpiStats)
    → Counts cs count_call
    → sum cs (run_visits calls st) ≡ u64 (sum cs st + mpi_calls calls)
unfolding run_visits
run_visits-sum cs [] st h = omega (arith, sum-u64 cs st)
run_visits-sum cs (c ∷ calls) st h =
    omega (arith, run_visits-sum cs calls (visit c st) h, visit-sum cs c st h)

abbrev pub first_number : List (String × ℕ) → ℕ
first_number [] = 0
first_number ((key, n) ∷ rows) = n

sum-init : sum totals init ≡ 0
unfolding init
sum-init = refl

first_number-json_dump : (st : MpiStats) → first_number (json_dump st) ≡ sum totals st
unfolding json_dump
first_number-json_dump st = refl

run_visits_total :
    (cs : List Counter) (calls : List (Option (List ℕ)))
    → Counts cs count_call
    → sum cs init ≡ 0
    → sum cs (run_visits calls init) ≡ u64 (mpi_calls calls)
run_visits_total cs calls h zero = omega (arith, run_visits-sum cs calls init h, zero)

-- After a run of instructions from the start, the first number that the report writes is the
-- number of the calls of functions whose name starts with `MPI_` in any case, modulo 2^64: each of
-- them adds 1 to just one of the nine totals.
pub json_dump-mpi_calls :
    (calls : List (Option (List ℕ)))
    → first_number (json_dump (run_visits calls init)) ≡ u64 (mpi_calls calls)
json_dump-mpi_calls calls =
    first_number-json_dump (run_visits calls init)
    ∙ run_visits_total totals calls count_call-Counts sum-init
