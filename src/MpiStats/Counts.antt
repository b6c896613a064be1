-- ===== src/MpiStats/Counts.antt =====
-- Each counting function of library/MPIstats.cc adds 1 to one of the nine totals, or nothing.
use Prim.Native.String.{String}
use ibm_pisa.Base.{
  ℕ, ◌+◌, ◌≡◌, refl, ap, subst, Bool, true, false, ◌&&◌, Option, none, some, List, [], ◌∷◌, arith,
  Bool-cases, Option-cases, inl, inr, u64, ◌==◌, if◌then◌else◌, ==_iff,
}
use ibm_pisa.BranchEntropy.{codes}
use ibm_pisa.MpiStats.{
  Counter, MpiStats, bump, same, num_environment_management, num_point_to_point_communication,
  num_collective_communication, num_process_group, num_communicators, num_derived_types,
  num_virtual_topology, num_miscellaneous, num_others,
}
use ibm_pisa.MpiStats.Names.{
  same_name, has_prefix, drop_underscore, one_of, lookup, count_in, count_prefix,
  environment_management_names, count_environment_management, point_to_point_names,
  count_point_to_point_communication, collective_names, count_collective_communication,
  count_process_group, or_else, count_communicators, count_derived_types, count_virtual_topology,
  count_miscellaneous, count_call, virtual_topology_names, miscellaneous_names, count_topology_name,
  count_other,
}
use ibm_pisa.MpiStats.Report.{sum, totals}

abbrev occurrences : Counter → List Counter → ℕ
occurrences c [] = 0
occurrences c (d ∷ ds) = (if same c d then 1 else 0) + occurrences c ds

sum-bump :
    (c : Counter) (cs : List Counter) (st : MpiStats)
    → sum cs (bump c st) ≡ u64 (sum cs st + occurrences c cs)
unfolding bump
sum-bump c [] st = refl
sum-bump c (d ∷ ds) st = elim (Bool-cases (same c d)) [
  | inl e ↦ rw e (omega (arith, sum-bump c ds st))
  | inr e ↦ rw e (omega (arith, sum-bump c ds st))
]

pub sum-u64 : (cs : List Counter) (st : MpiStats) → sum cs st ≡ u64 (sum cs st)
sum-u64 [] st = refl
sum-u64 (c ∷ cs) st = omega arith

abbrev pub one_if : Bool → ℕ
one_if b = if b then 1 else 0

-- A function that adds 1 to the sum if it counts the name, and nothing if it does not.
abbrev pub Counts : List Counter → (List ℕ → MpiStats → MpiStats × Bool) → Type 0
Counts cs f =
    (name : List ℕ) (st : MpiStats) → sum cs (f name st).0 ≡ u64 (sum cs st + one_if (f name st).1)

abbrev all_rows : (Counter → Bool) → List (String × Counter) → Bool
all_rows test [] = true
all_rows test ((n, c) ∷ table) = test c && all_rows test table

&&_left : (a b : Bool) → a && b ≡ true → a ≡ true
&&_left a b h = ground arith

&&_right : (a b : Bool) → a && b ≡ true → b ≡ true
&&_right a b h = ground arith

abbrev if_found : (Counter → Bool) → Option Counter → Bool
if_found test none = true
if_found test (some c) = test c

-- What holds of every row of a table holds of what is found.
lookup-row :
    (test : Counter → Bool) (name : List ℕ) (table : List (String × Counter))
    → all_rows test table ≡ true
    → if_found test (lookup name table) ≡ true
lookup-row test name [] h = refl
lookup-row test name ((n, d) ∷ table) h = elim (Bool-cases (same_name name (codes n))) [
  | inl e ↦ rw e (&&_left (test d) (all_rows test table) h)
  | inr e ↦ rw e (lookup-row test name table (&&_right (test d) (all_rows test table) h))
]

module _ (cs : List Counter) where
  or_else-Counts :
      (f g : List ℕ → MpiStats → MpiStats × Bool)
      → Counts cs f
      → Counts cs g
      → Counts cs (or_else f g)
  or_else-Counts f g cf cg name st = elim (Bool-cases (f name st).1) [
    | inl e ↦ rw e (omega (arith, ap one_if e, cf name st))
    | inr e ↦ rw e (omega (arith, ap one_if e, cf name st, cg name (f name st).0))
  ]

  test-Counts :
      (test : List ℕ → Bool) (total : Counter)
      → occurrences total cs ≡ 1
      → Counts cs (λ name st. if test name then (bump total st, true) else (st, false))
  test-Counts test total once name st = elim (Bool-cases (test name)) [
    | inl e ↦ rw e (omega (arith, sum-bump total cs st, once))
    | inr e ↦ rw e (omega (arith, sum-u64 cs st))
  ]

  prefix-Counts :
      (prefix : String) (total : Counter)
      → occurrences total cs ≡ 1
      → Counts cs (count_prefix prefix total)
  unfolding count_prefix
  prefix-Counts prefix total once = test-Counts (has_prefix (codes prefix)) total once

  table-Counts :
      (table : List (String × Counter)) (total : Counter)
      → occurrences total cs ≡ 1
      → all_rows (λ c. occurrences c cs == 0) table ≡ true
      → Counts cs (count_in table total)
  unfolding count_in
  table-Counts table total once none_of name st = elim (Option-cases (lookup name table)) [
    | inl e ↦ rw (count_in, e) (omega (arith, sum-u64 cs st))
    | inr (c, e) ↦
        let test : Counter → Bool = λ d. occurrences d cs == 0 in
        let row = subst (λ o. if_found test o ≡ true) e (lookup-row test name table none_of) in
        let zero = (==_iff (occurrences c cs) 0).0 row in
        rw (count_in, e)
          (omega (arith, sum-bump total cs (bump c st), sum-bump c cs st, once, zero))
  ]

  drop-Counts :
      (f : List ℕ → MpiStats → MpiStats × Bool)
      → Counts cs f
      → Counts cs (λ name. f (drop_underscore name))
  drop-Counts f h name st = h (drop_underscore name) st

  other-Counts : occurrences num_others cs ≡ 1 → Counts cs count_other
  other-Counts once name st = omega (arith, sum-bump num_others cs st, once)

environment-Counts : Counts totals count_environment_management
unfolding count_environment_management
environment-Counts =
    test-Counts totals (λ name. one_of (drop_underscore name) environment_management_names)
      num_environment_management refl

point_to_point-Counts : Counts totals count_point_to_point_communication
unfolding count_point_to_point_communication
point_to_point-Counts =
    drop-Counts totals (count_in point_to_point_names num_point_to_point_communication)
      (table-Counts totals point_to_point_names num_point_to_point_communication refl refl)

collective-Counts : Counts totals count_collective_communication
unfolding count_collective_communication
collective-Counts =
    drop-Counts totals (count_in collective_names num_collective_communication)
      (table-Counts totals collective_names num_collective_communication refl refl)

process_group-Counts : Counts totals count_process_group
unfolding count_process_group
process_group-Counts =
    drop-Counts totals (count_prefix "MPI_Group_" num_process_group)
      (prefix-Counts totals "MPI_Group_" num_process_group refl)

communicators-Counts : Counts totals count_communicators
unfolding count_communicators
communicators-Counts =
    or_else-Counts totals (count_prefix "MPI_Comm_" num_communicators)
      (count_prefix "MPI_Intercomm_" num_communicators)
      (prefix-Counts totals "MPI_Comm_" num_communicators refl)
      (prefix-Counts totals "MPI_Intercomm_" num_communicators refl)

derived_types-Counts : Counts totals count_derived_types
unfolding count_derived_types
derived_types-Counts = prefix-Counts totals "MPI_Type_" num_derived_types refl

topology_name-Counts : Counts totals count_topology_name
topology_name-Counts =
    test-Counts totals (λ name. one_of name virtual_topology_names) num_virtual_topology refl

abbrev cart : List ℕ → MpiStats → MpiStats × Bool
cart = count_prefix "MPI_Cart_" num_virtual_topology

abbrev graph : List ℕ → MpiStats → MpiStats × Bool
graph = count_prefix "MPI_Graph_" num_virtual_topology

cart-Counts : Counts totals cart
cart-Counts = prefix-Counts totals "MPI_Cart_" num_virtual_topology refl

graph-Counts : Counts totals graph
graph-Counts = prefix-Counts totals "MPI_Graph_" num_virtual_topology refl

virtual_topology-Counts : Counts totals count_virtual_topology
unfolding count_virtual_topology
virtual_topology-Counts =
    let last = or_else-Counts totals graph count_topology_name graph-Counts topology_name-Counts in
    drop-Counts totals (or_else cart (or_else graph count_topology_name))
      (or_else-Counts totals cart (or_else graph count_topology_name) cart-Counts last)

miscellaneous-Counts : Counts totals count_miscellaneous
unfolding count_miscellaneous
miscellaneous-Counts =
    test-Counts totals (λ name. one_of (drop_underscore name) miscellaneous_names) num_miscellaneous
      refl

-- What `count_call` does from one of its functions on.
abbrev pub from_miscellaneous : List ℕ → MpiStats → MpiStats × Bool
from_miscellaneous = or_else count_miscellaneous count_other

abbrev pub from_virtual_topology : List ℕ → MpiStats → MpiStats × Bool
from_virtual_topology = or_else count_virtual_topology from_miscellaneous

abbrev pub from_derived_types : List ℕ → MpiStats → MpiStats × Bool
from_derived_types = or_else count_derived_types from_virtual_topology

abbrev pub from_communicators : List ℕ → MpiStats → MpiStats × Bool
from_communicators = or_else count_communicators from_derived_types

abbrev pub from_process_group : List ℕ → MpiStats → MpiStats × Bool
from_process_group = or_else count_process_group from_communicators

abbrev pub from_collective_communication : List ℕ → MpiStats → MpiStats × Bool
from_collective_communication = or_else count_collective_communication from_process_group

abbrev pub from_point_to_point_communication : List ℕ → MpiStats → MpiStats × Bool
from_point_to_point_communication =
    or_else count_point_to_point_communication from_collective_communication

pub count_call-Counts : Counts totals count_call
count_call-Counts =
    let h_miscellaneous : Counts totals from_miscellaneous =
      or_else-Counts totals count_miscellaneous count_other miscellaneous-Counts
        (other-Counts totals refl) in
    let h_virtual_topology : Counts totals from_virtual_topology =
      or_else-Counts totals count_virtual_topology from_miscellaneous virtual_topology-Counts
        (h_miscellaneous) in
    let h_derived_types : Counts totals from_derived_types =
      or_else-Counts totals count_derived_types from_virtual_topology derived_types-Counts
        (h_virtual_topology) in
    let h_communicators : Counts totals from_communicators =
      or_else-Counts totals count_communicators from_derived_types communicators-Counts
        (h_derived_types) in
    let h_process_group : Counts totals from_process_group =
      or_else-Counts totals count_process_group from_communicators process_group-Counts
        (h_communicators) in
    let h_collective_communication : Counts totals from_collective_communication =
      or_else-Counts totals count_collective_communication from_process_group collective-Counts
        (h_process_group) in
    let h_point_to_point_communication : Counts totals from_point_to_point_communication =
      or_else-Counts totals count_point_to_point_communication from_collective_communication
        point_to_point-Counts (h_collective_communication) in
    or_else-Counts totals count_environment_management from_point_to_point_communication
      environment-Counts h_point_to_point_communication
