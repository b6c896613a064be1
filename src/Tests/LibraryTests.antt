-- ===== src/Tests/LibraryTests.antt =====
-- Runs of library/ExternalLibraryCount.cc and library/MPIstats.cc.
use Prim.Native.String.{String}
use ibm_pisa.Base.{ℕ, ◌≡◌, refl, Bool, true, false, Option, none, some, List, [], ◌∷◌, u64}
use ibm_pisa.BranchEntropy.{codes}
use ibm_pisa.ExternalLibraryCount
use ibm_pisa.ExternalLibraryCount.{Callee, Instruction, call, other, run_visits, json_dump}
use ibm_pisa.ExternalLibraryCount.Sums.{Respects, sum_of, external_calls, json_dump-external_calls}
use ibm_pisa.MpiStats.{init}
use ibm_pisa.MpiStats.Names
use ibm_pisa.MpiStats.Names.{same_name}
use ibm_pisa.MpiStats.Report
use ibm_pisa.MpiStats.Totals.{mpi_calls, first_number, json_dump-mpi_calls}

-- An order of the names that takes every two for the same.
abbrev same_for_all : String → String → Bool
same_for_all a b = false

abbrev any_name : String → Bool
any_name a = true

abbrev calls : List Instruction
calls =
    call (some (record { name = "puts"; has_body = false }))
    ∷ call (some (record { name = "PUTS"; has_body = false }))
    ∷ call (some (record { name = "main"; has_body = true }))
    ∷ call none
    ∷ other
    ∷ []

any_name-Respects : Respects same_for_all any_name
any_name-Respects a b h k = refl

counted_twice : json_dump (run_visits same_for_all calls []) ≡ ("puts", 2) ∷ []
unfolding json_dump run_visits ExternalLibraryCount.visit ExternalLibraryCount.count_call
counted_twice = refl

external_calls_example :
    sum_of any_name (json_dump (run_visits same_for_all calls []))
    ≡ u64 (external_calls any_name calls)
external_calls_example = json_dump-external_calls same_for_all any_name calls any_name-Respects

abbrev mpi_run : List (Option (List ℕ))
mpi_run = some (codes "MPI_Send") ∷ some (codes "mpi_foo_") ∷ some (codes "printf") ∷ none ∷ []

mpi_calls_example :
    first_number (Report.json_dump (Names.run_visits mpi_run init)) ≡ u64 (mpi_calls mpi_run)
mpi_calls_example = json_dump-mpi_calls mpi_run
