-- ===== src/Tests/OpenMpTests.antt =====
-- library/OpenMPstats.cc.
use Prim.Native.String.{String}
use ibm_pisa.Base.{◌+◌, ◌≡◌, refl, u64, Option, none, some, List, [], ◌∷◌}
use ibm_pisa.OpenMp.{init, bump, num_barrier, num_others}
use ibm_pisa.OpenMp.Names.{count_call, visit, run_visits}
use ibm_pisa.OpenMp.Flat.{bumped, bump_all, visit-bump_all}
use ibm_pisa.OpenMp.Totals.{sum, totals, kmpc_calls, run_visits-totals}
use ibm_pisa.OpenMp.Members.{IsConsistent, run_visits-IsConsistent}

abbrev calls : List (Option String)
calls =
    some "__kmpc_barrier" ∷ none ∷ some "main" ∷ some "__kmpc_ctor" ∷ some "__kmpc_atomic_add" ∷ []

one_barrier : run_visits calls init num_barrier ≡ 1
unfolding run_visits visit init bump count_call
one_barrier = refl

-- The runtime's `__kmpc_ctor` is not the name in the table, which has no underscores.
one_other : run_visits calls init num_others ≡ 1
unfolding run_visits visit init bump count_call
one_other = refl

totals_example : sum totals (run_visits calls init) ≡ u64 (sum totals init + kmpc_calls calls)
totals_example = run_visits-totals calls init

members_example : IsConsistent (run_visits calls init)
members_example = run_visits-IsConsistent calls

bump_all_example : visit (some "__kmpc_barrier") init ≡ bump_all (bumped "__kmpc_barrier") init
bump_all_example = visit-bump_all (some "__kmpc_barrier") init
