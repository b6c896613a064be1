-- ===== src/OpenMp/Members.antt =====
-- The counter of a category and the counters of its members.
use Prim.Native.String.{String}
use ibm_pisa.Base.{
  ◌≡◌, refl, Bool, true, Option, none, some, List, [], ◌∷◌, map, Bool-cases, inl, inr, ◌==◌, ==_iff,
  All,
}
use ibm_pisa.OpenMp.{
  Counter, OpenMpStats, init, num_parallel, num_startup_shutdown, num_synchronization,
  num_tasking_support, num_thread_info, num_thread_private_data_support, num_work_sharing,
}
use ibm_pisa.OpenMp.Names.{
  contains, visit, run_visits, startup_shutdown_names, parallel_names, thread_info_names,
  work_sharing_names, synchronization_names, thread_private_data_support_names,
  tasking_support_names,
}
use ibm_pisa.OpenMp.Flat.{bumped, visit-bump_all}
use ibm_pisa.OpenMp.Totals.{sum, gain, passes, sum-bump_all, bumped-test, bumped-none}

abbrev pub members : List (String × Counter) → List Counter
members = map (λ e. e.1)

abbrev pub categories : List (Counter × List Counter)
categories =
    (num_startup_shutdown, members startup_shutdown_names)
    ∷ (num_parallel, members parallel_names)
    ∷ (num_thread_info, members thread_info_names)
    ∷ (num_work_sharing, members work_sharing_names)
    ∷ (num_synchronization, members synchronization_names)
    ∷ (num_thread_private_data_support, members thread_private_data_support_names)
    ∷ (num_tasking_support, members tasking_support_names)
    ∷ []

abbrev IsBalanced : OpenMpStats → Counter × List Counter → Type 0
IsBalanced st (total, ms) = sum (total ∷ []) st ≡ sum ms st

-- Each category is the sum of its members, in 64 bits.
abbrev pub IsConsistent : OpenMpStats → Type 0
IsConsistent st = All (IsBalanced st) categories

-- A name increments as many members of the category as it increments the category.
abbrev balances : Counter × List Counter → List Counter → Bool
balances (total, ms) bs = gain bs (total ∷ []) == gain bs ms

visit-IsBalanced :
    (category : Counter × List Counter) (callee : Option String) (st : OpenMpStats)
    → passes (balances category) ≡ true
    → IsBalanced st category
    → IsBalanced (visit callee st) category
visit-IsBalanced category none st h b = rw (visit-bump_all none st) b
visit-IsBalanced (total, ms) (some name) st h b = elim (Bool-cases (contains name "kmpc")) [
  | inr e ↦ rw (visit-bump_all (some name) st, bumped-none name e) b
  | inl e ↦
      let gains = (==_iff _ _).0 (bumped-test (balances (total, ms)) name e h) in
      rw (
        visit-bump_all (some name) st,
        sum-bump_all (bumped name) (total ∷ []) st,
        sum-bump_all (bumped name) ms st,
        gains,
        b,
      )
]

All-IsBalanced :
    (gs : List (Counter × List Counter)) (callee : Option String) (st : OpenMpStats)
    → All (λ g. passes (balances g) ≡ true) gs
    → All (IsBalanced st) gs
    → All (IsBalanced (visit callee st)) gs
All-IsBalanced [] callee st p h = tt
All-IsBalanced (g ∷ gs) callee st p h =
    (visit-IsBalanced g callee st p.0 h.0, All-IsBalanced gs callee st p.1 h.1)

-- A visit keeps each category the sum of its members.
pub visit-IsConsistent :
    (callee : Option String) (st : OpenMpStats) → IsConsistent st → IsConsistent (visit callee st)
visit-IsConsistent callee st =
    All-IsBalanced categories callee st (refl, (refl, (refl, (refl, (refl, (refl, (refl, tt)))))))

run_visits-keeps :
    (calls : List (Option String)) (st : OpenMpStats)
    → IsConsistent st
    → IsConsistent (run_visits calls st)
unfolding run_visits
run_visits-keeps [] st h = h
run_visits-keeps (c ∷ calls) st h = run_visits-keeps calls (visit c st) (visit-IsConsistent c st h)

-- After any run from the constructor's state, the counter of each category is the sum of the
-- counters of its members, as an `unsigned long long`.
pub run_visits-IsConsistent : (calls : List (Option String)) → IsConsistent (run_visits calls init)
unfolding init
run_visits-IsConsistent calls =
    run_visits-keeps calls init (refl, (refl, (refl, (refl, (refl, (refl, (refl, tt)))))))
