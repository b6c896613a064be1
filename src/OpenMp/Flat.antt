-- ===== src/OpenMp/Flat.antt =====
-- An independent reading of the handler: one table for all names, and the counters that a name
-- increments.
use Prim.Native.String.{String}
use text.Mathlib.Text
use ibm_pisa.Base.{
  Bool, true, false, ◌≡◌, refl, ap₂, fun_ext, ◌∙◌, Option, none, some, List, [], ◌∷◌, ◌++◌,
  Bool-cases, inl, inr, if◌then◌else◌,
}
use ibm_pisa.OpenMp.{
  Counter, OpenMpStats, bump, num_atomic, num_others, num_parallel, num_startup_shutdown,
  num_synchronization, num_tasking_support, num_thread_info, num_thread_private_data_support,
  num_work_sharing,
}
use ibm_pisa.OpenMp.Names.{
  contains, lookup, count_in, or_else, count_atomic, count_call, visit, startup_shutdown_names,
  parallel_names, thread_info_names, work_sharing_names, synchronization_names,
  thread_private_data_support_names, tasking_support_names, count_startup_shutdown, count_parallel,
  count_thread_info, count_work_sharing, count_synchronization, count_thread_private_data_support,
  count_tasking_support,
}

abbrev pub with_total : Counter → List (String × Counter) → List (String × (Counter × Counter))
with_total total [] = []
with_total total ((name, member) ∷ table) = (name, (member, total)) ∷ with_total total table

abbrev pub all_names : List (String × (Counter × Counter))
all_names =
    with_total num_startup_shutdown startup_shutdown_names
    ++ with_total num_parallel parallel_names
    ++ with_total num_thread_info thread_info_names
    ++ with_total num_work_sharing work_sharing_names
    ++ with_total num_synchronization synchronization_names
    ++ with_total num_thread_private_data_support thread_private_data_support_names
    ++ with_total num_tasking_support tasking_support_names

-- The counters of the row that was found, in the order of their increments.
abbrev pub row : Option (Counter × Counter) → List Counter
row none = num_others ∷ []
row (some (member, total)) = member ∷ total ∷ []

-- The counters that a call of `name` increments, in their order.
unfoldable pub bumped : String → List Counter
bumped name =
    if contains name "kmpc"
    then (if contains name "atomic" then num_atomic ∷ [] else row (lookup name all_names))
    else []

abbrev pub bump_all : List Counter → OpenMpStats → OpenMpStats
bump_all [] st = st
bump_all (c ∷ cs) st = bump_all cs (bump c st)

-- The steps that a look-up in the tables from `rest` on takes.
abbrev outcome : Option (Counter × Counter) → OpenMpStats → OpenMpStats × Bool
outcome none st = (st, false)
outcome (some (member, total)) st = (bump total (bump member st), true)

count_in-outcome :
    (name : String) (table : List (String × Counter)) (total : Counter) (st : OpenMpStats)
    → count_in table total name st ≡ outcome (lookup name (with_total total table)) st
unfolding count_in
count_in-outcome name [] total st = refl
count_in-outcome name ((key, member) ∷ table) total st = elim (Bool-cases (Text.◌==◌ name key)) [
  | inl e ↦ rw (count_in, e)
  | inr e ↦ rw (count_in, e) (unfold count_in in count_in-outcome name table total st)
]

lookup-append :
    (name : String) (xs ys : List (String × (Counter × Counter)))
    → lookup name (xs ++ ys) ≡ elim (lookup name xs) [ none ↦ lookup name ys | some a ↦ some a ]
lookup-append name [] ys = refl
lookup-append name ((key, a) ∷ xs) ys = elim (Bool-cases (Text.◌==◌ name key)) [
  | inl e ↦ rw e
  | inr e ↦ rw e (lookup-append name xs ys)
]

-- One more function in the chain is one more table.
or_else-outcome :
    (name : String) (xs ys : List (String × (Counter × Counter))) (st : OpenMpStats)
    → or_else (outcome (lookup name xs) st) (outcome (lookup name ys))
      ≡ outcome (lookup name (xs ++ ys)) st
or_else-outcome name xs ys st = rw (lookup-append name xs ys) (joined (lookup name xs))
  where
    joined :
        (o : Option (Counter × Counter))
        → or_else (outcome o st) (outcome (lookup name ys))
          ≡ outcome (elim o [ none ↦ lookup name ys | some a ↦ some a ]) st
    joined none = refl
    joined (some a) = refl

count_in-next :
    (name : String) (xs : List (String × (Counter × Counter))) (table : List (String × Counter))
    (total : Counter) (st : OpenMpStats) (before : OpenMpStats × Bool)
    → before ≡ outcome (lookup name xs) st
    → or_else before (count_in table total name)
      ≡ outcome (lookup name (xs ++ with_total total table)) st
count_in-next name xs table total st before e =
    ap₂ or_else e (fun_ext (count_in-outcome name table total))
    ∙ or_else-outcome name xs (with_total total table) st

-- After the test for `atomic`, the chain is one look-up.
count_call-outcome :
    (name : String) (st : OpenMpStats)
    → contains name "atomic" ≡ false
    → count_call name st ≡ outcome (lookup name all_names) st
unfolding count_call count_atomic count_startup_shutdown count_parallel count_thread_info
    count_work_sharing count_synchronization count_thread_private_data_support count_tasking_support
count_call-outcome name st h =
    let t1 = with_total num_startup_shutdown startup_shutdown_names in
    let t2 = t1 ++ with_total num_parallel parallel_names in
    let t3 = t2 ++ with_total num_thread_info thread_info_names in
    let t4 = t3 ++ with_total num_work_sharing work_sharing_names in
    let t5 = t4 ++ with_total num_synchronization synchronization_names in
    let t6 = t5 ++ with_total num_thread_private_data_support thread_private_data_support_names in
    count_in-next name t6 tasking_support_names num_tasking_support st _ (
      count_in-next name t5 thread_private_data_support_names num_thread_private_data_support st _ (
        count_in-next name t4 synchronization_names num_synchronization st _ (
          count_in-next name t3 work_sharing_names num_work_sharing st _ (
            count_in-next name t2 thread_info_names num_thread_info st _ (
              count_in-next name t1 parallel_names num_parallel st
                (or_else (count_atomic name st) (count_startup_shutdown name))
                (rw h (count_in-outcome name startup_shutdown_names num_startup_shutdown st)))))))

-- A visit increments exactly the counters that one table of all names gives for the name of the
-- function called, in the table's order; an instruction that calls no named function changes
-- nothing.
pub visit-bump_all :
    (callee : Option String) (st : OpenMpStats)
    → visit callee st ≡ (elim callee [ none ↦ st | some name ↦ bump_all (bumped name) st ])
unfolding visit bumped
visit-bump_all none st = refl
visit-bump_all (some name) st = elim (Bool-cases (contains name "kmpc")) [
  | inr e ↦ rw e
  | inl e ↦ elim (Bool-cases (contains name "atomic")) [
    | inl f ↦ unfold count_call count_atomic in rw (e, f)
    | inr f ↦ rw (e, f, count_call-outcome name st f) (ended (lookup name all_names))
  ]
]
  where
    ended :
        (o : Option (Counter × Counter))
        → (if (outcome o st).1 then (outcome o st).0 else bump num_others (outcome o st).0)
          ≡ bump_all (row o) st
    ended none = refl
    ended (some (member, total)) = refl
