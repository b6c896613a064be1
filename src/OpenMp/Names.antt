-- ===== src/OpenMp/Names.antt =====
-- The handler of library/OpenMPstats.cc. Of a call, `visit` gets the name of the function that is
-- called; LLVM finds it.
use Prim.Native.String.{String}
use text.Mathlib.Text.{find?}
use text.Mathlib.Text
use ibm_pisa.Base.{Bool, true, false, Option, none, some, List, [], ◌∷◌, if◌then◌else◌}
use ibm_pisa.OpenMp.{
  Counter, OpenMpStats, bump, num_atomic, num_barrier, num_barrier_master,
  num_barrier_master_nowait, num_begin, num_bound_num_threads, num_bound_thread_num, num_cctor,
  num_cctor_vec, num_copyprivate, num_critical, num_ctor, num_ctor_vec, num_dispatch_fini_4,
  num_dispatch_fini_4u, num_dispatch_fini_8, num_dispatch_fini_8u, num_dispatch_init_4,
  num_dispatch_init_4u, num_dispatch_init_8, num_dispatch_init_8u, num_dispatch_next_4,
  num_dispatch_next_4u, num_dispatch_next_8, num_dispatch_next_8u, num_dist_dispatch_init_4,
  num_dist_for_static_init_4, num_dist_for_static_init_4u, num_dist_for_static_init_8,
  num_dist_for_static_init_8u, num_dtor, num_dtor_vec, num_end, num_end_barrier_master,
  num_end_critical, num_end_master, num_end_ordered, num_end_reduce, num_end_reduce_nowait,
  num_end_serialized_parallel, num_end_single, num_flush, num_for_static_fini,
  num_for_static_init_4, num_for_static_init_4u, num_for_static_init_8, num_for_static_init_8u,
  num_fork_call, num_fork_teams, num_global_num_threads, num_global_thread_num, num_in_parallel,
  num_master, num_omp_task_with_deps, num_omp_wait_deps, num_ordered, num_others, num_parallel,
  num_push_num_teams, num_push_num_threads, num_reduce, num_reduce_nowait, num_serialized_parallel,
  num_single, num_startup_shutdown, num_synchronization, num_tasking_support,
  num_team_static_init_4, num_team_static_init_4u, num_team_static_init_8, num_team_static_init_8u,
  num_thread_info, num_thread_private_data_support, num_threadprivate_cached,
  num_threadprivate_register, num_threadprivate_register_vec, num_work_sharing,
}

-- `name.find(part) != std::string::npos`.
abbrev pub contains : String → String → Bool
contains name part = elim (find? name part) [ none ↦ false | some _ ↦ true ]

abbrev pub lookup {ℓ} : {A : Type ℓ} → String → List (String × A) → Option A
lookup name [] = none
lookup name ((key, a) ∷ table) = if Text.◌==◌ name key then some a else lookup name table

-- A chain of `if (name == "...") { member++; total++; return true; }` that ends in `return false`.
unfoldable pub count_in :
    List (String × Counter) → Counter → String → OpenMpStats → OpenMpStats × Bool
unfolding bump
count_in table total name st = elim (lookup name table) [
  | none ↦ (st, false)
  | some member ↦ (bump total (bump member st), true)
]

unfoldable pub count_atomic : String → OpenMpStats → OpenMpStats × Bool
unfolding bump
count_atomic name st = if contains name "atomic" then (bump num_atomic st, true) else (st, false)

abbrev pub startup_shutdown_names : List (String × Counter)
startup_shutdown_names = ("__kmpc_begin", num_begin) ∷ ("__kmpc_end", num_end) ∷ []

unfoldable pub count_startup_shutdown : String → OpenMpStats → OpenMpStats × Bool
unfolding count_in
count_startup_shutdown = count_in startup_shutdown_names num_startup_shutdown

abbrev pub parallel_names : List (String × Counter)
parallel_names =
    ("__kmpc_push_num_threads", num_push_num_threads)
    ∷ ("__kmpc_fork_call", num_fork_call)
    ∷ ("__kmpc_push_num_teams", num_push_num_teams)
    ∷ ("__kmpc_fork_teams", num_fork_teams)
    ∷ ("__kmpc_serialized_parallel", num_serialized_parallel)
    ∷ ("__kmpc_end_serialized_parallel", num_end_serialized_parallel)
    ∷ []

unfoldable pub count_parallel : String → OpenMpStats → OpenMpStats × Bool
unfolding count_in
count_parallel = count_in parallel_names num_parallel

abbrev pub thread_info_names : List (String × Counter)
thread_info_names =
    ("__kmpc_global_thread_num", num_global_thread_num)
    ∷ ("__kmpc_global_num_threads", num_global_num_threads)
    ∷ ("__kmpc_bound_thread_num", num_bound_thread_num)
    ∷ ("__kmpc_bound_num_threads", num_bound_num_threads)
    ∷ ("__kmpc_in_parallel", num_in_parallel)
    ∷ []

unfoldable pub count_thread_info : String → OpenMpStats → OpenMpStats × Bool
unfolding count_in
count_thread_info = count_in thread_info_names num_thread_info

abbrev pub work_sharing_names : List (String × Counter)
work_sharing_names =
    ("__kmpc_master", num_master)
    ∷ ("__kmpc_end_master", num_end_master)
    ∷ ("__kmpc_ordered", num_ordered)
    ∷ ("__kmpc_end_ordered", num_end_ordered)
    ∷ ("__kmpc_critical", num_critical)
    ∷ ("__kmpc_end_critical", num_end_critical)
    ∷ ("__kmpc_single", num_single)
    ∷ ("__kmpc_end_single", num_end_single)
    ∷ ("__kmpc_for_static_fini", num_for_static_fini)
    ∷ ("__kmpc_dispatch_init_4", num_dispatch_init_4)
    ∷ ("__kmpc_dispatch_init_4u", num_dispatch_init_4u)
    ∷ ("__kmpc_dispatch_init_8", num_dispatch_init_8)
    ∷ ("__kmpc_dispatch_init_8u", num_dispatch_init_8u)
    ∷ ("__kmpc_dist_dispatch_init_4", num_dist_dispatch_init_4)
    ∷ ("__kmpc_dispatch_next_4", num_dispatch_next_4)
    ∷ ("__kmpc_dispatch_next_4u", num_dispatch_next_4u)
    ∷ ("__kmpc_dispatch_next_8", num_dispatch_next_8)
    ∷ ("__kmpc_dispatch_next_8u", num_dispatch_next_8u)
    ∷ ("__kmpc_dispatch_fini_4", num_dispatch_fini_4)
    ∷ ("__kmpc_dispatch_fini_4u", num_dispatch_fini_4u)
    ∷ ("__kmpc_dispatch_fini_8", num_dispatch_fini_8)
    ∷ ("__kmpc_dispatch_fini_8u", num_dispatch_fini_8u)
    ∷ ("__kmpc_for_static_init_4", num_for_static_init_4)
    ∷ ("__kmpc_for_static_init_4u", num_for_static_init_4u)
    ∷ ("__kmpc_for_static_init_8", num_for_static_init_8)
    ∷ ("__kmpc_for_static_init_8u", num_for_static_init_8u)
    ∷ ("__kmpc_dist_for_static_init_4", num_dist_for_static_init_4)
    ∷ ("__kmpc_dist_for_static_init_4u", num_dist_for_static_init_4u)
    ∷ ("__kmpc_dist_for_static_init_8", num_dist_for_static_init_8)
    ∷ ("__kmpc_dist_for_static_init_8u", num_dist_for_static_init_8u)
    ∷ ("__kmpc_team_static_init_4", num_team_static_init_4)
    ∷ ("__kmpc_team_static_init_4u", num_team_static_init_4u)
    ∷ ("__kmpc_team_static_init_8", num_team_static_init_8)
    ∷ ("__kmpc_team_static_init_8u", num_team_static_init_8u)
    ∷ []

unfoldable pub count_work_sharing : String → OpenMpStats → OpenMpStats × Bool
unfolding count_in
count_work_sharing = count_in work_sharing_names num_work_sharing

abbrev pub synchronization_names : List (String × Counter)
synchronization_names =
    ("__kmpc_flush", num_flush)
    ∷ ("__kmpc_barrier", num_barrier)
    ∷ ("__kmpc_barrier_master", num_barrier_master)
    ∷ ("__kmpc_end_barrier_master", num_end_barrier_master)
    ∷ ("__kmpc_barrier_master_nowait", num_barrier_master_nowait)
    ∷ ("__kmpc_reduce_nowait", num_reduce_nowait)
    ∷ ("__kmpc_end_reduce_nowait", num_end_reduce_nowait)
    ∷ ("__kmpc_reduce", num_reduce)
    ∷ ("__kmpc_end_reduce", num_end_reduce)
    ∷ []

unfoldable pub count_synchronization : String → OpenMpStats → OpenMpStats × Bool
unfolding count_in
count_synchronization = count_in synchronization_names num_synchronization

abbrev pub thread_private_data_support_names : List (String × Counter)
thread_private_data_support_names =
    ("__kmpc_copyprivate", num_copyprivate)
    ∷ ("__kmpc_threadprivate_register", num_threadprivate_register)
    ∷ ("__kmpc_threadprivate_cached", num_threadprivate_cached)
    ∷ ("__kmpc_threadprivate_register_vec", num_threadprivate_register_vec)
    ∷ ("kmpc_ctor", num_ctor)
    ∷ ("kmpc_dtor", num_dtor)
    ∷ ("kmpc_cctor", num_cctor)
    ∷ ("kmpc_ctor_vec", num_ctor_vec)
    ∷ ("kmpc_dtor_vec", num_dtor_vec)
    ∷ ("kmpc_cctor_vec", num_cctor_vec)
    ∷ []

unfoldable pub count_thread_private_data_support : String → OpenMpStats → OpenMpStats × Bool
unfolding count_in
count_thread_private_data_support =
    count_in thread_private_data_support_names num_thread_private_data_support

abbrev pub tasking_support_names : List (String × Counter)
tasking_support_names =
    ("__kmpc_omp_task_with_deps", num_omp_task_with_deps)
    ∷ ("__kmpc_omp_wait_deps", num_omp_wait_deps)
    ∷ []

unfoldable pub count_tasking_support : String → OpenMpStats → OpenMpStats × Bool
unfolding count_in
count_tasking_support = count_in tasking_support_names num_tasking_support

-- `if (count_...(name)) return;` and what follows it.
abbrev pub or_else : OpenMpStats × Bool → (OpenMpStats → OpenMpStats × Bool) → OpenMpStats × Bool
or_else (st, true) next = (st, true)
or_else (st, false) next = next st

unfoldable pub count_call : String → OpenMpStats → OpenMpStats × Bool
unfolding count_atomic count_startup_shutdown count_parallel count_thread_info count_work_sharing
    count_synchronization count_thread_private_data_support count_tasking_support
count_call name st =
    or_else
      (or_else
        (or_else
          (or_else
            (or_else
              (or_else (or_else (count_atomic name st) (count_startup_shutdown name))
                (count_parallel name))
              (count_thread_info name))
            (count_work_sharing name))
          (count_synchronization name))
        (count_thread_private_data_support name))
      (count_tasking_support name)

-- `callee`: the name of the function called, if the instruction is a call and has one.
unfoldable pub visit : Option String → OpenMpStats → OpenMpStats
visit none st = st
visit (some name) st =
    let (st', counted) = count_call name st in
    if contains name "kmpc" then (if counted then st' else bump num_others st') else st

unfoldable pub run_visits : List (Option String) → OpenMpStats → OpenMpStats
run_visits [] st = st
run_visits (c ∷ calls) st = run_visits calls (visit c st)
