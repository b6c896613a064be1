-- ===== src/OpenMp/Dump.antt =====
-- `JSONdump` of library/OpenMPstats.cc: the fields it writes, in their order.
use Prim.Native.String.{String}
use ibm_pisa.Base.{ℕ, ◌≡◌, refl, List, [], ◌∷◌}
use ibm_pisa.OpenMp.{
  OpenMpStats, bump, num_atomic, num_barrier, num_barrier_master, num_barrier_master_nowait,
  num_begin, num_bound_num_threads, num_bound_thread_num, num_cctor, num_cctor_vec, num_copyprivate,
  num_critical, num_ctor, num_ctor_vec, num_dispatch_fini_4, num_dispatch_fini_4u,
  num_dispatch_fini_8, num_dispatch_fini_8u, num_dispatch_init_4, num_dispatch_init_4u,
  num_dispatch_init_8, num_dispatch_init_8u, num_dispatch_next_4, num_dispatch_next_4u,
  num_dispatch_next_8, num_dispatch_next_8u, num_dist_dispatch_init_4, num_dist_for_static_init_4,
  num_dist_for_static_init_4u, num_dist_for_static_init_8, num_dist_for_static_init_8u, num_dtor,
  num_dtor_vec, num_end, num_end_barrier_master, num_end_critical, num_end_master, num_end_ordered,
  num_end_reduce, num_end_reduce_nowait, num_end_reduce_wait, num_end_serialized_parallel,
  num_end_single, num_flush, num_for_static_fini, num_for_static_init_4, num_for_static_init_4u,
  num_for_static_init_8, num_for_static_init_8u, num_fork_call, num_fork_teams,
  num_global_num_threads, num_global_thread_num, num_in_parallel, num_master,
  num_omp_task_with_deps, num_omp_wait_deps, num_ordered, num_others, num_parallel,
  num_push_num_teams, num_push_num_threads, num_reduce, num_reduce_nowait, num_serialized_parallel,
  num_single, num_startup_shutdown, num_synchronization, num_tasking_support,
  num_team_static_init_4, num_team_static_init_4u, num_team_static_init_8, num_team_static_init_8u,
  num_thread_info, num_thread_private_data_support, num_threadprivate_cached,
  num_threadprivate_register, num_threadprivate_register_vec, num_work_sharing,
}

unfoldable pub json_dump : OpenMpStats → List (String × ℕ)
json_dump st =
    ("openMP_synchronization", st num_synchronization)
    ∷ ("openMP_synchronization_flush", st num_flush)
    ∷ ("openMP_synchronization_barrier", st num_barrier)
    ∷ ("openMP_synchronization_barrier_master", st num_barrier_master)
    ∷ ("openMP_synchronization_end_barrier_master", st num_end_barrier_master)
    ∷ ("openMP_synchronization_barrier_master_nowait", st num_barrier_master_nowait)
    ∷ ("openMP_synchronization_reduce_nowait", st num_reduce_nowait)
    ∷ ("openMP_synchronization_end_reduce_wait", st num_end_reduce_wait)
    ∷ ("openMP_synchronization_reduce", st num_reduce)
    ∷ ("openMP_synchronization_end_reduce", st num_end_reduce)
    ∷ ("openMP_atomic", st num_atomic)
    ∷ ("openMP_startup_shutdown", st num_startup_shutdown)
    ∷ ("openMP_startup_shutdown_begin", st num_begin)
    ∷ ("openMP_startup_shutdown_end", st num_end)
    ∷ ("openMP_parallel", st num_parallel)
    ∷ ("openMP_parallel_push_num_threads", st num_push_num_threads)
    ∷ ("openMP_parallel_fork_call", st num_fork_call)
    ∷ ("openMP_parallel_push_num_teams", st num_push_num_teams)
    ∷ ("openMP_parallel_fork_teams", st num_fork_teams)
    ∷ ("openMP_parallel_serialized_parallel", st num_serialized_parallel)
    ∷ ("openMP_parallel_end_serialized_parallel", st num_end_serialized_parallel)
    ∷ ("openMP_thread_info", st num_thread_info)
    ∷ ("openMP_thread_info_global_thread_num", st num_global_thread_num)
    ∷ ("openMP_thread_info_global_num_threads", st num_global_num_threads)
    ∷ ("openMP_thread_info_bound_thread_num", st num_bound_thread_num)
    ∷ ("openMP_thread_info_bound_num_threads", st num_bound_num_threads)
    ∷ ("openMP_thread_info_in_parallel", st num_in_parallel)
    ∷ ("openMP_work_sharing", st num_work_sharing)
    ∷ ("openMP_work_sharing_master", st num_master)
    ∷ ("openMP_work_sharing_end_master", st num_end_master)
    ∷ ("openMP_work_sharing_ordered", st num_ordered)
    ∷ ("openMP_work_sharing_end_ordered", st num_end_ordered)
    ∷ ("openMP_work_sharing_critical", st num_critical)
    ∷ ("openMP_work_sharing_end_critical", st num_end_critical)
    ∷ ("openMP_work_sharing_single", st num_single)
    ∷ ("openMP_work_sharing_end_single", st num_end_single)
    ∷ ("openMP_work_sharing_for_static_fini", st num_for_static_fini)
    ∷ ("openMP_work_sharing_dispatch_init_4", st num_dispatch_init_4)
    ∷ ("openMP_work_sharing_dispatch_init_4u", st num_dispatch_init_4u)
    ∷ ("openMP_work_sharing_dispatch_init_8", st num_dispatch_init_8)
    ∷ ("openMP_work_sharing_dispatch_init_8u", st num_dispatch_init_8u)
    ∷ ("openMP_work_sharing_dist_dispatch_init_4", st num_dist_dispatch_init_4)
    ∷ ("openMP_work_sharing_dispatch_next_4", st num_dispatch_next_4)
    ∷ ("openMP_work_sharing_dispatch_next_4u", st num_dispatch_next_4u)
    ∷ ("openMP_work_sharing_dispatch_next_8", st num_dispatch_next_8)
    ∷ ("openMP_work_sharing_dispatch_next_8u", st num_dispatch_next_8u)
    ∷ ("openMP_work_sharing_dispatch_fini_4", st num_dispatch_fini_4)
    ∷ ("openMP_work_sharing_dispatch_fini_4u", st num_dispatch_fini_4u)
    ∷ ("openMP_work_sharing_dispatch_fini_8", st num_dispatch_fini_8)
    ∷ ("openMP_work_sharing_dispatch_fini_8u", st num_dispatch_fini_8u)
    ∷ ("openMP_work_sharing_for_static_init_4", st num_for_static_init_4)
    ∷ ("openMP_work_sharing_for_static_init_4u", st num_for_static_init_4u)
    ∷ ("openMP_work_sharing_for_static_init_8", st num_for_static_init_8)
    ∷ ("openMP_work_sharing_for_static_init_8u", st num_for_static_init_8u)
    ∷ ("openMP_work_sharing_dist_for_static_init_4", st num_dist_for_static_init_4)
    ∷ ("openMP_work_sharing_dist_for_static_init_4u", st num_dist_for_static_init_4u)
    ∷ ("openMP_work_sharing_dist_for_static_init_8", st num_dist_for_static_init_8)
    ∷ ("openMP_work_sharing_dist_for_static_init_8u", st num_dist_for_static_init_8u)
    ∷ ("openMP_work_sharing_team_static_init_4", st num_team_static_init_4)
    ∷ ("openMP_work_sharing_team_static_init_4u", st num_team_static_init_4u)
    ∷ ("openMP_work_sharing_team_static_init_8", st num_team_static_init_8)
    ∷ ("openMP_work_sharing_team_static_init_8u", st num_team_static_init_8u)
    ∷ ("openMP_thread_private_data_support", st num_thread_private_data_support)
    ∷ ("openMP_thread_private_data_support_copy_private", st num_copyprivate)
    ∷ ("openMP_thread_private_data_support_thread_private_register", st num_threadprivate_register)
    ∷ ("openMP_thread_private_data_support_thread_pivate_cached", st num_threadprivate_cached)
    ∷ (
      "openMP_thread_private_data_support_thread_private_register_vec",
      st num_threadprivate_register_vec,
    )
    ∷ ("openMP_thread_private_data_support_ctor", st num_ctor)
    ∷ ("openMP_thread_private_data_support_dtor", st num_dtor)
    ∷ ("openMP_thread_private_data_support_cctor", st num_cctor)
    ∷ ("openMP_thread_private_data_support_cctor_vec", st num_cctor_vec)
    ∷ ("openMP_thread_private_data_support_dtor_vec", st num_dtor_vec)
    ∷ ("openMP_thread_private_data_support_cctor_vec", st num_cctor_vec)
    ∷ ("openMP_tasking_support", st num_tasking_support)
    ∷ ("openMP_tasking_support_omp_task_with_deps", st num_omp_task_with_deps)
    ∷ ("openMP_tasking_support_omp_wait_deps", st num_omp_wait_deps)
    ∷ ("openMP_others", st num_others)
    ∷ []

-- The report does not depend on the counters of `__kmpc_end_reduce_nowait` and of `kmpc_ctor_vec`:
-- it is the same before and after an increment of either.
json_dump-hides :
    (st : OpenMpStats)
    → (json_dump (bump num_end_reduce_nowait st) ≡ json_dump st)
      × (json_dump (bump num_ctor_vec st) ≡ json_dump st)
unfolding json_dump bump
json_dump-hides st = (refl, refl)
