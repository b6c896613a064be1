-- ===== src/OpenMp.antt =====
-- The counters of library/OpenMPstats.h, and their start and increment in library/OpenMPstats.cc. The
-- fields of the class are a function of the name of the field.
pub mod Dump
pub mod Flat
pub mod Members
pub mod Names
pub mod Totals
use ibm_pisa.Base.{ℕ, Bool, true, false, add64, ◌==◌, if◌then◌else◌}

pub data Counter : Type 0 where
  num_atomic num_startup_shutdown num_begin num_end num_parallel num_push_num_threads num_fork_call
        num_push_num_teams num_fork_teams num_serialized_parallel num_end_serialized_parallel
        num_thread_info num_global_thread_num num_global_num_threads num_bound_thread_num
        num_bound_num_threads num_in_parallel num_work_sharing num_master num_end_master num_ordered
        num_end_ordered num_critical num_end_critical num_single num_end_single num_for_static_fini
        num_dispatch_init_4 num_dispatch_init_4u num_dispatch_init_8 num_dispatch_init_8u
        num_dist_dispatch_init_4 num_dispatch_next_4 num_dispatch_next_4u num_dispatch_next_8
        num_dispatch_next_8u num_dispatch_fini_4 num_dispatch_fini_8 num_dispatch_fini_4u
        num_dispatch_fini_8u num_for_static_init_4 num_for_static_init_4u num_for_static_init_8
        num_for_static_init_8u num_dist_for_static_init_4 num_dist_for_static_init_4u
        num_dist_for_static_init_8 num_dist_for_static_init_8u num_team_static_init_4
        num_team_static_init_4u num_team_static_init_8 num_team_static_init_8u num_synchronization
        num_flush num_barrier num_barrier_master num_end_barrier_master num_barrier_master_nowait
        num_reduce_nowait num_end_reduce_nowait num_end_reduce_wait num_reduce num_end_reduce
        num_thread_private_data_support num_copyprivate num_threadprivate_register
        num_threadprivate_cached num_threadprivate_register_vec num_ctor num_dtor num_cctor
        num_ctor_vec num_dtor_vec num_cctor_vec num_tasking_support num_omp_task_with_deps
        num_omp_wait_deps num_others :
      Counter

-- The place of a field in the class.
abbrev pub position : Counter → ℕ
position num_atomic = 0
position num_startup_shutdown = 1
position num_begin = 2
position num_end = 3
position num_parallel = 4
position num_push_num_threads = 5
position num_fork_call = 6
position num_push_num_teams = 7
position num_fork_teams = 8
position num_serialized_parallel = 9
position num_end_serialized_parallel = 10
position num_thread_info = 11
position num_global_thread_num = 12
position num_global_num_threads = 13
position num_bound_thread_num = 14
position num_bound_num_threads = 15
position num_in_parallel = 16
position num_work_sharing = 17
position num_master = 18
position num_end_master = 19
position num_ordered = 20
position num_end_ordered = 21
position num_critical = 22
position num_end_critical = 23
position num_single = 24
position num_end_single = 25
position num_for_static_fini = 26
position num_dispatch_init_4 = 27
position num_dispatch_init_4u = 28
position num_dispatch_init_8 = 29
position num_dispatch_init_8u = 30
position num_dist_dispatch_init_4 = 31
position num_dispatch_next_4 = 32
position num_dispatch_next_4u = 33
position num_dispatch_next_8 = 34
position num_dispatch_next_8u = 35
position num_dispatch_fini_4 = 36
position num_dispatch_fini_8 = 37
position num_dispatch_fini_4u = 38
position num_dispatch_fini_8u = 39
position num_for_static_init_4 = 40
position num_for_static_init_4u = 41
position num_for_static_init_8 = 42
position num_for_static_init_8u = 43
position num_dist_for_static_init_4 = 44
position num_dist_for_static_init_4u = 45
position num_dist_for_static_init_8 = 46
position num_dist_for_static_init_8u = 47
position num_team_static_init_4 = 48
position num_team_static_init_4u = 49
position num_team_static_init_8 = 50
position num_team_static_init_8u = 51
position num_synchronization = 52
position num_flush = 53
position num_barrier = 54
position num_barrier_master = 55
position num_end_barrier_master = 56
position num_barrier_master_nowait = 57
position num_reduce_nowait = 58
position num_end_reduce_nowait = 59
position num_end_reduce_wait = 60
position num_reduce = 61
position num_end_reduce = 62
position num_thread_private_data_support = 63
position num_copyprivate = 64
position num_threadprivate_register = 65
position num_threadprivate_cached = 66
position num_threadprivate_register_vec = 67
position num_ctor = 68
position num_dtor = 69
position num_cctor = 70
position num_ctor_vec = 71
position num_dtor_vec = 72
position num_cctor_vec = 73
position num_tasking_support = 74
position num_omp_task_with_deps = 75
position num_omp_wait_deps = 76
position num_others = 77

abbrev pub same : Counter → Counter → Bool
same c d = position c == position d

abbrev pub OpenMpStats : Type 0
OpenMpStats = Counter → ℕ

unfoldable pub init : OpenMpStats
init c = 0

-- `Num...++`.
unfoldable pub bump : Counter → OpenMpStats → OpenMpStats
bump c st d = if same c d then add64 (st d) 1 else st d
