-- ===== src/MpiStats.antt =====
-- The counters of library/MPIstats.h, and their start and increment in library/MPIstats.cc. The fields of
-- the class are a function of the name of the field.
pub mod Counts
pub mod Names
pub mod Report
pub mod Totals
use ibm_pisa.Base.{ℕ, Bool, add64, ◌==◌, if◌then◌else◌}

pub data Counter : Type 0 where
  num_environment_management num_point_to_point_communication num_collective_communication
        num_process_group num_communicators num_derived_types num_virtual_topology num_miscellaneous
        num_others num_bsend num_bsend_init num_buffer_attach num_buffer_detach num_cancel
        num_get_count num_get_elements num_ibsend num_iprobe num_irecv num_irsend num_isend
        num_issend num_probe num_recv num_recv_init num_request_free num_rsend num_rsend_init
        num_send num_send_init num_sendrecv num_sendrecv_replace num_ssend num_ssend_init num_start
        num_startall num_test num_test_cancelled num_testall num_testany num_testsome num_wait
        num_waitall num_waitany num_waitsome num_allgather num_allgatherv num_allreduce num_alltoall
        num_alltoallv num_barrier num_bcast num_gather num_gatherv num_op_create num_op_free
        num_reduce num_reduce_scatter num_scan num_scatter num_scatterv :
      Counter

-- The place of a field in the class.
abbrev pub position : Counter → ℕ
position num_environment_management = 0
position num_point_to_point_communication = 1
position num_collective_communication = 2
position num_process_group = 3
position num_communicators = 4
position num_derived_types = 5
position num_virtual_topology = 6
position num_miscellaneous = 7
position num_others = 8
position num_bsend = 9
position num_bsend_init = 10
position num_buffer_attach = 11
position num_buffer_detach = 12
position num_cancel = 13
position num_get_count = 14
position num_get_elements = 15
position num_ibsend = 16
position num_iprobe = 17
position num_irecv = 18
position num_irsend = 19
position num_isend = 20
position num_issend = 21
position num_probe = 22
position num_recv = 23
position num_recv_init = 24
position num_request_free = 25
position num_rsend = 26
position num_rsend_init = 27
position num_send = 28
position num_send_init = 29
position num_sendrecv = 30
position num_sendrecv_replace = 31
position num_ssend = 32
position num_ssend_init = 33
position num_start = 34
position num_startall = 35
position num_test = 36
position num_test_cancelled = 37
position num_testall = 38
position num_testany = 39
position num_testsome = 40
position num_wait = 41
position num_waitall = 42
position num_waitany = 43
position num_waitsome = 44
position num_allgather = 45
position num_allgatherv = 46
position num_allreduce = 47
position num_alltoall = 48
position num_alltoallv = 49
position num_barrier = 50
position num_bcast = 51
position num_gather = 52
position num_gatherv = 53
position num_op_create = 54
position num_op_free = 55
position num_reduce = 56
position num_reduce_scatter = 57
position num_scan = 58
position num_scatter = 59
position num_scatterv = 60

abbrev pub same : Counter → Counter → Bool
same a b = position a == position b

abbrev pub MpiStats : Type 0
MpiStats = Counter → ℕ

unfoldable pub init : MpiStats
init c = 0

-- `counter++`.
unfoldable pub bump : Counter → MpiStats → MpiStats
bump c st d = if same c d then add64 (st d) 1 else st d
