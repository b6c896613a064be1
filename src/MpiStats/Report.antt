-- ===== src/MpiStats/Report.antt =====
-- The report of library/MPIstats.cc: its keys with what it writes for each, in order, without the names
-- of the objects around them.
use Prim.Native.String.{String}
use ibm_pisa.Base.{ℕ, List, [], ◌∷◌, add64}
use ibm_pisa.MpiStats.{
  Counter, MpiStats, num_environment_management, num_point_to_point_communication,
  num_collective_communication, num_process_group, num_communicators, num_derived_types,
  num_virtual_topology, num_miscellaneous, num_others, num_bsend, num_bsend_init, num_buffer_attach,
  num_buffer_detach, num_cancel, num_get_count, num_get_elements, num_ibsend, num_iprobe, num_irecv,
  num_irsend, num_isend, num_issend, num_probe, num_recv, num_recv_init, num_request_free,
  num_rsend, num_rsend_init, num_send, num_send_init, num_sendrecv, num_sendrecv_replace, num_ssend,
  num_ssend_init, num_start, num_startall, num_test, num_test_cancelled, num_testall, num_testany,
  num_testsome, num_wait, num_waitall, num_waitany, num_waitsome, num_allgather, num_allgatherv,
  num_allreduce, num_alltoall, num_alltoallv, num_barrier, num_bcast, num_gather, num_gatherv,
  num_op_create, num_op_free, num_reduce, num_reduce_scatter, num_scan, num_scatter, num_scatterv,
}

-- A sum of counters, in 64 bits.
abbrev pub sum : List Counter → MpiStats → ℕ
sum [] st = 0
sum (c ∷ cs) st = add64 (st c) (sum cs st)

abbrev pub totals : List Counter
totals =
    num_environment_management ∷ num_point_to_point_communication ∷ num_collective_communication
    ∷ num_process_group ∷ num_communicators ∷ num_derived_types ∷ num_virtual_topology
    ∷ num_miscellaneous ∷ num_others ∷ []

unfoldable pub json_dump : MpiStats → List (String × ℕ)
json_dump st =
    ("MPI_instructions_analyzed", sum totals st)
    ∷ ("MPI_environment_management_calls", st num_environment_management)
    ∷ ("MPI_Bsend", st num_bsend)
    ∷ ("MPI_Bsend_init", st num_bsend_init)
    ∷ ("MPI_Buffer_attach", st num_buffer_attach)
    ∷ ("MPI_Bsend_detach", st num_buffer_detach)
    ∷ ("MPI_Cancel", st num_cancel)
    ∷ ("MPI_Get_count", st num_get_count)
    ∷ ("MPI_Get_elements", st num_get_elements)
    ∷ ("MPI_Ibsend", st num_ibsend)
    ∷ ("MPI_Iprobe", st num_iprobe)
    ∷ ("MPI_Irecv", st num_irecv)
    ∷ ("MPI_Irsend", st num_irsend)
    ∷ ("MPI_Isend", st num_isend)
    ∷ ("MPI_Issend", st num_issend)
    ∷ ("MPI_Probe", st num_probe)
    ∷ ("MPI_Recv", st num_recv)
    ∷ ("MPI_Recv_init", st num_recv_init)
    ∷ ("MPI_Request_free", st num_request_free)
    ∷ ("MPI_Rsend", st num_rsend)
    ∷ ("MPI_Rsend_init", st num_rsend_init)
    ∷ ("MPI_Send", st num_send)
    ∷ ("MPI_Send_init", st num_send_init)
    ∷ ("MPI_Sendrecv", st num_sendrecv)
    ∷ ("MPI_Sendrecv_replace", st num_sendrecv_replace)
    ∷ ("MPI_Ssend", st num_ssend)
    ∷ ("MPI_Ssend_init", st num_ssend_init)
    ∷ ("MPI_Start", st num_start)
    ∷ ("MPI_Startall", st num_startall)
    ∷ ("MPI_Test", st num_test)
    ∷ ("MPI_Test_cancelled", st num_test_cancelled)
    ∷ ("MPI_Testall", st num_testall)
    ∷ ("MPI_Testany", st num_testany)
    ∷ ("MPI_Testsome", st num_testsome)
    ∷ ("MPI_Wait", st num_wait)
    ∷ ("MPI_Waitall", st num_waitall)
    ∷ ("MPI_Waitany", st num_waitany)
    ∷ ("MPI_Waitsome", st num_waitsome)
    ∷ ("MPI_Allgather", st num_allgather)
    ∷ ("MPI_Allgatherv", st num_allgatherv)
    ∷ ("MPI_Allreduce", st num_allreduce)
    ∷ ("MPI_Alltoall", st num_alltoall)
    ∷ ("MPI_Alltoallv", st num_alltoallv)
    ∷ ("MPI_Barrier", st num_barrier)
    ∷ ("MPI_Bcast", st num_bcast)
    ∷ ("MPI_Gather", st num_gather)
    ∷ ("MPI_Gatherv", st num_gatherv)
    ∷ ("MPI_Op_create", st num_op_create)
    ∷ ("MPI_Op_free", st num_op_free)
    ∷ ("MPI_Reduce", st num_reduce)
    ∷ ("MPI_Reduce_Scatter", st num_reduce_scatter)
    ∷ ("MPI_Scan", st num_scan)
    ∷ ("MPI_Scatter", st num_scatter)
    ∷ ("MPI_Scatterv", st num_scatterv)
    ∷ ("MPI_Group_calls", st num_process_group)
    ∷ ("MPI_Comm_calls", st num_communicators)
    ∷ ("MPI_Type_calls", st num_derived_types)
    ∷ ("MPI_virtual_topology_calls", st num_virtual_topology)
    ∷ ("MPI_misc_calls", st num_miscellaneous)
    ∷ ("MPI_other_calls", st num_others)
    ∷ []
