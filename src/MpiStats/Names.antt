-- ===== src/MpiStats/Names.antt =====
-- The handler of library/MPIstats.cc. Of a call, `visit` gets the name of the function that is called, as
-- the codes of its letters; LLVM finds it. `strcasecmp` and `strncasecmp` compare letters A to Z as
-- small letters.
use Prim.Native.String.{String}
use ibm_pisa.Base.{
  ℕ, ◌+◌, Bool, true, false, ◌&&◌, ◌||◌, Option, none, some, List, [], ◌∷◌, leb, ◌==◌,
  if◌then◌else◌,
}
use ibm_pisa.BranchEntropy.{codes}
use ibm_pisa.MpiStats.{
  Counter, MpiStats, bump, num_environment_management, num_point_to_point_communication,
  num_collective_communication, num_process_group, num_communicators, num_derived_types,
  num_virtual_topology, num_miscellaneous, num_others, num_bsend, num_bsend_init, num_buffer_attach,
  num_buffer_detach, num_cancel, num_get_count, num_get_elements, num_ibsend, num_iprobe, num_irecv,
  num_irsend, num_isend, num_issend, num_probe, num_recv, num_recv_init, num_request_free,
  num_rsend, num_rsend_init, num_send, num_send_init, num_sendrecv, num_sendrecv_replace, num_ssend,
  num_ssend_init, num_start, num_startall, num_test, num_test_cancelled, num_testall, num_testany,
  num_testsome, num_wait, num_waitall, num_waitany, num_waitsome, num_allgather, num_allgatherv,
  num_allreduce, num_alltoall, num_alltoallv, num_barrier, num_bcast, num_gather, num_gatherv,
  num_op_create, num_op_free, num_reduce, num_reduce_scatter, num_scan, num_scatter, num_scatterv,
}

abbrev lower : ℕ → ℕ
lower c = if leb 65 c && leb c 90 then c + 32 else c

-- `!strcasecmp(a, b)`.
abbrev pub same_name : (a b : List ℕ) → Bool
same_name [] [] = true
same_name [] (d ∷ b) = false
same_name (c ∷ a) [] = false
same_name (c ∷ a) (d ∷ b) = lower c == lower d && same_name a b

-- `!strncasecmp(name, prefix, n)`, where `n` is the length of the prefix.
abbrev pub has_prefix : (prefix name : List ℕ) → Bool
has_prefix [] name = true
has_prefix (c ∷ prefix) [] = false
has_prefix (c ∷ prefix) (d ∷ name) = lower c == lower d && has_prefix prefix name

-- `if (name.back() == '_') name.pop_back();`
unfoldable pub drop_underscore : List ℕ → List ℕ
drop_underscore [] = []
drop_underscore (c ∷ []) = if c == 95 then [] else c ∷ []
drop_underscore (c ∷ d ∷ name) = c ∷ drop_underscore (d ∷ name)

abbrev pub one_of : List ℕ → List String → Bool
one_of name [] = false
one_of name (n ∷ names) = same_name name (codes n) || one_of name names

abbrev pub lookup : List ℕ → List (String × Counter) → Option Counter
lookup name [] = none
lookup name ((n, c) ∷ table) = if same_name name (codes n) then some c else lookup name table

-- A chain of `if`s that each count one name, and then the total if one of them did.
unfoldable pub count_in : List (String × Counter) → Counter → List ℕ → MpiStats → MpiStats × Bool
unfolding bump
count_in table total name st = elim (lookup name table) [
  | none ↦ (st, false)
  | some member ↦ (bump total (bump member st), true)
]

unfoldable pub count_prefix : String → Counter → List ℕ → MpiStats → MpiStats × Bool
unfolding bump
count_prefix prefix total name st =
    if has_prefix (codes prefix) name then (bump total st, true) else (st, false)

abbrev pub environment_management_names : List String
environment_management_names =
    "MPI_abort" ∷ "MPI_Errhandler_create" ∷ "MPI_Errhandler_free" ∷ "MPI_Errhandler_get"
    ∷ "MPI_Errhandler_set" ∷ "MPI_Error_class" ∷ "MPI_Error_string" ∷ "MPI_Finalize"
    ∷ "MPI_Get_processor_name" ∷ "MPI_Get_version" ∷ "MPI_Init" ∷ "MPI_Initialized" ∷ "MPI_Wtick"
    ∷ "MPI_Wtime" ∷ []

unfoldable pub count_environment_management : List ℕ → MpiStats → MpiStats × Bool
unfolding bump
count_environment_management name st =
    if one_of (drop_underscore name) environment_management_names
    then (bump num_environment_management st, true)
    else (st, false)

abbrev pub point_to_point_names : List (String × Counter)
point_to_point_names =
    ("MPI_Bsend", num_bsend)
    ∷ ("MPI_Bsend_init", num_bsend_init)
    ∷ ("MPI_Buffer_attach", num_buffer_attach)
    ∷ ("MPI_Buffer_detach", num_buffer_detach)
    ∷ ("MPI_Cancel", num_cancel)
    ∷ ("MPI_Get_count", num_get_count)
    ∷ ("MPI_Get_elements", num_get_elements)
    ∷ ("MPI_Ibsend", num_ibsend)
    ∷ ("MPI_Iprobe", num_iprobe)
    ∷ ("MPI_Irecv", num_irecv)
    ∷ ("MPI_Irsend", num_irsend)
    ∷ ("MPI_Isend", num_isend)
    ∷ ("MPI_Issend", num_issend)
    ∷ ("MPI_Probe", num_probe)
    ∷ ("MPI_Recv", num_recv)
    ∷ ("MPI_Recv_init", num_recv_init)
    ∷ ("MPI_Request_free", num_request_free)
    ∷ ("MPI_Rsend", num_rsend)
    ∷ ("MPI_Rsend_init", num_rsend_init)
    ∷ ("MPI_Send", num_send)
    ∷ ("MPI_Send_init", num_send_init)
    ∷ ("MPI_Sendrecv", num_sendrecv)
    ∷ ("MPI_Sendrecv_replace", num_sendrecv_replace)
    ∷ ("MPI_Ssend", num_ssend)
    ∷ ("MPI_Ssend_init", num_ssend_init)
    ∷ ("MPI_Start", num_start)
    ∷ ("MPI_Startall", num_startall)
    ∷ ("MPI_Test", num_test)
    ∷ ("MPI_Test_cancelled", num_test_cancelled)
    ∷ ("MPI_Testall", num_testall)
    ∷ ("MPI_Testany", num_testany)
    ∷ ("MPI_Testsome", num_testsome)
    ∷ ("MPI_Wait", num_wait)
    ∷ ("MPI_Waitall", num_waitall)
    ∷ ("MPI_Waitany", num_waitany)
    ∷ ("MPI_Waitsome", num_waitsome)
    ∷ []

unfoldable pub count_point_to_point_communication : List ℕ → MpiStats → MpiStats × Bool
unfolding count_in
count_point_to_point_communication name =
    count_in point_to_point_names num_point_to_point_communication (drop_underscore name)

abbrev pub collective_names : List (String × Counter)
collective_names =
    ("MPI_Allgather", num_allgather)
    ∷ ("MPI_Allgatherv", num_allgatherv)
    ∷ ("MPI_Allreduce", num_allreduce)
    ∷ ("MPI_Alltoall", num_alltoall)
    ∷ ("MPI_Alltoallv", num_alltoallv)
    ∷ ("MPI_Barrier", num_barrier)
    ∷ ("MPI_Bcast", num_bcast)
    ∷ ("MPI_Gather", num_gather)
    ∷ ("MPI_Gatherv", num_gatherv)
    ∷ ("MPI_Op_create", num_op_create)
    ∷ ("MPI_Op_free", num_op_free)
    ∷ ("MPI_Reduce", num_reduce)
    ∷ ("MPI_Reduce_scatter", num_reduce_scatter)
    ∷ ("MPI_Scan", num_scan)
    ∷ ("MPI_Scatter", num_scatter)
    ∷ ("MPI_Scatterv", num_scatterv)
    ∷ []

unfoldable pub count_collective_communication : List ℕ → MpiStats → MpiStats × Bool
unfolding count_in
count_collective_communication name =
    count_in collective_names num_collective_communication (drop_underscore name)

unfoldable pub count_process_group : List ℕ → MpiStats → MpiStats × Bool
unfolding count_prefix
count_process_group name = count_prefix "MPI_Group_" num_process_group (drop_underscore name)

-- The first test that holds counts.
abbrev pub or_else :
    (List ℕ → MpiStats → MpiStats × Bool)
    → (List ℕ → MpiStats → MpiStats × Bool)
    → List ℕ
    → MpiStats
    → MpiStats × Bool
or_else f g name st = let (st', found) = f name st in if found then (st', true) else g name st'

unfoldable pub count_communicators : List ℕ → MpiStats → MpiStats × Bool
unfolding count_prefix
count_communicators =
    or_else (count_prefix "MPI_Comm_" num_communicators)
      (count_prefix "MPI_Intercomm_" num_communicators)

unfoldable pub count_derived_types : List ℕ → MpiStats → MpiStats × Bool
unfolding count_prefix
count_derived_types = count_prefix "MPI_Type_" num_derived_types

abbrev pub virtual_topology_names : List String
virtual_topology_names =
    "MPI_Cartdim_get" ∷ "MPI_Dims_create" ∷ "MPI_Graphdims_get" ∷ "MPI_Topo_create" ∷ []

abbrev pub count_topology_name : List ℕ → MpiStats → MpiStats × Bool
count_topology_name name st =
    if one_of name virtual_topology_names then (bump num_virtual_topology st, true) else (st, false)

unfoldable pub count_virtual_topology : List ℕ → MpiStats → MpiStats × Bool
unfolding count_prefix
count_virtual_topology name =
    or_else (count_prefix "MPI_Cart_" num_virtual_topology)
      (or_else (count_prefix "MPI_Graph_" num_virtual_topology) count_topology_name)
      (drop_underscore name)

abbrev pub miscellaneous_names : List String
miscellaneous_names =
    "MPI_Address" ∷ "MPI_Attr_delete" ∷ "MPI_Attr_get" ∷ "MPI_Attr_put" ∷ "MPI_Keyval_create"
    ∷ "MPI_Keyval_free" ∷ "MPI_Pack" ∷ "MPI_Pack_size" ∷ "MPI_Pcontrol" ∷ "MPI_Unpack" ∷ []

unfoldable pub count_miscellaneous : List ℕ → MpiStats → MpiStats × Bool
unfolding bump
count_miscellaneous name st =
    if one_of (drop_underscore name) miscellaneous_names
    then (bump num_miscellaneous st, true)
    else (st, false)

abbrev pub count_other : List ℕ → MpiStats → MpiStats × Bool
count_other name st = (bump num_others st, true)

-- The functions in the order of `visit`; each returns if it counted the name.
abbrev pub count_call : List ℕ → MpiStats → MpiStats × Bool
count_call = or_else count_environment_management (
    or_else count_point_to_point_communication (
      or_else count_collective_communication (
        or_else count_process_group (
          or_else count_communicators (
            or_else count_derived_types
              (or_else count_virtual_topology (or_else count_miscellaneous count_other)))))))

unfoldable pub visit : Option (List ℕ) → MpiStats → MpiStats
visit none st = st
visit (some name) st = if has_prefix (codes "MPI_") name then (count_call name st).0 else st

unfoldable pub run_visits : List (Option (List ℕ)) → MpiStats → MpiStats
run_visits [] st = st
run_visits (c ∷ calls) st = run_visits calls (visit c st)
