-- ===== src/MpiData.antt =====
-- library/MPIdata.cc. The fields of a message of C type `int` are 32-bit patterns, and a product of
-- them wraps around as on a machine with two's complement numbers; addresses and instructions are
-- numbers. The locks around the analysis are not modelled.
pub mod Matrix
pub mod Names
pub mod Requests
use ibm_pisa.Base.{
  ℕ, ◌+◌, ◌-◌, ◌*◌, ◌%◌, ◌^◌, Option, none, some, List, [], ◌∷◌, ◌++◌, add64, ltb, ◌==◌,
  if◌then◌else◌,
}
use ibm_pisa.OrderedMap.{OrderedMap}
use ibm_pisa.OrderedMap

pub data MpiTransferType : Type 0 where
  mpi_send mpi_recv mpi_isend mpi_irecv mpi_bcast mpi_ibcast mpi_alltoallv mpi_alltoall
        mpi_ialltoall mpi_gather mpi_igather mpi_allgather mpi_iallgather mpi_reduce mpi_ireduce
        mpi_allreduce mpi_iallreduce mpi_wait mpi_test mpi_waitall mpi_testall mpi_other :
      MpiTransferType

-- `MPIinfo`, with the fields that the analysis sets.
pub record MpiInfo : Type 0 where
  pub inst : ℕ
  pub msg_size : ℕ
  pub tag : ℕ
  pub comm : ℕ
  pub id_s : ℕ
  pub id_r : ℕ
  pub real_addr : ℕ

-- `struct mpi_request_data`.
pub record MpiRequestData : Type 0 where
  pub req_addr : ℕ
  pub source : ℕ

-- `struct mpi_call_notification_msg`, with the fields that the analysis reads. The two arrays of
-- `MPI_Alltoallv` are one list of pairs, with the item at each rank of the communicator.
pub record MpiCall : Type 0 where
  pub other : ℕ
  pub root : ℕ
  pub tag : ℕ
  pub size : ℕ
  pub datatype : ℕ
  pub opt_recvsize : ℕ
  pub opt_recvdatatype : ℕ
  pub comm : ℕ
  pub comm_size : ℕ
  pub flag : ℕ
  pub req_data : MpiRequestData
  pub reqs : List MpiRequestData
  pub sizes : List (ℕ × ℕ)

pub record MpiData : Type 0 where
  pub processor_id : ℕ
  pub sent_bytes : ℕ
  pub received_bytes : ℕ
  pub total_sent_messages : ℕ
  pub total_received_messages : ℕ
  pub async_send : List MpiInfo
  pub async_recv : List MpiInfo
  pub async_other : List MpiInfo
  pub matrix_received : OrderedMap (ℕ × ℕ)
  pub bcast_sent_bytes : ℕ
  pub bcast_received_bytes : ℕ
  pub alltoall_sent_bytes : ℕ
  pub alltoall_received_bytes : ℕ
  pub gather_sent_bytes : ℕ
  pub gather_received_bytes : ℕ
  pub allgather_sent_bytes : ℕ
  pub allgather_received_bytes : ℕ
  pub reduce_root_bytes : ℕ
  pub reduce_not_root_bytes : ℕ
  pub allreduce_bytes : ℕ

unfoldable pub init : ℕ → MpiData
init processor_id = record {
  processor_id = processor_id;
  sent_bytes = 0;
  received_bytes = 0;
  total_sent_messages = 0;
  total_received_messages = 0;
  async_send = [];
  async_recv = [];
  async_other = [];
  matrix_received = [];
  bcast_sent_bytes = 0;
  bcast_received_bytes = 0;
  alltoall_sent_bytes = 0;
  alltoall_received_bytes = 0;
  gather_sent_bytes = 0;
  gather_received_bytes = 0;
  allgather_sent_bytes = 0;
  allgather_received_bytes = 0;
  reduce_root_bytes = 0;
  reduce_not_root_bytes = 0;
  allreduce_bytes = 0;
}

-- An `int` where an `unsigned long long` is wanted.
abbrev pub widen : ℕ → ℕ
widen n = if ltb (n % 2 ^ 32) (2 ^ 31) then n % 2 ^ 32 else n % 2 ^ 32 + (2 ^ 64 - 2 ^ 32)

abbrev pub bytes_of : MpiCall → ℕ
bytes_of call = widen (call.size * call.datatype)

-- The products of the collective calls.
abbrev pub recv_bytes_of : MpiCall → ℕ
recv_bytes_of call = widen (call.opt_recvsize * call.opt_recvdatatype * call.comm_size)

unfoldable pub add_received : (source bytes : ℕ) → OrderedMap (ℕ × ℕ) → OrderedMap (ℕ × ℕ)
add_received source bytes m = elim (OrderedMap.find source m) [
  | none ↦ OrderedMap.insert source (bytes, 1) m
  | some (first, second) ↦ OrderedMap.assign source (add64 first bytes, add64 second 1) m
]

unfoldable pub update_received_matrix : (source bytes : ℕ) → MpiData → MpiData
update_received_matrix source bytes st = record st {
  matrix_received = add_received source bytes st.matrix_received;
}

-- `list_type`: 1 for a receive, 2 for a send, and all else for other calls.
unfoldable pub update_async_req_list :
    (inst : ℕ) → MpiCall → (list_type bytes : ℕ) → MpiData → MpiData
update_async_req_list inst call list_type bytes st =
    let info : MpiInfo = record {
      inst = inst;
      msg_size = bytes;
      tag = call.tag;
      comm = call.comm;
      id_s = 0;
      id_r = 0;
      real_addr = call.req_data.req_addr;
    } in
    if list_type == 1
    then record st {
      async_recv = st.async_recv ++ record info { id_s = call.other; id_r = st.processor_id } ∷ [];
    }
    else if list_type == 2
    then record st {
      async_send = st.async_send ++ record info { id_s = st.processor_id; id_r = call.other } ∷ [];
    }
    else record st { async_other = st.async_other ++ info ∷ [] }

-- The request that `getAsync...` finds, and the list after `erase`.
unfoldable pub take_async : ℕ → List MpiInfo → Option (MpiInfo × List MpiInfo)
take_async req_addr [] = none
take_async req_addr (info ∷ infos) =
    if info.real_addr == req_addr then some (info, infos) else elim (take_async req_addr infos) [
      | none ↦ none
      | some (found, rest) ↦ some (found, info ∷ rest)
    ]

-- `mpi.source == -1`.
abbrev pub no_source : ℕ
no_source = 2 ^ 32 - 1

-- `none`: the assertion fails.
unfoldable pub handle_request_completion : MpiRequestData → MpiData → Option MpiData
handle_request_completion mpi st = elim (take_async mpi.req_addr st.async_send) [
  | some (info, rest) ↦ some (record st {
    sent_bytes = add64 st.sent_bytes info.msg_size;
    total_sent_messages = add64 st.total_sent_messages 1;
    async_send = rest;
  })
  | none ↦ elim (take_async mpi.req_addr st.async_recv) [
    | some (info, rest) ↦ some (record (update_received_matrix mpi.source info.msg_size st) {
      received_bytes = add64 st.received_bytes info.msg_size;
      total_received_messages = add64 st.total_received_messages 1;
      async_recv = rest;
    })
    | none ↦ elim (take_async mpi.req_addr st.async_other) [
      | some (_, rest) ↦ some (record st { async_other = rest })
      | none ↦ if mpi.source == no_source then some st else none
    ]
  ]
]

-- The loop over the requests of `MPI_Waitall` and `MPI_Testall`.
unfoldable pub handle_all : List MpiRequestData → MpiData → Option MpiData
handle_all [] st = some st
handle_all (mpi ∷ reqs) st = elim (handle_request_completion mpi st) [
  | none ↦ none
  | some st' ↦ handle_all reqs st'
]

-- The loop of `MPI_Alltoallv` over the ranks.
unfoldable pub exchange_all : List (ℕ × ℕ) → MpiCall → MpiData → MpiData
exchange_all [] call st = st
exchange_all ((size, opt_recvsize) ∷ sizes) call st = exchange_all sizes call (record st {
  alltoall_sent_bytes = add64 st.alltoall_sent_bytes (widen (size * call.datatype));
  alltoall_received_bytes =
      add64 st.alltoall_received_bytes (widen (opt_recvsize * call.opt_recvdatatype));
})

-- The assignments of the collective calls, which their non-blocking forms share.
unfoldable pub bcast : MpiCall → MpiData → MpiData
bcast call st =
    if call.root == st.processor_id
    then record st { bcast_sent_bytes = add64 st.bcast_sent_bytes (bytes_of call) }
    else record st { bcast_received_bytes = add64 st.bcast_received_bytes (bytes_of call) }

unfoldable pub alltoall : MpiCall → MpiData → MpiData
alltoall call st = record st {
  alltoall_sent_bytes =
      add64 st.alltoall_sent_bytes (widen (call.size * call.datatype * call.comm_size));
  alltoall_received_bytes = add64 st.alltoall_received_bytes (recv_bytes_of call);
}

unfoldable pub gather : MpiCall → MpiData → MpiData
gather call st =
    let st' = record st { gather_sent_bytes = add64 st.gather_sent_bytes (bytes_of call) } in
    if call.root == st.processor_id
    then record st' { gather_received_bytes = add64 st.gather_received_bytes (recv_bytes_of call) }
    else st'

unfoldable pub allgather : MpiCall → MpiData → MpiData
allgather call st = record st {
  allgather_sent_bytes = add64 st.allgather_sent_bytes (bytes_of call);
  allgather_received_bytes = add64 st.allgather_received_bytes (recv_bytes_of call);
}

unfoldable pub reduce : MpiCall → MpiData → MpiData
reduce call st =
    if call.root == st.processor_id
    then record st { reduce_root_bytes = add64 st.reduce_root_bytes (bytes_of call) }
    else record st { reduce_not_root_bytes = add64 st.reduce_not_root_bytes (bytes_of call) }

unfoldable pub allreduce : MpiCall → MpiData → MpiData
allreduce call st = record st { allreduce_bytes = add64 st.allreduce_bytes (bytes_of call) }

-- `updateAsyncReqList(I, msg, -1, 0)`.
abbrev pub remember_other : (inst : ℕ) → MpiCall → MpiData → MpiData
remember_other inst call st = update_async_req_list inst call (2 ^ 32 - 1) 0 st

-- The handler, with the transfer type that `name2type` gives.
unfoldable pub visit : MpiTransferType → (inst : ℕ) → MpiCall → MpiData → Option MpiData
visit mpi_send inst call st = some (record st {
  sent_bytes = add64 st.sent_bytes (bytes_of call);
  total_sent_messages = add64 st.total_sent_messages 1;
})
visit mpi_recv inst call st = some (record (update_received_matrix call.other (bytes_of call) st) {
  received_bytes = add64 st.received_bytes (bytes_of call);
  total_received_messages = add64 st.total_received_messages 1;
})
visit mpi_isend inst call st = some (update_async_req_list inst call 2 (bytes_of call) st)
visit mpi_irecv inst call st = some (update_async_req_list inst call 1 (bytes_of call) st)
visit mpi_bcast inst call st = some (bcast call st)
visit mpi_ibcast inst call st = some (remember_other inst call (bcast call st))
visit mpi_alltoallv inst call st = some (exchange_all call.sizes call st)
visit mpi_alltoall inst call st = some (alltoall call st)
visit mpi_ialltoall inst call st = some (remember_other inst call (alltoall call st))
visit mpi_gather inst call st = some (gather call st)
visit mpi_igather inst call st = some (remember_other inst call (gather call st))
visit mpi_allgather inst call st = some (allgather call st)
visit mpi_iallgather inst call st = some (remember_other inst call (allgather call st))
visit mpi_reduce inst call st = some (reduce call st)
visit mpi_ireduce inst call st = some (remember_other inst call (reduce call st))
visit mpi_allreduce inst call st = some (allreduce call st)
visit mpi_iallreduce inst call st = some (remember_other inst call (allreduce call st))
visit mpi_wait inst call st = handle_request_completion call.req_data st
visit mpi_test inst call st =
    if call.flag == 0 then some st else handle_request_completion call.req_data st
visit mpi_waitall inst call st = handle_all call.reqs st
visit mpi_testall inst call st = if call.flag == 0 then some st else handle_all call.reqs st
visit mpi_other inst call st = some st
