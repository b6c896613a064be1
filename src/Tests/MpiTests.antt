-- ===== src/Tests/MpiTests.antt =====
-- library/MPIdata.cc.
use ibm_pisa.Base.{◌≡◌, ◌≢◌, ◌↔◌, refl, none, some, [], add64}
use ibm_pisa.MpiData.{
  MpiCall, MpiData, init, visit, mpi_isend, mpi_irecv, mpi_recv, mpi_wait, mpi_other, bytes_of,
  MpiRequestData, update_async_req_list, take_async, handle_request_completion, no_source,
}
use ibm_pisa.MpiData.Names.{codes, name2type, strip}
use ibm_pisa.MpiData.Matrix.{OnSome, IsBalanced, visit-IsBalanced}
use ibm_pisa.MpiData.Requests.{IsFree, isend_then_wait, handle_request_completion-fails}

-- 10 items of 8 bytes, for the process 3, with a request at the address 64.
abbrev call : MpiCall
call = record {
  other = 3;
  root = 0;
  tag = 1;
  size = 10;
  datatype = 8;
  opt_recvsize = 0;
  opt_recvdatatype = 0;
  comm = 0;
  comm_size = 4;
  flag = 1;
  req_data = record { req_addr = 64; source = 3 };
  reqs = [];
  sizes = [];
}

abbrev start : MpiData
start = init 1

eighty : bytes_of call ≡ 80
eighty = refl

fortran : name2type (strip (codes "mpi_irecv_")) ≡ mpi_irecv
unfolding name2type strip
fortran = refl

-- A call that the table does not name.
unknown : name2type (codes "MPI_Sendrecv") ≡ mpi_other
unfolding name2type
unknown = refl

start-IsBalanced : IsBalanced start
unfolding init
start-IsBalanced = record { bytes = refl; messages = refl }

recv_example : OnSome IsBalanced (visit mpi_recv 0 call start)
recv_example = visit-IsBalanced mpi_recv 0 call start start-IsBalanced

none_sent : IsFree 64 start.async_send
unfolding init
none_sent = tt

isend_example :
    (st' : MpiData) × (visit mpi_isend 0 call start ≡ some st')
    × (visit mpi_wait 1 call st'
        ≡ some (record start {
          sent_bytes = add64 start.sent_bytes (bytes_of call);
          total_sent_messages = add64 start.total_sent_messages 1;
        }))
isend_example = isend_then_wait 0 1 call call start none_sent refl

-- The send at the address 64 is pending.
abbrev sending : MpiData
sending = update_async_req_list 0 call 2 80 start

-- A request at another address, from the process 3.
abbrev unknown_request : MpiRequestData
unknown_request = record { req_addr = 72; source = 3 }

unknown_fails : handle_request_completion unknown_request sending ≡ none
unfolding handle_request_completion take_async update_async_req_list init
unknown_fails = refl

fails_example : (handle_request_completion unknown_request sending ≡ none) ↔ (
    IsFree 72 sending.async_send
    × IsFree 72 sending.async_recv
    × IsFree 72 sending.async_other
    × (3 ≢ no_source))
fails_example = handle_request_completion-fails unknown_request sending
