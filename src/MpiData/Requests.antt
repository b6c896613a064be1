-- ===== src/MpiData/Requests.antt =====
-- Requests of non-blocking calls: from the call that starts them to the call that completes them.
use ibm_pisa.Base.{
  ℕ, All, ◌≡◌, ◌≢◌, ◌↔◌, refl, true, none, some, List, [], ◌∷◌, ◌++◌, arith, add64, ◌==◌, ==_refl,
}
use ibm_pisa.MpiData.{
  MpiRequestData, MpiInfo, MpiCall, MpiData, add_received, update_received_matrix, bytes_of,
  no_source, update_async_req_list, take_async, handle_request_completion, visit, mpi_isend,
  mpi_irecv, mpi_wait,
}

-- No pending request of the list has the address.
abbrev pub IsFree : ℕ → List MpiInfo → Type 0
IsFree a = All (λ info. info.real_addr ≢ a)

take_async-IsFree : (a : ℕ) (infos : List MpiInfo) → (take_async a infos ≡ none) ↔ IsFree a infos
unfolding take_async
take_async-IsFree a [] = (λ _. tt, λ _. refl)
take_async-IsFree a (i ∷ infos) = ground (arith, take_async-IsFree a infos)

-- A request that was added last is found if its address was free, and taking it out leaves the rest.
take_async-append :
    (a : ℕ) (infos : List MpiInfo) (info : MpiInfo)
    → take_async a infos ≡ none
    → (info.real_addr == a) ≡ true
    → take_async a (infos ++ info ∷ []) ≡ some (info, infos)
unfolding take_async
take_async-append a [] info h e = rw e
take_async-append a (i ∷ infos) info h e = ground (arith, take_async-append a infos info)

complete_send :
    (mpi : MpiRequestData) (st : MpiData) (info : MpiInfo) (rest : List MpiInfo)
    → take_async mpi.req_addr st.async_send ≡ some (info, rest)
    → handle_request_completion mpi st
      ≡ some (record st {
        sent_bytes = add64 st.sent_bytes info.msg_size;
        total_sent_messages = add64 st.total_sent_messages 1;
        async_send = rest;
      })
unfolding handle_request_completion
complete_send mpi st info rest e = rw (handle_request_completion, e)

complete_recv :
    (mpi : MpiRequestData) (st : MpiData) (info : MpiInfo) (rest : List MpiInfo)
    → take_async mpi.req_addr st.async_send ≡ none
    → take_async mpi.req_addr st.async_recv ≡ some (info, rest)
    → handle_request_completion mpi st
      ≡ some (record st {
        received_bytes = add64 st.received_bytes info.msg_size;
        total_received_messages = add64 st.total_received_messages 1;
        matrix_received = add_received mpi.source info.msg_size st.matrix_received;
        async_recv = rest;
      })
unfolding handle_request_completion update_received_matrix
complete_recv mpi st info rest e f = rw (handle_request_completion, e, f)

-- If no pending send has the address of the request, a non-blocking send followed by a wait for
-- that address counts one sent message, with the bytes of the send, and changes nothing else.
pub isend_then_wait :
    (inst inst' : ℕ) (call wait : MpiCall) (st : MpiData)
    → IsFree call.req_data.req_addr st.async_send
    → wait.req_data.req_addr ≡ call.req_data.req_addr
    → (st' : MpiData) × (visit mpi_isend inst call st ≡ some st')
      × (visit mpi_wait inst' wait st'
          ≡ some (record st {
            sent_bytes = add64 st.sent_bytes (bytes_of call);
            total_sent_messages = add64 st.total_sent_messages 1;
          }))
unfolding visit update_async_req_list
isend_then_wait inst inst' call wait st free same =
    let none_sent = (take_async-IsFree call.req_data.req_addr st.async_send).1 free in
    let info : MpiInfo = record {
      inst = inst;
      msg_size = bytes_of call;
      tag = call.tag;
      comm = call.comm;
      id_s = st.processor_id;
      id_r = call.other;
      real_addr = call.req_data.req_addr;
    } in
    let st' : MpiData = update_async_req_list inst call 2 (bytes_of call) st in
    (
      st',
      refl,
      complete_send wait.req_data st' info st.async_send (
          rw same (
            take_async-append call.req_data.req_addr st.async_send info none_sent
              (==_refl call.req_data.req_addr))),
    )

-- If no pending send and no pending receive has the address of the request, a non-blocking receive
-- followed by a wait for that address counts one received message with the bytes of the receive,
-- in the totals and for the source that the wait reports, and changes nothing else.
irecv_then_wait :
    (inst inst' : ℕ) (call wait : MpiCall) (st : MpiData)
    → IsFree call.req_data.req_addr st.async_send
    → IsFree call.req_data.req_addr st.async_recv
    → wait.req_data.req_addr ≡ call.req_data.req_addr
    → (st' : MpiData) × (visit mpi_irecv inst call st ≡ some st')
      × (visit mpi_wait inst' wait st'
          ≡ some (record st {
            received_bytes = add64 st.received_bytes (bytes_of call);
            total_received_messages = add64 st.total_received_messages 1;
            matrix_received = add_received wait.req_data.source (bytes_of call) st.matrix_received;
          }))
unfolding visit update_async_req_list
irecv_then_wait inst inst' call wait st free free' same =
    let none_sent = (take_async-IsFree call.req_data.req_addr st.async_send).1 free in
    let none_received = (take_async-IsFree call.req_data.req_addr st.async_recv).1 free' in
    let info : MpiInfo = record {
      inst = inst;
      msg_size = bytes_of call;
      tag = call.tag;
      comm = call.comm;
      id_s = call.other;
      id_r = st.processor_id;
      real_addr = call.req_data.req_addr;
    } in
    let st' : MpiData = update_async_req_list inst call 1 (bytes_of call) st in
    (
      st',
      refl,
      complete_recv wait.req_data st' info st.async_recv (rw same none_sent) (
          rw same (
            take_async-append call.req_data.req_addr st.async_recv info none_received
              (==_refl call.req_data.req_addr))),
    )

-- The completion of a request fails its assertion exactly when no pending send, receive or other
-- call has the address of the request and its source is not -1.
pub handle_request_completion-fails :
    (mpi : MpiRequestData) (st : MpiData)
    → (handle_request_completion mpi st ≡ none) ↔ (
        IsFree mpi.req_addr st.async_send
        × IsFree mpi.req_addr st.async_recv
        × IsFree mpi.req_addr st.async_other
        × (mpi.source ≢ no_source))
unfolding handle_request_completion
handle_request_completion-fails mpi st = ground (
  arith,
  take_async-IsFree mpi.req_addr st.async_send,
  take_async-IsFree mpi.req_addr st.async_recv,
  take_async-IsFree mpi.req_addr st.async_other,
)
