-- ===== src/MpiData/Matrix.antt =====
-- The communication vector: what each process sent to this one, and the totals.
use ibm_pisa.Base.{
  ℕ, ◌≡◌, refl, Option, none, some, List, [], ◌∷◌, arith, Bool-cases, Option-cases, inl, inr, add64,
  ◌==◌,
}
use ibm_pisa.OrderedMap.{OrderedMap, find, insert, assign}
use ibm_pisa.MpiData.{
  MpiTransferType, MpiRequestData, MpiCall, MpiData, add_received, update_received_matrix, bytes_of,
  no_source, update_async_req_list, take_async, handle_request_completion, handle_all, exchange_all,
  bcast, alltoall, gather, allgather, reduce, allreduce, visit, mpi_send, mpi_recv, mpi_isend,
  mpi_irecv, mpi_bcast, mpi_ibcast, mpi_alltoallv, mpi_alltoall, mpi_ialltoall, mpi_gather,
  mpi_igather, mpi_allgather, mpi_iallgather, mpi_reduce, mpi_ireduce, mpi_allreduce,
  mpi_iallreduce, mpi_wait, mpi_test, mpi_waitall, mpi_testall, mpi_other,
}

-- The sums of the two columns, in 64 bits.
abbrev pub matrix_bytes : OrderedMap (ℕ × ℕ) → ℕ
matrix_bytes [] = 0
matrix_bytes ((_, (bytes, _)) ∷ m) = add64 bytes (matrix_bytes m)

abbrev pub matrix_messages : OrderedMap (ℕ × ℕ) → ℕ
matrix_messages [] = 0
matrix_messages ((_, (_, messages)) ∷ m) = add64 messages (matrix_messages m)

insert-sums :
    (k b c : ℕ) (m : OrderedMap (ℕ × ℕ))
    → find k m ≡ none
    → (matrix_bytes (insert k (b, c) m) ≡ add64 (matrix_bytes m) b)
      × (matrix_messages (insert k (b, c) m) ≡ add64 (matrix_messages m) c)
unfolding find insert
insert-sums k b c [] h = (omega arith, omega arith)
insert-sums k b c ((j, (w, x)) ∷ m) h = ground (arith, insert-sums k b c m)

assign-sums :
    (k b v x : ℕ) (m : OrderedMap (ℕ × ℕ))
    → find k m ≡ some (v, x)
    → (matrix_bytes (assign k (add64 v b, add64 x 1) m) ≡ add64 (matrix_bytes m) b)
      × (matrix_messages (assign k (add64 v b, add64 x 1) m) ≡ add64 (matrix_messages m) 1)
unfolding find assign
assign-sums k b v x [] h = absurd (ground arith)
assign-sums k b v x ((j, (w, y)) ∷ m) h = ground (arith, assign-sums k b v x m)

-- The totals of received bytes and messages are the sums over the senders, in 64 bits.
pub record IsBalanced (st : MpiData) : Type 0 where
  pub bytes : st.received_bytes ≡ matrix_bytes st.matrix_received
  pub messages : st.total_received_messages ≡ matrix_messages st.matrix_received

add_received-sums :
    (source b : ℕ) (m : OrderedMap (ℕ × ℕ))
    → (matrix_bytes (add_received source b m) ≡ add64 (matrix_bytes m) b)
      × (matrix_messages (add_received source b m) ≡ add64 (matrix_messages m) 1)
unfolding add_received
add_received-sums source b m = elim (Option-cases (find source m)) [
  | inl e ↦ rw (add_received, e) (insert-sums source b 1 m e)
  | inr ((v, x), e) ↦ rw (add_received, e) (assign-sums source b v x m e)
]

-- The predicate holds of the result, if there is one.
abbrev pub OnSome : (MpiData → Type 0) → Option MpiData → Type 0
OnSome P none = Unit
OnSome P (some st) = P st

keep :
    (st st' : MpiData)
    → IsBalanced st
    → st'.received_bytes ≡ st.received_bytes
    → st'.total_received_messages ≡ st.total_received_messages
    → st'.matrix_received ≡ st.matrix_received
    → IsBalanced st'
keep st st' h b m x = record { bytes = rw (b, x) h.bytes; messages = rw (m, x) h.messages }

-- A received message counts in the total and in the vector.
receive-IsBalanced :
    (source b : ℕ) (st st' : MpiData)
    → IsBalanced st
    → st'.received_bytes ≡ add64 st.received_bytes b
    → st'.total_received_messages ≡ add64 st.total_received_messages 1
    → st'.matrix_received ≡ add_received source b st.matrix_received
    → IsBalanced st'
receive-IsBalanced source b st st' h e f g =
    let (sum, count) = add_received-sums source b st.matrix_received in
    record { bytes = rw (e, g, sum, h.bytes); messages = rw (f, g, count, h.messages) }

handle-IsBalanced :
    (mpi : MpiRequestData) (st : MpiData)
    → IsBalanced st
    → OnSome IsBalanced (handle_request_completion mpi st)
unfolding handle_request_completion update_received_matrix
handle-IsBalanced mpi st h = elim (Option-cases (take_async mpi.req_addr st.async_send)) [
  | inr ((info, rest), e) ↦ rw (OnSome, handle_request_completion, e) (keep st _ h refl refl refl)
  | inl e ↦ elim (Option-cases (take_async mpi.req_addr st.async_recv)) [
    | inr ((info, rest), f) ↦
        rw (OnSome, handle_request_completion, e, f)
          (receive-IsBalanced mpi.source info.msg_size st _ h refl refl refl)
    | inl f ↦ elim (Option-cases (take_async mpi.req_addr st.async_other)) [
      | inr ((info, rest), g) ↦
          rw (OnSome, handle_request_completion, e, f, g) (keep st _ h refl refl refl)
      | inl g ↦ elim (Bool-cases (mpi.source == no_source)) [
        | inl i ↦ rw (OnSome, handle_request_completion, e, f, g, i) h
        | inr i ↦ rw (OnSome, handle_request_completion, e, f, g, i) tt
      ]
    ]
  ]
]

handle_All-IsBalanced :
    (reqs : List MpiRequestData) (st : MpiData)
    → IsBalanced st
    → OnSome IsBalanced (handle_all reqs st)
unfolding handle_all
handle_All-IsBalanced [] st h = h
handle_All-IsBalanced (mpi ∷ reqs) st h =
    next (λ st' g. handle_All-IsBalanced reqs st' g) (handle_request_completion mpi st)
      (handle-IsBalanced mpi st h)
  where
    next :
        ((st' : MpiData) → IsBalanced st' → OnSome IsBalanced (handle_all reqs st'))
        → (o : Option MpiData) → OnSome IsBalanced o
        → OnSome IsBalanced (elim o [ none ↦ none | some st' ↦ handle_all reqs st' ])
    next f none g = tt
    next f (some st') g = f st' g

exchange_All-IsBalanced :
    (sizes : List (ℕ × ℕ)) (call : MpiCall) (st : MpiData)
    → IsBalanced st
    → IsBalanced (exchange_all sizes call st)
unfolding exchange_all
exchange_All-IsBalanced [] call st h = h
exchange_All-IsBalanced ((s, r) ∷ sizes) call st h =
    exchange_All-IsBalanced sizes call _ (keep st _ h refl refl refl)

bcast-IsBalanced : (call : MpiCall) (st : MpiData) → IsBalanced st → IsBalanced (bcast call st)
unfolding bcast
bcast-IsBalanced call st h = elim (Bool-cases (call.root == st.processor_id)) [
  | inl e ↦ rw e (keep st _ h refl refl refl)
  | inr e ↦ rw e (keep st _ h refl refl refl)
]

gather-IsBalanced : (call : MpiCall) (st : MpiData) → IsBalanced st → IsBalanced (gather call st)
unfolding gather
gather-IsBalanced call st h = elim (Bool-cases (call.root == st.processor_id)) [
  | inl e ↦ rw e (keep st _ h refl refl refl)
  | inr e ↦ rw e (keep st _ h refl refl refl)
]

reduce-IsBalanced : (call : MpiCall) (st : MpiData) → IsBalanced st → IsBalanced (reduce call st)
unfolding reduce
reduce-IsBalanced call st h = elim (Bool-cases (call.root == st.processor_id)) [
  | inl e ↦ rw e (keep st _ h refl refl refl)
  | inr e ↦ rw e (keep st _ h refl refl refl)
]

-- If the totals of received bytes and received messages are the sums over the senders in the
-- communication vector, as `unsigned long long`, they are so after every visit that does not fail,
-- whatever the transfer type.
pub visit-IsBalanced :
    (type : MpiTransferType) (inst : ℕ) (call : MpiCall) (st : MpiData)
    → IsBalanced st
    → OnSome IsBalanced (visit type inst call st)
unfolding visit update_received_matrix update_async_req_list alltoall allgather allreduce
visit-IsBalanced mpi_send inst call st h = keep st _ h refl refl refl
visit-IsBalanced mpi_recv inst call st h =
    receive-IsBalanced call.other (bytes_of call) st _ h refl refl refl
visit-IsBalanced mpi_isend inst call st h = keep st _ h refl refl refl
visit-IsBalanced mpi_irecv inst call st h = keep st _ h refl refl refl
visit-IsBalanced mpi_bcast inst call st h = bcast-IsBalanced call st h
visit-IsBalanced mpi_ibcast inst call st h =
    keep (bcast call st) _ (bcast-IsBalanced call st h) refl refl refl
visit-IsBalanced mpi_alltoallv inst call st h = exchange_All-IsBalanced call.sizes call st h
visit-IsBalanced mpi_alltoall inst call st h = keep st _ h refl refl refl
visit-IsBalanced mpi_ialltoall inst call st h = keep st _ h refl refl refl
visit-IsBalanced mpi_gather inst call st h = gather-IsBalanced call st h
visit-IsBalanced mpi_igather inst call st h =
    keep (gather call st) _ (gather-IsBalanced call st h) refl refl refl
visit-IsBalanced mpi_allgather inst call st h = keep st _ h refl refl refl
visit-IsBalanced mpi_iallgather inst call st h = keep st _ h refl refl refl
visit-IsBalanced mpi_reduce inst call st h = reduce-IsBalanced call st h
visit-IsBalanced mpi_ireduce inst call st h =
    keep (reduce call st) _ (reduce-IsBalanced call st h) refl refl refl
visit-IsBalanced mpi_allreduce inst call st h = keep st _ h refl refl refl
visit-IsBalanced mpi_iallreduce inst call st h = keep st _ h refl refl refl
visit-IsBalanced mpi_wait inst call st h = handle-IsBalanced call.req_data st h
visit-IsBalanced mpi_test inst call st h = elim (Bool-cases (call.flag == 0)) [
  | inl e ↦ rw e h
  | inr e ↦ rw e (handle-IsBalanced call.req_data st h)
]
visit-IsBalanced mpi_waitall inst call st h = handle_All-IsBalanced call.reqs st h
visit-IsBalanced mpi_testall inst call st h = elim (Bool-cases (call.flag == 0)) [
  | inl e ↦ rw e h
  | inr e ↦ rw e (handle_All-IsBalanced call.reqs st h)
]
visit-IsBalanced mpi_other inst call st h = h
