-- ===== src/MpiData/Names.antt =====
-- `name2type` of library/MPIdata.cc, and the handler from the name of the function that is called.
use Prim.Native.Char.{code}
use Prim.Native.String.{String}
use ibm_pisa.Base.{
  ℕ, ◌+◌, Bool, true, false, ◌&&◌, Option, List, [], ◌∷◌, map, leb, ◌==◌, if◌then◌else◌,
}
use ibm_pisa.MpiData.{
  MpiTransferType, MpiCall, MpiData, visit, mpi_send, mpi_recv, mpi_isend, mpi_irecv, mpi_wait,
  mpi_test, mpi_waitall, mpi_testall, mpi_bcast, mpi_ibcast, mpi_alltoallv, mpi_alltoall,
  mpi_ialltoall, mpi_gather, mpi_igather, mpi_allgather, mpi_iallgather, mpi_reduce, mpi_ireduce,
  mpi_allreduce, mpi_iallreduce, mpi_other,
}

abbrev pub codes : String → List ℕ
codes String.[] = []
codes (String.◌∷◌ c s) = code c ∷ codes s

abbrev to_lower : ℕ → ℕ
to_lower c = if leb b'A' c && leb c b'Z' then c + 32 else c

abbrev same_codes : List ℕ → List ℕ → Bool
same_codes [] [] = true
same_codes (a ∷ xs) (b ∷ ys) = (a == b) && same_codes xs ys
same_codes _ _ = false

-- `!strcasecmp(s, t)`, in the locale of the start of a program.
abbrev equal_ignoring_case : List ℕ → List ℕ → Bool
equal_ignoring_case s t = same_codes (map to_lower s) (map to_lower t)

abbrev pub transfer_names : List (String × MpiTransferType)
transfer_names =
    ("MPI_Send", mpi_send)
    ∷ ("MPI_Recv", mpi_recv)
    ∷ ("MPI_Isend", mpi_isend)
    ∷ ("MPI_Irecv", mpi_irecv)
    ∷ ("MPI_Wait", mpi_wait)
    ∷ ("MPI_Test", mpi_test)
    ∷ ("MPI_Waitall", mpi_waitall)
    ∷ ("MPI_Testall", mpi_testall)
    ∷ ("MPI_Bcast", mpi_bcast)
    ∷ ("MPI_IBcast", mpi_ibcast)
    ∷ ("MPI_Alltoallv", mpi_alltoallv)
    ∷ ("MPI_Alltoall", mpi_alltoall)
    ∷ ("MPI_Ialltoall", mpi_ialltoall)
    ∷ ("MPI_Gather", mpi_gather)
    ∷ ("MPI_Igather", mpi_igather)
    ∷ ("MPI_Allgather", mpi_allgather)
    ∷ ("MPI_Iallgather", mpi_iallgather)
    ∷ ("MPI_Reduce", mpi_reduce)
    ∷ ("MPI_Ireduce", mpi_ireduce)
    ∷ ("MPI_Allreduce", mpi_allreduce)
    ∷ ("MPI_Iallreduce", mpi_iallreduce)
    ∷ []

abbrev match_name : List ℕ → List (String × MpiTransferType) → MpiTransferType
match_name cname [] = mpi_other
match_name cname ((name, type) ∷ table) =
    if equal_ignoring_case cname (codes name) then type else match_name cname table

unfoldable pub name2type : List ℕ → MpiTransferType
name2type cname = match_name cname transfer_names

-- `if (name.back() == '_') name.pop_back()`.
unfoldable pub strip : List ℕ → List ℕ
strip [] = []
strip (c ∷ []) = if c == b'_' then [] else c ∷ []
strip (c ∷ d ∷ cs) = c ∷ strip (d ∷ cs)

unfoldable pub visit_call : List ℕ → (inst : ℕ) → MpiCall → MpiData → Option MpiData
unfolding visit name2type strip
visit_call name inst call st = visit (name2type (strip name)) inst call st
