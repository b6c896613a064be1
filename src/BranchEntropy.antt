-- ===== src/BranchEntropy.antt =====
-- library/BranchEntropy.cc. Texts are lists of characters; `to_string` of the standard library and the
-- settings of the analysis are parameters. A number of C type `int` is a 32-bit pattern. The places
-- of instructions, which `getInstructionIDs` looks up, stand in the instructions. The lock is not
-- modelled.
pub mod Trace
use Prim.Native.Char.{code}
use Prim.Native.String.{String}
use ibm_pisa.Base.{
  ℕ, ◌+◌, ◌-◌, ◌%◌, ◌^◌, Bool, true, false, not, ◌&&◌, Option, none, some, List, [], ◌∷◌, ◌++◌, ltb,
  length, ◌==◌, if◌then◌else◌,
}

abbrev pub codes : String → List ℕ
codes String.[] = []
codes (String.◌∷◌ c s) = code c ∷ codes s

-- What `getInstructionIDs` gives.
pub record Place : Type 0 where
  pub f : ℕ
  pub bb : ℕ
  pub i : ℕ

pub record Branch : Type 0 where
  pub place : Place
  pub num_successors : ℕ
  pub successor0 : ℕ
  pub successor1 : ℕ

-- The instructions that the handler tells apart; of a call, whether it has a callee without a body.
pub data Operation : Type 0 where
  br : Branch → Operation
  ret : Place → Operation
  call : Place → (external : Bool) → Operation
  other : Operation

-- An instruction and its basic block.
pub record Instruction : Type 0 where
  pub operation : Operation
  pub parent : ℕ

pub record Settings : Type 0 where
  pub to_string : ℕ → List ℕ
  pub thread_id : ℕ
  pub processor_id : ℕ
  pub only_cond : Bool
  pub shard_files : Bool

abbrev pub max_file_entries : ℕ
max_file_entries = 100000

abbrev pub max_buffer_size : ℕ
max_buffer_size = 8192

-- `files`: what each output file holds, the current one first.
pub record BranchEntropy : Type 0 where
  pub prev_b : Option Branch
  pub buffer : List ℕ
  pub files : List (List ℕ)
  pub current_file_entries : ℕ
  pub shard : ℕ

abbrev pub write : List ℕ → List (List ℕ) → List (List ℕ)
write text [] = text ∷ []
write text (file ∷ files) = (file ++ text) ∷ files

module _ (s : Settings) where
  -- `thread_id` and `processor_id` end every line.
  abbrev pub ending : List ℕ → List ℕ
  ending separator =
      s.to_string s.thread_id ++ (codes " " ++ (s.to_string s.processor_id ++ separator))

  abbrev pub switch_line : List ℕ
  switch_line = codes "switch instruction identified in " ++ ending (codes "\n")

  -- A line for an instruction: its tag, its place and its outcome.
  abbrev pub line : String → Place → ℕ → List ℕ
  line tag p state =
      codes tag
      ++ (s.to_string p.f
          ++ (codes " "
              ++ (s.to_string p.bb
                  ++ (codes " "
                      ++ (s.to_string p.i
                          ++ (codes " "
                              ++ (s.to_string state ++ (codes " " ++ ending (codes "\n")))))))))

  -- `buffer_ += ...`, and the part under `if (shard_files_)`.
  unfoldable pub emit : List ℕ → BranchEntropy → BranchEntropy
  emit text st =
      let st' = record st { buffer = st.buffer ++ text } in
      let entries = st.current_file_entries + 1 in
      if s.shard_files
      then (if entries % max_file_entries == 0
          then record st' { current_file_entries = 0; shard = st.shard + 1; files = [] ∷ st.files }
          else record st' { current_file_entries = entries })
      else st'

  -- Which successor of the branch is the block of the next instruction.
  abbrev pub state_of : Branch → ℕ → ℕ
  state_of b current =
      if current == b.successor0 then 1 else if current == b.successor1 then 0 else 2 ^ 32 - 1

  -- The part under `if (prevB)`.
  unfoldable pub finish_branch : ℕ → BranchEntropy → BranchEntropy
  unfolding emit
  finish_branch current st = elim st.prev_b [
    | none ↦ st
    | some b ↦
        record (if ltb 2 b.num_successors
          then emit switch_line st
          else if not s.only_cond && ltb b.num_successors 2
          then emit (line "ub " b.place 1) st
          else if b.num_successors == 2
          then emit (line "cb " b.place (state_of b current)) st
          else st) { prev_b = none }
  ]

  unfoldable pub trace : Operation → BranchEntropy → BranchEntropy
  unfolding emit
  trace (br b) st = st
  trace (ret p) st = if s.only_cond then st else emit (line "rint " p 1) st
  trace (call p external) st =
      let st' = emit (line "call " p 1) st in
      if s.only_cond then st else if external then emit (line "rext " p 1) st' else st'
  trace other st = st

  -- The end of the handler.
  unfoldable pub flush : BranchEntropy → BranchEntropy
  flush st =
      if ltb (length st.buffer) max_buffer_size
      then st
      else record st { files = write st.buffer st.files; buffer = [] }

  abbrev pub follow : Operation → ℕ → BranchEntropy → BranchEntropy
  follow (br b) current st = record st { prev_b = some b }
  follow (ret p) current st = trace (ret p) (finish_branch current st)
  follow (call p e) current st = trace (call p e) (finish_branch current st)
  follow other current st = trace other (finish_branch current st)

  unfoldable pub visit : Instruction → BranchEntropy → BranchEntropy
  visit inst st = flush (follow inst.operation inst.parent st)

  unfoldable pub run_visits : List Instruction → BranchEntropy → BranchEntropy
  run_visits [] st = st
  run_visits (inst ∷ insts) st = run_visits insts (visit inst st)

-- The destructor writes what is left in the buffer.
abbrev pub close : BranchEntropy → List (List ℕ)
close st = write st.buffer st.files
