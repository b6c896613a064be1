-- ===== src/Wkldchar.antt =====
-- `WKLDchar::analyze` of library/WKLDchar.cc: the analyses that one executed instruction goes through,
-- in their order. An analysis that is off is `none`. LoadStoreVerbose, which only prints, is left out.
pub mod InstReuse
use Prim.Native.String.{String}
use ibm_pisa.Base.{ℕ, Bool, true, false, Option, none, some, List, [], ◌∷◌, if◌then◌else◌, ◌||◌}
use ibm_pisa.Instructions.{LlvmType, load, store, phi}
use ibm_pisa.Instructions.Opcodes.{same}
use ibm_pisa.Ilp.Operands.{State, Instruction}
use ibm_pisa.Ilp.Visit.{Options}
use ibm_pisa.Ilp.Visit
use ibm_pisa.InstructionMix.{InstructionMix, TypedInstruction}
use ibm_pisa.InstructionMix.Visits
use ibm_pisa.Reuse.Data.{DataTempReuse}
use ibm_pisa.Reuse.Data
use ibm_pisa.Reuse.Inst.{InstTempReuse}
use ibm_pisa.Reuse.Inst
use ibm_pisa.RegisterCount
use ibm_pisa.BranchEntropy
use ibm_pisa.OpenMp.{OpenMpStats}
use ibm_pisa.OpenMp.Names
use ibm_pisa.MpiStats.{MpiStats}
use ibm_pisa.MpiStats.Names.{visit as count_mpi_call}
use mathlib.Core.Option
use ibm_pisa.BranchEntropy.{codes}
use ibm_pisa.ExternalLibraryCount

-- An executed instruction, as each analysis sees it: `size` and `memory_address` are what LLVM and the
-- run time of the program answer for a load or a store.
pub record Event : Type 0 where
  pub address : ℕ
  pub typed : TypedInstruction
  pub operands : Instruction
  pub registers : RegisterCount.Instruction
  pub branch : BranchEntropy.Instruction
  pub callee : Option String
  pub library_call : ExternalLibraryCount.Instruction
  pub size : ℕ
  pub memory_address : ℕ

pub record Wkldchar : Type 0 where
  pub ilp : Option State
  pub mix : InstructionMix
  pub dtr : Option DataTempReuse
  pub itr : Option InstTempReuse
  pub rc : Option RegisterCount.RegisterCount
  pub be : Option BranchEntropy.BranchEntropy
  pub mpi_stats : Option MpiStats
  pub openmp_stats : Option OpenMpStats
  pub elc : Option ExternalLibraryCount.CallCount

-- The settings of the trace of branches, and the order of `ExternalLibraryCount`.
pub record Settings : Type 0 where
  pub branches : BranchEntropy.Settings
  pub less : String → String → Bool

-- `if (this->analysis) this->analysis->visit(...)`.
abbrev pub if_on {ℓ} : {A : Type ℓ} → (A → A) → Option A → Option A
if_on f none = none
if_on f (some a) = some (f a)

abbrev pub is_phi_event : Event → Bool
is_phi_event e = same e.typed.opcode phi

-- The same for the instruction reuse analysis, which can fail.
abbrev pub if_on_itr :
    (InstTempReuse → Option InstTempReuse) → Option InstTempReuse → Option (Option InstTempReuse)
if_on_itr f none = some none
if_on_itr f (some a) = elim (f a) [ none ↦ none | some b ↦ some (some b) ]

abbrev pub is_memory_event : Event → Bool
is_memory_event e = same e.typed.opcode load || same e.typed.opcode store

abbrev pub after_ilp : Options → Event → Wkldchar → Wkldchar
after_ilp options e st = record st { ilp = if_on (Visit.visit options e.operands) st.ilp }

abbrev pub after_dtr : (LlvmType → ℕ) → Event → Wkldchar → Wkldchar
after_dtr type_id e st =
    let mix = Visits.visit type_id e.typed st.mix in
    let cycle = mix.num_total_insts in
    record st {
      mix = mix;
      dtr = if_on (Data.visit (is_memory_event e) e.size e.memory_address cycle) st.dtr;
    }

abbrev pub after_itr : Settings → Event → Wkldchar → Option InstTempReuse → Wkldchar
after_itr settings e st itr = record st {
  itr = itr;
  rc = if_on (RegisterCount.visit e.registers) st.rc;
  be = if_on (BranchEntropy.visit settings.branches e.branch) st.be;
  mpi_stats = if_on (count_mpi_call (Option.map codes e.callee)) st.mpi_stats;
  openmp_stats = if_on (Names.visit e.callee) st.openmp_stats;
  elc = if_on (ExternalLibraryCount.visit settings.less e.library_call) st.elc;
}

-- What the analyses are set up with: the window and the flags, the numbers of LLVM's types, and the
-- settings of the other analyses.
module _ (options : Options) (type_id : LlvmType → ℕ) (settings : Settings) where
  -- The part that counts the instruction, whose place in the count is its issue cycle for the reuse
  -- analyses.
  unfoldable pub analyze_counted : Event → Wkldchar → Option Wkldchar
  analyze_counted e st =
      let st1 = after_dtr type_id e st in
      elim (if_on_itr (Inst.visit e.address st1.mix.num_total_insts) st1.itr) [
        | none ↦ none
        | some itr ↦ some (after_itr settings e st1 itr)
      ]

  unfoldable pub analyze : Event → Wkldchar → Option Wkldchar
  analyze e st =
      if is_phi_event e
      then some (after_ilp options e st)
      else analyze_counted e (after_ilp options e st)

  -- `process_instr` for each instruction, whose flag `mpi_ignore` the library sets to false and never
  -- to true.
  unfoldable pub run_analyze : List Event → Wkldchar → Option Wkldchar
  run_analyze [] st = some st
  run_analyze (e ∷ events) st = elim (analyze e st) [
    | none ↦ none
    | some st' ↦ run_analyze events st'
  ]
