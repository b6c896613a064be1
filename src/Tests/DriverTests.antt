-- ===== src/Tests/DriverTests.antt =====
-- A run of `WKLDchar::analyze` of library/WKLDchar.cc.
use ibm_pisa.Base.{ℕ, ◌≡◌, refl, arith, false, none, some, List, [], ◌∷◌}
use ibm_pisa.Splay.{nil}
use ibm_pisa.Instructions.{Opcode, add, phi, integer_ty}
use ibm_pisa.Ilp.Operands.{other_form}
use ibm_pisa.Ilp.Visit.{Options, initial}
use ibm_pisa.InstructionMix.{init}
use ibm_pisa.BranchEntropy
use ibm_pisa.ExternalLibraryCount
use ibm_pisa.Reuse.Inst.{InstTempReuse, memory_access}
use ibm_pisa.Reuse.Represents.{empty-Represents}
use ibm_pisa.Reuse.InstDistance.{Refines, stack_after, distribution_after}
use ibm_pisa.Wkldchar.{Event, Settings, Wkldchar, run_analyze}
use ibm_pisa.Wkldchar.InstReuse.{numbered, run_analyze-Refines}
use ibm_pisa.Tests.MixTests.{type_id}

abbrev options : Options
options = record { window_size = 0; analyze_ilp_ignore_ctrl = false; analyze_ilp_ctrl = false }

abbrev settings : Settings
settings = record {
  branches = record {
    to_string = λ n. n ∷ [];
    thread_id = 0;
    processor_id = 0;
    only_cond = false;
    shard_files = false;
  };
  less = λ a b. false;
}

-- An addition, or a phi instruction, at an address.
abbrev event : Opcode → ℕ → Event
event op a = record {
  address = a;
  typed = record {
    opcode = op;
    pointee = integer_ty 32;
    operand0 = integer_ty 32;
    operand1 = integer_ty 32;
    operand2 = integer_ty 32;
    num_operands = 2;
    result = integer_ty 32;
  };
  operands = record { address = a; parent = 1; pointee = integer_ty 32; form = other_form op [] };
  registers = record { value = a; operands = [] };
  branch = record { operation = BranchEntropy.other; parent = 1 };
  callee = none;
  library_call = ExternalLibraryCount.other;
  size = 0;
  memory_address = 0;
}

abbrev events : List Event
events = event phi 7 ∷ event add 8 ∷ event phi 7 ∷ event add 8 ∷ []

abbrev reuse : InstTempReuse
reuse = record {
  cache_line_size = 0;
  inst_size = 4;
  instructions_index = [];
  last_memory_access = [];
  distance_tree = nil;
  distance_distribution = [];
}

abbrev start : Wkldchar
start = record {
  ilp = some initial;
  mix = init;
  dtr = none;
  itr = some reuse;
  rc = none;
  be = none;
  mpi_stats = none;
  openmp_stats = none;
  elc = none;
}

own_line : (i : ℕ) → memory_access reuse i ≡ some i
unfolding memory_access
own_line i = refl

driver_example :
    (st' : Wkldchar) × (it' : InstTempReuse) × (run_analyze options type_id settings events start
      ≡ some st')
    × (st'.itr ≡ some it')
    × Refines (stack_after (λ i. i) (numbered start.mix.num_total_insts events) []) it'
    × (it'.distance_distribution
        ≡ distribution_after
            (λ i. i)
            (numbered start.mix.num_total_insts events)
            []
            reuse.distance_distribution)
unfolding init
driver_example =
    run_analyze-Refines options type_id settings (λ i. i) events [] start reuse refl
      empty-Represents tt (omega arith) (own_line 8, (own_line 8, tt))
