-- ===== src/Tests/BranchTests.antt =====
-- library/BranchEntropy.cc, with a `to_string` for one digit.
use ibm_pisa.Base.{◌+◌, ◌≡◌, refl, false, none, List, [], ◌∷◌, ◌++◌}
use ibm_pisa.BranchEntropy.{
  codes, Place, br, ret, other, Instruction, Settings, BranchEntropy, emit, finish_branch, trace,
  flush, visit, run_visits, close,
}
use ibm_pisa.BranchEntropy.Trace.{all_text, written, run_text, run_visits-written}

abbrev settings : Settings
settings = record {
  to_string = λ n. (b'0' + n) ∷ [];
  thread_id = 2;
  processor_id = 1;
  only_cond = false;
  shard_files = false;
}

abbrev place : Place
place = record { f = 4; bb = 5; i = 6 }

abbrev program : List Instruction
program =
    record {
      operation = br (record { place = place; num_successors = 2; successor0 = 7; successor1 = 8 });
      parent = 5;
    }
    ∷ record { operation = other; parent = 8 }
    ∷ record { operation = ret place; parent = 8 }
    ∷ []

abbrev start : BranchEntropy
start = record { prev_b = none; buffer = []; files = []; current_file_entries = 0; shard = 0 }

-- The branch was left to its second successor.
two_lines :
    written (close (run_visits settings program start)) ≡ codes "cb 4 5 6 0 2 1\nrint 4 5 6 1 2 1\n"
unfolding run_visits visit flush trace finish_branch emit
two_lines = refl

trace_run_example :
    written (close (run_visits settings program start))
    ≡ all_text start ++ run_text settings none program
trace_run_example = run_visits-written settings program start
