-- ===== src/Tests/RegisterTests.antt =====
-- library/RegisterCount.cc.
use ibm_pisa.Base.{◌≡◌, refl, false, true, List, [], ◌∷◌, u64}
use ibm_pisa.OrderedMap.{find, insert, assign}
use ibm_pisa.RegisterCount.{
  Instruction, init, count_write, read_operand, read_operands, visit, run_visits, json_dump,
}
use ibm_pisa.RegisterCount.Report.{run_reads, writes_of, is_read, json_dump-run_visits}

-- The instruction 2 reads the value of 1 and a constant; nothing reads the value of 2.
abbrev program : List Instruction
program =
    record { value = 1; operands = [] }
    ∷ record {
      value = 2;
      operands =
          record { value = 1; is_constant = false } ∷ record { value = 9; is_constant = true } ∷ [];
    }
    ∷ record { value = 1; operands = [] }
    ∷ []

one_read_two_writes : json_dump (run_visits program init) ≡ (1, 2)
unfolding json_dump run_visits init visit count_write read_operands read_operand find insert assign
one_read_two_writes = refl

registers_example :
    (u64 (json_dump (run_visits program init)).0 ≡ u64 (run_reads program))
    × ((json_dump (run_visits program init)).1 ≡ u64 (writes_of (λ v. is_read v program) program))
registers_example = json_dump-run_visits program
