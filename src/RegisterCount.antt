-- ===== src/RegisterCount.antt =====
-- library/RegisterCount.cc. A value is the number that its address is; of an operand, LLVM tells
-- whether it is a constant.
pub mod Report
use ibm_pisa.Base.{
  ℕ, ◌+◌, Bool, true, false, Option, none, some, List, [], ◌∷◌, add64, if◌then◌else◌,
}
use ibm_pisa.OrderedMap.{OrderedMap}
use ibm_pisa.OrderedMap

pub record Operand : Type 0 where
  pub value : ℕ
  pub is_constant : Bool

pub record Instruction : Type 0 where
  pub value : ℕ
  pub operands : List Operand

pub record RegisterCount : Type 0 where
  pub count_r : ℕ
  pub rc_writes : OrderedMap ℕ
  pub rc_reads : OrderedMap ℕ

unfoldable pub init : RegisterCount
init = record { count_r = 0; rc_writes = []; rc_reads = [] }

-- `find(v) != end()`.
abbrev pub has : ℕ → OrderedMap ℕ → Bool
has v m = elim (OrderedMap.find v m) [ none ↦ false | some _ ↦ true ]

unfoldable pub count_write : ℕ → OrderedMap ℕ → OrderedMap ℕ
count_write v m = elim (OrderedMap.find v m) [
  | none ↦ OrderedMap.insert v 1 m
  | some n ↦ OrderedMap.assign v (add64 n 1) m
]

unfoldable pub read_operand : Operand → RegisterCount → RegisterCount
read_operand o st = if o.is_constant then st else record st {
  count_r = add64 st.count_r 1;
  rc_reads = OrderedMap.insert o.value 0 st.rc_reads;
}

-- The loop over the operands.
unfoldable pub read_operands : List Operand → RegisterCount → RegisterCount
read_operands [] st = st
read_operands (o ∷ os) st = read_operands os (read_operand o st)

unfoldable pub visit : Instruction → RegisterCount → RegisterCount
visit inst st =
    read_operands inst.operands (record st { rc_writes = count_write inst.value st.rc_writes })

unfoldable pub run_visits : List Instruction → RegisterCount → RegisterCount
run_visits [] st = st
run_visits (inst ∷ insts) st = run_visits insts (visit inst st)

-- The loop of `JSONdump`.
unfoldable pub count_w : OrderedMap ℕ → OrderedMap ℕ → ℕ
count_w reads [] = 0
count_w reads ((v, n) ∷ writes) =
    let rest = count_w reads writes in if has v reads then add64 n rest else rest

-- The two numbers that `JSONdump` prints: reads and writes.
unfoldable pub json_dump : RegisterCount → ℕ × ℕ
unfolding count_w
json_dump st = (st.count_r, count_w st.rc_reads st.rc_writes)
