-- ===== src/Ilp/Visit.antt =====
-- `ILP::visit` and `ILP::updateILPforCall`, without the print of a trace for debugging.
use ibm_pisa.Base.{
  ℕ, Bool, true, false, ◌&&◌, Option, none, some, List, [], ◌∷◌, add64, ltb, ◌==◌, if◌then◌else◌,
}
use ibm_pisa.Instructions.{get_inst_type}
use ibm_pisa.Instructions.Classes.{
  is_of_memory_type, is_of_integer_type, is_of_control_type, is_of_floating_point_type,
}
use ibm_pisa.Ilp.{Kind, memory, integer, control, floating_point, init, max, account, schedule}
use ibm_pisa.Ilp.Operands.{
  Value, TwoValues, State, Instruction, opcode_of, self, sort_of, is_phi, lookup_operand,
  insert_operand_usage,
}
use ibm_pisa.Ilp.Cycle.{get_inst_issue_cycle}

-- `window_size`, and the two bits of `flags` that `visit` tests.
pub record Options : Type 0 where
  pub window_size : ℕ
  pub analyze_ilp_ignore_ctrl : Bool
  pub analyze_ilp_ctrl : Bool

unfoldable pub initial : State
initial = record {
  last_usage_operands = [];
  last_usage_memory = [];
  value_star_count = 0;
  prev_bb = 0;
  min_issue_cycle_for_ctrl = 0;
  totals = init;
  window_cycle = 0;
  window_cycle_in_order = 0;
  scheduler = [];
  scheduler_in_order = [];
}

abbrev pub is_ctrl : Instruction → Bool
is_ctrl i = is_of_control_type (get_inst_type (opcode_of i.form) i.pointee)

-- The chain of `if`s on the four tests.
unfoldable pub kind_of : Instruction → Option Kind
kind_of i =
    let opcode = opcode_of i.form in
    let ty = get_inst_type opcode i.pointee in
    if is_of_memory_type opcode ty
    then some memory
    else if is_of_integer_type ty
    then some integer
    else if is_of_control_type ty
    then some control
    else if is_of_floating_point_type ty
    then some floating_point
    else none

-- With a window, the cycles of the window are the first at which an instruction can issue.
unfoldable pub start_cycle : Options → State → TwoValues
start_cycle options st =
    if options.window_size == 0
    then record { value1 = 0; value2 = 0 }
    else record { value1 = st.window_cycle; value2 = st.window_cycle_in_order }

-- The cycle after `getInstIssueCycle`, not before the in-order instructions that stand earlier.
unfoldable pub in_order : TwoValues → State → TwoValues
in_order c st = record c { value2 = max c.value2 st.totals.max_issue_cycle_in_order }

-- Control instructions one after the other, if the analysis asks for it.
unfoldable pub serialize : Options → Instruction → TwoValues → State → TwoValues × State
serialize options i c st =
    if options.analyze_ilp_ctrl && is_ctrl i
    then (
      record c { value1 = max c.value1 st.min_issue_cycle_for_ctrl },
      record st { min_issue_cycle_for_ctrl = add64 (max c.value1 st.min_issue_cycle_for_ctrl) 1 },
    )
    else (c, st)

-- The part that follows the computation of the cycle.
unfoldable pub finish : Options → Instruction → TwoValues → State → State
finish options i c st =
    let st1 = insert_operand_usage (self i) c false none st in
    let (window_cycle, scheduler) =
      schedule options.window_size st1.window_cycle st1.scheduler c.value1 in
    let (window_cycle_in_order, scheduler_in_order) =
      schedule options.window_size st1.window_cycle_in_order st1.scheduler_in_order c.value2 in
    record st1 {
      totals = account (kind_of i) c.value1 c.value2 st1.totals;
      prev_bb = i.parent;
      window_cycle = window_cycle;
      scheduler = scheduler;
      window_cycle_in_order = window_cycle_in_order;
      scheduler_in_order = scheduler_in_order;
    }

-- Whether `visit` returns before it counts the instruction.
unfoldable pub is_skipped : Options → Instruction → Bool
is_skipped options i =
    if is_phi (sort_of i.form) then true else options.analyze_ilp_ignore_ctrl && is_ctrl i

-- The issue cycle and the state when the cycle is known.
unfoldable pub issue_cycle : Options → Instruction → State → TwoValues × State
issue_cycle options i st =
    let (c, st1) = get_inst_issue_cycle i (start_cycle options st) st in
    serialize options i (in_order c st1) st1

unfoldable pub visit : Options → Instruction → State → State
visit options i st =
    let (c, st1) = issue_cycle options i st in
    if is_skipped options i
    then (get_inst_issue_cycle i (start_cycle options st) st).1
    else finish options i c st1

unfoldable pub run_visits : Options → List Instruction → State → State
run_visits options [] st = st
run_visits options (i ∷ is) st = run_visits options is (visit options i st)

-- `updateILPforCall`.
unfoldable pub update_ilp_for_call : (return_instruction call_instruction : Value) → State → State
update_ilp_for_call return_instruction call_instruction st =
    let returned = lookup_operand return_instruction st in
    let called = lookup_operand call_instruction st in
    let write : TwoValues → State =
      λ c. insert_operand_usage call_instruction c false (some return_instruction) st in
    if ltb returned.value1 called.value1
    then if ltb returned.value2 called.value2
      then st
      else write record { value1 = called.value1; value2 = returned.value2 }
    else if ltb returned.value2 called.value2
    then write record { value1 = returned.value1; value2 = called.value2 }
    else write returned
