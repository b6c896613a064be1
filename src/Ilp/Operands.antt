-- ===== src/Ilp/Operands.antt =====
-- The tables of library/ILP.h and the operations of library/ILP.cc on the cycles of the operands. A
-- `Value` of LLVM is its address with what the casts of the code tell apart, and an instruction is
-- its address and its block with what the code asks of it. What LLVM and the run time of the
-- analysed program answer is a part of the instruction: the function that is called, as the list of
-- its parameters, and the address that a load or a store uses.
use ibm_pisa.Base.{ℕ, Bool, true, false, Option, none, some, List, add64, if◌then◌else◌}
use ibm_pisa.Instructions.{Opcode, LlvmType, call, load, phi, store}
use ibm_pisa.OrderedMap.{OrderedMap, find, put}
use ibm_pisa.Ilp.{Totals}

pub data Sort : Type 0 where
  constant basic_block phi_node call_instruction plain : Sort

pub record Value : Type 0 where
  pub address : ℕ
  pub sort : Sort

pub data Form : Type 0 where
  phi_form : (incoming : List (ℕ × Value)) → Form
  call_form : (callee : Option (List ℕ)) (arguments : List Value) → Form
  load_form : (pointer : Value) (memory_address : ℕ) → Form
  store_form : (value pointer : Value) (memory_address : ℕ) → Form
  other_form : (opcode : Opcode) (operands : List Value) → Form

pub record Instruction : Type 0 where
  pub address : ℕ
  pub parent : ℕ
  pub pointee : LlvmType
  pub form : Form

abbrev pub opcode_of : Form → Opcode
opcode_of (phi_form incoming) = phi
opcode_of (call_form callee arguments) = call
opcode_of (load_form pointer a) = load
opcode_of (store_form value pointer a) = store
opcode_of (other_form opcode operands) = opcode

-- The instruction as a value, `&I`.
abbrev pub sort_of : Form → Sort
sort_of (phi_form incoming) = phi_node
sort_of (call_form callee arguments) = call_instruction
sort_of (load_form pointer a) = plain
sort_of (store_form value pointer a) = plain
sort_of (other_form opcode operands) = plain

abbrev pub self : Instruction → Value
self i = record { address = i.address; sort = sort_of i.form }

-- `struct twoValues`.
pub record TwoValues : Type 0 where
  pub value1 : ℕ
  pub value2 : ℕ

-- `struct valueStarIndex`.
pub record ValueStarIndex : Type 0 where
  pub last_usage : ℕ
  pub last_usage_in_order : ℕ
  pub value_star_count : ℕ

-- `struct MemoryDep`.
pub record MemoryDep : Type 0 where
  pub last_store_cycle : ℕ
  pub last_store_cycle_in_order : ℕ
  pub last_load_cycle : ℕ
  pub last_load_cycle_in_order : ℕ
  pub last_store_index : ℕ
  pub last_load_index : ℕ

-- The fields of `ILP` that a visit reads or changes.
pub record State : Type 0 where
  pub last_usage_operands : OrderedMap ValueStarIndex
  pub last_usage_memory : OrderedMap MemoryDep
  pub value_star_count : ℕ
  pub prev_bb : ℕ
  pub min_issue_cycle_for_ctrl : ℕ
  pub totals : Totals
  pub window_cycle : ℕ
  pub window_cycle_in_order : ℕ
  pub scheduler : List ℕ
  pub scheduler_in_order : List ℕ

abbrev usage_or_zero : Option ValueStarIndex → TwoValues
usage_or_zero none = record { value1 = 0; value2 = 0 }
usage_or_zero (some u) = record { value1 = u.last_usage; value2 = u.last_usage_in_order }

unfoldable pub lookup_operand : Value → State → TwoValues
lookup_operand op st = usage_or_zero (find op.address st.last_usage_operands)

abbrev count_or_zero : Option ValueStarIndex → ℕ
count_or_zero none = 0
count_or_zero (some u) = u.value_star_count

unfoldable pub lookup_value_star_index : Value → State → ℕ
lookup_value_star_index op st = count_or_zero (find op.address st.last_usage_operands)

abbrev pub is_constant : Sort → Bool
is_constant constant = true
is_constant basic_block = false
is_constant phi_node = false
is_constant call_instruction = false
is_constant plain = false

-- The count of the new item where the instruction is not a new one.
abbrev count_of : Option Value → Value → State → ℕ
count_of none op st = lookup_value_star_index op st
count_of (some previous) op st = lookup_value_star_index previous st

abbrev write_usage : Value → TwoValues → (count : ℕ) → State → State
write_usage op issue_cycle count st = record st {
  last_usage_operands =
      put op.address
        record {
          last_usage = issue_cycle.value1;
          last_usage_in_order = issue_cycle.value2;
          value_star_count = count;
        }
        st.last_usage_operands;
}

unfoldable pub insert_operand_usage :
    Value
    → TwoValues
    → (is_new_instruction : Bool) → (previous_op_for_count : Option Value) → State
    → State
insert_operand_usage op issue_cycle is_new_instruction previous_op_for_count st =
    if is_constant op.sort
    then st
    else if is_new_instruction
    then record (write_usage op issue_cycle st.value_star_count st) {
      value_star_count = add64 st.value_star_count 1;
    }
    else write_usage op issue_cycle (count_of previous_op_for_count op st) st

abbrev pub is_phi : Sort → Bool
is_phi constant = false
is_phi basic_block = false
is_phi phi_node = true
is_phi call_instruction = false
is_phi plain = false

abbrev like : Sort → Bool
like constant = true
like basic_block = true
like phi_node = true
like call_instruction = false
like plain = false

abbrev is_call : Sort → Bool
is_call constant = false
is_call basic_block = false
is_call phi_node = false
is_call call_instruction = true
is_call plain = false

unfoldable pub value_is_constant_like : Value → Bool
value_is_constant_like v = like v.sort

unfoldable pub value_is_function_call : Value → Bool
value_is_function_call v = is_call v.sort
