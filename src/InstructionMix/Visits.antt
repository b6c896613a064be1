-- ===== src/InstructionMix/Visits.antt =====
-- The visits of library/InstructionMix.cc, and their order in `WKLDchar::visit` of
-- library/WKLDchar.cc.
use ibm_pisa.Base.{
  ℕ, Bool, true, false, Option, none, some, List, [], ◌∷◌, leb, ◌==◌, ◌||◌, if◌then◌else◌,
}
use ibm_pisa.Instructions.{
  Opcode, LlvmType, InstType, conv_type, get_inst_type, void_ty, half_ty, float_ty, double_ty,
  x86_fp80_ty, fp128_ty, ppc_fp128_ty, x86_mmx_ty, integer_ty, vector_ty, struct_ty, array_ty,
  pointer_ty, other_type, load, store, icmp, fcmp, select, get_element_ptr, extract_element,
  insert_element, shuffle_vector, add, mul, udiv, sub, sdiv, urem, srem, fadd, fsub, fmul, fdiv,
  frem, and, or, xor, shl, lshr, ashr, phi,
}
use ibm_pisa.Instructions.Opcodes.{same}
use ibm_pisa.InstructionMix.{
  InstructionMix, Slot, half_slot, float_slot, double_slot, x86_fp80_slot, fp128_slot,
  ppc_fp128_slot, x86_mmx_slot, misc_slot, Place, scalar_place, vector_place, misc_place,
  TypedInstruction, bump_slot, bump_cell, int_slot, int_key, element_key, memory_place,
  visit_opcode,
}

-- The slot of a load or a store, for the types that are no vectors.
unfoldable pub plain_slot : LlvmType → Option Slot
plain_slot half_ty = some half_slot
plain_slot float_ty = some float_slot
plain_slot double_ty = some double_slot
plain_slot x86_fp80_ty = some x86_fp80_slot
plain_slot fp128_ty = some fp128_slot
plain_slot ppc_fp128_ty = some ppc_fp128_slot
plain_slot x86_mmx_ty = some x86_mmx_slot
plain_slot (integer_ty w) = int_slot w
plain_slot (vector_ty size element) = none
plain_slot struct_ty = none
plain_slot array_ty = none
plain_slot pointer_ty = none
plain_slot void_ty = some misc_slot
plain_slot other_type = some misc_slot

abbrev pub bump_load : Option Slot → InstructionMix → InstructionMix
bump_load none st = st
bump_load (some slot) st = record st { loads = bump_slot slot st.loads }

abbrev pub bump_store : Option Slot → InstructionMix → InstructionMix
bump_store none st = st
bump_store (some slot) st = record st { stores = bump_slot slot st.stores }

abbrev pub integer_slot : LlvmType → Option Slot
integer_slot (integer_ty w) = int_slot w
integer_slot ty = none

abbrev pub is_conversion : Option InstType → Bool
is_conversion (some conv_type) = true
is_conversion ty = false

abbrev pub one_of : Opcode → List Opcode → Bool
one_of op [] = false
one_of op (o ∷ os) = same op o || one_of op os

abbrev pub bump_found : Opcode → Option Place → InstructionMix → InstructionMix
bump_found op none st = st
bump_found op (some place) st = bump_cell op place st

module _ (type_id : LlvmType → ℕ) where
  -- The slot that a vector of integers adds to.
  abbrev pub vector_slot : LlvmType → Option Slot
  vector_slot (vector_ty size element) =
      if leb (type_id element) 6 || (type_id element == 9) then none else integer_slot element
  vector_slot ty = none

  -- A store of a vector of integers adds to the counter of the loads, as the code does.
  unfoldable pub visit_memory_instruction : TypedInstruction → InstructionMix → InstructionMix
  visit_memory_instruction i st =
      if same i.opcode load
      then bump_load (vector_slot i.pointee) (
          bump_load (plain_slot i.pointee) (bump_cell i.opcode (memory_place type_id i.pointee) st))
      else if same i.opcode store
      then bump_load (vector_slot i.pointee) (
          bump_store (plain_slot i.pointee)
            (bump_cell i.opcode (memory_place type_id i.pointee) st))
      else st

  -- The chain of `if`s on the type. The keys of the floating-point types are written out there.
  unfoldable pub type_place : LlvmType → Place
  type_place void_ty = scalar_place 0
  type_place half_ty = scalar_place 1
  type_place float_ty = scalar_place 2
  type_place double_ty = scalar_place 3
  type_place x86_fp80_ty = scalar_place 4
  type_place fp128_ty = scalar_place 5
  type_place ppc_fp128_ty = scalar_place 6
  type_place x86_mmx_ty = scalar_place 9
  type_place (integer_ty w) = scalar_place (int_key w)
  type_place (vector_ty size element) = vector_place size (element_key type_id element)
  type_place struct_ty = misc_place
  type_place array_ty = misc_place
  type_place pointer_ty = misc_place
  type_place other_type = misc_place

  abbrev pub address_place : (num_operands : ℕ) → LlvmType → Place
  address_place num_operands (vector_ty size element) =
      if num_operands == 3 then vector_place size (element_key type_id element) else misc_place
  address_place num_operands ty = misc_place

  -- The cell for an instruction, if the function counts its opcode.
  unfoldable pub binary_place : TypedInstruction → Option Place
  binary_place i =
      if one_of i.opcode (
        add ∷ mul ∷ udiv ∷ sub ∷ sdiv ∷ urem ∷ srem ∷ fadd ∷ fsub ∷ fmul ∷ fdiv ∷ frem ∷ and ∷ or
        ∷ xor ∷ shl ∷ lshr ∷ ashr ∷ [])
      then some (type_place i.operand1)
      else if one_of i.opcode (icmp ∷ fcmp ∷ [])
      then some (type_place i.operand0)
      else if same i.opcode select
      then some (type_place i.operand1)
      else if is_conversion (get_inst_type i.opcode i.pointee)
      then some (type_place i.result)
      else if same i.opcode get_element_ptr
      then some (address_place i.num_operands i.operand2)
      else if one_of i.opcode (extract_element ∷ insert_element ∷ shuffle_vector ∷ [])
      then some (type_place i.operand0)
      else none

  unfoldable pub visit_binary_arith_bitwise_cmp_convert_select_instruction :
      TypedInstruction → InstructionMix → InstructionMix
  visit_binary_arith_bitwise_cmp_convert_select_instruction i st =
      bump_found i.opcode (binary_place i) st

  -- The three calls of `WKLDchar::visit`, which does not count phi instructions.
  unfoldable pub visit : TypedInstruction → InstructionMix → InstructionMix
  visit i st =
      if same i.opcode phi
      then st
      else visit_binary_arith_bitwise_cmp_convert_select_instruction i
          (visit_memory_instruction i (visit_opcode i.opcode st))

  unfoldable pub run_visits : List TypedInstruction → InstructionMix → InstructionMix
  run_visits [] st = st
  run_visits (i ∷ is) st = run_visits is (visit i st)
