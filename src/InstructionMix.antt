-- ===== src/InstructionMix.antt =====
-- library/InstructionMix.h and the counters of library/InstructionMix.cc. The fields `Num...Inst` of
-- the class are a function of the opcode, those of the typed loads and stores a function of the
-- slot. `counters` keeps for each opcode the scalar cells, by the key of the type, the vector cells,
-- by the size of the vector and then by the key, and the one cell of `TY_MISC`. To read a cell that
-- is not there gives 0; that reading makes the cell shows nowhere.
pub mod Accounts
pub mod Agreement
pub mod Categories
pub mod Places
pub mod Printed
pub mod Report
pub mod Split
pub mod Visits
use ibm_pisa.Base.{
  ℕ, Bool, true, false, Option, none, some, List, [], ◌∷◌, add64, ltb, leb, ◌==◌, ◌||◌,
  if◌then◌else◌,
}
use ibm_pisa.OrderedMap.{OrderedMap}
use ibm_pisa.Instructions.{
  Opcode, LlvmType, InstType, conv_type, get_inst_type, void_ty, half_ty, float_ty, double_ty,
  x86_fp80_ty, fp128_ty, ppc_fp128_ty, x86_mmx_ty, integer_ty, vector_ty, struct_ty, array_ty,
  pointer_ty, other_type, load, store, icmp, fcmp, select, get_element_ptr, extract_element,
  insert_element, shuffle_vector, add, mul, udiv, sub, sdiv, urem, srem, fadd, fsub, fmul, fdiv,
  frem, and, or, xor, shl, lshr, ashr,
}
use ibm_pisa.Instructions.Opcodes.{same}

-- The types that have a counter for loads and one for stores.
pub data Slot : Type 0 where
  half_slot float_slot double_slot x86_fp80_slot fp128_slot ppc_fp128_slot x86_mmx_slot bits4_slot
        bits8_slot bits16_slot bits32_slot bits64_slot misc_slot :
      Slot

abbrev slot_position : Slot → ℕ
slot_position half_slot = 0
slot_position float_slot = 1
slot_position double_slot = 2
slot_position x86_fp80_slot = 3
slot_position fp128_slot = 4
slot_position ppc_fp128_slot = 5
slot_position x86_mmx_slot = 6
slot_position bits4_slot = 7
slot_position bits8_slot = 8
slot_position bits16_slot = 9
slot_position bits32_slot = 10
slot_position bits64_slot = 11
slot_position misc_slot = 12

pub record Cells : Type 0 where
  pub scalar : ℕ → ℕ
  pub vector : OrderedMap (ℕ → ℕ)
  pub misc : ℕ

pub record InstructionMix : Type 0 where
  pub num_inst : Opcode → ℕ
  pub num_total_insts : ℕ
  pub loads : Slot → ℕ
  pub stores : Slot → ℕ
  pub counters : Opcode → Cells

unfoldable pub init : InstructionMix
init = record {
  num_inst = λ _. 0;
  num_total_insts = 0;
  loads = λ _. 0;
  stores = λ _. 0;
  counters = λ _. record { scalar = λ _. 0; vector = []; misc = 0 };
}

-- `++Num...Inst; ++NumTotalInsts`, for each opcode.
unfoldable pub visit_opcode : Opcode → InstructionMix → InstructionMix
visit_opcode op st = record st {
  num_inst = λ o. if same op o then add64 (st.num_inst o) 1 else st.num_inst o;
  num_total_insts = add64 st.num_total_insts 1;
}

abbrev pub bump_slot : Slot → (Slot → ℕ) → Slot → ℕ
bump_slot slot f s = if slot_position slot == slot_position s then add64 (f s) 1 else f s

-- `counters[op][TY_SCALAR][VECTOR_SIZE_SCALAR][key]++`.
abbrev pub bump_key : ℕ → (ℕ → ℕ) → ℕ → ℕ
bump_key key f k = if key == k then add64 (f k) 1 else f k

-- `counters[op][TY_VECTOR][size][key]++`.
unfoldable pub bump_vector : (size key : ℕ) → OrderedMap (ℕ → ℕ) → OrderedMap (ℕ → ℕ)
bump_vector size key [] = (size, bump_key key (λ _. 0)) ∷ []
bump_vector size key ((n, f) ∷ m) =
    let rest = bump_vector size key m in
    if ltb size n
    then (size, bump_key key (λ _. 0)) ∷ (n, f) ∷ m
    else if ltb n size
    then (n, f) ∷ rest
    else (n, bump_key key f) ∷ m

-- The cell that an instruction adds 1 to.
pub data Place : Type 0 where
  scalar_place : (key : ℕ) → Place
  vector_place : (size key : ℕ) → Place
  misc_place : Place

unfoldable pub bump_place : Place → Cells → Cells
bump_place (scalar_place key) c = record c { scalar = bump_key key c.scalar }
bump_place (vector_place size key) c = record c { vector = bump_vector size key c.vector }
bump_place misc_place c = record c { misc = add64 c.misc 1 }

unfoldable pub bump_cell : Opcode → Place → InstructionMix → InstructionMix
bump_cell op place st = record st {
  counters = λ o. if same op o then bump_place place (st.counters o) else st.counters o;
}

-- `INT_4BITS` and the macros after it, in library/utils.h.
abbrev pub int_key : ℕ → ℕ
int_key w =
    if w == 4
    then 114
    else if w == 8
    then 118
    else if w == 16
    then 1116
    else if w == 32
    then 1132
    else if w == 64
    then 1164
    else 1199

-- The counter for a load of an integer, if its width has one.
abbrev pub int_slot : ℕ → Option Slot
int_slot w =
    if w == 4
    then some bits4_slot
    else if w == 8
    then some bits8_slot
    else if w == 16
    then some bits16_slot
    else if w == 32
    then some bits32_slot
    else if w == 64
    then some bits64_slot
    else none

-- An instruction, with what the code asks LLVM of it: the type that its address points to for a load
-- or a store, the types of its first operands and of its result, and the number of its operands.
pub record TypedInstruction : Type 0 where
  pub opcode : Opcode
  pub pointee : LlvmType
  pub operand0 : LlvmType
  pub operand1 : LlvmType
  pub operand2 : LlvmType
  pub num_operands : ℕ
  pub result : LlvmType

-- `getTypeID` is LLVM's; the code relies on the numbers it writes out for floating-point types.
module _ (type_id : LlvmType → ℕ) where
  abbrev integer_key : LlvmType → ℕ
  integer_key (integer_ty w) = int_key w
  integer_key ty = type_id ty

  -- The key of the items of a vector.
  unfoldable pub element_key : LlvmType → ℕ
  element_key ty = if leb (type_id ty) 6 || (type_id ty == 9) then type_id ty else integer_key ty

  -- The switch of `visitMemoryInstruction` on the type behind the address.
  unfoldable pub memory_place : LlvmType → Place
  memory_place half_ty = scalar_place (type_id half_ty)
  memory_place float_ty = scalar_place (type_id float_ty)
  memory_place double_ty = scalar_place (type_id double_ty)
  memory_place x86_fp80_ty = scalar_place (type_id x86_fp80_ty)
  memory_place fp128_ty = scalar_place (type_id fp128_ty)
  memory_place ppc_fp128_ty = scalar_place (type_id ppc_fp128_ty)
  memory_place x86_mmx_ty = scalar_place (type_id x86_mmx_ty)
  memory_place (integer_ty w) = scalar_place (int_key w)
  memory_place (vector_ty size element) = vector_place size (element_key element)
  memory_place struct_ty = scalar_place (type_id struct_ty)
  memory_place array_ty = scalar_place (type_id array_ty)
  memory_place pointer_ty = scalar_place (type_id pointer_ty)
  memory_place void_ty = misc_place
  memory_place other_type = misc_place
