-- ===== src/Instructions/Classes.antt =====
-- The four tests of library/InstructionAnalysis.cc on the class of an instruction.
use ibm_pisa.Base.{Bool, true, false, Option, some, ◌≡◌, refl, arith, if◌then◌else◌}
use ibm_pisa.Instructions.{
  Opcode, LlvmType, InstType, ctrl_type, int_add_type, int_sub_type, int_mul_type, int_udiv_type,
  int_sdiv_type, int_urem_type, int_srem_type, fp_add_type, fp_sub_type, fp_mul_type, fp_div_type,
  fp_rem_type, bitwise_type, conv_type, int_cmp_type, fp_cmp_type, atomic_mem_type,
  arith_address_type, load, store, get_inst_type, load_inst_type, store_inst_type, integer_ty,
  vector_ty, void_ty, half_ty, float_ty, double_ty, x86_fp80_ty, fp128_ty, ppc_fp128_ty, x86_mmx_ty,
  struct_ty, array_ty, pointer_ty, other_type,
}

unfoldable pub is_of_integer_type : Option InstType → Bool
is_of_integer_type (some conv_type) = true
is_of_integer_type (some bitwise_type) = true
is_of_integer_type (some int_add_type) = true
is_of_integer_type (some int_sub_type) = true
is_of_integer_type (some int_mul_type) = true
is_of_integer_type (some int_udiv_type) = true
is_of_integer_type (some int_sdiv_type) = true
is_of_integer_type (some int_urem_type) = true
is_of_integer_type (some int_srem_type) = true
is_of_integer_type (some int_cmp_type) = true
is_of_integer_type (some arith_address_type) = true
is_of_integer_type _ = false

unfoldable pub is_of_control_type : Option InstType → Bool
is_of_control_type (some ctrl_type) = true
is_of_control_type _ = false

unfoldable pub is_of_floating_point_type : Option InstType → Bool
is_of_floating_point_type (some fp_add_type) = true
is_of_floating_point_type (some fp_sub_type) = true
is_of_floating_point_type (some fp_mul_type) = true
is_of_floating_point_type (some fp_div_type) = true
is_of_floating_point_type (some fp_rem_type) = true
is_of_floating_point_type (some fp_cmp_type) = true
is_of_floating_point_type _ = false

abbrev pub is_atomic : Option InstType → Bool
is_atomic (some atomic_mem_type) = true
is_atomic _ = false

abbrev is_load_or_store : Opcode → Bool
is_load_or_store load = true
is_load_or_store store = true
is_load_or_store _ = false

-- `isOfMemoryType`.
unfoldable pub is_of_memory_type : Opcode → Option InstType → Bool
is_of_memory_type opcode ty = if is_atomic ty then true else is_load_or_store opcode

pub load_inst_type-control : (ty : LlvmType) → is_of_control_type (some (load_inst_type ty)) ≡ false
unfolding load_inst_type is_of_control_type
load_inst_type-control (integer_ty w) = ground arith
load_inst_type-control (vector_ty n t) = refl
load_inst_type-control void_ty = refl
load_inst_type-control half_ty = refl
load_inst_type-control float_ty = refl
load_inst_type-control double_ty = refl
load_inst_type-control x86_fp80_ty = refl
load_inst_type-control fp128_ty = refl
load_inst_type-control ppc_fp128_ty = refl
load_inst_type-control x86_mmx_ty = refl
load_inst_type-control struct_ty = refl
load_inst_type-control array_ty = refl
load_inst_type-control pointer_ty = refl
load_inst_type-control other_type = refl

pub store_inst_type-control :
    (ty : LlvmType) → is_of_control_type (some (store_inst_type ty)) ≡ false
unfolding store_inst_type is_of_control_type
store_inst_type-control (integer_ty w) = ground arith
store_inst_type-control (vector_ty n t) = refl
store_inst_type-control void_ty = refl
store_inst_type-control half_ty = refl
store_inst_type-control float_ty = refl
store_inst_type-control double_ty = refl
store_inst_type-control x86_fp80_ty = refl
store_inst_type-control fp128_ty = refl
store_inst_type-control ppc_fp128_ty = refl
store_inst_type-control x86_mmx_ty = refl
store_inst_type-control struct_ty = refl
store_inst_type-control array_ty = refl
store_inst_type-control pointer_ty = refl
store_inst_type-control other_type = refl

pub load_inst_type-integer : (ty : LlvmType) → is_of_integer_type (some (load_inst_type ty)) ≡ false
unfolding load_inst_type is_of_integer_type
load_inst_type-integer (integer_ty w) = ground arith
load_inst_type-integer (vector_ty n t) = refl
load_inst_type-integer void_ty = refl
load_inst_type-integer half_ty = refl
load_inst_type-integer float_ty = refl
load_inst_type-integer double_ty = refl
load_inst_type-integer x86_fp80_ty = refl
load_inst_type-integer fp128_ty = refl
load_inst_type-integer ppc_fp128_ty = refl
load_inst_type-integer x86_mmx_ty = refl
load_inst_type-integer struct_ty = refl
load_inst_type-integer array_ty = refl
load_inst_type-integer pointer_ty = refl
load_inst_type-integer other_type = refl

pub store_inst_type-integer :
    (ty : LlvmType) → is_of_integer_type (some (store_inst_type ty)) ≡ false
unfolding store_inst_type is_of_integer_type
store_inst_type-integer (integer_ty w) = ground arith
store_inst_type-integer (vector_ty n t) = refl
store_inst_type-integer void_ty = refl
store_inst_type-integer half_ty = refl
store_inst_type-integer float_ty = refl
store_inst_type-integer double_ty = refl
store_inst_type-integer x86_fp80_ty = refl
store_inst_type-integer fp128_ty = refl
store_inst_type-integer ppc_fp128_ty = refl
store_inst_type-integer x86_mmx_ty = refl
store_inst_type-integer struct_ty = refl
store_inst_type-integer array_ty = refl
store_inst_type-integer pointer_ty = refl
store_inst_type-integer other_type = refl

pub load_inst_type-floating_point :
    (ty : LlvmType) → is_of_floating_point_type (some (load_inst_type ty)) ≡ false
unfolding load_inst_type is_of_floating_point_type
load_inst_type-floating_point (integer_ty w) = ground arith
load_inst_type-floating_point (vector_ty n t) = refl
load_inst_type-floating_point void_ty = refl
load_inst_type-floating_point half_ty = refl
load_inst_type-floating_point float_ty = refl
load_inst_type-floating_point double_ty = refl
load_inst_type-floating_point x86_fp80_ty = refl
load_inst_type-floating_point fp128_ty = refl
load_inst_type-floating_point ppc_fp128_ty = refl
load_inst_type-floating_point x86_mmx_ty = refl
load_inst_type-floating_point struct_ty = refl
load_inst_type-floating_point array_ty = refl
load_inst_type-floating_point pointer_ty = refl
load_inst_type-floating_point other_type = refl

pub store_inst_type-floating_point :
    (ty : LlvmType) → is_of_floating_point_type (some (store_inst_type ty)) ≡ false
unfolding store_inst_type is_of_floating_point_type
store_inst_type-floating_point (integer_ty w) = ground arith
store_inst_type-floating_point (vector_ty n t) = refl
store_inst_type-floating_point void_ty = refl
store_inst_type-floating_point half_ty = refl
store_inst_type-floating_point float_ty = refl
store_inst_type-floating_point double_ty = refl
store_inst_type-floating_point x86_fp80_ty = refl
store_inst_type-floating_point fp128_ty = refl
store_inst_type-floating_point ppc_fp128_ty = refl
store_inst_type-floating_point x86_mmx_ty = refl
store_inst_type-floating_point struct_ty = refl
store_inst_type-floating_point array_ty = refl
store_inst_type-floating_point pointer_ty = refl
store_inst_type-floating_point other_type = refl

-- No load and no store is a control instruction.
pub load-control : (ty : LlvmType) → is_of_control_type (get_inst_type load ty) ≡ false
unfolding get_inst_type
load-control = load_inst_type-control

pub store-control : (ty : LlvmType) → is_of_control_type (get_inst_type store ty) ≡ false
unfolding get_inst_type
store-control = store_inst_type-control
