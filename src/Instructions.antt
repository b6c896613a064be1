-- ===== src/Instructions.antt =====
-- library/InstructionAnalysis.cc: the class of an instruction, from its opcode and, for a load or a
-- store, from the type that its address points to. The opcodes and the types are the names of LLVM
-- that the code uses; any other one is `other_opcode` or `other_type`.
pub mod Classes
pub mod Opcodes
use ibm_pisa.Base.{ℕ, Bool, true, false, Option, none, some, ◌==◌, if◌then◌else◌}

pub data Opcode : Type 0 where
  ret br switch indirect_br invoke resume unreachable call icmp fcmp phi select add sub mul udiv
        sdiv urem srem fadd fsub fmul fdiv frem load store alloca atomic_cmp_xchg atomic_rmw fence
        get_element_ptr and or xor shl lshr ashr trunc zext sext fp_trunc fp_ext fp_to_ui fp_to_si
        ui_to_fp si_to_fp int_to_ptr ptr_to_int bit_cast addr_space_cast va_arg landing_pad
        extract_element insert_element shuffle_vector extract_value insert_value other_opcode :
      Opcode

-- A type of LLVM, with the width of an integer, and the size and the item of a vector.
pub data LlvmType : Type 0 where
  void_ty half_ty float_ty double_ty x86_fp80_ty fp128_ty ppc_fp128_ty x86_mmx_ty : LlvmType
  integer_ty : (bit_width : ℕ) → LlvmType
  vector_ty : (num_elements : ℕ) (element : LlvmType) → LlvmType
  struct_ty array_ty pointer_ty other_type : LlvmType

-- The macros of library/InstructionAnalysis.h.
pub data InstType : Type 0 where
  ctrl_type int_add_type int_sub_type int_mul_type int_udiv_type int_sdiv_type int_urem_type
        int_srem_type fp_add_type fp_sub_type fp_mul_type fp_div_type fp_rem_type ld_fp_16bits_type
        ld_fp_32bits_type ld_fp_64bits_type ld_fp_80bits_type ld_fp_128bits_type ld_int_4bits_type
        ld_int_8bits_type ld_int_16bits_type ld_int_32bits_type ld_int_64bits_type
        store_fp_16bits_type store_fp_32bits_type store_fp_64bits_type store_fp_80bits_type
        store_fp_128bits_type store_int_4bits_type store_int_8bits_type store_int_16bits_type
        store_int_32bits_type store_int_64bits_type misc_mem_type bitwise_type conv_type misc_type
        int_cmp_type fp_cmp_type phi_type atomic_mem_type arith_address_type misc_vector_type
        misc_aggregate_type sync_type :
      InstType

-- `getMemoryInstType` of a load, from the type that its address points to.
unfoldable pub load_inst_type : LlvmType → InstType
load_inst_type void_ty = misc_mem_type
load_inst_type half_ty = ld_fp_16bits_type
load_inst_type float_ty = ld_fp_32bits_type
load_inst_type double_ty = ld_fp_64bits_type
load_inst_type x86_fp80_ty = ld_fp_80bits_type
load_inst_type fp128_ty = ld_fp_128bits_type
load_inst_type ppc_fp128_ty = ld_fp_128bits_type
load_inst_type x86_mmx_ty = ld_fp_64bits_type
load_inst_type (integer_ty w) =
    if w == 4
    then ld_int_4bits_type
    else if w == 8
    then ld_int_8bits_type
    else if w == 16
    then ld_int_16bits_type
    else if w == 32
    then ld_int_32bits_type
    else if w == 64
    then ld_int_64bits_type
    else misc_mem_type
load_inst_type (vector_ty size element) = misc_mem_type
load_inst_type struct_ty = misc_mem_type
load_inst_type array_ty = misc_mem_type
load_inst_type pointer_ty = misc_mem_type
load_inst_type other_type = misc_mem_type

-- `getMemoryInstType` of a store.
unfoldable pub store_inst_type : LlvmType → InstType
store_inst_type void_ty = misc_mem_type
store_inst_type half_ty = store_fp_16bits_type
store_inst_type float_ty = store_fp_32bits_type
store_inst_type double_ty = store_fp_64bits_type
store_inst_type x86_fp80_ty = store_fp_80bits_type
store_inst_type fp128_ty = store_fp_128bits_type
store_inst_type ppc_fp128_ty = store_fp_128bits_type
store_inst_type x86_mmx_ty = store_fp_64bits_type
store_inst_type (integer_ty w) =
    if w == 4
    then store_int_4bits_type
    else if w == 8
    then store_int_8bits_type
    else if w == 16
    then store_int_16bits_type
    else if w == 32
    then store_int_32bits_type
    else if w == 64
    then store_int_64bits_type
    else misc_mem_type
store_inst_type (vector_ty size element) = misc_mem_type
store_inst_type struct_ty = misc_mem_type
store_inst_type array_ty = misc_mem_type
store_inst_type pointer_ty = misc_mem_type
store_inst_type other_type = misc_mem_type

-- `getInstType`, with `none` for -1. The type is the one the address of a load or a store points to.
unfoldable pub get_inst_type : Opcode → LlvmType → Option InstType
get_inst_type ret ty = some ctrl_type
get_inst_type br ty = some ctrl_type
get_inst_type switch ty = some ctrl_type
get_inst_type indirect_br ty = some ctrl_type
get_inst_type invoke ty = some ctrl_type
get_inst_type resume ty = some ctrl_type
get_inst_type unreachable ty = some ctrl_type
get_inst_type call ty = some ctrl_type
get_inst_type icmp ty = some int_cmp_type
get_inst_type fcmp ty = some fp_cmp_type
get_inst_type phi ty = some phi_type
get_inst_type select ty = some misc_type
get_inst_type add ty = some int_add_type
get_inst_type sub ty = some int_sub_type
get_inst_type mul ty = some int_mul_type
get_inst_type udiv ty = some int_udiv_type
get_inst_type sdiv ty = some int_sdiv_type
get_inst_type urem ty = some int_urem_type
get_inst_type srem ty = some int_srem_type
get_inst_type fadd ty = some fp_add_type
get_inst_type fsub ty = some fp_sub_type
get_inst_type fmul ty = some fp_mul_type
get_inst_type fdiv ty = some fp_div_type
get_inst_type frem ty = some fp_rem_type
get_inst_type load ty = some (load_inst_type ty)
get_inst_type store ty = some (store_inst_type ty)
get_inst_type alloca ty = some arith_address_type
get_inst_type atomic_cmp_xchg ty = some atomic_mem_type
get_inst_type atomic_rmw ty = some atomic_mem_type
get_inst_type fence ty = some sync_type
get_inst_type get_element_ptr ty = some arith_address_type
get_inst_type and ty = some bitwise_type
get_inst_type or ty = some bitwise_type
get_inst_type xor ty = some bitwise_type
get_inst_type shl ty = some bitwise_type
get_inst_type lshr ty = some bitwise_type
get_inst_type ashr ty = some bitwise_type
get_inst_type trunc ty = some conv_type
get_inst_type zext ty = some conv_type
get_inst_type sext ty = some conv_type
get_inst_type fp_trunc ty = some conv_type
get_inst_type fp_ext ty = some conv_type
get_inst_type fp_to_ui ty = some conv_type
get_inst_type fp_to_si ty = some conv_type
get_inst_type ui_to_fp ty = some conv_type
get_inst_type si_to_fp ty = some conv_type
get_inst_type int_to_ptr ty = some conv_type
get_inst_type ptr_to_int ty = some conv_type
get_inst_type bit_cast ty = some conv_type
get_inst_type addr_space_cast ty = some conv_type
get_inst_type va_arg ty = some misc_type
get_inst_type landing_pad ty = some misc_type
get_inst_type extract_element ty = some misc_vector_type
get_inst_type insert_element ty = some misc_vector_type
get_inst_type shuffle_vector ty = some misc_vector_type
get_inst_type extract_value ty = some misc_aggregate_type
get_inst_type insert_value ty = some misc_aggregate_type
get_inst_type other_opcode ty = none
