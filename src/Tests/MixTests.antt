-- ===== src/Tests/MixTests.antt =====
-- Runs of library/InstructionMix.cc, with the numbers that LLVM gives to its types.
use ibm_pisa.Base.{ℕ, ◌≡◌, refl, arith, List, [], ◌∷◌, add64, u64, inl}
use ibm_pisa.Instructions.{
  Opcode, LlvmType, half_ty, float_ty, double_ty, x86_fp80_ty, fp128_ty, ppc_fp128_ty, x86_mmx_ty,
  integer_ty, vector_ty, struct_ty, array_ty, pointer_ty, void_ty, other_type, load, store, add,
  ptr_to_int, other_opcode, get_inst_type, load_inst_type, store_inst_type, sub,
}
use ibm_pisa.Instructions.Classes.{
  is_of_memory_type, is_of_integer_type, is_of_control_type, is_of_floating_point_type,
}
use ibm_pisa.InstructionMix.{
  TypedInstruction, init, visit_opcode, bump_vector, bump_place, bump_cell, element_key,
  memory_place, bits8_slot,
}
use ibm_pisa.InstructionMix.Visits.{
  plain_slot, visit_memory_instruction, type_place, binary_place,
  visit_binary_arith_bitwise_cmp_convert_select_instruction, visit, run_visits, one_of,
}
use ibm_pisa.InstructionMix.Report.{json_dump, mem_opcodes, ctrl_opcodes}
use ibm_pisa.InstructionMix.Split.{
  floats_ints, only_floats, partial_keys, json_dump_partial, vector_partials, json_dump_per_type,
}
use ibm_pisa.InstructionMix.Categories.{field, sum_fields, category_keys, json_dump-categories}
use ibm_pisa.InstructionMix.Agreement.{counted_integer, counted_floating_point, classes_agree}
use ibm_pisa.InstructionMix.Accounts.{sum_per_type, json_dump_per_type-accounts}

abbrev pub type_id : LlvmType → ℕ
type_id void_ty = 0
type_id half_ty = 1
type_id float_ty = 2
type_id double_ty = 3
type_id x86_fp80_ty = 4
type_id fp128_ty = 5
type_id ppc_fp128_ty = 6
type_id other_type = 7
type_id x86_mmx_ty = 9
type_id (integer_ty w) = 11
type_id struct_ty = 13
type_id array_ty = 14
type_id pointer_ty = 15
type_id (vector_ty n t) = 16

-- An instruction all of whose types are the same.
abbrev typed : Opcode → LlvmType → TypedInstruction
typed op ty = record {
  opcode = op;
  pointee = ty;
  operand0 = ty;
  operand1 = ty;
  operand2 = ty;
  num_operands = 2;
  result = ty;
}

abbrev bytes : LlvmType
bytes = vector_ty 4 (integer_ty 8)

abbrev program : List TypedInstruction
program =
    typed load float_ty
    ∷ typed load bytes
    ∷ typed store bytes
    ∷ typed add (integer_ty 32)
    ∷ typed ptr_to_int (integer_ty 64)
    ∷ typed load pointer_ty
    ∷ []

-- The store of a vector of bytes counts as a load of a byte.
vector_store :
    ((run_visits type_id program init).loads bits8_slot ≡ 2)
    × ((run_visits type_id program init).stores bits8_slot ≡ 0)
unfolding init visit_opcode bump_vector bump_place bump_cell element_key memory_place plain_slot
    visit_memory_instruction type_place binary_place
    visit_binary_arith_bitwise_cmp_convert_select_instruction visit run_visits get_inst_type
    load_inst_type store_inst_type
vector_store = (refl, refl)

-- The conversion to an integer is in none of the numbers by type.
lost_conversion :
    (sum_per_type
        (json_dump_per_type type_id ptr_to_int 1 only_floats (run_visits type_id program init))
      ≡ 0)
    × ((run_visits type_id program init).num_inst ptr_to_int ≡ 1)
unfolding init visit_opcode bump_vector bump_place bump_cell element_key memory_place plain_slot
    visit_memory_instruction type_place binary_place
    visit_binary_arith_bitwise_cmp_convert_select_instruction visit run_visits get_inst_type
    load_inst_type store_inst_type partial_keys json_dump_partial vector_partials json_dump_per_type
lost_conversion = (refl, refl)

categories_example :
    add64
      ((run_visits type_id program init).num_inst other_opcode)
      (sum_fields category_keys (json_dump (run_visits type_id program init)))
    ≡ u64 (field "instructions_analyzed" (json_dump (run_visits type_id program init)))
categories_example = json_dump-categories type_id program

accounts_example :
    sum_per_type (
      json_dump_per_type type_id load
        ((run_visits type_id program init).num_inst load)
        floats_ints
        (run_visits type_id program init))
    ≡ u64 ((run_visits type_id program init).num_inst load)
accounts_example =
    json_dump_per_type-accounts type_id load program
      (
        (refl, refl, refl, refl, refl, refl, refl),
        (λ w. omega arith),
        (omega arith, omega arith, omega arith, omega arith),
      )
      (inl refl) (refl, (refl, (refl, (refl, (refl, (refl, tt))))))

agree_example :
    (is_of_memory_type sub (get_inst_type sub float_ty) ≡ one_of sub mem_opcodes)
    × (is_of_integer_type (get_inst_type sub float_ty) ≡ one_of sub counted_integer)
    × (is_of_control_type (get_inst_type sub float_ty) ≡ one_of sub ctrl_opcodes)
    × (is_of_floating_point_type (get_inst_type sub float_ty) ≡ one_of sub counted_floating_point)
agree_example = classes_agree sub float_ty
