-- ===== src/InstructionMix/Agreement.antt =====
-- The counts of library/InstructionMix.cc that `ILP::JSONdump` of library/ILP.cc divides by the issue
-- cycles of a class, against the tests of library/InstructionAnalysis.cc that make the class.
use ibm_pisa.Base.{◌≡◌, refl, some, Bool, true, not, if◌then◌else◌, arith, List, [], ◌∷◌, ◌++◌}
use ibm_pisa.Instructions.{
  Opcode, LlvmType, get_inst_type, load_inst_type, store_inst_type, icmp, fcmp,
}
use ibm_pisa.Instructions.Classes.{
  is_of_memory_type, is_of_integer_type, is_of_control_type, is_of_floating_point_type, is_atomic,
  load_inst_type-control, store_inst_type-control, load_inst_type-integer, store_inst_type-integer,
  load_inst_type-floating_point, store_inst_type-floating_point,
}
use ibm_pisa.Instructions.Opcodes.{every}
use ibm_pisa.InstructionMix.Visits.{one_of}
use ibm_pisa.InstructionMix.Report.{
  ctrl_opcodes, int_opcodes, fp_opcodes, bitwise_opcodes, conversion_opcodes, mem_opcodes,
  addr_arith_opcodes,
}

abbrev agree : Bool → Bool → Bool
agree a b = if a then b else not b

agree_eq : (a b : Bool) → agree a b ≡ true → a ≡ b
agree_eq a b h = ground arith

-- The counts that the report sets against the integer instructions, and those for floating point.
abbrev pub counted_integer : List Opcode
counted_integer = int_opcodes ++ bitwise_opcodes ++ conversion_opcodes ++ icmp ∷ addr_arith_opcodes

abbrev pub counted_floating_point : List Opcode
counted_floating_point = fp_opcodes ++ fcmp ∷ []

always : (b : Bool) → (if b then true else true) ≡ true
always b = ground arith

memory_agrees :
    (ty : LlvmType) (op : Opcode)
    → is_of_memory_type op (get_inst_type op ty) ≡ one_of op mem_opcodes
unfolding is_of_memory_type get_inst_type
memory_agrees ty op = agree_eq _ _ (
    every (λ o. agree (is_of_memory_type o (get_inst_type o ty)) (one_of o mem_opcodes)) refl
      (rw
        (
          always (is_atomic (some (load_inst_type ty))),
          always (is_atomic (some (store_inst_type ty))),
        )
        refl)
      op)

integer_agrees :
    (ty : LlvmType) (op : Opcode)
    → is_of_integer_type (get_inst_type op ty) ≡ one_of op counted_integer
unfolding is_of_integer_type get_inst_type
integer_agrees ty op = agree_eq _ _ (
    every (λ o. agree (is_of_integer_type (get_inst_type o ty)) (one_of o counted_integer)) refl
      (rw (load_inst_type-integer ty, store_inst_type-integer ty) refl) op)

control_agrees :
    (ty : LlvmType) (op : Opcode)
    → is_of_control_type (get_inst_type op ty) ≡ one_of op ctrl_opcodes
unfolding is_of_control_type get_inst_type
control_agrees ty op = agree_eq _ _ (
    every (λ o. agree (is_of_control_type (get_inst_type o ty)) (one_of o ctrl_opcodes)) refl
      (rw (load_inst_type-control ty, store_inst_type-control ty) refl) op)

floating_point_agrees :
    (ty : LlvmType) (op : Opcode)
    → is_of_floating_point_type (get_inst_type op ty) ≡ one_of op counted_floating_point
unfolding is_of_floating_point_type get_inst_type
floating_point_agrees ty op = agree_eq _ _ (
    every
      (λ o.
        agree (is_of_floating_point_type (get_inst_type o ty)) (one_of o counted_floating_point))
      refl (rw (load_inst_type-floating_point ty, store_inst_type-floating_point ty) refl) op)

-- For every opcode and type, an instruction is of the memory, integer, control or floating-point
-- type exactly if its opcode is among those whose counts the parallelism report divides by the
-- issue cycles of that type.
pub classes_agree :
    (op : Opcode) (ty : LlvmType)
    → (is_of_memory_type op (get_inst_type op ty) ≡ one_of op mem_opcodes)
      × (is_of_integer_type (get_inst_type op ty) ≡ one_of op counted_integer)
      × (is_of_control_type (get_inst_type op ty) ≡ one_of op ctrl_opcodes)
      × (is_of_floating_point_type (get_inst_type op ty) ≡ one_of op counted_floating_point)
classes_agree op ty =
    (memory_agrees ty op, integer_agrees ty op, control_agrees ty op, floating_point_agrees ty op)
