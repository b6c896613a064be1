-- ===== src/InstructionMix/Categories.antt =====
-- The categories of the report of library/InstructionMix.cc, and the four classes of
-- library/InstructionAnalysis.cc that library/ILP.cc sets them against.
use Prim.Native.String.{String}
use text.Mathlib.Text
use ibm_pisa.Base.{
  ℕ, ◌+◌, ◌≡◌, refl, ap, sym, subst, ◌∙◌, Option, none, some, List, [], ◌∷◌, ◌++◌, arith,
  Bool-cases, inl, inr, u64, add64, ◌==◌, if◌then◌else◌, ==_iff,
}
use ibm_pisa.Instructions.{
  Opcode, LlvmType, load, store, atomic_cmp_xchg, atomic_rmw, icmp, alloca, get_element_ptr, fcmp,
  phi, fence, extract_element, insert_element, shuffle_vector, extract_value, insert_value, select,
  landing_pad, va_arg, other_opcode,
}
use ibm_pisa.Instructions.Opcodes.{same, every}
use ibm_pisa.InstructionMix.{
  InstructionMix, TypedInstruction, Slot, Place, init, visit_opcode, bump_cell,
}
use ibm_pisa.InstructionMix.Visits.{
  visit, run_visits, visit_memory_instruction,
  visit_binary_arith_bitwise_cmp_convert_select_instruction, bump_load, bump_store, bump_found,
  plain_slot, binary_place,
}
use ibm_pisa.InstructionMix.Report.{
  sum64, json_dump, ctrl_opcodes, int_opcodes, fp_opcodes, bitwise_opcodes, conversion_opcodes,
  get_num_ctrl_inst, get_num_int_inst, get_num_fp_inst, get_num_bitwise_inst,
  get_num_conversion_inst,
}

-- What a report has for a key.
abbrev pub field : String → List (String × ℕ) → ℕ
field key [] = 0
field key ((name, n) ∷ rows) = if Text.◌==◌ key name then n else field key rows

abbrev pub sum_fields : List String → List (String × ℕ) → ℕ
sum_fields [] report = 0
sum_fields (key ∷ keys) report = add64 (field key report) (sum_fields keys report)

-- The keys of the report that are a total of a category.
abbrev pub category_keys : List String
category_keys =
    "load_instructions" ∷ "store_instructions" ∷ "atomic_memory_instructions"
    ∷ "int_arith_instructions" ∷ "int_cmp_instructions" ∷ "bitwise_instructions"
    ∷ "conversion_instructions" ∷ "address_arith_instructions" ∷ "fp_arith_instructions"
    ∷ "fp_cmp_instructions" ∷ "control_instructions" ∷ "phi_instructions" ∷ "sync_instructions"
    ∷ "vector_instructions" ∷ "aggregate_nonvector_instructions" ∷ "misc_instructions" ∷ []

abbrev categories : List (List Opcode)
categories =
    (load ∷ [])
    ∷ (store ∷ [])
    ∷ (atomic_cmp_xchg ∷ atomic_rmw ∷ [])
    ∷ int_opcodes
    ∷ (icmp ∷ [])
    ∷ bitwise_opcodes
    ∷ conversion_opcodes
    ∷ (alloca ∷ get_element_ptr ∷ [])
    ∷ fp_opcodes
    ∷ (fcmp ∷ [])
    ∷ ctrl_opcodes
    ∷ (phi ∷ [])
    ∷ (fence ∷ [])
    ∷ (extract_element ∷ insert_element ∷ shuffle_vector ∷ [])
    ∷ (extract_value ∷ insert_value ∷ [])
    ∷ (select ∷ landing_pad ∷ va_arg ∷ [])
    ∷ []

abbrev total : List Opcode → (Opcode → ℕ) → ℕ
total [] f = 0
total (o ∷ []) f = f o
total (o ∷ p ∷ os) f = sum64 (o ∷ p ∷ os) f

abbrev sum_totals : List (List Opcode) → (Opcode → ℕ) → ℕ
sum_totals [] f = 0
sum_totals (os ∷ groups) f = add64 (total os f) (sum_totals groups f)

abbrev flat : List (List Opcode) → List Opcode
flat [] = []
flat (os ∷ groups) = os ++ flat groups

sum64-append :
    (xs ys : List Opcode) (f : Opcode → ℕ) → sum64 (xs ++ ys) f ≡ add64 (sum64 xs f) (sum64 ys f)
sum64-append [] [] f = refl
sum64-append [] (y ∷ ys) f = omega arith
sum64-append (x ∷ xs) ys f = omega (arith, sum64-append xs ys f)

add64-total :
    (os : List Opcode) (f : Opcode → ℕ) (n : ℕ) → add64 (total os f) n ≡ add64 (sum64 os f) n
add64-total [] f n = refl
add64-total (o ∷ []) f n = omega arith
add64-total (o ∷ p ∷ os) f n = refl

sum_totals-flat :
    (groups : List (List Opcode)) (f : Opcode → ℕ) → sum_totals groups f ≡ sum64 (flat groups) f
sum_totals-flat [] f = refl
sum_totals-flat (os ∷ groups) f =
    rw (sum_totals-flat groups f, add64-total os f (sum64 (flat groups) f))
      (sym (sum64-append os (flat groups) f))

json_dump-totals :
    (st : InstructionMix)
    → sum_fields category_keys (json_dump st) ≡ sum_totals categories st.num_inst
unfolding json_dump get_num_ctrl_inst get_num_int_inst get_num_fp_inst get_num_bitwise_inst
    get_num_conversion_inst
json_dump-totals st = refl

abbrev occurrences : Opcode → List Opcode → ℕ
occurrences op [] = 0
occurrences op (o ∷ os) = (if same op o then 1 else 0) + occurrences op os

sum64-visit_opcode :
    (op : Opcode) (os : List Opcode) (st : InstructionMix)
    → sum64 os (visit_opcode op st).num_inst ≡ u64 (sum64 os st.num_inst + occurrences op os)
unfolding visit_opcode
sum64-visit_opcode op [] st = refl
sum64-visit_opcode op (o ∷ os) st = elim (Bool-cases (same op o)) [
  | inl e ↦ rw e (omega (arith, sum64-visit_opcode op os st))
  | inr e ↦ rw e (omega (arith, sum64-visit_opcode op os st))
]

-- All opcodes, category by category.
abbrev listed : List Opcode
listed = other_opcode ∷ flat categories

listed_once : (op : Opcode) → occurrences op listed ≡ 1
listed_once op =
    (==_iff (occurrences op listed) 1).0 (every (λ o. occurrences o listed == 1) refl refl op)

abbrev pub Numbers : Type 0
Numbers = (Opcode → ℕ) × ℕ

abbrev pub numbers : InstructionMix → Numbers
numbers st = (st.num_inst, st.num_total_insts)

numbers-bump_load :
    (slot : Option Slot) (st : InstructionMix) → numbers (bump_load slot st) ≡ numbers st
numbers-bump_load none st = refl
numbers-bump_load (some slot) st = refl

numbers-bump_store :
    (slot : Option Slot) (st : InstructionMix) → numbers (bump_store slot st) ≡ numbers st
numbers-bump_store none st = refl
numbers-bump_store (some slot) st = refl

numbers-bump_found :
    (op : Opcode) (place : Option Place) (st : InstructionMix)
    → numbers (bump_found op place st) ≡ numbers st
unfolding bump_cell
numbers-bump_found op none st = refl
numbers-bump_found op (some place) st = refl

numbers-memory :
    (type_id : LlvmType → ℕ) (i : TypedInstruction) (st : InstructionMix)
    → numbers (visit_memory_instruction type_id i st) ≡ numbers st
unfolding visit_memory_instruction bump_cell
numbers-memory type_id i st = elim (Bool-cases (same i.opcode load)) [
  | inl e ↦ rw e (numbers-bump_load _ _ ∙ numbers-bump_load (plain_slot i.pointee) _)
  | inr e ↦ elim (Bool-cases (same i.opcode store)) [
    | inl f ↦ rw (e, f) (numbers-bump_load _ _ ∙ numbers-bump_store (plain_slot i.pointee) _)
    | inr f ↦ rw (e, f) refl
  ]
]

pub numbers-visit :
    (type_id : LlvmType → ℕ) (i : TypedInstruction) (st : InstructionMix)
    → numbers (visit type_id i st)
      ≡ (if same i.opcode phi then numbers st else numbers (visit_opcode i.opcode st))
unfolding visit visit_binary_arith_bitwise_cmp_convert_select_instruction
numbers-visit type_id i st = elim (Bool-cases (same i.opcode phi)) [
  | inl e ↦ rw e refl
  | inr e ↦ rw e (
      numbers-bump_found i.opcode (binary_place type_id i) _
      ∙ numbers-memory type_id i (visit_opcode i.opcode st))
]

abbrev IsListed : Numbers → Type 0
IsListed n = sum64 listed n.0 ≡ u64 n.1

visit_opcode-once :
    (op : Opcode) (os : List Opcode) (st : InstructionMix)
    → occurrences op os ≡ 1
    → sum64 os st.num_inst ≡ u64 st.num_total_insts
    → sum64 os (visit_opcode op st).num_inst ≡ u64 (visit_opcode op st).num_total_insts
unfolding visit_opcode
visit_opcode-once op os st once h = omega (arith, sum64-visit_opcode op os st, once, h)

visit_opcode-IsListed :
    (op : Opcode) (st : InstructionMix)
    → IsListed (numbers st)
    → IsListed (numbers (visit_opcode op st))
visit_opcode-IsListed op st h = visit_opcode-once op listed st (listed_once op) h

visit-IsListed :
    (type_id : LlvmType → ℕ) (i : TypedInstruction) (st : InstructionMix)
    → IsListed (numbers st)
    → IsListed (numbers (visit type_id i st))
visit-IsListed type_id i st h = elim (Bool-cases (same i.opcode phi)) [
  | inl e ↦ subst IsListed (sym (numbers-visit type_id i st)) (rw e h)
  | inr e ↦
      subst IsListed (sym (numbers-visit type_id i st)) (rw e (visit_opcode-IsListed i.opcode st h))
]

run_visits-IsListed :
    (type_id : LlvmType → ℕ) (is : List TypedInstruction) (st : InstructionMix)
    → IsListed (numbers st)
    → IsListed (numbers (run_visits type_id is st))
unfolding run_visits
run_visits-IsListed type_id [] st h = h
run_visits-IsListed type_id (i ∷ is) st h =
    run_visits-IsListed type_id is (visit type_id i st) (visit-IsListed type_id i st h)

json_dump-analyzed :
    (st : InstructionMix) → field "instructions_analyzed" (json_dump st) ≡ st.num_total_insts
unfolding json_dump
json_dump-analyzed st = refl

-- After any run from a new instruction mix, the sixteen totals of categories that the report
-- writes, with the count of the opcodes that the code does not name, add up to the number it
-- writes for the analysed instructions, as an `unsigned long long`.
pub json_dump-categories :
    (type_id : LlvmType → ℕ) (is : List TypedInstruction)
    → add64
        ((run_visits type_id is init).num_inst other_opcode)
        (sum_fields category_keys (json_dump (run_visits type_id is init)))
      ≡ u64 (field "instructions_analyzed" (json_dump (run_visits type_id is init)))
unfolding init
json_dump-categories type_id is =
    let st = run_visits type_id is init in
    ap (add64 (st.num_inst other_opcode))
      (json_dump-totals st ∙ sum_totals-flat categories st.num_inst)
    ∙ run_visits-IsListed type_id is init refl
    ∙ ap u64 (sym (json_dump-analyzed st))
