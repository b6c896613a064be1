-- ===== src/InstructionMix/Accounts.antt =====
-- The loads and stores in the report of library/InstructionMix.cc: what it writes for them by type adds
-- up to their count.
use Prim.Native.String.{String}
use ibm_pisa.Base.{
  ℕ, ◌≡◌, ◌⊎◌, refl, ap, sym, subst, ◌∙◌, Bool, true, false, ◌||◌, Option, none, some, List, [],
  ◌∷◌, arith, Bool-cases, inl, inr, u64, add64, if◌then◌else◌, ==_refl, All,
}
use ibm_pisa.Instructions.{
  Opcode, LlvmType, load, store, phi, get_inst_type, load_inst_type, store_inst_type, InstType,
}
use ibm_pisa.Instructions.Opcodes.{same, same_eq, position}
use ibm_pisa.Instructions.Classes.{
  is_of_integer_type, load_inst_type-integer, store_inst_type-integer,
}
use ibm_pisa.InstructionMix.{
  InstructionMix, TypedInstruction, Slot, Place, bump_place, bump_cell, memory_place, init,
  visit_opcode,
}
use ibm_pisa.InstructionMix.Visits.{
  visit, run_visits, visit_memory_instruction,
  visit_binary_arith_bitwise_cmp_convert_select_instruction, bump_load, bump_store, bump_found,
  plain_slot, binary_place, is_conversion,
}
use ibm_pisa.InstructionMix.Split.{
  IsFloat, PerType, floats_ints, partial_keys, json_dump_per_type, json_dump_partial,
}
use ibm_pisa.InstructionMix.Categories.{numbers-visit}
use ibm_pisa.InstructionMix.Places.{written, memory_place_printed}
use ibm_pisa.InstructionMix.Printed.{
  partial_keys-all, IsNumbered, is_value_type, is_printed, sum_cells, sum_cells-bump_place,
  sum_partials-vectors,
}

-- Whether an instruction works on a type that LLVM has for values, if it is a load or a store.
abbrev pub is_sound : TypedInstruction → Bool
is_sound i = if same i.opcode load || same i.opcode store then is_value_type i.pointee else true

abbrev Memory : Opcode → Type 0
Memory op = (op ≡ load) ⊎ (op ≡ store)

-- The calls that touch no cell.
counters-bump_load :
    (slot : Option Slot) (st : InstructionMix) → (bump_load slot st).counters ≡ st.counters
counters-bump_load none st = refl
counters-bump_load (some slot) st = refl

counters-bump_store :
    (slot : Option Slot) (st : InstructionMix) → (bump_store slot st).counters ≡ st.counters
counters-bump_store none st = refl
counters-bump_store (some slot) st = refl

counters-memory :
    (type_id : LlvmType → ℕ) (i : TypedInstruction) (st : InstructionMix)
    → (visit_memory_instruction type_id i st).counters ≡ (
        if same i.opcode load || same i.opcode store
        then (bump_cell i.opcode (memory_place type_id i.pointee) st).counters
        else st.counters)
unfolding visit_memory_instruction
counters-memory type_id i st = elim (Bool-cases (same i.opcode load)) [
  | inl e ↦ rw e (counters-bump_load _ _ ∙ counters-bump_load (plain_slot i.pointee) _)
  | inr e ↦ elim (Bool-cases (same i.opcode store)) [
    | inl f ↦ rw (e, f) (counters-bump_load _ _ ∙ counters-bump_store (plain_slot i.pointee) _)
    | inr f ↦ rw (e, f) refl
  ]
]

counters-other :
    (op o : Opcode) (place : Option Place) (st : InstructionMix)
    → same o op ≡ false
    → (bump_found o place st).counters op ≡ st.counters op
unfolding bump_cell
counters-other op o none st h = refl
counters-other op o (some place) st h = rw h refl

conversion_integer : (t : Option InstType) → is_of_integer_type t ≡ false → is_conversion t ≡ false
unfolding is_of_integer_type
conversion_integer t h = ground arith

binary_place-Memory :
    (type_id : LlvmType → ℕ) (i : TypedInstruction)
    → Memory i.opcode
    → binary_place type_id i ≡ none
unfolding binary_place get_inst_type
binary_place-Memory type_id i (inl h) =
    let kept =
      conversion_integer (some (load_inst_type i.pointee)) (load_inst_type-integer i.pointee) in
    rw (h, kept) refl
binary_place-Memory type_id i (inr h) =
    let kept =
      conversion_integer (some (store_inst_type i.pointee)) (store_inst_type-integer i.pointee) in
    rw (h, kept) refl

tests_of :
    (op : Opcode) → Memory op → ((same op load || same op store) ≡ true) × (same op phi ≡ false)
tests_of op (inl h) = (rw h refl, rw h refl)
tests_of op (inr h) = (rw h refl, rw h refl)

-- A load or a store adds 1 to one cell of its opcode.
counters-visit :
    (type_id : LlvmType → ℕ) (i : TypedInstruction) (st : InstructionMix)
    → Memory i.opcode
    → (visit type_id i st).counters i.opcode
      ≡ bump_place (memory_place type_id i.pointee) (st.counters i.opcode)
unfolding visit visit_binary_arith_bitwise_cmp_convert_select_instruction visit_opcode bump_cell
counters-visit type_id i st h =
    let (memory, counted) = tests_of i.opcode h in
    rw (counted, binary_place-Memory type_id i h)
      (ap (λ f. f i.opcode) (counters-memory type_id i (visit_opcode i.opcode st))
        ∙ rw (memory, ==_refl (position i.opcode)) refl)

counters-visit_other :
    (type_id : LlvmType → ℕ) (op : Opcode) (i : TypedInstruction) (st : InstructionMix)
    → same i.opcode op ≡ false
    → (visit type_id i st).counters op ≡ st.counters op
unfolding visit visit_binary_arith_bitwise_cmp_convert_select_instruction visit_opcode bump_cell
counters-visit_other type_id op i st h = elim (Bool-cases (same i.opcode phi)) [
  | inl e ↦ rw e refl
  | inr e ↦ rw e (
      counters-other op i.opcode (binary_place type_id i) _ h
      ∙ ap (λ f. f op) (counters-memory type_id i (visit_opcode i.opcode st))
      ∙ elim (Bool-cases (same i.opcode load || same i.opcode store)) [
        | inl m ↦ rw m (counters-other op i.opcode (some (memory_place type_id i.pointee)) st h)
        | inr m ↦ rw m refl
      ])
]

-- What the report of a type counts as scalar, as vector and as other instructions, together.
abbrev pub sum_per_type : PerType → ℕ
sum_per_type p = add64 (add64 p.scalar_instructions p.vector_instructions) p.misc_instructions

-- The cells of an opcode have, in all, the count of the opcode.
abbrev Accounts : List (String × ℕ) → Opcode → InstructionMix → Type 0
Accounts keys op st = sum_cells keys (st.counters op) ≡ u64 (st.num_inst op)

not_phi : (op o : Opcode) → Memory op → same o phi ≡ true → same o op ≡ false
not_phi op o (inl h) e = rw (h, same_eq o phi e) refl
not_phi op o (inr h) e = rw (h, same_eq o phi e) refl

num_inst-visit :
    (type_id : LlvmType → ℕ) (op : Opcode) (i : TypedInstruction) (st : InstructionMix)
    → Memory op
    → (visit type_id i st).num_inst op
      ≡ (if same i.opcode op then add64 (st.num_inst op) 1 else st.num_inst op)
unfolding visit_opcode
num_inst-visit type_id op i st h =
    ap (λ n. n.0 op) (numbers-visit type_id i st) ∙ elim (Bool-cases (same i.opcode phi)) [
      | inl e ↦ rw (e, not_phi op i.opcode h e) refl
      | inr e ↦ rw e refl
    ]

visit-Accounts_own :
    (type_id : LlvmType → ℕ) (keys : List (String × ℕ)) (i : TypedInstruction) (st : InstructionMix)
    → Memory i.opcode
    → is_printed keys (memory_place type_id i.pointee) ≡ true
    → Accounts keys i.opcode st
    → Accounts keys i.opcode (visit type_id i st)
visit-Accounts_own type_id keys i st memory printed h =
    let grown =
      sum_cells-bump_place keys (memory_place type_id i.pointee) (st.counters i.opcode) printed in
    let counted : (visit type_id i st).num_inst i.opcode ≡ add64 (st.num_inst i.opcode) 1 =
      num_inst-visit type_id i.opcode i st memory ∙ rw (==_refl (position i.opcode)) refl in
    ap (sum_cells keys) (counters-visit type_id i st memory) ∙ omega (arith, grown, counted, h)

sound_value :
    (i : TypedInstruction) → Memory i.opcode → is_sound i ≡ true → is_value_type i.pointee ≡ true
sound_value i memory h = ground (arith, (tests_of i.opcode memory).0)

visit-Accounts :
    (type_id : LlvmType → ℕ) (op : Opcode) (i : TypedInstruction) (st : InstructionMix)
    → IsNumbered type_id
    → Memory op
    → is_sound i ≡ true
    → Accounts (written type_id) op st
    → Accounts (written type_id) op (visit type_id i st)
visit-Accounts type_id op i st llvm memory sound h = elim (Bool-cases (same i.opcode op)) [
  | inl e ↦
      let eq = same_eq i.opcode op e in
      let own = subst Memory (sym eq) memory in
      subst (λ o. Accounts (written type_id) o (visit type_id i st)) eq
        (visit-Accounts_own type_id (written type_id) i st own
          (memory_place_printed type_id i.pointee llvm (sound_value i own sound))
          (subst (λ o. Accounts (written type_id) o st) (sym eq) h))
  | inr e ↦
      ap (sum_cells (written type_id)) (counters-visit_other type_id op i st e)
      ∙ h
      ∙ ap u64 (sym (num_inst-visit type_id op i st memory ∙ rw e refl))
]

run_visits-Accounts :
    (type_id : LlvmType → ℕ) (op : Opcode) (is : List TypedInstruction) (st : InstructionMix)
    → IsNumbered type_id
    → Memory op
    → All (λ i. is_sound i ≡ true) is
    → Accounts (written type_id) op st
    → Accounts (written type_id) op (run_visits type_id is st)
unfolding run_visits
run_visits-Accounts type_id op [] st llvm memory sound h = h
run_visits-Accounts type_id op (i ∷ is) st llvm memory sound h =
    run_visits-Accounts type_id op is (visit type_id i st) llvm memory sound.1
      (visit-Accounts type_id op i st llvm memory sound.0 h)

per_type-cells :
    (type_id : LlvmType → ℕ) (op : Opcode) (n : ℕ) (flag : IsFloat) (st : InstructionMix)
    → sum_per_type (json_dump_per_type type_id op n flag st)
      ≡ sum_cells (partial_keys type_id flag) (st.counters op)
unfolding json_dump_per_type json_dump_partial
per_type-cells type_id op n flag st =
    rw (sum_partials-vectors type_id flag (st.counters op).vector) refl

init-Accounts : (type_id : LlvmType → ℕ) (op : Opcode) → Accounts (written type_id) op init
unfolding init
init-Accounts type_id op = refl

-- Let LLVM number the floating-point types as the code writes them out, and the other types apart
-- from these and from the keys for integers, and let each load and store of a run work on a type
-- that is no vector or on a vector of integers, floating-point numbers or pointers. After the run
-- from a new instruction mix, the scalar, vector and other instructions that the report gives for
-- the loads add up to the count of the loads, as an `unsigned long long`, and the same holds of
-- the stores.
pub json_dump_per_type-accounts :
    (type_id : LlvmType → ℕ) (op : Opcode) (is : List TypedInstruction)
    → IsNumbered type_id
    → (op ≡ load) ⊎ (op ≡ store)
    → All (λ i. is_sound i ≡ true) is
    → sum_per_type (
        json_dump_per_type type_id op
          ((run_visits type_id is init).num_inst op)
          floats_ints
          (run_visits type_id is init))
      ≡ u64 ((run_visits type_id is init).num_inst op)
json_dump_per_type-accounts type_id op is llvm memory sound =
    let st = run_visits type_id is init in
    per_type-cells type_id op (st.num_inst op) floats_ints st
    ∙ ap (λ keys. sum_cells keys (st.counters op)) (partial_keys-all type_id llvm)
    ∙ run_visits-Accounts type_id op is init llvm memory sound (init-Accounts type_id op)
