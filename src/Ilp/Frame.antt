-- ===== src/Ilp/Frame.antt =====
-- What the calls on the operands leave as it is: `others` is all but the table of the operands and
-- its counter, and `fixed` also leaves out the table of the memory.
use ibm_pisa.Base.{
  ℕ, ◌≡◌, refl, ◌∙◌, ap, Bool, true, false, Option, none, some, List, [], ◌∷◌, Bool-cases, inl, inr,
  ◌==◌,
}
use ibm_pisa.Ilp.Operands.{
  Value, TwoValues, MemoryDep, State, Instruction, Form, phi_form, call_form, load_form, store_form,
  other_form, is_constant, insert_operand_usage,
}
use ibm_pisa.Ilp.Cycle.{
  write_dep, do_load, do_store, do_call, join_phi, pass_arguments, by_form, get_inst_issue_cycle,
}

abbrev pub others : State → State
others st = record st { last_usage_operands = []; value_star_count = 0 }

abbrev pub fixed : State → State
fixed st = record (others st) { last_usage_memory = [] }

pub others-insert :
    (op : Value) (c : TwoValues) (new : Bool) (previous : Option Value) (st : State)
    → others (insert_operand_usage op c new previous st) ≡ others st
unfolding insert_operand_usage
others-insert op c true previous st = elim (Bool-cases (is_constant op.sort)) [
  | inl e ↦ rw e refl
  | inr e ↦ rw e refl
]
others-insert op c false previous st = elim (Bool-cases (is_constant op.sort)) [
  | inl e ↦ rw e refl
  | inr e ↦ rw e refl
]

pub others-pass_arguments :
    (parameters : List ℕ) (arguments : List Value) (c : TwoValues) (st : State)
    → others (pass_arguments parameters arguments c st).1 ≡ others st
unfolding pass_arguments
others-pass_arguments parameters [] c st = refl
others-pass_arguments [] (x ∷ xs) c st = others-pass_arguments [] xs _ st
others-pass_arguments (p ∷ ps) (x ∷ xs) c st =
    rw (others-pass_arguments ps xs _ _) (others-insert _ _ false (some x) st)

pub others-join_phi :
    (i : Instruction) (incoming : List (ℕ × Value)) (c : TwoValues) (st : State)
    → others (join_phi i incoming c st).1 ≡ others st
unfolding join_phi
others-join_phi i [] c st = refl
others-join_phi i ((block, v) ∷ incoming) c st = elim (Bool-cases (block == st.prev_bb)) [
  | inl e ↦ rw e (others-insert _ _ false (some v) st)
  | inr e ↦ rw e (others-join_phi i incoming c st)
]

fixed-write_dep :
    (a : ℕ) (found : Option MemoryDep) (tmp : MemoryDep) (st : State)
    → fixed (write_dep a found tmp st) ≡ fixed st
fixed-write_dep a none tmp st = refl
fixed-write_dep a (some d) tmp st = refl

abbrev forget_memory : State → State
forget_memory st = record st { last_usage_memory = [] }

-- The computation of a cycle writes the two tables and the counter, and nothing else.
pub fixed-by_form :
    (i : Instruction) (form : Form) (start : TwoValues) (st : State)
    → fixed (by_form i form start st).1 ≡ fixed st
unfolding by_form do_call do_load do_store
fixed-by_form i (phi_form incoming) start st =
    ap forget_memory (others-join_phi i incoming start st)
fixed-by_form i (call_form none arguments) start st = refl
fixed-by_form i (call_form (some ps) arguments) start st =
    ap forget_memory (others-insert _ _ true none _ ∙ others-pass_arguments ps arguments start st)
fixed-by_form i (load_form pointer a) start st =
    fixed-write_dep a _ _ _ ∙ ap forget_memory (others-insert _ _ true none st)
fixed-by_form i (store_form value pointer a) start st =
    fixed-write_dep a _ _ _
    ∙ ap forget_memory (others-insert pointer _ false (some _) _ ∙ others-insert _ _ true none st)
fixed-by_form i (other_form opcode operands) start st =
    ap forget_memory (others-insert _ _ true none st)

pub fixed-cycle :
    (i : Instruction) (start : TwoValues) (st : State)
    → fixed (get_inst_issue_cycle i start st).1 ≡ fixed st
unfolding get_inst_issue_cycle
fixed-cycle i start st = fixed-by_form i i.form start st
