-- ===== src/Ilp/Start.antt =====
-- An instruction issues no earlier than the first cycle it may, and later than what it uses; the
-- cycles in the windows are those of the window or later ones.
use ibm_pisa.Base.{
  ℕ, ◌≤◌, none, some, Option, List, [], ◌∷◌, arith, Bool-cases, inl, inr, ◌&&◌, ◌==◌,
}
use ibm_pisa.OrderedMap.{find}
use ibm_pisa.Ilp.Operands.{
  TwoValues, State, MemoryDep, Instruction, Value, Form, phi_form, call_form, load_form, store_form,
  other_form, value_is_constant_like, is_phi,
}
use ibm_pisa.Ilp.Cycle.{
  use_operand, use_operands, pass_arguments, join_phi, do_load, do_store, do_call, by_form,
  get_inst_issue_cycle, load_cycle, store_cycle, after, after_both,
}
use ibm_pisa.Ilp.Visit.{Options, issue_cycle, serialize, start_cycle, in_order, is_ctrl}

abbrev pub From : TwoValues → TwoValues → Type 0
From c d = (c.value1 ≤ d.value1) × (c.value2 ≤ d.value2)

From-trans : (c d e : TwoValues) → From c d → From d e → From c e
From-trans c d e (h0, h1) (k0, k1) = (omega arith, omega arith)

use_operand-From : (st : State) (v : Value) (c : TwoValues) → From c (use_operand st v c)
unfolding use_operand
use_operand-From st v c = elim (Bool-cases (value_is_constant_like v)) [
  | inl e ↦ elim (Bool-cases (is_phi v.sort)) [
    | inl f ↦ rw (e, f) (ground arith, ground arith)
    | inr f ↦ rw (e, f) (omega arith, omega arith)
  ]
  | inr e ↦ rw e (ground arith, ground arith)
]

pub use_operands-From :
    (st : State) (vs : List Value) (c : TwoValues) → From c (use_operands st vs c)
unfolding use_operands
use_operands-From st [] c = (omega arith, omega arith)
use_operands-From st (v ∷ vs) c =
    From-trans c (use_operand st v c) _ (use_operand-From st v c)
      (use_operands-From st vs (use_operand st v c))

pass_arguments-From :
    (parameters : List ℕ) (arguments : List Value) (c : TwoValues) (st : State)
    → From c (pass_arguments parameters arguments c st).0
unfolding pass_arguments
pass_arguments-From parameters [] c st = (omega arith, omega arith)
pass_arguments-From [] (x ∷ xs) c st =
    From-trans c (use_operand st x c) _ (use_operand-From st x c)
      (pass_arguments-From [] xs (use_operand st x c) st)
pass_arguments-From (p ∷ ps) (x ∷ xs) c st =
    From-trans c (use_operand st x c) _ (use_operand-From st x c)
      (pass_arguments-From ps xs (use_operand st x c) _)

join_phi-From :
    (i : Instruction) (incoming : List (ℕ × Value)) (c : TwoValues) (st : State)
    → From c (join_phi i incoming c st).0
unfolding join_phi
join_phi-From i [] c st = (omega arith, omega arith)
join_phi-From i ((block, v) ∷ incoming) c st = elim (Bool-cases (block == st.prev_bb)) [
  | inl e ↦ rw e (ground arith, ground arith)
  | inr e ↦ rw e (join_phi-From i incoming c st)
]

load_cycle-From :
    (floor : ℕ) (found : Option MemoryDep) (usage c : TwoValues)
    → From c (load_cycle floor found (after floor usage c))
load_cycle-From floor none usage c = (ground arith, ground arith)
load_cycle-From floor (some d) usage c = (ground arith, ground arith)

store_cycle-From :
    (floor : ℕ) (found : Option MemoryDep) (value pointer c : TwoValues)
    → From c (store_cycle found (after_both floor value pointer c))
store_cycle-From floor none value pointer c = (ground arith, ground arith)
store_cycle-From floor (some d) value pointer c = (ground arith, ground arith)

by_form-From :
    (i : Instruction) (form : Form) (start : TwoValues) (st : State)
    → From start (by_form i form start st).0
unfolding by_form do_call do_load do_store
by_form-From i (phi_form incoming) start st = join_phi-From i incoming start st
by_form-From i (call_form none arguments) start st = (omega arith, omega arith)
by_form-From i (call_form (some ps) arguments) start st = pass_arguments-From ps arguments start st
by_form-From i (load_form pointer a) start st =
    load_cycle-From _ (find a st.last_usage_memory) _ start
by_form-From i (store_form value pointer a) start st =
    store_cycle-From _ (find a st.last_usage_memory) _ _ start
by_form-From i (other_form opcode operands) start st = use_operands-From st operands start

serialize-From :
    (options : Options) (i : Instruction) (c : TwoValues) (st : State)
    → From c (serialize options i c st).0
unfolding serialize
serialize-From options i c st = elim (Bool-cases (options.analyze_ilp_ctrl && is_ctrl i)) [
  | inl e ↦ rw e (ground arith, omega arith)
  | inr e ↦ rw e (omega arith, omega arith)
]

-- The issue cycle is the first cycle or a later one, after all restrictions of the analysis.
pub issue_cycle-From :
    (options : Options) (i : Instruction) (st : State)
    → From (get_inst_issue_cycle i (start_cycle options st) st).0 (issue_cycle options i st).0
      × From (start_cycle options st) (issue_cycle options i st).0
unfolding issue_cycle in_order get_inst_issue_cycle
issue_cycle-From options i st =
    let (c0, c1) = by_form-From i i.form (start_cycle options st) st in
    let computed = by_form i i.form (start_cycle options st) st in
    let (s0, s1) = serialize-From options i (in_order computed.0 computed.1) computed.1 in
    ((omega (arith, s0), ground (arith, s1)), (omega (arith, c0, s0), ground (arith, c1, s1)))
