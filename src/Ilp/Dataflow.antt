-- ===== src/Ilp/Dataflow.antt =====
-- The order of an instruction and of those whose results it uses.
use ibm_pisa.Base.{
  ℕ, ◌≡◌, ◌<◌, ◌^◌, ◌+◌, refl, ap, none, true, false, List, [], ◌∷◌, ◌++◌, arith, ◌==◌, ==_refl,
}
use ibm_pisa.Instructions.{Opcode}
use ibm_pisa.Ilp.Operands.{
  TwoValues, State, Instruction, Value, Form, other_form, self, lookup_operand,
  value_is_constant_like, is_constant, is_phi, sort_of, phi_form, call_form, load_form, store_form,
}
use ibm_pisa.Ilp.Cycle.{use_operand, use_operands, by_form, get_inst_issue_cycle}
use ibm_pisa.Ilp.Visit.{Options, visit, issue_cycle, finish, is_skipped, start_cycle}
use ibm_pisa.Ilp.Values.{lookup_operand-insert}
use ibm_pisa.Ilp.Hazards.{Earlier}
use ibm_pisa.Ilp.Start.{use_operands-From, issue_cycle-From}

use_operand-after :
    (st : State) (v : Value) (c : TwoValues)
    → value_is_constant_like v ≡ false
    → (lookup_operand v st).value1 + 1 < 2 ^ 64
    → (lookup_operand v st).value2 + 1 < 2 ^ 64
    → Earlier (lookup_operand v st) (use_operand st v c)
unfolding use_operand
use_operand-after st v c plain f1 f2 = rw plain (ground arith, ground arith)

-- An instruction issues after each operand that is not like a constant.
use_operands-after :
    (st : State) (xs ys : List Value) (v : Value) (c : TwoValues)
    → value_is_constant_like v ≡ false
    → (lookup_operand v st).value1 + 1 < 2 ^ 64
    → (lookup_operand v st).value2 + 1 < 2 ^ 64
    → Earlier (lookup_operand v st) (use_operands st (xs ++ v ∷ ys) c)
unfolding use_operands
use_operands-after st [] ys v c plain f1 f2 =
    let (le1, le2) = use_operands-From st ys (use_operand st v c) in
    let (lt1, lt2) = use_operand-after st v c plain f1 f2 in
    (omega (arith, le1, lt1), omega (arith, le2, lt2))
use_operands-after st (x ∷ xs) ys v c plain f1 f2 =
    use_operands-after st xs ys v (use_operand st x c) plain f1 f2

self_plain :
    (form : Form) (a : ℕ)
    → is_phi (sort_of form) ≡ false
    → (value_is_constant_like record { address = a; sort = sort_of form } ≡ false)
      × (is_constant (sort_of form) ≡ false)
unfolding value_is_constant_like
self_plain (phi_form incoming) a h = absurd (ground arith)
self_plain (call_form callee arguments) a h = (refl, refl)
self_plain (load_form pointer b) a h = (refl, refl)
self_plain (store_form value pointer b) a h = (refl, refl)
self_plain (other_form opcode operands) a h = (refl, refl)

counted_plain :
    (options : Options) (i : Instruction)
    → is_skipped options i ≡ false
    → (value_is_constant_like (self i) ≡ false) × (is_constant (sort_of i.form) ≡ false)
unfolding is_skipped
counted_plain options i h = self_plain i.form i.address (ground arith)

lookup-visit :
    (options : Options) (i : Instruction) (st : State)
    → is_skipped options i ≡ false
    → lookup_operand (self i) (visit options i st) ≡ (issue_cycle options i st).0
unfolding visit finish lookup_operand
lookup-visit options i st counted =
    let hit : (i.address == i.address) ≡ true = ==_refl i.address in
    let (c, st1) = issue_cycle options i st in
    rw
      (
        counted,
        lookup_operand-insert (self i) (self i) c false none st1
            (counted_plain options i counted).1,
        hit,
      )
      refl

other_cycle :
    (i : Instruction) (opcode : Opcode) (operands : List Value) (start : TwoValues) (st : State)
    → i.form ≡ other_form opcode operands
    → (get_inst_issue_cycle i start st).0 ≡ use_operands st operands start
unfolding get_inst_issue_cycle by_form
other_cycle i opcode operands start st h = rw h refl

-- An instruction that is neither a load, a store, a call nor a phi, visited right after one that
-- the analysis counts and whose result is among its operands, issues strictly later than that one,
-- out of order and in order, if the cycles of the first are below 2^64 - 1.
pub visit-consumer :
    (options : Options) (producer consumer : Instruction) (opcode : Opcode) (xs ys : List Value)
    (st : State)
    → is_skipped options producer ≡ false
    → consumer.form ≡ other_form opcode (xs ++ self producer ∷ ys)
    → (issue_cycle options producer st).0.value1 + 1 < 2 ^ 64
    → (issue_cycle options producer st).0.value2 + 1 < 2 ^ 64
    → Earlier
        (issue_cycle options producer st).0
        (issue_cycle options consumer (visit options producer st)).0
visit-consumer options producer consumer opcode xs ys st counted uses f1 f2 =
    let st1 = visit options producer st in
    let start = start_cycle options st1 in
    let known = lookup-visit options producer st counted in
    let (lt1, lt2) =
      use_operands-after st1 xs ys (self producer) start (counted_plain options producer counted).0
        (omega (arith, ap (λ c. c.value1) known, f1))
        (omega (arith, ap (λ c. c.value2) known, f2)) in
    let (from1, from2) = (issue_cycle-From options consumer st1).0 in
    let same = other_cycle consumer opcode (xs ++ self producer ∷ ys) start st1 uses in
    (
      omega (arith, ap (λ c. c.value1) known, ap (λ c. c.value1) same, lt1, from1),
      omega (arith, ap (λ c. c.value2) known, ap (λ c. c.value2) same, lt2, from2),
    )
