-- ===== src/Ilp/Values.antt =====
-- The table of the last usage of values, and the calls that read and write it.
use ibm_pisa.Base.{
  ℕ, ◌≡◌, refl, Bool, true, false, Option, some, arith, Bool-cases, inl, inr, ◌==◌, if◌then◌else◌,
  ltb,
}
use ibm_pisa.OrderedMap.{find-put}
use ibm_pisa.Ilp.{max}
use ibm_pisa.Ilp.Operands.{
  Value, TwoValues, State, is_constant, lookup_operand, insert_operand_usage,
}
use ibm_pisa.Ilp.Cycle.{latest}
use ibm_pisa.Ilp.Visit.{update_ilp_for_call}

-- What a write leaves: the cycle it wrote at its value, and all others as they were.
pub lookup_operand-insert :
    (v op : Value) (c : TwoValues) (new : Bool) (previous : Option Value) (st : State)
    → is_constant op.sort ≡ false
    → lookup_operand v (insert_operand_usage op c new previous st)
      ≡ (if op.address == v.address then c else lookup_operand v st)
unfolding lookup_operand insert_operand_usage
lookup_operand-insert v op c true previous st h =
    rw (h, find-put v.address op.address _ st.last_usage_operands) (ground arith)
lookup_operand-insert v op c false previous st h =
    rw (h, find-put v.address op.address _ st.last_usage_operands) (ground arith)

lookup_same :
    (v op : Value) (st : State)
    → (op.address == v.address) ≡ true
    → lookup_operand v st ≡ lookup_operand op st
unfolding lookup_operand
lookup_same v op st h = let same : v.address ≡ op.address = ground arith in rw same refl

max_lt : (c r : ℕ) → ltb r c ≡ true → max c r ≡ c
max_lt c r h = ground arith

max_ge : (c r : ℕ) → ltb r c ≡ false → max c r ≡ r
max_ge c r h = ground arith

-- After `updateILPforCall`, the usage of the call, which is not a constant, has for each of the
-- two schedules the later of its cycle and that of the return instruction, and the usages of all
-- other values are as before.
pub update_ilp_for_call-latest :
    (returned called v : Value) (st : State)
    → is_constant called.sort ≡ false
    → lookup_operand v (update_ilp_for_call returned called st) ≡ (
        if called.address == v.address
        then latest (lookup_operand called st) (lookup_operand returned st)
        else lookup_operand v st)
unfolding update_ilp_for_call
update_ilp_for_call-latest returned called v st h =
    let r = lookup_operand returned st in
    let c = lookup_operand called st in
    elim (Bool-cases (ltb r.value1 c.value1)) [
      | inl e ↦ elim (Bool-cases (ltb r.value2 c.value2)) [
        | inl f ↦
            rw (e, f, max_lt c.value1 r.value1 e, max_lt c.value2 r.value2 f)
              (ground (arith, lookup_same v called st))
        | inr f ↦
            rw
              (
                e,
                f,
                max_lt c.value1 r.value1 e,
                max_ge c.value2 r.value2 f,
                lookup_operand-insert v called _ false (some returned) st h,
              )
              refl
      ]
      | inr e ↦ elim (Bool-cases (ltb r.value2 c.value2)) [
        | inl f ↦
            rw
              (
                e,
                f,
                max_ge c.value1 r.value1 e,
                max_lt c.value2 r.value2 f,
                lookup_operand-insert v called _ false (some returned) st h,
              )
              refl
        | inr f ↦
            rw
              (
                e,
                f,
                max_ge c.value1 r.value1 e,
                max_ge c.value2 r.value2 f,
                lookup_operand-insert v called _ false (some returned) st h,
              )
              refl
      ]
    ]
