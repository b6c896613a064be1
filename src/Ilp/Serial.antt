-- ===== src/Ilp/Serial.antt =====
-- The cycles of the control instructions, where the analysis serializes them.
use ibm_pisa.Base.{
  ℕ, suc, ◌≡◌, ◌≤◌, ◌<◌, ◌^◌, ◌+◌, refl, ap, sym, ◌∙◌, none, Bool, true, false, List, [], ◌∷◌,
  arith, Bool-cases, inl, inr, if◌then◌else◌, ◌&&◌, add64, All, not,
}
use ibm_pisa.Ilp.Operands.{TwoValues, State, Instruction, self}
use ibm_pisa.Ilp.Cycle.{get_inst_issue_cycle}
use ibm_pisa.Ilp.Visit.{
  Options, visit, issue_cycle, finish, serialize, is_skipped, start_cycle, in_order, is_ctrl,
}
use ibm_pisa.Ilp.Frame.{fixed-cycle, others-insert}

-- Strictly rising, from a first value on.
abbrev pub Climbs : ℕ → List ℕ → Type 0
Climbs m [] = Unit
Climbs m (c ∷ cs) = (m ≤ c) × Climbs (suc c) cs

abbrev pub counts_ctrl : Options → Instruction → Bool
counts_ctrl options i = is_ctrl i && not (is_skipped options i)

abbrev pub ctrl_cycles : Options → List Instruction → State → List ℕ
ctrl_cycles options [] st = []
ctrl_cycles options (i ∷ is) st =
    let rest = ctrl_cycles options is (visit options i st) in
    if counts_ctrl options i then (issue_cycle options i st).0.value1 ∷ rest else rest

abbrev pub next_of : State → ℕ
next_of st = st.min_issue_cycle_for_ctrl

serialize_ctrl :
    (options : Options) (i : Instruction) (c : TwoValues) (st : State)
    → options.analyze_ilp_ctrl ≡ true
    → is_ctrl i ≡ true
    → (next_of st ≤ (serialize options i c st).0.value1)
      × (next_of (serialize options i c st).1 ≡ add64 (serialize options i c st).0.value1 1)
unfolding serialize
serialize_ctrl options i c st on h = rw (on, h) (ground arith, refl)

serialize_other :
    (options : Options) (i : Instruction) (c : TwoValues) (st : State)
    → is_ctrl i ≡ false
    → next_of (serialize options i c st).1 ≡ next_of st
unfolding serialize
serialize_other options i c st h = rw h (ground arith)

next-skipped :
    (options : Options) (i : Instruction) (st : State)
    → is_skipped options i ≡ true
    → next_of (visit options i st) ≡ next_of st
unfolding visit
next-skipped options i st h = rw h (ap next_of (fixed-cycle i (start_cycle options st) st))

next-finish :
    (options : Options) (i : Instruction) (st : State)
    → is_skipped options i ≡ false
    → next_of (visit options i st) ≡ next_of (issue_cycle options i st).1
unfolding visit finish
next-finish options i st h = rw h (
    ap next_of
      (others-insert (self i) (issue_cycle options i st).0 false none (issue_cycle options i st).1))

next-ctrl :
    (options : Options) (i : Instruction) (st : State)
    → options.analyze_ilp_ctrl ≡ true
    → is_ctrl i ≡ true
    → (next_of st ≤ (issue_cycle options i st).0.value1)
      × (next_of (issue_cycle options i st).1 ≡ add64 (issue_cycle options i st).0.value1 1)
unfolding issue_cycle
next-ctrl options i st on h =
    let computed = get_inst_issue_cycle i (start_cycle options st) st in
    let same : next_of computed.1 ≡ next_of st =
      ap next_of (fixed-cycle i (start_cycle options st) st) in
    let (le, next) = serialize_ctrl options i (in_order computed.0 computed.1) computed.1 on h in
    (omega (arith, same, le), next)

next-other :
    (options : Options) (i : Instruction) (st : State)
    → is_ctrl i ≡ false
    → next_of (issue_cycle options i st).1 ≡ next_of st
unfolding issue_cycle
next-other options i st h =
    serialize_other options i _ _ h ∙ ap next_of (fixed-cycle i (start_cycle options st) st)

next-counted :
    (options : Options) (i : Instruction) (st : State)
    → options.analyze_ilp_ctrl ≡ true
    → counts_ctrl options i ≡ true
    → (next_of st ≤ (issue_cycle options i st).0.value1)
      × (next_of (visit options i st) ≡ add64 (issue_cycle options i st).0.value1 1)
next-counted options i st on h =
    let ctrl : is_ctrl i ≡ true = ground arith in
    let kept : is_skipped options i ≡ false = ground arith in
    let (le, next) = next-ctrl options i st on ctrl in (le, next-finish options i st kept ∙ next)

next-uncounted :
    (options : Options) (i : Instruction) (st : State)
    → counts_ctrl options i ≡ false
    → next_of (visit options i st) ≡ next_of st
next-uncounted options i st h = elim (Bool-cases (is_skipped options i)) [
  | inl e ↦ next-skipped options i st e
  | inr e ↦
      let other : is_ctrl i ≡ false = ground arith in
      next-finish options i st e ∙ next-other options i st other
]

abbrev Fits : List ℕ → Type 0
Fits = All (λ c. c + 1 < 2 ^ 64)

ctrl_step :
    (counts : Bool) (m n c : ℕ) (rest : List ℕ)
    → (counts ≡ true → (m ≤ c) × (n ≡ add64 c 1))
    → (counts ≡ false → n ≡ m)
    → (Fits rest → Climbs n rest)
    → Fits (if counts then c ∷ rest else rest)
    → Climbs m (if counts then c ∷ rest else rest)
ctrl_step false m n c rest f g h fits = rw (sym (g refl)) (h fits)
ctrl_step true m n c rest f g h fits =
    let (le, next) = f refl in
    let same : suc c ≡ n = omega (arith, next, fits.0) in (le, rw same (h fits.1))

-- If the analysis serializes control instructions, the issue cycles of the counted control
-- instructions of a run rise strictly, from the least cycle that the first state allows on, as
-- long as they are below 2^64 - 1.
pub run_visits-serial :
    (options : Options) (is : List Instruction) (st : State)
    → options.analyze_ilp_ctrl ≡ true
    → All (λ c. c + 1 < 2 ^ 64) (ctrl_cycles options is st)
    → Climbs (next_of st) (ctrl_cycles options is st)
run_visits-serial options [] st on fits = tt
run_visits-serial options (i ∷ is) st on fits =
    ctrl_step (counts_ctrl options i) (next_of st) (next_of (visit options i st)) _ _
      (next-counted options i st on) (next-uncounted options i st)
      (run_visits-serial options is (visit options i st) on) fits
