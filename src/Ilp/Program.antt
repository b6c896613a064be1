-- ===== src/Ilp/Program.antt =====
-- The cycles of a run of instructions, in the order of the program: those of the in-order schedule,
-- and those of the control instructions where the analysis serializes them.
use ibm_pisa.Base.{
  ℕ, ◌≡◌, ◌≤◌, refl, ap, sym, ◌∙◌, none, false, List, [], ◌∷◌, arith, Bool-cases, inl, inr,
  if◌then◌else◌, ◌&&◌,
}
use ibm_pisa.Ilp.{account}
use ibm_pisa.Ilp.Operands.{TwoValues, State, Instruction, self}
use ibm_pisa.Ilp.Visit.{
  Options, visit, issue_cycle, finish, serialize, is_skipped, start_cycle, in_order, run_visits,
  is_ctrl,
}
use ibm_pisa.Ilp.Frame.{fixed-cycle, others-insert}

abbrev pub Rises : ℕ → List ℕ → Type 0
Rises m [] = Unit
Rises m (c ∷ cs) = (m ≤ c) × Rises c cs

abbrev pub last_of : ℕ → List ℕ → ℕ
last_of m [] = m
last_of m (c ∷ cs) = last_of c cs

-- The in-order cycles of the instructions that a run counts.
abbrev pub in_order_cycles : Options → List Instruction → State → List ℕ
in_order_cycles options [] st = []
in_order_cycles options (i ∷ is) st =
    let rest = in_order_cycles options is (visit options i st) in
    if is_skipped options i then rest else (issue_cycle options i st).0.value2 ∷ rest

abbrev pub floor_of : State → ℕ
floor_of st = st.totals.max_issue_cycle_in_order

floor-serialize :
    (options : Options) (i : Instruction) (c : TwoValues) (st : State)
    → (floor_of (serialize options i c st).1 ≡ floor_of st)
      × ((serialize options i c st).0.value2 ≡ c.value2)
unfolding serialize
floor-serialize options i c st = elim (Bool-cases (options.analyze_ilp_ctrl && is_ctrl i)) [
  | inl e ↦ rw e (refl, refl)
  | inr e ↦ rw e (refl, refl)
]

-- No instruction issues before the floor of the in-order schedule.
issue_cycle-floor :
    (options : Options) (i : Instruction) (st : State)
    → (floor_of (issue_cycle options i st).1 ≡ floor_of st)
      × (floor_of st ≤ (issue_cycle options i st).0.value2)
unfolding issue_cycle in_order
issue_cycle-floor options i st =
    let same = ap floor_of (fixed-cycle i (start_cycle options st) st) in
    let (kept, cycle) = floor-serialize options i _ _ in
    (kept ∙ same, rw cycle (ground (arith, same)))

floor-visit :
    (options : Options) (i : Instruction) (st : State)
    → floor_of (visit options i st)
      ≡ (if is_skipped options i then floor_of st else (issue_cycle options i st).0.value2)
unfolding visit finish account
floor-visit options i st = elim (Bool-cases (is_skipped options i)) [
  | inl e ↦ rw e (ap floor_of (fixed-cycle i (start_cycle options st) st))
  | inr e ↦
      let (same, le) = issue_cycle-floor options i st in
      let kept = ap floor_of (
        others-insert (self i) (issue_cycle options i st).0 false none
          (issue_cycle options i st).1) in
      rw e (ground (arith, same, kept, le))
]

from_same :
    (m n last : ℕ) (cs : List ℕ)
    → m ≡ n
    → Rises m cs × (last ≡ last_of m cs)
    → Rises n cs × (last ≡ last_of n cs)
from_same m n last cs e h = rw (sym e) h

-- Over any run, the in-order issue cycles of the counted instructions do not fall, from the
-- greatest in-order cycle of the first state on, and the greatest in-order cycle of the last state
-- is the last of them.
pub run_visits-in_order :
    (options : Options) (is : List Instruction) (st : State)
    → Rises (floor_of st) (in_order_cycles options is st)
      × (floor_of (run_visits options is st)
          ≡ last_of (floor_of st) (in_order_cycles options is st))
unfolding run_visits
run_visits-in_order options [] st = (tt, refl)
run_visits-in_order options (i ∷ is) st =
    let rest = run_visits-in_order options is (visit options i st) in
    elim (Bool-cases (is_skipped options i)) [
      | inl e ↦ rw e (from_same _ _ _ _ (rw (floor-visit options i st, e) refl) rest)
      | inr e ↦
          let (rises, last) = from_same _ _ _ _ (rw (floor-visit options i st, e) refl) rest in
          rw e (((issue_cycle-floor options i st).1, rises), last)
    ]
