-- ===== src/Ilp/Schedulers.antt =====
-- The windows of the two schedulers across `ILP::visit`.
use ibm_pisa.Base.{
  ℕ, ◌≡◌, ◌≤◌, ◌<◌, ◌^◌, ap, ◌∙◌, none, true, false, List, arith, Bool-cases, inl, inr, ◌⊎◌, ◌&&◌,
  ◌==◌, refl,
}
use ibm_pisa.Ilp.{schedule}
use ibm_pisa.Ilp.Operands.{TwoValues, State, Instruction, self}
use ibm_pisa.Ilp.Visit.{
  Options, visit, issue_cycle, finish, serialize, is_skipped, start_cycle, is_ctrl,
}
use ibm_pisa.Ilp.Frame.{fixed-cycle, others-insert}
use ibm_pisa.Ilp.Window.{IsAhead, schedule-IsAhead}
use ibm_pisa.Ilp.Start.{issue_cycle-From}

-- The part of the state that the schedulers keep: for each, the cycle of the window and the list.
abbrev pub Windows : Type 0
Windows = (ℕ × List ℕ) × (ℕ × List ℕ)

abbrev pub schedulers : State → Windows
schedulers st = ((st.window_cycle, st.scheduler), (st.window_cycle_in_order, st.scheduler_in_order))

-- The cycles in both windows are those of the window or later ones.
abbrev pub AreAhead : Windows → Type 0
AreAhead w = IsAhead w.0.0 w.0.1 × IsAhead w.1.0 w.1.1

abbrev pub Moved : Windows → Windows → Type 0
Moved w x = (w.0.0 ≤ x.0.0) × (w.1.0 ≤ x.1.0) × AreAhead x

abbrev scheduled : (size : ℕ) → TwoValues → Windows → Windows
scheduled size c w = (schedule size w.0.0 w.0.1 c.value1, schedule size w.1.0 w.1.1 c.value2)

schedulers-issue :
    (options : Options) (i : Instruction) (st : State)
    → schedulers (issue_cycle options i st).1 ≡ schedulers st
unfolding issue_cycle serialize
schedulers-issue options i st = elim (Bool-cases (options.analyze_ilp_ctrl && is_ctrl i)) [
  | inl e ↦ rw e (ap schedulers (fixed-cycle i (start_cycle options st) st))
  | inr e ↦ rw e (ap schedulers (fixed-cycle i (start_cycle options st) st))
]

schedulers_skipped :
    (options : Options) (i : Instruction) (st : State)
    → is_skipped options i ≡ true
    → schedulers (visit options i st) ≡ schedulers st
unfolding visit
schedulers_skipped options i st h = rw h (ap schedulers (fixed-cycle i (start_cycle options st) st))

schedulers_counted :
    (options : Options) (i : Instruction) (st : State)
    → is_skipped options i ≡ false
    → schedulers (visit options i st)
      ≡ scheduled options.window_size (issue_cycle options i st).0 (schedulers st)
unfolding visit finish
schedulers_counted options i st h =
    let c = (issue_cycle options i st).0 in
    let kept = ap schedulers (others-insert (self i) c false none (issue_cycle options i st).1) in
    rw h (ap (scheduled options.window_size c) (kept ∙ schedulers-issue options i st))

schedule_empty : (cycle value : ℕ) (cs : List ℕ) → schedule 0 cycle cs value ≡ (cycle, cs)
unfolding schedule
schedule_empty cycle value cs = refl

scheduled-ahead :
    (size : ℕ) (c : TwoValues) (w : Windows)
    → (size == 0) ≡ true ⊎ ((w.0.0 ≤ c.value1) × (w.1.0 ≤ c.value2))
    → c.value1 < 2 ^ 31
    → c.value2 < 2 ^ 31
    → AreAhead w
    → Moved w (scheduled size c w)
scheduled-ahead size c w (inl e) lt1 lt2 (h0, h1) =
    let empty : size ≡ 0 = ground arith in
    rw (empty, schedule_empty w.0.0 c.value1 w.0.1, schedule_empty w.1.0 c.value2 w.1.1)
      (omega arith, omega arith, (h0, h1))
scheduled-ahead size c w (inr (le1, le2)) lt1 lt2 (h0, h1) =
    let (m0, a0) = schedule-IsAhead size w.0.0 w.0.1 c.value1 h0 le1 lt1 in
    let (m1, a1) = schedule-IsAhead size w.1.0 w.1.1 c.value2 h1 le2 lt2 in (m0, m1, (a0, a1))

start_cases :
    (options : Options) (st : State)
    → (options.window_size == 0) ≡ true
      ⊎ ((st.window_cycle ≤ (start_cycle options st).value1)
          × (st.window_cycle_in_order ≤ (start_cycle options st).value2))
unfolding start_cycle
start_cases options st = elim (Bool-cases (options.window_size == 0)) [
  | inl e ↦ inl e
  | inr e ↦ rw e (inr (omega arith, omega arith))
]

transfer : (w x y : Windows) → y ≡ x → Moved w x → Moved w y
transfer w x y e h = rw e h

-- If the cycles in the windows of both schedulers are that of their window or later ones, and
-- below 2^31, and the issue cycles of the next instruction are below 2^31, then a visit moves no
-- window back, and the cycles left in the windows are those of the windows or later ones, and
-- below 2^31.
pub visit-AreAhead :
    (options : Options) (i : Instruction) (st : State)
    → (issue_cycle options i st).0.value1 < 2 ^ 31
    → (issue_cycle options i st).0.value2 < 2 ^ 31
    → AreAhead (schedulers st)
    → Moved (schedulers st) (schedulers (visit options i st))
visit-AreAhead options i st lt1 lt2 h = elim (Bool-cases (is_skipped options i)) [
  | inl e ↦
      transfer (schedulers st) _ _ (schedulers_skipped options i st e) (omega arith, omega arith, h)
  | inr e ↦
      let (from1, from2) = (issue_cycle-From options i st).1 in
      transfer (schedulers st) _ _ (schedulers_counted options i st e) (
        scheduled-ahead options.window_size _ (schedulers st)
          (elim (start_cases options st) [
            | inl z ↦ inl z
            | inr le ↦ inr (omega (arith, le, from1), omega (arith, le, from2))
          ])
          lt1 lt2 h)
]
