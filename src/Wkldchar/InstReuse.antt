-- ===== src/Wkldchar/InstReuse.antt =====
-- The instruction reuse analysis inside `WKLDchar::analyze`: the issue cycles that the driver gives to
-- it are the places in the count of the instruction mix.
use ibm_pisa.Base.{
  ℕ, suc, ◌+◌, ◌≡◌, ◌<◌, ◌^◌, refl, ap, subst, ◌∙◌, true, false, Option, some, List, [], ◌∷◌,
  if◌then◌else◌, arith, add64, length, Below, Bool-cases, inl, inr, Option-cases,
}
use ibm_pisa.Instructions.{LlvmType, phi}
use ibm_pisa.Instructions.Opcodes.{same}
use ibm_pisa.Ilp.Visit.{Options}
use ibm_pisa.InstructionMix.{TypedInstruction, InstructionMix, visit_opcode}
use ibm_pisa.InstructionMix.Visits
use ibm_pisa.InstructionMix.Categories.{numbers-visit}
use ibm_pisa.Reuse.Inst.{InstTempReuse}
use ibm_pisa.Reuse.Inst
use ibm_pisa.Reuse.Stack.{Stack, cycles}
use ibm_pisa.Reuse.InstDistance.{
  Refines, Climbs, HasLines, run_visits, stack_after, distribution_after, run_visits-Refines,
}
use ibm_pisa.Wkldchar.{
  Event, Settings, Wkldchar, is_phi_event, if_on_itr, analyze, analyze_counted, run_analyze,
  after_ilp, after_itr, after_dtr,
}

total-visit :
    (type_id : LlvmType → ℕ) (i : TypedInstruction) (st : InstructionMix)
    → same i.opcode phi ≡ false
    → (Visits.visit type_id i st).num_total_insts ≡ add64 st.num_total_insts 1
unfolding visit_opcode
total-visit type_id i st h = ap (λ n. n.1) (numbers-visit type_id i st) ∙ rw h refl

-- The trace that the instruction reuse analysis gets: the instructions that are no phi instructions,
-- numbered from the count on.
abbrev pub numbered : ℕ → List Event → List (ℕ × ℕ)
numbered n [] = []
numbered n (e ∷ events) =
    let same_count = numbered n events in
    let next_count = numbered (suc n) events in
    if is_phi_event e then same_count else (e.address, suc n) ∷ next_count

numbered-Climbs : (n : ℕ) (events : List Event) → Climbs n (numbered n events)
numbered-Climbs n [] = tt
numbered-Climbs n (e ∷ events) = elim (Bool-cases (is_phi_event e)) [
  | inl h ↦ rw h (numbered-Climbs n events)
  | inr h ↦ rw h (omega arith, numbered-Climbs (suc n) events)
]

numbered_skip :
    (n : ℕ) (e : Event) (events : List Event)
    → is_phi_event e ≡ true
    → numbered n (e ∷ events) ≡ numbered n events
numbered_skip n e events h = rw h refl

numbered_next :
    (n : ℕ) (e : Event) (events : List Event)
    → is_phi_event e ≡ false
    → numbered n (e ∷ events) ≡ (e.address, suc n) ∷ numbered (suc n) events
numbered_next n e events h = rw h refl

if_on_itr-some :
    (f : InstTempReuse → Option InstTempReuse) (a b : InstTempReuse)
    → f a ≡ some b
    → if_on_itr f (some a) ≡ some (some b)
if_on_itr-some f a b h = rw (if_on_itr, h) refl

-- A run that is defined starts with a visit that is defined.
run_visits_first :
    (i c : ℕ) (trace : List (ℕ × ℕ)) (it it' : InstTempReuse)
    → run_visits ((i, c) ∷ trace) it ≡ some it'
    → (it1 : InstTempReuse) × (Inst.visit i c it ≡ some it1) × (run_visits trace it1 ≡ some it')
unfolding run_visits
run_visits_first i c trace it it' h = elim (Option-cases (Inst.visit i c it)) [
  | inl e ↦ absurd (ground (arith, h, e))
  | inr (it1, e) ↦ (it1, e, ground (arith, h, e))
]

module _ (options : Options) (type_id : LlvmType → ℕ) (settings : Settings) where
  -- A phi instruction changes neither the count nor the instruction reuse analysis.
  analyze_skip :
      (e : Event) (st : Wkldchar)
      → is_phi_event e ≡ true
      → analyze options type_id settings e st ≡ some (after_ilp options e st)
  unfolding analyze
  analyze_skip e st h = rw h refl

  total_next :
      (e : Event) (st : Wkldchar) (n : ℕ)
      → is_phi_event e ≡ false
      → st.mix.num_total_insts ≡ n
      → suc n < 2 ^ 64
      → (Visits.visit type_id e.typed st.mix).num_total_insts ≡ suc n
  total_next e st n h count fits = omega (arith, total-visit type_id e.typed st.mix h, count, fits)

  analyze_next :
      (e : Event) (st : Wkldchar) (n : ℕ) (it it1 : InstTempReuse)
      → is_phi_event e ≡ false
      → st.itr ≡ some it
      → (Visits.visit type_id e.typed st.mix).num_total_insts ≡ n
      → Inst.visit e.address n it ≡ some it1
      → analyze options type_id settings e st
        ≡ some (after_itr settings e (after_dtr type_id e (after_ilp options e st)) (some it1))
  unfolding analyze analyze_counted
  analyze_next e st n it it1 h on cycle visited =
      let step : if_on_itr
            (Inst.visit e.address (Visits.visit type_id e.typed st.mix).num_total_insts) st.itr
          ≡ some (some it1) =
        rw (cycle, on) (if_on_itr-some (Inst.visit e.address n) it it1 visited) in
      rw (h, analyze_counted, step) refl

  -- A run of the analysis alone on the numbered trace is a run of the driver.
  run_analyze-itr :
      (events : List Event) (n : ℕ) (st : Wkldchar) (it it' : InstTempReuse)
      → st.itr ≡ some it
      → st.mix.num_total_insts ≡ n
      → n + length events < 2 ^ 64
      → run_visits (numbered n events) it ≡ some it'
      → (st' : Wkldchar) × (run_analyze options type_id settings events st ≡ some st')
        × (st'.itr ≡ some it')
  unfolding run_analyze
  run_analyze-itr [] n st it it' on count fits h = (st, refl, on ∙ (unfold run_visits in h))
  run_analyze-itr (e ∷ events) n st it it' on count fits h = elim (Bool-cases (is_phi_event e)) [
    | inl p ↦
        let rest = subst (λ t. run_visits t it ≡ some it') (numbered_skip n e events p) h in
        let (st', run, last) =
          run_analyze-itr events n (after_ilp options e st) it it' on count (omega (arith, fits))
            rest in
        (st', rw (run_analyze, analyze_skip e st p) run, last)
    | inr p ↦
        let first = subst (λ t. run_visits t it ≡ some it') (numbered_next n e events p) h in
        let (it1, visited, rest) =
          run_visits_first e.address (suc n) (numbered (suc n) events) it it' first in
        let total = total_next e st n p count (omega (arith, fits)) in
        let (st', run, last) =
          run_analyze-itr events (suc n)
            (after_itr settings e (after_dtr type_id e (after_ilp options e st)) (some it1)) it1 it'
            refl total (omega (arith, fits)) rest in
        (st', rw (run_analyze, analyze_next e st (suc n) it it1 p on total visited) run, last)
  ]

-- Take a driver whose instruction reuse analysis is on and represents an LRU stack with cycles
-- below the next count, and a run of executed instructions that, with the instructions counted
-- before, are fewer than 2^64, where each that is no phi has a line that `memory_access` gives.
-- Then the driver analyses the whole run, with the other analyses on or off; afterwards the reuse
-- analysis represents the stack after the instructions that are no phi, numbered as the
-- instruction mix counts them, and its distribution holds, beside what was there, each access that
-- is not the first of its line in the bin of its depth in the stack.
pub run_analyze-Refines :
    (options : Options) (type_id : LlvmType → ℕ) (settings : Settings) (line : ℕ → ℕ)
    (events : List Event) (s : Stack) (st : Wkldchar) (it : InstTempReuse)
    → st.itr ≡ some it
    → Refines s it
    → Below (suc st.mix.num_total_insts) (cycles s)
    → st.mix.num_total_insts + length events < 2 ^ 64
    → HasLines line (numbered st.mix.num_total_insts events) it
    → (st' : Wkldchar) × (it' : InstTempReuse) × (run_analyze options type_id settings events st
        ≡ some st')
      × (st'.itr ≡ some it')
      × Refines (stack_after line (numbered st.mix.num_total_insts events) s) it'
      × (it'.distance_distribution
          ≡ distribution_after line
              (numbered st.mix.num_total_insts events)
              s
              it.distance_distribution)
run_analyze-Refines options type_id settings line events s st it on r below fits lines =
    let n = st.mix.num_total_insts in
    let (it', run, r', d) =
      run_visits-Refines line n (numbered n events) s it r below (numbered-Climbs n events) lines in
    let (st', driven, last) =
      run_analyze-itr options type_id settings events n st it it' on refl fits run in
    (st', it', driven, last, r', d)
