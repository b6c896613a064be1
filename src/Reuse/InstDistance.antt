-- ===== src/Reuse/InstDistance.antt =====
-- `visit` of library/InstTempReuse.cc, and runs of it, against the LRU stack.
use mathlib.Core.List.{map-append}
use ibm_pisa.Base.{
  ℕ, suc, ◌<◌, ◌≡◌, refl, sym, ap, ◌∙◌, Option, none, some, List, [], ◌∷◌, arith, All, All-append,
  Below, Below-mono, Option-cases, inl, inr, u64,
}
use ibm_pisa.OrderedMap.{OrderedMap}
use ibm_pisa.OrderedMap
use ibm_pisa.Splay.Ops.{compute_distance}
use ibm_pisa.Utils.PowerOfTwo.{upper_power_of_two}
use ibm_pisa.Reuse.Inst.{InstTempReuse, touch, visit, memory_access, count_distance}
use ibm_pisa.Reuse.Represents.{Represents, first_access, again_access, distance-depth}
use ibm_pisa.Reuse.Stack.{Stack, cycles, last_access, depth, access, forget, Below-forget}

abbrev pub Refines : Stack → InstTempReuse → Type 0
Refines s st = Represents s st.last_memory_access st.distance_tree

-- The distribution after an access of a line: counted in the bin of the depth, if there was an
-- earlier access.
abbrev pub counted : ℕ → Stack → OrderedMap ℕ → OrderedMap ℕ
counted l s distribution = elim (last_access l s) [
  | none ↦ distribution
  | some _ ↦ count_distance (upper_power_of_two (u64 (depth l s))) distribution
]

-- An access at a cycle later than all before keeps the representation of the stack, and adds to
-- the distribution exactly the access's depth in the stack.
pub touch-Refines :
    (l c : ℕ) (s : Stack) (st : InstTempReuse)
    → Refines s st
    → Below c (cycles s)
    → 0 < c
    → Refines (access l c s) (touch l c st)
      × ((touch l c st).distance_distribution ≡ counted l s st.distance_distribution)
unfolding touch
touch-Refines l c s st r later pos = elim (Option-cases (OrderedMap.find l st.last_memory_access)) [
  | inl e ↦ first e
  | inr (p, e) ↦ again p e
]
  where
    Goal : Type 0
    Goal =
        Refines (access l c s) (touch l c st)
        × ((touch l c st).distance_distribution ≡ counted l s st.distance_distribution)

    first : OrderedMap.find l st.last_memory_access ≡ none → Goal
    first e =
        let absent : last_access l s ≡ none = sym (r.same_access l) ∙ e in
        rw (e, touch) (first_access l c s r later pos e, rw (absent, counted))

    again : (p : ℕ) → OrderedMap.find l st.last_memory_access ≡ some p → Goal
    again p e =
        let before : last_access l s ≡ some p = sym (r.same_access l) ∙ e in
        let (root, distance) = distance-depth l p s r e in
        rw (e, touch, root, distance)
          (unfold compute_distance in again_access l c s r later pos p e, rw (before, counted))

-- A whole run. `Climbs b trace`: the issue cycles rise, from above `b`.
unfoldable pub run_visits : List (ℕ × ℕ) → InstTempReuse → Option InstTempReuse
run_visits [] st = some st
run_visits ((i, c) ∷ trace) st = elim (visit i c st) [
  | none ↦ none
  | some st' ↦ run_visits trace st'
]

abbrev pub Climbs : ℕ → List (ℕ × ℕ) → Type 0
Climbs b [] = Unit
Climbs b ((_, c) ∷ trace) = (b < c) × Climbs c trace

-- The specification of a run, where `line i` is the line of the instruction `i`.
module _ (line : ℕ → ℕ) where
  abbrev pub stack_after : List (ℕ × ℕ) → Stack → Stack
  stack_after [] s = s
  stack_after ((i, c) ∷ trace) s = stack_after trace (access (line i) c s)

  abbrev pub distribution_after : List (ℕ × ℕ) → Stack → OrderedMap ℕ → OrderedMap ℕ
  distribution_after [] s d = d
  distribution_after ((i, c) ∷ trace) s d =
      distribution_after trace (access (line i) c s) (counted (line i) s d)

-- Every instruction of the trace has a line, as the constructor has set it up.
abbrev pub HasLines : (ℕ → ℕ) → List (ℕ × ℕ) → InstTempReuse → Type 0
HasLines line trace st = All (λ e. memory_access st e.0 ≡ some (line e.0)) trace

memory_access-touch :
    (i l c : ℕ) (st : InstTempReuse) → memory_access (touch l c st) i ≡ memory_access st i
unfolding memory_access touch
memory_access-touch i l c st = ground arith

HasLines-touch :
    (line : ℕ → ℕ) (trace : List (ℕ × ℕ)) (l c : ℕ) (st : InstTempReuse)
    → HasLines line trace st
    → HasLines line trace (touch l c st)
HasLines-touch line [] l c st h = tt
HasLines-touch line ((i, d) ∷ trace) l c st h =
    (memory_access-touch i l c st ∙ h.0, HasLines-touch line trace l c st h.1)

Below-access :
    (l c b : ℕ) (s : Stack)
    → b < c
    → Below (suc b) (cycles s)
    → Below (suc c) (cycles (access l c s))
unfolding access
Below-access l c b s h p = rw (map-append (λ e. e.1) (forget l s) ((l, c) ∷ [])) (
    All-append (λ x. x < suc c) (cycles (forget l s)) (c ∷ [])
      (Below-mono (suc b) (suc c) _ (omega arith) (Below-forget (suc b) l s p)) (omega arith, tt))

-- Take a state of the instruction reuse analysis that represents an LRU stack, and a run of
-- instructions whose issue cycles rise from above the cycles of the stack, each with a line that
-- `memory_access` gives. Then every visit of the run is defined, the final state represents the
-- stack after the run, and the final distribution holds, beside what was there, each access that
-- is not the first of its line, in the bin of its depth in the LRU stack.
pub run_visits-Refines :
    (line : ℕ → ℕ) (b : ℕ) (trace : List (ℕ × ℕ)) (s : Stack) (st : InstTempReuse)
    → Refines s st
    → Below (suc b) (cycles s)
    → Climbs b trace
    → HasLines line trace st
    → (st' : InstTempReuse) × (run_visits trace st ≡ some st')
      × Refines (stack_after line trace s) st'
      × (st'.distance_distribution ≡ distribution_after line trace s st.distance_distribution)
unfolding run_visits
run_visits-Refines line b [] s st r below climbs lines = (st, refl, r, refl)
run_visits-Refines line b ((i, c) ∷ trace) s st r below climbs lines =
    let next = touch (line i) c st in
    let (r', d) =
      touch-Refines (line i) c s st r (Below-mono (suc b) c (cycles s) (omega arith) below)
        (omega arith) in
    let (st', e, r'', d') =
      run_visits-Refines line c trace (access (line i) c s) next r'
        (Below-access (line i) c b s climbs.0 below) climbs.1
        (HasLines-touch line trace (line i) c st lines.1) in
    let step : visit i c st ≡ some next = unfold visit in rw (lines.0, visit) in
    (
      st',
      rw (step, run_visits) e,
      r'',
      d' ∙ ap (distribution_after line trace (access (line i) c s)) d,
    )
