-- ===== src/Ilp/Memory.antt =====
-- The table of the last usage of memory: what a visit writes to it, and that its cycles never fall.
use ibm_pisa.Base.{
  ℕ, ◌≡◌, ◌≤◌, refl, ◌∙◌, ap, true, false, Option, none, some, List, [], ◌∷◌, arith, Bool-cases,
  inl, inr, ◌==◌, if◌then◌else◌, ◌&&◌,
}
use ibm_pisa.OrderedMap.{OrderedMap, find, find-assign, find-insert_absent}
use ibm_pisa.Ilp.Operands.{
  Value, TwoValues, MemoryDep, State, Instruction, Form, phi_form, call_form, load_form, store_form,
  other_form,
}
use ibm_pisa.Ilp.Cycle.{
  loaded, stored, write_dep, do_load, do_store, do_call, by_form, get_inst_issue_cycle,
}
use ibm_pisa.Ilp.Frame.{others-insert, others-pass_arguments, others-join_phi}
use ibm_pisa.Ilp.Visit.{
  Options, visit, issue_cycle, finish, serialize, is_skipped, start_cycle, run_visits, is_ctrl,
}

-- The second entry is there if the first is, with cycles that are no lower.
abbrev pub Covers : Option MemoryDep → Option MemoryDep → Type 0
Covers none e = Unit
Covers (some d) none = ⊥
Covers (some d) (some e) =
    (d.last_store_cycle ≤ e.last_store_cycle)
    × (d.last_store_cycle_in_order ≤ e.last_store_cycle_in_order)
    × (d.last_load_cycle ≤ e.last_load_cycle)
    × (d.last_load_cycle_in_order ≤ e.last_load_cycle_in_order)

Covers-refl : (d : Option MemoryDep) → Covers d d
Covers-refl none = tt
Covers-refl (some d) = (omega arith, omega arith, omega arith, omega arith)

Covers-trans : (d e f : Option MemoryDep) → Covers d e → Covers e f → Covers d f
Covers-trans none e f h k = tt
Covers-trans (some d) none f h k = absurd h
Covers-trans (some d) (some e) none h k = absurd k
Covers-trans (some d) (some e) (some f) (h0, h1, h2, h3) (k0, k1, k2, k3) =
    (omega arith, omega arith, omega arith, omega arith)

abbrev pub memory_of : State → OrderedMap MemoryDep
memory_of st = st.last_usage_memory

pub find-write_dep :
    (j a : ℕ) (tmp : MemoryDep) (st st1 : State)
    → memory_of st1 ≡ memory_of st
    → find j (memory_of (write_dep a (find a (memory_of st)) tmp st1))
      ≡ (if a == j then some tmp else find j (memory_of st))
find-write_dep j a tmp st st1 same = with_found (find a (memory_of st)) refl
  where
    with_found :
        (found : Option MemoryDep)
        → find a (memory_of st) ≡ found
        → find j (memory_of (write_dep a found tmp st1))
          ≡ (if a == j then some tmp else find j (memory_of st))
    with_found none h = rw same (find-insert_absent j a tmp (memory_of st) h)
    with_found (some d) h = rw same (find-assign j a tmp d (memory_of st) h)

-- The table after a load and after a store.
pub find-do_load :
    (i : Instruction) (pointer : Value) (j a : ℕ) (start : TwoValues) (st : State)
    → (index : ℕ) × (find j (memory_of (do_load i pointer a start st).1) ≡ (
        if a == j
        then some (loaded (find a (memory_of st)) (do_load i pointer a start st).0 index)
        else find j (memory_of st)))
unfolding do_load
find-do_load i pointer j a start st =
    (_, find-write_dep j a _ st _ (ap memory_of (others-insert _ _ true none st)))

pub find-do_store :
    (i : Instruction) (value pointer : Value) (j a : ℕ) (start : TwoValues) (st : State)
    → (index : ℕ) × (find j (memory_of (do_store i value pointer a start st).1) ≡ (
        if a == j
        then some (stored (find a (memory_of st)) (do_store i value pointer a start st).0 index)
        else find j (memory_of st)))
unfolding do_store
find-do_store i value pointer j a start st = (
  _,
  find-write_dep j a _ st _
      (ap memory_of (others-insert pointer _ false (some _) _ ∙ others-insert _ _ true none st)),
)

Covers-loaded :
    (d : Option MemoryDep) (c : TwoValues) (index : ℕ) → Covers d (some (loaded d c index))
Covers-loaded none c index = tt
Covers-loaded (some d) c index = (omega arith, omega arith, ground arith, ground arith)

Covers-stored :
    (d : Option MemoryDep) (c : TwoValues) (index : ℕ) → Covers d (some (stored d c index))
Covers-stored none c index = tt
Covers-stored (some d) c index = (ground arith, ground arith, omega arith, omega arith)

-- An entry that is replaced by a later one.
replaced :
    (j a : ℕ) (m : OrderedMap MemoryDep) (tmp : MemoryDep) (found : Option MemoryDep)
    → found ≡ (if a == j then some tmp else find j m)
    → Covers (find a m) (some tmp)
    → Covers (find j m) found
replaced j a m tmp found h k = elim (Bool-cases (a == j)) [
  | inl e ↦ let same : j ≡ a = ground arith in rw (h, e, same) k
  | inr e ↦ rw (h, e) (Covers-refl (find j m))
]

same-Covers : (j : ℕ) (m n : OrderedMap MemoryDep) → n ≡ m → Covers (find j m) (find j n)
same-Covers j m n h = rw h (Covers-refl (find j m))

-- No cycle in the table falls when the cycle of an instruction is computed.
by_form-Covers :
    (i : Instruction) (form : Form) (start : TwoValues) (st : State) (j : ℕ)
    → Covers (find j (memory_of st)) (find j (memory_of (by_form i form start st).1))
unfolding by_form do_call
by_form-Covers i (phi_form incoming) start st j =
    same-Covers j _ _ (ap memory_of (others-join_phi i incoming start st))
by_form-Covers i (call_form none arguments) start st j = Covers-refl _
by_form-Covers i (call_form (some ps) arguments) start st j =
    same-Covers j _ _
      (ap memory_of (others-insert _ _ true none _ ∙ others-pass_arguments ps arguments start st))
by_form-Covers i (load_form pointer a) start st j =
    let (index, e) = find-do_load i pointer j a start st in
    replaced j a (memory_of st) _ _ e (Covers-loaded (find a (memory_of st)) _ index)
by_form-Covers i (store_form value pointer a) start st j =
    let (index, e) = find-do_store i value pointer j a start st in
    replaced j a (memory_of st) _ _ e (Covers-stored (find a (memory_of st)) _ index)
by_form-Covers i (other_form opcode operands) start st j =
    same-Covers j _ _ (ap memory_of (others-insert _ _ true none st))

memory-serialize :
    (options : Options) (i : Instruction) (c : TwoValues) (st : State)
    → memory_of (serialize options i c st).1 ≡ memory_of st
unfolding serialize
memory-serialize options i c st = elim (Bool-cases (options.analyze_ilp_ctrl && is_ctrl i)) [
  | inl e ↦ rw e refl
  | inr e ↦ rw e refl
]

-- Beside the computation of the cycle, a visit leaves the table as it is.
pub memory-visit :
    (options : Options) (i : Instruction) (st : State)
    → memory_of (visit options i st) ≡ memory_of (by_form i i.form (start_cycle options st) st).1
unfolding visit issue_cycle finish get_inst_issue_cycle
memory-visit options i st = elim (Bool-cases (is_skipped options i)) [
  | inl e ↦ rw e refl
  | inr e ↦ rw e (ap memory_of (others-insert _ _ false none _) ∙ memory-serialize options i _ _)
]

pub run_visits-Covers :
    (options : Options) (is : List Instruction) (st : State) (j : ℕ)
    → Covers (find j (memory_of st)) (find j (memory_of (run_visits options is st)))
unfolding run_visits
run_visits-Covers options [] st j = Covers-refl _
run_visits-Covers options (i ∷ is) st j =
    Covers-trans _ (find j (memory_of (visit options i st))) _
      (rw (memory-visit options i st) (by_form-Covers i i.form (start_cycle options st) st j))
      (run_visits-Covers options is (visit options i st) j)
