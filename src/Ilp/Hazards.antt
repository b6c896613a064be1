-- ===== src/Ilp/Hazards.antt =====
-- The order of the loads and stores of one address.
use ibm_pisa.Base.{
  ℕ, ◌≡◌, ◌≤◌, ◌<◌, ◌^◌, ◌+◌, ap, sym, ==_refl, Bool, true, false, Option, none, some, List, arith,
  ◌==◌, ◌||◌,
}
use ibm_pisa.OrderedMap.{find}
use ibm_pisa.Instructions.{LlvmType}
use ibm_pisa.Instructions.Classes.{load-control, store-control}
use ibm_pisa.Ilp.Operands.{
  Value, TwoValues, MemoryDep, State, Instruction, Form, phi_form, call_form, load_form, store_form,
  other_form, lookup_operand,
}
use ibm_pisa.Ilp.Cycle.{
  after, after_both, loaded, stored, load_cycle, store_cycle, do_load, do_store, by_form,
  get_inst_issue_cycle,
}
use ibm_pisa.Ilp.Frame.{fixed-by_form}
use ibm_pisa.Ilp.Visit.{
  Options, visit, issue_cycle, serialize, start_cycle, in_order, run_visits, is_ctrl,
}
use ibm_pisa.Ilp.Memory.{
  memory_of, Covers, find-do_load, find-do_store, memory-visit, run_visits-Covers,
}

-- Whether an instruction stores, and the address of its load or store.
abbrev pub touches : Form → Option (Bool × ℕ)
touches (phi_form incoming) = none
touches (call_form callee arguments) = none
touches (load_form pointer a) = some (false, a)
touches (store_form value pointer a) = some (true, a)
touches (other_form opcode operands) = none

abbrev pub Earlier : TwoValues → TwoValues → Type 0
Earlier c d = (c.value1 < d.value1) × (c.value2 < d.value2)

-- The last cycles of stores, or of loads.
abbrev last : Bool → MemoryDep → TwoValues
last true d = record { value1 = d.last_store_cycle; value2 = d.last_store_cycle_in_order }
last false d = record { value1 = d.last_load_cycle; value2 = d.last_load_cycle_in_order }

abbrev Recorded : Bool → TwoValues → Option MemoryDep → Type 0
Recorded stores c none = ⊥
Recorded stores c (some d) =
    (c.value1 ≤ (last stores d).value1) × (c.value2 ≤ (last stores d).value2)

Recorded-Covers :
    (stores : Bool) (c : TwoValues) (d e : Option MemoryDep)
    → Recorded stores c d
    → Covers d e
    → Recorded stores c e
Recorded-Covers stores c none e h k = absurd h
Recorded-Covers stores c (some d) none h k = absurd k
Recorded-Covers true c (some d) (some e) h (k0, k1, k2, k3) = (omega (arith, h), omega (arith, h))
Recorded-Covers false c (some d) (some e) h (k0, k1, k2, k3) = (omega (arith, h), omega (arith, h))

-- The last cycles for an address are below the greatest `unsigned long long`.
abbrev pub Fits : Option MemoryDep → Type 0
Fits none = Unit
Fits (some d) =
    (d.last_store_cycle + 1 < 2 ^ 64)
    × (d.last_store_cycle_in_order + 1 < 2 ^ 64)
    × (d.last_load_cycle + 1 < 2 ^ 64)
    × (d.last_load_cycle_in_order + 1 < 2 ^ 64)

after_load :
    (floor : ℕ) (first c : TwoValues) (found : Option MemoryDep)
    → Recorded true first found
    → Fits found
    → Earlier first (load_cycle floor found c)
after_load floor first c none h k = absurd h
after_load floor first c (some d) h k = (ground arith, ground arith)

after_store :
    (stores : Bool) (first c : TwoValues) (found : Option MemoryDep)
    → Recorded stores first found
    → Fits found
    → Earlier first (store_cycle found c)
after_store stores first c none h k = absurd h
after_store true first c (some d) h k = (ground arith, ground arith)
after_store false first c (some d) h k = (ground arith, ground arith)

-- An instruction with its form written out.
abbrev make : (address parent : ℕ) → LlvmType → Form → Instruction
make address parent pointee form = record {
  address = address;
  parent = parent;
  pointee = pointee;
  form = form;
}

plain_cycle :
    (options : Options) (i : Instruction) (st : State)
    → is_ctrl i ≡ false
    → (issue_cycle options i st).0
      ≡ in_order
          (by_form i i.form (start_cycle options st) st).0
          (by_form i i.form (start_cycle options st) st).1
unfolding issue_cycle serialize get_inst_issue_cycle
plain_cycle options i st h = rw h (ground arith)

touches_control :
    (address parent : ℕ) (ty : LlvmType) (form : Form) (stores : Bool) (a : ℕ)
    → touches form ≡ some (stores, a)
    → is_ctrl (make address parent ty form) ≡ false
touches_control i p ty (phi_form incoming) stores a h = absurd (ground arith)
touches_control i p ty (call_form callee arguments) stores a h = absurd (ground arith)
touches_control i p ty (load_form pointer b) stores a h = load-control ty
touches_control i p ty (store_form value pointer b) stores a h = store-control ty
touches_control i p ty (other_form opcode operands) stores a h = absurd (ground arith)

in_order_floor :
    (i : Instruction) (form : Form) (start c : TwoValues) (st : State)
    → in_order c (by_form i form start st).1 ≡ in_order c st
unfolding in_order
in_order_floor i form start c st = ap (in_order c) (fixed-by_form i form start st)

do_load-floor :
    (i : Instruction) (pointer : Value) (a : ℕ) (start : TwoValues) (st : State)
    → st.totals.max_issue_cycle_in_order ≤ (do_load i pointer a start st).0.value2
unfolding do_load
do_load-floor i pointer a start st =
    with_found (find a (memory_of st)) st.totals.max_issue_cycle_in_order
      (lookup_operand pointer st)
  where
    with_found :
        (found : Option MemoryDep) (floor : ℕ) (usage : TwoValues)
        → floor ≤ (load_cycle floor found (after floor usage start)).value2
    with_found none floor usage = ground arith
    with_found (some d) floor usage = ground arith

do_store-floor :
    (i : Instruction) (value pointer : Value) (a : ℕ) (start : TwoValues) (st : State)
    → st.totals.max_issue_cycle_in_order ≤ (do_store i value pointer a start st).0.value2
unfolding do_store
do_store-floor i value pointer a start st =
    with_found (find a (memory_of st)) st.totals.max_issue_cycle_in_order (lookup_operand value st)
      (lookup_operand pointer st)
  where
    with_found :
        (found : Option MemoryDep) (floor : ℕ) (op1 op2 : TwoValues)
        → floor ≤ (store_cycle found (after_both floor op1 op2 start)).value2
    with_found none floor op1 op2 = ground arith
    with_found (some d) floor op1 op2 = ground arith

loaded_records :
    (found : Option MemoryDep) (c : TwoValues) (st : State) (index : ℕ)
    → st.totals.max_issue_cycle_in_order ≤ c.value2
    → Recorded false (in_order c st) (some (loaded found c index))
unfolding in_order
loaded_records none c st index h = (omega arith, ground arith)
loaded_records (some d) c st index h = (ground arith, ground arith)

stored_records :
    (found : Option MemoryDep) (c : TwoValues) (st : State) (index : ℕ)
    → st.totals.max_issue_cycle_in_order ≤ c.value2
    → Recorded true (in_order c st) (some (stored found c index))
unfolding in_order
stored_records none c st index h = (omega arith, ground arith)
stored_records (some d) c st index h = (ground arith, ground arith)

-- What an access of the memory leaves in the table.
by_form-records :
    (i : Instruction) (form : Form) (stores : Bool) (a : ℕ) (start : TwoValues) (st : State)
    → touches form ≡ some (stores, a)
    → Recorded stores
        (in_order (by_form i form start st).0 (by_form i form start st).1)
        (find a (memory_of (by_form i form start st).1))
unfolding by_form
by_form-records i (phi_form incoming) stores a start st h = absurd (ground arith)
by_form-records i (call_form callee arguments) stores a start st h = absurd (ground arith)
by_form-records i (load_form pointer b) stores a start st h =
    let (index, e) = find-do_load i pointer b b start st in
    let here : a ≡ b = ground arith in
    let kind : stores ≡ false = ground arith in
    let hit : (b == b) ≡ true = ==_refl b in
    rw (here, kind, in_order_floor i (load_form pointer b) start _ st, e, hit)
      (loaded_records _ (do_load i pointer b start st).0 st index
        (do_load-floor i pointer b start st))
by_form-records i (store_form value pointer b) stores a start st h =
    let (index, e) = find-do_store i value pointer b b start st in
    let here : a ≡ b = ground arith in
    let kind : stores ≡ true = ground arith in
    let hit : (b == b) ≡ true = ==_refl b in
    rw (here, kind, in_order_floor i (store_form value pointer b) start _ st, e, hit)
      (stored_records _ (do_store i value pointer b start st).0 st index
        (do_store-floor i value pointer b start st))
by_form-records i (other_form opcode operands) stores a start st h = absurd (ground arith)

later_in_order :
    (first c : TwoValues) (st : State) → Earlier first c → Earlier first (in_order c st)
unfolding in_order
later_in_order first c st h = (h.0, ground arith)

-- The next access of the memory, from what the table has for its address.
by_form-later :
    (i : Instruction) (form : Form) (recorded stores : Bool) (a : ℕ) (first start : TwoValues)
    (st : State)
    → touches form ≡ some (stores, a)
    → recorded || stores ≡ true
    → Recorded recorded first (find a (memory_of st))
    → Fits (find a (memory_of st))
    → Earlier first (by_form i form start st).0
unfolding by_form do_load do_store
by_form-later i (phi_form incoming) recorded stores a first start st h k r f = absurd (ground arith)
by_form-later i (call_form callee arguments) recorded stores a first start st h k r f =
    absurd (ground arith)
by_form-later i (load_form pointer b) recorded stores a first start st h k r f =
    let here : b ≡ a = ground arith in
    let kind : recorded ≡ true = ground arith in
    rw here (after_load _ first _ (find a (memory_of st)) (rw (sym kind) r) f)
by_form-later i (store_form value pointer b) recorded stores a first start st h k r f =
    let here : b ≡ a = ground arith in
    rw here (after_store recorded first _ (find a (memory_of st)) r f)
by_form-later i (other_form opcode operands) recorded stores a first start st h k r f =
    absurd (ground arith)

-- Take two instructions that load or store at the same address, at least one of them a store, and
-- any run of instructions between them. If the last cycles that the table has for the address
-- before the second one are below 2^64 - 1, the second one issues strictly later than the first,
-- out of order and in order.
pub visit-conflict :
    (options : Options) (first second : Instruction) (between : List Instruction)
    (stores1 stores2 : Bool) (a : ℕ) (st : State)
    → touches first.form ≡ some (stores1, a)
    → touches second.form ≡ some (stores2, a)
    → stores1 || stores2 ≡ true
    → Fits (find a (memory_of (run_visits options between (visit options first st))))
    → Earlier
        (issue_cycle options first st).0
        (issue_cycle options second (run_visits options between (visit options first st))).0
visit-conflict options first second between stores1 stores2 a st h k conflict fits =
    let st1 = run_visits options between (visit options first st) in
    let recorded =
      Recorded-Covers stores1 _ _ _
        (by_form-records first first.form stores1 a (start_cycle options st) st h)
        (rw (sym (memory-visit options first st))
          (run_visits-Covers options between (visit options first st) a)) in
    rw
      (
        plain_cycle options first st
            (touches_control first.address first.parent first.pointee first.form stores1 a h),
        plain_cycle options second st1
            (touches_control second.address second.parent second.pointee second.form stores2 a k),
      )
      (later_in_order _ _ _ (
        by_form-later second second.form stores1 stores2 a _ (start_cycle options st1) st1 k
          conflict recorded fits))
