-- ===== src/Ilp/Cycle.antt =====
-- `ILP::getInstIssueCycle`: the issue cycle of an instruction from the cycles of what it uses, and
-- what it writes to the tables. `floor` is `MaxIssueCycleInOrder`, which the function only reads.
use ibm_pisa.Base.{ℕ, true, false, Option, none, some, List, [], ◌∷◌, add64, ◌==◌, if◌then◌else◌}
use ibm_pisa.OrderedMap.{find, assign, insert}
use ibm_pisa.Ilp.{max}
use ibm_pisa.Ilp.Operands.{
  Value, TwoValues, MemoryDep, State, Instruction, Form, phi_form, call_form, load_form, store_form,
  other_form, plain, self, lookup_operand, lookup_value_star_index, insert_operand_usage,
  value_is_constant_like, value_is_function_call, is_phi,
}

-- After an operand, and not before the instructions that stand earlier.
abbrev pub after : (floor : ℕ) → TwoValues → TwoValues → TwoValues
after floor usage c = record {
  value1 = max c.value1 (add64 usage.value1 1);
  value2 = max (max c.value2 (add64 usage.value2 1)) floor;
}

abbrev pub together : (floor : ℕ) → TwoValues → TwoValues → TwoValues
together floor usage c = record {
  value1 = max c.value1 usage.value1;
  value2 = max (max c.value2 usage.value2) floor;
}

-- The body of the loops over arguments and over operands.
unfoldable pub use_operand : State → Value → TwoValues → TwoValues
use_operand st v c =
    if value_is_constant_like v
    then if is_phi v.sort
      then together st.totals.max_issue_cycle_in_order (lookup_operand v st) c
      else c
    else after st.totals.max_issue_cycle_in_order (lookup_operand v st) c

unfoldable pub use_operands : State → List Value → TwoValues → TwoValues
use_operands st [] c = c
use_operands st (v ∷ vs) c = use_operands st vs (use_operand st v c)

-- `InsertOperandUsage` of a parameter of the function.
abbrev parameter : ℕ → Value
parameter a = record { address = a; sort = plain }

abbrev pass : List ℕ → Value → State → State
pass [] argument st = st
pass (p ∷ parameters) argument st =
    insert_operand_usage (parameter p) (lookup_operand argument st) false (some argument) st

abbrev rest_of : List ℕ → List ℕ
rest_of [] = []
rest_of (p ∷ parameters) = parameters

-- The loop over the arguments of a call.
unfoldable pub pass_arguments :
    (parameters : List ℕ) (arguments : List Value) → TwoValues → State → TwoValues × State
pass_arguments parameters [] c st = (c, st)
pass_arguments parameters (argument ∷ arguments) c st =
    pass_arguments (rest_of parameters) arguments (use_operand st argument c)
      (pass parameters argument st)

-- The usage of a phi instruction on the way from the previous block.
abbrev phi_usage : State → Value → TwoValues
phi_usage st v =
    let usage = lookup_operand v st in
    if value_is_constant_like v then usage else if value_is_function_call v then usage else record {
      value1 = add64 usage.value1 1;
      value2 = max (add64 usage.value2 1) st.totals.max_issue_cycle_in_order;
    }

abbrev pub latest : TwoValues → TwoValues → TwoValues
latest a b = record { value1 = max a.value1 b.value1; value2 = max a.value2 b.value2 }

unfoldable pub join_phi :
    Instruction → (incoming : List (ℕ × Value)) → TwoValues → State → TwoValues × State
join_phi i [] c st = (c, st)
join_phi i ((block, v) ∷ incoming) c st =
    let rest = join_phi i incoming c st in
    if block == st.prev_bb
    then (
      latest c (phi_usage st v),
      insert_operand_usage (self i) (phi_usage st v) false (some v) st,
    )
    else rest

-- A load, with what the table has for its address.
abbrev pub load_cycle : (floor : ℕ) → Option MemoryDep → TwoValues → TwoValues
load_cycle floor none c = c
load_cycle floor (some d) c = record {
  value1 = max c.value1 (add64 d.last_store_cycle 1);
  value2 = max (max c.value2 (add64 d.last_store_cycle_in_order 1)) floor;
}

abbrev pub loaded : Option MemoryDep → TwoValues → (index : ℕ) → MemoryDep
loaded none c index = record {
  last_store_cycle = 0;
  last_store_cycle_in_order = 0;
  last_load_cycle = c.value1;
  last_load_cycle_in_order = c.value2;
  last_store_index = 0;
  last_load_index = index;
}
loaded (some d) c index = record {
  last_store_cycle = d.last_store_cycle;
  last_store_cycle_in_order = d.last_store_cycle_in_order;
  last_load_cycle = max d.last_load_cycle c.value1;
  last_load_cycle_in_order = max d.last_load_cycle_in_order c.value2;
  last_store_index = d.last_store_index;
  last_load_index = index;
}

-- A store, with what the table has for its address.
abbrev pub store_cycle : Option MemoryDep → TwoValues → TwoValues
store_cycle none c = c
store_cycle (some d) c = record {
  value1 = max (max c.value1 (add64 d.last_store_cycle 1)) (add64 d.last_load_cycle 1);
  value2 =
      max (max c.value2 (add64 d.last_store_cycle_in_order 1)) (add64 d.last_load_cycle_in_order 1);
}

abbrev pub stored : Option MemoryDep → TwoValues → (index : ℕ) → MemoryDep
stored none c index = record {
  last_store_cycle = c.value1;
  last_store_cycle_in_order = c.value2;
  last_load_cycle = 0;
  last_load_cycle_in_order = 0;
  last_store_index = index;
  last_load_index = 0;
}
stored (some d) c index = record {
  last_store_cycle = max d.last_store_cycle c.value1;
  last_store_cycle_in_order = max d.last_store_cycle_in_order c.value2;
  last_load_cycle = d.last_load_cycle;
  last_load_cycle_in_order = d.last_load_cycle_in_order;
  last_store_index = index;
  last_load_index = d.last_load_index;
}

-- `itMemory->second = tmp`, or `insert` where the address is new.
abbrev pub write_dep : ℕ → Option MemoryDep → MemoryDep → State → State
write_dep a none tmp st = record st { last_usage_memory = insert a tmp st.last_usage_memory }
write_dep a (some d) tmp st = record st { last_usage_memory = assign a tmp st.last_usage_memory }

-- The two operands of a store.
abbrev pub after_both : (floor : ℕ) (value pointer : TwoValues) → TwoValues → TwoValues
after_both floor op1 op2 c = record {
  value1 = max (max c.value1 (add64 op1.value1 1)) (add64 op2.value1 1);
  value2 = max (max (max c.value2 (add64 op1.value2 1)) (add64 op2.value2 1)) floor;
}

unfoldable pub do_load :
    Instruction → (pointer : Value) (a : ℕ) → TwoValues → State → TwoValues × State
do_load i pointer a start st =
    let floor = st.totals.max_issue_cycle_in_order in
    let found = find a st.last_usage_memory in
    let c = load_cycle floor found (after floor (lookup_operand pointer st) start) in
    let st1 = insert_operand_usage (self i) c true none st in
    (c, write_dep a found (loaded found c (lookup_value_star_index (self i) st1)) st1)

unfoldable pub do_store :
    Instruction → (value pointer : Value) (a : ℕ) → TwoValues → State → TwoValues × State
do_store i value pointer a start st =
    let floor = st.totals.max_issue_cycle_in_order in
    let found = find a st.last_usage_memory in
    let both = after_both floor (lookup_operand value st) (lookup_operand pointer st) start in
    let c = store_cycle found both in
    let st1 = insert_operand_usage (self i) c true none st in
    let st2 = insert_operand_usage pointer c false (some (self i)) st1 in
    (c, write_dep a found (stored found c (lookup_value_star_index (self i) st2)) st2)

-- The call of a function that none of the three ways finds leaves the tables as they are.
unfoldable pub do_call :
    Instruction
    → (callee : Option (List ℕ)) (arguments : List Value) → TwoValues
    → State
    → TwoValues × State
do_call i none arguments start st = (start, st)
do_call i (some parameters) arguments start st =
    let (c, st1) = pass_arguments parameters arguments start st in
    (c, insert_operand_usage (self i) c true none st1)

unfoldable pub by_form : Instruction → Form → TwoValues → State → TwoValues × State
by_form i (phi_form incoming) start st = join_phi i incoming start st
by_form i (call_form callee arguments) start st = do_call i callee arguments start st
by_form i (load_form pointer a) start st = do_load i pointer a start st
by_form i (store_form value pointer a) start st = do_store i value pointer a start st
by_form i (other_form opcode operands) start st =
    let c = use_operands st operands start in (c, insert_operand_usage (self i) c true none st)

unfoldable pub get_inst_issue_cycle : Instruction → TwoValues → State → TwoValues × State
get_inst_issue_cycle i start st = by_form i i.form start st
