-- ===== src/Tests/VisitTests.antt =====
-- A run of `ILP::visit` of library/ILP.cc.
use ibm_pisa.Base.{◌<◌, ◌≡◌, refl, arith, true, false, List, [], ◌∷◌, if◌then◌else◌, ◌==◌}
use ibm_pisa.OrderedMap.{find, insert, assign, put}
use ibm_pisa.Instructions.{add, br, float_ty, get_inst_type, load_inst_type, store_inst_type}
use ibm_pisa.Instructions.Classes.{
  is_of_memory_type, is_of_integer_type, is_of_control_type, is_of_floating_point_type,
}
use ibm_pisa.Ilp.{init, account, issue, schedule, release, remove}
use ibm_pisa.Ilp.Operands.{
  Value, Instruction, plain, constant, load_form, store_form, other_form, self, lookup_operand,
  lookup_value_star_index, insert_operand_usage, value_is_constant_like, value_is_function_call,
}
use ibm_pisa.Ilp.Cycle.{
  use_operand, use_operands, pass_arguments, join_phi, do_load, do_store, do_call, by_form,
  get_inst_issue_cycle, latest,
}
use ibm_pisa.Ilp.Visit.{
  Options, initial, kind_of, start_cycle, in_order, serialize, finish, is_skipped, issue_cycle,
  visit, run_visits, update_ilp_for_call,
}
use ibm_pisa.Ilp.Values.{update_ilp_for_call-latest}
use ibm_pisa.Ilp.Memory.{memory_of}
use ibm_pisa.Ilp.Hazards.{Earlier, Fits, visit-conflict}
use ibm_pisa.Ilp.Program.{Rises, last_of, floor_of, in_order_cycles, run_visits-in_order}
use ibm_pisa.Ilp.Serial.{Climbs, next_of, ctrl_cycles, run_visits-serial}
use ibm_pisa.Ilp.Schedulers.{Moved, schedulers, visit-AreAhead}
use ibm_pisa.Ilp.Dataflow.{visit-consumer}

abbrev options : Options
options = record { window_size = 4; analyze_ilp_ignore_ctrl = false; analyze_ilp_ctrl = true }

abbrev pointer : Value
pointer = record { address = 4; sort = plain }

abbrev stores : Instruction
stores = record {
  address = 10;
  parent = 1;
  pointee = float_ty;
  form = store_form record { address = 3; sort = constant } pointer 100;
}

abbrev loads : Instruction
loads = record { address = 11; parent = 1; pointee = float_ty; form = load_form pointer 100 }

abbrev adds : Instruction
adds = record {
  address = 12;
  parent = 1;
  pointee = float_ty;
  form = other_form add (pointer ∷ self loads ∷ []);
}

abbrev branches : Instruction
branches = record {
  address = 13;
  parent = 1;
  pointee = float_ty;
  form = other_form br (self adds ∷ []);
}

-- An addition of the result of an instruction.
abbrev uses : Instruction → Instruction
uses i = record {
  address = 14;
  parent = 1;
  pointee = float_ty;
  form = other_form add (self i ∷ []);
}

abbrev program : List Instruction
program = stores ∷ adds ∷ loads ∷ branches ∷ adds ∷ branches ∷ []

cycles_example :
    Fits (find 100 (memory_of (run_visits options (adds ∷ []) (visit options stores initial))))
unfolding find insert assign put get_inst_type load_inst_type store_inst_type is_of_memory_type
    is_of_integer_type is_of_control_type is_of_floating_point_type init account issue schedule
    release remove lookup_operand lookup_value_star_index insert_operand_usage
    value_is_constant_like value_is_function_call use_operand use_operands pass_arguments join_phi
    do_load do_store do_call by_form get_inst_issue_cycle initial kind_of start_cycle in_order
    serialize finish is_skipped issue_cycle visit run_visits
cycles_example = (omega arith, omega arith, omega arith, omega arith)

conflict_example :
    Earlier
      (issue_cycle options stores initial).0
      (issue_cycle options loads (run_visits options (adds ∷ []) (visit options stores initial))).0
conflict_example =
    visit-conflict options stores loads (adds ∷ []) true false 100 initial refl refl refl
      cycles_example

in_order_program : in_order_cycles options program initial ≡ 1 ∷ 2 ∷ 2 ∷ 3 ∷ 3 ∷ 4 ∷ []
unfolding find insert assign put get_inst_type load_inst_type store_inst_type is_of_memory_type
    is_of_integer_type is_of_control_type is_of_floating_point_type init account issue schedule
    release remove lookup_operand lookup_value_star_index insert_operand_usage
    value_is_constant_like value_is_function_call use_operand use_operands pass_arguments join_phi
    do_load do_store do_call by_form get_inst_issue_cycle initial kind_of start_cycle in_order
    serialize finish is_skipped issue_cycle visit run_visits
in_order_program = refl

ctrl_program : ctrl_cycles options program initial ≡ 3 ∷ 4 ∷ []
unfolding find insert assign put get_inst_type load_inst_type store_inst_type is_of_memory_type
    is_of_integer_type is_of_control_type is_of_floating_point_type init account issue schedule
    release remove lookup_operand lookup_value_star_index insert_operand_usage
    value_is_constant_like value_is_function_call use_operand use_operands pass_arguments join_phi
    do_load do_store do_call by_form get_inst_issue_cycle initial kind_of start_cycle in_order
    serialize finish is_skipped issue_cycle visit run_visits
ctrl_program = refl

small_example :
    ((issue_cycle options stores initial).0.value1 < 100)
    × ((issue_cycle options stores initial).0.value2 < 100)
unfolding find insert assign put get_inst_type load_inst_type store_inst_type is_of_memory_type
    is_of_integer_type is_of_control_type is_of_floating_point_type init account issue schedule
    release remove lookup_operand lookup_value_star_index insert_operand_usage
    value_is_constant_like value_is_function_call use_operand use_operands pass_arguments join_phi
    do_load do_store do_call by_form get_inst_issue_cycle initial kind_of start_cycle in_order
    serialize finish is_skipped issue_cycle visit run_visits
small_example = (omega arith, omega arith)

in_order_example :
    Rises (floor_of initial) (in_order_cycles options program initial)
    × (floor_of (run_visits options program initial)
        ≡ last_of (floor_of initial) (in_order_cycles options program initial))
in_order_example = run_visits-in_order options program initial

serial_example : Climbs (next_of initial) (ctrl_cycles options program initial)
serial_example =
    run_visits-serial options program initial refl
      (rw ctrl_program (omega arith, (omega arith, tt)))

windows_example : Moved (schedulers initial) (schedulers (visit options stores initial))
unfolding initial
windows_example =
    visit-AreAhead options stores initial (omega (arith, small_example.0))
      (omega (arith, small_example.1)) (tt, tt)

consumer_example :
    Earlier
      (issue_cycle options stores initial).0
      (issue_cycle options (uses stores) (visit options stores initial)).0
unfolding is_skipped get_inst_type store_inst_type is_of_control_type
consumer_example =
    visit-consumer options stores (uses stores) add [] [] initial refl refl
      (omega (arith, small_example.0)) (omega (arith, small_example.1))

call_example : lookup_operand pointer (update_ilp_for_call (self stores) pointer initial) ≡ (
    if pointer.address == pointer.address
    then latest (lookup_operand pointer initial) (lookup_operand (self stores) initial)
    else lookup_operand pointer initial)
call_example = update_ilp_for_call-latest (self stores) pointer pointer initial refl
