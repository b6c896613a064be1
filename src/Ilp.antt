-- ===== src/Ilp.antt =====
-- Two parts of `ILP::visit` in library/ILP.cc that follow the computation of the issue cycle: the
-- counts of issue cycles for each type of instruction, and the window of the scheduler. The tables of
-- the operands and the computation of the cycle stand in Ilp/Operands.antt and Ilp/Cycle.antt, and
-- Ilp/Visit.antt composes all of them.
pub mod Bounds
pub mod Cycle
pub mod Frame
pub mod Hazards
pub mod Memory
pub mod Program
pub mod Serial
pub mod Start
pub mod Schedulers
pub mod Dataflow
pub mod Values
pub mod Visit
pub mod Operands
pub mod Window
use ibm_pisa.Base.{
  ℕ, zero, suc, ◌+◌, ◌%◌, ◌^◌, Option, none, some, List, [], ◌∷◌, ◌++◌, add64, ltb, length, ◌==◌,
  if◌then◌else◌,
}

-- Which of `isOfMemoryType`, `isOfIntegerType`, `isOfControlType` and `isOfFloatingPointType` holds
-- first; an instruction of none of these types has no kind.
pub data Kind : Type 0 where
  memory integer control floating_point : Kind

-- `MaxIssueCycle...` and `PreviousIssueCycle...` of one type, out of order and in order.
pub record Account : Type 0 where
  pub max_issue_cycle : ℕ
  pub previous_issue_cycle : ℕ
  pub max_issue_cycle_in_order : ℕ
  pub previous_issue_cycle_in_order : ℕ

pub record Totals : Type 0 where
  pub max_issue_cycle : ℕ
  pub max_issue_cycle_in_order : ℕ
  pub of_kind : Kind → Account

unfoldable pub init : Totals
init = record {
  max_issue_cycle = 0;
  max_issue_cycle_in_order = 0;
  of_kind = λ _. record {
    max_issue_cycle = 0;
    previous_issue_cycle = 0;
    max_issue_cycle_in_order = 0;
    previous_issue_cycle_in_order = 0;
  };
}

abbrev pub max : ℕ → ℕ → ℕ
max a b = if ltb a b then b else a

-- The body of one branch of the chain of `if`s.
unfoldable pub issue : (value1 value2 : ℕ) → Account → Account
issue value1 value2 a = record {
  max_issue_cycle =
      if ltb a.previous_issue_cycle value1 then add64 a.max_issue_cycle 1 else a.max_issue_cycle;
  previous_issue_cycle = max value1 a.previous_issue_cycle;
  max_issue_cycle_in_order =
      if ltb a.previous_issue_cycle_in_order value2
      then add64 a.max_issue_cycle_in_order 1
      else a.max_issue_cycle_in_order;
  previous_issue_cycle_in_order = max value2 a.previous_issue_cycle_in_order;
}

abbrev pub place : Kind → ℕ
place memory = 0
place integer = 1
place control = 2
place floating_point = 3

abbrev pub issue_at : Option Kind → (value1 value2 : ℕ) → (Kind → Account) → Kind → Account
issue_at none value1 value2 of_kind k = of_kind k
issue_at (some kind) value1 value2 of_kind k =
    if place kind == place k then issue value1 value2 (of_kind k) else of_kind k

-- The two totals, and the chain of `if`s on the type.
unfoldable pub account : Option Kind → (value1 value2 : ℕ) → Totals → Totals
account kind value1 value2 st = record {
  max_issue_cycle = max st.max_issue_cycle value1;
  max_issue_cycle_in_order = max st.max_issue_cycle_in_order value2;
  of_kind = issue_at kind value1 value2 st.of_kind;
}

-- `scheduler.remove(cycle)` on a `list<int>`: the argument is converted to `int` too.
unfoldable pub remove : ℕ → List ℕ → List ℕ
remove cycle [] = []
remove cycle (c ∷ cs) =
    let rest = remove cycle cs in if c % 2 ^ 32 == cycle % 2 ^ 32 then rest else c ∷ rest

-- `while (scheduler.size() == window_size)`, on fuel: the cycle of the window and the list.
unfoldable pub release : (fuel window_size window_cycle : ℕ) → List ℕ → ℕ × List ℕ
release zero window_size window_cycle scheduler = (window_cycle, scheduler)
release (suc fuel) window_size window_cycle scheduler =
    let rest = release fuel window_size (add64 window_cycle 1) (remove window_cycle scheduler) in
    if length scheduler == window_size then rest else (window_cycle, scheduler)

-- The part under `if (window_size)`, for one of the two schedulers. The list holds an `int` for each
-- issue cycle; as many rounds as there are values of an `int` are enough.
unfoldable pub schedule : (window_size window_cycle : ℕ) → List ℕ → (value : ℕ) → ℕ × List ℕ
schedule window_size window_cycle scheduler value =
    if window_size == 0
    then (window_cycle, scheduler)
    else release (2 ^ 32) window_size window_cycle (scheduler ++ value % 2 ^ 32 ∷ [])
