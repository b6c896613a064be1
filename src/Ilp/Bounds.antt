-- ===== src/Ilp/Bounds.antt =====
-- The counts of issue cycles.
use ibm_pisa.Base.{ℕ, ◌≤◌, ◌<◌, ◌^◌, arith, Option, none, some, Bool-cases, inl, inr, ◌==◌}
use ibm_pisa.Ilp.{Kind, Account, Totals, max, issue, place, account}

-- The count of issue cycles is at most the last of them, which is at most the total's.
abbrev pub IsBounded : (total total_in_order : ℕ) → Account → Type 0
IsBounded total total_in_order a =
    (a.max_issue_cycle ≤ a.previous_issue_cycle)
    × (a.previous_issue_cycle ≤ total)
    × (a.max_issue_cycle_in_order ≤ a.previous_issue_cycle_in_order)
    × (a.previous_issue_cycle_in_order ≤ total_in_order)

abbrev pub IsValid : Totals → Type 0
IsValid st = (k : Kind) → IsBounded st.max_issue_cycle st.max_issue_cycle_in_order (st.of_kind k)

issue-IsBounded :
    (value1 value2 t1 t2 : ℕ) (a : Account)
    → value1 < 2 ^ 64
    → value2 < 2 ^ 64
    → IsBounded t1 t2 a
    → IsBounded (max t1 value1) (max t2 value2) (issue value1 value2 a)
unfolding issue
issue-IsBounded value1 value2 t1 t2 a f g h =
    (ground arith, ground arith, ground arith, ground arith)

-- If for each type of instruction the count of issue cycles is at most the last issue cycle, and
-- that is at most the greatest of all types, this holds after the next instruction too, for issue
-- cycles below 2^64.
pub account-IsValid :
    (kind : Option Kind) (value1 value2 : ℕ) (st : Totals)
    → value1 < 2 ^ 64
    → value2 < 2 ^ 64
    → IsValid st
    → IsValid (account kind value1 value2 st)
unfolding account
account-IsValid none value1 value2 st f g h k =
    let (a, b, c, d) = h k in (a, ground arith, c, ground arith)
account-IsValid (some kind) value1 value2 st f g h k = elim (Bool-cases (place kind == place k)) [
  | inl e ↦ rw e (
      issue-IsBounded value1 value2 st.max_issue_cycle st.max_issue_cycle_in_order (st.of_kind k) f
        g (h k))
  | inr e ↦ let (a, b, c, d) = h k in rw e (a, ground arith, c, ground arith)
]
