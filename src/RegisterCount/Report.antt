-- ===== src/RegisterCount/Report.antt =====
-- What the report of register accesses says about a run.
use ibm_pisa.Base.{
  ℕ, ◌+◌, ◌≡◌, refl, ap, fun_ext, ◌∙◌, Bool, false, ◌||◌, none, some, List, [], ◌∷◌, arith,
  Bool-cases, Option-cases, compare_cases, inl, inr, u64, add64, ◌==◌, if◌then◌else◌,
}
use ibm_pisa.OrderedMap.{OrderedMap, find, insert, assign}
use ibm_pisa.RegisterCount.{
  Operand, Instruction, RegisterCount, init, has, count_write, read_operand, read_operands, visit,
  run_visits, count_w, json_dump,
}

-- The specification: the reads of a run, and its writes of values that are read anywhere in it.
abbrev pub reads_of : List Operand → ℕ
reads_of [] = 0
reads_of (o ∷ os) = (if o.is_constant then 0 else 1) + reads_of os

abbrev pub run_reads : List Instruction → ℕ
run_reads [] = 0
run_reads (inst ∷ insts) = reads_of inst.operands + run_reads insts

abbrev pub is_operand : ℕ → List Operand → Bool
is_operand v [] = false
is_operand v (o ∷ os) = (if o.is_constant then false else o.value == v) || is_operand v os

abbrev pub is_read : ℕ → List Instruction → Bool
is_read v [] = false
is_read v (inst ∷ insts) = is_operand v inst.operands || is_read v insts

-- How many instructions of a run write a value that passes a test.
abbrev pub writes_of : (ℕ → Bool) → List Instruction → ℕ
writes_of test [] = 0
writes_of test (inst ∷ insts) = (if test inst.value then 1 else 0) + writes_of test insts

has-insert : (v k n : ℕ) (m : OrderedMap ℕ) → has v (insert k n m) ≡ ((k == v) || has v m)
unfolding find insert
has-insert v k n [] = ground arith
has-insert v k n ((j, x) ∷ m) = ground (arith, has-insert v k n m)

-- The sum over the keys that pass a test.
abbrev weigh : (ℕ → Bool) → OrderedMap ℕ → ℕ
weigh test [] = 0
weigh test ((v, n) ∷ m) = (if test v then n else 0) + weigh test m

count_w-weigh : (reads m : OrderedMap ℕ) → count_w reads m ≡ u64 (weigh (λ v. has v reads) m)
unfolding count_w
count_w-weigh reads [] = refl
count_w-weigh reads ((v, n) ∷ m) = elim (Bool-cases (has v reads)) [
  | inl e ↦ rw e (omega (arith, count_w-weigh reads m))
  | inr e ↦ rw e (omega (arith, count_w-weigh reads m))
]

weigh-insert :
    (test : ℕ → Bool) (k n : ℕ) (m : OrderedMap ℕ)
    → find k m ≡ none
    → weigh test (insert k n m) ≡ weigh test m + (if test k then n else 0)
unfolding find insert
weigh-insert test k n [] h = omega arith
weigh-insert test k n ((j, x) ∷ m) h = ground (arith, weigh-insert test k n m)

weigh-assign :
    (test : ℕ → Bool) (k n : ℕ) (m : OrderedMap ℕ)
    → find k m ≡ some n
    → u64 (weigh test (assign k (add64 n 1) m)) ≡ u64 (weigh test m + (if test k then 1 else 0))
unfolding find assign
weigh-assign test k n [] h = absurd (ground arith)
weigh-assign test k n ((j, x) ∷ m) h = elim (compare_cases j k) [
  | inl (lt, _, _, e) ↦ rw e (omega (arith, weigh-assign test k n m (rw e at h)))
  | inr (inl (eq, _, _, e)) ↦
      let same : x ≡ n = ground arith in
      elim (Bool-cases (test k)) [
        | inl t ↦ rw (e, eq, t, same) (omega arith)
        | inr f ↦ rw (e, eq, f) (omega arith)
      ]
  | inr (inr (lt, _, _, e)) ↦ rw e (omega (arith, weigh-assign test k n m (rw e at h)))
]

weigh-count_write :
    (test : ℕ → Bool) (k : ℕ) (m : OrderedMap ℕ)
    → u64 (weigh test (count_write k m)) ≡ u64 (weigh test m + (if test k then 1 else 0))
weigh-count_write test k m = elim (Option-cases (find k m)) [
  | inl e ↦ unfold count_write in rw (count_write, e) (ap u64 (weigh-insert test k 1 m e))
  | inr (n, e) ↦ unfold count_write in rw (count_write, e) (weigh-assign test k n m e)
]

-- The operands change the reads only.
rc_writes-read_operands :
    (os : List Operand) (st : RegisterCount) → (read_operands os st).rc_writes ≡ st.rc_writes
unfolding read_operands read_operand
rc_writes-read_operands [] st = refl
rc_writes-read_operands (o ∷ os) st = ground (arith, rc_writes-read_operands os (read_operand o st))

count_r-read_operands :
    (os : List Operand) (st : RegisterCount)
    → u64 (read_operands os st).count_r ≡ u64 (st.count_r + reads_of os)
unfolding read_operands read_operand
count_r-read_operands [] st = omega arith
count_r-read_operands (o ∷ os) st = elim (Bool-cases o.is_constant) [
  | inl e ↦ rw e (omega (arith, count_r-read_operands os st))
  | inr e ↦ rw e (
      omega (
        arith,
        count_r-read_operands os
            (record st { count_r = add64 st.count_r 1; rc_reads = insert o.value 0 st.rc_reads }),
      ))
]

or_swap : (a b c : Bool) → (a || b) || c ≡ b || (a || c)
or_swap a b c = ground arith

or_assoc : (a b c : Bool) → (a || b) || c ≡ a || (b || c)
or_assoc a b c = ground arith

has-read_operands :
    (v : ℕ) (os : List Operand) (st : RegisterCount)
    → has v (read_operands os st).rc_reads ≡ (has v st.rc_reads || is_operand v os)
unfolding read_operands read_operand
has-read_operands v [] st = ground arith
has-read_operands v (o ∷ os) st = elim (Bool-cases o.is_constant) [
  | inl e ↦ rw e (has-read_operands v os st)
  | inr e ↦ rw e (
      has-read_operands v os
        (record st { count_r = add64 st.count_r 1; rc_reads = insert o.value 0 st.rc_reads })
      ∙ rw (has-insert v o.value 0 st.rc_reads)
          (or_swap (o.value == v) (has v st.rc_reads) (is_operand v os)))
]

has-run_visits :
    (v : ℕ) (insts : List Instruction) (st : RegisterCount)
    → has v (run_visits insts st).rc_reads ≡ (has v st.rc_reads || is_read v insts)
unfolding run_visits visit
has-run_visits v [] st = ground arith
has-run_visits v (inst ∷ insts) st =
    let st' : RegisterCount = record st { rc_writes = count_write inst.value st.rc_writes } in
    has-run_visits v insts (visit inst st)
    ∙ ap (λ b. b || is_read v insts) (has-read_operands v inst.operands st')
    ∙ or_assoc (has v st.rc_reads) (is_operand v inst.operands) (is_read v insts)

weigh-run_visits :
    (test : ℕ → Bool) (insts : List Instruction) (st : RegisterCount)
    → u64 (weigh test (run_visits insts st).rc_writes)
      ≡ u64 (weigh test st.rc_writes + writes_of test insts)
unfolding run_visits
weigh-run_visits test [] st = omega arith
weigh-run_visits test (inst ∷ insts) st =
    let st' : RegisterCount = record st { rc_writes = count_write inst.value st.rc_writes } in
    let kept : (visit inst st).rc_writes ≡ count_write inst.value st.rc_writes =
      unfold visit in rc_writes-read_operands inst.operands st' in
    let rest = weigh-run_visits test insts (visit inst st) in
    rest ∙ rw kept (omega (arith, weigh-count_write test inst.value st.rc_writes))

count_r-run_visits :
    (insts : List Instruction) (st : RegisterCount)
    → u64 (run_visits insts st).count_r ≡ u64 (st.count_r + run_reads insts)
unfolding run_visits visit
count_r-run_visits [] st = omega arith
count_r-run_visits (inst ∷ insts) st =
    let st' : RegisterCount = record st { rc_writes = count_write inst.value st.rc_writes } in
    omega (arith, count_r-run_visits insts (visit inst st), count_r-read_operands inst.operands st')

-- After any run from the constructor's state, the report gives, as `unsigned long long`, the
-- number of operands of the run that are not constants, and the number of executed instructions
-- whose value is such an operand anywhere in the run.
pub json_dump-run_visits :
    (insts : List Instruction)
    → (u64 (json_dump (run_visits insts init)).0 ≡ u64 (run_reads insts))
      × ((json_dump (run_visits insts init)).1 ≡ u64 (writes_of (λ v. is_read v insts) insts))
unfolding json_dump init find
json_dump-run_visits insts =
    let out = run_visits insts init in
    let tests : (λ (v : ℕ). has v out.rc_reads) ≡ (λ (v : ℕ). is_read v insts) =
      fun_ext (λ v. has-run_visits v insts init) in
    (
      count_r-run_visits insts init ∙ omega arith,
      count_w-weigh out.rc_reads out.rc_writes
          ∙ ap (λ t. u64 (weigh t out.rc_writes)) tests
          ∙ weigh-run_visits (λ v. is_read v insts) insts init
          ∙ omega arith,
    )
