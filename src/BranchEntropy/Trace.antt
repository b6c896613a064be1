-- ===== src/BranchEntropy/Trace.antt =====
-- The trace: what the files and the buffer hold together.
use ibm_pisa.Base.{
  ℕ, ◌+◌, ◌%◌, ◌≡◌, refl, sym, ap, ap₂, arith, ◌∙◌, not, ◌&&◌, Option, none, some, List, [], ◌∷◌,
  ◌++◌, Bool-cases, inl, inr, ltb, length, ◌==◌, if◌then◌else◌, append-nil, append_assoc,
}
use ibm_pisa.BranchEntropy.{
  Branch, Operation, br, ret, call, other, Instruction, Settings, BranchEntropy, write, switch_line,
  line, state_of, emit, finish_branch, trace, flush, follow, visit, run_visits, close,
  max_buffer_size, max_file_entries,
}

-- The text in the files, the oldest first.
abbrev pub written : List (List ℕ) → List ℕ
written [] = []
written (file ∷ files) = written files ++ file

written-write :
    (text : List ℕ) (files : List (List ℕ)) → written (write text files) ≡ written files ++ text
written-write text [] = refl
written-write text (file ∷ files) = sym (append_assoc (written files) file text)

abbrev pub all_text : BranchEntropy → List ℕ
all_text st = written st.files ++ st.buffer

module _ (s : Settings) where
  -- What a branch that was left through the block `current` adds.
  abbrev pub branch_text : Option Branch → ℕ → List ℕ
  branch_text none current = []
  branch_text (some b) current =
      if ltb 2 b.num_successors
      then switch_line s
      else if not s.only_cond && ltb b.num_successors 2
      then line s "ub " b.place 1
      else if b.num_successors == 2
      then line s "cb " b.place (state_of s b current)
      else []

  abbrev pub operation_text : Operation → List ℕ
  operation_text (br b) = []
  operation_text (ret p) = if s.only_cond then [] else line s "rint " p 1
  operation_text (call p external) =
      if s.only_cond
      then []
      else (line s "call " p 1 ++ (if external then line s "rext " p 1 else []))
  operation_text other = []

  -- What an instruction adds to the trace, after the branch `prev` if there is one.
  abbrev pub visit_text : Option Branch → Operation → ℕ → List ℕ
  visit_text prev (br b) current = []
  visit_text prev (ret p) current = branch_text prev current ++ operation_text (ret p)
  visit_text prev (call p e) current = branch_text prev current ++ operation_text (call p e)
  visit_text prev other current = branch_text prev current

  emit-all_text :
      (text : List ℕ) (st : BranchEntropy) → all_text (emit s text st) ≡ all_text st ++ text
  unfolding emit
  emit-all_text text st = elim (Bool-cases s.shard_files) [
    | inr e ↦ rw e (sym (append_assoc (written st.files) st.buffer text))
    | inl e ↦ elim (Bool-cases ((st.current_file_entries + 1) % max_file_entries == 0)) [
      | inl f ↦
          rw (e, f)
            (append_assoc (written st.files) [] (st.buffer ++ text)
              ∙ sym (append_assoc (written st.files) st.buffer text))
      | inr f ↦ rw (e, f) (sym (append_assoc (written st.files) st.buffer text))
    ]
  ]

  flush-all_text : (st : BranchEntropy) → all_text (flush s st) ≡ all_text st
  unfolding flush
  flush-all_text st = elim (Bool-cases (ltb (length st.buffer) max_buffer_size)) [
    | inl e ↦ rw e
    | inr e ↦ rw e (append-nil _ ∙ written-write st.buffer st.files)
  ]

  finish_branch-all_text :
      (current : ℕ) (st : BranchEntropy)
      → all_text (finish_branch s current st) ≡ all_text st ++ branch_text st.prev_b current
  unfolding finish_branch
  finish_branch-all_text current st = ended st.prev_b refl
    where
      ended :
          (prev : Option Branch)
          → st.prev_b ≡ prev
          → all_text (finish_branch s current st) ≡ all_text st ++ branch_text prev current
      ended none e = rw (finish_branch, e) (sym (append-nil _))
      ended (some b) e = elim (Bool-cases (ltb 2 b.num_successors)) [
        | inl f ↦ rw (finish_branch, e, f) (emit-all_text (switch_line s) st)
        | inr f ↦ elim (Bool-cases (not s.only_cond && ltb b.num_successors 2)) [
          | inl g ↦ rw (finish_branch, e, f, g) (emit-all_text (line s "ub " b.place 1) st)
          | inr g ↦ elim (Bool-cases (b.num_successors == 2)) [
            | inl h ↦
                rw (finish_branch, e, f, g, h)
                  (emit-all_text (line s "cb " b.place (state_of s b current)) st)
            | inr h ↦ rw (finish_branch, e, f, g, h) (sym (append-nil _))
          ]
        ]
      ]

  trace-all_text :
      (op : Operation) (st : BranchEntropy)
      → all_text (trace s op st) ≡ all_text st ++ operation_text op
  unfolding trace
  trace-all_text (br b) st = sym (append-nil _)
  trace-all_text other st = sym (append-nil _)
  trace-all_text (ret p) st = elim (Bool-cases s.only_cond) [
    | inl e ↦ rw e (sym (append-nil _))
    | inr e ↦ rw e (emit-all_text (line s "rint " p 1) st)
  ]
  trace-all_text (call p external) st = elim (Bool-cases s.only_cond) [
    | inl e ↦ rw e (sym (append-nil _))
    | inr e ↦ elim (Bool-cases external) [
      | inr f ↦
          rw (e, f)
            (emit-all_text (line s "call " p 1) st
              ∙ ap (λ t. all_text st ++ t) (sym (append-nil (line s "call " p 1))))
      | inl f ↦
          rw (e, f)
            (emit-all_text (line s "rext " p 1) (emit s (line s "call " p 1) st)
              ∙ ap (λ t. t ++ line s "rext " p 1) (emit-all_text (line s "call " p 1) st)
              ∙ append_assoc (all_text st) (line s "call " p 1) (line s "rext " p 1))
    ]
  ]

  follow-all_text :
      (op : Operation) (current : ℕ) (st : BranchEntropy)
      → all_text (follow s op current st) ≡ all_text st ++ visit_text st.prev_b op current
  follow-all_text (br b) current st = sym (append-nil _)
  follow-all_text (ret p) current st =
      trace-all_text (ret p) (finish_branch s current st)
      ∙ ap (λ t. t ++ operation_text (ret p)) (finish_branch-all_text current st)
      ∙ append_assoc (all_text st) (branch_text st.prev_b current) (operation_text (ret p))
  follow-all_text (call p e) current st =
      trace-all_text (call p e) (finish_branch s current st)
      ∙ ap (λ t. t ++ operation_text (call p e)) (finish_branch-all_text current st)
      ∙ append_assoc (all_text st) (branch_text st.prev_b current) (operation_text (call p e))
  follow-all_text other current st =
      trace-all_text other (finish_branch s current st)
      ∙ append-nil _
      ∙ finish_branch-all_text current st

  -- A visit adds to the files and the buffer together exactly the lines of the instruction, after
  -- the line of the branch that was pending before it, also when the buffer is written or a new
  -- file is begun.
  pub visit-all_text :
      (inst : Instruction) (st : BranchEntropy)
      → all_text (visit s inst st) ≡ all_text st ++ visit_text st.prev_b inst.operation inst.parent
  unfolding visit
  visit-all_text inst st =
      flush-all_text (follow s inst.operation inst.parent st)
      ∙ follow-all_text inst.operation inst.parent st

  -- The branch that is pending after an instruction.
  abbrev pub pending : Operation → Option Branch
  pending (br b) = some b
  pending (ret p) = none
  pending (call p e) = none
  pending other = none

  -- What a run adds: the branch that an instruction leaves is written with the next instruction.
  abbrev pub run_text : Option Branch → List Instruction → List ℕ
  run_text prev [] = []
  run_text prev (inst ∷ insts) =
      visit_text prev inst.operation inst.parent ++ run_text (pending inst.operation) insts

  prev_b-emit : (text : List ℕ) (st : BranchEntropy) → (emit s text st).prev_b ≡ st.prev_b
  unfolding emit
  prev_b-emit text st = ground arith

  prev_b-finish_branch :
      (current : ℕ) (st : BranchEntropy) → (finish_branch s current st).prev_b ≡ none
  unfolding finish_branch
  prev_b-finish_branch current st = ended st.prev_b refl
    where
      ended : (prev : Option Branch) → st.prev_b ≡ prev → (finish_branch s current st).prev_b ≡ none
      ended none e = rw (finish_branch, e) e
      ended (some b) e = rw (finish_branch, e)

  prev_b-trace : (op : Operation) (st : BranchEntropy) → (trace s op st).prev_b ≡ st.prev_b
  unfolding trace
  prev_b-trace (br b) st = refl
  prev_b-trace other st = refl
  prev_b-trace (ret p) st = ground (arith, prev_b-emit (line s "rint " p 1) st)
  prev_b-trace (call p external) st = ground (
    arith,
    prev_b-emit (line s "call " p 1) st,
    prev_b-emit (line s "rext " p 1) (emit s (line s "call " p 1) st),
  )

  prev_b-follow :
      (op : Operation) (current : ℕ) (st : BranchEntropy)
      → (follow s op current st).prev_b ≡ pending op
  prev_b-follow (br b) current st = refl
  prev_b-follow (ret p) current st = prev_b-trace (ret p) _ ∙ prev_b-finish_branch current st
  prev_b-follow (call p e) current st = prev_b-trace (call p e) _ ∙ prev_b-finish_branch current st
  prev_b-follow other current st = prev_b-trace other _ ∙ prev_b-finish_branch current st

  prev_b-visit :
      (inst : Instruction) (st : BranchEntropy) → (visit s inst st).prev_b ≡ pending inst.operation
  unfolding visit flush
  prev_b-visit inst st =
      elim (Bool-cases
        (ltb (length (follow s inst.operation inst.parent st).buffer) max_buffer_size)) [
          | inl e ↦ rw e (prev_b-follow inst.operation inst.parent st)
          | inr e ↦ rw e (prev_b-follow inst.operation inst.parent st)
        ]

  -- For any run and any settings, once the destructor has written the buffer the files hold, the
  -- oldest first, what they and the buffer held before, and then the lines of all the instructions
  -- in order.
  pub run_visits-written :
      (insts : List Instruction) (st : BranchEntropy)
      → written (close (run_visits s insts st)) ≡ all_text st ++ run_text st.prev_b insts
  unfolding run_visits
  run_visits-written [] st = written-write st.buffer st.files ∙ sym (append-nil _)
  run_visits-written (inst ∷ insts) st =
      run_visits-written insts (visit s inst st)
      ∙ ap₂ (λ t p. t ++ run_text p insts) (visit-all_text inst st) (prev_b-visit inst st)
      ∙ append_assoc (all_text st) (visit_text st.prev_b inst.operation inst.parent)
          (run_text (pending inst.operation) insts)
