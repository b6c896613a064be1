-- ===== src/SafeQueue/Order.antt =====
-- The order of the messages in library/safe_queue.cc.
use ibm_pisa.Base.{
  ◌≡◌, refl, sym, ap, ◌∙◌, Option, none, some, List, [], ◌∷◌, ◌++◌, Bool-cases, inl, inr,
  append-nil, append_assoc,
}
use ibm_pisa.SafeQueue.{
  Action, push, leave_loop, take, SafeQueue, push_back, is_empty, pop, step, run,
}

module _ {ℓ} {A : Type ℓ} where
  abbrev pub pushed : List (Action A) → List A
  pushed [] = []
  pushed (push msg ∷ actions) = msg ∷ pushed actions
  pushed (leave_loop _ ∷ actions) = pushed actions
  pushed (take _ ∷ actions) = pushed actions

  -- The messages among what was returned.
  abbrev pub messages : List (Option A) → List A
  messages [] = []
  messages (none ∷ outs) = messages outs
  messages (some msg ∷ outs) = msg ∷ messages outs

  messages-append : (xs ys : List (Option A)) → messages (xs ++ ys) ≡ messages xs ++ messages ys
  messages-append [] ys = refl
  messages-append (none ∷ xs) ys = messages-append xs ys
  messages-append (some x ∷ xs) ys = ap (λ l. x ∷ l) (messages-append xs ys)

  -- `Returns P o`: the predicate holds of what the steps return, if they can be taken.
  abbrev pub Returns {κ} :
      (List (Option A) → SafeQueue A → Type κ) → Option (List (Option A) × SafeQueue A) → Type κ
  Returns P none = Unit
  Returns P (some (outs, q)) = P outs q

  messages-pop : (l : List A) → messages ((pop l).0 ∷ []) ++ (pop l).1 ≡ l
  unfolding pop
  messages-pop [] = refl
  messages-pop (x ∷ l) = refl

  Keeps : Action A → SafeQueue A → List (Option A) → SafeQueue A → Type ℓ
  Keeps a q out q' = messages out ++ q'.queued ≡ q.queued ++ pushed (a ∷ [])

  step-Keeps : (a : Action A) (q : SafeQueue A) → Returns (Keeps a q) (step a q)
  unfolding step push_back Keeps
  step-Keeps (push msg) q = refl
  step-Keeps (leave_loop c) q = elim (Bool-cases (q.is_past c)) [
    | inl e ↦ rw (Returns, step, e) tt
    | inr e ↦ elim (Bool-cases (is_empty q.queued)) [
      | inl f ↦ rw (Returns, step, e, f) tt
      | inr f ↦ rw (Returns, step, e, f) (sym (append-nil q.queued))
    ]
  ]
  step-Keeps (take c) q = elim (Bool-cases (q.is_past c)) [
    | inl e ↦ rw (Returns, step, e) (messages-pop q.queued ∙ sym (append-nil q.queued))
    | inr e ↦ rw (Returns, step, e) tt
  ]

  pushed_cons :
      (a : Action A) (actions : List (Action A))
      → pushed (a ∷ actions) ≡ pushed (a ∷ []) ++ pushed actions
  pushed_cons (push msg) actions = refl
  pushed_cons (leave_loop c) actions = refl
  pushed_cons (take c) actions = refl

  -- In every interleaving of pushes and pops whose steps can all be taken, by any number of
  -- consumers, the messages returned, and after them those left in the queue, are those that were
  -- in the queue at first and after them those pushed, in order: none is lost, repeated or
  -- overtaken.
  pub run-messages :
      (actions : List (Action A)) (q : SafeQueue A)
      → Returns (λ outs q'. messages outs ++ q'.queued ≡ q.queued ++ pushed actions) (run actions q)
  unfolding run
  run-messages [] q = sym (append-nil q.queued)
  run-messages (a ∷ actions) q = first (step a q) (step-Keeps a q) (λ q'. run-messages actions q')
    where
      Goal : List (Option A) → SafeQueue A → Type ℓ
      Goal outs q' = messages outs ++ q'.queued ≡ q.queued ++ pushed (a ∷ actions)

      second :
          (out : List (Option A)) (q' : SafeQueue A) (o : Option (List (Option A) × SafeQueue A))
          → messages out ++ q'.queued ≡ q.queued ++ pushed (a ∷ [])
          → Returns (λ outs q''. messages outs ++ q''.queued ≡ q'.queued ++ pushed actions) o
          → Returns Goal (elim o [ none ↦ none | some (outs, q'') ↦ some (out ++ outs, q'') ])
      second out q' none h g = tt
      second out q' (some (outs, q'')) h g =
          ap (λ l. l ++ q''.queued) (messages-append out outs)
          ∙ append_assoc (messages out) (messages outs) q''.queued
          ∙ ap (λ l. messages out ++ l) g
          ∙ sym (append_assoc (messages out) q'.queued (pushed actions))
          ∙ ap (λ l. l ++ pushed actions) h
          ∙ append_assoc q.queued (pushed (a ∷ [])) (pushed actions)
          ∙ ap (λ l. q.queued ++ l) (sym (pushed_cons a actions))

      first :
          (o : Option (List (Option A) × SafeQueue A))
          → Returns (Keeps a q) o
          → ((q' : SafeQueue A)
              → Returns
                  (λ outs q''. messages outs ++ q''.queued ≡ q'.queued ++ pushed actions)
                  (run actions q'))
          → Returns Goal (elim o [
            | none ↦ none
            | some (out, q') ↦ elim (run actions q') [
              | none ↦ none
              | some (outs, q'') ↦ some (out ++ outs, q'')
            ]
          ])
      first none h g = tt
      first (some (out, q')) h g = unfold Keeps in second out q' (run actions q') h (g q')
