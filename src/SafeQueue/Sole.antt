-- ===== src/SafeQueue/Sole.antt =====
-- library/safe_queue.cc with one consumer.
use ibm_pisa.Base.{
  ℕ, map, ap, ◌≡◌, refl, true, false, Option, none, some, List, [], ◌∷◌, ◌++◌, Bool-cases, inl, inr,
  All, All-append, arith,
}
use ibm_pisa.SafeQueue.{
  Action, push, leave_loop, take, SafeQueue, init, push_back, is_empty, pop, step, run,
}
use ibm_pisa.SafeQueue.Order.{Returns, pushed, messages, run-messages}

module _ {ℓ} {A : Type ℓ} where
  abbrev pub IsMessage : Option A → Type 0
  IsMessage none = ⊥
  IsMessage (some _) = Unit

  -- No consumer but `c` takes the step.
  abbrev pub IsOf : ℕ → Action A → Type 0
  IsOf c (push _) = Unit
  IsOf c (leave_loop d) = d ≡ c
  IsOf c (take d) = d ≡ c

  -- A consumer that has left the loop finds a message.
  abbrev HasMessage : ℕ → SafeQueue A → Type 0
  HasMessage c q = q.is_past c ≡ true → is_empty q.queued ≡ false

  is_empty-push : (l : List A) (msg : A) → is_empty (l ++ msg ∷ []) ≡ false
  is_empty-push [] msg = refl
  is_empty-push (x ∷ l) msg = refl

  IsMessage-pop : (l : List A) → is_empty l ≡ false → IsMessage (pop l).0
  unfolding pop
  IsMessage-pop [] h = absurd (ground arith)
  IsMessage-pop (x ∷ l) h = tt

  step-HasMessage :
      (c : ℕ) (a : Action A) (q : SafeQueue A)
      → IsOf c a
      → HasMessage c q
      → Returns (λ out q'. All IsMessage out × HasMessage c q') (step a q)
  unfolding step push_back
  step-HasMessage c (push msg) q own h = (tt, λ _. is_empty-push q.queued msg)
  step-HasMessage c (leave_loop d) q own h = elim (Bool-cases (q.is_past d)) [
    | inl e ↦ rw (Returns, step, e) tt
    | inr e ↦ elim (Bool-cases (is_empty q.queued)) [
      | inl f ↦ rw (Returns, step, e, f) tt
      | inr f ↦ rw (Returns, step, e, f) (tt, λ _. f)
    ]
  ]
  step-HasMessage c (take d) q own h = elim (Bool-cases (q.is_past d)) [
    | inr e ↦ rw (Returns, step, e) tt
    | inl e ↦
        let full : is_empty q.queued ≡ false = h (rw own at e) in
        rw (Returns, step, e) ((IsMessage-pop q.queued full, tt), λ past. absurd (ground arith))
  ]

  run-HasMessage :
      (c : ℕ) (actions : List (Action A)) (q : SafeQueue A)
      → All (IsOf c) actions
      → HasMessage c q
      → Returns (λ outs q'. All IsMessage outs) (run actions q)
  unfolding run
  run-HasMessage c [] q own h = tt
  run-HasMessage c (a ∷ actions) q own h =
      first (step a q) (step-HasMessage c a q own.0 h) (λ q' g. run-HasMessage c actions q' own.1 g)
    where
      second :
          (out : List (Option A)) (o : Option (List (Option A) × SafeQueue A))
          → All IsMessage out
          → Returns (λ outs q''. All IsMessage outs) o
          → Returns
              (λ outs q''. All IsMessage outs)
              (elim o [ none ↦ none | some (outs, q'') ↦ some (out ++ outs, q'') ])
      second out none h g = tt
      second out (some (outs, q'')) h g = All-append IsMessage out outs h g

      first :
          (o : Option (List (Option A) × SafeQueue A))
          → Returns (λ out q'. All IsMessage out × HasMessage c q') o
          → ((q' : SafeQueue A)
              → HasMessage c q'
              → Returns (λ outs q''. All IsMessage outs) (run actions q'))
          → Returns
              (λ outs q''. All IsMessage outs)
              (elim o [
                | none ↦ none
                | some (out, q') ↦ elim (run actions q') [
                  | none ↦ none
                  | some (outs, q'') ↦ some (out ++ outs, q'')
                ]
              ])
      first none h g = tt
      first (some (out, q')) h g = second out (run actions q') h.0 (g q' h.1)

  run-IsMessage :
      (c : ℕ) (actions : List (Action A))
      → All (IsOf c) actions
      → Returns (λ outs q'. All IsMessage outs) (run actions init)
  unfolding init
  run-IsMessage c actions own = run-HasMessage c actions init own (λ past. absurd (ground arith))

  map-messages : (outs : List (Option A)) → All IsMessage outs → outs ≡ map some (messages outs)
  map-messages [] h = refl
  map-messages (none ∷ outs) h = absurd h.0
  map-messages (some x ∷ outs) h = ap (λ l. some x ∷ l) (map-messages outs h.1)

  abbrev pub ReturnsPushed : List (Action A) → List (Option A) → SafeQueue A → Type ℓ
  ReturnsPushed actions outs q' =
      (returned : List A) × (outs ≡ map some returned) × (returned ++ q'.queued ≡ pushed actions)

  Returns-both :
      (actions : List (Action A)) (o : Option (List (Option A) × SafeQueue A))
      → Returns (λ outs q'. All IsMessage outs) o
      → Returns (λ outs q'. messages outs ++ q'.queued ≡ pushed actions) o
      → Returns (ReturnsPushed actions) o
  Returns-both actions none h e = tt
  Returns-both actions (some (outs, q')) h e = (messages outs, map-messages outs h, e)

  -- If only one consumer takes steps, in every interleaving with pushes from the empty queue whose
  -- steps can all be taken, no `pop_front` returns a message of zeros, and what the `pop_front`s
  -- return, in order, and after it what is left in the queue, are the messages that were pushed,
  -- in order.
  pub run-pushed :
      (c : ℕ) (actions : List (Action A))
      → All (IsOf c) actions
      → Returns (ReturnsPushed actions) (run actions init)
  unfolding init
  run-pushed c actions own =
      Returns-both actions (run actions init) (run-IsMessage c actions own)
        (run-messages actions init)
