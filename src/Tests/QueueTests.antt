-- ===== src/Tests/QueueTests.antt =====
-- library/safe_queue.cc.
use ibm_pisa.Base.{ℕ, ◌≡◌, refl, none, some, List, [], ◌∷◌, ◌++◌}
use ibm_pisa.SafeQueue.{Action, push, leave_loop, take, init, push_back, pop, step, run}
use ibm_pisa.SafeQueue.Order.{pushed, messages, Returns, run-messages}
use ibm_pisa.SafeQueue.Sole.{ReturnsPushed, run-pushed}

abbrev actions : List (Action ℕ)
actions = push 7 ∷ push 8 ∷ leave_loop 0 ∷ push 9 ∷ take 0 ∷ leave_loop 0 ∷ take 0 ∷ []

-- Two consumers see one message, and the second gets a message of zeros.
two_consumers :
    (elim (run (push 7 ∷ leave_loop 0 ∷ leave_loop 1 ∷ take 0 ∷ take 1 ∷ []) (init {A = ℕ})) [
      | none ↦ []
      | some (outs, _) ↦ outs
    ])
    ≡ some 7 ∷ none ∷ []
unfolding run step pop push_back init
two_consumers = refl

order_example :
    Returns
      (λ outs q'. messages outs ++ q'.queued ≡ init.queued ++ pushed actions)
      (run actions init)
order_example = run-messages actions init

sole_example : Returns (ReturnsPushed actions) (run actions init)
sole_example = run-pushed 0 actions (tt, (tt, (refl, (tt, (refl, (refl, (refl, tt)))))))
