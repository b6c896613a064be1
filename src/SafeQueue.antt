-- ===== src/SafeQueue.antt =====
-- library/safe_queue.cc. The lock makes each of its critical sections one step. `pop_front` has two:
-- the last `size()` of its loop, which saw a message, and the part that takes one. Between them
-- other threads may run. Consumers are numbers.
pub mod Order
pub mod Sole
use ibm_pisa.Base.{
  ℕ, Bool, true, false, Option, none, some, List, [], ◌∷◌, ◌++◌, ◌==◌, if◌then◌else◌,
}

pub data Action {ℓ} (A : Type ℓ) : Type ℓ where
  push : A → Action A
  leave_loop : (consumer : ℕ) → Action A
  take : (consumer : ℕ) → Action A

-- `is_past c`: the consumer has left the loop and not taken its message yet.
pub record SafeQueue {ℓ} (A : Type ℓ) : Type ℓ where
  pub queued : List A
  pub is_past : ℕ → Bool

abbrev pub mark : ℕ → Bool → (ℕ → Bool) → ℕ → Bool
mark consumer b is_past c = if consumer == c then b else is_past c

module _ {ℓ} {A : Type ℓ} where
  unfoldable pub init : SafeQueue A
  init = record { queued = []; is_past = λ _. false }

  unfoldable pub push_back : A → SafeQueue A → SafeQueue A
  push_back msg q = record q { queued = q.queued ++ msg ∷ [] }

  abbrev pub is_empty : List A → Bool
  is_empty [] = true
  is_empty (_ ∷ _) = false

  -- What `pop_front` returns, `none` for a message of zeros, and the list after it.
  unfoldable pub pop : List A → Option A × List A
  pop [] = (none, [])
  pop (msg ∷ msgs) = (some msg, msgs)

  -- A step and the messages that it returns; `none` where the thread cannot take the step.
  unfoldable pub step : Action A → SafeQueue A → Option (List (Option A) × SafeQueue A)
  unfolding push_back
  step (push msg) q = some ([], push_back msg q)
  step (leave_loop c) q =
      if q.is_past c
      then none
      else if is_empty q.queued
      then none
      else some ([], record q { is_past = mark c true q.is_past })
  step (take c) q =
      if q.is_past c
      then some (
        (pop q.queued).0 ∷ [],
        record q { queued = (pop q.queued).1; is_past = mark c false q.is_past },
      )
      else none

  unfoldable pub run : List (Action A) → SafeQueue A → Option (List (Option A) × SafeQueue A)
  run [] q = some ([], q)
  run (a ∷ actions) q = elim (step a q) [
    | none ↦ none
    | some (out, q') ↦ elim (run actions q') [
      | none ↦ none
      | some (outs, q'') ↦ some (out ++ outs, q'')
    ]
  ]
