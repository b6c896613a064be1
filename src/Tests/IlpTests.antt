-- ===== src/Tests/IlpTests.antt =====
-- The scheduler and the counts of library/ILP.cc.
use ibm_pisa.Base.{◌<◌, ◌≡◌, refl, arith, some, [], ◌∷◌, length}
use ibm_pisa.Ilp.{memory, init, account, schedule, release, remove}
use ibm_pisa.Ilp.Window.{schedule_ends}
use ibm_pisa.Ilp.Bounds.{IsValid, account-IsValid}

two_released : release 9 3 4 (6 ∷ 5 ∷ 7 ∷ []) ≡ (6, 6 ∷ 7 ∷ [])
unfolding release remove
two_released = refl

ends_example : length (schedule 3 4 (6 ∷ 5 ∷ []) 7).1 < 3
ends_example = schedule_ends 3 4 (6 ∷ 5 ∷ []) 7 (omega arith) (omega arith)

init-IsValid : IsValid init
unfolding init
init-IsValid k = (omega arith, omega arith, omega arith, omega arith)

account_example : IsValid (account (some memory) 3 4 init)
account_example = account-IsValid (some memory) 3 4 init (omega arith) (omega arith) init-IsValid
