-- ===== src/ExternalLibraryCount.antt =====
-- library/ExternalLibraryCount.cc, the calls of functions without a body. Of a call, `visit` gets the
-- function that is called, which LLVM and the run time of the program find: its name, and whether it
-- has a body. `less`, the order of the map, is `strcasecmp(s1, s2) < 0`.
pub mod Sums
use Prim.Native.String.{String}
use ibm_pisa.Base.{ℕ, Bool, true, false, Option, none, some, List, [], ◌∷◌, add64, if◌then◌else◌}

-- A `std::map` from names to counts, in the order of iteration.
abbrev pub CallCount : Type 0
CallCount = List (String × ℕ)

pub record Callee : Type 0 where
  pub name : String
  pub has_body : Bool

pub data Instruction : Type 0 where
  call : (callee : Option Callee) → Instruction
  other : Instruction

module _ (less : String → String → Bool) where
  -- `find`, and then an increment of the count that is found, or a new item with the count 1.
  unfoldable pub count_call : String → CallCount → CallCount
  count_call name [] = (name, 1) ∷ []
  count_call name ((key, n) ∷ m) =
      let rest = count_call name m in
      if less name key
      then (name, 1) ∷ (key, n) ∷ m
      else if less key name
      then (key, n) ∷ rest
      else (key, add64 n 1) ∷ m

  unfoldable pub visit : Instruction → CallCount → CallCount
  visit other m = m
  visit (call none) m = m
  visit (call (some callee)) m = if callee.has_body then m else count_call callee.name m

  unfoldable pub run_visits : List Instruction → CallCount → CallCount
  run_visits [] m = m
  run_visits (i ∷ is) m = run_visits is (visit i m)

-- The names and the counts in the order of the map.
unfoldable pub json_dump : CallCount → List (String × ℕ)
json_dump [] = []
json_dump ((key, n) ∷ m) = (key, n) ∷ json_dump m
