-- ===== src/Reuse/InstIndex.antt =====
-- The index of the instructions that the constructor sets up, and the line that a visit takes from it.
use native.Mathlib.Nat.{le-div_iff_mul-le}
use ibm_pisa.Base.{
  ℕ, suc, ◌+◌, ◌/◌, ◌≤◌, ◌<◌, ◌≡◌, refl, ◌∙◌, false, Option, none, some, List, [], ◌∷◌, IsSorted,
  arith, Option-cases, inl, inr, ◌==◌, if◌then◌else◌,
}
use ibm_pisa.OrderedMap.{
  OrderedMap, map_keys, find, insert, find-insert, insert_present, IsSorted-insert,
}
use ibm_pisa.Reuse.Inst.{index_instructions, init, memory_access}

-- The place of an instruction in the module.
abbrev pub place_of : ℕ → List ℕ → Option ℕ
place_of i [] = none
place_of i (j ∷ js) =
    if j == i then some 0 else elim (place_of i js) [ none ↦ none | some n ↦ some (suc n) ]

abbrev later : ℕ → Option ℕ → Option ℕ → Option ℕ
later index none none = none
later index none (some n) = some (index + n)
later index (some old) _ = some old

find-index_instructions :
    (i index : ℕ) (js : List ℕ) (m : OrderedMap ℕ)
    → IsSorted (map_keys m)
    → find i (index_instructions index js m) ≡ later index (find i m) (place_of i js)
unfolding index_instructions
find-index_instructions i index [] m s = ground arith
find-index_instructions i index (j ∷ js) m s = elim (Option-cases (find j m)) [
  | inl e ↦
      find-index_instructions i (suc index) js (insert j index m) (IsSorted-insert j index m s)
      ∙ rw (find-insert i j index m s e) (ground arith)
  | inr (old, e) ↦
      rw (insert_present j index old m s e)
        (find-index_instructions i (suc index) js m s ∙ ground arith)
]

-- After the constructor, with instructions of a size above 0 and at most that of a cache line, an
-- instruction of the module has the line that its place in the module gives: the size of a cache
-- line and the place, divided by the number of instructions in a line.
pub memory_access-init :
    (cache_line_size inst_size : ℕ) (instructions : List ℕ) (i n : ℕ)
    → 0 < inst_size
    → inst_size ≤ cache_line_size
    → place_of i instructions ≡ some n
    → memory_access (init cache_line_size inst_size instructions) i
      ≡ some ((cache_line_size + n) / (cache_line_size / inst_size))
unfolding memory_access init
memory_access-init c z is i n pos le h =
    let line : (c == 0) ≡ false = ground arith in
    let size : (z == 0) ≡ false = ground arith in
    let big : 1 ≤ c / z = (le-div_iff_mul-le pos).1 (omega arith) in
    let div : (c / z == 0) ≡ false = ground arith in
    rw (line, size, find-index_instructions i c is [] tt, h, div) refl
