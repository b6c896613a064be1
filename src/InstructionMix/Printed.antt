-- ===== src/InstructionMix/Printed.antt =====
-- The keys of the cells that `JSONdump_partial` of library/InstructionMix.cc writes, and what one more
-- instruction adds to its sum.
use Prim.Native.String.{String}
use ibm_pisa.Base.{
  ℕ, ◌+◌, ◌≡◌, ◌<◌, refl, ap, Bool, true, false, ◌&&◌, ◌||◌, List, [], ◌∷◌, arith, Bool-cases, inl,
  inr, u64, add64, ltb, leb, ◌==◌, if◌then◌else◌, ==_iff,
}
use ibm_pisa.Instructions.{
  LlvmType, half_ty, float_ty, double_ty, x86_fp80_ty, fp128_ty, ppc_fp128_ty, x86_mmx_ty,
  integer_ty, vector_ty, struct_ty, array_ty, pointer_ty,
}
use ibm_pisa.OrderedMap.{OrderedMap}
use ibm_pisa.InstructionMix.{
  Place, scalar_place, vector_place, misc_place, Cells, bump_key, bump_vector, bump_place, int_key,
}
use ibm_pisa.InstructionMix.Split.{
  IsFloat, floats_ints, sum_keys, partial_keys, vector_partials, sum_partials, json_dump_partial,
}

abbrev pub occurrences : ℕ → List (String × ℕ) → ℕ
occurrences k [] = 0
occurrences k ((name, key) ∷ keys) = (if k == key then 1 else 0) + occurrences k keys

sum_keys-bump :
    (k : ℕ) (keys : List (String × ℕ)) (f : ℕ → ℕ)
    → sum_keys keys (bump_key k f) ≡ u64 (sum_keys keys f + occurrences k keys)
sum_keys-bump k [] f = refl
sum_keys-bump k ((name, key) ∷ keys) f = elim (Bool-cases (k == key)) [
  | inl e ↦ rw e (omega (arith, sum_keys-bump k keys f))
  | inr e ↦ rw e (omega (arith, sum_keys-bump k keys f))
]

sum_keys-zero : (keys : List (String × ℕ)) → sum_keys keys (λ _. 0) ≡ 0
sum_keys-zero [] = refl
sum_keys-zero ((name, key) ∷ keys) = omega (arith, sum_keys-zero keys)

abbrev sum_vectors : List (String × ℕ) → OrderedMap (ℕ → ℕ) → ℕ
sum_vectors keys [] = 0
sum_vectors keys ((size, f) ∷ m) = add64 (sum_keys keys f) (sum_vectors keys m)

sum_vectors-bump :
    (size k : ℕ) (keys : List (String × ℕ)) (m : OrderedMap (ℕ → ℕ))
    → sum_vectors keys (bump_vector size k m) ≡ u64 (sum_vectors keys m + occurrences k keys)
unfolding bump_vector
sum_vectors-bump size k keys [] = omega (arith, sum_keys-bump k keys (λ _. 0), sum_keys-zero keys)
sum_vectors-bump size k keys ((n, f) ∷ m) = elim (Bool-cases (ltb size n)) [
  | inl e ↦ rw e (omega (arith, sum_keys-bump k keys (λ _. 0), sum_keys-zero keys))
  | inr e ↦ elim (Bool-cases (ltb n size)) [
    | inl g ↦ rw (e, g) (omega (arith, sum_vectors-bump size k keys m))
    | inr g ↦ rw (e, g) (omega (arith, sum_keys-bump k keys f))
  ]
]

-- What the report writes for the cells of an opcode, in all.
abbrev pub sum_cells : List (String × ℕ) → Cells → ℕ
sum_cells keys c = add64 (add64 (sum_keys keys c.scalar) (sum_vectors keys c.vector)) c.misc

-- Whether a cell is one that is written, and is written once.
abbrev pub is_printed : List (String × ℕ) → Place → Bool
is_printed keys (scalar_place k) = occurrences k keys == 1
is_printed keys (vector_place size k) = occurrences k keys == 1
is_printed keys misc_place = true

pub sum_cells-bump_place :
    (keys : List (String × ℕ)) (place : Place) (c : Cells)
    → is_printed keys place ≡ true
    → sum_cells keys (bump_place place c) ≡ u64 (sum_cells keys c + 1)
unfolding bump_place
sum_cells-bump_place keys (scalar_place k) c h =
    let once = (==_iff (occurrences k keys) 1).0 h in
    omega (arith, sum_keys-bump k keys c.scalar, once)
sum_cells-bump_place keys (vector_place size k) c h =
    let once = (==_iff (occurrences k keys) 1).0 h in
    omega (arith, sum_vectors-bump size k keys c.vector, once)
sum_cells-bump_place keys misc_place c h = omega arith

pub sum_partials-vectors :
    (type_id : LlvmType → ℕ) (flag : IsFloat) (m : OrderedMap (ℕ → ℕ))
    → sum_partials (vector_partials type_id flag m) ≡ sum_vectors (partial_keys type_id flag) m
unfolding vector_partials json_dump_partial
sum_partials-vectors type_id flag [] = refl
sum_partials-vectors type_id flag ((size, f) ∷ m) =
    ap (add64 (sum_keys (partial_keys type_id flag) f)) (sum_partials-vectors type_id flag m)

-- The numbers of LLVM's types: those of the floating-point types are the ones that the code writes
-- out, and no other type of a value has one of them or of the keys for integers.
abbrev pub IsNumbered : (LlvmType → ℕ) → Type 0
IsNumbered type_id =
    ((type_id half_ty ≡ 1)
      × (type_id float_ty ≡ 2)
      × (type_id double_ty ≡ 3)
      × (type_id x86_fp80_ty ≡ 4)
      × (type_id fp128_ty ≡ 5)
      × (type_id ppc_fp128_ty ≡ 6)
      × (type_id x86_mmx_ty ≡ 9))
    × ((w : ℕ) → 9 < type_id (integer_ty w))
    × ((9 < type_id struct_ty)
        × (type_id struct_ty < type_id array_ty)
        × (type_id array_ty < type_id pointer_ty)
        × (type_id pointer_ty < 114))

-- The items of a vector are integers, floating-point numbers or pointers.
abbrev pub is_item : LlvmType → Bool
is_item half_ty = true
is_item float_ty = true
is_item double_ty = true
is_item x86_fp80_ty = true
is_item fp128_ty = true
is_item ppc_fp128_ty = true
is_item x86_mmx_ty = true
is_item (integer_ty w) = true
is_item pointer_ty = true
is_item ty = false

abbrev pub is_value_type : LlvmType → Bool
is_value_type (vector_ty size element) = is_item element
is_value_type ty = true

-- All keys, with the numbers of the types that the code does not write out.
abbrev pub all_keys : (s a p : ℕ) → List (String × ℕ)
all_keys s a p =
    ("float_16bits", 1)
    ∷ ("float_32bits", 2)
    ∷ ("float_64bits", 3)
    ∷ ("float_80bits", 4)
    ∷ ("float_128bits", 5)
    ∷ ("float_128bits_powerpc", 6)
    ∷ ("float_64bits_mmx", 9)
    ∷ ("int_4bits", 114)
    ∷ ("int_8bits", 118)
    ∷ ("int_16bits", 1116)
    ∷ ("int_32bits", 1132)
    ∷ ("int_64bits", 1164)
    ∷ ("int_misc", 1199)
    ∷ ("struct_type", s)
    ∷ ("array_type", a)
    ∷ ("pointer_type", p)
    ∷ []

pub partial_keys-all :
    (type_id : LlvmType → ℕ)
    → IsNumbered type_id
    → partial_keys type_id floats_ints
      ≡ all_keys (type_id struct_ty) (type_id array_ty) (type_id pointer_ty)
unfolding partial_keys
partial_keys-all type_id ((h1, h2, h3, h4, h5, h6, h9), hi, hs) =
    rw (h1, h2, h3, h4, h5, h6, h9) refl

pub int_key_once :
    (s a p w : ℕ)
    → 9 < s
    → s < a
    → a < p
    → p < 114
    → (occurrences (int_key w) (all_keys s a p) == 1) ≡ true
int_key_once s a p w h0 h1 h2 h3 = ground arith

-- The keys that are written, as a test.
pub small_key_once :
    (s a p k : ℕ)
    → 9 < s
    → s < a
    → a < p
    → p < 114
    → (ltb 0 k && leb k 6 || (k == 9) || (k == s) || (k == a) || (k == p)) ≡ true
    → (occurrences k (all_keys s a p) == 1) ≡ true
small_key_once s a p k h0 h1 h2 h3 h = ground arith
