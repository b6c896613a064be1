-- ===== src/InstructionMix/Places.antt =====
-- The cells of the loads and stores of library/InstructionMix.cc are among those that it writes.
use Prim.Native.String.{String}
use ibm_pisa.Base.{ℕ, ◌≡◌, refl, sym, subst, true, false, ◌&&◌, ◌||◌, List, arith, ltb, leb, ◌==◌}
use ibm_pisa.Instructions.{
  LlvmType, half_ty, float_ty, double_ty, x86_fp80_ty, fp128_ty, ppc_fp128_ty, x86_mmx_ty,
  integer_ty, vector_ty, struct_ty, array_ty, pointer_ty, void_ty, other_type,
}
use ibm_pisa.InstructionMix.{int_key, element_key, memory_place}
use ibm_pisa.InstructionMix.Printed.{
  occurrences, all_keys, int_key_once, small_key_once, IsNumbered, is_item, is_value_type,
  is_printed,
}

abbrev pub written : (LlvmType → ℕ) → List (String × ℕ)
written type_id = all_keys (type_id struct_ty) (type_id array_ty) (type_id pointer_ty)

-- Every cell of a load or a store of a value is written once.
pub memory_place_printed :
    (type_id : LlvmType → ℕ) (ty : LlvmType)
    → IsNumbered type_id
    → is_value_type ty ≡ true
    → is_printed (written type_id) (memory_place type_id ty) ≡ true
unfolding memory_place element_key
memory_place_printed type_id ty ((h1, h2, h3, h4, h5, h6, h9), hi, (b0, b1, b2, b3)) v =
    by_type ty v
  where
    small :
        (k : ℕ)
        → (ltb 0 k && leb k 6
            || (k == 9)
            || (k == type_id struct_ty)
            || (k == type_id array_ty)
            || (k == type_id pointer_ty))
          ≡ true
        → (occurrences k (written type_id) == 1) ≡ true
    small k =
        small_key_once (type_id struct_ty) (type_id array_ty) (type_id pointer_ty) k b0 b1 b2 b3

    integer : (w : ℕ) → (occurrences (int_key w) (written type_id) == 1) ≡ true
    integer w =
        int_key_once (type_id struct_ty) (type_id array_ty) (type_id pointer_ty) w b0 b1 b2 b3

    once : ℕ → Type 0
    once k = (occurrences k (written type_id) == 1) ≡ true

    item : (t : LlvmType) → is_item t ≡ true → once (element_key type_id t)
    item half_ty u = rw h1 (small 1 refl)
    item float_ty u = rw h2 (small 2 refl)
    item double_ty u = rw h3 (small 3 refl)
    item x86_fp80_ty u = rw h4 (small 4 refl)
    item fp128_ty u = rw h5 (small 5 refl)
    item ppc_fp128_ty u = rw h6 (small 6 refl)
    item x86_mmx_ty u = rw h9 (small 9 refl)
    item (integer_ty w) u =
        let large : (leb (type_id (integer_ty w)) 6 || (type_id (integer_ty w) == 9)) ≡ false =
          ground (arith, hi w) in
        rw large (integer w)
    item pointer_ty u =
        let key : element_key type_id pointer_ty ≡ type_id pointer_ty = ground arith in
        subst once (sym key) (small (type_id pointer_ty) (ground arith))
    item void_ty u = absurd (ground arith)
    item (vector_ty n t) u = absurd (ground arith)
    item struct_ty u = absurd (ground arith)
    item array_ty u = absurd (ground arith)
    item other_type u = absurd (ground arith)

    by_type :
        (t : LlvmType)
        → is_value_type t ≡ true
        → is_printed (written type_id) (memory_place type_id t) ≡ true
    by_type void_ty u = refl
    by_type half_ty u = rw h1 (small 1 refl)
    by_type float_ty u = rw h2 (small 2 refl)
    by_type double_ty u = rw h3 (small 3 refl)
    by_type x86_fp80_ty u = rw h4 (small 4 refl)
    by_type fp128_ty u = rw h5 (small 5 refl)
    by_type ppc_fp128_ty u = rw h6 (small 6 refl)
    by_type x86_mmx_ty u = rw h9 (small 9 refl)
    by_type (integer_ty w) u = integer w
    by_type (vector_ty n t) u = item t u
    by_type struct_ty u = small (type_id struct_ty) (ground arith)
    by_type array_ty u = small (type_id array_ty) (ground arith)
    by_type pointer_ty u = small (type_id pointer_ty) (ground arith)
    by_type other_type u = refl
