-- ===== src/InstructionMix/Split.antt =====
-- The report of library/InstructionMix.cc that `WKLDchar` asks for, with the loads, stores and
-- operations split by the type and the size of what they work on.
use Prim.Native.String.{String}
use ibm_pisa.Base.{ℕ, Bool, true, false, List, [], ◌∷◌, ◌++◌, map, add64, if◌then◌else◌}
use ibm_pisa.Instructions.{
  Opcode, LlvmType, half_ty, float_ty, double_ty, x86_fp80_ty, fp128_ty, ppc_fp128_ty, x86_mmx_ty,
  struct_ty, array_ty, pointer_ty, ret, br, switch, indirect_br, invoke, resume, unreachable, call,
  icmp, fcmp, phi, select, add, sub, mul, udiv, sdiv, urem, srem, fadd, fsub, fmul, fdiv, frem,
  load, store, alloca, atomic_cmp_xchg, atomic_rmw, fence, get_element_ptr, and, or, xor, shl, lshr,
  ashr, trunc, zext, sext, fp_trunc, fp_ext, fp_to_ui, fp_to_si, ui_to_fp, si_to_fp, int_to_ptr,
  ptr_to_int, bit_cast, addr_space_cast, va_arg, landing_pad, extract_element, insert_element,
  shuffle_vector, extract_value, insert_value,
}
use ibm_pisa.OrderedMap.{OrderedMap}
use ibm_pisa.InstructionMix.{InstructionMix}
use ibm_pisa.InstructionMix.Report.{
  sum64, get_num_ctrl_inst, get_num_int_inst, get_num_fp_inst, get_num_bitwise_inst,
  get_num_conversion_inst,
}

-- `PRINT_ONLY_INTS`, `PRINT_ONLY_FLOATS` and `PRINT_FLOATS_INTS` of library/utils.h.
pub data IsFloat : Type 0 where
  only_ints only_floats floats_ints : IsFloat

abbrev prints_floats : IsFloat → Bool
prints_floats only_ints = false
prints_floats only_floats = true
prints_floats floats_ints = true

abbrev prints_ints : IsFloat → Bool
prints_ints only_ints = true
prints_ints only_floats = false
prints_ints floats_ints = true

abbrev pub sum_keys : List (String × ℕ) → (ℕ → ℕ) → ℕ
sum_keys [] f = 0
sum_keys ((name, key) ∷ keys) f = add64 (f key) (sum_keys keys f)

-- One object of the `mix` of a type, and the sum that it writes.
pub record Partial : Type 0 where
  pub vector_size : ℕ
  pub counts : List (String × ℕ)
  pub instructions : ℕ

pub record PerType : Type 0 where
  pub total_instructions : ℕ
  pub mix : List Partial
  pub scalar_instructions : ℕ
  pub vector_instructions : ℕ
  pub misc_instructions : ℕ

pub data Item : Type 0 where
  number : (n : ℕ) → Item
  per_type : (p : PerType) → Item

abbrev pub sum_partials : List Partial → ℕ
sum_partials [] = 0
sum_partials (p ∷ ps) = add64 p.instructions (sum_partials ps)

module _ (type_id : LlvmType → ℕ) where
  -- The keys that `JSONdump_partial` writes, with the cells it reads.
  unfoldable pub partial_keys : IsFloat → List (String × ℕ)
  partial_keys is_float =
      (if prints_floats is_float
        then ("float_16bits", type_id half_ty)
          ∷ ("float_32bits", type_id float_ty)
          ∷ ("float_64bits", type_id double_ty)
          ∷ ("float_80bits", type_id x86_fp80_ty)
          ∷ ("float_128bits", type_id fp128_ty)
          ∷ ("float_128bits_powerpc", type_id ppc_fp128_ty)
          ∷ ("float_64bits_mmx", type_id x86_mmx_ty)
          ∷ []
        else [])
      ++ (if prints_ints is_float
          then ("int_4bits", 114)
            ∷ ("int_8bits", 118)
            ∷ ("int_16bits", 1116)
            ∷ ("int_32bits", 1132)
            ∷ ("int_64bits", 1164)
            ∷ ("int_misc", 1199)
            ∷ []
          else [])
      ++ (("struct_type", type_id struct_ty)
          ∷ ("array_type", type_id array_ty)
          ∷ ("pointer_type", type_id pointer_ty)
          ∷ [])

  unfoldable pub json_dump_partial : IsFloat → (size : ℕ) → (ℕ → ℕ) → Partial
  json_dump_partial is_float size f = record {
    vector_size = size;
    counts = map (λ row. (row.0, f row.1)) (partial_keys is_float);
    instructions = sum_keys (partial_keys is_float) f;
  }

  unfoldable pub vector_partials : IsFloat → OrderedMap (ℕ → ℕ) → List Partial
  vector_partials is_float [] = []
  vector_partials is_float ((size, f) ∷ m) =
      json_dump_partial is_float size f ∷ vector_partials is_float m

  unfoldable pub json_dump_per_type : Opcode → (inst : ℕ) → IsFloat → InstructionMix → PerType
  json_dump_per_type op inst is_float st =
      let cells = st.counters op in
      let scalar = json_dump_partial is_float 1 cells.scalar in
      let vectors = vector_partials is_float cells.vector in
      record {
        total_instructions = inst;
        mix = scalar ∷ vectors;
        scalar_instructions = scalar.instructions;
        vector_instructions = sum_partials vectors;
        misc_instructions = cells.misc;
      }

  unfoldable pub json_dump_vector_included : InstructionMix → List (String × Item)
  json_dump_vector_included st =
      ("instructions_analyzed", number (st.num_total_insts))
      ∷ ("load_instructions", per_type (json_dump_per_type load (st.num_inst load) floats_ints st))
      ∷ (
        "store_instructions",
        per_type (json_dump_per_type store (st.num_inst store) floats_ints st),
      )
      ∷ (
        "atomic_memory_instructions",
        number (sum64 (atomic_cmp_xchg ∷ atomic_rmw ∷ []) st.num_inst),
      )
      ∷ ("atomic_memory_cmpxchg_instructions", number (st.num_inst atomic_cmp_xchg))
      ∷ ("atomic_memory_rmw_instructions", number (st.num_inst atomic_rmw))
      ∷ ("int_arith_instructions", number (get_num_int_inst st))
      ∷ (
        "int_arith_add_instructions",
        per_type (json_dump_per_type add (st.num_inst add) only_ints st),
      )
      ∷ (
        "int_arith_sub_instructions",
        per_type (json_dump_per_type sub (st.num_inst sub) only_ints st),
      )
      ∷ (
        "int_arith_mul_instructions",
        per_type (json_dump_per_type mul (st.num_inst mul) only_ints st),
      )
      ∷ (
        "int_arith_udiv_instructions",
        per_type (json_dump_per_type udiv (st.num_inst udiv) only_ints st),
      )
      ∷ (
        "int_arith_sdiv_instructions",
        per_type (json_dump_per_type sdiv (st.num_inst sdiv) only_ints st),
      )
      ∷ (
        "int_arith_urem_instructions",
        per_type (json_dump_per_type urem (st.num_inst urem) only_ints st),
      )
      ∷ (
        "int_arith_srem_instructions",
        per_type (json_dump_per_type srem (st.num_inst srem) only_ints st),
      )
      ∷ ("int_cmp_instructions", per_type (json_dump_per_type icmp (st.num_inst icmp) only_ints st))
      ∷ ("fp_arith_instructions", number (get_num_fp_inst st))
      ∷ (
        "fp_arith_add_instructions",
        per_type (json_dump_per_type fadd (st.num_inst fadd) only_floats st),
      )
      ∷ (
        "fp_arith_sub_instructions",
        per_type (json_dump_per_type fsub (st.num_inst fsub) only_floats st),
      )
      ∷ (
        "fp_arith_mul_instructions",
        per_type (json_dump_per_type fmul (st.num_inst fmul) only_floats st),
      )
      ∷ (
        "fp_arith_div_instructions",
        per_type (json_dump_per_type fdiv (st.num_inst fdiv) only_floats st),
      )
      ∷ (
        "fp_arith_rem_instructions",
        per_type (json_dump_per_type frem (st.num_inst frem) only_floats st),
      )
      ∷ (
        "fp_cmp_instructions",
        per_type (json_dump_per_type fcmp (st.num_inst fcmp) only_floats st),
      )
      ∷ ("bitwise_instructions", number (get_num_bitwise_inst st))
      ∷ (
        "bitwise_and_instructions",
        per_type (json_dump_per_type and (st.num_inst and) floats_ints st),
      )
      ∷ (
        "bitwise_or_instructions",
        per_type (json_dump_per_type or (st.num_inst or) floats_ints st),
      )
      ∷ (
        "bitwise_xor_instructions",
        per_type (json_dump_per_type xor (st.num_inst xor) floats_ints st),
      )
      ∷ (
        "bitwise_shift_left_instructions",
        per_type (json_dump_per_type shl (st.num_inst shl) floats_ints st),
      )
      ∷ (
        "bitwise_logical_shift_right_instructions",
        per_type (json_dump_per_type lshr (st.num_inst lshr) floats_ints st),
      )
      ∷ (
        "bitwise_arith_shift_right_instructions",
        per_type (json_dump_per_type ashr (st.num_inst ashr) floats_ints st),
      )
      ∷ ("conversion_instructions", number (get_num_conversion_inst st))
      ∷ (
        "conversion_trunc_instructions",
        per_type (json_dump_per_type trunc (st.num_inst trunc) only_ints st),
      )
      ∷ (
        "conversion_zext_instructions",
        per_type (json_dump_per_type zext (st.num_inst zext) only_ints st),
      )
      ∷ (
        "conversion_sext_instructions",
        per_type (json_dump_per_type sext (st.num_inst sext) only_ints st),
      )
      ∷ (
        "conversion_fptrunc_instructions",
        per_type (json_dump_per_type fp_trunc (st.num_inst fp_trunc) only_floats st),
      )
      ∷ (
        "conversion_fpext_instructions",
        per_type (json_dump_per_type fp_ext (st.num_inst fp_ext) only_floats st),
      )
      ∷ (
        "conversion_fptoui_instructions",
        per_type (json_dump_per_type fp_to_ui (st.num_inst fp_to_ui) only_ints st),
      )
      ∷ (
        "conversion_fptosi_instructions",
        per_type (json_dump_per_type fp_to_si (st.num_inst fp_to_si) only_ints st),
      )
      ∷ (
        "conversion_uitofp_instructions",
        per_type (json_dump_per_type ui_to_fp (st.num_inst ui_to_fp) only_floats st),
      )
      ∷ (
        "conversion_sitofp_instructions",
        per_type (json_dump_per_type si_to_fp (st.num_inst si_to_fp) only_floats st),
      )
      ∷ (
        "conversion_inttoptr_instructions",
        per_type (json_dump_per_type int_to_ptr (st.num_inst int_to_ptr) floats_ints st),
      )
      ∷ (
        "conversion_ptrtoint_instructions",
        per_type (json_dump_per_type ptr_to_int (st.num_inst ptr_to_int) only_floats st),
      )
      ∷ (
        "conversion_bitcast_instructions",
        per_type (json_dump_per_type bit_cast (st.num_inst bit_cast) floats_ints st),
      )
      ∷ (
        "conversion_address_space_cast_instructions",
        per_type (json_dump_per_type addr_space_cast (st.num_inst addr_space_cast) floats_ints st),
      )
      ∷ ("address_arith_instructions", number (sum64 (alloca ∷ get_element_ptr ∷ []) st.num_inst))
      ∷ ("address_arith_alloca_arith_instructions", number (st.num_inst alloca))
      ∷ (
        "address_arith_get_elem_ptr_arith_instructions",
        per_type (json_dump_per_type get_element_ptr (st.num_inst get_element_ptr) floats_ints st),
      )
      ∷ ("control_instructions", number (get_num_ctrl_inst st))
      ∷ ("control_call_instructions", number (st.num_inst call))
      ∷ ("control_ret_instructions", number (st.num_inst ret))
      ∷ ("control_branch_instructions", number (st.num_inst br))
      ∷ ("control_switch_instructions", number (st.num_inst switch))
      ∷ ("control_indirectBr_instructions", number (st.num_inst indirect_br))
      ∷ ("control_invoke_instructions", number (st.num_inst invoke))
      ∷ ("control_resume_instructions", number (st.num_inst resume))
      ∷ ("control_unreachable_instructions", number (st.num_inst unreachable))
      ∷ ("phi_instructions", number (st.num_inst phi))
      ∷ ("sync_instructions", number (st.num_inst fence))
      ∷ ("sync_fence_instructions", number (st.num_inst fence))
      ∷ (
        "llvm_vector_instructions",
        number (sum64 (extract_element ∷ insert_element ∷ shuffle_vector ∷ []) st.num_inst),
      )
      ∷ (
        "llvm_vector_extract_element_instructions",
        per_type (json_dump_per_type extract_element (st.num_inst extract_element) floats_ints st),
      )
      ∷ (
        "llvm_vector_insert_element_instructions",
        per_type (json_dump_per_type insert_element (st.num_inst insert_element) floats_ints st),
      )
      ∷ (
        "llvm_vector_shuffle_vector_instructions",
        per_type (json_dump_per_type shuffle_vector (st.num_inst shuffle_vector) floats_ints st),
      )
      ∷ (
        "aggregate_nonvector_instructions",
        number (sum64 (extract_value ∷ insert_value ∷ []) st.num_inst),
      )
      ∷ (
        "aggregate_extract_value_instructions",
        per_type (json_dump_per_type extract_value (st.num_inst extract_value) floats_ints st),
      )
      ∷ (
        "aggregate_insert_value_instructions",
        per_type (json_dump_per_type insert_value (st.num_inst insert_value) floats_ints st),
      )
      ∷ ("misc_instructions", number (sum64 (select ∷ landing_pad ∷ va_arg ∷ []) st.num_inst))
      ∷ (
        "misc_select_instructions",
        per_type (json_dump_per_type select (st.num_inst select) floats_ints st),
      )
      ∷ ("misc_landingpad_instructions", number (st.num_inst landing_pad))
      ∷ ("misc_va_arg_instructions", number (st.num_inst va_arg))
      ∷ []
