-- ===== src/InstructionMix/Report.antt =====
-- The sums of library/InstructionMix.cc and its two reports. A report is the list of its keys with what
-- it writes for each, in order.
use Prim.Native.String.{String}
use ibm_pisa.Base.{ℕ, List, [], ◌∷◌, add64}
use ibm_pisa.Instructions.{
  Opcode, ret, br, switch, indirect_br, invoke, resume, unreachable, call, icmp, fcmp, phi, select,
  add, sub, mul, udiv, sdiv, urem, srem, fadd, fsub, fmul, fdiv, frem, load, store, alloca,
  atomic_cmp_xchg, atomic_rmw, fence, get_element_ptr, and, or, xor, shl, lshr, ashr, trunc, zext,
  sext, fp_trunc, fp_ext, fp_to_ui, fp_to_si, ui_to_fp, si_to_fp, int_to_ptr, ptr_to_int, bit_cast,
  addr_space_cast, va_arg, landing_pad, extract_element, insert_element, shuffle_vector,
  extract_value, insert_value,
}
use ibm_pisa.InstructionMix.{
  InstructionMix, half_slot, float_slot, double_slot, x86_fp80_slot, fp128_slot, ppc_fp128_slot,
  x86_mmx_slot, bits4_slot, bits8_slot, bits16_slot, bits32_slot, bits64_slot, misc_slot,
}

-- A sum of `unsigned long long` counters.
abbrev pub sum64 : List Opcode → (Opcode → ℕ) → ℕ
sum64 [] f = 0
sum64 (o ∷ os) f = add64 (f o) (sum64 os f)

abbrev pub ctrl_opcodes : List Opcode
ctrl_opcodes = ret ∷ br ∷ switch ∷ indirect_br ∷ invoke ∷ resume ∷ unreachable ∷ call ∷ []

unfoldable pub get_num_ctrl_inst : InstructionMix → ℕ
get_num_ctrl_inst st = sum64 ctrl_opcodes st.num_inst

abbrev pub int_opcodes : List Opcode
int_opcodes = add ∷ sub ∷ mul ∷ udiv ∷ sdiv ∷ urem ∷ srem ∷ []

unfoldable pub get_num_int_inst : InstructionMix → ℕ
get_num_int_inst st = sum64 int_opcodes st.num_inst

abbrev pub addr_arith_opcodes : List Opcode
addr_arith_opcodes = alloca ∷ get_element_ptr ∷ []

unfoldable pub get_num_addr_arith_inst : InstructionMix → ℕ
get_num_addr_arith_inst st = sum64 addr_arith_opcodes st.num_inst

abbrev pub mem_opcodes : List Opcode
mem_opcodes = load ∷ store ∷ atomic_cmp_xchg ∷ atomic_rmw ∷ []

unfoldable pub get_num_mem_inst : InstructionMix → ℕ
get_num_mem_inst st = sum64 mem_opcodes st.num_inst

abbrev pub fp_opcodes : List Opcode
fp_opcodes = fadd ∷ fsub ∷ fmul ∷ fdiv ∷ frem ∷ []

unfoldable pub get_num_fp_inst : InstructionMix → ℕ
get_num_fp_inst st = sum64 fp_opcodes st.num_inst

abbrev pub conversion_opcodes : List Opcode
conversion_opcodes =
    trunc ∷ zext ∷ sext ∷ fp_trunc ∷ fp_ext ∷ fp_to_ui ∷ fp_to_si ∷ ui_to_fp ∷ si_to_fp ∷ int_to_ptr
    ∷ ptr_to_int ∷ bit_cast ∷ addr_space_cast ∷ []

unfoldable pub get_num_conversion_inst : InstructionMix → ℕ
get_num_conversion_inst st = sum64 conversion_opcodes st.num_inst

abbrev pub bitwise_opcodes : List Opcode
bitwise_opcodes = and ∷ or ∷ xor ∷ shl ∷ lshr ∷ ashr ∷ []

unfoldable pub get_num_bitwise_inst : InstructionMix → ℕ
get_num_bitwise_inst st = sum64 bitwise_opcodes st.num_inst

abbrev pub misc_opcodes : List Opcode
misc_opcodes =
    va_arg ∷ extract_element ∷ insert_element ∷ shuffle_vector ∷ extract_value ∷ insert_value ∷ []

unfoldable pub get_num_misc_inst : InstructionMix → ℕ
get_num_misc_inst st = sum64 misc_opcodes st.num_inst

unfoldable pub json_dump : InstructionMix → List (String × ℕ)
json_dump st =
    ("instructions_analyzed", st.num_total_insts)
    ∷ ("load_instructions", st.num_inst load)
    ∷ ("load_float_16bits_instructions", st.loads half_slot)
    ∷ ("load_float_32bits_instructions", st.loads float_slot)
    ∷ ("load_float_64bits_instructions", st.loads double_slot)
    ∷ ("load_float_80bits_instructions", st.loads x86_fp80_slot)
    ∷ ("load_float_128bits_instructions", st.loads fp128_slot)
    ∷ ("load_float_128bits_powerpc_instructions", st.loads ppc_fp128_slot)
    ∷ ("load_float_64bits_mmx_instructions", st.loads x86_mmx_slot)
    ∷ ("load_int_4bits_instructions", st.loads bits4_slot)
    ∷ ("load_int_8bits_instructions", st.loads bits8_slot)
    ∷ ("load_int_16bits_instructions", st.loads bits16_slot)
    ∷ ("load_int_32bits_instructions", st.loads bits32_slot)
    ∷ ("load_int_64bits_instructions", st.loads bits64_slot)
    ∷ ("load_misc_instructions", st.loads misc_slot)
    ∷ ("store_instructions", st.num_inst store)
    ∷ ("store_float_16bits_instructions", st.stores half_slot)
    ∷ ("store_float_32bits_instructions", st.stores float_slot)
    ∷ ("store_float_64bits_instructions", st.stores double_slot)
    ∷ ("store_float_80bits_instructions", st.stores x86_fp80_slot)
    ∷ ("store_float_128bits_instructions", st.stores fp128_slot)
    ∷ ("store_float_128bits_powerpc_instructions", st.stores ppc_fp128_slot)
    ∷ ("store_float_64bits_mmx_instructions", st.stores x86_mmx_slot)
    ∷ ("store_int_4bits_instructions", st.stores bits4_slot)
    ∷ ("store_int_8bits_instructions", st.stores bits8_slot)
    ∷ ("store_int_16bits_instructions", st.stores bits16_slot)
    ∷ ("store_int_32bits_instructions", st.stores bits32_slot)
    ∷ ("store_int_64bits_instructions", st.stores bits64_slot)
    ∷ ("store_misc_instructions", st.stores misc_slot)
    ∷ ("atomic_memory_instructions", sum64 (atomic_cmp_xchg ∷ atomic_rmw ∷ []) st.num_inst)
    ∷ ("atomic_memory_cmpxchg_instructions", st.num_inst atomic_cmp_xchg)
    ∷ ("atomic_memory_rmw_instructions", st.num_inst atomic_rmw)
    ∷ ("int_arith_instructions", get_num_int_inst st)
    ∷ ("int_arith_add_instructions", st.num_inst add)
    ∷ ("int_arith_sub_instructions", st.num_inst sub)
    ∷ ("int_arith_mul_instructions", st.num_inst mul)
    ∷ ("int_arith_udiv_instructions", st.num_inst udiv)
    ∷ ("int_arith_sdiv_instructions", st.num_inst sdiv)
    ∷ ("int_arith_urem_instructions", st.num_inst urem)
    ∷ ("int_arith_srem_instructions", st.num_inst srem)
    ∷ ("int_cmp_instructions", st.num_inst icmp)
    ∷ ("bitwise_instructions", get_num_bitwise_inst st)
    ∷ ("bitwise_and_instructions", st.num_inst and)
    ∷ ("bitwise_or_instructions", st.num_inst or)
    ∷ ("bitwise_xor_instructions", st.num_inst xor)
    ∷ ("bitwise_shift_left_instructions", st.num_inst shl)
    ∷ ("bitwise_logical_shift_right_instructions", st.num_inst lshr)
    ∷ ("bitwise_arith_shift_right_instructions", st.num_inst ashr)
    ∷ ("conversion_instructions", get_num_conversion_inst st)
    ∷ ("conversion_trunc_instructions", st.num_inst trunc)
    ∷ ("conversion_zext_instructions", st.num_inst zext)
    ∷ ("conversion_sext_instructions", st.num_inst sext)
    ∷ ("conversion_fptrunc_instructions", st.num_inst fp_trunc)
    ∷ ("conversion_fpext_instructions", st.num_inst fp_ext)
    ∷ ("conversion_fptoui_instructions", st.num_inst fp_to_ui)
    ∷ ("conversion_fptosi_instructions", st.num_inst fp_to_si)
    ∷ ("conversion_uitofp_instructions", st.num_inst ui_to_fp)
    ∷ ("conversion_sitofp_instructions", st.num_inst si_to_fp)
    ∷ ("conversion_inttoptr_instructions", st.num_inst int_to_ptr)
    ∷ ("conversion_ptrtoint_instructions", st.num_inst ptr_to_int)
    ∷ ("conversion_bitcast_instructions", st.num_inst bit_cast)
    ∷ ("conversion_address_space_cast_instructions", st.num_inst addr_space_cast)
    ∷ ("address_arith_instructions", sum64 (alloca ∷ get_element_ptr ∷ []) st.num_inst)
    ∷ ("address_arith_alloca_arith_instructions", st.num_inst alloca)
    ∷ ("address_arith_get_elem_ptr_arith_instructions", st.num_inst get_element_ptr)
    ∷ ("fp_arith_instructions", get_num_fp_inst st)
    ∷ ("fp_arith_add_instructions", st.num_inst fadd)
    ∷ ("fp_arith_sub_instructions", st.num_inst fsub)
    ∷ ("fp_arith_mul_instructions", st.num_inst fmul)
    ∷ ("fp_arith_div_instructions", st.num_inst fdiv)
    ∷ ("fp_arith_rem_instructions", st.num_inst frem)
    ∷ ("fp_cmp_instructions", st.num_inst fcmp)
    ∷ ("control_instructions", get_num_ctrl_inst st)
    ∷ ("control_call_instructions", st.num_inst call)
    ∷ ("control_ret_instructions", st.num_inst ret)
    ∷ ("control_branch_instructions", st.num_inst br)
    ∷ ("control_switch_instructions", st.num_inst switch)
    ∷ ("control_indirectBr_instructions", st.num_inst indirect_br)
    ∷ ("control_invoke_instructions", st.num_inst invoke)
    ∷ ("control_resume_instructions", st.num_inst resume)
    ∷ ("control_unreachable_instructions", st.num_inst unreachable)
    ∷ ("phi_instructions", st.num_inst phi)
    ∷ ("sync_instructions", st.num_inst fence)
    ∷ ("sync_fence_instructions", st.num_inst fence)
    ∷ (
      "vector_instructions",
      sum64 (extract_element ∷ insert_element ∷ shuffle_vector ∷ []) st.num_inst,
    )
    ∷ ("vector_extract_element_instructions", st.num_inst extract_element)
    ∷ ("vector_insert_element_instructions", st.num_inst insert_element)
    ∷ ("vector_shuffle_vector_instructions", st.num_inst shuffle_vector)
    ∷ ("aggregate_nonvector_instructions", sum64 (extract_value ∷ insert_value ∷ []) st.num_inst)
    ∷ ("aggregate_extract_value_instructions", st.num_inst extract_value)
    ∷ ("aggregate_insert_value_instructions", st.num_inst insert_value)
    ∷ ("misc_instructions", sum64 (select ∷ landing_pad ∷ va_arg ∷ []) st.num_inst)
    ∷ ("misc_select_instructions", st.num_inst select)
    ∷ ("misc_landingpad_instructions", st.num_inst landing_pad)
    ∷ ("misc_va_arg_instructions", st.num_inst va_arg)
    ∷ []
