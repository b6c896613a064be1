-- ===== src/Instructions/Opcodes.antt =====
-- The opcodes as a finite type: a number for each, and a way to prove a Boolean test of all of them by
-- running it.
use ibm_pisa.Base.{
  ℕ, zero, suc, ◌≡◌, refl, Bool, true, ◌&&◌, List, [], ◌∷◌, ◌==◌, arith, ap, ==_iff, ◌∙◌, sym,
}
use ibm_pisa.Instructions.{
  Opcode, ret, br, switch, indirect_br, invoke, resume, unreachable, call, icmp, fcmp, phi, select,
  add, sub, mul, udiv, sdiv, urem, srem, fadd, fsub, fmul, fdiv, frem, load, store, alloca,
  atomic_cmp_xchg, atomic_rmw, fence, get_element_ptr, and, or, xor, shl, lshr, ashr, trunc, zext,
  sext, fp_trunc, fp_ext, fp_to_ui, fp_to_si, ui_to_fp, si_to_fp, int_to_ptr, ptr_to_int, bit_cast,
  addr_space_cast, va_arg, landing_pad, extract_element, insert_element, shuffle_vector,
  extract_value, insert_value, other_opcode,
}

abbrev pub all_opcodes : List Opcode
all_opcodes =
    ret ∷ br ∷ switch ∷ indirect_br ∷ invoke ∷ resume ∷ unreachable ∷ call ∷ icmp ∷ fcmp ∷ phi
    ∷ select ∷ add ∷ sub ∷ mul ∷ udiv ∷ sdiv ∷ urem ∷ srem ∷ fadd ∷ fsub ∷ fmul ∷ fdiv ∷ frem ∷ load
    ∷ store ∷ alloca ∷ atomic_cmp_xchg ∷ atomic_rmw ∷ fence ∷ get_element_ptr ∷ and ∷ or ∷ xor ∷ shl
    ∷ lshr ∷ ashr ∷ trunc ∷ zext ∷ sext ∷ fp_trunc ∷ fp_ext ∷ fp_to_ui ∷ fp_to_si ∷ ui_to_fp
    ∷ si_to_fp ∷ int_to_ptr ∷ ptr_to_int ∷ bit_cast ∷ addr_space_cast ∷ va_arg ∷ landing_pad
    ∷ extract_element ∷ insert_element ∷ shuffle_vector ∷ extract_value ∷ insert_value
    ∷ other_opcode ∷ []

abbrev pub position : Opcode → ℕ
position ret = 0
position br = 1
position switch = 2
position indirect_br = 3
position invoke = 4
position resume = 5
position unreachable = 6
position call = 7
position icmp = 8
position fcmp = 9
position phi = 10
position select = 11
position add = 12
position sub = 13
position mul = 14
position udiv = 15
position sdiv = 16
position urem = 17
position srem = 18
position fadd = 19
position fsub = 20
position fmul = 21
position fdiv = 22
position frem = 23
position load = 24
position store = 25
position alloca = 26
position atomic_cmp_xchg = 27
position atomic_rmw = 28
position fence = 29
position get_element_ptr = 30
position and = 31
position or = 32
position xor = 33
position shl = 34
position lshr = 35
position ashr = 36
position trunc = 37
position zext = 38
position sext = 39
position fp_trunc = 40
position fp_ext = 41
position fp_to_ui = 42
position fp_to_si = 43
position ui_to_fp = 44
position si_to_fp = 45
position int_to_ptr = 46
position ptr_to_int = 47
position bit_cast = 48
position addr_space_cast = 49
position va_arg = 50
position landing_pad = 51
position extract_element = 52
position insert_element = 53
position shuffle_vector = 54
position extract_value = 55
position insert_value = 56
position other_opcode = 57

abbrev pub same : Opcode → Opcode → Bool
same a b = position a == position b

abbrev at : ℕ → List Opcode → Opcode
at n [] = other_opcode
at zero (o ∷ os) = o
at (suc n) (o ∷ os) = at n os

at-position : (o : Opcode) → at (position o) all_opcodes ≡ o
at-position ret = refl
at-position br = refl
at-position switch = refl
at-position indirect_br = refl
at-position invoke = refl
at-position resume = refl
at-position unreachable = refl
at-position call = refl
at-position icmp = refl
at-position fcmp = refl
at-position phi = refl
at-position select = refl
at-position add = refl
at-position sub = refl
at-position mul = refl
at-position udiv = refl
at-position sdiv = refl
at-position urem = refl
at-position srem = refl
at-position fadd = refl
at-position fsub = refl
at-position fmul = refl
at-position fdiv = refl
at-position frem = refl
at-position load = refl
at-position store = refl
at-position alloca = refl
at-position atomic_cmp_xchg = refl
at-position atomic_rmw = refl
at-position fence = refl
at-position get_element_ptr = refl
at-position and = refl
at-position or = refl
at-position xor = refl
at-position shl = refl
at-position lshr = refl
at-position ashr = refl
at-position trunc = refl
at-position zext = refl
at-position sext = refl
at-position fp_trunc = refl
at-position fp_ext = refl
at-position fp_to_ui = refl
at-position fp_to_si = refl
at-position ui_to_fp = refl
at-position si_to_fp = refl
at-position int_to_ptr = refl
at-position ptr_to_int = refl
at-position bit_cast = refl
at-position addr_space_cast = refl
at-position va_arg = refl
at-position landing_pad = refl
at-position extract_element = refl
at-position insert_element = refl
at-position shuffle_vector = refl
at-position extract_value = refl
at-position insert_value = refl
at-position other_opcode = refl

pub same_eq : (a b : Opcode) → same a b ≡ true → a ≡ b
same_eq a b h =
    sym (at-position a)
    ∙ ap (λ n. at n all_opcodes) ((==_iff (position a) (position b)).0 h)
    ∙ at-position b

abbrev pub passes : (Opcode → Bool) → List Opcode → Bool
passes test [] = true
passes test (o ∷ os) = test o && passes test os

at-passes :
    (test : Opcode → Bool) (os : List Opcode) (n : ℕ)
    → test other_opcode ≡ true
    → passes test os ≡ true
    → test (at n os) ≡ true
at-passes test [] n last h = last
at-passes test (o ∷ os) zero last h = ground arith
at-passes test (o ∷ os) (suc n) last h = at-passes test os n last (ground arith)

-- A test that all opcodes of the list pass, one by one, holds of every opcode.
pub every :
    (test : Opcode → Bool)
    → test other_opcode ≡ true
    → passes test all_opcodes ≡ true
    → (o : Opcode) → test o ≡ true
every test last h o = ap test (sym (at-position o)) ∙ at-passes test all_opcodes (position o) last h
