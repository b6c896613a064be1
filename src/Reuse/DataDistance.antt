-- ===== src/Reuse/DataDistance.antt =====
-- `visit` of library/DataTempReuse.cc with cache lines, against the LRU stack.
use ibm_pisa.Base.{
  ℕ, ◌/◌, ◌<◌, ◌≡◌, sym, ◌∙◌, none, some, arith, true, false, Below, Option-cases, inl, inr, u64,
  ◌==◌,
}
use ibm_pisa.OrderedMap.{OrderedMap}
use ibm_pisa.OrderedMap
use ibm_pisa.Splay.Ops.{compute_distance}
use ibm_pisa.Reuse.Inst.{count_distance}
use ibm_pisa.Reuse.Data.{DataTempReuse, Scan, look_up, scan_one, footprint, bin, finish, visit}
use ibm_pisa.Reuse.Represents.{Represents, first_access, again_access, distance-depth}
use ibm_pisa.Reuse.Stack.{Stack, cycles, last_access, depth, access}

abbrev pub Refines : Stack → DataTempReuse → Type 0
Refines s st = Represents s st.last_memory_access st.distance_tree

abbrev pub counted : ℕ → Stack → DataTempReuse → OrderedMap ℕ
counted l s st = elim (last_access l s) [
  | none ↦ st.distance_distribution
  | some _ ↦
      count_distance (bin st.resolution st.resolution_final_bin (u64 (depth l s)))
        st.distance_distribution
]

-- With cache lines, let the state of the data reuse analysis represent an LRU stack. A load or
-- store of at least one byte, at a cycle above 0 and above all cycles of the stack, gives a state
-- that represents the stack after an access of the line of its first byte, and adds to the
-- distribution exactly the bin of that line's depth in the stack, and nothing if the line is new.
pub visit-Refines :
    (size address c : ℕ) (s : Stack) (st : DataTempReuse)
    → 0 < st.cache_line_size
    → 0 < size
    → Refines s st
    → Below c (cycles s)
    → 0 < c
    → let l = address / st.cache_line_size in
      Refines (access l c s) (visit true size address c st)
      × ((visit true size address c st).distance_distribution ≡ counted l s st)
unfolding visit
visit-Refines size address c s st lines sized r later pos =
    let no_bytes : (st.cache_line_size == 0) ≡ false = ground arith in
    let not_empty : (size == 0) ≡ false = ground arith in
    rw (no_bytes, not_empty)
      (elim (Option-cases (OrderedMap.find l st.last_memory_access)) [
        | inl e ↦ first e
        | inr (p, e) ↦ again p e
      ])
  where
    l : ℕ
    l = address / st.cache_line_size

    start : Scan
    start = record {
      found = false;
      distance = 0;
      previous_issue_cycle = 0;
      last = st.last_memory_access;
      tree = st.distance_tree;
    }

    Goal : DataTempReuse → Type 0
    Goal st' = Refines (access l c s) st' × (st'.distance_distribution ≡ counted l s st)

    first :
        OrderedMap.find l st.last_memory_access ≡ none
        → Goal (finish c (footprint size address st) st (scan_one l c start))
    first e =
        let absent : last_access l s ≡ none = sym (r.same_access l) ∙ e in
        rw (e, scan_one) (first_access l c s r later pos e, rw (absent, counted))

    again :
        (p : ℕ)
        → OrderedMap.find l st.last_memory_access ≡ some p
        → Goal (finish c (footprint size address st) st (scan_one l c start))
    again p e =
        let before : last_access l s ≡ some p = sym (r.same_access l) ∙ e in
        let (root, distance) = distance-depth l p s r e in
        rw (e, scan_one, look_up, root, distance)
          (unfold compute_distance in again_access l c s r later pos p e, rw (before, counted))
