-- ===== src/Reuse/Data.antt =====
-- library/DataTempReuse.cc. The opcode, the size and the address of an access come from LLVM and
-- from the instrumented program, and are arguments of `visit`.
use ibm_pisa.Base.{
  ℕ, zero, suc, ◌-◌, ◌/◌, ◌%◌, none, some, Bool, true, false, ◌&&◌, ◌||◌, add64, ltb, [], ◌==◌,
  if◌then◌else◌,
}
use ibm_pisa.OrderedMap.{OrderedMap}
use ibm_pisa.OrderedMap
use ibm_pisa.Splay.{Tree, nil}
use ibm_pisa.Splay.Ops
use ibm_pisa.Reuse.Represents.{root_is}
use ibm_pisa.Reuse.Inst.{count_distance}
use ibm_pisa.Utils.PowerOfTwo.{upper_power_of_two}

pub record DataTempReuse : Type 0 where
  pub cache_line_size : ℕ
  pub mem_footprint : ℕ
  pub resolution : ℕ
  pub resolution_final_bin : ℕ
  pub last_memory_access : OrderedMap ℕ
  pub last_memory_access_byte : OrderedMap Bool
  pub distance_tree : Tree
  pub distance_distribution : OrderedMap ℕ

unfoldable pub init :
    (cache_line_size resolution resolution_final_bin mem_footprint : ℕ) → DataTempReuse
init cache_line_size resolution resolution_final_bin mem_footprint = record {
  cache_line_size = cache_line_size;
  mem_footprint = mem_footprint;
  resolution = resolution;
  resolution_final_bin = resolution_final_bin;
  last_memory_access = [];
  last_memory_access_byte = [];
  distance_tree = nil;
  distance_distribution = [];
}

-- The local variables of `visit` that the loop over the bytes changes, with the map and the tree.
pub record Scan : Type 0 where
  pub found : Bool
  pub distance : ℕ
  pub previous_issue_cycle : ℕ
  pub last : OrderedMap ℕ
  pub tree : Tree

-- `found` stays set once a byte was found, also for later bytes that were not.
unfoldable pub look_up : ℕ → Scan → Scan
look_up previous_tmp sc =
    let (tree, distance_tmp) = Ops.compute_distance previous_tmp sc.tree in
    if root_is previous_tmp tree && (sc.distance == 0 || ltb distance_tmp sc.distance)
    then record sc { distance = distance_tmp; previous_issue_cycle = previous_tmp; tree = tree }
    else record sc { tree = tree }

-- One round of the loop, up to the part about `cache_line_size`.
unfoldable pub scan_one : ℕ → ℕ → Scan → Scan
unfolding look_up
scan_one access cycle sc = elim (OrderedMap.find access sc.last) [
  | none ↦
      let sc' = record sc { last = OrderedMap.insert access cycle sc.last } in
      if sc.found then look_up 0 sc' else sc'
  | some previous ↦
      look_up previous (record sc { found = true; last = OrderedMap.assign access cycle sc.last })
]

-- The loop over the bytes, without cache lines: `left` rounds, from byte `i`.
unfoldable pub scan_bytes : (left i address cycle : ℕ) → Scan → Scan
unfolding scan_one
scan_bytes zero i address cycle sc = sc
scan_bytes (suc left) i address cycle sc =
    scan_bytes left (suc i) address cycle (scan_one (add64 address i) cycle sc)

-- The inner loop over `LastMemoryAccessByte`.
unfoldable pub mark_bytes : (left j address : ℕ) → OrderedMap Bool → OrderedMap Bool
mark_bytes zero j address m = m
mark_bytes (suc left) j address m =
    mark_bytes left (suc j) address (elim (OrderedMap.find (add64 address j) m) [
      | none ↦ OrderedMap.insert (add64 address j) true m
      | some _ ↦ m
    ])

-- The whole loop: with cache lines it is left in its first round.
unfoldable pub scan : (size address cycle : ℕ) → DataTempReuse → Scan → Scan
unfolding scan_one scan_bytes
scan size address cycle st sc =
    if st.cache_line_size == 0
    then scan_bytes size 0 address cycle sc
    else if size == 0
    then sc
    else scan_one (address / st.cache_line_size) cycle sc

unfoldable pub footprint : (size address : ℕ) → DataTempReuse → OrderedMap Bool
unfolding mark_bytes
footprint size address st =
    if st.cache_line_size == 0 || size == 0
    then st.last_memory_access_byte
    else if st.mem_footprint == 1
    then mark_bytes size 0 address st.last_memory_access_byte
    else st.last_memory_access_byte

-- The bin of a distance.
unfoldable pub bin : (resolution resolution_final_bin distance : ℕ) → ℕ
bin resolution resolution_final_bin distance =
    if ltb resolution_final_bin distance || ltb resolution 1
    then upper_power_of_two distance
    else add64 distance (resolution - distance % resolution)

unfoldable pub finish : ℕ → OrderedMap Bool → DataTempReuse → Scan → DataTempReuse
unfolding bin
finish cycle bytes st sc = record st {
  last_memory_access = sc.last;
  last_memory_access_byte = bytes;
  distance_tree =
      if sc.found
      then Ops.update sc.previous_issue_cycle cycle sc.tree
      else Ops.insert cycle sc.tree;
  distance_distribution =
      if sc.found
      then count_distance (bin st.resolution st.resolution_final_bin sc.distance)
          st.distance_distribution
      else st.distance_distribution;
}

-- `is_memory`: the opcode is a load or a store.
unfoldable pub visit : Bool → (size address cycle : ℕ) → DataTempReuse → DataTempReuse
unfolding scan footprint finish
visit is_memory size address cycle st =
    let start : Scan = record {
      found = false;
      distance = 0;
      previous_issue_cycle = 0;
      last = st.last_memory_access;
      tree = st.distance_tree;
    } in
    if is_memory
    then finish cycle (footprint size address st) st (scan size address cycle st start)
    else st
