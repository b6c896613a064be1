-- ===== src/Reuse/Inst.antt =====
-- library/InstTempReuse.cc. An instruction is the number that its address is. `none` is a division
-- by zero, or an instruction that the constructor has not indexed.
use ibm_pisa.Base.{ℕ, suc, ◌/◌, Option, none, some, List, [], ◌∷◌, ◌||◌, add64, ◌==◌, if◌then◌else◌}
use ibm_pisa.OrderedMap.{OrderedMap}
use ibm_pisa.OrderedMap
use ibm_pisa.Splay.{Tree, nil}
use ibm_pisa.Splay.Ops
use ibm_pisa.Reuse.Represents.{root_is}
use ibm_pisa.Utils.PowerOfTwo.{upper_power_of_two}

pub record InstTempReuse : Type 0 where
  pub cache_line_size : ℕ
  pub inst_size : ℕ
  pub instructions_index : OrderedMap ℕ
  pub last_memory_access : OrderedMap ℕ
  pub distance_tree : Tree
  pub distance_distribution : OrderedMap ℕ

-- The end of both visits: one more access at this distance.
unfoldable pub count_distance : ℕ → OrderedMap ℕ → OrderedMap ℕ
unfolding OrderedMap.find OrderedMap.insert OrderedMap.assign
count_distance distance distribution = elim (OrderedMap.find distance distribution) [
  | none ↦ OrderedMap.insert distance 1 distribution
  | some previous ↦ OrderedMap.assign distance (add64 previous 1) distribution
]

-- The constructor's loop over the instructions of the module.
unfoldable pub index_instructions : ℕ → List ℕ → OrderedMap ℕ → OrderedMap ℕ
unfolding OrderedMap.insert
index_instructions index [] m = m
index_instructions index (i ∷ is) m =
    index_instructions (suc index) is (OrderedMap.insert i index m)

unfoldable pub init : ℕ → ℕ → List ℕ → InstTempReuse
unfolding index_instructions
init cache_line_size inst_size instructions = record {
  cache_line_size = cache_line_size;
  inst_size = inst_size;
  instructions_index =
      if cache_line_size == 0 || inst_size == 0
      then []
      else index_instructions cache_line_size instructions [];
  last_memory_access = [];
  distance_tree = nil;
  distance_distribution = [];
}

-- `CurrentMemoryAccess`: the cache line of the instruction, or its address.
unfoldable pub memory_access : InstTempReuse → ℕ → Option ℕ
unfolding OrderedMap.find
memory_access st i =
    if st.cache_line_size == 0 || st.inst_size == 0
    then some i
    else elim (OrderedMap.find i st.instructions_index) [
      | none ↦ none
      | some index ↦
          let div = st.cache_line_size / st.inst_size in
          if div == 0 then none else some (index / div)
    ]

-- The rest of `visit`, once the access is known.
unfoldable pub touch : ℕ → ℕ → InstTempReuse → InstTempReuse
touch access cycle st = elim (OrderedMap.find access st.last_memory_access) [
  | none ↦ record st {
    last_memory_access = OrderedMap.insert access cycle st.last_memory_access;
    distance_tree = Ops.insert cycle st.distance_tree;
  }
  | some previous ↦
      let (tree, distance) = Ops.compute_distance previous st.distance_tree in
      record st {
        last_memory_access = OrderedMap.assign access cycle st.last_memory_access;
        distance_tree =
            if root_is previous tree then Ops.update previous cycle tree else Ops.insert cycle tree;
        distance_distribution =
            count_distance (upper_power_of_two distance) st.distance_distribution;
      }
]

unfoldable pub visit : ℕ → ℕ → InstTempReuse → Option InstTempReuse
visit i cycle st = elim (memory_access st i) [
  | none ↦ none
  | some access ↦ some (touch access cycle st)
]
