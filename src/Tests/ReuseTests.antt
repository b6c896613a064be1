-- ===== src/Tests/ReuseTests.antt =====
-- library/InstTempReuse.cc and library/DataTempReuse.cc.
use ibm_pisa.Base.{
  ℕ, suc, ◌+◌, ◌*◌, ◌/◌, ◌≤◌, ◌<◌, ◌≡◌, refl, arith, Bool, true, none, some, Option, List, [], ◌∷◌,
  if◌then◌else◌,
}
use ibm_pisa.OrderedMap.{map_keys}
use ibm_pisa.OrderedMap
use ibm_pisa.Splay.{nil}
use ibm_pisa.Splay.Ops
use ibm_pisa.Reuse.Represents.{empty-Represents}
use ibm_pisa.Reuse.Stack.{access}
use ibm_pisa.Reuse.Inst.{InstTempReuse, memory_access, count_distance, touch}
use ibm_pisa.Reuse.InstIndex.{memory_access-init}
use ibm_pisa.Reuse.Inst
use ibm_pisa.Reuse.InstDistance.{
  Refines, counted, run_visits, stack_after, distribution_after, touch-Refines, run_visits-Refines,
}
use ibm_pisa.Reuse.Data.{DataTempReuse, bin, mark_bytes}
use ibm_pisa.Reuse.Data
use ibm_pisa.Reuse.DataDistance
use ibm_pisa.Reuse.DataDistance.{visit-Refines}
use ibm_pisa.Reuse.DataBins.{is_touched, bin_multiple, find-mark_bytes}

-- Three instructions without cache lines; the first two are executed in a loop.
abbrev inst_start : InstTempReuse
inst_start = record {
  cache_line_size = 0;
  inst_size = 4;
  instructions_index = [];
  last_memory_access = [];
  distance_tree = nil;
  distance_distribution = [];
}

abbrev loop : List (ℕ × ℕ)
loop = (8, 1) ∷ (9, 2) ∷ (8, 3) ∷ (9, 4) ∷ []

abbrev inst_end : Option InstTempReuse
inst_end = run_visits loop inst_start

inst_Refines : Refines [] inst_start
inst_Refines = empty-Represents

own_line : (i : ℕ) → memory_access inst_start i ≡ some i
unfolding memory_access
own_line i = refl

run_example :
    (st' : InstTempReuse) × (run_visits loop inst_start ≡ some st')
    × Refines (stack_after (λ i. i) loop []) st'
    × (st'.distance_distribution ≡ distribution_after (λ i. i) loop [] [])
run_example =
    run_visits-Refines (λ i. i) 0 loop [] inst_start inst_Refines tt
      (omega arith, (omega arith, (omega arith, (omega arith, tt))))
      (own_line 8, (own_line 9, (own_line 8, (own_line 9, tt))))

touch_example :
    Refines (access 8 1 []) (touch 8 1 inst_start)
    × ((touch 8 1 inst_start).distance_distribution ≡ counted 8 [] [])
touch_example = touch-Refines 8 1 [] inst_start inst_Refines tt (omega arith)

abbrev data_start : DataTempReuse
data_start = Data.init 64 10 100 1

data_Refines : DataDistance.Refines [] data_start
unfolding Data.init
data_Refines = empty-Represents

data_lines : 0 < data_start.cache_line_size
unfolding Data.init
data_lines = omega arith

visit_example :
    DataDistance.Refines
      (access (130 / data_start.cache_line_size) 1 [])
      (Data.visit true 8 130 1 data_start)
    × ((Data.visit true 8 130 1 data_start).distance_distribution
        ≡ DataDistance.counted (130 / data_start.cache_line_size) [] data_start)
visit_example =
    visit-Refines 8 130 1 [] data_start data_lines (omega arith) data_Refines tt (omega arith)

bin_example :
    (bin 10 100 37 ≡ suc (37 / 10) * 10) × (37 < bin 10 100 37) × (bin 10 100 37 ≤ 37 + 10)
bin_example = bin_multiple 10 100 37 (omega arith) (omega arith) (omega arith)

find_example :
    OrderedMap.find {V = Bool} 6 (mark_bytes 4 0 5 []) ≡ (elim (OrderedMap.find {V = Bool} 6 []) [
      | some v ↦ some v
      | none ↦ if is_touched 4 0 5 6 then some true else none
    ])
find_example = find-mark_bytes 4 0 5 6 [] tt

-- Four bytes that were accessed at cycle 1; the first two again at cycle 2. When the last two are
-- accessed at cycle 3, the tree has lost cycle 1, and no distance is found, though one access lies
-- between.
abbrev bytes_start : DataTempReuse
bytes_start = Data.init 0 1 100 0

lost_bytes :
    (Data.visit true 2 2 3
      (Data.visit true 2 0 2 (Data.visit true 4 0 1 bytes_start))).distance_distribution
    ≡ (1, 2) ∷ []
unfolding Data.visit Data.init OrderedMap.find OrderedMap.insert Ops.compute_distance Ops.insert
    OrderedMap.assign Ops.update count_distance
lost_bytes = refl

-- The byte 0 was accessed last of all, the byte 1 before the bytes 8 and 9. The least distance is 0,
-- but 0 counts as no distance yet, and the greater one is taken.
zero_is_not_least :
    (Data.visit true 2 0 5 (
      Data.visit true 1 0 4 (
        Data.visit true 1 9 3
          (Data.visit true 1 8 2 (Data.visit true 1 1 1 bytes_start))))).distance_distribution
    ≡ (4, 1) ∷ []
unfolding Data.visit Data.init OrderedMap.find OrderedMap.insert Ops.compute_distance Ops.insert
    OrderedMap.assign Ops.update count_distance
zero_is_not_least = refl

-- Instructions of 4 bytes in lines of 64: the third instruction is in the line (64 + 2) / 16.
line_example :
    memory_access (Inst.init 64 4 (100 ∷ 104 ∷ 108 ∷ [])) 108 ≡ some ((64 + 2) / (64 / 4))
line_example = memory_access-init 64 4 (100 ∷ 104 ∷ 108 ∷ []) 108 2 (omega arith) (omega arith) refl
