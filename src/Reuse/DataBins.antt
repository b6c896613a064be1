-- ===== src/Reuse/DataBins.antt =====
-- The bins of the data reuse distribution, and the footprint at byte granularity.
use native.Mathlib.Nat.{div-add-mod, mod-lt}
use ibm_pisa.Base.{
  ℕ, zero, suc, ◌+◌, ◌*◌, ◌/◌, ◌^◌, ◌≤◌, ◌<◌, ◌≡◌, none, some, arith, true, false, add64, IsSorted,
  Bool, Option-cases, inl, inr, ltb, ◌==◌, ◌||◌, if◌then◌else◌,
}
use ibm_pisa.OrderedMap.{OrderedMap, map_keys, find, insert, find-insert, IsSorted-insert}
use ibm_pisa.Utils.PowerOfTwo.{upper_power_of_two}
use ibm_pisa.Reuse.Data.{bin, mark_bytes}

-- For a resolution above 0, a distance of at most the final bin, and a sum of the two below 2^64,
-- the bin is the least multiple of the resolution that is greater than the distance.
pub bin_multiple :
    (resolution final d : ℕ)
    → 0 < resolution
    → d ≤ final
    → d + resolution < 2 ^ 64
    → (bin resolution final d ≡ suc (d / resolution) * resolution)
      × (d < bin resolution final d)
      × (bin resolution final d ≤ d + resolution)
unfolding bin
bin_multiple resolution final d pos le fits =
    let inside : (ltb final d || ltb resolution 1) ≡ false = ground arith in
    let parts = div-add-mod d resolution in
    let lt = mod-lt d pos in rw inside (grind arith, grind arith, grind arith)

-- Beyond the final bin, and with no resolution, the bins are the powers of two.
pub bin_power :
    (resolution final d : ℕ)
    → ltb final d || ltb resolution 1 ≡ true
    → bin resolution final d ≡ upper_power_of_two d
unfolding bin
bin_power resolution final d h = rw h

-- Is the address one of the bytes from `j` on?
abbrev pub is_touched : (left j address a : ℕ) → Bool
is_touched zero j address a = false
is_touched (suc left) j address a = add64 address j == a || is_touched left (suc j) address a

-- In a map with increasing addresses, after the loop over the bytes of an access an address has
-- the value it had, and otherwise the value 1 exactly if it is one of those bytes.
pub find-mark_bytes :
    (left j address a : ℕ) (m : OrderedMap Bool)
    → IsSorted (map_keys m)
    → find a (mark_bytes left j address m) ≡ (elim (find a m) [
      | some v ↦ some v
      | none ↦ if is_touched left j address a then some true else none
    ])
unfolding mark_bytes
find-mark_bytes zero j address a m s = ground arith
find-mark_bytes (suc left) j address a m s = elim (Option-cases (find (add64 address j) m)) [
  | inl e ↦
      let m' = insert (add64 address j) true m in
      rw e (
        ground (
          arith,
          find-mark_bytes left (suc j) address a m' (IsSorted-insert (add64 address j) true m s),
          find-insert a (add64 address j) true m s e,
        ))
  | inr (v, e) ↦ rw e (ground (arith, e, find-mark_bytes left (suc j) address a m s))
]
