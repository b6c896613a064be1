-- ===== src/Tests/SplayTests.antt =====
-- The splay tree of library/splay.cc.
use ibm_pisa.Base.{ℕ, ◌≤◌, ◌<◌, ◌*◌, ◌^◌, ◌≡◌, refl, arith, u64, [], ◌∷◌, IsSorted, if◌then◌else◌}
use ibm_pisa.Splay.{Tree, nil, node, Locals, Frame, count, splay, splay_loop, iterate, Outcome}
use ibm_pisa.Splay
use ibm_pisa.Splay.Keys.{keys, keys-splay}
use ibm_pisa.Splay.Loop.{splay_loop_ends}
use ibm_pisa.Splay.SortedKeys.{insert_key, remove_key, has_key, count_above}
use ibm_pisa.Splay.Ops.{insert, delete, update, compute_distance, delete_all}
use ibm_pisa.Splay.Refine.{keys-insert, keys-delete, keys-update}
use ibm_pisa.Splay.Exact.{
  IsValid, insert-IsValid, delete-IsValid, update-IsValid, splay-IsValid, compute_distance_lem,
}
use ibm_pisa.Utils.PowerOfTwo.{upper_power_of_two, upper_power_of_two_least}

abbrev three_keys : Tree
three_keys = node 5 3 (node 3 2 (node 2 1 nil nil) nil) nil

three_keys-IsSorted : IsSorted (keys three_keys)
unfolding keys
three_keys-IsSorted = ((omega arith, (omega arith, tt)), ((omega arith, tt), (tt, tt)))

three_keys-IsValid : IsValid three_keys
three_keys-IsValid = record {
  sorted = three_keys-IsSorted;
  sized = unfold count in (refl, (refl, (refl, tt, tt), tt), tt);
  positive = unfold keys in (omega arith, (omega arith, (omega arith, tt)));
}

three_keys-count : 0 < count three_keys
unfolding count
three_keys-count = omega arith

distance_two : (compute_distance 2 three_keys).1 ≡ 2
unfolding compute_distance
distance_two = refl

insert_four : keys (insert 4 three_keys) ≡ 2 ∷ 3 ∷ 4 ∷ 5 ∷ []
unfolding insert keys
insert_four = refl

-- `DeleteAll` frees the right subtree first.
freed : delete_all three_keys ≡ 2 ∷ 3 ∷ 5 ∷ []
unfolding delete_all
freed = refl

keys-splay_example : keys (splay 2 three_keys) ≡ keys three_keys
keys-splay_example = keys-splay 2 three_keys

keys-insert_example : keys (insert 4 three_keys) ≡ insert_key 4 (keys three_keys)
keys-insert_example = keys-insert 4 three_keys three_keys-IsSorted

keys-delete_example : keys (delete 3 three_keys) ≡ remove_key 3 (keys three_keys)
keys-delete_example = keys-delete 3 three_keys three_keys-IsSorted

keys-update_example : keys (update 2 7 three_keys) ≡ insert_key 7 (remove_key 2 (keys three_keys))
keys-update_example = keys-update 2 7 three_keys three_keys-IsSorted

insert-IsValid_example : IsValid (insert 4 three_keys)
insert-IsValid_example = insert-IsValid 4 three_keys (omega arith) three_keys-IsValid

delete-IsValid_example : IsValid (delete 3 three_keys)
delete-IsValid_example = delete-IsValid 3 three_keys three_keys-IsValid

update-IsValid_example : IsValid (update 2 7 three_keys)
update-IsValid_example = update-IsValid 2 7 three_keys (omega arith) three_keys-IsValid

splay-IsValid_example : IsValid (splay 2 three_keys)
splay-IsValid_example = splay-IsValid 2 three_keys three_keys-IsValid

compute_distance_example :
    ((compute_distance 2 three_keys).1
      ≡ (if has_key 2 (keys three_keys) then u64 (count_above 2 (keys three_keys)) else 0))
    × (keys (compute_distance 2 three_keys).0 ≡ keys three_keys)
compute_distance_example = compute_distance_lem 2 three_keys three_keys-IsValid

abbrev at_start : Locals
at_start = record { root = three_keys; ltree = []; rtree = [] }

splay_loop_ends_example :
    (last : Locals) × (iterate 2 last.root last.ltree last.rtree
      ≡ Splay.stop (splay_loop (count three_keys) 2 at_start))
splay_loop_ends_example = splay_loop_ends 2 at_start three_keys-count

power_example :
    (n : ℕ) × (upper_power_of_two 37 ≡ 2 ^ n)
    × (37 ≤ upper_power_of_two 37)
    × (upper_power_of_two 37 < 2 * 37)
power_example = upper_power_of_two_least 37 (omega arith) (omega arith)
