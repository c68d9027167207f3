-- ===== src/Tests/Maps.antt =====
-- The properties of Map at a map of two nodes, and runs of its methods.
use windows_kernel_events_tr.Prelude.{
  ℕ, zero, suc, ◌≤◌, ◌<◌, ◌≡◌, refl, List, [], ◌∷◌, true, false, Option, some, none, ◌>>=◌, arith,
  if◌then◌else◌, ◌==◌,
}
use windows_kernel_events_tr.Map.Nodes.{Node, State, new_map, new_node, delete_node, write}
use windows_kernel_events_tr.Map.Rotation.{relink, left_rotate, right_rotate, transplant}
use windows_kernel_events_tr.Prelude.Maps.{empty_map, put, remove}
use windows_kernel_events_tr.Map.Shape.{Tree, leaf, node, entries, key_limit}
use windows_kernel_events_tr.Map.Search.{
  find_loop, toward, minimum, successor, climb_right, find, equal_range, begin, advance, retreat,
}
use windows_kernel_events_tr.Map.Insertion.{
  insert_fixup, insert_round, recolour, rotate_leftwards, rotate_rightwards, raise_leftwards,
  raise_rightwards, attach, hang, settle, descend, insert,
}
use windows_kernel_events_tr.Map.Removal.{
  copy_map, erase, erase_at, unlink, replace_by, delete_fixup, goes_on, delete_round,
  has_black_children, finish_left, finish_right, black_sibling_left, black_sibling_right,
}
use windows_kernel_events_tr.Map.Contents.{first_from, first_after}
use windows_kernel_events_tr.Map.Contents.{has_key}
use windows_kernel_events_tr.Map.Erasing.{IsErased, erase_at_lem}
use windows_kernel_events_tr.Map.Erased.{without, find-erase}
use windows_kernel_events_tr.Map.Runs.{
  Operation, insertion, erasure, IsWithin, perform_all, apply_all, run-agrees,
}
use windows_kernel_events_tr.Map.Values.{lookup}
use windows_kernel_events_tr.SelfDefense.Table.{list_table, find_in}
use windows_kernel_events_tr.Map.Bounds.{equal_range_lem}
use windows_kernel_events_tr.Map.Placing.{IsMap}
use windows_kernel_events_tr.Map.Inserting.{IsPlaced, insert_lem}
use windows_kernel_events_tr.Map.Lookups.{rounds, find-insert}
use windows_kernel_events_tr.Map.Iteration.{walk, address_at, begin-walk, retreat-advance}
use windows_kernel_events_tr.Map.Copies.{copy_map-diverges}
use windows_kernel_events_tr.Map.Removal.{clear}
use windows_kernel_events_tr.Map.Clearing.{AllGone, Avoids, clear_lem}

-- The sentinel at 1, a black node at 2 with the key 50, and its red left child at 3 with the key 30.
abbrev sentinel : Node ℕ
sentinel = record { key = 0; value = 0; is_red = false; parent = 1; left = 1; right = 1 }

abbrev two_nodes : ℕ → Option (Node ℕ)
two_nodes zero = none
two_nodes (suc zero) = some sentinel
two_nodes (suc (suc zero)) =
    some (record { key = 50; value = 9; is_red = false; parent = 1; left = 3; right = 1 })
two_nodes (suc (suc (suc zero))) =
    some (record { key = 30; value = 7; is_red = true; parent = 2; left = 1; right = 1 })
two_nodes (suc (suc (suc (suc q)))) = none

abbrev two_keys : State ℕ
two_keys = record { nodes = two_nodes; next = 4; root = 2; nil = 1; size = 2 }

abbrev two_tree : Tree ℕ
two_tree = node (node leaf 3 30 7 true leaf) 2 50 9 false leaf

two_nodes_unused : (q : ℕ) → 4 ≤ q → two_nodes q ≡ none
two_nodes_unused zero h = refl
two_nodes_unused (suc zero) h = absurd (omega arith)
two_nodes_unused (suc (suc zero)) h = absurd (omega arith)
two_nodes_unused (suc (suc (suc zero))) h = absurd (omega arith)
two_nodes_unused (suc (suc (suc (suc q)))) h = refl

two_keys-IsMap : IsMap two_keys two_tree
unfolding key_limit
two_keys-IsMap = record {
  standing = record {
    sentinel = sentinel;
    at_nil = refl;
    black = refl;
    rooted = refl;
    focus = (
      (refl, refl),
      omega arith,
      omega arith,
      ((refl, refl), omega arith, omega arith, tt, tt),
      tt,
    );
    around = tt;
    unused = two_nodes_unused;
  };
  balanced = (refl, 1, (0, refl, (refl, refl, refl, refl), refl));
  sized = refl;
}

small : 20 < key_limit
unfolding key_limit
small = omega arith

find-insert_example :
    (p : IsPlaced two_keys two_tree 20 5 (insert rounds 20 5 two_keys)) × (find rounds 30 p.state
      ≡ (if 20 == 30 then some p.node_of else find rounds 30 two_keys))
find-insert_example = find-insert 20 30 5 two_keys-IsMap small (omega arith)

find-erase_example :
    (e : IsErased two_keys (without 30 (entries two_tree)) (erase rounds 30 two_keys)) × (e.result
      ≡ (if has_key 30 (entries two_tree) then 1 else 0))
    × (find rounds 50 e.state ≡ (if 30 == 50 then some 1 else find rounds 50 two_keys))
find-erase_example = find-erase 30 50 two_keys-IsMap (omega arith)

erase_at_lem_example : IsErased two_keys ((3, 30, 7) ∷ []) (erase_at rounds 2 two_keys)
erase_at_lem_example = erase_at_lem ((3, 30, 7) ∷ []) [] 2 50 9 two_keys-IsMap (omega arith) refl

abbrev three_operations : List (Operation ℕ)
three_operations = insertion 50 9 ∷ insertion 30 7 ∷ erasure 50 ∷ []

three_operations-IsWithin : IsWithin three_operations
unfolding key_limit
three_operations-IsWithin = (omega arith, (omega arith, tt))

run-agrees_example :
    (s' : State ℕ) × (perform_all three_operations (new_map 0 1 empty_map) ≡ some s')
    × ((j : ℕ) → lookup j s' ≡ some (find_in j (apply_all (list_table ℕ) three_operations [])))
run-agrees_example =
    run-agrees (list_table ℕ) three_operations [] 0 1 empty_map (λ q h. refl) (λ j. refl)
      three_operations-IsWithin (omega arith)

insert_lem_example : IsPlaced two_keys two_tree 20 5 (insert 3 20 5 two_keys)
insert_lem_example = insert_lem 3 20 5 two_keys-IsMap small (omega arith)

equal_range_lem_example :
    equal_range 3 30 two_keys
    ≡ some (first_from 1 30 (entries two_tree), first_after 1 30 (entries two_tree))
equal_range_lem_example = equal_range_lem 3 30 two_keys-IsMap.standing (omega arith)

begin-walk_example :
    (begin rounds two_keys >>= λ p. walk 1 p two_keys) ≡ some (address_at 1 (entries two_tree) 1)
begin-walk_example = begin-walk 1 two_keys-IsMap (omega arith) (omega arith)

retreat-advance_example :
    ((advance rounds 3 two_keys >>= λ p. retreat rounds p two_keys) ≡ some 3)
    × ((retreat rounds 2 two_keys >>= λ p. advance rounds p two_keys) ≡ some 2)
retreat-advance_example =
    retreat-advance [] [] (3, 30, 7) (2, 50, 9) two_keys-IsMap (omega arith) refl

copy_map-diverges_example : copy_map 50 two_keys (new_map 0 4 two_nodes) ≡ none
copy_map-diverges_example =
    copy_map-diverges 50 0 two_keys sentinel two_keys-IsMap.standing refl refl

-- The keys from `p` on, and the keys of a map.
abbrev keys_from : ℕ → ℕ → State ℕ → Option (List ℕ)
keys_from zero p s = some []
keys_from (suc n) p s =
    s.nodes p >>= λ m. successor 8 p s >>= λ q. keys_from n q s >>= λ ks. some (m.key ∷ ks)

abbrev keys : Option (State ℕ) → Option (List ℕ)
keys o = o >>= λ s. minimum 8 s.root s >>= λ p. keys_from s.size p s

abbrev insert_all : List ℕ → Option (State ℕ) → Option (State ℕ)
insert_all [] o = o
insert_all (k ∷ ks) o = insert_all ks (o >>= λ s. insert 8 k 0 s >>= λ r. some r.1)

abbrev erase_all : List ℕ → Option (State ℕ) → Option (State ℕ)
erase_all [] o = o
erase_all (k ∷ ks) o = erase_all ks (o >>= λ s. erase 8 k s >>= λ r. some r.1)

abbrev eight_keys : Option (State ℕ)
eight_keys = insert_all (8 ∷ 3 ∷ 1 ∷ 7 ∷ 5 ∷ 6 ∷ 2 ∷ 4 ∷ []) (some (new_map 0 1 empty_map))

keys-eight_keys : keys eight_keys ≡ some (1 ∷ 2 ∷ 3 ∷ 4 ∷ 5 ∷ 6 ∷ 7 ∷ 8 ∷ [])
unfolding new_map new_node delete_node write put remove relink left_rotate right_rotate insert
    descend toward attach hang settle insert_fixup insert_round recolour rotate_leftwards
    rotate_rightwards raise_leftwards raise_rightwards minimum successor climb_right
keys-eight_keys = refl

keys-erase_all : keys (erase_all (3 ∷ 8 ∷ 5 ∷ 9 ∷ 1 ∷ []) eight_keys) ≡ some (2 ∷ 4 ∷ 6 ∷ 7 ∷ [])
unfolding new_map new_node delete_node write put remove relink left_rotate right_rotate insert
    descend toward attach hang settle insert_fixup insert_round recolour rotate_leftwards
    rotate_rightwards raise_leftwards raise_rightwards minimum successor climb_right find find_loop
    erase erase_at unlink replace_by transplant delete_fixup goes_on delete_round has_black_children
    finish_left finish_right black_sibling_left black_sibling_right
keys-erase_all = refl

clear_lem_example :
    (s' : State ℕ) × (clear 3 two_keys ≡ some s')
    × IsMap s' leaf
    × AllGone s'.nodes two_tree
    × ((q : ℕ) → Avoids q two_tree → s'.nodes q ≡ two_nodes q)
clear_lem_example = clear_lem 3 two_keys two_tree two_keys-IsMap (omega arith)
