-- ===== src/Map/Lookups.antt =====
-- `Find` after `Insert`, and the empty map, of driver/std/map/map.h. The rounds given are enough for
-- fewer than 2^64 nodes, since a red-black tree of so many is at most 128 high.
use windows_kernel_events_tr.Prelude.{
  ℕ, ◌+◌, ◌^◌, ◌≤◌, ◌<◌, ◌≡◌, refl, sym, ◌∙◌, ap, false, Option, some, none, ◌==◌, ==_iff,
  if◌then◌else◌, List, [], ◌∷◌, arith, inl, inr, Bool-cases, length, subst,
}
use windows_kernel_events_tr.Prelude.Maps.{put-same, put-other}
use windows_kernel_events_tr.Map.Nodes.{Node, State, new_map}
use windows_kernel_events_tr.Map.Search.{find}
use windows_kernel_events_tr.Map.Insertion.{insert}
use windows_kernel_events_tr.Map.Shape.{Tree, leaf, entries, height, key_limit}
use windows_kernel_events_tr.Map.Contents.{locate, placed}
use windows_kernel_events_tr.Map.Heights.{height_lem}
use windows_kernel_events_tr.Map.Searches.{find_lem}
use windows_kernel_events_tr.Map.Placing.{IsMap}
use windows_kernel_events_tr.Map.Inserting.{IsPlaced, insert_lem}

abbrev pub rounds : ℕ
rounds = 130

module _ {V : Type 0} where
  -- `Map()` is the empty map.
  pub new_map-IsMap :
      (blank : V) (next : ℕ) (nodes : ℕ → Option (Node V))
      → ((q : ℕ) → next ≤ q → nodes q ≡ none)
      → IsMap (new_map blank next nodes) leaf
  unfolding new_map
  new_map-IsMap blank next nodes unused = record {
    standing = record {
      sentinel = record {
        key = 0;
        value = blank;
        is_red = false;
        parent = next;
        left = next;
        right = next;
      };
      at_nil = put-same next _ nodes;
      black = refl;
      rooted = refl;
      focus = tt;
      around = tt;
      unused = λ q l. put-other next q _ nodes (ground arith) ∙ unused q (omega arith);
    };
    balanced = (refl, 0, refl);
    sized = refl;
  }

  -- There are rounds enough for a map with room for its nodes' count.
  pub enough_rounds :
      {s : State V} {t : Tree V} → IsMap s t → length (entries t) < 2 ^ 64 → height t < rounds
  enough_rounds {t = t} m few = omega (arith, height_lem t m.balanced few)

  -- In a map of fewer than 2^64 nodes `Find` returns within 130 rounds: the node that has the key, or
  -- `End()` where none has.
  pub find-locates :
      {s : State V} {t : Tree V} (k : ℕ)
      → IsMap s t
      → length (entries t) < 2 ^ 64
      → find rounds k s ≡ some (locate s.nil k (entries t))
  find-locates k m few = find_lem rounds k m.standing (enough_rounds m few)

  pub length-placed :
      (q k : ℕ) (v : V) (xs : List (ℕ × ℕ × V)) → length (placed q k v xs) ≤ length xs + 1
  unfolding placed
  length-placed q k v [] = omega arith
  length-placed q k v ((a, j, w) ∷ xs) = ground (arith, length-placed q k v xs)

  locate-placed :
      (d q k j : ℕ) (v : V) (xs : List (ℕ × ℕ × V))
      → (k == j) ≡ false
      → locate d j (placed q k v xs) ≡ locate d j xs
  unfolding placed locate
  locate-placed d q k j v [] differ = rw (differ) refl
  locate-placed d q k j v ((a, i, w) ∷ xs) differ =
      ground (arith, locate-placed d q k j v xs differ)

  -- In a map with room for one more node, and for a key below 2^64, `Insert(k, v)` returns within 130
  -- rounds, with a map whose bindings are the old ones and, where `k` was not bound, `k` to `v` in its
  -- place; a search for `k` finds the node that `Insert` returned, and a search for any other key what
  -- it found before.
  pub find-insert :
      {s : State V} {t : Tree V} (k j : ℕ) (v : V)
      → IsMap s t
      → k < key_limit
      → length (entries t) + 1 < 2 ^ 64
      → (p : IsPlaced s t k v (insert rounds k v s)) × (find rounds j p.state
          ≡ (if k == j then some p.node_of else find rounds j s))
  find-insert {s} {t} k j v m below room =
      let p = insert_lem rounds k v m below (enough_rounds m (omega arith)) in
      let few : length (entries p.tree) < 2 ^ 64 =
        omega (arith, ap length p.contents, length-placed s.next k v (entries t)) in
      let found = find_lem rounds j p.is_map.standing (enough_rounds p.is_map few) in
      let found_before = find_lem rounds j m.standing (enough_rounds m (omega arith)) in
      (
        p,
        found ∙ elim (Bool-cases (k == j)) [
          | inl same ↦ rw (same) (
              ap some (
                subst (λ i. locate p.state.nil i (entries p.tree) ≡ p.node_of) ((==_iff k j).0 same)
                  (ap (λ d. locate d k (entries p.tree)) p.same_nil ∙ sym p.at_key)))
          | inr differ ↦ rw (differ) (
              ap some (
                ap (λ d. locate d j (entries p.tree)) p.same_nil
                ∙ (ap (λ es. locate s.nil j es) p.contents
                    ∙ locate-placed s.nil s.next k j v (entries t) differ))
              ∙ sym found_before)
        ],
      )
