-- ===== src/Map/Runs.antt =====
-- The red-black tree of driver/std/map/map.h behind the interface that the callbacks of the driver use: runs
-- of `Insert` and `Erase`, and what a lookup then gives.
use windows_kernel_events_tr.Prelude.{
  ℕ, ◌+◌, ◌^◌, ◌≤◌, ◌<◌, ◌≡◌, refl, sym, ◌∙◌, ap, Option, some, none, ◌>>=◌, ◌==◌, ==_iff, List, [],
  ◌∷◌, arith, inl, inr, Bool-cases, length, subst,
}
use windows_kernel_events_tr.Map.Nodes.{Node, State, new_map}
use windows_kernel_events_tr.Map.Removal.{erase}
use windows_kernel_events_tr.Map.Insertion.{insert}
use windows_kernel_events_tr.Map.Shape.{Tree, entries, key_limit}
use windows_kernel_events_tr.Map.Contents.{placed}
use windows_kernel_events_tr.Map.Relinking.{same_address}
use windows_kernel_events_tr.Map.Placing.{IsMap}
use windows_kernel_events_tr.Map.Lookups.{rounds, find-insert, new_map-IsMap, length-placed}
use windows_kernel_events_tr.Map.Erased.{without, erase_lem, length-without}
use windows_kernel_events_tr.SelfDefense.Table.{Table, kept}
use windows_kernel_events_tr.Map.Values.{
  lookup, value_of, value_absent, value_placed, value_placed_other, value_without_other, lookup_lem,
}

pub data Operation (V : Type 0) : Type 0 where
  insertion : ℕ → V → Operation V
  erasure : ℕ → Operation V

module _ {V : Type 0} where
  unfoldable pub perform : Operation V → State V → Option (State V)
  perform (insertion k v) s = insert rounds k v s >>= λ r. some r.1
  perform (erasure k) s = erase rounds k s >>= λ r. some r.1

  unfoldable pub perform_all : List (Operation V) → State V → Option (State V)
  perform_all [] s = some s
  perform_all (o ∷ os) s = do s ← perform o s; perform_all os s

  -- The keys to insert are handles.
  abbrev pub IsWithin : List (Operation V) → Type 0
  IsWithin [] = Unit {0}
  IsWithin (insertion k v ∷ os) = (k < key_limit) × IsWithin os
  IsWithin (erasure k ∷ os) = IsWithin os

module _ {V : Type 0} (table : Table V) where
  open table use {Map, find-insert as law_insert, find-erase as law_erase}

  unfoldable pub apply : Operation V → Map → Map
  apply (insertion k v) m = table.insert k v m
  apply (erasure k) m = table.erase k m

  unfoldable pub apply_all : List (Operation V) → Map → Map
  apply_all [] m = m
  apply_all (o ∷ os) m = apply_all os (apply o m)

  -- One operation, with room for one more node.
  record Follows (s : State V) (n : ℕ) (o : Operation V) (m : Map) : Type 0 where
    state : State V
    tree : Tree V
    returns : perform o s ≡ some state
    is_map : IsMap state tree
    agrees : (j : ℕ) → value_of j (entries tree) ≡ table.find j (apply o m)
    within : length (entries tree) ≤ n + 1

  insertion_lem :
      {s : State V} {t : Tree V} (k : ℕ) (v : V) (m : Map)
      → IsMap s t
      → ((j : ℕ) → value_of j (entries t) ≡ table.find j m)
      → k < key_limit
      → length (entries t) + 1 < 2 ^ 64
      → Follows s (length (entries t)) (insertion k v) m
  unfolding perform apply
  insertion_lem {s} {t} k v m is_map agrees below room =
      let p = (find-insert k k v is_map below room).0 in
      record {
        state = p.state;
        tree = p.tree;
        returns = rw (p.returns) refl;
        is_map = p.is_map;
        agrees = λ j. ap (value_of j) p.contents ∙ (elim (Bool-cases (k == j)) [
          | inl same ↦
              subst
                (λ i.
                  value_of i (placed s.next k v (entries t)) ≡ table.find i (table.insert k v m))
                ((==_iff k j).0 same)
                (value_placed s.next k v is_map (omega arith)
                  ∙ (ap (λ o. kept o v) (agrees k)
                      ∙ sym (law_insert k k v m ∙ rw (same_address k) refl)))
          | inr differ ↦
              value_placed_other s.next k j v (entries t) differ
              ∙ (agrees j ∙ sym (law_insert k j v m ∙ rw (differ) refl))
        ]);
        within = omega (arith, ap length p.contents, length-placed s.next k v (entries t));
      }

  erasure_lem :
      {s : State V} {t : Tree V} (k : ℕ) (m : Map)
      → IsMap s t
      → ((j : ℕ) → value_of j (entries t) ≡ table.find j m)
      → length (entries t) + 1 < 2 ^ 64
      → Follows s (length (entries t)) (erasure k) m
  unfolding perform apply
  erasure_lem {s} {t} k m is_map agrees room =
      let (e, result, gone) = erase_lem k is_map (omega arith) in
      record {
        state = e.state;
        tree = e.tree;
        returns = rw (e.returns) refl;
        is_map = e.is_map;
        agrees = λ j. ap (value_of j) e.contents ∙ (elim (Bool-cases (k == j)) [
          | inl same ↦
              subst (λ i. value_of i (without k (entries t)) ≡ table.find i (table.erase k m))
                ((==_iff k j).0 same)
                (value_absent k (without k (entries t)) gone
                  ∙ sym (law_erase k k m ∙ rw (same_address k) refl))
          | inr differ ↦
              value_without_other k j (entries t) differ
              ∙ (agrees j ∙ sym (law_erase k j m ∙ rw (differ) refl))
        ]);
        within = omega (arith, ap length e.contents, length-without k (entries t));
      }

  step_lem :
      {s : State V} {t : Tree V} (o : Operation V) (m : Map)
      → IsMap s t
      → ((j : ℕ) → value_of j (entries t) ≡ table.find j m)
      → IsWithin (o ∷ [])
      → length (entries t) + 1 < 2 ^ 64
      → Follows s (length (entries t)) o m
  step_lem (insertion k v) m is_map agrees within room =
      insertion_lem k v m is_map agrees within.0 room
  step_lem (erasure k) m is_map agrees within room = erasure_lem k m is_map agrees room

  head-IsWithin :
      (o : Operation V) (os : List (Operation V))
      → IsWithin (o ∷ os)
      → IsWithin (o ∷ []) × IsWithin os
  head-IsWithin (insertion k v) os within = ((within.0, tt), within.1)
  head-IsWithin (erasure k) os within = (tt, within)

  run_lem :
      (os : List (Operation V)) {s : State V} {t : Tree V} (m : Map)
      → IsMap s t
      → ((j : ℕ) → value_of j (entries t) ≡ table.find j m)
      → IsWithin os
      → length (entries t) + length os < 2 ^ 64
      → (s' : State V) × (perform_all os s ≡ some s')
        × ((j : ℕ) → lookup j s' ≡ some (table.find j (apply_all os m)))
  unfolding perform_all apply_all
  run_lem [] {s} m is_map agrees within room =
      (s, refl, λ j. lookup_lem j is_map (omega arith) ∙ ap some (agrees j))
  run_lem (o ∷ os) {s} m is_map agrees within room =
      let (first, later) = head-IsWithin o os within in
      let step = step_lem o m is_map agrees first (omega arith) in
      let (s', e, found) =
        run_lem os (apply o m) step.is_map step.agrees later (omega (arith, step.within)) in
      (s', rw (step.returns) e, found)

  -- From the empty map, a run of fewer than 2^64 insertions and erasures, of keys below 2^64, returns,
  -- each operation within 130 rounds, and a lookup of any key then gives what it gives after the same
  -- operations on any table that has the laws the callbacks rely on, empty at first.
  pub run-agrees :
      (os : List (Operation V)) (m : Map) (blank : V) (next : ℕ) (nodes : ℕ → Option (Node V))
      → ((q : ℕ) → next ≤ q → nodes q ≡ none)
      → ((j : ℕ) → table.find j m ≡ none)
      → IsWithin os
      → length os < 2 ^ 64
      → (s' : State V) × (perform_all os (new_map blank next nodes) ≡ some s')
        × ((j : ℕ) → lookup j s' ≡ some (table.find j (apply_all os m)))
  unfolding value_of
  run-agrees os m blank next nodes unused empty within room =
      run_lem os m (new_map-IsMap blank next nodes unused) (λ j. sym (empty j)) within (omega arith)
