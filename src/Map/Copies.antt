-- ===== src/Map/Copies.antt =====
-- The copy constructor of Map in driver/std/map/map.h: `Copy` compares the nodes of the other map
-- with the sentinel of the new one.
use windows_kernel_events_tr.Prelude.{
  ℕ, zero, suc, ◌+◌, ◌≤◌, ◌≡◌, refl, sym, ◌∙◌, ap, Bool, false, Option, some, none, ◌==◌, ==_iff,
  arith, inl, inr, Bool-cases, subst,
}
use windows_kernel_events_tr.Prelude.Maps.{put, put-same, put-other}
use windows_kernel_events_tr.Map.Nodes.{
  Node, State, write, painted, with_parent, new_node, fresh_node, new_map,
}
use windows_kernel_events_tr.Map.Removal.{copy, copy_map}
use windows_kernel_events_tr.Map.Shape.{Tree, leaf, node, address, Stands, Represents, key_limit}
use windows_kernel_events_tr.Map.Placing.{fresh_apart, later_apart}

swapped : (m n : ℕ) → (m == n) ≡ false → (n == m) ≡ false
swapped m n h = ground arith

module _ {V : Type 0} where
  -- The nodes of `h` are in the store, none of them the sentinel of the map that is built, and there
  -- is room for more.
  record IsBeside (h : ℕ → Option (Node V)) (s : State V) : Type 0 where
    there : (q : ℕ) (n : Node V) → h q ≡ some n → s.nodes q ≡ some n
    other : (q : ℕ) (n : Node V) → h q ≡ some n → (q == s.nil) ≡ false
    unused : (q : ℕ) → s.next ≤ q → s.nodes q ≡ none

  room_apart :
      {h : ℕ → Option (Node V)} {s : State V}
      → IsBeside h s
      → (q : ℕ) (n : Node V) → h q ≡ some n
      → (s.next == q) ≡ false
  room_apart {s = s} b q n e = elim (Bool-cases (s.next == q)) [
    | inr differ ↦ differ
    | inl same ↦
        let clash : some n ≡ none =
          sym (b.there q n e)
          ∙ (ap s.nodes (sym ((==_iff s.next q).0 same)) ∙ b.unused s.next (omega arith)) in
        cc
  ]

  -- The state in which `Copy` goes on to the left child.
  begun : Node V → ℕ → State V → State V
  begun m up s = record s {
    nodes = put s.next (with_parent up (painted m.is_red (fresh_node m.key m.value))) (
        put s.next (painted m.is_red (fresh_node m.key m.value))
          (put s.next (fresh_node m.key m.value) s.nodes));
    next = s.next + 1;
  }

  begun-IsBeside :
      {h : ℕ → Option (Node V)} {s : State V} (m : Node V) (up : ℕ)
      → IsBeside h s
      → IsBeside h (begun m up s)
  unfolding begun
  begun-IsBeside {s = s} m up b = record {
    there = λ q n e.
        put-other s.next q _ _ (room_apart b q n e)
        ∙ (put-other s.next q _ _ (room_apart b q n e)
            ∙ (put-other s.next q _ _ (room_apart b q n e) ∙ b.there q n e));
    other = b.other;
    unused = λ q l.
        put-other s.next q _ _ (later_apart s.next q l)
        ∙ (put-other s.next q _ _ (later_apart s.next q l)
            ∙ (put-other s.next q _ _ (later_apart s.next q l) ∙ b.unused q (omega arith)));
  }

  copy_left :
      {h : ℕ → Option (Node V)} {s : State V} (fuel p up : ℕ) (m : Node V)
      → IsBeside h s
      → h p ≡ some m
      → copy fuel m.left s.next (begun m up s) ≡ none
      → copy (suc fuel) p up s ≡ none
  unfolding copy new_node write begun
  copy_left {s = s} fuel p up m b e stuck =
      rw
        (
          copy,
          b.other p m e,
          b.there p m e,
          put-same s.next (fresh_node m.key m.value) s.nodes,
          put-same s.next (painted m.is_red (fresh_node m.key m.value))
              (put s.next (fresh_node m.key m.value) s.nodes),
          (begun-IsBeside m up b).there p m e,
          stuck,
        )
        refl

  -- From the other map's sentinel, its own left child, the copying never returns.
  copy_sentinel :
      (fuel : ℕ) {h : ℕ → Option (Node V)} {s : State V} (o up : ℕ) (n : Node V)
      → IsBeside h s
      → h o ≡ some n
      → n.left ≡ o
      → copy fuel o up s ≡ none
  unfolding copy
  copy_sentinel zero o up n b e loop = refl
  copy_sentinel (suc fuel) {h} {s} o up n b e loop = copy_left fuel o up n b e (
      subst (λ q. copy fuel q s.next (begun n up s) ≡ none) (sym loop)
        (copy_sentinel fuel o s.next n (begun-IsBeside n up b) e loop))

  copy_tree :
      (fuel : ℕ) (t : Tree V) {h : ℕ → Option (Node V)} {s : State V} (o p up lo hi : ℕ)
      (n : Node V)
      → IsBeside h s
      → h o ≡ some n
      → n.left ≡ o
      → Stands o h p t lo hi
      → copy fuel (address o t) up s ≡ none
  unfolding copy
  copy_tree zero t o p up lo hi n b e loop st = refl
  copy_tree (suc fuel) leaf o p up lo hi n b e loop st = copy_sentinel (suc fuel) o up n b e loop
  copy_tree (suc fuel) (node l a k v c r) {s = s} o p up lo hi n b e loop (held, x, y, sl, sr) =
      copy_left fuel a up _ b held.0
        (copy_tree fuel l o a s.next lo k n (begun-IsBeside _ up b) e loop sl)

  -- The copy of a map that is not empty and whose sentinel is its own left child, as `Map()` makes it,
  -- does not return within any number of rounds: `Copy` takes that sentinel for a node.
  pub copy_map-diverges :
      (fuel : ℕ) (blank : V) (other : State V) {l r : Tree V} {a k : ℕ} {v : V} {c : Bool}
      (sentinel : Node V)
      → Represents other (node l a k v c r)
      → other.nodes other.nil ≡ some sentinel
      → sentinel.left ≡ other.nil
      → copy_map fuel other (new_map blank other.next other.nodes) ≡ none
  unfolding copy_map new_map
  copy_map-diverges fuel blank other {l} {r} {a} {k} {v} {c} sentinel f e loop =
      let made = new_map blank other.next other.nodes in
      let beside : IsBeside other.nodes made = record {
        there = λ q n e'. put-other other.next q _ other.nodes (fresh_apart f q n e') ∙ e';
        other = λ q n e'. swapped other.next q (fresh_apart f q n e');
        unused = λ q l.
            put-other other.next q _ other.nodes (later_apart other.next q l)
            ∙ f.unused q (omega arith);
      } in
      let at_root : (other.root == other.nil) ≡ false =
        subst (λ q. (q == other.nil) ≡ false) (sym f.rooted) f.focus.0.1 in
      let stuck : copy fuel other.root other.next made ≡ none =
        subst (λ q. copy fuel q other.next made ≡ none) (sym f.rooted)
          (copy_tree fuel (node l a k v c r) other.nil other.nil other.next 0 key_limit sentinel
            beside e loop f.focus) in
      rw (at_root, stuck) refl
