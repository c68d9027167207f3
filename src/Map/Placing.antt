-- ===== src/Map/Placing.antt =====
-- The steps of `Insert` and `operator[]` of driver/std/map/map.h on the bindings: a new node beside the
-- tree, and where the descent ends in the list.
use windows_kernel_events_tr.Prelude.{
  ℕ, suc, ◌+◌, ◌%◌, ◌^◌, ◌≤◌, ◌≡◌, sym, ◌∙◌, ap, Bool, true, false, Option, some, none, ◌==◌,
  ==_iff, List, ◌∷◌, ◌++◌, arith, inl, inr, Bool-cases, length, length-append,
}
use windows_kernel_events_tr.Prelude.Maps.{put, put-same, put-other}
use windows_kernel_events_tr.Map.Nodes.{Node, State, new_node, fresh_node}
use windows_kernel_events_tr.Map.Shape.{
  Tree, leaf, node, Context, address, above, entries, low, high, Holds, IsFocused, Represents,
}
use windows_kernel_events_tr.Map.Frames.{Stands-kept, StandsAround-kept}
use windows_kernel_events_tr.Map.Colours.{append_assoc, IsBalanced}
use windows_kernel_events_tr.Map.Insertions.{Found, Missing}
use windows_kernel_events_tr.Map.Contents.{
  locate, has_key, placed, Below, From, before, after, entries-around, before-Below, after-From,
  Below-le, From-le, Below-append, Stands-Below,
}

pub later_apart : (n q : ℕ) → n + 1 ≤ q → (n == q) ≡ false
later_apart n q h = ground arith

module _ {V : Type 0} where
  -- The map's state for a tree of bindings: the tree stands in the store, it is a red-black tree,
  -- and `size_` counts its nodes, on 64 bits.
  pub record IsMap (s : State V) (t : Tree V) : Type 0 where
    pub standing : Represents s t
    pub balanced : IsBalanced t
    pub sized : s.size ≡ length (entries t) % 2 ^ 64

  -- Nodes added beside a tree leave it standing.
  pub extended :
      {s : State V} {t : Tree V} {p : Context V} (h : ℕ → Option (Node V)) (next : ℕ)
      → ((q : ℕ) (n : Node V) → s.nodes q ≡ some n → h q ≡ some n)
      → ((q : ℕ) → next ≤ q → h q ≡ none)
      → IsFocused s t p
      → IsFocused (record s { nodes = h; next = next }) t p
  extended {s} {t} {p} h next keeps unused f = record {
    sentinel = f.sentinel;
    at_nil = keeps s.nil f.sentinel f.at_nil;
    black = f.black;
    rooted = f.rooted;
    focus =
        Stands-kept s.nil {P = λ j. Unit {0}} (above s.nil p) t (low p) (high p) (λ j l u. tt)
          (λ q n held u. keeps q n held.0) f.focus;
    around =
        StandsAround-kept s.nil {P = λ j. Unit {0}} (address s.nil t) p (λ j o. tt)
          (λ q n held u. keeps q n held.0) f.around;
    unused = unused;
  }

  pub resized :
      {s : State V} {t : Tree V} {p : Context V} (n : ℕ)
      → IsFocused s t p
      → IsFocused (record s { size = n }) t p
  resized n f = record {
    sentinel = f.sentinel;
    at_nil = f.at_nil;
    black = f.black;
    rooted = f.rooted;
    focus = f.focus;
    around = f.around;
    unused = f.unused;
  }

  pub fresh_apart :
      {s : State V} {t : Tree V} {p : Context V}
      → IsFocused s t p
      → (q : ℕ) (n : Node V) → s.nodes q ≡ some n
      → (s.next == q) ≡ false
  fresh_apart {s} f q n e = elim (Bool-cases (s.next == q)) [
    | inr differ ↦ differ
    | inl same ↦
        let clash : some n ≡ none =
          sym e ∙ (ap s.nodes (sym ((==_iff s.next q).0 same)) ∙ f.unused s.next (omega arith)) in
        cc
  ]

  -- Beside the tree there is room for a new node.
  pub new_node-Focused :
      {s : State V} {t : Tree V} {p : Context V} (k : ℕ) (v : V)
      → IsFocused s t p
      → IsFocused (new_node k v s).1 t p
        × Holds s.nil (new_node k v s).1.nodes s.next (fresh_node k v)
  unfolding new_node
  new_node-Focused {s} k v f = (
    extended (put s.next (fresh_node k v) s.nodes) (s.next + 1)
        (λ q n e. put-other s.next q (fresh_node k v) s.nodes (fresh_apart f q n e) ∙ e)
        (λ q l.
          put-other s.next q (fresh_node k v) s.nodes (later_apart s.next q l)
          ∙ f.unused q (omega arith))
        f,
    (put-same s.next (fresh_node k v) s.nodes, fresh_apart f s.nil f.sentinel f.at_nil),
  )

  -- Where a search for the key ended, in the list of bindings.
  pub Found-split :
      {s : State V} {k : ℕ} {t : Tree V} {r : Option (Bool × ℕ)} (found : Found s k t r)
      → (xs ys : List (ℕ × ℕ × V)) × (entries t ≡ xs ++ ((found.a, k, found.v) ∷ ys)) × Below k xs
  Found-split {s} {k} found =
      let here = entries-around (node found.l found.a k found.v found.c found.r') found.path in
      (
        before found.path ++ entries found.l,
        entries found.r' ++ after found.path,
        sym (ap entries found.whole) ∙ (here ∙ simp append_assoc),
        Below-append k (before found.path) (entries found.l)
            (Below-le (low found.path) k (before found.path) found.focused.focus.1
              (before-Below s found.a found.path found.focused.around))
            (Stands-Below s found.a found.l (low found.path) k found.focused.focus.3),
      )

  pub Missing-split :
      {s : State V} {k d : ℕ} {t : Tree V} {r : Option (Bool × ℕ)} (missing : Missing s k d t r)
      → (entries t ≡ before missing.path ++ after missing.path)
        × Below k (before missing.path)
        × From (suc k) (after missing.path)
  Missing-split {s} {k} missing =
      let p = missing.path in
      let f = missing.focused in
      (
        sym (ap entries missing.whole) ∙ entries-around leaf p,
        Below-le (low p) k (before p) missing.from_low (before-Below s s.nil p f.around),
        From-le (high p) (suc k) (after p) (omega (arith, missing.to_high))
            (after-From s s.nil p f.around),
      )

  pub placed_here :
      (q k a : ℕ) (v w : V) (ys : List (ℕ × ℕ × V)) → placed q k v ((a, k, w) ∷ ys) ≡ (a, k, w) ∷ ys
  unfolding placed
  placed_here q k a v w ys = ground arith

  pub locate_here : (d k a : ℕ) (v : V) (ys : List (ℕ × ℕ × V)) → locate d k ((a, k, v) ∷ ys) ≡ a
  unfolding locate
  locate_here d k a v ys = ground arith

  pub has_key_here : (k a : ℕ) (v : V) (ys : List (ℕ × ℕ × V)) → has_key k ((a, k, v) ∷ ys) ≡ true
  unfolding has_key
  has_key_here k a v ys = ground arith

  -- One more node is counted, on 64 bits.
  pub size_next :
      (n : ℕ) (xs ys : List (ℕ × ℕ × V)) (x : ℕ × ℕ × V)
      → n ≡ length (xs ++ ys) % 2 ^ 64
      → (n + 1) % 2 ^ 64 ≡ length (xs ++ (x ∷ ys)) % 2 ^ 64
  size_next n xs ys x e = omega (arith, e, length-append xs ys, length-append xs (x ∷ ys))
