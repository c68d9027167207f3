-- ===== src/Map/Insertions.antt =====
-- The descent of `Insert` in driver/std/map/map.h, and the new node hung at its end, on the trees
-- that a store stands for.
use windows_kernel_events_tr.Prelude.{
  ℕ, zero, suc, ◌+◌, ◌≤◌, ◌<◌, ◌≡◌, ◌≢◌, refl, sym, ◌∙◌, ap, Bool, true, false, Option, some, arith,
  ◌⊎◌, inl, inr, ltb, lt→ltb, subst,
}
use windows_kernel_events_tr.Map.Nodes.{Node, State, painted, with_left, with_right, with_parent}
use windows_kernel_events_tr.Map.Searches.{toward_cases}
use windows_kernel_events_tr.Map.Insertion.{descend, hang, attach}
use windows_kernel_events_tr.Map.Shape.{
  Tree, leaf, node, Context, top, left_of, right_of, address, above, root_of, plug, height, depth,
  low, high, Holds, StandsAround, IsFocused,
}
use windows_kernel_events_tr.Map.Frames.{
  on, Changes, Changes-trans, Changes-weaken, Changes-refl, Stands-keep, StandsAround-keep,
  into_left, into_right, write_lem,
}
use windows_kernel_events_tr.Map.Relinking.{Inside}
use windows_kernel_events_tr.Map.Colours.{
  IsRedBlack, FitsRedBlack, Meets, descend_left, descend_right,
}
use windows_kernel_events_tr.Map.Fixups.{rebuilt}
use windows_kernel_events_tr.Map.Relinking.{same_address}

module _ {V : Type 0} where
  -- The descent found the key at a node, with a path to it.
  pub record Found (s : State V) (k : ℕ) (t : Tree V) (r : Option (Bool × ℕ)) : Type 0 where
    pub l : Tree V
    pub r' : Tree V
    pub a : ℕ
    pub v : V
    pub c : Bool
    pub path : Context V
    pub returns : r ≡ some (true, a)
    pub whole : plug (node l a k v c r') path ≡ t
    pub focused : IsFocused s (node l a k v c r') path

  -- The descent ended at the sentinel, where a node with the key is to stand.
  pub record Missing (s : State V) (k d : ℕ) (t : Tree V) (r : Option (Bool × ℕ)) : Type 0 where
    pub path : Context V
    pub black_height : ℕ
    pub returns : r ≡ some (false, above s.nil path)
    pub whole : plug leaf path ≡ t
    pub focused : IsFocused s leaf path
    pub from_low : low path ≤ k
    pub to_high : k < high path
    pub empty : black_height ≡ 0
    pub fits : FitsRedBlack path black_height
    pub shallow : depth path ≤ d

  pub descend_lem :
      (fuel : ℕ) {s : State V} {t : Tree V} {p : Context V} (k n d : ℕ)
      → IsFocused s t p
      → low p ≤ k
      → k < high p
      → IsRedBlack t n
      → FitsRedBlack p n
      → Meets t p
      → height t < fuel
      → height t + depth p ≤ d
      → Found s k (plug t p) (descend fuel k (address s.nil t) (above s.nil p) s)
        ⊎ Missing s k d (plug t p) (descend fuel k (address s.nil t) (above s.nil p) s)
  unfolding descend
  descend_lem zero k n d f from_low to_high rb fits meets enough within = absurd (omega arith)
  descend_lem (suc fuel) {s} {t = leaf} {p} k n d f from_low to_high rb fits meets enough within =
      inr (record {
        path = p;
        black_height = n;
        returns = rw (descend, same_address s.nil) refl;
        whole = refl;
        focused = f;
        from_low = from_low;
        to_high = to_high;
        empty = rb;
        fits = fits;
        shallow = omega arith;
      })
  descend_lem (suc fuel) {s} {t = node l a j v c r} {p} k n d f from_low to_high rb fits meets
        enough within =
      elim (toward_cases k f) [
        | inl (below, e) ↦
            let (m, rl, fl, ml) = descend_left l r a j v c p n rb fits meets in
            let step : descend (suc fuel) k a (above s.nil p) s
                ≡ descend fuel k (address s.nil l) a s =
              rw (descend, f.focus.0.1, e) refl in
            subst
              (λ q.
                Found s k (plug (node l a j v c r) p) q
                ⊎ Missing s k d (plug (node l a j v c r) p) q)
              (sym step)
              (descend_lem fuel k m d (into_left f) from_low below rl fl ml (omega arith)
                (omega arith))
        | inr (inl (over, e)) ↦
            let (m, rr, fr, mr) = descend_right l r a j v c p n rb fits meets in
            let step : descend (suc fuel) k a (above s.nil p) s
                ≡ descend fuel k (address s.nil r) a s =
              rw (descend, f.focus.0.1, e) refl in
            subst
              (λ q.
                Found s k (plug (node l a j v c r) p) q
                ⊎ Missing s k d (plug (node l a j v c r) p) q)
              (sym step)
              (descend_lem fuel k m d (into_right f) over to_high rr fr mr (omega arith)
                (omega arith))
        | inr (inr (same, e)) ↦ inl (record {
          l = l;
          r' = r;
          a = a;
          v = v;
          c = c;
          path = p;
          returns = rw (descend, f.focus.0.1, e) refl;
          whole = ap (λ i. plug (node l a i v c r) p) (sym same);
          focused = subst (λ i. IsFocused s (node l a i v c r) p) same f;
        })
      ]

  -- `y` gets the new node `z` for its child, on the side of its key, or `z` becomes the root.
  hang_lem :
      (s : State V) (z k : ℕ) (n : Node V) (p : Context V)
      → Holds s.nil s.nodes z n
      → n.key ≡ k
      → low p ≤ k
      → k < high p
      → StandsAround s.nil s.nodes s.nil p
      → s.root ≡ root_of s.nil s.nil p
      → (h : ℕ → Option (Node V)) × (root : ℕ) × (hang z (above s.nil p) s
          ≡ some (rebuilt s h root))
        × (root ≡ root_of s.nil z p)
        × StandsAround s.nil h z p
        × Changes s.nil (Inside (low p) (high p)) s.nodes h
  unfolding hang
  hang_lem s z k n top held e from_low to_high around rooted =
      (s.nodes, z, rw (same_address s.nil) refl, refl, tt, Changes-refl s.nodes)
  hang_lem s z k n (left_of a j v c r up) held e from_low to_high (at, lo_up, hi_up, sr, around)
        rooted =
      let (h, we, held', changes) = write_lem s a (with_left z) _ at in
      (
        h,
        s.root,
        rw (at.1, held.0, at.0, e, lt→ltb k j to_high) we,
        rooted,
        (
          held',
          lo_up,
          hi_up,
          Stands-keep a r (suc j) (high up) (λ i x y q. omega (arith, q)) changes sr,
          StandsAround-keep a up
              (λ i x q. elim x [ inl y ↦ omega (arith, q) | inr y ↦ omega (arith, q) ]) changes
              around,
        ),
        Changes-weaken (λ i x q. omega (arith, q, x.0, x.1)) changes,
      )
  hang_lem s z k n (right_of l a j v c up) held e from_low to_high (at, lo_up, hi_up, sl, around)
        rooted =
      let (h, we, held', changes) = write_lem s a (with_right z) _ at in
      let over : ltb k j ≡ false = ground (arith, from_low) in
      (
        h,
        s.root,
        rw (at.1, held.0, at.0, e, over) we,
        rooted,
        (
          held',
          lo_up,
          hi_up,
          Stands-keep a l (low up) j (λ i x y q. omega (arith, q)) changes sl,
          StandsAround-keep a up
              (λ i x q. elim x [ inl y ↦ omega (arith, q) | inr y ↦ omega (arith, q) ]) changes
              around,
        ),
        Changes-weaken (λ i x q. omega (arith, q, x.0, x.1)) changes,
      )

  -- The new node stands, red and with no child, where the descent ended.
  pub attach_lem :
      {s : State V} {p : Context V} (z : ℕ) (n : Node V)
      → IsFocused s leaf p
      → Holds s.nil s.nodes z n
      → low p ≤ n.key
      → n.key < high p
      → (h : ℕ → Option (Node V)) × (root : ℕ) × (attach z (above s.nil p) s
          ≡ some (rebuilt s h root))
        × IsFocused (rebuilt s h root) (node leaf z n.key n.value true leaf) p
  unfolding attach
  attach_lem {s} {p} z n f held from_low to_high =
      let (h1, e1, held1, c1) = write_lem s z (with_parent (above s.nil p)) n held in
      let outside : (j : ℕ) → (j < low p) ⊎ (high p ≤ j) → j ≢ n.key =
        λ j o q. elim o [ inl x ↦ omega (arith, q) | inr x ↦ omega (arith, q) ] in
      let around1 = StandsAround-keep s.nil p outside c1 f.around in
      let (h2, root, e2, rooted, around2, c2) =
        hang_lem (on s h1) z n.key _ p held1 refl from_low to_high around1 f.rooted in
      let held2 = c2.keeps z _ held1 (from_low, to_high) in
      let s2 : State V = rebuilt s h2 root in
      let (h3, e3, held3, c3) = write_lem s2 z (with_left s.nil) _ (held2, held.1) in
      let (h4, e4, held4, c4) = write_lem (on s2 h3) z (with_right s.nil) _ held3 in
      let (h5, e5, held5, c5) = write_lem (on s2 h4) z (painted true) _ held4 in
      let after = Changes-trans c3 (Changes-trans c4 c5) in
      (
        h5,
        root,
        rw (e1, e2, e3, e4) e5,
        record {
          sentinel = f.sentinel;
          at_nil = after.at_nil ∙ (c2.at_nil ∙ (c1.at_nil ∙ f.at_nil));
          black = f.black;
          rooted = rooted;
          focus = (held5, from_low, to_high, tt, tt);
          around = StandsAround-keep z p outside after around2;
          unused = λ q u. after.unused q (c2.unused q (c1.unused q (f.unused q u)));
        },
      )
