-- ===== src/Map/Replacing.antt =====
-- How `Erase` of driver/std/map/map.h puts the least node on the right of `z` in the place of `z`, on the
-- trees that a store stands for.
use windows_kernel_events_tr.Prelude.{
  ℕ, suc, ◌≤◌, ◌<◌, ◌≡◌, ◌≢◌, refl, ◌∙◌, Bool, false, Option, some, none, ◌>>=◌, if◌then◌else◌,
  ◌==◌, arith, inl, inr, subst,
}
use windows_kernel_events_tr.Map.Nodes.{
  Node, State, left, is_red, write, with_left, with_parent, painted,
}
use windows_kernel_events_tr.Map.Rotation.{transplant}
use windows_kernel_events_tr.Map.Shape.{
  Tree, node, Context, address, above, root_of, low, high, Holds, Stands, StandsAround, IsFocused,
}
use windows_kernel_events_tr.Map.Frames.{
  on, Changes, Changes-trans, Changes-weaken, Stands-keep, StandsAround-keep, write_lem,
}
use windows_kernel_events_tr.Map.Relinking.{Outside, adopt_lem, relink_lem}
use windows_kernel_events_tr.Map.Fixups.{rebuilt}
use windows_kernel_events_tr.Map.Unlinking.{Stands-widen, beyond}

module _ {V : Type 0} where
  -- The statements from `Transplant(z, y)` on.
  abbrev pub take_place : ℕ → ℕ → State V → Option (State V)
  take_place z y s = do
    s ← transplant z y s
    l ← left z s
    s ← write y (with_left l) s
    l ← left y s
    s ← write l (with_parent y) s
    c ← is_red z s
    write y (painted c) s

  -- Before them: `y` stands apart with all that is to the right of `z` but itself as its right
  -- subtree, and `z` in its place.
  pub record IsReady (s : State V) (l : Tree V) (z k : ℕ) (v : V) (c : Bool) (p : Context V)
      (y ky : ℕ) (vy : V) (r : Tree V) : Type 0 where
    pub nodes : ℕ → Option (Node V)
    pub root : ℕ
    pub red_y : Bool
    pub parent_y : ℕ
    pub right_z : ℕ
    pub sentinel : Node V
    pub at_nil : nodes s.nil ≡ some sentinel
    pub black : sentinel.is_red ≡ false
    pub rooted : root ≡ root_of s.nil z p
    pub at_z : Holds s.nil nodes z (record {
      key = k;
      value = v;
      is_red = c;
      parent = above s.nil p;
      left = address s.nil l;
      right = right_z;
    })
    pub at_y : Holds s.nil nodes y (record {
      key = ky;
      value = vy;
      is_red = red_y;
      parent = parent_y;
      left = s.nil;
      right = address s.nil r;
    })
    pub from_low : low p ≤ k
    pub later : k < ky
    pub to_high : ky < high p
    pub on_left : Stands s.nil nodes z l (low p) k
    pub on_right : Stands s.nil nodes y r (suc ky) (high p)
    pub around : StandsAround s.nil nodes z p
    pub unused : (q : ℕ) → s.next ≤ q → nodes q ≡ none

  -- A store through a pointer to a tree that is not empty.
  pub adopt_node :
      (s : State V) (p p' : ℕ) (t : Tree V) (lo hi : ℕ)
      → (address s.nil t == s.nil) ≡ false
      → Stands s.nil s.nodes p t lo hi
      → (h : ℕ → Option (Node V)) × (write (address s.nil t) (with_parent p') s ≡ some (on s h))
        × Stands s.nil h p' t lo hi
        × Changes s.nil (Outside lo hi) s.nodes h
  adopt_node s p p' t lo hi e st =
      let (h, we, st', c) = adopt_lem s p p' t lo hi st in
      (
        h,
        subst
            (λ q.
              (if q then some s else write (address s.nil t) (with_parent p') s) ≡ some (on s h))
            e we,
        st',
        c,
      )

  pub take_place_lem :
      {s : State V} {l r : Tree V} {z k y ky : ℕ} {v vy : V} {c : Bool} {p : Context V}
      (ready : IsReady s l z k v c p y ky vy r)
      → (address s.nil l == s.nil) ≡ false
      → (h : ℕ → Option (Node V)) × (root : ℕ) × (take_place z y (rebuilt s ready.nodes ready.root)
          ≡ some (rebuilt s h root))
        × IsFocused (rebuilt s h root) (node l y ky vy c r) p
        × (n : Node V) × Holds s.nil h z n
        × (n.key ≡ k)
        × (h s.nil ≡ ready.nodes s.nil)
  unfolding transplant
  take_place_lem {s} {l} {r} {z} {k} {y} {ky} {v} {vy} {c} {p} ready some_left =
      let hz = ready.at_z in
      let hy = ready.at_y in
      let later = ready.later in
      let to_high = ready.to_high in
      let from_low = ready.from_low in
      let s0 = rebuilt s ready.nodes ready.root in
      let (h1, root, e1, er, around1, c1) =
        relink_lem s0 z y _ p hz refl from_low (omega arith) ready.around ready.rooted in
      let hz1 = c1.keeps z _ hz (from_low, omega arith) in
      let hy1 = c1.keeps y _ hy (omega arith, to_high) in
      let sl1 = Stands-keep z l (low p) k (λ j a b. (a, omega arith)) c1 ready.on_left in
      let sr1 = Stands-keep y r (suc ky) (high p) (λ j a b. (omega arith, b)) c1 ready.on_right in
      let s1 = rebuilt s h1 root in
      let (h2, e2, hy2, c2) = write_lem s1 y (with_parent (above s.nil p)) _ (hy1, hy.1) in
      let hz2 = c2.keeps z _ (hz1, hz.1) (λ e. omega (arith, e)) in
      let (h3, e3, hy3, c3) = write_lem (on s1 h2) y (with_left (address s.nil l)) _ hy2 in
      let hz3 = c3.keeps z _ (hz2, hz.1) (λ e. omega (arith, e)) in
      let c23 = Changes-trans c2 c3 in
      let sl3 = Stands-keep z l (low p) k (λ j a b e. omega (arith, e)) c23 sl1 in
      let (h4, e4, sl4, c4) = adopt_node (on s1 h3) z y l (low p) k some_left sl3 in
      let hy4 = c4.keeps y _ hy3 (inr (omega arith)) in
      let hz4 = c4.keeps z _ (hz3, hz.1) (inr (omega arith)) in
      let (h5, e5, hy5, c5) = write_lem (on s1 h4) y (painted c) _ (hy4, hy.1) in
      let hz5 = c5.keeps z _ (hz4, hz.1) (λ e. omega (arith, e)) in
      let rest : Changes s.nil (λ j. (j ≢ ky) × Outside (low p) k j) h1 h5 =
        Changes-trans (Changes-weaken (λ j o. o.0) c23)
          (Changes-trans (Changes-weaken (λ j o. o.1) c4) (Changes-weaken (λ j o. o.0) c5)) in
      (
        h5,
        root,
        rw (e1, hz1, e2, hz2, e3, hy3.0, e4, hz4) e5,
        record {
          sentinel = ready.sentinel;
          at_nil = rest.at_nil ∙ (c1.at_nil ∙ ready.at_nil);
          black = ready.black;
          rooted = er;
          focus = (
            hy5,
            omega arith,
            to_high,
            Stands-widen s.nil h5 y l (low p) k (low p) ky (omega arith) (omega arith)
                (Stands-keep y l (low p) k (λ j a b e. omega (arith, e)) c5 sl4),
            Stands-keep y r (suc ky) (high p) (λ j a b. (λ e. omega (arith, e), inr (omega arith)))
                rest sr1,
          );
          around =
              StandsAround-keep y p
                (λ j o. (
                  beyond j ky (low p) (high p) (omega arith) to_high o,
                  elim o [ inl x ↦ inl x | inr x ↦ inr (omega arith) ],
                ))
                rest around1;
          unused = λ q u. rest.unused q (c1.unused q (ready.unused q u));
        },
        _,
        (hz5, hz.1),
        refl,
        rest.at_nil ∙ c1.at_nil,
      )
