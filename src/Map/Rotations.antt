-- ===== src/Map/Rotations.antt =====
-- `LeftRotate` and `RightRotate` of driver/std/map/map.h, on the trees that a store stands for.
use windows_kernel_events_tr.Prelude.{
  ℕ, suc, ◌≡◌, ◌≢◌, refl, ◌∙◌, inl, inr, Bool, Option, some, arith,
}
use windows_kernel_events_tr.Map.Nodes.{Node, State, with_left, with_right}
use windows_kernel_events_tr.Map.Rotation.{left_rotate, right_rotate}
use windows_kernel_events_tr.Map.Shape.{Tree, node, Context, low, high, address, above, IsFocused}
use windows_kernel_events_tr.Map.Frames.{
  on, Changes-trans, Changes-weaken, Stands-keep, StandsAround-keep,
}
use windows_kernel_events_tr.Map.Relinking.{
  Inside, Outside, aside, aside_flat, relink_lem, hand_over, go_below,
}

module _ {V : Type 0} where
  -- `LeftRotate(x)` with a right child `y`: `y` takes the place of `x`, which becomes its left child
  -- and takes over its left subtree.
  pub left_rotate_lem :
      {s : State V} {a b c : Tree V} {x kx y ky : ℕ} {vx vy : V} {cx cy : Bool} {p : Context V}
      → IsFocused s (node a x kx vx cx (node b y ky vy cy c)) p
      → (h : ℕ → Option (Node V)) × (root : ℕ) × (left_rotate x s
          ≡ some (record s { nodes = h; root = root }))
        × IsFocused
            (record s { nodes = h; root = root })
            (node (node a x kx vx cx b) y ky vy cy c)
            p
        × (h s.nil ≡ s.nodes s.nil)
  unfolding left_rotate
  left_rotate_lem {s} {a} {b} {c} {x} {kx} {y} {ky} {vx} {vy} {cx} {cy} {p} f =
      let (hx, lo_x, hi_x, sa, (hy, lo_y, hi_y, sb, sc)) = f.focus in
      let differ : ky ≢ kx = λ e. omega (arith, e) in
      let (h1, h2, h3, e1, hy1, e2, hx2, e3, hx3, hy3, sb3, c3) =
        hand_over s x y (above s.nil p) (with_right (address s.nil b)) _ _ b (suc kx) ky hx hy refl
          sb (inl (omega arith)) (inr (omega arith)) differ in
      let around3 =
        StandsAround-keep x p (λ j o. aside j (low p) (high p) kx ky o lo_x (omega arith) hi_y) c3
          f.around in
      let (h4, root, e4, er, around4, c4) =
        relink_lem (on s h3) x y _ p hx3 refl lo_x hi_x around3 f.rooted in
      let hx4 = c4.keeps x _ hx3 (lo_x, hi_x) in
      let hy4 = c4.keeps y _ hy3 (omega arith, hi_y) in
      let s4 : State V = record s { nodes = h4; root = root } in
      let (h5, h6, e5, e6, hx6, hy6, c6) =
        go_below s4 x y (with_left x) _ _ (hx4, hx.1) (hy4, hy.1) refl differ in
      let all =
        Changes-trans
          (Changes-weaken
            (λ j (o : ((j ≢ kx) × (j ≢ ky) × Outside (suc kx) ky j) × Inside (low p) (high p) j).
              ((o.0.0, o.0.1), o.0.2))
            c3)
          (Changes-trans (Changes-weaken (λ j o. o.1) c4)
            (Changes-weaken (λ j o. (o.0.0, o.0.1)) c6)) in
      (
        h6,
        root,
        rw (hx.0, hy.0, e1, hy1, e2, hx2, e3, e4, e5) e6,
        record {
          sentinel = f.sentinel;
          at_nil = all.at_nil ∙ f.at_nil;
          black = f.black;
          rooted = er;
          focus = (
            hy6,
            omega arith,
            hi_y,
            (
              hx6,
              lo_x,
              omega arith,
              Stands-keep x a (low p) kx
                  (λ j l u. (
                    (λ e. omega (arith, e), λ e. omega (arith, e), inl (omega arith)),
                    (l, omega arith),
                  ))
                  all sa,
              Stands-keep x b (suc kx) ky (λ j l u. (λ e. omega (arith, e), λ e. omega (arith, e)))
                  c6 (Stands-keep x b (suc kx) ky (λ j l u. (omega arith, omega arith)) c4 sb3),
            ),
            Stands-keep y c (suc ky) (high p)
                (λ j l u. (
                  (λ e. omega (arith, e), λ e. omega (arith, e), inr (omega arith)),
                  (omega arith, u),
                ))
                all sc,
          );
          around =
              StandsAround-keep y p
                (λ j o. (aside j (low p) (high p) kx ky o lo_x (omega arith) hi_y).0) c6 around4;
          unused = λ q u. all.unused q (f.unused q u);
        },
        all.at_nil,
      )

  -- `RightRotate(y)` with a left child `x`, the other way.
  pub right_rotate_lem :
      {s : State V} {a b c : Tree V} {x kx y ky : ℕ} {vx vy : V} {cx cy : Bool} {p : Context V}
      → IsFocused s (node (node a x kx vx cx b) y ky vy cy c) p
      → (h : ℕ → Option (Node V)) × (root : ℕ) × (right_rotate y s
          ≡ some (record s { nodes = h; root = root }))
        × IsFocused
            (record s { nodes = h; root = root })
            (node a x kx vx cx (node b y ky vy cy c))
            p
        × (h s.nil ≡ s.nodes s.nil)
  unfolding right_rotate
  right_rotate_lem {s} {a} {b} {c} {x} {kx} {y} {ky} {vx} {vy} {cx} {cy} {p} f =
      let (hy, lo_y, hi_y, (hx, lo_x, hi_x, sa, sb), sc) = f.focus in
      let differ : kx ≢ ky = λ e. omega (arith, e) in
      let (h1, h2, h3, e1, hx1, e2, hy2, e3, hy3, hx3, sb3, c3) =
        hand_over s y x (above s.nil p) (with_left (address s.nil b)) _ _ b (suc kx) ky hy hx refl
          sb (inr (omega arith)) (inl (omega arith)) differ in
      let around3 =
        StandsAround-keep y p
          (λ j o.
            let (x', y', z') = aside_flat j (low p) (high p) kx ky o lo_x (omega arith) hi_y in
            ((y', x'), z'))
          c3 f.around in
      let (h4, root, e4, er, around4, c4) =
        relink_lem (on s h3) y x _ p hy3 refl lo_y hi_y around3 f.rooted in
      let hx4 = c4.keeps x _ hx3 (lo_x, omega arith) in
      let hy4 = c4.keeps y _ hy3 (lo_y, hi_y) in
      let s4 : State V = record s { nodes = h4; root = root } in
      let (h5, h6, e5, e6, hy6, hx6, c6) =
        go_below s4 y x (with_right y) _ _ (hy4, hy.1) (hx4, hx.1) refl differ in
      let all =
        Changes-trans
          (Changes-weaken
            (λ j (o : ((j ≢ kx) × (j ≢ ky) × Outside (suc kx) ky j) × Inside (low p) (high p) j).
              ((o.0.1, o.0.0), o.0.2))
            c3)
          (Changes-trans (Changes-weaken (λ j o. o.1) c4)
            (Changes-weaken (λ j o. (o.0.1, o.0.0)) c6)) in
      (
        h6,
        root,
        rw (hy.0, hx.0, e1, hx1, e2, hy2, e3, e4, e5) e6,
        record {
          sentinel = f.sentinel;
          at_nil = all.at_nil ∙ f.at_nil;
          black = f.black;
          rooted = er;
          focus = (
            hx6,
            lo_x,
            omega arith,
            Stands-keep x a (low p) kx
                (λ j l u. (
                  (λ e. omega (arith, e), λ e. omega (arith, e), inl (omega arith)),
                  (l, omega arith),
                ))
                all sa,
            (
              hy6,
              omega arith,
              hi_y,
              Stands-keep y b (suc kx) ky (λ j l u. (λ e. omega (arith, e), λ e. omega (arith, e)))
                  c6 (Stands-keep y b (suc kx) ky (λ j l u. (omega arith, omega arith)) c4 sb3),
              Stands-keep y c (suc ky) (high p)
                  (λ j l u. (
                    (λ e. omega (arith, e), λ e. omega (arith, e), inr (omega arith)),
                    (omega arith, u),
                  ))
                  all sc,
            ),
          );
          around =
              StandsAround-keep x p
                (λ j o.
                  let (x', y', z') =
                    aside_flat j (low p) (high p) kx ky o lo_x (omega arith) hi_y in
                  (y', x'))
                c6 around4;
          unused = λ q u. all.unused q (f.unused q u);
        },
        all.at_nil,
      )
