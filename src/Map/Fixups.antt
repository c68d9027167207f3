-- ===== src/Map/Fixups.antt =====
-- The loop of `InsertFixup` in driver/std/map/map.h, on the trees that a store stands for.
use windows_kernel_events_tr.Prelude.{
  ℕ, suc, ◌≤◌, ◌<◌, ◌≡◌, refl, ap, Bool, true, false, Option, some, ◌==◌, List, arith, ◌⊎◌, inl,
  inr,
}
use windows_kernel_events_tr.Map.Nodes.{Node, State, parent, is_red}
use windows_kernel_events_tr.Map.Insertion.{
  raise_rightwards, raise_leftwards, recolour, insert_round,
}
use windows_kernel_events_tr.Map.Shape.{
  Tree, leaf, node, Context, address, plug, entries, depth, IsFocused, Stands, low, high,
}
use windows_kernel_events_tr.Map.Frames.{
  on, into_left, into_right, from_left, from_right, paint_lem, apart,
}
use windows_kernel_events_tr.Map.Rotations.{left_rotate_lem, right_rotate_lem}
use windows_kernel_events_tr.Map.Colours.{is_red_tree, IsRedBlack, FitsRedBlack, entries-plug}
use windows_kernel_events_tr.Map.Relinking.{same_address}

module _ {V : Type 0} where
  abbrev pub rebuilt : State V → (ℕ → Option (Node V)) → ℕ → State V
  rebuilt s h root = record s { nodes = h; root = root }

  -- A round turns the red node `z` under a red parent into one nearer to the root, or under a black
  -- parent, and keeps the nodes from left to right.
  pub record Rises (s : State V) (z d : ℕ) (all : List (ℕ × ℕ × V)) : Type 0 where
    pub nodes : ℕ → Option (Node V)
    pub root : ℕ
    pub tree : Tree V
    pub path : Context V
    pub black_height : ℕ
    pub returns : insert_round z s ≡ some (address s.nil tree, rebuilt s nodes root)
    pub focused : IsFocused (rebuilt s nodes root) tree path
    pub is_node : is_red_tree tree ≡ true
    pub red_black : IsRedBlack tree black_height
    pub fits : FitsRedBlack path black_height
    pub shorter : depth path < d
    pub same : entries (plug tree path) ≡ all

  -- The node is the red root of the one tree or of the other.
  abbrev pub IsRootOf : ℕ → ℕ → Tree V → Tree V → Type 0
  IsRootOf nil z l r =
      ((z ≡ address nil l) × (is_red_tree l ≡ true))
      ⊎ ((z ≡ address nil r) × (is_red_tree r ≡ true))

  pub parent_lem :
      (s : State V) (p : ℕ) (t : Tree V) (lo hi : ℕ)
      → Stands s.nil s.nodes p t lo hi
      → is_red_tree t ≡ true
      → parent (address s.nil t) s ≡ some p
  parent_lem s p leaf lo hi st red = cc
  parent_lem s p (node l a k v c r) lo hi st red = rw (st.0.0) refl

  parent_of_root :
      {s : State V} {l r : Tree V} {a k : ℕ} {v : V} {c : Bool} {p : Context V} (z : ℕ)
      → IsRootOf s.nil z l r
      → IsFocused s (node l a k v c r) p
      → parent z s ≡ some a
  parent_of_root {s} {l} {r} {a} {k} {p = p} z (inl (e, red)) f =
      rw e (parent_lem s a l (low p) k f.focus.3 red)
  parent_of_root {s} {l} {r} {a} {k} {p = p} z (inr (e, red)) f =
      rw e (parent_lem s a r (suc k) (high p) f.focus.4 red)

  -- The colour that the code reads off a pointer; the sentinel's is black.
  pub colour_lem :
      {s : State V} (t : Tree V) {p : Context V}
      → IsFocused s t p
      → is_red (address s.nil t) s ≡ some (is_red_tree t)
  colour_lem leaf f = rw (f.at_nil) (ap some f.black)
  colour_lem (node l a k v c r) f = rw (f.focus.0.0) refl

  -- The two children of a node are different nodes.
  pub left_node_apart :
      {s : State V} {r ll lr : Tree V} {b kb a k : ℕ} {v vb : V} {c cb : Bool} {p : Context V}
      → IsFocused s (node (node ll b kb vb cb lr) a k v c r) p
      → (b == address s.nil r) ≡ false
  left_node_apart {r = leaf} f = f.focus.3.0.1
  left_node_apart {s} {r = node rl d kd vd cd rr} {b = b} {kb} f =
      let below : kb < _ = f.focus.3.2 in
      let above_d : _ ≤ kd = f.focus.4.1 in
      apart s.nodes b d _ _ f.focus.3.0.0 f.focus.4.0.0 (λ e. omega (arith, e))

  pub right_node_apart :
      {s : State V} {l rl rr : Tree V} {d kd a k : ℕ} {v vd : V} {c cd : Bool} {p : Context V}
      → IsFocused s (node l a k v c (node rl d kd vd cd rr)) p
      → (d == address s.nil l) ≡ false
  right_node_apart {l = leaf} f = f.focus.4.0.1
  right_node_apart {s} {l = node ll b kb vb cb lr} {d = d} {kd} f =
      let below : kb < _ = f.focus.3.2 in
      let above_d : _ ≤ kd = f.focus.4.1 in
      apart s.nodes d b _ _ f.focus.4.0.0 f.focus.3.0.0 (λ e. omega (arith, e))

  pub left_apart :
      {s : State V} {l r : Tree V} {a k : ℕ} {v : V} {c : Bool} {p : Context V}
      → is_red_tree l ≡ true
      → IsFocused s (node l a k v c r) p
      → (address s.nil l == address s.nil r) ≡ false
  left_apart {l = leaf} red f = cc
  left_apart {l = node ll b kb vb cb lr} red f = left_node_apart f

  pub right_apart :
      {s : State V} {l r : Tree V} {a k : ℕ} {v : V} {c : Bool} {p : Context V}
      → is_red_tree r ≡ true
      → IsFocused s (node l a k v c r) p
      → (address s.nil r == address s.nil l) ≡ false
  right_apart {r = leaf} red f = cc
  right_apart {r = node rl d kd vd cd rr} red f = right_node_apart f

  -- The uncle is red: to the right of the parent, and to the left.
  pub recolour_left :
      {s : State V} {pl pr ul ur : Tree V} {p kp g kg u ku : ℕ} {vp vg vu : V} {up : Context V}
      (z n : ℕ)
      → IsFocused s (node (node pl p kp vp true pr) g kg vg false (node ul u ku vu true ur)) up
      → IsRootOf s.nil z pl pr
      → IsRedBlack pl n
      → IsRedBlack pr n
      → IsRedBlack (node ul u ku vu true ur) n
      → FitsRedBlack up (suc n)
      → Rises s z (suc (suc (depth up))) (
          entries
            (plug (node (node pl p kp vp true pr) g kg vg false (node ul u ku vu true ur)) up))
  unfolding insert_round recolour
  recolour_left {s} {pl} {pr} {ul} {ur} {p} {kp} {g} {kg} {u} {ku} {vp} {vg} {vu} {up} z n f child
        rl rr ru fits =
      let (h1, e1, f1, k1) = paint_lem false (into_left f) in
      let (h2, e2, f2, k2) = paint_lem false (into_right (from_left f1)) in
      let f2' = from_right f2 in
      let (h3, e3, f3, k3) = paint_lem true f2' in
      record {
        nodes = h3;
        root = s.root;
        tree = node (node pl p kp vp false pr) g kg vg true (node ul u ku vu false ur);
        path = up;
        black_height = suc n;
        returns =
            rw
              (
                parent_of_root z child (into_left f),
                f.focus.3.0.0,
                f.focus.0.0,
                same_address p,
                f.focus.4.0.0,
                e1,
                e2,
                parent_of_root z child (into_left f2'),
                f2'.focus.3.0.0,
                e3,
              )
              refl;
        focused = f3;
        is_node = refl;
        red_black = ((n, refl, rl, rr), (n, refl, ru.0, ru.1), refl, refl);
        fits = fits;
        shorter = omega arith;
        same = entries-plug _ _ up refl;
      }

  pub recolour_right :
      {s : State V} {pl pr ul ur : Tree V} {p kp g kg u ku : ℕ} {vp vg vu : V} {up : Context V}
      (z n : ℕ)
      → IsFocused s (node (node ul u ku vu true ur) g kg vg false (node pl p kp vp true pr)) up
      → IsRootOf s.nil z pl pr
      → IsRedBlack pl n
      → IsRedBlack pr n
      → IsRedBlack (node ul u ku vu true ur) n
      → FitsRedBlack up (suc n)
      → Rises s z (suc (suc (depth up))) (
          entries
            (plug (node (node ul u ku vu true ur) g kg vg false (node pl p kp vp true pr)) up))
  unfolding insert_round recolour
  recolour_right {s} {pl} {pr} {ul} {ur} {p} {kp} {g} {kg} {u} {ku} {vp} {vg} {vu} {up} z n f child
        rl rr ru fits =
      let (h1, e1, f1, k1) = paint_lem false (into_right f) in
      let (h2, e2, f2, k2) = paint_lem false (into_left (from_right f1)) in
      let f2' = from_left f2 in
      let (h3, e3, f3, k3) = paint_lem true f2' in
      record {
        nodes = h3;
        root = s.root;
        tree = node (node ul u ku vu false ur) g kg vg true (node pl p kp vp false pr);
        path = up;
        black_height = suc n;
        returns =
            rw
              (
                parent_of_root z child (into_right f),
                f.focus.4.0.0,
                f.focus.0.0,
                right_apart {s = s} refl f,
                f.focus.3.0.0,
                e1,
                e2,
                parent_of_root z child (into_right f2'),
                f2'.focus.4.0.0,
                e3,
              )
              refl;
        focused = f3;
        is_node = refl;
        red_black = ((n, refl, ru.0, ru.1), (n, refl, rl, rr), refl, refl);
        fits = fits;
        shorter = omega arith;
        same = entries-plug _ _ up refl;
      }

  -- The last statements of a round, on an outer node.
  pub raise_rightwards_lem :
      {s : State V} {t r u : Tree V} {p kp g kg : ℕ} {vp vg : V} {up : Context V}
      → IsFocused s (node (node t p kp vp true r) g kg vg false u) up
      → is_red_tree t ≡ true
      → (h : ℕ → Option (Node V)) × (root : ℕ) × (raise_rightwards (address s.nil t) s
          ≡ some (rebuilt s h root))
        × IsFocused (rebuilt s h root) (node t p kp vp false (node r g kg vg true u)) up
  unfolding raise_rightwards
  raise_rightwards_lem {s} {t} {r} {u} {p} {kp} {g} {kg} {vp} {vg} {up} f red =
      let (h1, e1, f1, k1) = paint_lem false (into_left f) in
      let f1' = from_left f1 in
      let (h2, e2, f2, k2) = paint_lem true f1' in
      let (h3, root, e3, f3, k3) = right_rotate_lem f2 in
      (
        h3,
        root,
        rw
            (
              parent_lem s p t _ _ f.focus.3.3 red,
              e1,
              parent_lem (on s h1) p t _ _ f1.focus.3 red,
              f1'.focus.3.0.0,
              e2,
              parent_lem (on (on s h1) h2) p t _ _ f2.focus.3.3 red,
              f2.focus.3.0.0,
            )
            e3,
        f3,
      )

  pub raise_leftwards_lem :
      {s : State V} {t l u : Tree V} {p kp g kg : ℕ} {vp vg : V} {up : Context V}
      → IsFocused s (node u g kg vg false (node l p kp vp true t)) up
      → is_red_tree t ≡ true
      → (h : ℕ → Option (Node V)) × (root : ℕ) × (raise_leftwards (address s.nil t) s
          ≡ some (rebuilt s h root))
        × IsFocused (rebuilt s h root) (node (node u g kg vg true l) p kp vp false t) up
  unfolding raise_leftwards
  raise_leftwards_lem {s} {t} {l} {u} {p} {kp} {g} {kg} {vp} {vg} {up} f red =
      let (h1, e1, f1, k1) = paint_lem false (into_right f) in
      let f1' = from_right f1 in
      let (h2, e2, f2, k2) = paint_lem true f1' in
      let (h3, root, e3, f3, k3) = left_rotate_lem f2 in
      (
        h3,
        root,
        rw
            (
              parent_lem s p t _ _ f.focus.4.4 red,
              e1,
              parent_lem (on s h1) p t _ _ f1.focus.4 red,
              f1'.focus.4.0.0,
              e2,
              parent_lem (on (on s h1) h2) p t _ _ f2.focus.4.4 red,
              f2.focus.4.0.0,
            )
            e3,
        f3,
      )
