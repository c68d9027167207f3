-- ===== src/Map/Rounds.antt =====
-- One round of the loop of `InsertFixup` in driver/std/map/map.h.
use windows_kernel_events_tr.Prelude.{ℕ, suc, ◌≡◌, refl, sym, true, false, ◌∷◌, arith, inl, inr}
use windows_kernel_events_tr.Map.Nodes.{State}
use windows_kernel_events_tr.Map.Insertion.{rotate_rightwards, rotate_leftwards, insert_round}
use windows_kernel_events_tr.Map.Shape.{
  Tree, leaf, node, Context, top, left_of, right_of, plug, entries, depth, IsFocused,
}
use windows_kernel_events_tr.Map.Frames.{into_left, into_right, from_left, from_right}
use windows_kernel_events_tr.Map.Rotations.{left_rotate_lem, right_rotate_lem}
use windows_kernel_events_tr.Map.Colours.{
  is_red_tree, IsRedBlack, FitsRedBlack, is_below_red, entries-plug, append_assoc,
}
use windows_kernel_events_tr.Map.Fixups.{
  Rises, colour_lem, left_apart, right_apart, recolour_left, recolour_right, raise_rightwards_lem,
  raise_leftwards_lem,
}
use windows_kernel_events_tr.Map.Relinking.{same_address}

module _ {V : Type 0} where
  -- A black uncle to the right: `z` is the outer child of its parent.
  outer_left :
      {s : State V} {l r u tr : Tree V} {z kz p kp g kg : ℕ} {vz vp vg : V} {up : Context V} (n : ℕ)
      → IsFocused s (node (node (node l z kz vz true tr) p kp vp true r) g kg vg false u) up
      → is_red_tree u ≡ false
      → IsRedBlack (node l z kz vz true tr) n
      → IsRedBlack r n
      → is_red_tree r ≡ false
      → IsRedBlack u n
      → FitsRedBlack up (suc n)
      → Rises s z
          (suc (suc (depth up)))
          (entries (plug (node (node (node l z kz vz true tr) p kp vp true r) g kg vg false u) up))
  unfolding insert_round rotate_rightwards
  outer_left {s} {l} {r} {u} {tr} {z} {kz} {p} {kp} {g} {kg} {vz} {vp} {vg} {up} n f black_u rt rr
        black_r ru fits =
      let (h, root, e, f') = raise_rightwards_lem f refl in
      record {
        nodes = h;
        root = root;
        tree = node l z kz vz true tr;
        path = left_of p kp vp false (node r g kg vg true u) up;
        black_height = n;
        returns =
            rw
              (
                f.focus.3.3.0.0,
                f.focus.3.0.0,
                f.focus.0.0,
                same_address p,
                colour_lem u (into_right f),
                black_u,
                left_apart {s = s} refl (into_left f),
                e,
              )
              refl;
        focused = into_left f';
        is_node = refl;
        red_black = rt;
        fits = ((rr, ru, black_r, black_u), fits);
        shorter = omega arith;
        same = entries-plug _ _ up (
            sym (
              append_assoc (entries (node l z kz vz true tr)) ((p, kp, vp) ∷ entries r)
                ((g, kg, vg) ∷ entries u)));
      }

  -- It is the inner child.
  inner_left :
      {s : State V} {l r u tl : Tree V} {z kz p kp g kg : ℕ} {vz vp vg : V} {up : Context V} (n : ℕ)
      → IsFocused s (node (node l p kp vp true (node tl z kz vz true r)) g kg vg false u) up
      → is_red_tree u ≡ false
      → IsRedBlack (node tl z kz vz true r) n
      → IsRedBlack l n
      → is_red_tree l ≡ false
      → IsRedBlack u n
      → FitsRedBlack up (suc n)
      → Rises s z
          (suc (suc (depth up)))
          (entries (plug (node (node l p kp vp true (node tl z kz vz true r)) g kg vg false u) up))
  unfolding insert_round rotate_rightwards
  inner_left {s} {l} {r} {u} {tl} {z} {kz} {p} {kp} {g} {kg} {vz} {vp} {vg} {up} n f black_u rt rl
        black_l ru fits =
      let (h1, root1, e1, f1, k1) = left_rotate_lem (into_left f) in
      let (h, root, e, f') = raise_rightwards_lem (from_left f1) refl in
      record {
        nodes = h;
        root = root;
        tree = node l p kp vp true tl;
        path = left_of z kz vz false (node r g kg vg true u) up;
        black_height = n;
        returns =
            rw
              (
                f.focus.3.4.0.0,
                f.focus.3.0.0,
                f.focus.0.0,
                same_address p,
                colour_lem u (into_right f),
                black_u,
                same_address z,
                e1,
                e,
              )
              refl;
        focused = into_left f';
        is_node = refl;
        red_black = (rl, rt.0, black_l, rt.2);
        fits = ((rt.1, ru, rt.3, black_u), fits);
        shorter = omega arith;
        same = entries-plug _ _ up (simp append_assoc);
      }

  -- A black uncle to the left: the outer child and the inner one.
  outer_right :
      {s : State V} {l r u tl : Tree V} {z kz p kp g kg : ℕ} {vz vp vg : V} {up : Context V} (n : ℕ)
      → IsFocused s (node u g kg vg false (node l p kp vp true (node tl z kz vz true r))) up
      → is_red_tree u ≡ false
      → IsRedBlack (node tl z kz vz true r) n
      → IsRedBlack l n
      → is_red_tree l ≡ false
      → IsRedBlack u n
      → FitsRedBlack up (suc n)
      → Rises s z
          (suc (suc (depth up)))
          (entries (plug (node u g kg vg false (node l p kp vp true (node tl z kz vz true r))) up))
  unfolding insert_round rotate_leftwards
  outer_right {s} {l} {r} {u} {tl} {z} {kz} {p} {kp} {g} {kg} {vz} {vp} {vg} {up} n f black_u rt rl
        black_l ru fits =
      let (h, root, e, f') = raise_leftwards_lem f refl in
      record {
        nodes = h;
        root = root;
        tree = node tl z kz vz true r;
        path = right_of (node u g kg vg true l) p kp vp false up;
        black_height = n;
        returns =
            rw
              (
                f.focus.4.4.0.0,
                f.focus.4.0.0,
                f.focus.0.0,
                right_apart {s = s} refl f,
                colour_lem u (into_left f),
                black_u,
                right_apart {s = s} refl (into_right f),
                e,
              )
              refl;
        focused = into_right f';
        is_node = refl;
        red_black = rt;
        fits = ((ru, rl, black_u, black_l), fits);
        shorter = omega arith;
        same = entries-plug _ _ up (simp append_assoc);
      }

  inner_right :
      {s : State V} {l r u tr : Tree V} {z kz p kp g kg : ℕ} {vz vp vg : V} {up : Context V} (n : ℕ)
      → IsFocused s (node u g kg vg false (node (node l z kz vz true tr) p kp vp true r)) up
      → is_red_tree u ≡ false
      → IsRedBlack (node l z kz vz true tr) n
      → IsRedBlack r n
      → is_red_tree r ≡ false
      → IsRedBlack u n
      → FitsRedBlack up (suc n)
      → Rises s z
          (suc (suc (depth up)))
          (entries (plug (node u g kg vg false (node (node l z kz vz true tr) p kp vp true r)) up))
  unfolding insert_round rotate_leftwards
  inner_right {s} {l} {r} {u} {tr} {z} {kz} {p} {kp} {g} {kg} {vz} {vp} {vg} {up} n f black_u rt rr
        black_r ru fits =
      let (h1, root1, e1, f1, k1) = right_rotate_lem (into_right f) in
      let (h, root, e, f') = raise_leftwards_lem (from_right f1) refl in
      record {
        nodes = h;
        root = root;
        tree = node tr p kp vp true r;
        path = right_of (node u g kg vg true l) z kz vz false up;
        black_height = n;
        returns =
            rw
              (
                f.focus.4.3.0.0,
                f.focus.4.0.0,
                f.focus.0.0,
                right_apart {s = s} refl f,
                colour_lem u (into_left f),
                black_u,
                same_address z,
                e1,
                e,
              )
              refl;
        focused = into_right f';
        is_node = refl;
        red_black = (rt.1, rr, rt.3, black_r);
        fits = ((ru, rt.0, black_u, rt.2), fits);
        shorter = omega arith;
        same = entries-plug _ _ up (simp append_assoc);
      }

  -- A round, whatever the uncle's colour: under a red node the grandparent is there, and black.
  pub insert_round_lem :
      {s : State V} {l r : Tree V} {z kz : ℕ} {vz : V} (p : Context V) (n : ℕ)
      → IsFocused s (node l z kz vz true r) p
      → is_below_red p ≡ true
      → IsRedBlack (node l z kz vz true r) n
      → FitsRedBlack p n
      → Rises s z (depth p) (entries (plug (node l z kz vz true r) p))
  insert_round_lem top n f red rt fits = cc
  insert_round_lem (left_of p kp vp false pr up) n f red rt fits = cc
  insert_round_lem (left_of p kp vp true pr top) n f red rt fits = let below = fits.2 in cc
  insert_round_lem (left_of p kp vp true pr (left_of g kg vg true u up)) n f red rt fits =
      let below = fits.2 in cc
  insert_round_lem (left_of p kp vp true pr (right_of u g kg vg true up)) n f red rt fits =
      let below = fits.2 in cc
  insert_round_lem (right_of pl p kp vp false up) n f red rt fits = cc
  insert_round_lem (right_of pl p kp vp true top) n f red rt fits = let below = fits.2 in cc
  insert_round_lem (right_of pl p kp vp true (left_of g kg vg true u up)) n f red rt fits =
      let below = fits.2 in cc
  insert_round_lem (right_of pl p kp vp true (right_of u g kg vg true up)) n f red rt fits =
      let below = fits.2 in cc
  insert_round_lem (left_of p kp vp true pr (left_of g kg vg false leaf up)) n f red rt
        (rp, black_p, below, (ru, fits)) =
      outer_left n (from_left (from_left f)) refl rt rp black_p ru fits
  insert_round_lem (left_of p kp vp true pr (left_of g kg vg false (node ul u ku vu false ur) up)) n
        f red rt (rp, black_p, below, (ru, fits)) =
      outer_left n (from_left (from_left f)) refl rt rp black_p ru fits
  insert_round_lem (left_of p kp vp true pr (left_of g kg vg false (node ul u ku vu true ur) up)) n
        f red rt (rp, black_p, below, (ru, fits)) =
      recolour_left _ n (from_left (from_left f)) (inl (refl, refl)) rt rp ru fits
  insert_round_lem (right_of pl p kp vp true (left_of g kg vg false leaf up)) n f red rt
        (rp, black_p, below, (ru, fits)) =
      inner_left n (from_left (from_right f)) refl rt rp black_p ru fits
  insert_round_lem (right_of pl p kp vp true (left_of g kg vg false (node ul u ku vu false ur) up))
        n f red rt (rp, black_p, below, (ru, fits)) =
      inner_left n (from_left (from_right f)) refl rt rp black_p ru fits
  insert_round_lem (right_of pl p kp vp true (left_of g kg vg false (node ul u ku vu true ur) up)) n
        f red rt (rp, black_p, below, (ru, fits)) =
      recolour_left _ n (from_left (from_right f)) (inr (refl, refl)) rp rt ru fits
  insert_round_lem (left_of p kp vp true pr (right_of leaf g kg vg false up)) n f red rt
        (rp, black_p, below, (ru, fits)) =
      inner_right n (from_right (from_left f)) refl rt rp black_p ru fits
  insert_round_lem (left_of p kp vp true pr (right_of (node ul u ku vu false ur) g kg vg false up))
        n f red rt (rp, black_p, below, (ru, fits)) =
      inner_right n (from_right (from_left f)) refl rt rp black_p ru fits
  insert_round_lem (left_of p kp vp true pr (right_of (node ul u ku vu true ur) g kg vg false up)) n
        f red rt (rp, black_p, below, (ru, fits)) =
      recolour_right _ n (from_right (from_left f)) (inl (refl, refl)) rt rp ru fits
  insert_round_lem (right_of pl p kp vp true (right_of leaf g kg vg false up)) n f red rt
        (rp, black_p, below, (ru, fits)) =
      outer_right n (from_right (from_right f)) refl rt rp black_p ru fits
  insert_round_lem (right_of pl p kp vp true (right_of (node ul u ku vu false ur) g kg vg false up))
        n f red rt (rp, black_p, below, (ru, fits)) =
      outer_right n (from_right (from_right f)) refl rt rp black_p ru fits
  insert_round_lem (right_of pl p kp vp true (right_of (node ul u ku vu true ur) g kg vg false up))
        n f red rt (rp, black_p, below, (ru, fits)) =
      recolour_right _ n (from_right (from_right f)) (inr (refl, refl)) rp rt ru fits
