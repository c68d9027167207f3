-- ===== src/Map/FinishingRight.antt =====
-- The last statements of a round of `DeleteFixup` in driver/std/map/map.h, where the subtree that lacks a
-- black node is a right child.
use windows_kernel_events_tr.Prelude.{ℕ, suc, ◌<◌, ◌≡◌, refl, Bool, true, false}
use windows_kernel_events_tr.Map.Nodes.{State}
use windows_kernel_events_tr.Map.Removal.{finish_right}
use windows_kernel_events_tr.Map.Shape.{
  Tree, node, Context, right_of, address, plug, entries, IsFocused,
}
use windows_kernel_events_tr.Map.Frames.{
  on, into_right, into_left, from_right, from_left, paint_lem,
}
use windows_kernel_events_tr.Map.Rotations.{right_rotate_lem, left_rotate_lem}
use windows_kernel_events_tr.Map.Colours.{
  is_red_tree, IsRedBlack, FitsRedBlack, Meets, entries-plug, plug-IsBalanced, append_assoc,
}
use windows_kernel_events_tr.Map.Fixups.{rebuilt, colour_lem}
use windows_kernel_events_tr.Map.Deficits.{
  FitsBelow, Hangs, Hangs-still, Sinks, Sinks-returns, Sinks-same, Sinks-onto, whole-Sinks,
}

module _ {V : Type 0} where
  -- The right subtree gains a black node when `w` takes over the place and the colour of the node above.
  finished_fits :
      (c : Bool) (t b e : Tree V) (a k w kw : ℕ) (v vw : V) (up : Context V) (n : ℕ)
      → IsRedBlack t n
      → IsRedBlack b n
      → IsRedBlack e (suc n)
      → is_red_tree e ≡ false
      → FitsBelow c up (suc n)
      → (m : ℕ) × IsRedBlack (node e w kw vw c (node b a k v false t)) m
        × FitsRedBlack up m
        × Meets (node e w kw vw c (node b a k v false t)) up
  finished_fits true t b e a k w kw v vw up n rt rb re black fits =
      (suc n, (re, (n, refl, rb, rt), black, refl), fits.1, λ q. fits.0)
  finished_fits false t b e a k w kw v vw up n rt rb re black fits =
      (suc (suc n), (suc n, refl, re, (n, refl, rb, rt)), fits, λ q. absurd (cc))

  -- The last statements, on a black sibling whose left child is red.
  pub outer :
      {s : State V} {t b e1 e2 : Tree V} {a k w kw y ky : ℕ} {v vw vy : V} {c : Bool}
      {up : Context V} (n d : ℕ)
      → IsFocused s t (right_of (node (node e2 y ky vy true e1) w kw vw false b) a k v c up)
      → Hangs s t a
      → IsRedBlack t n
      → IsRedBlack b n
      → IsRedBlack e1 n
      → IsRedBlack e2 n
      → FitsBelow c up (suc n)
      → 0 < d
      → Sinks s d
          (entries (plug t (right_of (node (node e2 y ky vy true e1) w kw vw false b) a k v c up)))
          (finish_right (address s.nil t) w s)
  unfolding finish_right
  outer {s} {t} {b} {e1} {e2} {a} {k} {w} {kw} {y} {ky} {v} {vw} {vy} {c} {up} n d f hung rt rb r1
        r2 fits room =
      let f0 = from_right f in
      let (h1, p1, f1, k1) = paint_lem c (into_left f0) in
      let f1' = from_left f1 in
      let hung1 =
        Hangs-still s (on s h1) t (right_of _ a k v c up) a (into_right f1') k1 refl hung in
      let (h2, p2, f2, k2) = paint_lem false f1' in
      let s2 = on (on s h1) h2 in
      let hung2 =
        Hangs-still (on s h1) s2 t (right_of _ a k v false up) a (into_right f2) k2 refl hung1 in
      let (h3, p3, f3, k3) = paint_lem false (into_left (into_left f2)) in
      let f3' = from_left (from_left f3) in
      let hung3 =
        Hangs-still s2 (on s2 h3) t (right_of _ a k v false up) a (into_right f3') k3 refl hung2 in
      let (h4, root, p4, f4, k4) = right_rotate_lem f3' in
      let (m, rbm, fm, meets) =
        finished_fits c t b (node e2 y ky vy false e1) a k w kw v vw up n rt rb (n, refl, r2, r1)
          refl fits in
      whole-Sinks h4 root _ _ w kw vw c up
        (rw
          (
            f0.focus.3.0.0, f0.focus.3.3.0.0, hung, f0.focus.0.0, p1, hung1, p2, f2.focus.3.0.0, p3,
            hung3, p4,
          )
          refl)
        f4 (plug-IsBalanced _ up m rbm fm meets) room (entries-plug _ _ up (simp append_assoc))

  -- On a black sibling whose right child alone is red, that child is rotated over it first.
  pub inner :
      {s : State V} {t b1 b2 e : Tree V} {a k w kw y ky : ℕ} {v vw vy : V} {c : Bool}
      {up : Context V} (n d : ℕ)
      → IsFocused s t (right_of (node e w kw vw false (node b2 y ky vy true b1)) a k v c up)
      → Hangs s t a
      → is_red_tree e ≡ false
      → IsRedBlack t n
      → IsRedBlack (node b2 y ky vy true b1) n
      → IsRedBlack e n
      → FitsBelow c up (suc n)
      → 0 < d
      → Sinks s d
          (entries (plug t (right_of (node e w kw vw false (node b2 y ky vy true b1)) a k v c up)))
          (finish_right (address s.nil t) w s)
  unfolding finish_right
  inner {s} {t} {b1} {b2} {e} {a} {k} {w} {kw} {y} {ky} {v} {vw} {vy} {c} {up} n d f hung black rt
        rb re fits room =
      let f0 = from_right f in
      let (h1, p1, f1, k1) = paint_lem false (into_right (into_left f0)) in
      let f1' = from_right f1 in
      let hung1 =
        Hangs-still s (on s h1) t (right_of _ a k v c up) a (into_right (from_left f1')) k1 refl
          hung in
      let (h2, p2, f2, k2) = paint_lem true f1' in
      let s2 = on (on s h1) h2 in
      let hung2 =
        Hangs-still (on s h1) s2 t (right_of _ a k v c up) a (into_right (from_left f2)) k2 refl
          hung1 in
      let (h3, root3, p3, f3, k3) = left_rotate_lem f2 in
      let s3 = rebuilt s h3 root3 in
      let f3' = from_left f3 in
      let hung3 = Hangs-still s2 s3 t (right_of _ a k v c up) a (into_right f3') k3 refl hung2 in
      let again : finish_right (address s.nil t) w s ≡ finish_right (address s.nil t) y s3 =
        rw
          (
            f0.focus.3.0.0,
            colour_lem e (into_left (into_left f0)),
            black,
            p1,
            p2,
            p3,
            hung3,
            f3'.focus.0.0,
            f3'.focus.3.0.0,
            f3'.focus.3.3.0.0,
          )
          refl in
      let rest = Sinks-onto (outer n d (into_right f3') hung3 rt rb.1 rb.0 re fits room) in
      Sinks-returns again (Sinks-same (entries-plug _ _ up (simp append_assoc)) rest)
