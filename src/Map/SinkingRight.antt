-- ===== src/Map/SinkingRight.antt =====
-- A round of the loop of `DeleteFixup` in driver/std/map/map.h where the subtree that lacks a black node
-- is a right child: the mirror image of Sinking.
use windows_kernel_events_tr.Prelude.{
  ℕ, suc, ◌<◌, ◌≡◌, refl, sym, Bool, true, false, Option, some, ◌>>=◌, if◌then◌else◌, ◌==◌, arith,
  subst,
}
use windows_kernel_events_tr.Map.Nodes.{State, parent, write, painted}
use windows_kernel_events_tr.Map.Removal.{
  black_sibling_left, finish_right, has_black_children, delete_round,
}
use windows_kernel_events_tr.Map.Shape.{
  Tree, leaf, node, Context, right_of, address, plug, entries, depth, IsFocused,
}
use windows_kernel_events_tr.Map.Frames.{
  on, into_right, into_left, from_right, from_left, paint_lem,
}
use windows_kernel_events_tr.Map.Rotations.{right_rotate_lem}
use windows_kernel_events_tr.Map.Relinking.{apart_comm}
use windows_kernel_events_tr.Map.Colours.{
  is_red_tree, IsRedBlack, FitsRedBlack, entries-plug, append_assoc,
}
use windows_kernel_events_tr.Map.Fixups.{rebuilt, colour_lem, right_node_apart}
use windows_kernel_events_tr.Map.Deficits.{
  IsShort, FitsBelow, steps_below, steps_within, Hangs, Hangs-still, Sinks, Sinks-returns,
  Sinks-same, Sinks-onto,
}
use windows_kernel_events_tr.Map.FinishingRight.{outer, inner}

module _ {V : Type 0} where
  -- What the round does once the sibling `w` is black.
  abbrev black_round : ℕ → ℕ → State V → Option (ℕ × State V)
  black_round x w s = do
    black ← has_black_children w s
    if black
        then (do s ← write w (painted true) s; p ← parent x s; some (p, s))
        else finish_right x w s

  FitsBelow-split :
      (c : Bool) (a k : ℕ) (v : V) (w : Tree V) (up : Context V) (n : ℕ)
      → FitsRedBlack (right_of w a k v c up) n
      → IsRedBlack w n × FitsBelow c up n × (c ≡ true → is_red_tree w ≡ false)
  FitsBelow-split true a k v w up n fits = (fits.0, (fits.2, fits.3), λ e. fits.1)
  FitsBelow-split false a k v w up n fits = (fits.0, fits.1, λ e. cc)

  -- The node above, its sibling painted red, lacks a black node unless it is red.
  moved_fits :
      (c : Bool) (t b e : Tree V) (a k w kw : ℕ) (v vw : V) (up : Context V) (n : ℕ)
      → is_red_tree b ≡ false
      → is_red_tree e ≡ false
      → IsRedBlack t n
      → IsRedBlack b n
      → IsRedBlack e n
      → FitsBelow c up (suc n)
      → (m : ℕ) × IsShort (node (node e w kw vw true b) a k v c t) m × FitsRedBlack up (suc m)
  moved_fits true t b e a k w kw v vw up n black_b black_e rt rb re fits =
      (n, ((re, rb, black_e, black_b), rt), fits.1)
  moved_fits false t b e a k w kw v vw up n black_b black_e rt rb re fits =
      (suc n, (n, refl, (re, rb, black_e, black_b), rt), fits)

  -- Both children of the black sibling are black: it is painted red, and the lack moves up.
  moved_up :
      {s : State V} {t b e : Tree V} {a k w kw : ℕ} {v vw : V} {c : Bool} {up : Context V} (n d : ℕ)
      → IsFocused s t (right_of (node e w kw vw false b) a k v c up)
      → Hangs s t a
      → is_red_tree b ≡ false
      → is_red_tree e ≡ false
      → IsRedBlack t n
      → IsRedBlack b n
      → IsRedBlack e n
      → FitsBelow c up (suc n)
      → steps_below c (depth up) < d
      → Sinks s d
          (entries (plug t (right_of (node e w kw vw false b) a k v c up)))
          (black_round (address s.nil t) w s)
  unfolding has_black_children
  moved_up {s} {t} {b} {e} {a} {k} {w} {kw} {v} {vw} {c} {up} n d f hung black_b black_e rt rb re
        fits room =
      let f0 = from_right f in
      let (h1, p1, f1, k1) = paint_lem true (into_left f0) in
      let f1' = from_left f1 in
      let hung1 =
        Hangs-still s (on s h1) t (right_of _ a k v c up) a (into_right f1') k1 refl hung in
      let (m, short, fits') = moved_fits c t b e a k w kw v vw up n black_b black_e rt rb re fits in
      record {
        nodes = h1;
        root = s.root;
        tree = node (node e w kw vw true b) a k v c t;
        path = up;
        black_height = m;
        returns =
            rw
              (
                f0.focus.3.0.0,
                colour_lem e (into_left (into_left f0)),
                black_e,
                colour_lem b (into_right (into_left f0)),
                black_b,
                p1,
                hung1,
              )
              refl;
        focused = f1';
        hung = rw (f1'.focus.0.0) refl;
        short = short;
        fits = fits';
        fewer = room;
        same = entries-plug _ _ up refl;
      }

  -- The round, once the sibling is black.
  black_round_lem :
      {s : State V} {t : Tree V} (b e : Tree V) {a k w kw : ℕ} {v vw : V} {c : Bool}
      {up : Context V} (n d : ℕ)
      → IsFocused s t (right_of (node e w kw vw false b) a k v c up)
      → Hangs s t a
      → IsRedBlack t n
      → IsRedBlack b n
      → IsRedBlack e n
      → FitsBelow c up (suc n)
      → steps_below c (depth up) < d
      → Sinks s d
          (entries (plug t (right_of (node e w kw vw false b) a k v c up)))
          (black_round (address s.nil t) w s)
  unfolding has_black_children finish_right
  black_round_lem b (node e1 y ky vy true e2) n d f hung rt rb re fits room =
      let w_held = (from_right f).focus.3 in
      Sinks-returns (rw (w_held.0.0, w_held.3.0.0) refl)
        (outer n d f hung rt rb re.1 re.0 fits (omega arith))
  black_round_lem (node b1 y ky vy true b2) leaf n d f hung rt rb re fits room =
      let w_held = (from_right f).focus.3 in
      Sinks-returns
        (rw (w_held.0.0, colour_lem leaf (into_left (into_left (from_right f))), w_held.4.0.0) refl)
        (inner n d f hung refl rt rb re fits (omega arith))
  black_round_lem (node b1 y ky vy true b2) (node e1 z kz vz false e2) n d f hung rt rb re fits
        room =
      let w_held = (from_right f).focus.3 in
      Sinks-returns (rw (w_held.0.0, w_held.3.0.0, w_held.4.0.0) refl)
        (inner n d f hung refl rt rb re fits (omega arith))
  black_round_lem leaf leaf n d f hung rt rb re fits room =
      moved_up n d f hung refl refl rt rb re fits room
  black_round_lem leaf (node e2 y ky vy false e1) n d f hung rt rb re fits room =
      moved_up n d f hung refl refl rt rb re fits room
  black_round_lem (node b2 y ky vy false b1) leaf n d f hung rt rb re fits room =
      moved_up n d f hung refl refl rt rb re fits room
  black_round_lem (node b2 y ky vy false b1) (node e2 z kz vz false e1) n d f hung rt rb re fits
        room =
      moved_up n d f hung refl refl rt rb re fits room

  -- A red sibling is rotated over the node above, and leaves a black one.
  red_sibling :
      {s : State V} {t e : Tree V} (b1 b2 : Tree V) {y ky a k w kw : ℕ} {vy v vw : V} {c : Bool}
      {up : Context V} (n d : ℕ)
      → IsFocused s t (right_of (node e w kw vw true (node b2 y ky vy false b1)) a k v c up)
      → Hangs s t a
      → IsRedBlack t n
      → IsRedBlack (node e w kw vw true (node b2 y ky vy false b1)) (suc n)
      → c ≡ false
      → FitsRedBlack up (suc (suc n))
      → 0 < d
      → Sinks s d
          (entries (plug t (right_of (node e w kw vw true (node b2 y ky vy false b1)) a k v c up)))
          (black_sibling_left (address s.nil t) s >>= λ r. black_round (address s.nil t) r.0 r.1)
  unfolding black_sibling_left
  red_sibling {s} {t} {e} b1 b2 {y} {ky} {a} {k} {w} {kw} {vy} {v} {vw} {c} {up} n d f hung rt rw'
        black_c fits room =
      let f0 = from_right f in
      let (h1, p1, f1, k1) = paint_lem false (into_left f0) in
      let f1' = from_left f1 in
      let hung1 =
        Hangs-still s (on s h1) t (right_of _ a k v c up) a (into_right f1') k1 refl hung in
      let (h2, p2, f2, k2) = paint_lem true f1' in
      let s2 = on (on s h1) h2 in
      let hung2 =
        Hangs-still (on s h1) s2 t (right_of _ a k v true up) a (into_right f2) k2 refl hung1 in
      let (h3, root3, p3, f3, k3) = right_rotate_lem f2 in
      let s3 = rebuilt s h3 root3 in
      let below = into_right f3 in
      let hung3 =
        Hangs-still s2 s3 t (right_of _ a k v true _) a (into_right below) k3 refl hung2 in
      let (re, (m, same_m, r2, r1), black_e, black_b) = rw' in
      let level : n ≡ m = omega (arith, same_m) in
      let rest = Sinks-onto (
        black_round_lem b1 b2 n d (into_right below) hung3 rt (subst (IsRedBlack b1) (sym level) r1)
          (subst (IsRedBlack b2) (sym level) r2) (refl, (re, fits)) room) in
      let first : black_sibling_left (address s.nil t) s ≡ some (y, s3) =
        rw (hung, f0.focus.0.0, f0.focus.3.0.0, p1, hung1, p2, hung2, p3, hung3, below.focus.0.0)
          refl in
      Sinks-returns (rw (first) refl) (Sinks-same (entries-plug _ _ up (simp append_assoc)) rest)

  sibling_cases :
      {s : State V} {t : Tree V} (w : Tree V) {a k : ℕ} {v : V} {c : Bool} {up : Context V} (n : ℕ)
      → IsFocused s t (right_of w a k v c up)
      → Hangs s t a
      → IsRedBlack t n
      → IsRedBlack w (suc n)
      → FitsBelow c up (suc n)
      → (c ≡ true → is_red_tree w ≡ false)
      → Sinks s
          (suc (depth up))
          (entries (plug t (right_of w a k v c up)))
          (black_sibling_left (address s.nil t) s >>= λ r. black_round (address s.nil t) r.0 r.1)
  unfolding black_sibling_left
  sibling_cases leaf n f hung rt rw' fits black = absurd (omega (arith, rw'))
  sibling_cases {s} (node e w kw vw false b) {c = c} {up} n f hung rt (m, same, re, rb) fits black =
      let level : n ≡ m = omega (arith, same) in
      Sinks-returns (rw (hung, (from_right f).focus.0.0, (from_right f).focus.3.0.0) refl) (
        black_round_lem b e n _ f hung rt (subst (IsRedBlack b) (sym level) rb)
          (subst (IsRedBlack e) (sym level) re) fits (steps_within c (depth up)))
  sibling_cases (node e w kw vw true leaf) n f hung rt rw' fits black =
      absurd (omega (arith, rw'.1))
  sibling_cases (node e w kw vw true (node b2 y ky vy true b1)) n f hung rt rw' fits black =
      let red = rw'.3 in cc
  sibling_cases (node e w kw vw true (node b2 y ky vy false b1)) {c = true} n f hung rt rw' fits
        black =
      let red : true ≡ false = black refl in cc
  sibling_cases (node e w kw vw true (node b2 y ky vy false b1)) {c = false} n f hung rt rw' fits
        black =
      red_sibling b1 b2 n _ f hung rt rw' refl fits (omega arith)

  -- The code tells the two sides apart by the pointers.
  sides_apart :
      {s : State V} {t w : Tree V} {a k : ℕ} {v : V} {c : Bool} {up : Context V} (n : ℕ)
      → IsFocused s (node w a k v c t) up
      → IsRedBlack w (suc n)
      → (address s.nil t == address s.nil w) ≡ false
  sides_apart {w = leaf} n f rb = absurd (omega (arith, rb))
  sides_apart {t = leaf} {w = node wl b kb vb cb wr} n f rb = apart_comm _ _ f.focus.3.0.1
  sides_apart {t = node tl d kd vd cd tr} {w = node wl b kb vb cb wr} n f rb = right_node_apart f

  -- A round on a right child.
  pub sink_right :
      {s : State V} {t : Tree V} (w : Tree V) {a k : ℕ} {v : V} {c : Bool} {up : Context V} (n : ℕ)
      → IsFocused s t (right_of w a k v c up)
      → Hangs s t a
      → IsRedBlack t n
      → FitsRedBlack (right_of w a k v c up) (suc n)
      → Sinks s
          (suc (depth up))
          (entries (plug t (right_of w a k v c up)))
          (delete_round (address s.nil t) s)
  unfolding delete_round
  sink_right {s} {t} w {a} {k} {v} {c} {up} n f hung rt fits =
      let (rw', fits', black) = FitsBelow-split c a k v w up (suc n) fits in
      Sinks-returns (rw (hung, (from_right f).focus.0.0, sides_apart n (from_right f) rw') refl)
        (sibling_cases w n f hung rt rw' fits' black)
