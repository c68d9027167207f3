-- ===== src/Map/Settling.antt =====
-- The whole loop of `InsertFixup` in driver/std/map/map.h, and the painting of the root.
use windows_kernel_events_tr.Prelude.{
  ℕ, zero, suc, ◌<◌, ◌≡◌, refl, ◌∙◌, ap, Bool, true, false, Option, some, arith, inl, inr,
  Bool-cases,
}
use windows_kernel_events_tr.Map.Nodes.{Node, State, is_red, write, painted}
use windows_kernel_events_tr.Map.Insertion.{insert_fixup}
use windows_kernel_events_tr.Map.Shape.{
  Tree, leaf, node, Context, top, left_of, right_of, address, above, plug, entries, depth,
  IsFocused, Represents,
}
use windows_kernel_events_tr.Map.Frames.{on, from_left, from_right, paint_lem}
use windows_kernel_events_tr.Map.Colours.{
  is_red_tree, IsRedBlack, FitsRedBlack, is_below_red, IsBalanced, plug-IsBalanced,
}
use windows_kernel_events_tr.Map.Fixups.{rebuilt}
use windows_kernel_events_tr.Map.Rounds.{insert_round_lem}

module _ {V : Type 0} where
  abbrev blackened : Tree V → Tree V
  blackened leaf = leaf
  blackened (node l a k v c r) = node l a k v false r

  entries-blackened : (t : Tree V) → entries (blackened t) ≡ entries t
  entries-blackened leaf = refl
  entries-blackened (node l a k v c r) = refl

  blackened-IsBalanced : (t : Tree V) → IsBalanced t → IsBalanced (blackened t)
  blackened-IsBalanced leaf b = b
  blackened-IsBalanced (node l a k v false r) b = b
  blackened-IsBalanced (node l a k v true r) b = let red = b.0 in cc

  -- `root_->is_red = false`
  paint_root :
      {s : State V} (p : Context V) {l r : Tree V} {a k : ℕ} {v : V} {c : Bool}
      → IsFocused s (node l a k v c r) p
      → (h : ℕ → Option (Node V)) × (write s.root (painted false) s ≡ some (on s h))
        × Represents (on s h) (blackened (plug (node l a k v c r) p))
  paint_root {s} top f =
      let (h, e, f', k) = paint_lem false f in
      (h, ap (λ q. write q (painted false) s) f.rooted ∙ e, f')
  paint_root (left_of b j w d u up) f = paint_root up (from_left f)
  paint_root (right_of u b j w d up) f = paint_root up (from_right f)

  parent_colour :
      {s : State V} {t : Tree V} (p : Context V)
      → IsFocused s t p
      → is_red (above s.nil p) s ≡ some (is_below_red p)
  parent_colour top f = rw (f.at_nil) (ap some f.black)
  parent_colour (left_of a k v c r up) f = rw (f.around.0.0) refl
  parent_colour (right_of l a k v c up) f = rw (f.around.0.0) refl

  -- Where the node above is not red the loop ends, with the conditions met.
  settled_IsBalanced :
      (l r : Tree V) (z kz : ℕ) (vz : V) (p : Context V) (n : ℕ)
      → is_below_red p ≡ false
      → IsRedBlack (node l z kz vz true r) n
      → FitsRedBlack p n
      → IsBalanced (blackened (plug (node l z kz vz true r) p))
  settled_IsBalanced l r z kz vz top n stop rt fits = (refl, suc n, (n, refl, rt.0, rt.1))
  settled_IsBalanced l r z kz vz (left_of a k v c u up) n stop rt fits =
      blackened-IsBalanced (plug (node l z kz vz true r) (left_of a k v c u up)) (
        plug-IsBalanced (node l z kz vz true r) (left_of a k v c u up) n rt fits
          (λ e. rw stop refl))
  settled_IsBalanced l r z kz vz (right_of u a k v c up) n stop rt fits =
      blackened-IsBalanced (plug (node l z kz vz true r) (right_of u a k v c up)) (
        plug-IsBalanced (node l z kz vz true r) (right_of u a k v c up) n rt fits
          (λ e. rw stop refl))

  -- The loop ends, with the nodes from left to right as before and the red-black conditions met.
  pub insert_fixup_lem :
      (fuel : ℕ) {s : State V} {t : Tree V} {p : Context V} (n : ℕ)
      → IsFocused s t p
      → is_red_tree t ≡ true
      → IsRedBlack t n
      → FitsRedBlack p n
      → depth p < fuel
      → (h : ℕ → Option (Node V)) × (root : ℕ) × (t' : Tree V) × (insert_fixup fuel
            (address s.nil t)
            s
          ≡ some (rebuilt s h root))
        × Represents (rebuilt s h root) t'
        × (entries t' ≡ entries (plug t p))
        × IsBalanced t'
  unfolding insert_fixup
  insert_fixup_lem zero n f red rt fits enough = absurd (omega arith)
  insert_fixup_lem (suc fuel) {t = leaf} n f red rt fits enough = cc
  insert_fixup_lem (suc fuel) {t = node l z kz vz false r} n f red rt fits enough = cc
  insert_fixup_lem (suc fuel) {s} {t = node l z kz vz true r} {p} n f red rt fits enough =
      elim (Bool-cases (is_below_red p)) [
        | inl above_red ↦
            let round = insert_round_lem p n f above_red rt fits in
            let (h, root, t', e, f', same, balanced) =
              insert_fixup_lem fuel round.black_height round.focused round.is_node round.red_black
                round.fits (omega (arith, round.shorter)) in
            (
              h,
              root,
              t',
              rw (f.focus.0.0, parent_colour p f, above_red, round.returns) e,
              f',
              same ∙ round.same,
              balanced,
            )
        | inr above_black ↦
            let (h, e, f') = paint_root p f in
            (
              h,
              s.root,
              blackened (plug (node l z kz vz true r) p),
              rw (f.focus.0.0, parent_colour p f, above_black) e,
              f',
              entries-blackened (plug (node l z kz vz true r) p),
              settled_IsBalanced l r z kz vz p n above_black rt fits,
            )
      ]
