-- ===== src/Map/Sunk.antt =====
-- The whole loop of `DeleteFixup` in driver/std/map/map.h.
use windows_kernel_events_tr.Prelude.{
  ℕ, zero, suc, ◌<◌, ◌≡◌, refl, ◌∙◌, true, false, Option, some, List, arith, inl, inr, Bool-cases,
  ltb, tests,
}
use windows_kernel_events_tr.Map.Nodes.{Node, State}
use windows_kernel_events_tr.Map.Removal.{delete_round, goes_on, delete_fixup}
use windows_kernel_events_tr.Map.Shape.{
  Tree, leaf, node, Context, top, left_of, right_of, address, above, plug, entries, depth,
  IsFocused, Represents,
}
use windows_kernel_events_tr.Map.Colours.{
  is_red_tree, IsRedBlack, FitsRedBlack, IsBalanced, entries-plug, plug-IsBalanced,
}
use windows_kernel_events_tr.Map.Fixups.{rebuilt}
use windows_kernel_events_tr.Map.Deficits.{IsShort, IsShort-IsRedBlack, steps, Hangs, Sinks, to_top}
use windows_kernel_events_tr.Map.Sinking.{sink_left}
use windows_kernel_events_tr.Map.SinkingRight.{sink_right}
use windows_kernel_events_tr.Map.Endings.{
  blacked, entries-blacked, blacken_lem, goes_on_lem, stops_red, stops_top,
}

module _ {V : Type 0} where
  -- One round, on either side.
  round_lem :
      {s : State V} {t : Tree V} (p : Context V) (n : ℕ)
      → IsFocused s t p
      → Hangs s t (above s.nil p)
      → IsRedBlack t n
      → FitsRedBlack p (suc n)
      → 0 < depth p
      → Sinks s (depth p) (entries (plug t p)) (delete_round (address s.nil t) s)
  round_lem top n f hung rb fits deep = absurd (omega arith)
  round_lem (left_of a k v c w up) n f hung rb fits deep = sink_left w n f hung rb fits
  round_lem (right_of w a k v c up) n f hung rb fits deep = sink_right w n f hung rb fits

  short_IsBalanced :
      (t : Tree V) (p : Context V) (n : ℕ)
      → IsShort t n
      → FitsRedBlack p (suc n)
      → steps t p ≡ 0
      → IsBalanced (plug (blacked t) p)
  short_IsBalanced leaf top n rb fits e = (refl, n, rb)
  short_IsBalanced (node l a k v true r) p n rb fits e =
      plug-IsBalanced (node l a k v false r) p (suc n) (n, refl, rb.0, rb.1) fits (λ q. cc)
  short_IsBalanced (node l a k v false r) top n rb fits e = (refl, n, rb)
  short_IsBalanced leaf (left_of b j w d u up) n rb fits e = absurd (omega (arith, e))
  short_IsBalanced leaf (right_of u b j w d up) n rb fits e = absurd (omega (arith, e))
  short_IsBalanced (node l a k v false r) (left_of b j w d u up) n rb fits e =
      absurd (omega (arith, e))
  short_IsBalanced (node l a k v false r) (right_of u b j w d up) n rb fits e =
      absurd (omega (arith, e))

  -- The loop ends, with the nodes from left to right as before and the red-black conditions met.
  pub record IsMended (s : State V) (all : List (ℕ × ℕ × V)) (out : Option (State V)) : Type 0 where
    pub nodes : ℕ → Option (Node V)
    pub root : ℕ
    pub tree : Tree V
    pub returns : out ≡ some (rebuilt s nodes root)
    pub standing : Represents (rebuilt s nodes root) tree
    pub balanced : IsBalanced tree
    pub same : entries tree ≡ all

  stopped :
      {s : State V} (t : Tree V) (p : Context V) (fuel n : ℕ)
      → IsFocused s t p
      → goes_on (address s.nil t) s ≡ some false
      → IsShort t n
      → FitsRedBlack p (suc n)
      → steps t p ≡ 0
      → IsMended s (entries (plug t p)) (delete_fixup (suc fuel) (address s.nil t) s)
  unfolding delete_fixup
  stopped {s} t p fuel n f stop short fits none_left =
      let (h, e, f') = blacken_lem t f in
      record {
        nodes = h;
        root = s.root;
        tree = plug (blacked t) p;
        returns = rw (stop) e;
        standing = to_top p f';
        balanced = short_IsBalanced t p n short fits none_left;
        same = entries-plug (blacked t) t p (entries-blacked t);
      }

  pub delete_fixup_lem :
      (fuel : ℕ) {s : State V} {t : Tree V} (p : Context V) (n : ℕ)
      → IsFocused s t p
      → Hangs s t (above s.nil p)
      → IsShort t n
      → FitsRedBlack p (suc n)
      → steps t p < fuel
      → IsMended s (entries (plug t p)) (delete_fixup fuel (address s.nil t) s)
  unfolding delete_fixup
  delete_fixup_lem zero p n f hung short fits enough = absurd (omega arith)
  delete_fixup_lem (suc fuel) {s} {t} p n f hung short fits enough =
      elim (Bool-cases (is_red_tree t)) [
        | inl red ↦ stopped t p fuel n f (stops_red t p f red) short fits (rw (red) refl)
        | inr black ↦
            let at_depth : steps t p ≡ depth p = rw (black) refl in
            elim (Bool-cases (ltb 0 (depth p))) [
              | inr e ↦
                  let up : depth p ≡ 0 = ground arith in
                  stopped t p fuel n f (stops_top t p f up) short fits (at_depth ∙ up)
              | inl e ↦
                  let deep : 0 < depth p = omega (tests, e) in
                  let round = round_lem p n f hung (IsShort-IsRedBlack t n black short) fits deep in
                  let rest =
                    delete_fixup_lem fuel round.path round.black_height round.focused round.hung
                      round.short round.fits (omega (arith, round.fewer, at_depth)) in
                  record {
                    nodes = rest.nodes;
                    root = rest.root;
                    tree = rest.tree;
                    returns = rw (goes_on_lem t p f deep black, round.returns) rest.returns;
                    standing = rest.standing;
                    balanced = rest.balanced;
                    same = rest.same ∙ round.same;
                  }
            ]
      ]
