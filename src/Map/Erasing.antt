-- ===== src/Map/Erasing.antt =====
-- `Erase` of driver/std/map/map.h as a whole, on the bindings in the order of the keys.
use windows_kernel_events_tr.Prelude.{
  ℕ, ◌+◌, ◌-◌, ◌%◌, ◌^◌, ◌≤◌, ◌<◌, ◌≡◌, ◌≢◌, refl, sym, ◌∙◌, ap, Bool, true, false, Option, some,
  List, ◌∷◌, ◌++◌, arith, inl, inr, length, length-append, subst,
}
use windows_kernel_events_tr.Prelude.Maps.{remove}
use windows_kernel_events_tr.Map.Nodes.{State, delete_node}
use windows_kernel_events_tr.Map.Removal.{erase_at}
use windows_kernel_events_tr.Map.Shape.{
  Tree, node, Context, top, left_of, right_of, address, plug, entries, height, depth, IsFocused,
}
use windows_kernel_events_tr.Map.Colours.{
  is_red_tree, IsRedBlack, FitsRedBlack, Meets, descend_left, descend_right, append_assoc,
}
use windows_kernel_events_tr.Map.Deficits.{to_top, steps, steps_within}
use windows_kernel_events_tr.Map.Fixups.{rebuilt}
use windows_kernel_events_tr.Map.Contents.{before, after}
use windows_kernel_events_tr.Map.Placing.{IsMap, resized}
use windows_kernel_events_tr.Map.Lookups.{rounds, enough_rounds}
use windows_kernel_events_tr.Map.Iteration.{IsAt-node}
use windows_kernel_events_tr.Map.Sunk.{delete_fixup_lem}
use windows_kernel_events_tr.Map.Unlinked.{unlink_lem}

true-false : true ≢ false
true-false e = cc

module _ {V : Type 0} where
  -- The conditions on a tree, seen from one of its subtrees.
  unplug :
      (p : Context V) (t : Tree V) (n : ℕ)
      → IsRedBlack (plug t p) n
      → Meets (plug t p) top
      → (m : ℕ) × IsRedBlack t m × FitsRedBlack p m × Meets t p
  unplug top t n rb meets = (n, rb, tt, meets)
  unplug (left_of a k v c r up) t n rb meets =
      let (m, rb', fits, below) = unplug up (node t a k v c r) n rb meets in
      descend_left t r a k v c up m rb' fits below
  unplug (right_of l a k v c up) t n rb meets =
      let (m, rb', fits, below) = unplug up (node l a k v c t) n rb meets in
      descend_right l t a k v c up m rb' fits below

  height-plug : (p : Context V) (t : Tree V) → height t + depth p ≤ height (plug t p)
  height-plug top t = omega arith
  height-plug (left_of a k v c r up) t = omega (arith, height-plug up (node t a k v c r))
  height-plug (right_of l a k v c up) t = omega (arith, height-plug up (node l a k v c t))

  -- One node fewer is counted, on 64 bits.
  size_before :
      (n : ℕ) (xs ys : List (ℕ × ℕ × V)) (x : ℕ × ℕ × V)
      → n ≡ length (xs ++ (x ∷ ys)) % 2 ^ 64
      → (n + 2 ^ 64 - 1) % 2 ^ 64 ≡ length (xs ++ ys) % 2 ^ 64
  size_before n xs ys x e = omega (arith, e, length-append xs ys, length-append xs (x ∷ ys))

  -- The binding is gone, and what is left is a map.
  pub record IsErased (s : State V) (left_over : List (ℕ × ℕ × V)) (out : Option (ℕ × State V))
      : Type 0 where
    pub result : ℕ
    pub state : State V
    pub tree : Tree V
    pub returns : out ≡ some (result, state)
    pub is_map : IsMap state tree
    pub same_nil : state.nil ≡ s.nil
    pub contents : entries tree ≡ left_over

  few_steps : (t : Tree V) (p : Context V) → steps t p ≤ depth p
  few_steps t p = omega (arith, steps_within (is_red_tree t) (depth p))

  IsErased-node :
      {s : State V} (l r : Tree V) {z k : ℕ} {v : V} {c : Bool} {p : Context V} (m fuel : ℕ)
      (rest : List (ℕ × ℕ × V))
      → IsFocused s (node l z k v c r) p
      → IsRedBlack (node l z k v c r) m
      → FitsRedBlack p m
      → Meets (node l z k v c r) p
      → height (node l z k v c r) + depth p < fuel
      → before p ++ (entries l ++ (entries r ++ after p)) ≡ rest
      → (s.size + 2 ^ 64 - 1) % 2 ^ 64 ≡ length rest % 2 ^ 64
      → IsErased s rest (erase_at fuel z s)
  unfolding erase_at delete_node
  IsErased-node {s} l r {z} {k} {v} {c} {p} m fuel rest f rb fits meets enough split counted =
      let u = unlink_lem l r m fuel f rb fits meets enough in
      let size = (s.size + 2 ^ 64 - 1) % 2 ^ 64 in
      let fewer = resized size u.focused in
      let s2 : State V = record s { nodes = remove z u.nodes; root = u.root; size = size } in
      elim u.colours [
        | inl (lost, balanced) ↦
            let all = u.rest ∙ split in
            record {
              result = address s.nil u.x;
              state = s2;
              tree = plug u.x u.path;
              returns = rw (f.focus.0.1, u.returns, lost) refl;
              is_map = record {
                standing = to_top u.path fewer;
                balanced = balanced;
                sized = counted ∙ ap (λ q. length q % 2 ^ 64) (sym all);
              };
              same_nil = refl;
              contents = all;
            }
        | inr (lost, short, fits') ↦
            let mended =
              delete_fixup_lem fuel u.path u.black_height fewer u.hung short fits'
                (omega (arith, u.shallow, few_steps u.x u.path)) in
            let all = mended.same ∙ (u.rest ∙ split) in
            record {
              result = address s.nil u.x;
              state = rebuilt s2 mended.nodes mended.root;
              tree = mended.tree;
              returns = rw (f.focus.0.1, u.returns, lost, mended.returns) refl;
              is_map = record {
                standing = mended.standing;
                balanced = mended.balanced;
                sized = counted ∙ ap (λ q. length q % 2 ^ 64) (sym all);
              };
              same_nil = refl;
              contents = all;
            }
      ]

  -- `Erase(position)`, of a binding anywhere in a map of fewer than 2^64 nodes, returns within 130 rounds
  -- with a map of the bindings before and after it: a red-black tree with its nodes counted.
  pub erase_at_lem :
      {s : State V} {t : Tree V} (xs ys : List (ℕ × ℕ × V)) (a k : ℕ) (v : V)
      → IsMap s t
      → length (entries t) < 2 ^ 64
      → entries t ≡ xs ++ ((a, k, v) ∷ ys)
      → IsErased s (xs ++ ys) (erase_at rounds a s)
  erase_at_lem {s} {t} xs ys a k v m few e =
      let at = IsAt-node xs ys (a, k, v) m few e in
      let (b, rb, fits, meets) =
        unplug at.path (node at.l a k v at.c at.r) m.balanced.1
          (subst (λ q. IsRedBlack q m.balanced.1) (sym at.whole) m.balanced.2)
          (λ red. absurd (true-false (sym red ∙ (ap is_red_tree at.whole ∙ m.balanced.0)))) in
      IsErased-node at.l at.r b rounds (xs ++ ys) at.focused rb fits meets
        (omega (
          arith,
          height-plug at.path (node at.l a k v at.c at.r),
          ap height at.whole,
          enough_rounds m few,
        ))
        (sym (append_assoc (before at.path) (entries at.l) (entries at.r ++ after at.path))
          ∙ (ap (λ q. q ++ (entries at.r ++ after at.path)) at.on_left
              ∙ ap (λ q. xs ++ q) at.on_right))
        (size_before s.size xs ys (a, k, v) (m.sized ∙ ap (λ q. length q % 2 ^ 64) e))
