-- ===== src/Map/Steps.antt =====
-- `Begin`, `++it` and `--it` of driver/std/map/map.h, on the bindings in the order of the keys.
use windows_kernel_events_tr.Prelude.{
  ℕ, zero, suc, ◌≤◌, ◌<◌, ◌≡◌, refl, sym, ◌∙◌, ap, Bool, some, List, [], ◌∷◌, ◌++◌, arith,
}
use windows_kernel_events_tr.Map.Nodes.{State}
use windows_kernel_events_tr.Map.Search.{
  minimum, maximum, climb_right, climb_left, successor, predecessor,
}
use windows_kernel_events_tr.Map.Shape.{
  Tree, leaf, node, Context, top, left_of, right_of, above, entries, height, depth, IsFocused,
}
use windows_kernel_events_tr.Map.Frames.{into_left, into_right, from_left, from_right}
use windows_kernel_events_tr.Map.Contents.{before, after, append_nil}
use windows_kernel_events_tr.Map.Colours.{append_assoc}
use windows_kernel_events_tr.Map.Fixups.{left_node_apart, right_node_apart}
use windows_kernel_events_tr.Map.Relinking.{same_address}

module _ {V : Type 0} where
  abbrev pub first_of : ℕ → List (ℕ × ℕ × V) → ℕ
  first_of d [] = d
  first_of d ((a, k, v) ∷ xs) = a

  abbrev pub last_of : ℕ → List (ℕ × ℕ × V) → ℕ
  last_of d [] = d
  last_of d ((a, k, v) ∷ xs) = last_of a xs

  first_of-append :
      (d e : ℕ) (l r : Tree V) (a k : ℕ) (v : V) (c : Bool) (ys : List (ℕ × ℕ × V))
      → first_of d (entries (node l a k v c r) ++ ys) ≡ first_of e (entries (node l a k v c r))
  first_of-append d e leaf r a k v c ys = refl
  first_of-append d e (node ll b j w c' lr) r a k v c ys =
      rw (append_assoc (entries (node ll b j w c' lr)) ((a, k, v) ∷ entries r) ys) (
        first_of-append d e ll lr b j w c' ((a, k, v) ∷ (entries r ++ ys))
        ∙ sym (first_of-append e e ll lr b j w c' ((a, k, v) ∷ entries r)))

  pub last_of-cons :
      (d a k : ℕ) (v : V) (xs ys : List (ℕ × ℕ × V))
      → last_of d (xs ++ ((a, k, v) ∷ ys)) ≡ last_of a ys
  last_of-cons d a k v [] ys = refl
  last_of-cons d a k v ((b, j, w) ∷ xs) ys = last_of-cons b a k v xs ys

  last_of-behind :
      (d e : ℕ) (xs : List (ℕ × ℕ × V)) (l r : Tree V) (a k : ℕ) (v : V) (c : Bool)
      → last_of d (xs ++ entries (node l a k v c r)) ≡ last_of e (entries (node l a k v c r))
  last_of-behind d e xs l r a k v c = rw⁻¹ (append_assoc xs (entries l) ((a, k, v) ∷ entries r)) (
      last_of-cons d a k v (xs ++ entries l) (entries r)
      ∙ sym (last_of-cons e a k v (entries l) (entries r)))

  -- `Minimum` and `Maximum` of a subtree that is not empty.
  pub minimum_lem :
      (fuel : ℕ) {s : State V} {l r : Tree V} {a k : ℕ} {v : V} {c : Bool} {p : Context V} (d : ℕ)
      → IsFocused s (node l a k v c r) p
      → height l < fuel
      → minimum fuel a s ≡ some (first_of d (entries (node l a k v c r)))
  unfolding minimum
  minimum_lem zero d f enough = absurd (omega arith)
  minimum_lem (suc fuel) {s} {l = leaf} d f enough =
      rw (minimum, f.focus.0.0, same_address s.nil) refl
  minimum_lem (suc fuel) {s} {l = node ll b j w c' lr} {r} {a} {k} {v} d f enough =
      rw (minimum, f.focus.0.0, f.focus.3.0.1)
        (minimum_lem fuel d (into_left f) (omega arith)
          ∙ ap some (sym (first_of-append d d ll lr b j w c' ((a, k, v) ∷ entries r))))

  -- The climb from a right child ends at the first node to the right of the subtree.
  climb_right_lem :
      (fuel : ℕ) {s : State V} {l r : Tree V} {a k : ℕ} {v : V} {c : Bool} (p : Context V)
      → IsFocused s (node l a k v c r) p
      → depth p < fuel
      → climb_right fuel a (above s.nil p) s ≡ some (first_of s.nil (after p))
  unfolding climb_right
  climb_right_lem zero p f enough = absurd (omega arith)
  climb_right_lem (suc fuel) {s} top f enough = rw (climb_right, same_address s.nil) refl
  climb_right_lem (suc fuel) {s} (left_of b j w d u up) f enough =
      rw (climb_right, f.around.0.1, f.around.0.0, left_node_apart (from_left f)) refl
  climb_right_lem (suc fuel) {s} {a = a} (right_of u b j w d up) f enough =
      rw (climb_right, f.around.0.1, f.around.0.0, same_address a)
        (climb_right_lem fuel up (from_right f) (omega arith))

  -- `++it` at a node moves to the next one in the order of the keys, or to the end.
  pub successor_lem :
      (fuel : ℕ) {s : State V} {l r : Tree V} {a k : ℕ} {v : V} {c : Bool} {p : Context V}
      → IsFocused s (node l a k v c r) p
      → height r ≤ fuel
      → depth p < fuel
      → successor fuel a s ≡ some (first_of s.nil (entries r ++ after p))
  unfolding successor
  successor_lem fuel {s} {r = leaf} {p = p} f high_enough enough =
      rw (f.focus.0.0, same_address s.nil) (climb_right_lem fuel p f enough)
  successor_lem fuel {s} {r = node rl b j w d rr} {p = p} f high_enough enough =
      rw (f.focus.0.0, f.focus.4.0.1)
        (minimum_lem fuel s.nil (into_right f) (omega arith)
          ∙ ap some (sym (first_of-append s.nil s.nil rl rr b j w d (after p))))

  pub maximum_lem :
      (fuel : ℕ) {s : State V} {l r : Tree V} {a k : ℕ} {v : V} {c : Bool} {p : Context V} (d : ℕ)
      → IsFocused s (node l a k v c r) p
      → height r < fuel
      → maximum fuel a s ≡ some (last_of d (entries (node l a k v c r)))
  unfolding maximum
  maximum_lem zero d f enough = absurd (omega arith)
  maximum_lem (suc fuel) {s} {l} {r = leaf} {a} {k} {v} d f enough =
      rw (maximum, f.focus.0.0, same_address s.nil)
        (ap some (sym (last_of-cons d a k v (entries l) [])))
  maximum_lem (suc fuel) {s} {l} {r = node rl b j w c' rr} {a} {k} {v} d f enough =
      rw (maximum, f.focus.0.0, f.focus.4.0.1)
        (maximum_lem fuel a (into_right f) (omega arith)
          ∙ ap some (sym (last_of-cons d a k v (entries l) (entries (node rl b j w c' rr)))))

  climb_left_lem :
      (fuel : ℕ) {s : State V} {l r : Tree V} {a k : ℕ} {v : V} {c : Bool} (p : Context V)
      → IsFocused s (node l a k v c r) p
      → depth p < fuel
      → climb_left fuel a (above s.nil p) s ≡ some (last_of s.nil (before p))
  unfolding climb_left
  climb_left_lem zero p f enough = absurd (omega arith)
  climb_left_lem (suc fuel) {s} top f enough = rw (climb_left, same_address s.nil) refl
  climb_left_lem (suc fuel) {s} (right_of u b j w d up) f enough =
      rw (climb_left, f.around.0.1, f.around.0.0, right_node_apart (from_right f))
        (ap some (
          sym (
            rw⁻¹ (append_assoc (before up) (entries u) ((b, j, w) ∷ []))
              (last_of-cons s.nil b j w (before up ++ entries u) []))))
  climb_left_lem (suc fuel) {s} {a = a} (left_of b j w d u up) f enough =
      rw (climb_left, f.around.0.1, f.around.0.0, same_address a)
        (climb_left_lem fuel up (from_left f) (omega arith))

  pub predecessor_lem :
      (fuel : ℕ) {s : State V} {l r : Tree V} {a k : ℕ} {v : V} {c : Bool} {p : Context V}
      → IsFocused s (node l a k v c r) p
      → height l ≤ fuel
      → depth p < fuel
      → predecessor fuel a s ≡ some (last_of s.nil (before p ++ entries l))
  unfolding predecessor
  predecessor_lem fuel {s} {l = leaf} {p = p} f high_enough enough =
      rw (f.focus.0.0, same_address s.nil, append_nil (before p)) (climb_left_lem fuel p f enough)
  predecessor_lem fuel {s} {l = node ll b j w d lr} {p = p} f high_enough enough =
      rw (f.focus.0.0, f.focus.3.0.1)
        (maximum_lem fuel s.nil (into_left f) (omega arith)
          ∙ ap some (sym (last_of-behind s.nil s.nil (before p) ll lr b j w d)))
