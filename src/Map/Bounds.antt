-- ===== src/Map/Bounds.antt =====
-- `LowerBound`, `UpperBound` and `EqualRange` of driver/std/map/map.h, on the trees that a store stands
-- for.
use windows_kernel_events_tr.Prelude.{
  ℕ, zero, suc, ◌≤◌, ◌<◌, ◌≡◌, refl, ◌∙◌, ap, Bool, true, false, some, List, ◌∷◌, arith, inl, inr,
  Bool-cases, ltb, tests,
}
use windows_kernel_events_tr.Map.Nodes.{State}
use windows_kernel_events_tr.Map.Search.{
  is_less_than, is_more_than, lower_bound_loop, lower_bound, upper_bound_loop, upper_bound,
  equal_range,
}
use windows_kernel_events_tr.Map.Shape.{
  Tree, leaf, node, Context, address, entries, height, IsFocused, Represents,
}
use windows_kernel_events_tr.Map.Frames.{into_left, into_right}
use windows_kernel_events_tr.Map.Contents.{
  first_from, first_after, Below-le, first_from-Below, first_from_at, first_after-Below,
  first_after_at,
}
use windows_kernel_events_tr.Map.Relinking.{same_address}
use windows_kernel_events_tr.Map.Searches.{keys_left}

module _ {V : Type 0} where
  first_from_skip :
      (d k a j : ℕ) (v : V) (xs : List (ℕ × ℕ × V))
      → ltb j k ≡ true
      → first_from d k ((a, j, v) ∷ xs) ≡ first_from d k xs
  unfolding first_from
  first_from_skip d k a j v xs h = rw (h) refl

  first_after_skip :
      (d k a j : ℕ) (v : V) (xs : List (ℕ × ℕ × V))
      → ltb k j ≡ false
      → first_after d k ((a, j, v) ∷ xs) ≡ first_after d k xs
  unfolding first_after
  first_after_skip d k a j v xs h = rw (h) refl

  is_less_than_lem :
      {s : State V} {l r : Tree V} {a j : ℕ} {v : V} {c : Bool} {p : Context V} (k : ℕ)
      → IsFocused s (node l a j v c r) p
      → is_less_than a k s ≡ some (ltb j k)
  unfolding is_less_than
  is_less_than_lem k f = rw (f.focus.0.0) refl

  is_more_than_lem :
      {s : State V} {l r : Tree V} {a j : ℕ} {v : V} {c : Bool} {p : Context V} (k : ℕ)
      → IsFocused s (node l a j v c r) p
      → is_more_than a k s ≡ some (ltb k j)
  unfolding is_more_than
  is_more_than_lem k f = rw (f.focus.0.0) refl

  lower_bound_loop_lem :
      (fuel : ℕ) {s : State V} {t : Tree V} {p : Context V} (k d : ℕ)
      → IsFocused s t p
      → height t < fuel
      → lower_bound_loop fuel k (address s.nil t) d s ≡ some (first_from d k (entries t))
  unfolding lower_bound_loop first_from
  lower_bound_loop_lem zero k d f enough = absurd (omega arith)
  lower_bound_loop_lem (suc fuel) {s} {t = leaf} k d f enough =
      rw (lower_bound_loop, same_address s.nil, first_from) refl
  lower_bound_loop_lem (suc fuel) {s} {t = node l a j v c r} {p} k d f enough =
      elim (Bool-cases (ltb j k)) [
        | inr e ↦
            rw
              (
                lower_bound_loop,
                f.focus.0.1,
                is_less_than_lem k f ∙ ap some e,
                f.focus.0.0,
                first_from_at d k a j v (entries l) (entries r) e,
              )
              (lower_bound_loop_lem fuel k a (into_left f) (omega arith))
        | inl e ↦
            rw
              (
                lower_bound_loop,
                f.focus.0.1,
                is_less_than_lem k f ∙ ap some e,
                f.focus.0.0,
                first_from-Below d k (entries l) ((a, j, v) ∷ entries r)
                    (keys_left k f (omega (tests, e))),
                first_from_skip d k a j v (entries r) e,
              )
              (lower_bound_loop_lem fuel k d (into_right f) (omega arith))
      ]

  upper_bound_loop_lem :
      (fuel : ℕ) {s : State V} {t : Tree V} {p : Context V} (k d : ℕ)
      → IsFocused s t p
      → height t < fuel
      → upper_bound_loop fuel k (address s.nil t) d s ≡ some (first_after d k (entries t))
  unfolding upper_bound_loop first_after
  upper_bound_loop_lem zero k d f enough = absurd (omega arith)
  upper_bound_loop_lem (suc fuel) {s} {t = leaf} k d f enough =
      rw (upper_bound_loop, same_address s.nil, first_after) refl
  upper_bound_loop_lem (suc fuel) {s} {t = node l a j v c r} {p} k d f enough =
      elim (Bool-cases (ltb k j)) [
        | inl e ↦
            rw
              (
                upper_bound_loop,
                f.focus.0.1,
                is_more_than_lem k f ∙ ap some e,
                f.focus.0.0,
                first_after_at d k a j v (entries l) (entries r) e,
              )
              (upper_bound_loop_lem fuel k a (into_left f) (omega arith))
        | inr e ↦
            let j_le : j ≤ k = ground arith in
            rw
              (
                upper_bound_loop,
                f.focus.0.1,
                is_more_than_lem k f ∙ ap some e,
                f.focus.0.0,
                first_after-Below d k (entries l) ((a, j, v) ∷ entries r)
                    (Below-le k (suc k) (entries l) (omega arith) (keys_left k f j_le)),
                first_after_skip d k a j v (entries r) e,
              )
              (upper_bound_loop_lem fuel k d (into_right f) (omega arith))
      ]

  -- With more rounds than the tree is high, `EqualRange` returns the first node in the order of the keys
  -- whose key is not below `k`, and the first whose key is above it, or `End()` where there is none.
  pub equal_range_lem :
      (fuel : ℕ) {s : State V} {t : Tree V} (k : ℕ)
      → Represents s t
      → height t < fuel
      → equal_range fuel k s
        ≡ some (first_from s.nil k (entries t), first_after s.nil k (entries t))
  unfolding equal_range lower_bound upper_bound
  equal_range_lem fuel {s} {t} k f enough =
      let lower : lower_bound_loop fuel k s.root s.nil s ≡ some (first_from s.nil k (entries t)) =
        ap (λ q. lower_bound_loop fuel k q s.nil s) f.rooted
        ∙ lower_bound_loop_lem fuel k s.nil f enough in
      let upper : upper_bound_loop fuel k s.root s.nil s ≡ some (first_after s.nil k (entries t)) =
        ap (λ q. upper_bound_loop fuel k q s.nil s) f.rooted
        ∙ upper_bound_loop_lem fuel k s.nil f enough in
      rw (lower, upper) refl
