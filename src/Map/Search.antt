-- ===== src/Map/Search.antt =====
-- driver/std/map/map.h: `Find`, `Count`, `LowerBound`, `UpperBound`, `EqualRange`, `Minimum`,
-- `Maximum`, `Successor`, `Predecessor` and the steps of an iterator. A loop takes the number of
-- rounds it may run; more are a fault.
use windows_kernel_events_tr.Prelude.{
  ℕ, zero, suc, Bool, true, false, Option, none, some, ◌>>=◌, if◌then◌else◌, ◌==◌, ltb,
}
use windows_kernel_events_tr.Map.Nodes.{State, left, right, parent, key}

module _ {V : Type 0} where
  -- The child that a search for `k` goes on to from the node `p`, by `compare_(k, p->data.first)` and
  -- then `compare_(p->data.first, k)`; there is none where the key is `k`.
  unfoldable pub toward : ℕ → ℕ → State V → Option (Option ℕ)
  toward k p s = key p s >>= λ j.
      if ltb k j
      then (left p s >>= λ c. some (some c))
      else if ltb j k
      then (right p s >>= λ c. some (some c))
      else some none

  -- The loop of `Find`.
  unfoldable pub find_loop : ℕ → ℕ → ℕ → State V → Option ℕ
  find_loop zero k current s = none
  find_loop (suc n) k current s = elim (current == s.nil) [
    | true ↦ some s.nil
    | false ↦ toward k current s >>= λ step. elim step [
      | some c ↦ find_loop n k c s
      | none ↦ some current
    ]
  ]

  -- An iterator is the address of its node, `End()` that of the sentinel.
  unfoldable pub find : ℕ → ℕ → State V → Option ℕ
  find n k s = find_loop n k s.root s

  unfoldable pub count : ℕ → ℕ → State V → Option ℕ
  count n k s = find n k s >>= λ p. some (if p == s.nil then 0 else 1)

  -- `compare_(p->data.first, k)` and `compare_(k, p->data.first)`
  unfoldable pub is_less_than : ℕ → ℕ → State V → Option Bool
  is_less_than p k s = key p s >>= λ j. some (ltb j k)

  unfoldable pub is_more_than : ℕ → ℕ → State V → Option Bool
  is_more_than p k s = key p s >>= λ j. some (ltb k j)

  -- The loops of `LowerBound` and `UpperBound`, with the last node that qualified.
  unfoldable pub lower_bound_loop : ℕ → ℕ → ℕ → ℕ → State V → Option ℕ
  lower_bound_loop zero k current result s = none
  lower_bound_loop (suc n) k current result s = elim (current == s.nil) [
    | true ↦ some result
    | false ↦ is_less_than current k s >>= λ less. elim less [
      | false ↦ left current s >>= λ c. lower_bound_loop n k c current s
      | true ↦ right current s >>= λ c. lower_bound_loop n k c result s
    ]
  ]

  unfoldable pub lower_bound : ℕ → ℕ → State V → Option ℕ
  lower_bound n k s = lower_bound_loop n k s.root s.nil s

  unfoldable pub upper_bound_loop : ℕ → ℕ → ℕ → ℕ → State V → Option ℕ
  upper_bound_loop zero k current result s = none
  upper_bound_loop (suc n) k current result s = elim (current == s.nil) [
    | true ↦ some result
    | false ↦ is_more_than current k s >>= λ more. elim more [
      | true ↦ left current s >>= λ c. upper_bound_loop n k c current s
      | false ↦ right current s >>= λ c. upper_bound_loop n k c result s
    ]
  ]

  unfoldable pub upper_bound : ℕ → ℕ → State V → Option ℕ
  upper_bound n k s = upper_bound_loop n k s.root s.nil s

  unfoldable pub equal_range : ℕ → ℕ → State V → Option (ℕ × ℕ)
  equal_range n k s =
      lower_bound n k s >>= λ first. upper_bound n k s >>= λ last. some (first, last)

  unfoldable pub minimum : ℕ → ℕ → State V → Option ℕ
  minimum zero p s = none
  minimum (suc n) p s =
      left p s >>= λ c. let rest = minimum n c s in if c == s.nil then some p else rest

  unfoldable pub maximum : ℕ → ℕ → State V → Option ℕ
  maximum zero p s = none
  maximum (suc n) p s =
      right p s >>= λ c. let rest = maximum n c s in if c == s.nil then some p else rest

  -- The climbs of `Successor` and `Predecessor`: up while the node is the right, the left child.
  unfoldable pub climb_right : ℕ → ℕ → ℕ → State V → Option ℕ
  climb_right zero p y s = none
  climb_right (suc n) p y s = elim (y == s.nil) [
    | true ↦ some y
    | false ↦ right y s >>= λ c.
        let rest = parent y s >>= λ q. climb_right n y q s in if p == c then rest else some y
  ]

  unfoldable pub climb_left : ℕ → ℕ → ℕ → State V → Option ℕ
  climb_left zero p y s = none
  climb_left (suc n) p y s = elim (y == s.nil) [
    | true ↦ some y
    | false ↦ left y s >>= λ c.
        let rest = parent y s >>= λ q. climb_left n y q s in if p == c then rest else some y
  ]

  unfoldable pub successor : ℕ → ℕ → State V → Option ℕ
  successor n p s = right p s >>= λ c.
      if c == s.nil then (parent p s >>= λ y. climb_right n p y s) else minimum n c s

  unfoldable pub predecessor : ℕ → ℕ → State V → Option ℕ
  predecessor n p s = left p s >>= λ c.
      if c == s.nil then (parent p s >>= λ y. climb_left n p y s) else maximum n c s

  -- `Begin()`, `++it` and `--it`
  unfoldable pub begin : ℕ → State V → Option ℕ
  begin n s = minimum n s.root s

  unfoldable pub advance : ℕ → ℕ → State V → Option ℕ
  advance n p s = if p == s.nil then some p else successor n p s

  unfoldable pub retreat : ℕ → ℕ → State V → Option ℕ
  retreat n p s = if p == s.nil then maximum n s.root s else predecessor n p s
