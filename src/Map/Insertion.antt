-- ===== src/Map/Insertion.antt =====
-- driver/std/map/map.h: `Insert`, `operator[]` and `InsertFixup`.
use windows_kernel_events_tr.Prelude.{
  ℕ, zero, suc, ◌+◌, ◌%◌, ◌^◌, Bool, true, false, Option, none, some, ◌>>=◌, if◌then◌else◌, ◌==◌,
  ltb,
}
use windows_kernel_events_tr.Map.Nodes.{
  State, left, right, parent, is_red, key, write, with_left, with_right, with_parent, painted,
  new_node, delete_node,
}
use windows_kernel_events_tr.Map.Search.{toward}
use windows_kernel_events_tr.Map.Rotation.{left_rotate, right_rotate}

module _ {V : Type 0} where
  -- A red uncle `y`: parent and uncle turn black, the grandparent red, and the loop goes on there.
  unfoldable pub recolour : ℕ → ℕ → State V → Option (ℕ × State V)
  recolour z y s = do
    p ← parent z s
    s ← write p (painted false) s
    s ← write y (painted false) s
    p ← parent z s
    g ← parent p s
    s ← write g (painted true) s
    some (g, s)

  -- The last three statements of a round, for a left parent and for a right one: the parent turns
  -- black, the grandparent red, and the one is rotated over the other.
  unfoldable pub raise_rightwards : ℕ → State V → Option (State V)
  raise_rightwards z s = do
    p ← parent z s
    s ← write p (painted false) s
    p ← parent z s
    g ← parent p s
    s ← write g (painted true) s
    p ← parent z s
    g ← parent p s
    right_rotate g s

  unfoldable pub raise_leftwards : ℕ → State V → Option (State V)
  raise_leftwards z s = do
    p ← parent z s
    s ← write p (painted false) s
    p ← parent z s
    g ← parent p s
    s ← write g (painted true) s
    p ← parent z s
    g ← parent p s
    left_rotate g s

  -- A black uncle to the right of the parent: an inner node `z` is first turned into an outer one.
  unfoldable pub rotate_rightwards : ℕ → State V → Option (ℕ × State V)
  rotate_rightwards z s = do
    p ← parent z s
    c ← right p s
    if z == c
        then (left_rotate p s >>= λ s'. raise_rightwards p s' >>= λ s''. some (p, s''))
        else (raise_rightwards z s >>= λ s'. some (z, s'))

  -- A black uncle to the left of the parent.
  unfoldable pub rotate_leftwards : ℕ → State V → Option (ℕ × State V)
  rotate_leftwards z s = do
    p ← parent z s
    c ← left p s
    if z == c
        then (right_rotate p s >>= λ s'. raise_leftwards p s' >>= λ s''. some (p, s''))
        else (raise_leftwards z s >>= λ s'. some (z, s'))

  -- One round of the loop of `InsertFixup`.
  unfoldable pub insert_round : ℕ → State V → Option (ℕ × State V)
  insert_round z s = do
    p ← parent z s
    g ← parent p s
    c ← left g s
    if p == c
        then (do y ← right g s; r ← is_red y s; if r then recolour z y s else rotate_rightwards z s)
        else (do y ← left g s; r ← is_red y s; if r then recolour z y s else rotate_leftwards z s)

  unfoldable pub insert_fixup : ℕ → ℕ → State V → Option (State V)
  insert_fixup zero z s = none
  insert_fixup (suc n) z s = do
    p ← parent z s
    r ← is_red p s
    elim r [
      | false ↦ write s.root (painted false) s
      | true ↦ do (z, s) ← insert_round z s; insert_fixup n z s
    ]

  -- The descent of `Insert` and `operator[]` from `x` with `y` above it: the node that has the key,
  -- or the node to hang a new one under.
  unfoldable pub descend : ℕ → ℕ → ℕ → ℕ → State V → Option (Bool × ℕ)
  descend zero k x y s = none
  descend (suc n) k x y s = elim (x == s.nil) [
    | true ↦ some (false, y)
    | false ↦
        toward k x s >>= λ step. elim step [ some c ↦ descend n k c x s | none ↦ some (true, x) ]
  ]

  -- The pointer to the new node `z`: `root_`, or a child of `y`.
  unfoldable pub hang : ℕ → ℕ → State V → Option (State V)
  hang z y s = if y == s.nil then some (record s { root = z }) else (do
    k ← key z s
    j ← key y s
    if ltb k j then write y (with_left z) s else write y (with_right z) s)

  -- The new node `z` hung under `y`.
  unfoldable pub attach : ℕ → ℕ → State V → Option (State V)
  attach z y s = do
    s ← write z (with_parent y) s
    s ← hang z y s
    s ← write z (with_left s.nil) s
    s ← write z (with_right s.nil) s
    write z (painted true) s

  -- `InsertFixup(z); ++size_`
  unfoldable pub settle : ℕ → ℕ → State V → Option (State V)
  settle n z s = do s ← insert_fixup n z s; some (record s { size = (s.size + 1) % 2 ^ 64 })

  -- The node of the key, and whether it is new.
  unfoldable pub insert : ℕ → ℕ → V → State V → Option ((ℕ × Bool) × State V)
  insert n k v s =
      let (z, s) = new_node k v s in
      descend n k s.root s.nil s >>= λ r.
      if r.0
      then some ((r.1, false), delete_node z s)
      else attach z r.1 s >>= λ s. settle n z s >>= λ s. some ((z, true), s)

  -- `map[key]`: the address of the node whose value is referred to.
  unfoldable pub access : ℕ → V → ℕ → State V → Option (ℕ × State V)
  access n blank k s = descend n k s.root s.nil s >>= λ r.
      if r.0
      then some (r.1, s)
      else let (z, s) = new_node k blank s in
        attach z r.1 s >>= λ s. settle n z s >>= λ s. some (z, s)
