-- ===== src/Map/Rotation.antt =====
-- driver/std/map/map.h: `LeftRotate`, `RightRotate` and `Transplant`.
use windows_kernel_events_tr.Prelude.{ℕ, Option, some, ◌>>=◌, if◌then◌else◌, ◌==◌}
use windows_kernel_events_tr.Map.Nodes.{
  State, left, right, parent, write, with_left, with_right, with_parent,
}

module _ {V : Type 0} where
  -- The three-way test of both rotations and of `Transplant`: the pointer that leads to `x` from
  -- above leads to `y` from now on.
  unfoldable pub relink : ℕ → ℕ → State V → Option (State V)
  relink x y s = do
    p ← parent x s
    if p == s.nil
        then some (record s { root = y })
        else (left p s >>= λ c.
            if x == c then write p (with_left y) s else write p (with_right y) s)

  unfoldable pub left_rotate : ℕ → State V → Option (State V)
  left_rotate x s = do
    y ← right x s
    b ← left y s
    s ← write x (with_right b) s
    b ← left y s
    s ← if b == s.nil then some s else write b (with_parent x) s
    p ← parent x s
    s ← write y (with_parent p) s
    s ← relink x y s
    s ← write y (with_left x) s
    write x (with_parent y) s

  unfoldable pub right_rotate : ℕ → State V → Option (State V)
  right_rotate y s = do
    x ← left y s
    b ← right x s
    s ← write y (with_left b) s
    b ← right x s
    s ← if b == s.nil then some s else write b (with_parent y) s
    p ← parent y s
    s ← write x (with_parent p) s
    s ← relink y x s
    s ← write x (with_right y) s
    write y (with_parent x) s

  unfoldable pub transplant : ℕ → ℕ → State V → Option (State V)
  transplant u v s = do s ← relink u v s; p ← parent u s; write v (with_parent p) s
