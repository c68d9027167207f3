-- ===== src/Map/Removal.antt =====
-- driver/std/map/map.h: `Erase`, `DeleteFixup`, `Clear`, `Swap`, and the copying of a map.
use windows_kernel_events_tr.Prelude.{
  ℕ, zero, suc, ◌+◌, ◌-◌, ◌%◌, ◌^◌, Bool, true, false, not, Option, none, some, ◌>>=◌,
  if◌then◌else◌, ◌==◌,
}
use windows_kernel_events_tr.Map.Nodes.{
  State, null, left, right, parent, is_red, write, with_left, with_right, with_parent, painted,
  new_node, delete_node,
}
use windows_kernel_events_tr.Map.Search.{find, minimum}
use windows_kernel_events_tr.Map.Rotation.{left_rotate, right_rotate, transplant}

module _ {V : Type 0} where
  -- The first statements of a round of `DeleteFixup`: a red sibling `w` is rotated away.
  unfoldable pub black_sibling_right : ℕ → State V → Option (ℕ × State V)
  black_sibling_right x s = do
    p ← parent x s
    w ← right p s
    r ← is_red w s
    if r
        then (do
          s ← write w (painted false) s
          p ← parent x s
          s ← write p (painted true) s
          p ← parent x s
          s ← left_rotate p s
          p ← parent x s
          w ← right p s
          some (w, s))
        else some (w, s)

  unfoldable pub black_sibling_left : ℕ → State V → Option (ℕ × State V)
  black_sibling_left x s = do
    p ← parent x s
    w ← left p s
    r ← is_red w s
    if r
        then (do
          s ← write w (painted false) s
          p ← parent x s
          s ← write p (painted true) s
          p ← parent x s
          s ← right_rotate p s
          p ← parent x s
          w ← left p s
          some (w, s))
        else some (w, s)

  -- The last statements of a round, where `w` has a red child: it is brought to the far side, and
  -- `w` is rotated over the parent.
  unfoldable pub finish_left : ℕ → ℕ → State V → Option (ℕ × State V)
  finish_left x w s = do
    b ← right w s
    r ← is_red b s
    (w, s) ←
        (if r then some (w, s) else (do
          a ← left w s
          s ← write a (painted false) s
          s ← write w (painted true) s
          s ← right_rotate w s
          p ← parent x s
          w ← right p s
          some (w, s)))
    p ← parent x s
    c ← is_red p s
    s ← write w (painted c) s
    p ← parent x s
    s ← write p (painted false) s
    b ← right w s
    s ← write b (painted false) s
    p ← parent x s
    s ← left_rotate p s
    some (s.root, s)

  unfoldable pub finish_right : ℕ → ℕ → State V → Option (ℕ × State V)
  finish_right x w s = do
    a ← left w s
    r ← is_red a s
    (w, s) ←
        (if r then some (w, s) else (do
          b ← right w s
          s ← write b (painted false) s
          s ← write w (painted true) s
          s ← left_rotate w s
          p ← parent x s
          w ← left p s
          some (w, s)))
    p ← parent x s
    c ← is_red p s
    s ← write w (painted c) s
    p ← parent x s
    s ← write p (painted false) s
    a ← left w s
    s ← write a (painted false) s
    p ← parent x s
    s ← right_rotate p s
    some (s.root, s)

  -- Both children of `w` are black; the second is read only if the first is.
  unfoldable pub has_black_children : ℕ → State V → Option Bool
  has_black_children w s = do
    a ← left w s
    c ← is_red a s
    if c then some false else (do b ← right w s; d ← is_red b s; some (not d))

  -- One round of the loop of `DeleteFixup`.
  unfoldable pub delete_round : ℕ → State V → Option (ℕ × State V)
  delete_round x s = do
    p ← parent x s
    c ← left p s
    if x == c
        then (do
          (w, s) ← black_sibling_right x s
          black ← has_black_children w s
          if black
              then (do s ← write w (painted true) s; p ← parent x s; some (p, s))
              else finish_left x w s)
        else (do
          (w, s) ← black_sibling_left x s
          black ← has_black_children w s
          if black
              then (do s ← write w (painted true) s; p ← parent x s; some (p, s))
              else finish_right x w s)

  -- `x != root_ && !x->is_red`
  unfoldable pub goes_on : ℕ → State V → Option Bool
  goes_on x s = if x == s.root then some false else (is_red x s >>= λ r. some (not r))

  unfoldable pub delete_fixup : ℕ → ℕ → State V → Option (State V)
  delete_fixup zero x s = none
  delete_fixup (suc n) x s = do
    more ← goes_on x s
    elim more [
      | false ↦ write x (painted false) s
      | true ↦ do (x, s) ← delete_round x s; delete_fixup n x s
    ]

  -- `y`, the least node to the right of `z`, takes the place of `z`.
  unfoldable pub replace_by : ℕ → ℕ → State V → Option (State V)
  replace_by z y s = do
    x ← right y s
    p ← parent y s
    s ←
        (if p == z then write x (with_parent y) s else (do
          s ← transplant y x s
          r ← right z s
          s ← write y (with_right r) s
          r ← right y s
          write r (with_parent y) s))
    s ← transplant z y s
    l ← left z s
    s ← write y (with_left l) s
    l ← left y s
    s ← write l (with_parent y) s
    c ← is_red z s
    write y (painted c) s

  -- The unlinking of `z`: the node that took the freed place, and the colour that was lost there.
  unfoldable pub unlink : ℕ → ℕ → State V → Option ((ℕ × Bool) × State V)
  unlink n z s = do
    c ← is_red z s
    l ← left z s
    r ← right z s
    if l == s.nil
        then (transplant z r s >>= λ s'. some ((r, c), s'))
        else (if r == s.nil then (transplant z l s >>= λ s'. some ((l, c), s')) else (do
          y ← minimum n r s
          d ← is_red y s
          x ← right y s
          s ← replace_by z y s
          some ((x, d), s)))

  -- `Erase(position)`; `End()` is passed over.
  unfoldable pub erase_at : ℕ → ℕ → State V → Option (ℕ × State V)
  erase_at n z s = if z == s.nil then some (null, s) else (do
    ((x, c), s) ← unlink n z s
    let s = delete_node z s
    let s : State V = record s { size = (s.size + 2 ^ 64 - 1) % 2 ^ 64 }
    s ← (if c then some s else delete_fixup n x s)
    some (x, s))

  -- `Erase(key)`
  unfoldable pub erase : ℕ → ℕ → State V → Option (ℕ × State V)
  erase n k s = do
    p ← find n k s
    if p == s.nil then some (0, s) else (erase_at n p s >>= λ r. some (1, r.1))

  -- `Clear(node)` and `Clear()`
  unfoldable pub clear_nodes : ℕ → ℕ → State V → Option (State V)
  clear_nodes zero p s = none
  clear_nodes (suc n) p s = elim (p == s.nil) [
    | true ↦ some s
    | false ↦ do
      l ← left p s
      s ← clear_nodes n l s
      r ← right p s
      s ← clear_nodes n r s
      some (delete_node p s)
  ]

  unfoldable pub clear : ℕ → State V → Option (State V)
  clear n s = do s ← clear_nodes n s.root s; some (record s { root = s.nil; size = 0 })

  -- `Swap(other)`, of two maps in one store.
  unfoldable pub swap : State V → State V → State V × State V
  swap s other = (
    record s { root = other.root; nil = other.nil; size = other.size },
    record other { root = s.root; nil = s.nil; size = s.size },
  )

  -- `Copy(node, parent)`, into the map whose state is passed on: a node of the other map is compared
  -- with this map's sentinel.
  unfoldable pub copy : ℕ → ℕ → ℕ → State V → Option (ℕ × State V)
  copy zero p up s = none
  copy (suc n) p up s = elim (p == s.nil) [
    | true ↦ some (s.nil, s)
    | false ↦ do
      m ← s.nodes p
      let (q, s) = new_node m.key m.value s
      s ← write q (painted m.is_red) s
      s ← write q (with_parent up) s
      l ← left p s
      (cl, s) ← copy n l q s
      s ← write q (with_left cl) s
      r ← right p s
      (cr, s) ← copy n r q s
      s ← write q (with_right cr) s
      some (q, s)
  ]

  -- `Map(const Map& other)` after the new sentinel is made.
  unfoldable pub copy_map : ℕ → State V → State V → Option (State V)
  copy_map n other s =
      if other.root == other.nil
      then some s
      else (do (q, s) ← copy n other.root s.nil s; some (record s { root = q; size = other.size }))
