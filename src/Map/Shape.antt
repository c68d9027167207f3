-- ===== src/Map/Shape.antt =====
-- The trees that a store of nodes stands for, and a tree with one of its subtrees in focus: what
-- the methods of Map in driver/std/map/map.h walk over.
use windows_kernel_events_tr.Prelude.{
  ℕ, suc, ◌^◌, ◌≤◌, ◌<◌, ◌≡◌, Bool, false, Option, some, none, List, [], ◌∷◌, ◌++◌, ◌==◌, max,
}
use windows_kernel_events_tr.Map.Nodes.{Node, State}

-- A node has its address, its key, its value and its colour.
pub data Tree (V : Type 0) : Type 0 where
  leaf : Tree V
  node : Tree V → ℕ → ℕ → V → Bool → Tree V → Tree V

-- The way from a subtree up to the root: the node above, and its other child.
pub data Context (V : Type 0) : Type 0 where
  top : Context V
  left_of : ℕ → ℕ → V → Bool → Tree V → Context V → Context V
  right_of : Tree V → ℕ → ℕ → V → Bool → Context V → Context V

-- A handle is below it.
unfoldable pub key_limit : ℕ
key_limit = 2 ^ 64

module _ {V : Type 0} where
  abbrev pub plug : Tree V → Context V → Tree V
  plug t top = t
  plug t (left_of a k v c r up) = plug (node t a k v c r) up
  plug t (right_of l a k v c up) = plug (node l a k v c t) up

  -- The nodes from left to right: the address of each, its key and its value.
  abbrev pub entries : Tree V → List (ℕ × ℕ × V)
  entries leaf = []
  entries (node l a k v c r) = entries l ++ ((a, k, v) ∷ entries r)

  abbrev pub height : Tree V → ℕ
  height leaf = 0
  height (node l a k v c r) = suc (max (height l) (height r))

  abbrev pub depth : Context V → ℕ
  depth top = 0
  depth (left_of a k v c r up) = suc (depth up)
  depth (right_of l a k v c up) = suc (depth up)

  -- The keys that may stand below a path are from `low` up to, not including, `high`.
  abbrev pub low : Context V → ℕ
  low top = 0
  low (left_of a k v c r up) = low up
  low (right_of l a k v c up) = suc k

  abbrev pub high : Context V → ℕ
  high top = key_limit
  high (left_of a k v c r up) = k
  high (right_of l a k v c up) = high up

module _ {V : Type 0} (nil : ℕ) where
  -- The pointer to a tree, the pointer from a subtree to the node above it, and `root_`.
  abbrev pub address : Tree V → ℕ
  address leaf = nil
  address (node l a k v c r) = a

  abbrev pub above : Context V → ℕ
  above top = nil
  above (left_of a k v c r up) = a
  above (right_of l a k v c up) = a

  abbrev pub root_of : ℕ → Context V → ℕ
  root_of a top = a
  root_of a (left_of b k v c r up) = root_of b up
  root_of a (right_of l b k v c up) = root_of b up

  -- A node in the store.
  abbrev pub Holds : (ℕ → Option (Node V)) → ℕ → Node V → Type 0
  Holds h a n = (h a ≡ some n) × ((a == nil) ≡ false)

  -- The tree stands in the store under the node `p`, its keys ordered and within bounds.
  abbrev pub Stands : (ℕ → Option (Node V)) → ℕ → Tree V → ℕ → ℕ → Type 0
  Stands h p leaf lo hi = Unit {0}
  Stands h p (node l a k v c r) lo hi =
      Holds h a
        (record { key = k; value = v; is_red = c; parent = p; left = address l; right = address r })
      × (lo ≤ k)
      × (k < hi)
      × Stands h a l lo k
      × Stands h a r (suc k) hi

  -- So does what lies around a subtree, whose pointer is `f`.
  abbrev pub StandsAround : (ℕ → Option (Node V)) → ℕ → Context V → Type 0
  StandsAround h f top = Unit {0}
  StandsAround h f (left_of a k v c r up) =
      Holds h a
        (record { key = k; value = v; is_red = c; parent = above up; left = f; right = address r })
      × (low up ≤ k)
      × (k < high up)
      × Stands h a r (suc k) (high up)
      × StandsAround h a up
  StandsAround h f (right_of l a k v c up) =
      Holds h a
        (record { key = k; value = v; is_red = c; parent = above up; left = address l; right = f })
      × (low up ≤ k)
      × (k < high up)
      × Stands h a l (low up) k
      × StandsAround h a up

module _ {V : Type 0} where
  -- The map's store stands for the tree `plug t p`: `root_` leads to its top, the sentinel is
  -- black, and no node stands where the next one will.
  pub record IsFocused (s : State V) (t : Tree V) (p : Context V) : Type 0 where
    pub sentinel : Node V
    pub at_nil : s.nodes s.nil ≡ some sentinel
    pub black : sentinel.is_red ≡ false
    pub rooted : s.root ≡ root_of s.nil (address s.nil t) p
    pub focus : Stands s.nil s.nodes (above s.nil p) t (low p) (high p)
    pub around : StandsAround s.nil s.nodes (address s.nil t) p
    pub unused : (q : ℕ) → s.next ≤ q → s.nodes q ≡ none

  abbrev pub Represents : State V → Tree V → Type 0
  Represents s t = IsFocused s t top
