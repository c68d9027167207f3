-- ===== src/Map/Nodes.antt =====
-- driver/std/map/map.h: the nodes, the members of Map<HANDLE, T>, and the accesses through
-- pointers. A pointer is an address, the null pointer is 0, and an access where no node stands is a
-- fault, `none`. Keys are compared by `<`, as Less<HANDLE> does.
use windows_kernel_events_tr.Prelude.{ℕ, ◌+◌, Bool, true, false, Option, some, ◌>>=◌}
use windows_kernel_events_tr.Prelude.Maps.{put, remove}

pub record Node (V : Type 0) : Type 0 where
  pub key : ℕ
  pub value : V
  pub is_red : Bool
  pub parent : ℕ
  pub left : ℕ
  pub right : ℕ

-- What one map owns, beside the store that all objects share: `root_`, `nil_` and `size_`.
pub record State (V : Type 0) : Type 0 where
  pub nodes : ℕ → Option (Node V)
  pub next : ℕ
  pub root : ℕ
  pub nil : ℕ
  pub size : ℕ

abbrev pub null : ℕ
null = 0

module _ {V : Type 0} where
  -- `p->left`, `p->right`, `p->parent`, `p->is_red`, `p->data.first`
  abbrev pub left : ℕ → State V → Option ℕ
  left p s = do n ← s.nodes p; some n.left

  abbrev pub right : ℕ → State V → Option ℕ
  right p s = do n ← s.nodes p; some n.right

  abbrev pub parent : ℕ → State V → Option ℕ
  parent p s = do n ← s.nodes p; some n.parent

  abbrev pub is_red : ℕ → State V → Option Bool
  is_red p s = do n ← s.nodes p; some n.is_red

  abbrev pub key : ℕ → State V → Option ℕ
  key p s = do n ← s.nodes p; some n.key

  -- A store through the pointer `p`.
  unfoldable pub write : ℕ → (Node V → Node V) → State V → Option (State V)
  write p f s = do n ← s.nodes p; some (record s { nodes = put p (f n) s.nodes })

  abbrev pub with_left : ℕ → Node V → Node V
  with_left q n = record n { left = q }

  abbrev pub with_right : ℕ → Node V → Node V
  with_right q n = record n { right = q }

  abbrev pub with_parent : ℕ → Node V → Node V
  with_parent q n = record n { parent = q }

  abbrev pub painted : Bool → Node V → Node V
  painted c n = record n { is_red = c }

  -- `new Node(key, value)`: red, its pointers null, at an address where no node stood before.
  abbrev pub fresh_node : ℕ → V → Node V
  fresh_node k v = record {
    key = k;
    value = v;
    is_red = true;
    parent = null;
    left = null;
    right = null;
  }

  unfoldable pub new_node : ℕ → V → State V → ℕ × State V
  new_node k v s =
      (s.next, record s { nodes = put s.next (fresh_node k v) s.nodes; next = s.next + 1 })

  -- `delete p`
  unfoldable pub delete_node : ℕ → State V → State V
  delete_node p s = record s { nodes = remove p s.nodes }

  -- `Map()`: the sentinel, black and its own child and parent.
  unfoldable pub new_map : V → ℕ → (ℕ → Option (Node V)) → State V
  new_map blank next nodes = record {
    nodes =
        put next
          (record {
            key = 0;
            value = blank;
            is_red = false;
            parent = next;
            left = next;
            right = next;
          })
          nodes;
    next = next + 1;
    root = next;
    nil = next;
    size = 0;
  }
