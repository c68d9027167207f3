-- ===== src/Map/Deficits.antt =====
-- What the loop of `DeleteFixup` in driver/std/map/map.h keeps: a subtree that lacks one black node, whose
-- parent the code reads off the subtree's own node, also where that is the sentinel.
use windows_kernel_events_tr.Prelude.{
  ℕ, suc, ◌<◌, ◌≡◌, refl, sym, ◌∙◌, ap, Bool, true, false, Option, some, List, subst, arith,
}
use windows_kernel_events_tr.Map.Nodes.{Node, State, parent}
use windows_kernel_events_tr.Map.Shape.{
  Tree, leaf, node, Context, top, left_of, right_of, address, above, plug, entries, depth,
  IsFocused, Represents,
}
use windows_kernel_events_tr.Map.Frames.{from_left, from_right}
use windows_kernel_events_tr.Map.Colours.{
  is_red_tree, IsRedBlack, FitsRedBlack, IsBalanced, is_below_black,
}
use windows_kernel_events_tr.Map.Fixups.{rebuilt}

-- The rounds that are left: none under a red root, since it is painted black.
abbrev pub steps_below : Bool → ℕ → ℕ
steps_below true d = 0
steps_below false d = d

pub steps_within : (c : Bool) (d : ℕ) → steps_below c d < suc d
steps_within true d = omega arith
steps_within false d = omega arith

module _ {V : Type 0} where
  -- Red-black but for the colour of the children of a red root.
  abbrev pub IsShort : Tree V → ℕ → Type 0
  IsShort leaf n = n ≡ 0
  IsShort (node l a k v true r) n = IsRedBlack l n × IsRedBlack r n
  IsShort (node l a k v false r) n = (m : ℕ) × (n ≡ suc m) × IsRedBlack l m × IsRedBlack r m

  pub IsRedBlack-IsShort : (t : Tree V) (n : ℕ) → IsRedBlack t n → IsShort t n
  IsRedBlack-IsShort leaf n rb = rb
  IsRedBlack-IsShort (node l a k v true r) n rb = (rb.0, rb.1)
  IsRedBlack-IsShort (node l a k v false r) n rb = rb

  pub IsShort-IsRedBlack :
      (t : Tree V) (n : ℕ) → is_red_tree t ≡ false → IsShort t n → IsRedBlack t n
  IsShort-IsRedBlack leaf n black rb = rb
  IsShort-IsRedBlack (node l a k v true r) n black rb = cc
  IsShort-IsRedBlack (node l a k v false r) n black rb = rb

  abbrev pub steps : Tree V → Context V → ℕ
  steps t p = steps_below (is_red_tree t) (depth p)

  -- A subtree of black height `n` fits where the node above has the colour `c`, its own sibling put
  -- aside.
  abbrev pub FitsBelow : Bool → Context V → ℕ → Type 0
  FitsBelow true up n = (is_below_black up ≡ true) × FitsRedBlack up n
  FitsBelow false up n = FitsRedBlack up (suc n)

  -- The node of the subtree has the node above for its parent.
  abbrev pub Hangs : State V → Tree V → ℕ → Type 0
  Hangs s t a = parent (address s.nil t) s ≡ some a

  -- It does so still where the subtree stands under the same node, and the sentinel is as it was.
  pub Hangs-still :
      (s s' : State V) (t : Tree V) (q : Context V) (a : ℕ)
      → IsFocused s' t q
      → s'.nodes s'.nil ≡ s.nodes s'.nil
      → above s'.nil q ≡ a
      → parent (address s'.nil t) s ≡ some a
      → Hangs s' t a
  Hangs-still s s' leaf q a f kept e hung = rw (kept) hung
  Hangs-still s s' (node l b k v c r) q a f kept e hung = rw (f.focus.0.0) (ap some e)

  -- The focus moves up to the root.
  pub to_top :
      {s : State V} (p : Context V) {t : Tree V} → IsFocused s t p → Represents s (plug t p)
  to_top top f = f
  to_top (left_of a k v c r up) f = to_top up (from_left f)
  to_top (right_of l a k v c up) f = to_top up (from_right f)

  root-Hangs :
      {s : State V} (p : Context V) {l r : Tree V} {a k : ℕ} {v : V} {c : Bool}
      → IsFocused s (node l a k v c r) p
      → Hangs s (plug (node l a k v c r) p) s.nil
  root-Hangs top f = rw (f.focus.0.0) refl
  root-Hangs (left_of a k v c r up) f = root-Hangs up (from_left f)
  root-Hangs (right_of l a k v c up) f = root-Hangs up (from_right f)

  -- A round hands the lack on to a subtree with fewer rounds left, and keeps the nodes from left to
  -- right.
  pub record Sinks (s : State V) (d : ℕ) (all : List (ℕ × ℕ × V)) (out : Option (ℕ × State V))
      : Type 0 where
    pub nodes : ℕ → Option (Node V)
    pub root : ℕ
    pub tree : Tree V
    pub path : Context V
    pub black_height : ℕ
    pub returns : out ≡ some (address s.nil tree, rebuilt s nodes root)
    pub focused : IsFocused (rebuilt s nodes root) tree path
    pub hung : Hangs (rebuilt s nodes root) tree (above s.nil path)
    pub short : IsShort tree black_height
    pub fits : FitsRedBlack path (suc black_height)
    pub fewer : steps tree path < d
    pub same : entries (plug tree path) ≡ all

  pub Sinks-returns :
      {s : State V} {d : ℕ} {all : List (ℕ × ℕ × V)} {out out' : Option (ℕ × State V)}
      → out' ≡ out
      → Sinks s d all out
      → Sinks s d all out'
  Sinks-returns {s} {d} {all} e sinks = subst (λ o. Sinks s d all o) (sym e) sinks

  pub Sinks-same :
      {s : State V} {d : ℕ} {all all' : List (ℕ × ℕ × V)} {out : Option (ℕ × State V)}
      → all' ≡ all
      → Sinks s d all' out
      → Sinks s d all out
  Sinks-same {s} {d} {out = out} e sinks = subst (λ es. Sinks s d es out) e sinks

  pub Sinks-onto :
      {s : State V} {h : ℕ → Option (Node V)} {root d : ℕ} {all : List (ℕ × ℕ × V)}
      {out : Option (ℕ × State V)}
      → Sinks (rebuilt s h root) d all out
      → Sinks s d all out
  Sinks-onto sinks = record {
    nodes = sinks.nodes;
    root = sinks.root;
    tree = sinks.tree;
    path = sinks.path;
    black_height = sinks.black_height;
    returns = sinks.returns;
    focused = sinks.focused;
    hung = sinks.hung;
    short = sinks.short;
    fits = sinks.fits;
    fewer = sinks.fewer;
    same = sinks.same;
  }

  -- A red-black tree as a whole lacks nothing that counts: the loop ends there.
  pub whole-Sinks :
      {s : State V} {d : ℕ} {all : List (ℕ × ℕ × V)} {out : Option (ℕ × State V)}
      (h : ℕ → Option (Node V)) (root : ℕ) (l r : Tree V) (a k : ℕ) (v : V) (c : Bool)
      (p : Context V)
      → out ≡ some (root, rebuilt s h root)
      → IsFocused (rebuilt s h root) (node l a k v c r) p
      → IsBalanced (plug (node l a k v c r) p)
      → 0 < d
      → entries (plug (node l a k v c r) p) ≡ all
      → Sinks s d all out
  whole-Sinks {s} h root l r a k v c p e f balanced room same =
      let whole = to_top p f in
      record {
        nodes = h;
        root = root;
        tree = plug (node l a k v c r) p;
        path = top;
        black_height = balanced.1;
        returns = e ∙ ap (λ q. some (q, rebuilt s h root)) whole.rooted;
        focused = whole;
        hung = root-Hangs p f;
        short = IsRedBlack-IsShort _ _ balanced.2;
        fits = tt;
        fewer = rw (balanced.0) room;
        same = same;
      }
