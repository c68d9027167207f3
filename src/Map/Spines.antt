-- ===== src/Map/Spines.antt =====
-- The way down the left side of a subtree to its least node, as `Minimum` of driver/std/map/map.h walks it
-- when `Erase` looks for the node that takes the place of another.
use windows_kernel_events_tr.Prelude.{
  ℕ, zero, suc, ◌+◌, ◌≤◌, ◌<◌, ◌≡◌, refl, sym, ◌∙◌, ap, Bool, true, false, Option, some, ◌==◌, List,
  [], ◌∷◌, ◌++◌, arith,
}
use windows_kernel_events_tr.Map.Nodes.{Node, State}
use windows_kernel_events_tr.Map.Search.{minimum}
use windows_kernel_events_tr.Map.Shape.{
  Tree, leaf, node, Context, left_of, right_of, address, above, root_of, plug, entries, height,
  depth, low, high, Stands, StandsAround, IsFocused,
}
use windows_kernel_events_tr.Map.Frames.{into_left}
use windows_kernel_events_tr.Map.Colours.{
  IsRedBlack, FitsRedBlack, is_below_black, Meets, descend_left, append_assoc,
}
use windows_kernel_events_tr.Map.Relinking.{same_address}

-- The nodes passed on the way, the last one first, each with its right subtree.
abbrev pub Spine : Type 0 → Type 0
Spine V = List (ℕ × ℕ × V × Bool × Tree V)

module _ {V : Type 0} where
  abbrev pub hang : Spine V → Context V → Context V
  hang [] base = base
  hang ((a, k, v, c, r) ∷ up) base = left_of a k v c r (hang up base)

  abbrev pub grow : Tree V → Spine V → Tree V
  grow t [] = t
  grow t ((a, k, v, c, r) ∷ up) = grow (node t a k v c r) up

  -- The least node of a subtree, its left pointer that of the sentinel.
  pub record HasLeast (s : State V) (base : Context V) (spine : Spine V) (t : Tree V) (fuel : ℕ)
      : Type 0 where
    pub way : Spine V
    pub y : ℕ
    pub ky : ℕ
    pub vy : V
    pub cy : Bool
    pub x : Tree V
    pub focused : IsFocused s (node leaf y ky vy cy x) (hang way base)
    pub black_height : ℕ
    pub red_black : IsRedBlack (node leaf y ky vy cy x) black_height
    pub fits : FitsRedBlack (hang way base) black_height
    pub meets : Meets (node leaf y ky vy cy x) (hang way base)
    pub found : minimum fuel (address s.nil t) s ≡ some y
    pub whole : grow (node leaf y ky vy cy x) way ≡ grow t spine
    pub shallow : depth (hang way base) < height t + depth (hang spine base)

  pub least_lem :
      (l : Tree V) {s : State V} {base : Context V} (spine : Spine V) {r : Tree V} {a k : ℕ} {v : V}
      {c : Bool} (n fuel : ℕ)
      → IsFocused s (node l a k v c r) (hang spine base)
      → IsRedBlack (node l a k v c r) n
      → FitsRedBlack (hang spine base) n
      → Meets (node l a k v c r) (hang spine base)
      → height (node l a k v c r) < fuel
      → HasLeast s base spine (node l a k v c r) fuel
  unfolding minimum
  least_lem l spine n zero f rb fits meets enough = absurd (omega arith)
  least_lem leaf {s} spine {r} {a} {k} {v} {c} n (suc fuel) f rb fits meets enough = record {
    way = spine;
    y = a;
    ky = k;
    vy = v;
    cy = c;
    x = r;
    focused = f;
    black_height = n;
    red_black = rb;
    fits = fits;
    meets = meets;
    found = rw (minimum, f.focus.0.0, same_address s.nil) refl;
    whole = refl;
    shallow = omega arith;
  }
  least_lem (node ll b j w d lr) {s} spine {r} {a} {k} {v} {c} n (suc fuel) f rb fits meets enough =
      let (m, rbl, fl, ml) = descend_left (node ll b j w d lr) r a k v c _ n rb fits meets in
      let least =
        least_lem ll ((a, k, v, c, r) ∷ spine) m fuel (into_left f) rbl fl ml (omega arith) in
      record {
        way = least.way;
        y = least.y;
        ky = least.ky;
        vy = least.vy;
        cy = least.cy;
        x = least.x;
        focused = least.focused;
        black_height = least.black_height;
        red_black = least.red_black;
        fits = least.fits;
        meets = least.meets;
        found = rw (minimum, f.focus.0.0, f.focus.3.0.1) least.found;
        whole = least.whole;
        shallow = omega (arith, least.shallow);
      }

  -- The first binding of a subtree is that of its least node.
  pub entries-grow :
      (t u : Tree V) (xs : List (ℕ × ℕ × V)) (spine : Spine V)
      → entries t ≡ xs ++ entries u
      → entries (grow t spine) ≡ xs ++ entries (grow u spine)
  entries-grow t u xs [] e = e
  entries-grow t u xs ((a, k, v, c, r) ∷ up) e =
      entries-grow (node t a k v c r) (node u a k v c r) xs up (
        ap (λ q. q ++ ((a, k, v) ∷ entries r)) e
        ∙ append_assoc xs (entries u) ((a, k, v) ∷ entries r))

  -- What lies at the end of the way stands in the subtree as a whole, above any bound that it keeps.
  pub grow_lem :
      (s : State V) (h : ℕ → Option (Node V)) (spine : Spine V) (t l : Tree V) (z k : ℕ) (v : V)
      (c : Bool) (p : Context V) (lo : ℕ)
      → StandsAround s.nil h (address s.nil t) (hang spine (right_of l z k v c p))
      → Stands s.nil h
          (above s.nil (hang spine (right_of l z k v c p)))
          t
          lo
          (high (hang spine (right_of l z k v c p)))
      → lo ≤ high (hang spine (right_of l z k v c p))
      → Stands s.nil h z (grow t spine) lo (high p)
        × StandsAround s.nil h (address s.nil (grow t spine)) (right_of l z k v c p)
        × (lo ≤ high p)
  grow_lem s h [] t l z k v c p lo around st le = (st, around, le)
  grow_lem s h ((a, j, w, d, u) ∷ up) t l z k v c p lo (held, lo_j, hi_j, su, around) st le =
      grow_lem s h up (node t a j w d u) l z k v c p lo around (held, le, hi_j, st, su)
        (omega arith)

  -- Down the same way, from another node.
  pub down_lem :
      {s : State V} (spine : Spine V) (t : Tree V) {base : Context V}
      → IsFocused s (grow t spine) base
      → IsFocused s t (hang spine base)
  down_lem [] t f = f
  down_lem ((a, k, v, c, r) ∷ up) t f = into_left (down_lem up (node t a k v c r) f)

  below-hang :
      (spine : Spine V) (l : Tree V) (z k y j : ℕ) (v w : V) (c : Bool) (p : Context V)
      → is_below_black (hang spine (right_of l z k v c p))
        ≡ is_below_black (hang spine (right_of l y j w c p))
  below-hang [] l z k y j v w c p = refl
  below-hang ((a, i, u, d, r) ∷ up) l z k y j v w c p = refl

  pub FitsRedBlack-hang :
      (spine : Spine V) (l : Tree V) (z k y j n : ℕ) (v w : V) (c : Bool) (p : Context V)
      → FitsRedBlack (hang spine (right_of l z k v c p)) n
      → FitsRedBlack (hang spine (right_of l y j w c p)) n
  FitsRedBlack-hang [] l z k y j n v w true p fits = fits
  FitsRedBlack-hang [] l z k y j n v w false p fits = fits
  FitsRedBlack-hang ((a, i, u, true, r) ∷ up) l z k y j n v w c p (rr, black, below, fits) = (
    rr,
    black,
    sym (below-hang up l z k y j v w c p) ∙ below,
    FitsRedBlack-hang up l z k y j n v w c p fits,
  )
  FitsRedBlack-hang ((a, i, u, false, r) ∷ up) l z k y j n v w c p (rr, fits) =
      (rr, FitsRedBlack-hang up l z k y j (suc n) v w c p fits)

  pub root-hang :
      (nil : ℕ) (spine : Spine V) (f : ℕ) (l : Tree V) (z k : ℕ) (v : V) (c : Bool) (p : Context V)
      → root_of nil f (hang spine (right_of l z k v c p)) ≡ root_of nil z p
  root-hang nil [] f l z k v c p = refl
  root-hang nil ((a, i, u, d, r) ∷ up) f l z k v c p = root-hang nil up a l z k v c p

  pub low-hang : (spine : Spine V) (base : Context V) → low (hang spine base) ≡ low base
  low-hang [] base = refl
  low-hang ((a, i, u, d, r) ∷ up) base = low-hang up base

  pub grow_node :
      (nil : ℕ) (h : ℕ → Option (Node V)) (spine : Spine V) (l r : Tree V) (a k : ℕ) (v : V)
      (c : Bool) (p lo hi : ℕ)
      → Stands nil h p (grow (node l a k v c r) spine) lo hi
      → (address nil (grow (node l a k v c r) spine) == nil) ≡ false
  grow_node nil h [] l r a k v c p lo hi st = st.0.1
  grow_node nil h ((b, j, w, d, u) ∷ up) l r a k v c p lo hi st =
      grow_node nil h up (node l a k v c r) u b j w d p lo hi st

  pub depth-hang :
      (spine : Spine V) (l : Tree V) (z k y j : ℕ) (v w : V) (c : Bool) (p : Context V)
      → depth (hang spine (right_of l z k v c p)) ≡ depth (hang spine (right_of l y j w c p))
  depth-hang [] l z k y j v w c p = refl
  depth-hang ((a, i, u, d, r) ∷ up) l z k y j v w c p = ap suc (depth-hang up l z k y j v w c p)

  pub plug-hang :
      (spine : Spine V) (t : Tree V) (base : Context V)
      → plug t (hang spine base) ≡ plug (grow t spine) base
  plug-hang [] t base = refl
  plug-hang ((a, k, v, c, r) ∷ up) t base = plug-hang up (node t a k v c r) base
