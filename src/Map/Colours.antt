-- ===== src/Map/Colours.antt =====
-- The red-black conditions on the trees of driver/std/map/map.h: no red node has a red child, and
-- all ways down pass as many black nodes.
use windows_kernel_events_tr.Prelude.{
  ℕ, suc, ◌≡◌, refl, sym, ◌∙◌, ap, Bool, true, false, not, List, [], ◌∷◌, ◌++◌, subst,
}
use windows_kernel_events_tr.Map.Shape.{
  Tree, leaf, node, Context, top, left_of, right_of, plug, entries,
}

pub append_assoc : {A : Type 0} (xs ys zs : List A) → (xs ++ ys) ++ zs ≡ xs ++ (ys ++ zs)
append_assoc [] ys zs = refl
append_assoc (x ∷ xs) ys zs = ap (λ r. x ∷ r) (append_assoc xs ys zs)

black_by : (b c : Bool) → (b ≡ true → c ≡ true) → c ≡ false → b ≡ false
black_by false c h e = refl
black_by true c h e = sym (h refl) ∙ e

module _ {V : Type 0} where
  abbrev pub is_red_tree : Tree V → Bool
  is_red_tree leaf = false
  is_red_tree (node l a k v c r) = c

  -- A tree of black height `n`.
  abbrev pub IsRedBlack : Tree V → ℕ → Type 0
  IsRedBlack leaf n = n ≡ 0
  IsRedBlack (node l a k v true r) n =
      IsRedBlack l n × IsRedBlack r n × (is_red_tree l ≡ false) × (is_red_tree r ≡ false)
  IsRedBlack (node l a k v false r) n = (m : ℕ) × (n ≡ suc m) × IsRedBlack l m × IsRedBlack r m

  -- The node above the end of a path is there, and black; or it is there, and red.
  abbrev pub is_below_black : Context V → Bool
  is_below_black top = false
  is_below_black (left_of a k v c r up) = not c
  is_below_black (right_of l a k v c up) = not c

  abbrev pub is_below_red : Context V → Bool
  is_below_red top = false
  is_below_red (left_of a k v c r up) = c
  is_below_red (right_of l a k v c up) = c

  -- What lies around fits a subtree of black height `n`, and its own root is black.
  abbrev pub FitsRedBlack : Context V → ℕ → Type 0
  FitsRedBlack top n = Unit {0}
  FitsRedBlack (left_of a k v true r up) n =
      IsRedBlack r n × (is_red_tree r ≡ false) × (is_below_black up ≡ true) × FitsRedBlack up n
  FitsRedBlack (left_of a k v false r up) n = IsRedBlack r n × FitsRedBlack up (suc n)
  FitsRedBlack (right_of l a k v true up) n =
      IsRedBlack l n × (is_red_tree l ≡ false) × (is_below_black up ≡ true) × FitsRedBlack up n
  FitsRedBlack (right_of l a k v false up) n = IsRedBlack l n × FitsRedBlack up (suc n)

  -- What `Map` keeps: black at its root, and red-black.
  abbrev pub IsBalanced : Tree V → Type 0
  IsBalanced t = (is_red_tree t ≡ false) × (n : ℕ) × IsRedBlack t n

  -- Around a subtree, only its nodes from left to right count.
  pub entries-plug :
      (t t' : Tree V) (p : Context V)
      → entries t ≡ entries t'
      → entries (plug t p) ≡ entries (plug t' p)
  entries-plug t t' top e = e
  entries-plug t t' (left_of a k v c r up) e =
      entries-plug (node t a k v c r) (node t' a k v c r) up
        (ap (λ x. x ++ ((a, k, v) ∷ entries r)) e)
  entries-plug t t' (right_of l a k v c up) e =
      entries-plug (node l a k v c t) (node l a k v c t') up
        (ap (λ x. entries l ++ ((a, k, v) ∷ x)) e)

  -- Under a red node only a black one may stand, and at the top.
  abbrev pub Meets : Tree V → Context V → Type 0
  Meets t p = is_red_tree t ≡ true → is_below_black p ≡ true

  -- A red-black subtree where one fits makes a red-black tree.
  pub plug-IsBalanced :
      (t : Tree V) (p : Context V) (n : ℕ)
      → IsRedBlack t n
      → FitsRedBlack p n
      → Meets t p
      → IsBalanced (plug t p)
  plug-IsBalanced t top n rb fits meets = (black_by (is_red_tree t) false meets refl, n, rb)
  plug-IsBalanced t (left_of a k v false r up) n rb fits meets =
      plug-IsBalanced (node t a k v false r) up (suc n) (n, refl, rb, fits.0) fits.1 (λ e. cc)
  plug-IsBalanced t (right_of l a k v false up) n rb fits meets =
      plug-IsBalanced (node l a k v false t) up (suc n) (n, refl, fits.0, rb) fits.1 (λ e. cc)
  plug-IsBalanced t (left_of a k v true r up) n rb (rr, red_r, below, fits) meets =
      plug-IsBalanced (node t a k v true r) up n
        (rb, rr, black_by (is_red_tree t) false meets refl, red_r) fits (λ e. below)
  plug-IsBalanced t (right_of l a k v true up) n rb (rl, red_l, below, fits) meets =
      plug-IsBalanced (node l a k v true t) up n
        (rl, rb, red_l, black_by (is_red_tree t) false meets refl) fits (λ e. below)

  -- Going down a tree the conditions split.
  pub descend_left :
      (l r : Tree V) (a k : ℕ) (v : V) (c : Bool) (p : Context V) (n : ℕ)
      → IsRedBlack (node l a k v c r) n
      → FitsRedBlack p n
      → Meets (node l a k v c r) p
      → (m : ℕ) × IsRedBlack l m
        × FitsRedBlack (left_of a k v c r p) m
        × Meets l (left_of a k v c r p)
  descend_left l r a k v true p n (rl, rr, bl, br) fits meets =
      (n, rl, (rr, br, meets refl, fits), λ e. absurd (cc))
  descend_left l r a k v false p n (m, e, rl, rr) fits meets =
      (m, rl, (rr, subst (FitsRedBlack p) e fits), λ e'. refl)

  pub descend_right :
      (l r : Tree V) (a k : ℕ) (v : V) (c : Bool) (p : Context V) (n : ℕ)
      → IsRedBlack (node l a k v c r) n
      → FitsRedBlack p n
      → Meets (node l a k v c r) p
      → (m : ℕ) × IsRedBlack r m
        × FitsRedBlack (right_of l a k v c p) m
        × Meets r (right_of l a k v c p)
  descend_right l r a k v true p n (rl, rr, bl, br) fits meets =
      (n, rr, (rl, bl, meets refl, fits), λ e. absurd (cc))
  descend_right l r a k v false p n (m, e, rl, rr) fits meets =
      (m, rr, (rl, subst (FitsRedBlack p) e fits), λ e'. refl)
