-- ===== src/Map/Relinking.antt =====
-- The stores that `LeftRotate` and `RightRotate` of driver/std/map/map.h share: the subtree that changes
-- hands, the pointer from above, which `Transplant` moves as well, and the last two pointers.
use windows_kernel_events_tr.Prelude.{
  ℕ, suc, ◌≤◌, ◌<◌, ◌≡◌, ◌≢◌, refl, sym, ◌∙◌, ◌⊎◌, inl, inr, true, false, Option, some, ◌==◌,
  ==_iff, if◌then◌else◌, arith, subst,
}
use windows_kernel_events_tr.Map.Nodes.{Node, State, write, with_parent, with_left, with_right}
use windows_kernel_events_tr.Map.Rotation.{relink}
use windows_kernel_events_tr.Map.Shape.{
  Tree, leaf, node, Context, top, left_of, right_of, low, high, address, above, root_of, Holds,
  Stands, StandsAround,
}
use windows_kernel_events_tr.Map.Frames.{
  on, Changes, Changes-trans, Changes-weaken, Changes-refl, Stands-keep, StandsAround-keep, apart,
  write_lem,
}

abbrev pub Inside : ℕ → ℕ → ℕ → Type 0
Inside lo hi j = (lo ≤ j) × (j < hi)

abbrev pub Outside : ℕ → ℕ → ℕ → Type 0
Outside lo hi j = (j < lo) ⊎ (hi ≤ j)

pub apart-Inside : (j k lo hi : ℕ) → Inside lo hi j → Outside lo hi k → j ≢ k
apart-Inside j k lo hi i (inl o) e = omega (arith, i.0, i.1)
apart-Inside j k lo hi i (inr o) e = omega (arith, i.0, i.1)

pub aside :
    (j lo hi kx ky : ℕ)
    → Outside lo hi j
    → lo ≤ kx
    → kx < ky
    → ky < hi
    → ((j ≢ kx) × (j ≢ ky)) × Outside (suc kx) ky j
aside j lo hi kx ky (inl o) a b c =
    ((λ e. omega (arith, e), λ e. omega (arith, e)), inl (omega arith))
aside j lo hi kx ky (inr o) a b c =
    ((λ e. omega (arith, e), λ e. omega (arith, e)), inr (omega arith))

pub aside_flat :
    (j lo hi kx ky : ℕ)
    → Outside lo hi j
    → lo ≤ kx
    → kx < ky
    → ky < hi
    → (j ≢ kx) × (j ≢ ky) × Outside (suc kx) ky j
aside_flat j lo hi kx ky o a b c =
    let (beside, between) = aside j lo hi kx ky o a b c in (beside.0, beside.1, between)

pub apart_comm : (a b : ℕ) → (a == b) ≡ false → (b == a) ≡ false
apart_comm a b e = ground arith

pub same_address : (a : ℕ) → (a == a) ≡ true
same_address a = (==_iff a a).1 refl

module _ {V : Type 0} where
  -- `if (b != nil_) b->parent = p`
  pub adopt_lem :
      (s : State V) (p p' : ℕ) (t : Tree V) (lo hi : ℕ)
      → Stands s.nil s.nodes p t lo hi
      → (h : ℕ → Option (Node V)) × ((if address s.nil t == s.nil
            then some s
            else write (address s.nil t) (with_parent p') s)
          ≡ some (on s h))
        × Stands s.nil h p' t lo hi
        × Changes s.nil (Outside lo hi) s.nodes h
  adopt_lem s p p' leaf lo hi st = (s.nodes, rw (same_address s.nil) refl, tt, Changes-refl s.nodes)
  adopt_lem s p p' (node l a k v c r) lo hi (held, above_lo, below_hi, sl, sr) =
      let (h, e, held', changes) = write_lem s a (with_parent p') _ held in
      (
        h,
        rw (held.1) e,
        (
          held',
          above_lo,
          below_hi,
          Stands-keep a l lo k (λ j x y z. absurd (omega (arith, z))) changes sl,
          Stands-keep a r (suc k) hi (λ j x y z. absurd (omega (arith, z))) changes sr,
        ),
        Changes-weaken
            (λ j x z. absurd (elim x [ inl y ↦ omega (arith, z) | inr y ↦ omega (arith, z) ]))
            changes,
      )

  -- A node with its key within the bounds is no tree that stands below them.
  below_apart :
      (nil : ℕ) (h : ℕ → Option (Node V)) (p : ℕ) (t : Tree V) (lo hi x : ℕ) (n : Node V)
      → Stands nil h p t lo hi
      → Holds nil h x n
      → hi ≤ n.key
      → (x == address nil t) ≡ false
  below_apart nil h p leaf lo hi x n st held far = held.1
  below_apart nil h p (node l a k v c r) lo hi x n (at, above_lo, below_hi, sl, sr) held far =
      apart h x a n _ held.0 at.0 (λ e. absurd (omega (arith, e)))

  -- The pointer that led to `x` from above leads to `y`.
  pub relink_lem :
      (s : State V) (x y : ℕ) (n : Node V) (p : Context V)
      → Holds s.nil s.nodes x n
      → n.parent ≡ above s.nil p
      → low p ≤ n.key
      → n.key < high p
      → StandsAround s.nil s.nodes x p
      → s.root ≡ root_of s.nil x p
      → (h : ℕ → Option (Node V)) × (root : ℕ) × (relink x y s
          ≡ some (record s { nodes = h; root = root }))
        × (root ≡ root_of s.nil y p)
        × StandsAround s.nil h y p
        × Changes s.nil (Inside (low p) (high p)) s.nodes h
  unfolding relink
  relink_lem s x y n top held e above_lo below_hi around rooted =
      (s.nodes, y, rw (held.0, e, same_address s.nil) refl, refl, tt, Changes-refl s.nodes)
  relink_lem s x y n (left_of a k v c r up) held e above_lo below_hi (at, lo_up, hi_up, sr, around)
        rooted =
      let (h, we, held', changes) = write_lem s a (with_left y) _ at in
      (
        h,
        s.root,
        rw (held.0, e, at.1, at.0, same_address x) we,
        rooted,
        (
          held',
          lo_up,
          hi_up,
          Stands-keep a r (suc k) (high up) (λ j x y z. absurd (omega (arith, z))) changes sr,
          StandsAround-keep a up
              (λ j x z. absurd (elim x [ inl y ↦ omega (arith, z) | inr y ↦ omega (arith, z) ]))
              changes around,
        ),
        Changes-weaken (λ j x z. absurd (omega (arith, z, x.0, x.1))) changes,
      )
  relink_lem s x y n (right_of l a k v c up) held e above_lo below_hi (at, lo_up, hi_up, sl, around)
        rooted =
      let (h, we, held', changes) = write_lem s a (with_right y) _ at in
      let other = below_apart s.nil s.nodes a l (low up) k x n sl held (omega arith) in
      (
        h,
        s.root,
        rw (held.0, e, at.1, at.0, other) we,
        rooted,
        (
          held',
          lo_up,
          hi_up,
          Stands-keep a l (low up) k (λ j x y z. absurd (omega (arith, z))) changes sl,
          StandsAround-keep a up
              (λ j x z. absurd (elim x [ inl y ↦ omega (arith, z) | inr y ↦ omega (arith, z) ]))
              changes around,
        ),
        Changes-weaken (λ j x z. absurd (omega (arith, z, x.0, x.1))) changes,
      )

  abbrev pub Others : Node V → Node V → ℕ → Type 0
  Others n m j = (j ≢ n.key) × (j ≢ m.key)

  -- The first half of both rotations of `y` over `x`: a pointer of `x` is moved, the subtree that
  -- changes hands gets `x` for its parent, and `y` the parent of `x`.
  pub hand_over :
      (s : State V) (x y q : ℕ) (f : Node V → Node V) (n m : Node V) (b : Tree V) (lo hi : ℕ)
      → Holds s.nil s.nodes x n
      → Holds s.nil s.nodes y m
      → (f n).key ≡ n.key
      → Stands s.nil s.nodes y b lo hi
      → Outside lo hi n.key
      → Outside lo hi m.key
      → m.key ≢ n.key
      → (h h' h'' : ℕ → Option (Node V)) × (write x f s ≡ some (on s h))
        × (h y ≡ some m)
        × ((if address s.nil b == s.nil
              then some (on s h)
              else write (address s.nil b) (with_parent x) (on s h))
            ≡ some (on s h'))
        × (h' x ≡ some (f n))
        × (write y (with_parent q) (on s h') ≡ some (on s h''))
        × Holds s.nil h'' x (f n)
        × Holds s.nil h'' y (with_parent q m)
        × Stands s.nil h'' x b lo hi
        × Changes s.nil (λ j. Others n m j × Outside lo hi j) s.nodes h''
  hand_over s x y q f n m b lo hi hx hy same sb out_x out_y differ =
      let (h1, e1, hx1, c1) = write_lem s x f n hx in
      let hy1 = c1.keeps y m hy differ in
      let sb1 = Stands-keep y b lo hi (λ j l u. apart-Inside j n.key lo hi (l, u) out_x) c1 sb in
      let (h2, e2, sb2, c2) = adopt_lem (on s h1) y x b lo hi sb1 in
      let hx2 = c2.keeps x (f n) hx1 (subst (Outside lo hi) (sym same) out_x) in
      let hy2 = c2.keeps y m (hy1, hy.1) out_y in
      let (h3, e3, hy3, c3) = write_lem (on s h2) y (with_parent q) m (hy2, hy.1) in
      let hx3 = c3.keeps x (f n) (hx2, hx1.1) (λ e. differ (sym (sym same ∙ e))) in
      let sb3 = Stands-keep x b lo hi (λ j l u. apart-Inside j m.key lo hi (l, u) out_y) c3 sb2 in
      (
        h1,
        h2,
        h3,
        e1,
        hy1,
        e2,
        hx2,
        e3,
        (hx3, hx1.1),
        hy3,
        sb3,
        Changes-trans (Changes-weaken (λ j o. o.0.0) c1)
            (Changes-trans (Changes-weaken (λ j o. o.1) c2) (Changes-weaken (λ j o. o.0.1) c3)),
      )

  -- Their last two stores: `x` becomes a child of `y`.
  pub go_below :
      (s : State V) (x y : ℕ) (g : Node V → Node V) (n m : Node V)
      → Holds s.nil s.nodes x n
      → Holds s.nil s.nodes y m
      → (g m).key ≡ m.key
      → m.key ≢ n.key
      → (h h' : ℕ → Option (Node V)) × (write y g s ≡ some (on s h))
        × (write x (with_parent y) (on s h) ≡ some (on s h'))
        × Holds s.nil h' x (with_parent y n)
        × Holds s.nil h' y (g m)
        × Changes s.nil (Others n m) s.nodes h'
  go_below s x y g n m hx hy same differ =
      let (h1, e1, hy1, c1) = write_lem s y g m hy in
      let hx1 = c1.keeps x n hx (λ e. differ (sym e)) in
      let (h2, e2, hx2, c2) = write_lem (on s h1) x (with_parent y) n (hx1, hx.1) in
      let hy2 = c2.keeps y (g m) hy1 (λ e. differ (sym same ∙ e)) in
      (
        h1,
        h2,
        e1,
        e2,
        hx2,
        (hy2, hy1.1),
        Changes-trans (Changes-weaken (λ j o. o.1) c1) (Changes-weaken (λ j o. o.0) c2),
      )
