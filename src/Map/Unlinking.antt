-- ===== src/Map/Unlinking.antt =====
-- `Transplant` of driver/std/map/map.h, and `delete` of the node whose place was taken, on the trees that
-- a store stands for.
use windows_kernel_events_tr.Prelude.{
  ℕ, suc, ◌≤◌, ◌<◌, ◌≡◌, ◌≢◌, refl, sym, ◌∙◌, ap, Bool, Option, some, if◌then◌else◌, ◌==◌, ==_iff,
  arith, inl, inr, Bool-cases, subst,
}
use windows_kernel_events_tr.Prelude.Maps.{remove, remove-same, remove-other}
use windows_kernel_events_tr.Map.Nodes.{Node, State, write, with_parent}
use windows_kernel_events_tr.Map.Rotation.{transplant}
use windows_kernel_events_tr.Map.Shape.{
  Tree, leaf, node, Context, address, above, low, high, Holds, Stands, IsFocused,
}
use windows_kernel_events_tr.Map.Frames.{on, Changes, Stands-keep, StandsAround-keep, apart}
use windows_kernel_events_tr.Map.Relinking.{Outside, apart-Inside, adopt_lem, relink_lem}
use windows_kernel_events_tr.Map.Fixups.{rebuilt}
use windows_kernel_events_tr.Map.Deficits.{Hangs}
use windows_kernel_events_tr.Map.Endings.{nil_lem}

pub beyond : (j k lo hi : ℕ) → lo ≤ k → k < hi → Outside lo hi j → j ≢ k
beyond j k lo hi l u (inl o) e = omega (arith, e)
beyond j k lo hi l u (inr o) e = omega (arith, e)

module _ {V : Type 0} where
  -- The same tree, within wider bounds.
  pub Stands-widen :
      (nil : ℕ) (h : ℕ → Option (Node V)) (p : ℕ) (t : Tree V) (lo hi lo' hi' : ℕ)
      → lo' ≤ lo
      → hi ≤ hi'
      → Stands nil h p t lo hi
      → Stands nil h p t lo' hi'
  Stands-widen nil h p leaf lo hi lo' hi' a b st = tt
  Stands-widen nil h p (node l q k v c r) lo hi lo' hi' a b (held, above_lo, below_hi, sl, sr) = (
    held,
    omega arith,
    omega arith,
    Stands-widen nil h q l lo k lo' k a (omega arith) sl,
    Stands-widen nil h q r (suc k) hi (suc k) hi' (omega arith) b sr,
  )

  -- No node of the tree has the key.
  abbrev pub Lacks : ℕ → Tree V → Type 0
  Lacks j leaf = Unit {0}
  Lacks j (node l a k v c r) = Lacks j l × (k ≢ j) × Lacks j r

  pub Stands-Lacks :
      (nil : ℕ) (h : ℕ → Option (Node V)) (p : ℕ) (t : Tree V) (lo hi j : ℕ)
      → Outside lo hi j
      → Stands nil h p t lo hi
      → Lacks j t
  Stands-Lacks nil h p leaf lo hi j out st = tt
  Stands-Lacks nil h p (node l a k v c r) lo hi j out (held, above_lo, below_hi, sl, sr) = (
    Stands-Lacks nil h a l lo k j (elim out [ inl x ↦ inl x | inr x ↦ inr (omega arith) ]) sl,
    apart-Inside k j lo hi (above_lo, below_hi) out,
    Stands-Lacks nil h a r (suc k) hi j (elim out [ inl x ↦ inl (omega arith) | inr x ↦ inr x ]) sr,
  )

  Lacks-kept :
      (nil j : ℕ) {h h' : ℕ → Option (Node V)} (p : ℕ) (t : Tree V) (lo hi : ℕ)
      → Changes nil (λ i. i ≢ j) h h'
      → Lacks j t
      → Stands nil h p t lo hi
      → Stands nil h' p t lo hi
  Lacks-kept nil j p leaf lo hi c lacks st = tt
  Lacks-kept nil j p (node l a k v d r) lo hi c (ll, lk, lr) (held, above_lo, below_hi, sl, sr) = (
    (c.keeps a _ held lk, held.1),
    above_lo,
    below_hi,
    Lacks-kept nil j a l lo k c ll sl,
    Lacks-kept nil j a r (suc k) hi c lr sr,
  )

  -- `delete z` leaves a tree that lacks the key of `z`.
  pub deletion :
      (s : State V) (z : ℕ) (n : Node V)
      → Holds s.nil s.nodes z n
      → Changes s.nil (λ j. j ≢ n.key) s.nodes (remove z s.nodes)
  deletion s z n held = record {
    keeps = λ q m e differ.
        remove-other z q s.nodes
          (apart s.nodes z q n m held.0 e.0 (λ (x : n.key ≡ m.key). differ (sym x)))
        ∙ e.0;
    at_nil = remove-other z s.nil s.nodes held.1;
    unused = λ q e. elim (Bool-cases (z == q)) [
      | inl same ↦ ap (remove z s.nodes) (sym ((==_iff z q).0 same)) ∙ remove-same z s.nodes
      | inr other ↦ remove-other z q s.nodes other ∙ e
    ];
  }

  pub deleted_lem :
      {s : State V} {t : Tree V} {p : Context V} (z : ℕ) (n : Node V)
      → IsFocused s t p
      → Holds s.nil s.nodes z n
      → low p ≤ n.key
      → n.key < high p
      → Lacks n.key t
      → IsFocused (on s (remove z s.nodes)) t p × (remove z s.nodes s.nil ≡ s.nodes s.nil)
  deleted_lem {s} {t} {p} z n f held above_lo below_hi lacks =
      let c = deletion s z n held in
      (
        record {
          sentinel = f.sentinel;
          at_nil = c.at_nil ∙ f.at_nil;
          black = f.black;
          rooted = f.rooted;
          focus = Lacks-kept s.nil n.key (above s.nil p) t (low p) (high p) c lacks f.focus;
          around =
              StandsAround-keep (address s.nil t) p
                (λ j o. beyond j n.key (low p) (high p) above_lo below_hi o) c f.around;
          unused = λ q u. c.unused q (f.unused q u);
        },
        c.at_nil,
      )

  -- `Transplant(u, v)`: the tree at `v`, one of the subtrees of `u`, takes the place of `u`, also
  -- where it is empty; the node `u` is left as it was.
  pub record IsTransplanted (s : State V) (u : ℕ) (b : Tree V) (p : Context V) (n : Node V)
      (lo hi : ℕ) : Type 0 where
    pub nodes : ℕ → Option (Node V)
    pub root : ℕ
    pub returns : transplant u (address s.nil b) s ≡ some (rebuilt s nodes root)
    pub focused : IsFocused (rebuilt s nodes root) b p
    pub within : Stands s.nil nodes (above s.nil p) b lo hi
    pub hung : Hangs (rebuilt s nodes root) b (above s.nil p)
    pub left_over : nodes u ≡ some n

  pub transplant_lem :
      {s : State V} {l r : Tree V} {u k : ℕ} {v : V} {c : Bool} {p : Context V} (b : Tree V)
      (lo hi : ℕ)
      → IsFocused s (node l u k v c r) p
      → Stands s.nil s.nodes u b lo hi
      → low p ≤ lo
      → hi ≤ high p
      → Outside lo hi k
      → IsTransplanted s u b p
          (record {
            key = k;
            value = v;
            is_red = c;
            parent = above s.nil p;
            left = address s.nil l;
            right = address s.nil r;
          })
          lo
          hi
  unfolding transplant
  transplant_lem {s} {l} {r} {u} {k} {v} {c} {p} leaf lo hi f sb inside_lo inside_hi out =
      let (held, lo_k, hi_k, sl, sr) = f.focus in
      let (h1, root, e1, er, around1, c1) =
        relink_lem s u s.nil _ p held refl lo_k hi_k f.around f.rooted in
      let f1 : IsFocused (rebuilt s h1 root) leaf p = record {
        sentinel = f.sentinel;
        at_nil = c1.at_nil ∙ f.at_nil;
        black = f.black;
        rooted = er;
        focus = tt;
        around = around1;
        unused = λ q x. c1.unused q (f.unused q x);
      } in
      let (h2, e2, f2, keeps, n, at) = nil_lem (with_parent (above s.nil p)) (λ n. inr refl) f1 in
      let u1 = c1.keeps u _ held (lo_k, hi_k) in
      record {
        nodes = h2;
        root = root;
        returns = rw (e1, u1) e2;
        focused = f2;
        within = tt;
        hung = rw (at) refl;
        left_over = keeps u _ (u1, held.1);
      }
  transplant_lem {s} {l} {r} {u} {k} {v} {c} {p} (node bl b kb vb cb br) lo hi f sb inside_lo
        inside_hi out =
      let (held, lo_k, hi_k, sl, sr) = f.focus in
      let (h1, root, e1, er, around1, c1) =
        relink_lem s u b _ p held refl lo_k hi_k f.around f.rooted in
      let u1 = c1.keeps u _ held (lo_k, hi_k) in
      let sb1 =
        Stands-keep u (node bl b kb vb cb br) lo hi (λ j x y. (omega arith, omega arith)) c1 sb in
      let (h2, e2, sb2, c2) =
        adopt_lem (rebuilt s h1 root) u (above s.nil p) (node bl b kb vb cb br) lo hi sb1 in
      let to_b : write b (with_parent (above s.nil p)) (rebuilt s h1 root)
          ≡ some (rebuilt s h2 root) =
        subst
          (λ q.
            (if q
              then some (rebuilt s h1 root)
              else write b (with_parent (above s.nil p)) (rebuilt s h1 root))
            ≡ some (rebuilt s h2 root))
          sb.0.1 e2 in
      record {
        nodes = h2;
        root = root;
        returns = rw (e1, u1) to_b;
        focused = record {
          sentinel = f.sentinel;
          at_nil = c2.at_nil ∙ (c1.at_nil ∙ f.at_nil);
          black = f.black;
          rooted = er;
          focus =
              Stands-widen s.nil h2 (above s.nil p) (node bl b kb vb cb br) lo hi (low p) (high p)
                inside_lo inside_hi sb2;
          around =
              StandsAround-keep b p
                (λ j o. elim o [ inl x ↦ inl (omega arith) | inr x ↦ inr (omega arith) ]) c2
                around1;
          unused = λ q x. c2.unused q (c1.unused q (f.unused q x));
        };
        within = sb2;
        hung = rw (sb2.0.0) refl;
        left_over = c2.keeps u _ (u1, held.1) out;
      }
