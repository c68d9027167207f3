-- ===== src/Map/Unlinked.antt =====
-- How `Erase` of driver/std/map/map.h unlinks a node and deletes it, on the trees that a store stands for.
use windows_kernel_events_tr.Prelude.{
  ℕ, suc, ◌+◌, ◌≤◌, ◌<◌, ◌≡◌, refl, sym, ◌∙◌, ap, Bool, true, false, Option, some, ◌==◌, [], ◌∷◌,
  ◌++◌, arith, ◌⊎◌, inl, inr, subst,
}
use windows_kernel_events_tr.Prelude.Maps.{remove}
use windows_kernel_events_tr.Map.Nodes.{Node, State}
use windows_kernel_events_tr.Map.Rotation.{transplant}
use windows_kernel_events_tr.Map.Removal.{unlink}
use windows_kernel_events_tr.Map.Shape.{
  Tree, leaf, node, Context, right_of, address, above, plug, entries, height, depth, low, high,
  Stands, IsFocused,
}
use windows_kernel_events_tr.Map.Frames.{into_right}
use windows_kernel_events_tr.Map.Relinking.{same_address}
use windows_kernel_events_tr.Map.Colours.{
  IsRedBlack, FitsRedBlack, Meets, IsBalanced, plug-IsBalanced, descend_right, append_assoc,
}
use windows_kernel_events_tr.Map.Fixups.{rebuilt}
use windows_kernel_events_tr.Map.Contents.{before, after, entries-around, append_nil}
use windows_kernel_events_tr.Map.Deficits.{IsShort, IsRedBlack-IsShort, Hangs, Hangs-still}
use windows_kernel_events_tr.Map.Unlinking.{transplant_lem, deleted_lem, Lacks, Stands-Lacks}
use windows_kernel_events_tr.Map.Spines.{
  HasLeast, hang, grow, least_lem, entries-grow, down_lem, FitsRedBlack-hang, depth-hang, plug-hang,
}
use windows_kernel_events_tr.Map.Replacing.{take_place_lem}
use windows_kernel_events_tr.Map.Preparing.{prepare_lem}

module _ {V : Type 0} where
  -- With a red node gone the tree is balanced; with a black one, the subtree `x` lacks it.
  abbrev pub Cut : Bool → Tree V → Context V → ℕ → Type 0
  Cut lost x q n =
      ((lost ≡ true) × IsBalanced (plug x q))
      ⊎ ((lost ≡ false) × IsShort x n × FitsRedBlack q (suc n))

  Cut-left :
      (c : Bool) (x : Tree V) (y ky : ℕ) (vy : V) (q : Context V) (m : ℕ)
      → IsRedBlack (node leaf y ky vy c x) m
      → FitsRedBlack q m
      → (n : ℕ) × Cut c x q n
  Cut-left true x y ky vy q m (rl, rx, bl, bx) fits = (
    m,
    inl (refl, plug-IsBalanced x q m rx fits (λ e. let clash : false ≡ true = sym bx ∙ e in cc)),
  )
  Cut-left false x y ky vy q m (n, e, rl, rx) fits =
      (n, inr (refl, IsRedBlack-IsShort x n rx, subst (FitsRedBlack q) e fits))

  Cut-right :
      (c : Bool) (x : Tree V) (y ky : ℕ) (vy : V) (q : Context V) (m : ℕ)
      → IsRedBlack (node x y ky vy c leaf) m
      → FitsRedBlack q m
      → (n : ℕ) × Cut c x q n
  Cut-right true x y ky vy q m (rx, rl, bx, bl) fits = (
    m,
    inl (refl, plug-IsBalanced x q m rx fits (λ e. let clash : false ≡ true = sym bx ∙ e in cc)),
  )
  Cut-right false x y ky vy q m (n, e, rx, rl) fits =
      (n, inr (refl, IsRedBlack-IsShort x n rx, subst (FitsRedBlack q) e fits))

  -- The node `z` is unlinked and deleted.
  pub record Unlinks (s : State V) (l : Tree V) (z : ℕ) (r : Tree V) (p : Context V) (fuel : ℕ)
      (out : Option ((ℕ × Bool) × State V)) : Type 0 where
    pub nodes : ℕ → Option (Node V)
    pub root : ℕ
    pub x : Tree V
    pub lost : Bool
    pub path : Context V
    pub black_height : ℕ
    pub returns : out ≡ some ((address s.nil x, lost), rebuilt s nodes root)
    pub focused : IsFocused (rebuilt s (remove z nodes) root) x path
    pub hung : Hangs (rebuilt s (remove z nodes) root) x (above s.nil path)
    pub colours : Cut lost x path black_height
    pub rest : entries (plug x path) ≡ before p ++ (entries l ++ (entries r ++ after p))
    pub shallow : depth path < fuel

  unlinked_one :
      {s : State V} {l r : Tree V} {z k : ℕ} {v : V} {c : Bool} {p : Context V} (b : Tree V)
      (lo hi m fuel : ℕ) {out : Option ((ℕ × Bool) × State V)}
      → IsFocused s (node l z k v c r) p
      → Stands s.nil s.nodes z b lo hi
      → low p ≤ lo
      → hi ≤ high p
      → (k < lo) ⊎ (hi ≤ k)
      → ((h : ℕ → Option (Node V)) (root : ℕ)
          → transplant z (address s.nil b) s ≡ some (rebuilt s h root)
          → out ≡ some ((address s.nil b, c), rebuilt s h root))
      → (n : ℕ) × Cut c b p n
      → entries b ≡ entries l ++ entries r
      → depth p < fuel
      → Unlinks s l z r p fuel out
  unlinked_one {s} {l} {r} {z} {k} {v} {c} {p} b lo hi m fuel f sb inside_lo inside_hi aside returns
        cut same shallow =
      let moved = transplant_lem b lo hi f sb inside_lo inside_hi aside in
      let (f', kept) =
        deleted_lem z _ moved.focused (moved.left_over, f.focus.0.1) f.focus.1 f.focus.2
          (Stands-Lacks s.nil moved.nodes (above s.nil p) b lo hi k aside moved.within) in
      record {
        nodes = moved.nodes;
        root = moved.root;
        x = b;
        lost = c;
        path = p;
        black_height = cut.0;
        returns = returns moved.nodes moved.root moved.returns;
        focused = f';
        hung = Hangs-still (rebuilt s moved.nodes moved.root) _ b p _ f' kept refl moved.hung;
        colours = cut.1;
        rest =
            entries-around b p
            ∙ (ap (λ q. before p ++ (q ++ after p)) same
                ∙ ap (λ q. before p ++ q) (append_assoc (entries l) (entries r) (after p)));
        shallow = shallow;
      }

  -- Both subtrees have nodes: the least one on the right takes the place.
  unlinked_two :
      {s : State V} (l r : Tree V) {z k : ℕ} {v : V} {c : Bool} {p : Context V} (fuel : ℕ)
      (least : HasLeast s (right_of l z k v c p) [] r fuel)
      → IsFocused s (node l z k v c r) p
      → (address s.nil l == s.nil) ≡ false
      → (address s.nil r == s.nil) ≡ false
      → height (node l z k v c r) + depth p < fuel
      → Unlinks s l z r p fuel (unlink fuel z s)
  unfolding unlink
  unlinked_two {s} l r {z} {k} {v} {c} {p} fuel least f some_l some_r enough =
      let way = least.way in
      let y = least.y in
      let ky = least.ky in
      let vy = least.vy in
      let x = least.x in
      let to_x = hang way (right_of l y ky vy c p) in
      let prepared = prepare_lem way least.focused in
      let ready = prepared.ready in
      let (h, root, e, f1, n, at_z, same_key, kept) = take_place_lem ready some_l in
      let s1 = rebuilt s h root in
      let lacks : Lacks n.key (node l y ky vy c (grow x way)) =
        subst (λ j. Lacks j (node l y ky vy c (grow x way))) (sym same_key)
          (
            Stands-Lacks s.nil ready.nodes z l (low p) k k (inr (omega arith)) ready.on_left,
            λ q. omega (arith, q, ready.later),
            Stands-Lacks s.nil ready.nodes y (grow x way) (suc ky) (high p) k
                (inl (omega (arith, ready.later))) ready.on_right,
          ) in
      let (f2, kept2) =
        deleted_lem z n f1 at_z (omega (arith, same_key, f.focus.1))
          (omega (arith, same_key, f.focus.2)) lacks in
      let f3 = down_lem way x (into_right f2) in
      let fits = FitsRedBlack-hang way l z k y ky least.black_height v vy c p least.fits in
      let cut = Cut-left least.cy x y ky vy to_x least.black_height least.red_black fits in
      let first : entries r ≡ (y, ky, vy) ∷ entries (grow x way) =
        sym (ap entries least.whole)
        ∙ entries-grow (node leaf y ky vy least.cy x) x ((y, ky, vy) ∷ []) way refl in
      record {
        nodes = h;
        root = root;
        x = x;
        lost = least.cy;
        path = to_x;
        black_height = cut.0;
        returns =
            rw
              (
                f.focus.0.0, some_l, some_r, least.found, least.focused.focus.0.0, prepared.returns,
                e,
              )
              refl;
        focused = f3;
        hung =
            Hangs-still prepared.earlier _ x to_x _ f3 (kept2 ∙ (kept ∙ prepared.kept)) refl
              prepared.hung;
        colours = cut.1;
        rest =
            ap entries (plug-hang way x (right_of l y ky vy c p))
            ∙ (entries-around (node l y ky vy c (grow x way)) p
                ∙ (ap (λ q. before p ++ q)
                      (append_assoc (entries l) ((y, ky, vy) ∷ entries (grow x way)) (after p))
                    ∙ ap (λ q. before p ++ (entries l ++ (q ++ after p))) (sym first)));
        shallow = omega (arith, least.shallow, depth-hang way l z k y ky v vy c p);
      }

  pub unlink_lem :
      {s : State V} (l r : Tree V) {z k : ℕ} {v : V} {c : Bool} {p : Context V} (m fuel : ℕ)
      → IsFocused s (node l z k v c r) p
      → IsRedBlack (node l z k v c r) m
      → FitsRedBlack p m
      → Meets (node l z k v c r) p
      → height (node l z k v c r) + depth p < fuel
      → Unlinks s l z r p fuel (unlink fuel z s)
  unfolding unlink
  unlink_lem {s} leaf r {z} {k} {v} {c} {p} m fuel f rb fits meets enough =
      unlinked_one r (suc k) (high p) m fuel f f.focus.4 (omega (arith, f.focus.1)) (omega arith)
        (inl (omega arith)) (λ h root e. rw (f.focus.0.0, same_address s.nil, e) refl)
        (Cut-left c r z k v p m rb fits) refl (omega arith)
  unlink_lem {s} (node ll b j w d lr) leaf {z} {k} {v} {c} {p} m fuel f rb fits meets enough =
      let l = node ll b j w d lr in
      unlinked_one l (low p) k m fuel f f.focus.3 (omega arith) (omega (arith, f.focus.2))
        (inr (omega arith))
        (λ h root e. rw (f.focus.0.0, f.focus.3.0.1, same_address s.nil, e) refl)
        (Cut-right c l z k v p m rb fits) (sym (append_nil (entries l))) (omega arith)
  unlink_lem {s} (node ll b j w d lr) (node rl e i u g rr) {z} {k} {v} {c} {p} m fuel f rb fits
        meets enough =
      let (n, rbr, fr, mr) =
        descend_right (node ll b j w d lr) (node rl e i u g rr) z k v c p m rb fits meets in
      unlinked_two (node ll b j w d lr) (node rl e i u g rr) fuel
        (least_lem rl [] n fuel (into_right f) rbr fr mr (omega arith)) f f.focus.3.0.1
        f.focus.4.0.1 enough
