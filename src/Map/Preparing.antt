-- ===== src/Map/Preparing.antt =====
-- The first statements by which `Erase` of driver/std/map/map.h puts `y`, the least node on the right of
-- `z`, in the place of `z`: `y` is the right child of `z`, or stands further down.
use windows_kernel_events_tr.Prelude.{
  ℕ, suc, ◌≤◌, ◌≡◌, ◌≢◌, refl, ◌∙◌, Bool, Option, some, [], ◌∷◌, arith, inl, inr,
}
use windows_kernel_events_tr.Map.Nodes.{State, parent, with_right, with_parent}
use windows_kernel_events_tr.Map.Removal.{replace_by}
use windows_kernel_events_tr.Map.Shape.{
  Tree, leaf, node, Context, left_of, right_of, address, above, low, high, IsFocused,
}
use windows_kernel_events_tr.Map.Frames.{
  on, Changes-trans, Changes-weaken, Stands-keep, StandsAround-keep, apart, write_lem,
}
use windows_kernel_events_tr.Map.Relinking.{Outside, same_address}
use windows_kernel_events_tr.Map.Fixups.{rebuilt}
use windows_kernel_events_tr.Map.Endings.{nil_lem}
use windows_kernel_events_tr.Map.Unlinking.{transplant_lem, beyond}
use windows_kernel_events_tr.Map.Spines.{
  Spine, hang, grow, grow_lem, grow_node, low-hang, root-hang,
}
use windows_kernel_events_tr.Map.Replacing.{IsReady, take_place, adopt_node}

module _ {V : Type 0} where
  -- All is ready for `y` to take the place of `z`, and the subtree `x` that `y` leaves behind has its
  -- new parent.
  pub record Prepares (s : State V) (l : Tree V) (z k : ℕ) (v : V) (c : Bool) (p : Context V)
      (y ky : ℕ) (vy : V) (r x : Tree V) (a : ℕ) (out : Option (State V)) : Type 0 where
    pub ready : IsReady s l z k v c p y ky vy r
    pub returns : out ≡ take_place z y (rebuilt s ready.nodes ready.root)
    pub earlier : State V
    pub hung : parent (address s.nil x) earlier ≡ some a
    pub kept : ready.nodes s.nil ≡ earlier.nodes s.nil

  prepare_near :
      {s : State V} {l : Tree V} (x : Tree V) {z k y ky : ℕ} {v vy : V} {c cy : Bool}
      {p : Context V}
      → IsFocused s (node leaf y ky vy cy x) (right_of l z k v c p)
      → Prepares s l z k v c p y ky vy x x y (replace_by z y s)
  unfolding replace_by
  prepare_near {s} {l} leaf {z} {k} {y} {ky} {v} {vy} {c} {cy} {p} f =
      let (hz, from_low, to_z, sl, around) = f.around in
      let (h, e, f', keeps, n, at) = nil_lem (with_parent y) (λ n. inr refl) f in
      let (hz', from', to', sl', around') = f'.around in
      record {
        ready = record {
          nodes = h;
          root = s.root;
          red_y = cy;
          parent_y = z;
          right_z = y;
          sentinel = f'.sentinel;
          at_nil = f'.at_nil;
          black = f'.black;
          rooted = f.rooted;
          at_z = hz';
          at_y = f'.focus.0;
          from_low = from_low;
          later = f.focus.1;
          to_high = f.focus.2;
          on_left = sl';
          on_right = tt;
          around = around';
          unused = f'.unused;
        };
        returns = rw (f.focus.0.0, same_address z, e) refl;
        earlier = on s h;
        hung = rw (at) refl;
        kept = refl;
      }
  prepare_near {s} {l} (node xl b kb vb cb xr) {z} {k} {y} {ky} {v} {vy} {c} {cy} {p} f =
      let x = node xl b kb vb cb xr in
      let (hz, from_low, to_z, sl, around) = f.around in
      let (hy, later, to_high, sy, sx) = f.focus in
      let (h, e, sx', c1) = adopt_node s y y x (suc ky) (high p) sx.0.1 sx in
      record {
        ready = record {
          nodes = h;
          root = s.root;
          red_y = cy;
          parent_y = z;
          right_z = y;
          sentinel = f.sentinel;
          at_nil = c1.at_nil ∙ f.at_nil;
          black = f.black;
          rooted = f.rooted;
          at_z = (c1.keeps z _ hz (inl (omega arith)), hz.1);
          at_y = (c1.keeps y _ hy (inl (omega arith)), hy.1);
          from_low = from_low;
          later = later;
          to_high = to_high;
          on_left = Stands-keep z l (low p) k (λ j a b. inl (omega arith)) c1 sl;
          on_right = sx';
          around =
              StandsAround-keep z p (λ j o. elim o [ inl q ↦ inl (omega arith) | inr q ↦ inr q ]) c1
                around;
          unused = λ q u. c1.unused q (f.unused q u);
        };
        returns = rw (hy.0, same_address z, e) refl;
        earlier = on s h;
        hung = rw (sx'.0.0) refl;
        kept = refl;
      }

  prepare_far :
      {s : State V} {l : Tree V} {x u : Tree V} {a j : ℕ} {w : V} {d : Bool} (up : Spine V)
      {z k y ky : ℕ} {v vy : V} {c cy : Bool} {p : Context V}
      → IsFocused s (node leaf y ky vy cy x) (left_of a j w d u (hang up (right_of l z k v c p)))
      → Prepares s l z k v c p y ky vy (grow (node x a j w d u) up) x a (replace_by z y s)
  unfolding replace_by
  prepare_far {s} {l} {x} {u} {a} {j} {w} {d} up {z} {k} {y} {ky} {v} {vy} {c} {cy} {p} f =
      let (hy, over_low, under, sleaf, sx) = f.focus in
      let at_low : suc k ≤ ky = omega (arith, low-hang up (right_of l z k v c p)) in
      let over_k : suc k ≤ j =
        let o = f.around.1 in omega (arith, low-hang up (right_of l z k v c p)) in
      let start =
        grow_lem s s.nodes ((a, j, w, d, u) ∷ up) (node leaf y ky vy cy x) l z k v c p
          (low (hang up (right_of l z k v c p))) f.around f.focus (omega arith) in
      let hz0 = start.1.0 in
      let moved =
        transplant_lem x (suc ky) j f sx (omega arith) (omega arith) (inl (omega arith)) in
      let s1 = rebuilt s moved.nodes moved.root in
      let r = grow (node x a j w d u) up in
      let (sr, (hz, from_low, to_z, sl, around), to_high) =
        grow_lem s moved.nodes ((a, j, w, d, u) ∷ up) x l z k v c p (suc ky) moved.focused.around
          moved.within under in
      let (h2, e2, hy2, c2) =
        write_lem s1 y (with_right (address s.nil r)) _ (moved.left_over, hy.1) in
      let hz2 = c2.keeps z _ hz (λ e. omega (arith, e)) in
      let sr2 = Stands-keep z r (suc ky) (high p) (λ i l u e. omega (arith, e)) c2 sr in
      let some_r = grow_node s.nil moved.nodes up x u a j w d z (suc ky) (high p) sr in
      let (h3, e3, sr3, c3) = adopt_node (on s1 h2) z y r (suc ky) (high p) some_r sr2 in
      let rest =
        Changes-trans
          (Changes-weaken {Q = λ i. (i ≢ ky) × Outside (suc ky) (high p) i} (λ i o. o.0) c2)
          (Changes-weaken (λ i o. o.1) c3) in
      record {
        ready = record {
          nodes = h3;
          root = moved.root;
          red_y = cy;
          parent_y = a;
          right_z = address s.nil r;
          sentinel = moved.focused.sentinel;
          at_nil = rest.at_nil ∙ moved.focused.at_nil;
          black = moved.focused.black;
          rooted = moved.focused.rooted ∙ root-hang s.nil up a l z k v c p;
          at_z = (rest.keeps z _ hz (λ e. omega (arith, e), inl (omega arith)), hz.1);
          at_y = (c3.keeps y _ hy2 (inl (omega arith)), hy.1);
          from_low = from_low;
          later = at_low;
          to_high = to_high;
          on_left =
              Stands-keep z l (low p) k (λ i l u. (λ e. omega (arith, e), inl (omega arith))) rest
                sl;
          on_right = sr3;
          around =
              StandsAround-keep z p
                (λ i o. (
                  beyond i ky (low p) (high p) (omega arith) to_high o,
                  elim o [ inl q ↦ inl (omega arith) | inr q ↦ inr q ],
                ))
                rest around;
          unused = λ q u. rest.unused q (moved.focused.unused q u);
        };
        returns =
            rw
              (
                hy.0,
                apart s.nodes a z _ _ f.around.0.0 hz0.0 (λ e. omega (arith, e)),
                moved.returns,
                hz.0,
                e2,
                hy2.0,
                e3,
              )
              refl;
        earlier = s1;
        hung = moved.hung;
        kept = rest.at_nil;
      }

  pub prepare_lem :
      {s : State V} {l x : Tree V} (spine : Spine V) {z k y ky : ℕ} {v vy : V} {c cy : Bool}
      {p : Context V}
      → IsFocused s (node leaf y ky vy cy x) (hang spine (right_of l z k v c p))
      → Prepares s l z k v c p y ky vy
          (grow x spine)
          x
          (above s.nil (hang spine (right_of l y ky vy c p)))
          (replace_by z y s)
  prepare_lem {x = x} [] f = prepare_near x f
  prepare_lem ((a, j, w, d, u) ∷ up) f = prepare_far up f
