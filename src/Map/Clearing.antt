-- ===== src/Map/Clearing.antt =====
-- `Clear` of driver/std/map/map.h, on the trees that a store stands for.
use windows_kernel_events_tr.Prelude.{
  ℕ, zero, suc, ◌<◌, ◌≡◌, refl, ◌∙◌, ap, inl, inr, false, Option, some, none, ◌==◌, arith,
}
use windows_kernel_events_tr.Prelude.Maps.{remove, remove-same, remove-other}
use windows_kernel_events_tr.Map.Nodes.{Node, State, delete_node}
use windows_kernel_events_tr.Map.Removal.{clear_nodes, clear}
use windows_kernel_events_tr.Map.Shape.{Tree, leaf, node, address, height, Stands, key_limit}
use windows_kernel_events_tr.Map.Frames.{
  on, Changes, Changes-trans, Changes-weaken, Changes-refl, Stands-keep,
}
use windows_kernel_events_tr.Map.Relinking.{Outside}
use windows_kernel_events_tr.Map.Relinking.{same_address}
use windows_kernel_events_tr.Map.Unlinking.{deletion}
use windows_kernel_events_tr.Map.Placing.{IsMap}

module _ {V : Type 0} where
  -- No node of the tree is left in the store.
  abbrev pub AllGone : (ℕ → Option (Node V)) → Tree V → Type 0
  AllGone h leaf = Unit {0}
  AllGone h (node l a k v c r) = AllGone h l × (h a ≡ none) × AllGone h r

  -- No node of the tree is at the address.
  abbrev pub Avoids : ℕ → Tree V → Type 0
  Avoids q leaf = Unit {0}
  Avoids q (node l a k v c r) = Avoids q l × ((a == q) ≡ false) × Avoids q r

  AllGone-later :
      {nil : ℕ} {P : ℕ → Type 0} {h h' : ℕ → Option (Node V)} (t : Tree V)
      → Changes nil P h h'
      → AllGone h t
      → AllGone h' t
  AllGone-later leaf c gone = tt
  AllGone-later (node l a k v d r) c (gl, ga, gr) =
      (AllGone-later l c gl, c.unused a ga, AllGone-later r c gr)

  clear_nodes_lem :
      (fuel : ℕ) (s : State V) (p : ℕ) (t : Tree V) (lo hi : ℕ)
      → Stands s.nil s.nodes p t lo hi
      → height t < fuel
      → (h : ℕ → Option (Node V)) × (clear_nodes fuel (address s.nil t) s ≡ some (on s h))
        × AllGone h t
        × Changes s.nil (Outside lo hi) s.nodes h
        × ((q : ℕ) → Avoids q t → h q ≡ s.nodes q)
  unfolding clear_nodes delete_node
  clear_nodes_lem zero s p t lo hi st enough = absurd (omega arith)
  clear_nodes_lem (suc fuel) s p leaf lo hi st enough =
      (s.nodes, rw (clear_nodes, same_address s.nil) refl, tt, Changes-refl s.nodes, λ q o. refl)
  clear_nodes_lem (suc fuel) s p (node l a k v c r) lo hi (held, above_lo, below_hi, sl, sr)
        enough =
      let (h1, e1, gl, c1, same1) = clear_nodes_lem fuel s a l lo k sl (omega arith) in
      let held1 = c1.keeps a _ held (inr (omega arith)) in
      let sr1 = Stands-keep a r (suc k) hi (λ j x y. inr (omega arith)) c1 sr in
      let (h2, e2, gr, c2, same2) =
        clear_nodes_lem fuel (on s h1) a r (suc k) hi sr1 (omega arith) in
      let held2 = c2.keeps a _ (held1, held.1) (inl (omega arith)) in
      let c3 = deletion (on s h2) a _ (held2, held.1) in
      (
        remove a h2,
        rw (clear_nodes, held.1, held.0, e1, held1, e2) refl,
        (AllGone-later l c3 (AllGone-later l c2 gl), remove-same a h2, AllGone-later r c3 gr),
        Changes-trans
            (Changes-weaken (λ j o. elim o [ inl x ↦ inl x | inr x ↦ inr (omega arith) ]) c1)
            (Changes-trans
              (Changes-weaken (λ j o. elim o [ inl x ↦ inl (omega arith) | inr x ↦ inr x ]) c2)
              (Changes-weaken
                (λ j o q. elim o [ inl x ↦ omega (arith, q) | inr x ↦ omega (arith, q) ]) c3)),
        λ q o. remove-other a q h2 o.1 ∙ (same2 q o.2 ∙ same1 q o.0),
      )

  -- `Clear()` returns, with enough rounds for a tree of this height, with the empty map; every node of
  -- the tree is deleted, and the rest of the store is not touched.
  pub clear_lem :
      (fuel : ℕ) (s : State V) (t : Tree V)
      → IsMap s t
      → height t < fuel
      → (s' : State V) × (clear fuel s ≡ some s')
        × IsMap s' leaf
        × AllGone s'.nodes t
        × ((q : ℕ) → Avoids q t → s'.nodes q ≡ s.nodes q)
  unfolding clear
  clear_lem fuel s t m enough =
      let (h, e, gone, c, same) =
        clear_nodes_lem fuel s s.nil t 0 key_limit m.standing.focus enough in
      let from_root : clear_nodes fuel s.root s ≡ some (on s h) =
        ap (λ q. clear_nodes fuel q s) m.standing.rooted ∙ e in
      (
        record s { nodes = h; root = s.nil; size = 0 },
        rw (from_root) refl,
        record {
          standing = record {
            sentinel = m.standing.sentinel;
            at_nil = c.at_nil ∙ m.standing.at_nil;
            black = m.standing.black;
            rooted = refl;
            focus = tt;
            around = tt;
            unused = λ q l. c.unused q (m.standing.unused q l);
          };
          balanced = (refl, 0, refl);
          sized = refl;
        },
        gone,
        same,
      )
