-- ===== src/Map/Inserting.antt =====
-- `Insert` and `operator[]` of driver/std/map/map.h as a whole, on the bindings in the order of the
-- keys.
use windows_kernel_events_tr.Prelude.{
  ℕ, ◌+◌, ◌%◌, ◌^◌, ◌<◌, ◌≡◌, refl, sym, ◌∙◌, ap, Bool, true, not, Option, some, ◌∷◌, ◌++◌, arith,
  inl, inr, subst, length,
}
use windows_kernel_events_tr.Prelude.Maps.{put, put-other, remove, remove-other}
use windows_kernel_events_tr.Map.Nodes.{State, new_node, delete_node, fresh_node}
use windows_kernel_events_tr.Map.Insertion.{descend, settle, insert}
use windows_kernel_events_tr.Map.Shape.{Tree, leaf, node, top, address, entries, height, key_limit}
use windows_kernel_events_tr.Map.Colours.{Meets}
use windows_kernel_events_tr.Map.Settling.{insert_fixup_lem}
use windows_kernel_events_tr.Map.Insertions.{Found, Missing, descend_lem, attach_lem}
use windows_kernel_events_tr.Map.Contents.{
  locate, has_key, placed, before, after, entries-around, placed-Below, placed-From, has_key-Below,
  has_key-From, locate-Below,
}
use windows_kernel_events_tr.Map.Placing.{
  IsMap, extended, resized, fresh_apart, later_apart, new_node-Focused, Found-split, Missing-split,
  placed_here, locate_here, has_key_here, size_next,
}

module _ {V : Type 0} where
  -- The binding of `k` is in its place: the old one where there was one, and then nothing changes,
  -- or a new node for `v`; the result is the node that has the key, and whether it is new.
  pub record IsPlaced (s : State V) (t : Tree V) (k : ℕ) (v : V)
      (out : Option ((ℕ × Bool) × State V)) : Type 0 where
    pub node_of : ℕ
    pub state : State V
    pub tree : Tree V
    pub returns : out ≡ some ((node_of, not (has_key k (entries t))), state)
    pub is_map : IsMap state tree
    pub same_nil : state.nil ≡ s.nil
    pub contents : entries tree ≡ placed s.next k v (entries t)
    pub at_key : node_of ≡ locate s.nil k (entries tree)

  insert-Found :
      {s : State V} {t : Tree V} (fuel k : ℕ) (v : V)
      → IsMap s t
      → Found (new_node k v s).1 k t (descend fuel k s.root s.nil (new_node k v s).1)
      → IsPlaced s t k v (insert fuel k v s)
  unfolding insert new_node delete_node
  insert-Found {s} {t} fuel k v m found =
      let (xs, ys, e, below) = Found-split found in
      let h = remove s.next (put s.next (fresh_node k v) s.nodes) in
      record {
        node_of = found.a;
        state = record s { nodes = h; next = s.next + 1 };
        tree = t;
        returns =
            rw
              (
                found.returns,
                e,
                has_key-Below k xs ((found.a, k, found.v) ∷ ys) below,
                has_key_here k found.a found.v ys,
              )
              refl;
        is_map = record {
          standing =
              extended h (s.next + 1)
                (λ q n held.
                  remove-other s.next q (put s.next (fresh_node k v) s.nodes)
                    (fresh_apart m.standing q n held)
                  ∙ (put-other s.next q (fresh_node k v) s.nodes (fresh_apart m.standing q n held)
                      ∙ held))
                (λ q l.
                  remove-other s.next q (put s.next (fresh_node k v) s.nodes)
                    (later_apart s.next q l)
                  ∙ (put-other s.next q (fresh_node k v) s.nodes (later_apart s.next q l)
                      ∙ m.standing.unused q (omega arith)))
                m.standing;
          balanced = m.balanced;
          sized = m.sized;
        };
        same_nil = refl;
        contents =
            rw
              (
                e,
                placed-Below s.next k v xs ((found.a, k, found.v) ∷ ys) below,
                placed_here s.next k found.a v found.v ys,
              )
              refl;
        at_key =
            rw
              (
                e,
                locate-Below s.nil k xs ((found.a, k, found.v) ∷ ys) below,
                locate_here s.nil k found.a found.v ys,
              )
              refl;
      }

  insert-Missing :
      {s : State V} {t : Tree V} (fuel k : ℕ) (v : V)
      → IsMap s t
      → height t < fuel
      → Missing (new_node k v s).1 k (height t) t (descend fuel k s.root s.nil (new_node k v s).1)
      → IsPlaced s t k v (insert fuel k v s)
  unfolding insert new_node settle
  insert-Missing {s} {t} fuel k v m enough missing =
      let (e, below, from) = Missing-split missing in
      let p = missing.path in
      let xs = before p in
      let ys = after p in
      let held = (new_node-Focused k v m.standing).1 in
      let (h1, root1, e1, f1) =
        attach_lem s.next (fresh_node k v) missing.focused held missing.from_low missing.to_high in
      let (h2, root2, t', e2, f2, same, balanced) =
        insert_fixup_lem fuel missing.black_height f1 refl
          (missing.empty, missing.empty, refl, refl) missing.fits
          (omega (arith, missing.shallow)) in
      let all : entries t' ≡ xs ++ ((s.next, k, v) ∷ ys) =
        same ∙ entries-around (node leaf s.next k v true leaf) p in
      record {
        node_of = s.next;
        state = record s {
          nodes = h2;
          next = s.next + 1;
          root = root2;
          size = (s.size + 1) % 2 ^ 64;
        };
        tree = t';
        returns =
            rw (missing.returns, e1, e2, e, has_key-Below k xs ys below, has_key-From k ys from)
              refl;
        is_map = record {
          standing = resized ((s.size + 1) % 2 ^ 64) f2;
          balanced = balanced;
          sized =
              size_next s.size xs ys (s.next, k, v) (m.sized ∙ ap (λ es. length es % 2 ^ 64) e)
              ∙ ap (λ es. length es % 2 ^ 64) (sym all);
        };
        same_nil = refl;
        contents =
            all
            ∙ sym
                (rw (e, placed-Below s.next k v xs ys below, placed-From s.next k v ys from) refl);
        at_key = sym (
            rw
              (
                all,
                locate-Below s.nil k xs ((s.next, k, v) ∷ ys) below,
                locate_here s.nil k s.next v ys,
              )
              refl);
      }

  -- Of a map and a key below 2^64, with more rounds than the tree is high, `Insert` returns the node that
  -- has the key and whether it is new, and a map, so a red-black tree with its nodes counted: the
  -- bindings are the old ones, and the new one in its place if the key was not bound.
  pub insert_lem :
      {s : State V} {t : Tree V} (fuel k : ℕ) (v : V)
      → IsMap s t
      → k < key_limit
      → height t < fuel
      → IsPlaced s t k v (insert fuel k v s)
  unfolding new_node
  insert_lem {s} {t} fuel k v m below enough =
      let rooted : s.root ≡ address s.nil t = m.standing.rooted in
      let made = (new_node k v s).1 in
      let black : Meets t top = λ e. sym m.balanced.0 ∙ e in
      elim (descend_lem fuel k m.balanced.1 (height t) (new_node-Focused k v m.standing).0
        (omega arith) below m.balanced.2 tt black enough (omega arith)) [
          | inl found ↦
              insert-Found fuel k v m
                (subst (λ q. Found made k t (descend fuel k q s.nil made)) (sym rooted) found)
          | inr missing ↦ insert-Missing fuel k v m enough (
              subst (λ q. Missing made k (height t) t (descend fuel k q s.nil made)) (sym rooted)
                missing)
        ]
