-- ===== src/Map/Accessing.antt =====
-- `operator[]` of driver/std/map/map.h, on the bindings in the order of the keys.
use windows_kernel_events_tr.Prelude.{
  ℕ, ◌+◌, ◌%◌, ◌^◌, ◌<◌, ◌≡◌, refl, sym, ◌∙◌, ap, true, Option, some, ◌∷◌, ◌++◌, arith, inl, inr,
  subst, length,
}
use windows_kernel_events_tr.Map.Nodes.{State, new_node, fresh_node}
use windows_kernel_events_tr.Map.Insertion.{descend, settle, access}
use windows_kernel_events_tr.Map.Shape.{Tree, leaf, node, top, address, entries, height, key_limit}
use windows_kernel_events_tr.Map.Colours.{Meets}
use windows_kernel_events_tr.Map.Settling.{insert_fixup_lem}
use windows_kernel_events_tr.Map.Insertions.{Found, Missing, descend_lem, attach_lem}
use windows_kernel_events_tr.Map.Contents.{
  locate, placed, before, after, entries-around, placed-Below, placed-From, locate-Below,
}
use windows_kernel_events_tr.Map.Placing.{
  IsMap, Found-split, Missing-split, placed_here, locate_here, size_next, resized, new_node-Focused,
}

module _ {V : Type 0} where
  -- The result is the node that has the key, a new one with the blank value where there was none.
  pub record IsAccessed (s : State V) (t : Tree V) (k : ℕ) (blank : V) (out : Option (ℕ × State V))
      : Type 0 where
    pub node_of : ℕ
    pub state : State V
    pub tree : Tree V
    pub returns : out ≡ some (node_of, state)
    pub is_map : IsMap state tree
    pub same_nil : state.nil ≡ s.nil
    pub contents : entries tree ≡ placed s.next k blank (entries t)
    pub at_key : node_of ≡ locate s.nil k (entries tree)

  access-Found :
      {s : State V} {t : Tree V} (fuel k : ℕ) (blank : V)
      → IsMap s t
      → Found s k t (descend fuel k s.root s.nil s)
      → IsAccessed s t k blank (access fuel blank k s)
  unfolding access
  access-Found {s} {t} fuel k blank m found =
      let (xs, ys, e, below) = Found-split found in
      record {
        node_of = found.a;
        state = s;
        tree = t;
        returns = rw (found.returns) refl;
        is_map = m;
        same_nil = refl;
        contents = sym (
            rw
              (
                e,
                placed-Below s.next k blank xs ((found.a, k, found.v) ∷ ys) below,
                placed_here s.next k found.a blank found.v ys,
              )
              refl);
        at_key = sym (
            rw
              (
                e,
                locate-Below s.nil k xs ((found.a, k, found.v) ∷ ys) below,
                locate_here s.nil k found.a found.v ys,
              )
              refl);
      }

  access-Missing :
      {s : State V} {t : Tree V} (fuel k : ℕ) (blank : V)
      → IsMap s t
      → height t < fuel
      → Missing s k (height t) t (descend fuel k s.root s.nil s)
      → IsAccessed s t k blank (access fuel blank k s)
  unfolding access new_node settle
  access-Missing {s} {t} fuel k blank m enough missing =
      let (e, below, from) = Missing-split missing in
      let p = missing.path in
      let xs = before p in
      let ys = after p in
      let (f0, held) = new_node-Focused k blank missing.focused in
      let (h1, root1, e1, f1) =
        attach_lem s.next (fresh_node k blank) f0 held missing.from_low missing.to_high in
      let (h2, root2, t', e2, f2, same, balanced) =
        insert_fixup_lem fuel missing.black_height f1 refl
          (missing.empty, missing.empty, refl, refl) missing.fits
          (omega (arith, missing.shallow)) in
      let all : entries t' ≡ xs ++ ((s.next, k, blank) ∷ ys) =
        same ∙ entries-around (node leaf s.next k blank true leaf) p in
      record {
        node_of = s.next;
        state = record s {
          nodes = h2;
          next = s.next + 1;
          root = root2;
          size = (s.size + 1) % 2 ^ 64;
        };
        tree = t';
        returns = rw (missing.returns, e1, e2) refl;
        is_map = record {
          standing = resized ((s.size + 1) % 2 ^ 64) f2;
          balanced = balanced;
          sized =
              size_next s.size xs ys (s.next, k, blank) (m.sized ∙ ap (λ es. length es % 2 ^ 64) e)
              ∙ ap (λ es. length es % 2 ^ 64) (sym all);
        };
        same_nil = refl;
        contents =
            all
            ∙ sym (
                rw (e, placed-Below s.next k blank xs ys below, placed-From s.next k blank ys from)
                  refl);
        at_key = sym (
            rw
              (
                all,
                locate-Below s.nil k xs ((s.next, k, blank) ∷ ys) below,
                locate_here s.nil k s.next blank ys,
              )
              refl);
      }

  -- Of a map and a key below 2^64, with more rounds than the tree is high, `map[k]` returns the node of
  -- `k`, and a map whose bindings are the old ones, and `k` with the blank value in its place if it was
  -- not bound.
  pub access_lem :
      {s : State V} {t : Tree V} (fuel k : ℕ) (blank : V)
      → IsMap s t
      → k < key_limit
      → height t < fuel
      → IsAccessed s t k blank (access fuel blank k s)
  access_lem {s} {t} fuel k blank m below enough =
      let rooted : s.root ≡ address s.nil t = m.standing.rooted in
      let black : Meets t top = λ e. sym m.balanced.0 ∙ e in
      elim (descend_lem fuel k m.balanced.1 (height t) m.standing (omega arith) below m.balanced.2
        tt black enough (omega arith)) [
          | inl found ↦
              access-Found fuel k blank m
                (subst (λ q. Found s k t (descend fuel k q s.nil s)) (sym rooted) found)
          | inr missing ↦ access-Missing fuel k blank m enough (
              subst (λ q. Missing s k (height t) t (descend fuel k q s.nil s)) (sym rooted) missing)
        ]
