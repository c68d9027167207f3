-- ===== src/Map/Endings.antt =====
-- Where the loop of `DeleteFixup` in driver/std/map/map.h ends, and the painting of the node there, which may
-- be the sentinel.
use windows_kernel_events_tr.Prelude.{
  ℕ, ◌<◌, ◌≡◌, refl, ◌∙◌, ap, true, false, Option, some, ◌==◌, arith, ◌⊎◌, inl, inr, Bool-cases,
}
use windows_kernel_events_tr.Prelude.Maps.{put, put-same, put-other}
use windows_kernel_events_tr.Map.Nodes.{Node, State, write, painted}
use windows_kernel_events_tr.Map.Removal.{goes_on}
use windows_kernel_events_tr.Map.Shape.{
  Tree, leaf, node, Context, top, left_of, right_of, address, above, root_of, entries, depth, low,
  high, Holds, StandsAround, IsFocused,
}
use windows_kernel_events_tr.Map.Frames.{
  on, Stands-kept, StandsAround-kept, apart, unused_apart, paint_lem,
}
use windows_kernel_events_tr.Map.Colours.{is_red_tree}
use windows_kernel_events_tr.Map.Relinking.{Outside, apart-Inside, apart_comm, same_address}
use windows_kernel_events_tr.Map.Fixups.{colour_lem}

module _ {V : Type 0} where
  -- A store through a pointer to the sentinel leaves the tree alone.
  pub nil_lem :
      {s : State V} {t : Tree V} {p : Context V} (g : Node V → Node V)
      → ((n : Node V) → (g n).is_red ≡ false ⊎ (g n).is_red ≡ n.is_red)
      → IsFocused s t p
      → (h : ℕ → Option (Node V)) × (write s.nil g s ≡ some (on s h))
        × IsFocused (on s h) t p
        × ((q : ℕ) (n : Node V) → Holds s.nil s.nodes q n → h q ≡ some n)
        × (n : Node V) × (h s.nil ≡ some (g n))
  unfolding write
  nil_lem {s} {t} {p} g keeps_black f =
      let keep : (q : ℕ) (n : Node V)
          → Holds s.nil s.nodes q n
          → Unit {0}
          → put s.nil (g f.sentinel) s.nodes q ≡ some n =
        λ q n held u.
          put-other s.nil q (g f.sentinel) s.nodes (apart_comm q s.nil held.1) ∙ held.0 in
      (
        put s.nil (g f.sentinel) s.nodes,
        rw (f.at_nil) refl,
        record {
          sentinel = g f.sentinel;
          at_nil = put-same s.nil (g f.sentinel) s.nodes;
          black = elim (keeps_black f.sentinel) [ inl e ↦ e | inr e ↦ e ∙ f.black ];
          rooted = f.rooted;
          focus =
              Stands-kept s.nil {P = λ j. Unit {0}} (above s.nil p) t (low p) (high p) (λ j l u. tt)
                keep f.focus;
          around =
              StandsAround-kept s.nil {P = λ j. Unit {0}} (address s.nil t) p (λ j o. tt) keep
                f.around;
          unused = λ q u.
              put-other s.nil q (g f.sentinel) s.nodes
                (unused_apart s.nodes s.nil q f.sentinel f.at_nil (f.unused q u))
              ∙ f.unused q u;
        },
        λ q n held. keep q n held tt,
        f.sentinel,
        put-same s.nil (g f.sentinel) s.nodes,
      )

  -- `x->is_red = false`, on the node in focus or on the sentinel.
  abbrev pub blacked : Tree V → Tree V
  blacked leaf = leaf
  blacked (node l a k v c r) = node l a k v false r

  pub entries-blacked : (t : Tree V) → entries (blacked t) ≡ entries t
  entries-blacked leaf = refl
  entries-blacked (node l a k v c r) = refl

  pub blacken_lem :
      {s : State V} (t : Tree V) {p : Context V}
      → IsFocused s t p
      → (h : ℕ → Option (Node V)) × (write (address s.nil t) (painted false) s ≡ some (on s h))
        × IsFocused (on s h) (blacked t) p
  blacken_lem leaf f =
      let (h, e, f', keeps, n, at) = nil_lem (painted false) (λ n. inl refl) f in (h, e, f')
  blacken_lem (node l a k v c r) f = let (h, e, f', n) = paint_lem false f in (h, e, f')

  -- Where the root of a tree stands, seen from the node `n` at `a`.
  root_above :
      (s : State V) (a : ℕ) (n : Node V) (up : Context V)
      → Holds s.nil s.nodes a n
      → StandsAround s.nil s.nodes a up
      → (m : Node V) × Holds s.nil s.nodes (root_of s.nil a up) m
        × ((m.key ≡ n.key) ⊎ Outside (low up) (high up) m.key)
  root_above s a n top held around = (n, held, inl refl)
  root_above s a n (left_of b k v c r up) held (at, lo_up, hi_up, st, around) =
      let (m, found, cases) = root_above s b _ up at around in
      (
        m,
        found,
        elim cases [
          | inl e ↦ inr (inr (omega (arith, e)))
          | inr (inl o) ↦ inr (inl o)
          | inr (inr o) ↦ inr (inr (omega arith))
        ],
      )
  root_above s a n (right_of l b k v c up) held (at, lo_up, hi_up, st, around) =
      let (m, found, cases) = root_above s b _ up at around in
      (
        m,
        found,
        elim cases [
          | inl e ↦ inr (inl (omega (arith, e)))
          | inr (inl o) ↦ inr (inl (omega arith))
          | inr (inr o) ↦ inr (inr o)
        ],
      )

  root_apart :
      {s : State V} (t : Tree V) {p : Context V} (r : ℕ) (m : Node V)
      → IsFocused s t p
      → Holds s.nil s.nodes r m
      → Outside (low p) (high p) m.key
      → (address s.nil t == r) ≡ false
  root_apart {s} leaf r m f held out = apart_comm r s.nil held.1
  root_apart {s} (node l a k v c u) r m f held out =
      apart s.nodes a r _ m f.focus.0.0 held.0
        (λ (e : k ≡ m.key). absurd (apart-Inside k m.key _ _ (f.focus.1, f.focus.2) out e))

  -- Below the root, no pointer is `root_`.
  below_root :
      {s : State V} (t : Tree V) (p : Context V)
      → IsFocused s t p
      → 0 < depth p
      → (address s.nil t == s.root) ≡ false
  below_root t top f deep = absurd (omega arith)
  below_root {s} t (left_of a k v c r up) f deep =
      let (m, held, cases) = root_above s a _ up f.around.0 f.around.4 in
      ap (λ q. address s.nil t == q) f.rooted
      ∙ root_apart t _ m f held (elim cases [
        | inl e ↦ inr (omega (arith, e))
        | inr (inl o) ↦ inl o
        | inr (inr o) ↦ let under = f.around.2 in inr (omega arith)
      ])
  below_root {s} t (right_of l a k v c up) f deep =
      let (m, held, cases) = root_above s a _ up f.around.0 f.around.4 in
      ap (λ q. address s.nil t == q) f.rooted
      ∙ root_apart t _ m f held (elim cases [
        | inl e ↦ inl (omega (arith, e))
        | inr (inl o) ↦ let over = f.around.1 in inl (omega arith)
        | inr (inr o) ↦ inr o
      ])

  -- The loop goes on under a black node that is not the root.
  pub goes_on_lem :
      {s : State V} (t : Tree V) (p : Context V)
      → IsFocused s t p
      → 0 < depth p
      → is_red_tree t ≡ false
      → goes_on (address s.nil t) s ≡ some true
  unfolding goes_on
  goes_on_lem t p f deep black = rw (below_root t p f deep, colour_lem t f, black) refl

  pub stops_red :
      {s : State V} (t : Tree V) (p : Context V)
      → IsFocused s t p
      → is_red_tree t ≡ true
      → goes_on (address s.nil t) s ≡ some false
  unfolding goes_on
  stops_red {s} t p f red = elim (Bool-cases (address s.nil t == s.root)) [
    | inl e ↦ rw (e) refl
    | inr e ↦ rw (e, colour_lem t f, red) refl
  ]

  pub stops_top :
      {s : State V} (t : Tree V) (p : Context V)
      → IsFocused s t p
      → depth p ≡ 0
      → goes_on (address s.nil t) s ≡ some false
  unfolding goes_on
  stops_top {s} t top f e =
      rw (ap (λ q. address s.nil t == q) f.rooted ∙ same_address (address s.nil t)) refl
  stops_top t (left_of b j w d u up) f e = absurd (omega (arith, e))
  stops_top t (right_of u b j w d up) f e = absurd (omega (arith, e))
