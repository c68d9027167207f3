-- ===== src/Map/Values.antt =====
-- The value that a lookup in a map of driver/std/map/map.h gives for a key, on the bindings in the order of the
-- keys, and what `Insert` and `Erase` make of it.
use windows_kernel_events_tr.Prelude.{
  ℕ, ◌^◌, ◌<◌, ◌≡◌, refl, sym, ◌∙◌, ap, true, false, Option, some, none, ◌>>=◌, if◌then◌else◌, ◌==◌,
  List, [], ◌∷◌, ◌++◌, arith, inl, inr, Bool-cases, length, subst,
}
use windows_kernel_events_tr.Map.Nodes.{State}
use windows_kernel_events_tr.Map.Search.{find}
use windows_kernel_events_tr.Map.Shape.{Tree, entries, low}
use windows_kernel_events_tr.Map.Contents.{
  has_key, placed, before, Below, Below-le, Below-append, before-Below, Stands-Below, placed-Below,
}
use windows_kernel_events_tr.Map.Relinking.{same_address}
use windows_kernel_events_tr.Map.Placing.{IsMap, placed_here}
use windows_kernel_events_tr.Map.Lookups.{rounds, find-locates}
use windows_kernel_events_tr.Map.Iteration.{IsAt-node}
use windows_kernel_events_tr.Map.Erased.{without, IsSplit-at, absent_lem}
use windows_kernel_events_tr.SelfDefense.Table.{kept}

module _ {V : Type 0} where
  -- `Find(k)`, and the value at the node where there is one.
  unfoldable pub lookup : ℕ → State V → Option (Option V)
  lookup k s = do
    p ← find rounds k s
    if p == s.nil then some none else (s.nodes p >>= λ n. some (some n.value))

  -- The value of a key, in the list of bindings.
  unfoldable pub value_of : ℕ → List (ℕ × ℕ × V) → Option V
  value_of k [] = none
  value_of k ((a, j, v) ∷ xs) = if j == k then some v else value_of k xs

  pub value_absent : (k : ℕ) (es : List (ℕ × ℕ × V)) → has_key k es ≡ false → value_of k es ≡ none
  unfolding has_key value_of
  value_absent k [] h = refl
  value_absent k ((a, j, v) ∷ es) h = ground (arith, h, value_absent k es)

  value_split :
      (k a : ℕ) (v : V) (xs ys : List (ℕ × ℕ × V))
      → has_key k xs ≡ false
      → value_of k (xs ++ ((a, k, v) ∷ ys)) ≡ some v
  unfolding has_key value_of
  value_split k a v [] ys h = rw (same_address k) refl
  value_split k a v ((b, j, w) ∷ xs) ys h = ground (arith, h, value_split k a v xs ys)

  pub value_placed_other :
      (q k j : ℕ) (v : V) (es : List (ℕ × ℕ × V))
      → (k == j) ≡ false
      → value_of j (placed q k v es) ≡ value_of j es
  unfolding value_of placed
  value_placed_other q k j v [] differ = rw (differ) refl
  value_placed_other q k j v ((a, i, w) ∷ es) differ =
      ground (arith, differ, value_placed_other q k j v es differ)

  value_placed_new :
      (q k : ℕ) (v : V) (es : List (ℕ × ℕ × V))
      → has_key k es ≡ false
      → value_of k (placed q k v es) ≡ some v
  unfolding value_of placed has_key
  value_placed_new q k v [] h = rw (same_address k) refl
  value_placed_new q k v ((a, i, w) ∷ es) h = ground (arith, h, value_placed_new q k v es)

  pub value_without_other :
      (k j : ℕ) (es : List (ℕ × ℕ × V))
      → (k == j) ≡ false
      → value_of j (without k es) ≡ value_of j es
  unfolding value_of without
  value_without_other k j [] differ = refl
  value_without_other k j ((a, i, w) ∷ es) differ =
      ground (arith, differ, value_without_other k j es differ)

  -- A binding that is there stays as it is.
  placed_known :
      {s : State V} {t : Tree V} (q k : ℕ) (v : V)
      → IsMap s t
      → length (entries t) < 2 ^ 64
      → has_key k (entries t) ≡ true
      → placed q k v (entries t) ≡ entries t
  placed_known {s} {t} q k v m few known =
      let split = IsSplit-at s.nil k (entries t) known in
      let at = IsAt-node split.xs split.ys (split.a, k, split.v) m few split.whole in
      let below : Below k split.xs = subst (Below k) at.on_left (
        Below-append k (before at.path) (entries at.l)
          (Below-le (low at.path) k (before at.path) at.focused.focus.1
            (before-Below s split.a at.path at.focused.around))
          (Stands-Below s split.a at.l (low at.path) k at.focused.focus.3)) in
      ap (placed q k v) split.whole
      ∙ (placed-Below q k v split.xs ((split.a, k, split.v) ∷ split.ys) below
          ∙ (ap (λ r. split.xs ++ r) (placed_here q k split.a v split.v split.ys)
              ∙ sym split.whole))

  pub value_placed :
      {s : State V} {t : Tree V} (q k : ℕ) (v : V)
      → IsMap s t
      → length (entries t) < 2 ^ 64
      → value_of k (placed q k v (entries t)) ≡ kept (value_of k (entries t)) v
  value_placed {s} {t} q k v m few = elim (Bool-cases (has_key k (entries t))) [
    | inl known ↦
        let split = IsSplit-at s.nil k (entries t) known in
        let there : value_of k (entries t) ≡ some split.v =
          ap (value_of k) split.whole
          ∙ value_split k split.a split.v split.xs split.ys split.first in
        ap (value_of k) (placed_known q k v m few known) ∙ (there ∙ ap (λ o. kept o v) (sym there))
    | inr unknown ↦
        value_placed_new q k v (entries t) unknown
        ∙ ap (λ o. kept o v) (sym (value_absent k (entries t) unknown))
  ]

  pub lookup_lem :
      {s : State V} {t : Tree V} (k : ℕ)
      → IsMap s t
      → length (entries t) < 2 ^ 64
      → lookup k s ≡ some (value_of k (entries t))
  unfolding lookup
  lookup_lem {s} {t} k m few = elim (Bool-cases (has_key k (entries t))) [
    | inl known ↦
        let split = IsSplit-at s.nil k (entries t) known in
        let at = IsAt-node split.xs split.ys (split.a, k, split.v) m few split.whole in
        let found : find rounds k s ≡ some split.a = find-locates k m few ∙ ap some split.at in
        rw (found, at.focused.focus.0.1, at.focused.focus.0.0)
          (ap some (
            sym (
              ap (value_of k) split.whole
              ∙ value_split k split.a split.v split.xs split.ys split.first)))
    | inr unknown ↦
        let found : find rounds k s ≡ some s.nil =
          find-locates k m few ∙ ap some (absent_lem s.nil k (entries t) unknown).0 in
        rw (found, same_address s.nil) (ap some (sym (value_absent k (entries t) unknown)))
  ]
