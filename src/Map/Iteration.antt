-- ===== src/Map/Iteration.antt =====
-- Iterating over a map of driver/std/map/map.h: where `++it` and `--it` go from the node of a binding
-- in the list of bindings, and a whole walk from `Begin()`.
use windows_kernel_events_tr.Prelude.{
  ℕ, zero, suc, ◌+◌, ◌^◌, ◌≤◌, ◌<◌, ◌≡◌, refl, sym, ◌∙◌, ap, Bool, Option, some, ◌>>=◌, List, [],
  ◌∷◌, ◌++◌, arith, inl, inr, ◌⊎◌, subst, length,
}
use windows_kernel_events_tr.Map.Nodes.{State}
use windows_kernel_events_tr.Map.Search.{minimum, begin, advance, retreat}
use windows_kernel_events_tr.Map.Shape.{
  Tree, leaf, node, Context, right_of, plug, entries, height, depth, IsFocused,
}
use windows_kernel_events_tr.Map.Frames.{into_left, into_right}
use windows_kernel_events_tr.Map.Contents.{before, after, append_nil}
use windows_kernel_events_tr.Map.Colours.{append_assoc}
use windows_kernel_events_tr.Map.Relinking.{same_address}
use windows_kernel_events_tr.Map.Steps.{
  first_of, last_of, last_of-cons, minimum_lem, successor_lem, predecessor_lem,
}
use windows_kernel_events_tr.Map.Placing.{IsMap}
use windows_kernel_events_tr.Map.Lookups.{rounds, enough_rounds}

module _ {V : Type 0} where
  -- A node in the list is a node of the tree.
  split_cases :
      (ls rs xs ys : List (ℕ × ℕ × V)) (m x : ℕ × ℕ × V)
      → ls ++ (m ∷ rs) ≡ xs ++ (x ∷ ys)
      → ((zs : List (ℕ × ℕ × V)) × (ls ≡ xs ++ (x ∷ zs)) × (ys ≡ zs ++ (m ∷ rs)))
        ⊎ (((xs ≡ ls) × (m ≡ x) × (rs ≡ ys))
            ⊎ ((zs : List (ℕ × ℕ × V)) × (xs ≡ ls ++ (m ∷ zs)) × (rs ≡ zs ++ (x ∷ ys))))
  split_cases [] rs [] ys m x e = inr (inl (refl, cc, cc))
  split_cases [] rs (x' ∷ xs) ys m x e =
      let head : m ≡ x' = cc in inr (inr (xs, ap (λ q. q ∷ xs) (sym head), cc))
  split_cases (l ∷ ls) rs [] ys m x e = let head : l ≡ x = cc in inl (ls, ap (λ q. q ∷ ls) head, cc)
  split_cases (l ∷ ls) rs (x' ∷ xs) ys m x e =
      let head : l ≡ x' = cc in
      let tail : ls ++ (m ∷ rs) ≡ xs ++ (x ∷ ys) = cc in
      elim (split_cases ls rs xs ys m x tail) [
        | inl (zs, a, b) ↦ inl (zs, cc, b)
        | inr (inl (a, b, c)) ↦ inr (inl (cc, b, c))
        | inr (inr (zs, a, b)) ↦ inr (inr (zs, cc, b))
      ]

  -- A binding in the list has its node in the tree.
  pub record IsAt (s : State V) (all : Tree V) (x : ℕ × ℕ × V) (xs ys : List (ℕ × ℕ × V)) (d : ℕ)
      : Type 0 where
    pub l : Tree V
    pub r : Tree V
    pub c : Bool
    pub path : Context V
    pub focused : IsFocused s (node l x.0 x.1 x.2 c r) path
    pub whole : plug (node l x.0 x.1 x.2 c r) path ≡ all
    pub on_left : before path ++ entries l ≡ xs
    pub on_right : entries r ++ after path ≡ ys
    pub left_height : height l + depth path < d
    pub right_height : height r + depth path < d

  focus-IsAt :
      (t : Tree V) {s : State V} {p : Context V} (xs ys : List (ℕ × ℕ × V)) (x : ℕ × ℕ × V) (d : ℕ)
      → IsFocused s t p
      → entries t ≡ xs ++ (x ∷ ys)
      → height t + depth p ≤ d
      → IsAt s (plug t p) x (before p ++ xs) (ys ++ after p) d
  focus-IsAt leaf [] ys x d f e within = cc
  focus-IsAt leaf (y ∷ xs) ys x d f e within = cc
  focus-IsAt (node l b j w c r) {s} {p} xs ys x d f e within =
      elim (split_cases (entries l) (entries r) xs ys (b, j, w) x e) [
        | inl (zs, a, u) ↦
            let at = focus-IsAt l xs zs x d (into_left f) a (omega arith) in
            subst (λ q. IsAt s (plug (node l b j w c r) p) x (before p ++ xs) q d)
              (sym (append_assoc zs ((b, j, w) ∷ entries r) (after p))
                ∙ ap (λ q. q ++ after p) (sym u))
              at
        | inr (inl (a, same, u)) ↦ record {
          l = l;
          r = r;
          c = c;
          path = p;
          focused = subst (λ (q : ℕ × ℕ × V). IsFocused s (node l q.0 q.1 q.2 c r) p) same f;
          whole = ap (λ (q : ℕ × ℕ × V). plug (node l q.0 q.1 q.2 c r) p) (sym same);
          on_left = ap (λ q. before p ++ q) (sym a);
          on_right = ap (λ q. q ++ after p) u;
          left_height = omega arith;
          right_height = omega arith;
        }
        | inr (inr (zs, a, u)) ↦
            let at = focus-IsAt r zs ys x d (into_right f) u (omega arith) in
            let whole : before (right_of l b j w c p) ++ zs
                ≡ before p ++ (entries l ++ ((b, j, w) ∷ zs)) =
              simp append_assoc in
            subst (λ q. IsAt s (plug (node l b j w c r) p) x q (ys ++ after p) d)
              (whole ∙ ap (λ q. before p ++ q) (sym a)) at
      ]

  pub IsAt-node :
      {s : State V} {t : Tree V} (xs ys : List (ℕ × ℕ × V)) (x : ℕ × ℕ × V)
      → IsMap s t
      → length (entries t) < 2 ^ 64
      → entries t ≡ xs ++ (x ∷ ys)
      → IsAt s t x xs ys 129
  IsAt-node {s} {t} xs ys x m few e =
      subst (λ q. IsAt s t x xs q 129) (append_nil ys)
        (focus-IsAt t xs ys x 129 m.standing e (omega (arith, enough_rounds m few)))

  -- `++it` goes from the node of a binding to that of the next one, and from the last to `End()`.
  pub advance_lem :
      {s : State V} {t : Tree V} (xs ys : List (ℕ × ℕ × V)) (a k : ℕ) (v : V)
      → IsMap s t
      → length (entries t) < 2 ^ 64
      → entries t ≡ xs ++ ((a, k, v) ∷ ys)
      → advance rounds a s ≡ some (first_of s.nil ys)
  unfolding advance
  advance_lem {s} xs ys a k v m few e =
      let at = IsAt-node xs ys (a, k, v) m few e in
      rw (at.focused.focus.0.1) (
        successor_lem rounds at.focused (omega (arith, at.right_height))
          (omega (arith, at.right_height))
        ∙ ap (λ q. some (first_of s.nil q)) at.on_right)

  -- `--it` goes to the one before.
  pub retreat_lem :
      {s : State V} {t : Tree V} (xs ys : List (ℕ × ℕ × V)) (a k : ℕ) (v : V)
      → IsMap s t
      → length (entries t) < 2 ^ 64
      → entries t ≡ xs ++ ((a, k, v) ∷ ys)
      → retreat rounds a s ≡ some (last_of s.nil xs)
  unfolding retreat
  retreat_lem {s} xs ys a k v m few e =
      let at = IsAt-node xs ys (a, k, v) m few e in
      rw (at.focused.focus.0.1) (
        predecessor_lem rounds at.focused (omega (arith, at.left_height))
          (omega (arith, at.left_height))
        ∙ ap (λ q. some (last_of s.nil q)) at.on_left)

  -- `Begin()` of a map that is not empty is its first node.
  begin_lem :
      {s : State V} {t : Tree V} (x : ℕ × ℕ × V) (ys : List (ℕ × ℕ × V))
      → IsMap s t
      → length (entries t) < 2 ^ 64
      → entries t ≡ x ∷ ys
      → begin rounds s ≡ some x.0
  unfolding begin
  begin_lem {t = leaf} x ys m few e = cc
  begin_lem {s} {t = node l a k v c r} x ys m few e =
      ap (λ q. minimum rounds q s) m.standing.rooted
      ∙ (minimum_lem rounds s.nil m.standing (omega (arith, enough_rounds m few))
          ∙ ap (λ q. some (first_of s.nil q)) e)

  -- `for (n times) ++it`
  unfoldable pub walk : ℕ → ℕ → State V → Option ℕ
  walk zero p s = some p
  walk (suc n) p s = advance rounds p s >>= λ q. walk n q s

  abbrev pub address_at : ℕ → List (ℕ × ℕ × V) → ℕ → ℕ
  address_at d [] n = d
  address_at d ((a, k, v) ∷ xs) zero = a
  address_at d ((a, k, v) ∷ xs) (suc n) = address_at d xs n

  walk_end : (s : State V) (n : ℕ) → walk n s.nil s ≡ some s.nil
  unfolding walk advance
  walk_end s zero = refl
  walk_end s (suc n) = rw (walk, same_address s.nil) (walk_end s n)

  walk_from :
      {s : State V} {t : Tree V} (n : ℕ) (xs ys : List (ℕ × ℕ × V)) (x : ℕ × ℕ × V)
      → IsMap s t
      → length (entries t) < 2 ^ 64
      → entries t ≡ xs ++ (x ∷ ys)
      → walk n x.0 s ≡ some (address_at s.nil (x ∷ ys) n)
  unfolding walk
  walk_from zero xs ys x m few e = refl
  walk_from {s} (suc n) xs [] x m few e =
      rw (walk, advance_lem xs [] x.0 x.1 x.2 m few e) (walk_end s n)
  walk_from (suc n) xs (y ∷ ys) x m few e =
      rw (walk, advance_lem xs (y ∷ ys) x.0 x.1 x.2 m few e)
        (walk_from n (xs ++ (x ∷ [])) ys y m few (e ∙ sym (append_assoc xs (x ∷ []) (y ∷ ys))))

  head_of :
      (es : List (ℕ × ℕ × V))
      → 0 < length es
      → (x : ℕ × ℕ × V) × (ys : List (ℕ × ℕ × V)) × (es ≡ x ∷ ys)
  head_of [] h = absurd (omega arith)
  head_of (x ∷ ys) h = (x, ys, refl)

  -- In a map of some but fewer than 2^64 nodes, `n` times `++it` from `Begin()` leads to node `n` in the
  -- order of the keys, and to `End()` where there are no more.
  pub begin-walk :
      {s : State V} {t : Tree V} (n : ℕ)
      → IsMap s t
      → 0 < length (entries t)
      → length (entries t) < 2 ^ 64
      → (begin rounds s >>= λ p. walk n p s) ≡ some (address_at s.nil (entries t) n)
  begin-walk {s} {t} n m some_entry few =
      let (x, ys, e) = head_of (entries t) some_entry in
      rw (begin_lem x ys m few e)
        (walk_from n [] ys x m few e ∙ ap (λ q. some (address_at s.nil q n)) (sym e))

  -- Between two neighbouring nodes of a map of fewer than 2^64, `++it` followed by `--it` comes back,
  -- and so does `--it` followed by `++it`.
  pub retreat-advance :
      {s : State V} {t : Tree V} (xs ys : List (ℕ × ℕ × V)) (x y : ℕ × ℕ × V)
      → IsMap s t
      → length (entries t) < 2 ^ 64
      → entries t ≡ xs ++ (x ∷ (y ∷ ys))
      → ((advance rounds x.0 s >>= λ p. retreat rounds p s) ≡ some x.0)
        × ((retreat rounds y.0 s >>= λ p. advance rounds p s) ≡ some y.0)
  retreat-advance {s} xs ys x y m few e =
      let later = e ∙ sym (append_assoc xs (x ∷ []) (y ∷ ys)) in
      let forward = advance_lem xs (y ∷ ys) x.0 x.1 x.2 m few e in
      let back : retreat rounds y.0 s ≡ some x.0 =
        retreat_lem (xs ++ (x ∷ [])) ys y.0 y.1 y.2 m few later
        ∙ ap some (last_of-cons s.nil x.0 x.1 x.2 xs []) in
      (rw (forward) back, rw (back) forward)
