-- ===== src/Map/Contents.antt =====
-- The bindings of a Map of driver/std/map/map.h as a list in the order of the keys: what the
-- methods compute on it, and the lists to the left and the right of a subtree.
use windows_kernel_events_tr.Prelude.{
  ℕ, suc, ◌≤◌, ◌<◌, ◌≡◌, refl, sym, ◌∙◌, ap, Bool, true, false, List, [], ◌∷◌, ◌++◌, arith, ltb,
  ◌==◌, if◌then◌else◌,
}
use windows_kernel_events_tr.Map.Shape.{
  Tree, leaf, node, Context, top, left_of, right_of, plug, entries, low, high, Stands, StandsAround,
}
use windows_kernel_events_tr.Map.Colours.{append_assoc}
use windows_kernel_events_tr.Map.Nodes.{State}

module _ {V : Type 0} where
  -- The address of the node that has the key, or `d`.
  unfoldable pub locate : ℕ → ℕ → List (ℕ × ℕ × V) → ℕ
  locate d k [] = d
  locate d k ((a, j, v) ∷ xs) = if j == k then a else locate d k xs

  -- The addresses of the first nodes whose key is not below `k`, and above it.
  unfoldable pub first_from : ℕ → ℕ → List (ℕ × ℕ × V) → ℕ
  first_from d k [] = d
  first_from d k ((a, j, v) ∷ xs) = if ltb j k then first_from d k xs else a

  unfoldable pub first_after : ℕ → ℕ → List (ℕ × ℕ × V) → ℕ
  first_after d k [] = d
  first_after d k ((a, j, v) ∷ xs) = if ltb k j then a else first_after d k xs

  -- A binding put in its place; one with its key stays as it is.
  unfoldable pub placed : ℕ → ℕ → V → List (ℕ × ℕ × V) → List (ℕ × ℕ × V)
  placed q k v [] = (q, k, v) ∷ []
  placed q k v ((a, j, w) ∷ xs) =
      if ltb k j
      then (q, k, v) ∷ ((a, j, w) ∷ xs)
      else if ltb j k
      then (a, j, w) ∷ placed q k v xs
      else (a, j, w) ∷ xs

  unfoldable pub has_key : ℕ → List (ℕ × ℕ × V) → Bool
  has_key k [] = false
  has_key k ((a, j, v) ∷ xs) = if j == k then true else has_key k xs

  -- All keys are below `k`, or from `k` on.
  abbrev pub Below : ℕ → List (ℕ × ℕ × V) → Type 0
  Below k [] = Unit {0}
  Below k ((a, j, v) ∷ xs) = (j < k) × Below k xs

  abbrev pub From : ℕ → List (ℕ × ℕ × V) → Type 0
  From k [] = Unit {0}
  From k ((a, j, v) ∷ xs) = (k ≤ j) × From k xs

  pub Below-append :
      (k : ℕ) (xs ys : List (ℕ × ℕ × V)) → Below k xs → Below k ys → Below k (xs ++ ys)
  Below-append k [] ys b c = c
  Below-append k (x ∷ xs) ys b c = (b.0, Below-append k xs ys b.1 c)

  pub From-append : (k : ℕ) (xs ys : List (ℕ × ℕ × V)) → From k xs → From k ys → From k (xs ++ ys)
  From-append k [] ys b c = c
  From-append k (x ∷ xs) ys b c = (b.0, From-append k xs ys b.1 c)

  pub Below-le : (j k : ℕ) (xs : List (ℕ × ℕ × V)) → j ≤ k → Below j xs → Below k xs
  Below-le j k [] h b = tt
  Below-le j k (x ∷ xs) h b = (omega (arith, b.0), Below-le j k xs h b.1)

  pub From-le : (j k : ℕ) (xs : List (ℕ × ℕ × V)) → k ≤ j → From j xs → From k xs
  From-le j k [] h b = tt
  From-le j k (x ∷ xs) h b = (omega (arith, b.0), From-le j k xs h b.1)

  -- A tree that stands has its keys within its bounds.
  pub Stands-Below :
      (s : State V) (p : ℕ) (t : Tree V) (lo hi : ℕ)
      → Stands s.nil s.nodes p t lo hi
      → Below hi (entries t)
  Stands-Below s p leaf lo hi st = tt
  Stands-Below s p (node l a k v c r) lo hi (held, above_lo, below_hi, sl, sr) =
      Below-append hi (entries l) ((a, k, v) ∷ entries r)
        (Below-le k hi (entries l) (omega arith) (Stands-Below s a l lo k sl))
        (below_hi, Stands-Below s a r (suc k) hi sr)

  pub Stands-From :
      (s : State V) (p : ℕ) (t : Tree V) (lo hi : ℕ)
      → Stands s.nil s.nodes p t lo hi
      → From lo (entries t)
  Stands-From s p leaf lo hi st = tt
  Stands-From s p (node l a k v c r) lo hi (held, above_lo, below_hi, sl, sr) =
      From-append lo (entries l) ((a, k, v) ∷ entries r) (Stands-From s a l lo k sl)
        (above_lo, From-le (suc k) lo (entries r) (omega arith) (Stands-From s a r (suc k) hi sr))

  -- The nodes to the left and to the right of the end of a path.
  abbrev pub before : Context V → List (ℕ × ℕ × V)
  before top = []
  before (left_of a k v c r up) = before up
  before (right_of l a k v c up) = before up ++ (entries l ++ ((a, k, v) ∷ []))

  abbrev pub after : Context V → List (ℕ × ℕ × V)
  after top = []
  after (left_of a k v c r up) = (a, k, v) ∷ (entries r ++ after up)
  after (right_of l a k v c up) = after up

  pub append_nil : (xs : List (ℕ × ℕ × V)) → xs ++ [] ≡ xs
  append_nil [] = refl
  append_nil (x ∷ xs) = ap (λ r. x ∷ r) (append_nil xs)

  pub entries-around :
      (t : Tree V) (p : Context V) → entries (plug t p) ≡ before p ++ (entries t ++ after p)
  entries-around t top = sym (append_nil (entries t))
  entries-around t (left_of a k v c r up) =
      entries-around (node t a k v c r) up
      ∙ ap (λ x. before up ++ x) (append_assoc (entries t) ((a, k, v) ∷ entries r) (after up))
  entries-around t (right_of l a k v c up) =
      entries-around (node l a k v c t) up ∙ simp append_assoc

  pub before-Below :
      (s : State V) (f : ℕ) (p : Context V)
      → StandsAround s.nil s.nodes f p
      → Below (low p) (before p)
  before-Below s f top st = tt
  before-Below s f (left_of a k v c r up) (held, lo_up, hi_up, sr, around) =
      before-Below s a up around
  before-Below s f (right_of l a k v c up) (held, lo_up, hi_up, sl, around) =
      Below-append (suc k) (before up) (entries l ++ ((a, k, v) ∷ []))
        (Below-le (low up) (suc k) (before up) (omega arith) (before-Below s a up around))
        (Below-append (suc k) (entries l) ((a, k, v) ∷ [])
          (Below-le k (suc k) (entries l) (omega arith) (Stands-Below s a l (low up) k sl))
          (omega arith, tt))

  pub after-From :
      (s : State V) (f : ℕ) (p : Context V)
      → StandsAround s.nil s.nodes f p
      → From (high p) (after p)
  after-From s f top st = tt
  after-From s f (left_of a k v c r up) (held, lo_up, hi_up, sr, around) = (
    omega arith,
    From-append k (entries r) (after up)
        (From-le (suc k) k (entries r) (omega arith) (Stands-From s a r (suc k) (high up) sr))
        (From-le (high up) k (after up) (omega arith) (after-From s a up around)),
  )
  after-From s f (right_of l a k v c up) (held, lo_up, hi_up, sl, around) = after-From s a up around

  -- What the functions on lists compute where the keys on one side are known to be smaller, or not
  -- smaller.
  pub locate-Below :
      (d k : ℕ) (xs ys : List (ℕ × ℕ × V)) → Below k xs → locate d k (xs ++ ys) ≡ locate d k ys
  unfolding locate
  locate-Below d k [] ys b = refl
  locate-Below d k ((a, j, v) ∷ xs) ys b = ground (arith, b.0, locate-Below d k xs ys b.1)

  locate_above : (d k : ℕ) (xs : List (ℕ × ℕ × V)) → From (suc k) xs → locate d k xs ≡ d
  unfolding locate
  locate_above d k [] b = refl
  locate_above d k ((a, j, v) ∷ xs) b = ground (arith, b.0, locate_above d k xs b.1)

  pub locate-From :
      (d k : ℕ) (xs ys : List (ℕ × ℕ × V)) → From (suc k) ys → locate d k (xs ++ ys) ≡ locate d k xs
  unfolding locate
  locate-From d k [] ys b = locate_above d k ys b
  locate-From d k ((a, j, v) ∷ xs) ys b = ground (arith, locate-From d k xs ys b)

  pub has_key-Below :
      (k : ℕ) (xs ys : List (ℕ × ℕ × V)) → Below k xs → has_key k (xs ++ ys) ≡ has_key k ys
  unfolding has_key
  has_key-Below k [] ys b = refl
  has_key-Below k ((a, j, v) ∷ xs) ys b = ground (arith, b.0, has_key-Below k xs ys b.1)

  pub has_key-From : (k : ℕ) (xs : List (ℕ × ℕ × V)) → From (suc k) xs → has_key k xs ≡ false
  unfolding has_key
  has_key-From k [] b = refl
  has_key-From k ((a, j, v) ∷ xs) b = ground (arith, b.0, has_key-From k xs b.1)

  pub placed-Below :
      (q k : ℕ) (v : V) (xs ys : List (ℕ × ℕ × V))
      → Below k xs
      → placed q k v (xs ++ ys) ≡ xs ++ placed q k v ys
  unfolding placed
  placed-Below q k v [] ys b = refl
  placed-Below q k v ((a, j, w) ∷ xs) ys b = ground (arith, b.0, placed-Below q k v xs ys b.1)

  pub placed-From :
      (q k : ℕ) (v : V) (xs : List (ℕ × ℕ × V)) → From (suc k) xs → placed q k v xs ≡ (q, k, v) ∷ xs
  unfolding placed
  placed-From q k v [] b = refl
  placed-From q k v ((a, j, w) ∷ xs) b = ground (arith, b.0)

  pub first_from-Below :
      (d k : ℕ) (xs ys : List (ℕ × ℕ × V))
      → Below k xs
      → first_from d k (xs ++ ys) ≡ first_from d k ys
  unfolding first_from
  first_from-Below d k [] ys b = refl
  first_from-Below d k ((a, j, v) ∷ xs) ys b = ground (arith, b.0, first_from-Below d k xs ys b.1)

  pub first_from_at :
      (d k a j : ℕ) (v : V) (xs ys : List (ℕ × ℕ × V))
      → ltb j k ≡ false
      → first_from d k (xs ++ ((a, j, v) ∷ ys)) ≡ first_from a k xs
  unfolding first_from
  first_from_at d k a j v [] ys h = rw (h) refl
  first_from_at d k a j v ((b, i, w) ∷ xs) ys h = ground (arith, first_from_at d k a j v xs ys h)

  pub first_after-Below :
      (d k : ℕ) (xs ys : List (ℕ × ℕ × V))
      → Below (suc k) xs
      → first_after d k (xs ++ ys) ≡ first_after d k ys
  unfolding first_after
  first_after-Below d k [] ys b = refl
  first_after-Below d k ((a, j, v) ∷ xs) ys b = ground (arith, b.0, first_after-Below d k xs ys b.1)

  pub first_after_at :
      (d k a j : ℕ) (v : V) (xs ys : List (ℕ × ℕ × V))
      → ltb k j ≡ true
      → first_after d k (xs ++ ((a, j, v) ∷ ys)) ≡ first_after a k xs
  unfolding first_after
  first_after_at d k a j v [] ys h = rw (h) refl
  first_after_at d k a j v ((b, i, w) ∷ xs) ys h = ground (arith, first_after_at d k a j v xs ys h)
