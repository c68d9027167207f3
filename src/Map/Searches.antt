-- ===== src/Map/Searches.antt =====
-- `Find` and `Count` of driver/std/map/map.h, on the trees that a store stands for.
use windows_kernel_events_tr.Prelude.{
  ℕ, zero, suc, ◌≤◌, ◌<◌, ◌≡◌, refl, ◌∙◌, ap, Bool, false, not, some, none, ◌==◌, if◌then◌else◌,
  List, [], ◌∷◌, ◌++◌, arith, ◌⊎◌, inl, inr, Bool-cases, ltb, tests,
}
use windows_kernel_events_tr.Map.Nodes.{State}
use windows_kernel_events_tr.Map.Search.{toward, find_loop, find, count}
use windows_kernel_events_tr.Map.Shape.{
  Tree, leaf, node, Context, address, entries, height, low, high, IsFocused, Represents, Stands,
  key_limit,
}
use windows_kernel_events_tr.Map.Frames.{into_left, into_right}
use windows_kernel_events_tr.Map.Contents.{
  locate, has_key, Below, From, Below-le, From-le, Stands-Below, Stands-From, locate-Below,
  locate-From,
}
use windows_kernel_events_tr.Map.Relinking.{same_address}

module _ {V : Type 0} where
  -- How a search for `k` goes on from the node in focus.
  pub toward_cases :
      {s : State V} {l r : Tree V} {a j : ℕ} {v : V} {c : Bool} {p : Context V} (k : ℕ)
      → IsFocused s (node l a j v c r) p
      → ((k < j) × (toward k a s ≡ some (some (address s.nil l))))
        ⊎ (((j < k) × (toward k a s ≡ some (some (address s.nil r))))
            ⊎ ((j ≡ k) × (toward k a s ≡ some none)))
  unfolding toward
  toward_cases {j = j} k f = elim (Bool-cases (ltb k j)) [
    | inl e ↦ inl (omega (tests, e), rw (f.focus.0.0, e) refl)
    | inr e ↦ elim (Bool-cases (ltb j k)) [
      | inl e' ↦ inr (inl (omega (tests, e'), rw (f.focus.0.0, e, e') refl))
      | inr e' ↦ inr (inr (ground arith, rw (f.focus.0.0, e, e') refl))
    ]
  ]

  -- What stands to the left and to the right of the node in focus, below it.
  pub keys_left :
      {s : State V} {l r : Tree V} {a j : ℕ} {v : V} {c : Bool} {p : Context V} (k : ℕ)
      → IsFocused s (node l a j v c r) p
      → j ≤ k
      → Below k (entries l)
  keys_left {s} {l} {a = a} {j} {p = p} k f h =
      Below-le j k (entries l) h (Stands-Below s a l (low p) j f.focus.3)

  pub keys_right :
      {s : State V} {l r : Tree V} {a j : ℕ} {v : V} {c : Bool} {p : Context V} (k : ℕ)
      → IsFocused s (node l a j v c r) p
      → k ≤ j
      → From (suc k) (entries r)
  keys_right {s} {r = r} {a} {j} {p = p} k f h =
      From-le (suc j) (suc k) (entries r) (omega arith)
        (Stands-From s a r (suc j) (high p) f.focus.4)

  locate_skip :
      (d k a j : ℕ) (v : V) (xs : List (ℕ × ℕ × V))
      → j < k
      → locate d k ((a, j, v) ∷ xs) ≡ locate d k xs
  unfolding locate
  locate_skip d k a j v xs h = ground arith

  locate_here :
      (d k a j : ℕ) (v : V) (xs : List (ℕ × ℕ × V)) → j ≡ k → locate d k ((a, j, v) ∷ xs) ≡ a
  unfolding locate
  locate_here d k a j v xs h = ground arith

  find_loop_lem :
      (fuel : ℕ) {s : State V} {t : Tree V} {p : Context V} (k : ℕ)
      → IsFocused s t p
      → height t < fuel
      → find_loop fuel k (address s.nil t) s ≡ some (locate s.nil k (entries t))
  unfolding find_loop locate
  find_loop_lem zero k f enough = absurd (omega arith)
  find_loop_lem (suc fuel) {s} {t = leaf} k f enough =
      rw (find_loop, same_address s.nil, locate) refl
  find_loop_lem (suc fuel) {s} {t = node l a j v c r} {p} k f enough = elim (toward_cases k f) [
    | inl (below, e) ↦
        rw
          (
            find_loop,
            f.focus.0.1,
            e,
            locate-From s.nil k (entries l) ((a, j, v) ∷ entries r)
                (below, keys_right k f (omega arith)),
          )
          (find_loop_lem fuel k (into_left f) (omega arith))
    | inr (inl (over, e)) ↦
        rw
          (
            find_loop,
            f.focus.0.1,
            e,
            locate-Below s.nil k (entries l) ((a, j, v) ∷ entries r) (keys_left k f (omega arith)),
            locate_skip s.nil k a j v (entries r) over,
          )
          (find_loop_lem fuel k (into_right f) (omega arith))
    | inr (inr (same, e)) ↦
        rw
          (
            find_loop,
            f.focus.0.1,
            e,
            locate-Below s.nil k (entries l) ((a, j, v) ∷ entries r)
                (keys_left k f (omega (arith, same))),
            locate_here s.nil k a j v (entries r) same,
          )
          refl
  ]

  -- `Find` returns the node that has the key, and `End()` where none has.
  pub find_lem :
      (fuel : ℕ) {s : State V} {t : Tree V} (k : ℕ)
      → Represents s t
      → height t < fuel
      → find fuel k s ≡ some (locate s.nil k (entries t))
  unfolding find
  find_lem fuel {s} {t} k f enough =
      ap (λ q. find_loop fuel k q s) f.rooted ∙ find_loop_lem fuel k f enough

  abbrev AllApart : ℕ → List (ℕ × ℕ × V) → Type 0
  AllApart nil [] = Unit {0}
  AllApart nil ((a, k, v) ∷ xs) = ((a == nil) ≡ false) × AllApart nil xs

  AllApart-append :
      (nil : ℕ) (xs ys : List (ℕ × ℕ × V))
      → AllApart nil xs
      → AllApart nil ys
      → AllApart nil (xs ++ ys)
  AllApart-append nil [] ys b c = c
  AllApart-append nil (x ∷ xs) ys b c = (b.0, AllApart-append nil xs ys b.1 c)

  -- No node of a tree stands at the sentinel's address.
  entries-AllApart :
      (s : State V) (p : ℕ) (t : Tree V) (lo hi : ℕ)
      → Stands s.nil s.nodes p t lo hi
      → AllApart s.nil (entries t)
  entries-AllApart s p leaf lo hi st = tt
  entries-AllApart s p (node l a k v c r) lo hi (held, above_lo, below_hi, sl, sr) =
      AllApart-append s.nil (entries l) ((a, k, v) ∷ entries r) (entries-AllApart s a l lo k sl)
        (held.1, entries-AllApart s a r (suc k) hi sr)

  locate-has_key :
      (nil k : ℕ) (xs : List (ℕ × ℕ × V))
      → AllApart nil xs
      → (locate nil k xs == nil) ≡ not (has_key k xs)
  unfolding locate has_key
  locate-has_key nil k [] apart = same_address nil
  locate-has_key nil k ((a, j, v) ∷ xs) apart = elim (Bool-cases (j == k)) [
    | inl e ↦ rw (e, apart.0) refl
    | inr e ↦ rw (e) (locate-has_key nil k xs apart.1)
  ]

  -- `Count` is 1 for a key that is there and 0 for one that is not.
  pub count_lem :
      (fuel : ℕ) {s : State V} {t : Tree V} (k : ℕ)
      → Represents s t
      → height t < fuel
      → count fuel k s ≡ some (if has_key k (entries t) then 1 else 0)
  unfolding count
  count_lem fuel {s} {t} k f enough =
      rw
        (
          find_lem fuel k f enough,
          locate-has_key s.nil k (entries t) (entries-AllApart s _ t 0 key_limit f.focus),
        )
        (elim (Bool-cases (has_key k (entries t))) [ inl e ↦ rw (e) refl | inr e ↦ rw (e) refl ])
