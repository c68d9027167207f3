-- ===== src/Map/Heights.antt =====
-- How high the red-black trees of driver/std/map/map.h are: the rounds that a descent may need.
use windows_kernel_events_tr.Prelude.{
  ℕ, zero, suc, ◌+◌, ◌*◌, ◌^◌, ◌≤◌, ◌<◌, ◌≡◌, sym, subst, inl, inr, leb, tests, Bool-cases, Bool,
  true, false, arith, length, length-append, ◌∷◌,
}
use windows_kernel_events_tr.Map.Shape.{Tree, leaf, node, entries, height}
use windows_kernel_events_tr.Map.Colours.{is_red_tree, IsRedBlack, IsBalanced}

pow_suc : (n : ℕ) → 2 ^ suc n ≡ 2 * 2 ^ n
pow_suc n = omega arith

pow-le : (m n : ℕ) → m ≤ n → 2 ^ m ≤ 2 ^ n
pow-le zero zero h = omega arith
pow-le zero (suc n) h = omega (arith, pow-le zero n (omega arith), pow_suc n)
pow-le (suc m) zero h = absurd (omega arith)
pow-le (suc m) (suc n) h = omega (arith, pow-le m n (omega arith), pow_suc m, pow_suc n)

module _ {V : Type 0} where
  entries-length :
      (l r : Tree V) (a k : ℕ) (v : V) (c : Bool)
      → length (entries (node l a k v c r)) ≡ length (entries l) + suc (length (entries r))
  entries-length l r a k v c = length-append (entries l) ((a, k, v) ∷ entries r)

  many_nodes : (t : Tree V) (n : ℕ) → IsRedBlack t n → 2 ^ n ≤ length (entries t) + 1
  many_nodes leaf n rb = subst (λ i. 2 ^ i ≤ 1) (sym rb) (omega arith)
  many_nodes (node l a k v true r) n (rl, rr, bl, br) =
      omega (arith, many_nodes l n rl, entries-length l r a k v true)
  many_nodes (node l a k v false r) n (m, e, rl, rr) =
      subst (λ i. 2 ^ i ≤ length (entries (node l a k v false r)) + 1) (sym e)
        (omega
          (arith, pow_suc m, many_nodes l m rl, many_nodes r m rr, entries-length l r a k v false))

  low_height :
      (t : Tree V) (n : ℕ)
      → IsRedBlack t n
      → (height t ≤ 2 * n + 1) × (is_red_tree t ≡ false → height t ≤ 2 * n)
  low_height leaf n rb = (omega arith, λ e. omega arith)
  low_height (node l a k v true r) n (rl, rr, bl, br) =
      let hl = (low_height l n rl).1 bl in
      let hr = (low_height r n rr).1 br in (omega arith, λ e. absurd (cc))
  low_height (node l a k v false r) n (m, e, rl, rr) =
      let hl = (low_height l m rl).0 in
      let hr = (low_height r m rr).0 in (omega (arith, e), λ e'. omega (arith, e))

  -- A tree of fewer than 2^64 nodes is at most 128 high.
  pub height_lem : (t : Tree V) → IsBalanced t → length (entries t) < 2 ^ 64 → height t ≤ 128
  height_lem t (black, n, rb) few =
      let few_black : n ≤ 64 = elim (Bool-cases (leb n 64)) [
        | inl e ↦ omega (tests, e)
        | inr e ↦
            let many : 65 ≤ n = ground arith in
            absurd (omega (arith, pow-le 65 n many, many_nodes t n rb, few))
      ] in
      omega (arith, (low_height t n rb).1 black)
