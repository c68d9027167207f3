-- ===== src/Memory.antt =====
-- driver/std/memory: the blocks that `new T[n]` returns, and the loops of the containers that copy
-- and fill them. A block is the list of its slots; an access outside it is a fault, `none`.
use windows_kernel_events_tr.Prelude.{
  ℕ, zero, suc, ◌+◌, ◌-◌, ◌≤◌, ◌<◌, ◌≡◌, refl, ap, sym, subst, ◌∙◌, inl, inr, Option, none, some,
  List, [], ◌∷◌, ◌++◌, arith, length, get_elem?, set, take, drop, ◌>>=◌, ltb, if◌then◌else◌,
  length-set, length-append, length-take, length-drop, take-append-drop, replicate,
  length-replicate, leb, Bool-cases,
}

-- What the containers need of an element type: `T()`, and what `new T[n]` returns. The allocator
-- waits until it has memory, so it returns a block of the size asked for; what the block holds is
-- not fixed here.
pub record Element {ℓ} (A : Type ℓ) : Type ℓ where
  pub blank : A
  pub block : ℕ → List A
  pub length-block : (n : ℕ) → length (block n) ≡ n

module _ {ℓ} {A : Type ℓ} where
  -- `p[i] = x`
  unfoldable pub store : List A → ℕ → A → Option (List A)
  store p i x = if ltb i (length p) then some (set p i x) else none

  -- `for (k = 0; k < n; ++k) p[i + k] = q[j + k]`
  unfoldable pub copy : ℕ → List A → ℕ → List A → ℕ → Option (List A)
  copy zero p i q j = some p
  copy (suc n) p i q j = get_elem? q j >>= λ x. store p i x >>= λ p'. copy n p' (suc i) q (suc j)

  -- `for (k = 0; k < n; ++k) p[i + k] = x`
  unfoldable pub fill : ℕ → List A → ℕ → A → Option (List A)
  fill zero p i x = some p
  fill (suc n) p i x = store p i x >>= λ p'. fill n p' (suc i) x

  pub store_in : (p : List A) (i : ℕ) (x : A) → i < length p → store p i x ≡ some (set p i x)
  unfolding store
  store_in p i x h = ground arith

  pub store_out : (p : List A) (i : ℕ) (x : A) → length p ≤ i → store p i x ≡ none
  unfolding store
  store_out p i x h = ground arith

  pub take-set :
      (p : List A) (i : ℕ) (x : A) → i < length p → take (suc i) (set p i x) ≡ take i p ++ x ∷ []
  take-set [] i x h = absurd (omega arith)
  take-set (y ∷ p) zero x h = refl
  take-set (y ∷ p) (suc i) x h = ap (λ r. y ∷ r) (take-set p i x (omega arith))

  pub drop-set : (p : List A) (i j : ℕ) (x : A) → i < j → drop j (set p i x) ≡ drop j p
  drop-set [] i j x h = refl
  drop-set (y ∷ p) i zero x h = absurd (omega arith)
  drop-set (y ∷ p) zero (suc j) x h = refl
  drop-set (y ∷ p) (suc i) (suc j) x h = drop-set p i j x (omega arith)

  pub take-set_le : (p : List A) (i j : ℕ) (x : A) → j ≤ i → take j (set p i x) ≡ take j p
  take-set_le [] i j x h = refl
  take-set_le (y ∷ p) i zero x h = refl
  take-set_le (y ∷ p) zero (suc j) x h = absurd (omega arith)
  take-set_le (y ∷ p) (suc i) (suc j) x h = ap (λ r. y ∷ r) (take-set_le p i j x (omega arith))

  -- A read inside a block, and what stands from there on.
  pub drop-cons :
      (q : List A) (j : ℕ)
      → j < length q
      → (x : A) × (get_elem? q j ≡ some x) × (drop j q ≡ x ∷ drop (suc j) q)
  drop-cons [] j h = absurd (omega arith)
  drop-cons (y ∷ q) zero h = (y, refl, refl)
  drop-cons (y ∷ q) (suc j) h = drop-cons q j (omega arith)

  pub get_elem?_out : (q : List A) (j : ℕ) → length q ≤ j → get_elem? q j ≡ none
  get_elem?_out [] j h = refl
  get_elem?_out (y ∷ q) zero h = absurd (omega arith)
  get_elem?_out (y ∷ q) (suc j) h = get_elem?_out q j (omega arith)

  pub append_assoc3 : (a b c : List A) → (a ++ b) ++ c ≡ a ++ (b ++ c)
  append_assoc3 [] b c = refl
  append_assoc3 (x ∷ a) b c = ap (λ r. x ∷ r) (append_assoc3 a b c)

  -- Inside both blocks the copying loop returns, and replaces exactly that stretch.
  pub copy_lem :
      (n : ℕ) (p : List A) (i : ℕ) (q : List A) (j : ℕ)
      → i + n ≤ length p
      → j + n ≤ length q
      → copy n p i q j ≡ some (take i p ++ (take n (drop j q) ++ drop (i + n) p))
  unfolding copy
  copy_lem zero p i q j hp hq = ap some (sym (rw (index_of_zero) (take-append-drop i p)))
    where
      index_of_zero : i + 0 ≡ i
      index_of_zero = omega arith
  copy_lem (suc n) p i q j hp hq =
      let (x, at, rest) = drop-cons q j (omega arith) in
      rw (
        at,
        store_in p i x (omega arith),
        copy_lem n (set p i x) (suc i) q (suc j) (omega (arith, length-set p i x)) (omega arith),
        take-set p i x (omega arith),
        rest,
        drop-set p i (suc i + n) x (omega arith),
        append_assoc3,
        shift,
      )
    where
      shift : suc i + n ≡ i + suc n
      shift = omega arith

  -- So does the filling loop.
  pub fill_lem :
      (n : ℕ) (p : List A) (i : ℕ) (x : A)
      → i + n ≤ length p
      → fill n p i x ≡ some (take i p ++ (replicate n x ++ drop (i + n) p))
  unfolding fill
  fill_lem zero p i x hp = ap some (sym (rw (index_of_zero) (take-append-drop i p)))
    where
      index_of_zero : i + 0 ≡ i
      index_of_zero = omega arith
  fill_lem (suc n) p i x hp = rw (
    store_in p i x (omega arith),
    fill_lem n (set p i x) (suc i) x (omega (arith, length-set p i x)),
    take-set p i x (omega arith),
    drop-set p i (suc i + n) x (omega arith),
    append_assoc3,
    shift,
  )
    where
      shift : suc i + n ≡ i + suc n
      shift = omega arith

  pub take-append : (n : ℕ) (p q : List A) → n ≡ length p → take n (p ++ q) ≡ p
  take-append zero [] q h = refl
  take-append zero (x ∷ p) q h = absurd (omega arith)
  take-append (suc n) [] q h = absurd (omega arith)
  take-append (suc n) (x ∷ p) q h = ap (λ r. x ∷ r) (take-append n p q (omega arith))

  pub take-append_add :
      (n m : ℕ) (p q : List A) → n ≡ length p → take (n + m) (p ++ q) ≡ p ++ take m q
  take-append_add zero m [] q h = rw (add_zero_left)
    where
      add_zero_left : 0 + m ≡ m
      add_zero_left = omega arith
  take-append_add zero m (x ∷ p) q h = absurd (omega arith)
  take-append_add (suc n) m [] q h = absurd (omega arith)
  take-append_add (suc n) m (x ∷ p) q h =
      rw (next) (ap (λ r. x ∷ r) (take-append_add n m p q (omega arith)))
    where
      next : suc n + m ≡ suc (n + m)
      next = omega arith

  pub take_all : (n : ℕ) (p : List A) → length p ≤ n → take n p ≡ p
  take_all zero [] h = refl
  take_all zero (x ∷ p) h = absurd (omega arith)
  take_all (suc n) [] h = refl
  take_all (suc n) (x ∷ p) h = ap (λ r. x ∷ r) (take_all n p (omega arith))

  -- Copying a prefix to the front of a block.
  pub copy_prefix :
      (n : ℕ) (p q : List A)
      → n ≤ length p
      → n ≤ length q
      → copy n p 0 q 0 ≡ some (take n q ++ drop n p)
  copy_prefix n p q hp hq = rw (copy_lem n p 0 q 0 (omega arith) (omega arith), index_of_zero)
    where
      index_of_zero : 0 + n ≡ n
      index_of_zero = omega arith

  pub length-prefix :
      (n : ℕ) (p q : List A)
      → n ≤ length p
      → n ≤ length q
      → length (take n q ++ drop n p) ≡ length p
  length-prefix n p q hp hq =
      omega (arith, length-append (take n q) (drop n p), length-take n q, length-drop n p)

  -- A copied prefix is the prefix of the new block.
  pub take-prefix : (n : ℕ) (p q : List A) → n ≤ length q → take n (take n q ++ p) ≡ take n q
  take-prefix n p q h = take-append n (take n q) p (omega (arith, length-take n q))

  -- What stands in a block up to the end of a copied or filled stretch.
  pub take-spliced :
      (i n : ℕ) (p q s : List A)
      → i ≤ length p
      → length q ≡ n
      → take (i + n) (take i p ++ (q ++ s)) ≡ take i p ++ q
  take-spliced i n p q s hi hq = rw (
    take-append_add i n (take i p) (q ++ s) (omega (arith, length-take i p)),
    take-append n q s (omega arith),
  )

  pub length-spliced :
      (i n : ℕ) (p q : List A)
      → i + n ≤ length p
      → length q ≡ n
      → length (take i p ++ (q ++ drop (i + n) p)) ≡ length p
  length-spliced i n p q hp hq = omega (
    arith,
    length-append (take i p) (q ++ drop (i + n) p),
    length-append q (drop (i + n) p),
    length-take i p,
    length-drop (i + n) p,
  )

  pub take-take : (n m : ℕ) (p : List A) → n ≤ m → take n (take m p) ≡ take n p
  take-take zero m p h = refl
  take-take (suc n) zero p h = absurd (omega arith)
  take-take (suc n) (suc m) [] h = refl
  take-take (suc n) (suc m) (x ∷ p) h = ap (λ r. x ∷ r) (take-take n m p (omega arith))

  pub take-append_le : (n : ℕ) (p q : List A) → n ≤ length p → take n (p ++ q) ≡ take n p
  take-append_le zero p q h = refl
  take-append_le (suc n) [] q h = absurd (omega arith)
  take-append_le (suc n) (x ∷ p) q h = ap (λ r. x ∷ r) (take-append_le n p q (omega arith))

  -- The first `n` slots after filling from `m` up to `n`, whichever is larger.
  pub take-filled :
      (n m : ℕ) (p : List A) (x : A)
      → m ≤ length p
      → take n (take m p ++ (replicate (n - m) x ++ drop (m + (n - m)) p))
        ≡ take n (take m p ++ replicate (n - m) x)
  take-filled n m p x h = elim (Bool-cases (leb n m)) [
    | inl short ↦
        take-append_le n (take m p) _ (ground (arith, length-take m p))
        ∙ sym (take-append_le n (take m p) _ (ground (arith, length-take m p)))
    | inr long ↦
        let total : m + (n - m) ≡ n = ground arith in
        subst
          (λ t.
            take t (take m p ++ (replicate (n - m) x ++ drop (m + (n - m)) p))
            ≡ take t (take m p ++ replicate (n - m) x))
          total
          (take-spliced m (n - m) p (replicate (n - m) x) _ h (length-replicate (n - m) x)
            ∙ sym (
                take_all (m + (n - m)) (take m p ++ replicate (n - m) x) (
                  omega (
                    arith,
                    length-append (take m p) (replicate (n - m) x),
                    length-take m p,
                    length-replicate (n - m) x,
                  ))))
  ]

  pub take-suc :
      (j : ℕ) (p : List A) {x : A} → get_elem? p j ≡ some x → take (suc j) p ≡ take j p ++ x ∷ []
  take-suc j [] h = cc
  take-suc zero (y ∷ p) h = ap (λ z. z ∷ []) (ground arith)
  take-suc (suc j) (y ∷ p) h = ap (λ r. y ∷ r) (take-suc j p h)

  -- A stretch that ends before a cut is the same before and after the cut.
  pub take-drop-take :
      (k i n : ℕ) (p : List A) → i + k ≤ n → take k (drop i (take n p)) ≡ take k (drop i p)
  take-drop-take k zero n p h = take-take k n p (omega arith)
  take-drop-take k (suc i) zero p h = absurd (omega arith)
  take-drop-take k (suc i) (suc n) [] h = refl
  take-drop-take k (suc i) (suc n) (x ∷ p) h = take-drop-take k i n p (omega arith)

  pub get_elem?-take : (i n : ℕ) (p : List A) → i < n → get_elem? (take n p) i ≡ get_elem? p i
  get_elem?-take i zero p h = absurd (omega arith)
  get_elem?-take i (suc n) [] h = refl
  get_elem?-take zero (suc n) (x ∷ p) h = refl
  get_elem?-take (suc i) (suc n) (x ∷ p) h = get_elem?-take i n p (omega arith)

  pub take-set_lt : (p : List A) (i n : ℕ) (x : A) → i < n → take n (set p i x) ≡ set (take n p) i x
  take-set_lt [] i zero x h = refl
  take-set_lt [] i (suc n) x h = refl
  take-set_lt (y ∷ p) i zero x h = absurd (omega arith)
  take-set_lt (y ∷ p) zero (suc n) x h = refl
  take-set_lt (y ∷ p) (suc i) (suc n) x h = ap (λ r. y ∷ r) (take-set_lt p i n x (omega arith))

  pub drop-append : (k : ℕ) (p q : List A) → k ≡ length p → drop k (p ++ q) ≡ q
  drop-append zero [] q h = refl
  drop-append zero (x ∷ p) q h = absurd (omega arith)
  drop-append (suc k) [] q h = absurd (omega arith)
  drop-append (suc k) (x ∷ p) q h = drop-append k p q (omega arith)

  -- A stretch that ends at the end of the elements.
  pub take-drop_end :
      (k n : ℕ) (p : List A) → n ≤ length p → k ≤ n → take (n - k) (drop k p) ≡ drop k (take n p)
  take-drop_end k n p hn hk =
      sym (take-drop-take (n - k) k n p (omega arith))
      ∙ take_all (n - k) (drop k (take n p))
          (omega (arith, length-drop k (take n p), length-take n p))
