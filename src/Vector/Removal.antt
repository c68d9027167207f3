-- ===== src/Vector/Removal.antt =====
-- The methods of vector.h that take elements out or move them: `PopBack`, `Swap`, `EraseUnordered`
-- and `Erase`.
use mathlib.Core.List.{Perm, perm_middle, append-nil}
use mathlib.Core.List.Perm
use windows_kernel_events_tr.Prelude.{
  ℕ, zero, suc, ◌+◌, ◌-◌, ◌≤◌, ◌<◌, ◌≡◌, refl, ap, sym, ◌∙◌, subst, List, [], ◌∷◌, ◌++◌, inl, inr,
  true, false, some, arith, length, get_elem?, set, take, drop, Returns, leb, ◌==◌, Bool-cases,
  length-set, take-append-drop,
}
use windows_kernel_events_tr.Memory.{
  Element, store_in, take-set, take-set_le, take-set_lt, drop-set, drop-cons, append_assoc3,
  take-suc, take-take, get_elem?-take,
}
use windows_kernel_events_tr.Vector.{Vector, contents, swap, shift, pop_back, erase_unordered}
use windows_kernel_events_tr.Vector.Growth.{IsValid}

module _ {ℓ} {A : Type ℓ} where
  -- The loop of `Erase` moves a stretch one slot to the left, over the slot `i`.
  pub shift_lem :
      (n i : ℕ) (es : List A)
      → i + n < length es
      → shift n i es ≡ some (take i es ++ (take n (drop (suc i) es) ++ drop (i + n) es))
  unfolding shift
  shift_lem zero i es h = ap some (sym (rw (index_of_zero) (take-append-drop i es)))
    where
      index_of_zero : i + 0 ≡ i
      index_of_zero = omega arith
  shift_lem (suc n) i es h =
      let (x, at, rest) = drop-cons es (suc i) (omega arith) in
      rw (
        at,
        store_in es i x (omega arith),
        shift_lem n (suc i) (set es i x) (omega (arith, length-set es i x)),
        take-set es i x (omega arith),
        rest,
        drop-set es i (suc (suc i)) x (omega arith),
        drop-set es i (suc i + n) x (omega arith),
        append_assoc3,
        next,
      )
    where
      next : suc i + n ≡ i + suc n
      next = omega arith

  last-perm : (xs : List A) (l : A) → Perm (xs ++ l ∷ []) (l ∷ xs)
  last-perm xs l = subst (λ t. Perm (xs ++ l ∷ []) (l ∷ t)) (append-nil xs) (perm_middle xs [])

  -- Overwriting an element by the last one and cutting the last one off removes that element.
  set-perm :
      (xs : List A) (i : ℕ) (x l : A)
      → get_elem? xs i ≡ some x
      → Perm (xs ++ l ∷ []) (x ∷ set xs i l)
  set-perm [] i x l h = cc
  set-perm (y ∷ xs) zero x l h =
      let same : y ≡ x = cc in
      subst (λ z. Perm (y ∷ (xs ++ l ∷ [])) (z ∷ l ∷ xs)) same (Perm.cons y (last-perm xs l))
  set-perm (y ∷ xs) (suc i) x l h =
      Perm.trans (Perm.cons y (set-perm xs i x l h)) (Perm.swap x y (set xs i l))

  perm_removed :
      (n i : ℕ) (es : List A) (x l : A)
      → i ≤ n
      → get_elem? es i ≡ some x
      → get_elem? es n ≡ some l
      → Perm (take (suc n) es) (x ∷ take n (set es i l))
  perm_removed n i es x l h ex el = elim (Bool-cases (leb n i)) [
    | inl last ↦
        let same : i ≡ n = ground arith in
        let found : x ≡ l = cc in
        rw (take-suc n es el, take-set_le es i n l (ground arith), found) (last-perm (take n es) l)
    | inr inner ↦
        rw (take-suc n es el, take-set_lt es i n l (ground arith))
          (set-perm (take n es) i x l (get_elem?-take i n es (ground arith) ∙ ex))
  ]

  -- `Swap` exchanges two elements that are there, and refuses an index that is not.
  pub swap_lem :
      (v : Vector A) (i j : ℕ) (x y : A)
      → IsValid v
      → i < v.size
      → j < v.size
      → get_elem? (contents v) i ≡ some x
      → get_elem? (contents v) j ≡ some y
      → Returns
          (swap v i j)
          (λ r. (r.0 ≡ true) × IsValid r.1 × (contents r.1 ≡ set (set (contents v) i y) j x))
  unfolding swap
  swap_lem v i j x y h hi hj ex ey = (
    (true, record v { elements = set (set v.elements i y) j x }),
    ground (
      arith,
      sym (get_elem?-take i v.size v.elements hi) ∙ ex,
      sym (get_elem?-take j v.size v.elements hj) ∙ ey,
      store_in v.elements i y (omega arith),
      store_in (set v.elements i y) j x (omega (arith, length-set v.elements i y)),
    ),
    (
      refl,
      record {
        fits = h.fits;
        real =
            omega (arith, h.real, length-set v.elements i y, length-set (set v.elements i y) j x);
      },
      take-set_lt (set v.elements i y) j v.size x hj
          ∙ ap (λ c. set c j x) (take-set_lt v.elements i v.size y hi),
    ),
  )

module _ {ℓ} {A : Type ℓ} (element : Element A) where
  open element use {blank}

  -- `PopBack` takes the last element off, and leaves an empty vector as it is.
  pub contents-pop_back :
      (v : Vector A)
      → IsValid v
      → Returns
          (pop_back element v)
          (λ r. IsValid r × (contents r ≡ take (v.size - 1) (contents v)))
  unfolding pop_back
  contents-pop_back v h = elim (Bool-cases (v.size == 0)) [
    | inl none_left ↦ (v, rw none_left, (h, same none_left))
    | inr some_left ↦ (
      record v { elements = set v.elements (v.size - 1) blank; size = v.size - 1 },
      rw (some_left, store_in v.elements (v.size - 1) blank (ground arith)),
      (
        record {
          fits = omega (arith, h.fits);
          real = omega (arith, h.real, length-set v.elements (v.size - 1) blank);
        },
        take-set_le v.elements (v.size - 1) (v.size - 1) blank (omega arith)
            ∙ sym (take-take (v.size - 1) v.size v.elements (omega arith)),
      ),
    )
  ]
    where
      same : (v.size == 0) ≡ true → contents v ≡ take (v.size - 1) (contents v)
      same none_left =
          let fixed : v.size ≡ v.size - 1 = ground arith in
          ap (λ n. take n v.elements) fixed
          ∙ sym (take-take (v.size - 1) v.size v.elements (omega arith))

  -- `EraseUnordered` takes exactly the element at the index out, and keeps the others, perhaps in
  -- another order.
  pub erase_unordered-perm :
      (v : Vector A) (i : ℕ) (x : A)
      → IsValid v
      → i < v.size
      → get_elem? (contents v) i ≡ some x
      → Returns
          (erase_unordered element i v)
          (λ r. (r.0 ≡ true) × IsValid r.1 × Perm (contents v) (x ∷ contents r.1))
  unfolding erase_unordered
  erase_unordered-perm v i x h hi ex = elim (Bool-cases (v.size == 1)) [
    | inl single ↦
        let one : v.size ≡ 1 = ground arith in
        let start : i ≡ 0 = ground arith in
        (
          (true, record v { elements = set v.elements 0 blank; size = 0 }),
          rw (present, single, store_in v.elements 0 blank (omega (arith, h.fits, h.real))),
          (
            refl,
            record {
              fits = omega arith;
              real = omega (arith, h.real, length-set v.elements 0 blank);
            },
            rw
                (
                  one,
                  take-suc 0 v.elements (subst (λ k. get_elem? v.elements k ≡ some x) start found),
                )
                (Perm.refl (x ∷ [])),
          ),
        )
    | inr several ↦
        let (l, el, _) = drop-cons v.elements (v.size - 1) (omega (arith, h.fits, h.real)) in
        let more : v.size ≡ suc (v.size - 1) = omega arith in
        let replaced = set v.elements i l in
        (
          (true, record v { elements = set replaced (v.size - 1) blank; size = v.size - 1 }),
          rw (
            present,
            several,
            el,
            store_in v.elements i l (omega (arith, h.fits, h.real)),
            store_in replaced (v.size - 1) blank
                (omega (arith, h.fits, h.real, length-set v.elements i l)),
          ),
          (
            refl,
            record {
              fits = omega (arith, h.fits);
              real = omega (
                arith,
                h.real,
                length-set v.elements i l,
                length-set replaced (v.size - 1) blank,
              );
            },
            rw (take-set_le replaced (v.size - 1) (v.size - 1) blank (omega arith)) (
                subst (λ n. Perm (take n v.elements) (x ∷ take (v.size - 1) replaced)) (sym more)
                  (perm_removed (v.size - 1) i v.elements x l (omega arith) found el)),
          ),
        )
  ]
    where
      present : leb v.size i ≡ false
      present = ground arith

      found : get_elem? v.elements i ≡ some x
      found = sym (get_elem?-take i v.size v.elements hi) ∙ ex
