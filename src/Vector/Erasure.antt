-- ===== src/Vector/Erasure.antt =====
-- `Erase` of vector.h, at the last element and at an earlier one.
use windows_kernel_events_tr.Prelude.{
  ℕ, suc, ◌+◌, ◌-◌, ◌<◌, ◌≡◌, refl, ap, sym, ◌∙◌, List, ◌++◌, inl, inr, true, false, arith, length,
  set, take, drop, Returns, leb, ◌==◌, Bool-cases, length-take, length-set, length-drop,
}
use windows_kernel_events_tr.Memory.{
  Element, store_in, take-set_le, take-append_add, take-take, take-drop-take, length-spliced,
}
use windows_kernel_events_tr.Vector.{Vector, contents, shift, erase}
use windows_kernel_events_tr.Vector.Growth.{IsValid}
use windows_kernel_events_tr.Vector.Removal.{shift_lem}

module _ {ℓ} {A : Type ℓ} where
  -- Where a cut lies in a stretch that was moved.
  cut_moved :
      (i n : ℕ) (es : List A)
      → i + n < length es
      → take (suc (i + n)) (take i es ++ (take n (drop (suc i) es) ++ drop (i + n) es))
        ≡ take i es ++ (take n (drop (suc i) es) ++ take 1 (drop (i + n) es))
  cut_moved i n es h = rw (
    split,
    take-append_add i (suc n) (take i es) _ (omega (arith, length-take i es)),
    later,
    take-append_add n 1 (take n (drop (suc i) es)) _
        (omega (arith, length-take n (drop (suc i) es), length-drop (suc i) es)),
  )
    where
      split : suc (i + n) ≡ i + suc n
      split = omega arith

      later : suc n ≡ n + 1
      later = omega arith

module _ {ℓ} {A : Type ℓ} (element : Element A) where
  open element use {blank, block, length-block}

  -- `Erase` of the last element takes it off.
  pub erase-last :
      (v : Vector A) (i : ℕ)
      → IsValid v
      → suc i ≡ v.size
      → Returns
          (erase element i v)
          (λ r. (r.0 ≡ true) × IsValid r.1 × (contents r.1 ≡ take i (contents v)))
  unfolding erase shift
  erase-last v i h last = elim (Bool-cases (v.size == 1)) [
    | inl single ↦ (
      (true, record v { elements = set v.elements 0 blank; size = 0 }),
      rw (present, single, store_in v.elements 0 blank (omega (arith, h.fits, h.real))),
      (
        refl,
        record { fits = omega arith; real = omega (arith, h.real, length-set v.elements 0 blank) },
        ap (λ k. take k (contents v)) (start single),
      ),
    )
    | inr several ↦ (
      (true, record v { elements = set v.elements (v.size - 1) blank; size = v.size - 1 }),
      rw (
        present,
        several,
        no_rounds,
        store_in v.elements (v.size - 1) blank (omega (arith, h.fits, h.real)),
      ),
      (
        refl,
        record {
          fits = omega (arith, h.fits);
          real = omega (arith, h.real, length-set v.elements (v.size - 1) blank);
        },
        take-set_le v.elements (v.size - 1) (v.size - 1) blank (omega arith)
            ∙ (ap (λ k. take k v.elements) place
                ∙ sym (take-take i v.size v.elements (omega arith))),
      ),
    )
  ]
    where
      start : (v.size == 1) ≡ true → 0 ≡ i
      start single = ground arith

      no_rounds : v.size - 2 - i ≡ 0
      no_rounds = omega arith

      place : v.size - 1 ≡ i
      place = omega arith

      present : leb v.size i ≡ false
      present = ground arith

  -- `Erase` of an earlier element reports success, but its loop stops one slot short: the vector
  -- keeps its last but one element in the last place, and loses its last one.
  pub erase-inner :
      (v : Vector A) (i : ℕ)
      → IsValid v
      → suc i < v.size
      → Returns (erase element i v) (λ r.
        (r.0 ≡ true)
        × IsValid r.1
        × (contents r.1
            ≡ take i (contents v)
              ++ (take (v.size - 2 - i) (drop (suc i) (contents v))
                  ++ take 1 (drop (v.size - 2) (contents v)))))
  unfolding erase
  erase-inner v i h inner =
      let k = v.size - 2 - i in
      let es : List A =
        take i v.elements ++ (take k (drop (suc i) v.elements) ++ drop (i + k) v.elements) in
      let inside : i + k < length v.elements = omega (arith, h.fits, h.real) in
      let length-es : length es ≡ length v.elements =
        length-spliced i k v.elements (take k (drop (suc i) v.elements)) (omega arith) (
          omega (arith, length-take k (drop (suc i) v.elements), length-drop (suc i) v.elements)) in
      (
        (true, record v { elements = set es (v.size - 1) blank; size = v.size - 1 }),
        rw (
          present,
          several,
          shift_lem k i v.elements inside,
          store_in es (v.size - 1) blank (omega (arith, h.fits, h.real, length-es)),
        ),
        (
          refl,
          record {
            fits = omega (arith, h.fits);
            real = omega (arith, h.real, length-es, length-set es (v.size - 1) blank);
          },
          take-set_le es (v.size - 1) (v.size - 1) blank (omega arith)
              ∙ (ap (λ n. take n es) last_place
                  ∙ (cut_moved i k v.elements inside
                      ∙ rw (
                        take-take i v.size v.elements (omega arith),
                        take-drop-take k (suc i) v.size v.elements (omega arith),
                        take-drop-take 1 (v.size - 2) v.size v.elements (omega arith),
                        before_last,
                      ))),
        ),
      )
    where
      present : leb v.size i ≡ false
      present = ground arith

      several : (v.size == 1) ≡ false
      several = ground arith

      last_place : v.size - 1 ≡ suc (i + (v.size - 2 - i))
      last_place = omega arith

      before_last : i + (v.size - 2 - i) ≡ v.size - 2
      before_last = omega arith
