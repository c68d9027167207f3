-- ===== src/Vector/Joining.antt =====
-- The methods of vector.h that put the elements of two vectors together: `Append` and `operator+`,
-- and the copy constructor.
use windows_kernel_events_tr.Prelude.{
  ℕ, ◌+◌, ◌*◌, ◌^◌, ◌≤◌, ◌<◌, max, ◌≡◌, refl, ap, ◌∙◌, List, ◌++◌, arith, length, take, drop,
  Returns, length-take,
}
use windows_kernel_events_tr.Memory.{
  Element, copy_lem, take-spliced, length-spliced, copy_prefix, length-prefix, take-prefix,
}
use windows_kernel_events_tr.Vector.{Vector, contents, wrap64, empty_vector, copy_of, append, plus}
use windows_kernel_events_tr.Vector.Growth.{IsValid, reserve-Keeps, contents-resize}

module _ {ℓ} {A : Type ℓ} (element : Element A) where
  open element use {block, length-block}

  -- `Append` returns, keeps the vector valid, and puts all elements of the other vector behind its
  -- own.
  pub contents-append :
      (v w : Vector A)
      → IsValid v
      → IsValid w
      → v.size < 2 ^ 63
      → w.size < 2 ^ 63
      → Returns (append element v w) (λ r. IsValid r × (contents r ≡ contents v ++ contents w))
  unfolding append
  contents-append v w hv hw sv sw =
      let (r, e, (keeps, room)) = reserve-Keeps element (wrap64 (max w.size v.size * 2)) v hv in
      let inside : r.size + w.size ≤ length r.elements =
        omega (arith, keeps.valid.real, keeps.size_same) in
      let next : wrap64 (r.size + w.size) ≡ r.size + w.size = omega (arith, keeps.size_same) in
      let taken : length (take w.size w.elements) ≡ w.size =
        omega (arith, length-take w.size w.elements) in
      (
        record r {
          elements =
              take r.size r.elements
              ++ (take w.size w.elements ++ drop (r.size + w.size) r.elements);
          size = r.size + w.size;
        },
        rw (e, copy_lem w.size r.elements r.size w.elements 0 inside (omega arith), next),
        (
          record {
            fits = omega (arith, keeps.valid.real, keeps.size_same);
            real = omega (
              arith,
              keeps.valid.real,
              length-spliced r.size w.size r.elements (take w.size w.elements) inside taken,
            );
          },
          take-spliced r.size w.size r.elements (take w.size w.elements) _ (omega arith) taken
              ∙ ap (λ c. c ++ contents w) keeps.contents_same,
        ),
      )

  -- The copy constructor returns a valid vector of the same elements.
  pub contents-copy_of :
      (v : Vector A)
      → IsValid v
      → Returns (copy_of element v) (λ r. IsValid r × (contents r ≡ contents v))
  unfolding copy_of
  contents-copy_of v h =
      let room : v.size ≤ length (block v.size) = omega (arith, length-block v.size) in
      (
        record {
          size = v.size;
          elements = take v.size v.elements ++ drop v.size (block v.size);
          space = v.size;
        },
        rw (copy_prefix v.size (block v.size) v.elements room (omega arith)),
        (
          record {
            fits = omega arith;
            real = omega (
              arith,
              length-block v.size,
              length-prefix v.size (block v.size) v.elements room (omega arith),
            );
          },
          take-prefix v.size (drop v.size (block v.size)) v.elements (omega arith),
        ),
      )

  -- `operator+` returns a valid vector of the left operand's elements, then the right one's.
  pub contents-plus :
      (v w : Vector A)
      → IsValid v
      → IsValid w
      → v.size < 2 ^ 62
      → w.size < 2 ^ 62
      → Returns (plus element v w) (λ r. IsValid r × (contents r ≡ contents v ++ contents w))
  unfolding plus empty_vector
  contents-plus v w hv hw sv sw =
      let (r, e, (keeps, room)) =
        reserve-Keeps element (wrap64 (max w.size v.size * 2)) empty_vector
          (record { fits = omega arith; real = refl }) in
      let (s, e', (valid, size, _, _)) =
        contents-resize element (wrap64 (w.size + v.size)) r keeps.valid in
      let inside : v.size + w.size ≤ length s.elements =
        omega (arith, valid.real, valid.fits, size) in
      let first : List A = take v.size v.elements ++ drop v.size s.elements in
      let length-first : length first ≡ length s.elements =
        length-prefix v.size s.elements v.elements (omega arith) (omega arith) in
      let taken : length (take w.size w.elements) ≡ w.size =
        omega (arith, length-take w.size w.elements) in
      let joined : List A =
        take v.size first ++ (take w.size w.elements ++ drop (v.size + w.size) first) in
      (
        record s { elements = joined },
        rw (
          e,
          e',
          copy_prefix v.size s.elements v.elements (omega arith) (omega arith),
          copy_lem w.size first v.size w.elements 0 (omega (arith, length-first)) (omega arith),
        ),
        (
          record {
            fits = valid.fits;
            real = omega (
              arith,
              valid.real,
              length-first,
              length-spliced v.size w.size first (take w.size w.elements)
                  (omega (arith, length-first)) taken,
            );
          },
          ap (λ n. take n joined) (total size)
              ∙ (take-spliced v.size w.size first (take w.size w.elements) _
                    (omega (arith, length-first)) taken
                  ∙ ap (λ c. c ++ contents w)
                      (take-prefix v.size (drop v.size s.elements) v.elements (omega arith))),
        ),
      )
    where
      total : {n : ℕ} → n ≡ wrap64 (w.size + v.size) → n ≡ v.size + w.size
      total h = omega arith
