-- ===== src/Vector/Defects.antt =====
-- `operator=` and `Clear` of vector.h, and pushes after `Clear`.
use windows_kernel_events_tr.Prelude.{
  ◌+◌, ◌^◌, ◌≤◌, ◌<◌, ◌≡◌, ◌⊎◌, refl, sym, ◌∙◌, List, [], ◌∷◌, ◌++◌, inl, inr, true, false, some,
  none, Option, arith, length, get_elem?, set, take, drop, replicate, length-replicate, Returns,
  leb, ltb, ◌==◌, ◌&&◌, ◌>>=◌, Bool-cases, length-set,
}
use windows_kernel_events_tr.Memory.{
  Element, store_in, store_out, get_elem?-take, copy_prefix, length-prefix, take-prefix, fill_lem,
  length-spliced,
}
use windows_kernel_events_tr.Vector.{Vector, contents, wrap64, clear, assign, grow, push_back}
use windows_kernel_events_tr.Vector.Growth.{IsValid}

module _ {ℓ} {A : Type ℓ} (element : Element A) where
  open element use {blank, block, length-block}

  -- `operator=` to a vector with room for it copies the first element only.
  pub assign_roomy :
      (self v : Vector A) (x : A)
      → IsValid self
      → IsValid v
      → 0 < v.size
      → v.size ≤ self.space
      → get_elem? (contents v) 0 ≡ some x
      → Returns
          (assign element self v)
          (λ r. IsValid r × (contents r ≡ take v.size (set self.elements 0 x)))
  unfolding assign
  assign_roomy self v x hs hv some_there roomy ex = (
    record self { elements = set self.elements 0 x; size = v.size },
    rw (
      branch,
      sym (get_elem?-take 0 v.size v.elements some_there) ∙ ex,
      store_in self.elements 0 x (omega (arith, hs.real)),
    ),
    (record { fits = roomy; real = omega (arith, hs.real, length-set self.elements 0 x) }, refl),
  )
    where
      branch : (leb v.size self.space && ltb 0 v.size) ≡ true
      branch = ground arith

  -- `operator=` without room for it, or from an empty vector, copies all elements.
  pub assign_anew :
      (self v : Vector A)
      → IsValid v
      → (self.space < v.size) ⊎ (v.size ≡ 0)
      → Returns (assign element self v) (λ r. IsValid r × (contents r ≡ contents v))
  unfolding assign
  assign_anew self v hv new =
      let room : v.size ≤ length (block v.size) = omega (arith, length-block v.size) in
      (
        record {
          size = v.size;
          elements = take v.size v.elements ++ drop v.size (block v.size);
          space = v.size;
        },
        rw (
          anew,
          copy_prefix v.size (block v.size) v.elements room (omega (arith, hv.fits, hv.real)),
        ),
        (
          record {
            fits = omega arith;
            real = omega (
              arith,
              length-block v.size,
              length-prefix v.size (block v.size) v.elements room (omega (arith, hv.fits, hv.real)),
            );
          },
          take-prefix v.size (drop v.size (block v.size)) v.elements
              (omega (arith, hv.fits, hv.real)),
        ),
      )
    where
      anew : (leb v.size self.space && ltb 0 v.size) ≡ false
      anew = ground arith

  -- `Clear` empties the vector, and counts its old size to the space a second time.
  pub clear_lem :
      (v : Vector A)
      → IsValid v
      → v.space < 2 ^ 63
      → Returns (clear element v) (λ r.
        (r.size ≡ 0) × (r.space ≡ v.space + v.size) × (length r.elements ≡ length v.elements))
  unfolding clear
  clear_lem v h small = (
    record {
      size = 0;
      elements = replicate v.size blank ++ drop (0 + v.size) v.elements;
      space = v.space + v.size;
    },
    rw (fill_lem v.size v.elements 0 blank (omega (arith, h.fits, h.real)), no_wrap),
    (
      refl,
      refl,
      length-spliced 0 v.size v.elements (replicate v.size blank) (omega (arith, h.fits, h.real))
          (length-replicate v.size blank),
    ),
  )
    where
      no_wrap : wrap64 (v.space + v.size) ≡ v.space + v.size
      no_wrap = omega (arith, h.fits)

  -- One `PushBack` for each element of a list.
  abbrev pub push_all : List A → Vector A → Option (Vector A)
  push_all [] v = some v
  push_all (x ∷ xs) v = push_back element x v >>= λ r. push_all xs r

  -- A vector that believes its block to be larger than it is stores outside of it, once enough
  -- elements are pushed.
  push_all_overrun :
      (xs : List A) (v : Vector A)
      → v.size ≤ length v.elements
      → length v.elements < v.space
      → length v.elements < v.size + length xs
      → v.space < 2 ^ 64
      → push_all xs v ≡ none
  unfolding push_back grow
  push_all_overrun [] v fits short many small = absurd (omega arith)
  push_all_overrun (x ∷ xs) v fits short many small =
      elim (Bool-cases (ltb v.size (length v.elements))) [
        | inl inside ↦
            rw (used, slack, store_in v.elements v.size x (ground arith))
              (push_all_overrun xs
                (record v { elements = set v.elements v.size x; size = wrap64 (v.size + 1) })
                (ground (arith, length-set v.elements v.size x))
                (omega (arith, length-set v.elements v.size x))
                (ground (arith, length-set v.elements v.size x)) small)
        | inr outside ↦ rw (used, slack, store_out v.elements v.size x (ground arith))
      ]
    where
      used : (v.space == 0) ≡ false
      used = ground arith

      slack : (v.size == v.space) ≡ false
      slack = ground arith

  -- After `Clear` of a vector that held elements, pushing more elements than its block has slots
  -- stores outside the block.
  pub clear_then_push_overruns :
      (v : Vector A) (xs : List A)
      → IsValid v
      → v.space < 2 ^ 63
      → 0 < v.size
      → length v.elements < length xs
      → (clear element v >>= push_all xs) ≡ none
  clear_then_push_overruns v xs h small held many =
      let (r, e, (size, space, blocks)) = clear_lem v h small in
      rw e (
        push_all_overrun xs r (omega (arith, size)) (omega (arith, space, blocks, h.real))
          (omega (arith, size, blocks)) (omega (arith, space, h.fits)))
