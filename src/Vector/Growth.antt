-- ===== src/Vector/Growth.antt =====
-- The methods of vector.h that make a vector longer or give it room: `Reserve`, `Resize`
-- and `PushBack`.
use windows_kernel_events_tr.Prelude.{
  ℕ, suc, ◌+◌, ◌-◌, ◌*◌, ◌^◌, ◌≤◌, ◌<◌, ◌≡◌, refl, ap, ◌∙◌, List, [], ◌∷◌, ◌++◌, inl, inr, arith,
  length, length-replicate, set, take, drop, replicate, Returns, leb, ◌==◌, Bool-cases, length-set,
}
use windows_kernel_events_tr.Memory.{
  Element, fill_lem, length-spliced, store_in, take-set, copy_prefix, take-filled, length-prefix,
  take-prefix,
}
use windows_kernel_events_tr.Vector.{Vector, contents, wrap64, reserve, resize, grow, push_back}

-- The block has the space that the vector believes it to have, and the elements lie in it.
pub record IsValid {ℓ} {A : Type ℓ} (v : Vector A) : Type 0 where
  pub fits : v.size ≤ v.space
  pub real : v.space ≡ length v.elements

-- What giving a vector room leaves as it was.
pub record Keeps {ℓ} {A : Type ℓ} (v r : Vector A) : Type ℓ where
  pub valid : IsValid r
  pub size_same : r.size ≡ v.size
  pub contents_same : contents r ≡ contents v
  pub space_grows : v.space ≤ r.space

module _ {ℓ} {A : Type ℓ} (element : Element A) where
  open element use {blank, block, length-block}

  pub reserve-Keeps :
      (n : ℕ) (v : Vector A)
      → IsValid v
      → Returns (reserve element n v) (λ r. Keeps v r × (n ≤ r.space))
  unfolding reserve
  reserve-Keeps n v h = elim (Bool-cases (leb n v.space)) [
    | inl roomy ↦ (v, rw roomy, (stays, ground arith))
    | inr tight ↦
        let room : v.size ≤ length (block n) = ground (arith, length-block n) in
        (
          record v { elements = moved; space = n },
          rw (tight, copy_prefix v.size (block n) v.elements room (omega arith)),
          (
            record {
              valid = record {
                fits = ground arith;
                real = omega (
                  arith,
                  length-block n,
                  length-prefix v.size (block n) v.elements room (omega arith),
                );
              };
              size_same = refl;
              contents_same = take-prefix v.size (drop v.size (block n)) v.elements (omega arith);
              space_grows = ground arith;
            },
            omega arith,
          ),
        )
  ]
    where
      moved : List A
      moved = take v.size v.elements ++ drop v.size (block n)

      stays : Keeps v v
      stays = record {
        valid = h;
        size_same = refl;
        contents_same = refl;
        space_grows = omega arith;
      }

  -- `PushBack` makes room for one more element, as long as doubling does not wrap.
  grow-Keeps :
      (v : Vector A)
      → IsValid v
      → v.space < 2 ^ 63
      → Returns (grow element v) (λ r. Keeps v r × (v.size < r.space))
  unfolding grow
  grow-Keeps v h small = elim (Bool-cases (v.space == 0)) [
    | inl unused ↦
        let (r, e, (keeps, room)) = reserve-Keeps 8 v h in (r, rw (unused) e, (keeps, ground arith))
    | inr used ↦ elim (Bool-cases (v.size == v.space)) [
      | inl full ↦
          let (r, e, (keeps, room)) = reserve-Keeps (wrap64 (2 * v.space)) v h in
          (r, rw (used, full) e, (keeps, ground arith))
      | inr slack ↦ (
        v,
        rw (used, slack),
        (
          record { valid = h; size_same = refl; contents_same = refl; space_grows = omega arith },
          ground arith,
        ),
      )
    ]
  ]

  -- `PushBack` returns, keeps the vector valid, and appends exactly the new element.
  pub contents-push_back :
      (d : A) (v : Vector A)
      → IsValid v
      → v.space < 2 ^ 63
      → Returns (push_back element d v) (λ r. IsValid r × (contents r ≡ contents v ++ d ∷ []))
  unfolding push_back
  contents-push_back d v h small =
      let (r, e, (keeps, room)) = grow-Keeps v h small in
      let inside : r.size < length r.elements = omega (arith, keeps.valid.real, keeps.size_same) in
      let next : wrap64 (r.size + 1) ≡ suc r.size = omega (arith, keeps.size_same) in
      (
        record r { elements = set r.elements r.size d; size = suc r.size },
        rw (e, store_in r.elements r.size d inside, next),
        (
          record {
            fits = omega (arith, keeps.size_same);
            real = omega (arith, keeps.valid.real, length-set r.elements r.size d);
          },
          take-set r.elements r.size d inside ∙ ap (λ c. c ++ d ∷ []) keeps.contents_same,
        ),
      )

  -- `Resize` returns a valid vector of the new size: the old elements cut off there, or followed
  -- by blanks.
  pub contents-resize :
      (n : ℕ) (v : Vector A)
      → IsValid v
      → Returns (resize element n v) (λ r.
        IsValid r
        × (r.size ≡ n)
        × (contents r ≡ take n (contents v ++ replicate (n - v.size) blank))
        × (v.space ≤ r.space))
  unfolding resize
  contents-resize n v h =
      let (r, e, (keeps, room)) = reserve-Keeps n v h in
      let k = n - r.size in
      let inside : r.size + k ≤ length r.elements =
        omega (arith, keeps.valid.real, keeps.valid.fits) in
      let filled : List A =
        take r.size r.elements ++ (replicate k blank ++ drop (r.size + k) r.elements) in
      (
        record r { elements = filled; size = n },
        rw (e, fill_lem k r.elements r.size blank inside),
        (
          record {
            fits = room;
            real = omega (
              arith,
              keeps.valid.real,
              length-spliced r.size k r.elements (replicate k blank) inside
                  (length-replicate k blank),
            );
          },
          refl,
          rw (← keeps.contents_same, ← keeps.size_same)
              (take-filled n r.size r.elements blank
                (omega (arith, keeps.valid.real, keeps.valid.fits))),
          keeps.space_grows,
        ),
      )
