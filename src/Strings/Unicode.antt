-- ===== src/Strings/Unicode.antt =====
-- How string.h takes a string over from a `UNICODE_STRING`, or from another string.
use windows_kernel_events_tr.Prelude.{
  ℕ, suc, ◌+◌, ◌/◌, ◌≤◌, ◌<◌, ◌≡◌, ◌⊎◌, inl, inr, leb, Bool-cases, refl, ◌∙◌, List, [], ◌++◌, some,
  arith, length, set, take, drop, Returns, length-set,
}
use windows_kernel_events_tr.Memory.{
  Element, store, copy, store_in, copy_prefix, length-prefix, take-prefix, take-set_le,
}
use windows_kernel_events_tr.Strings.{
  String, UnicodeString, empty_string, contents, slots, allocate, copy_of, assign, assign_unicode,
  from_unicode,
}
use windows_kernel_events_tr.Strings.Compare.{IsAllocated}

-- What the kernel documents of a counted string: the characters lie in the buffer, and the length
-- within the maximum length.
pub record IsCounted (u : UnicodeString) : Type 0 where
  pub within : u.length ≤ u.maximum_length
  pub held : u.length / 2 ≤ length u.buffer

module _ (element : Element ℕ) where
  open element use {blank, block, length-block}

  allocate_lem : (n : ℕ) → Returns (allocate element n) (λ b. length b ≡ suc n)
  unfolding allocate
  allocate_lem n = (
    set (block (n + 1)) n blank,
    store_in (block (n + 1)) n blank (omega (arith, length-block (n + 1))),
    omega (arith, length-set (block (n + 1)) n blank, length-block (n + 1)),
  )

  -- Copying `n` characters to the front of a block that has room for one more, and ending them.
  terminate :
      (n : ℕ) (b buffer : List ℕ)
      → n < length b
      → n ≤ length buffer
      → (c r : List ℕ) × (copy n b 0 buffer 0 ≡ some c)
        × (store c n 0 ≡ some r)
        × (length r ≡ length b)
        × (take n r ≡ take n buffer)
  terminate n b buffer h k =
      let copied : List ℕ = take n buffer ++ drop n b in
      let same_length = length-prefix n b buffer (omega arith) k in
      (
        copied,
        set copied n 0,
        copy_prefix n b buffer (omega arith) k,
        store_in copied n 0 (omega (arith, same_length)),
        omega (arith, length-set copied n 0, same_length),
        take-set_le copied n n 0 (omega arith) ∙ take-prefix n (drop n b) buffer k,
      )

  -- The constructor returns a string of exactly the buffer's characters.
  pub contents-from_unicode :
      (u : UnicodeString)
      → IsCounted u
      → Returns
          (from_unicode element u)
          (λ s. IsAllocated s × (contents s ≡ take (u.length / 2) u.buffer))
  unfolding from_unicode
  contents-from_unicode u h =
      let (b, e, size) = allocate_lem (u.length / 2) in
      let (_, r, copied, stored, same_size, same) =
        terminate (u.length / 2) b u.buffer (omega arith) h.held in
      (
        record { size = u.length / 2; elements = some r; space = u.length / 2 },
        rw (e, copied, stored),
        (record { not_null = refl; fits = omega (arith, same_size, size) }, same),
      )

  -- So does the assignment.
  pub contents-assign_unicode :
      (u : UnicodeString)
      → IsCounted u
      → Returns
          (assign_unicode element (some u))
          (λ s. IsAllocated s × (contents s ≡ take (u.length / 2) u.buffer))
  unfolding assign_unicode
  contents-assign_unicode u h =
      let (b, e, size) = allocate_lem u.maximum_length in
      let (_, r, copied, stored, same_size, same) =
        terminate (u.length / 2) b u.buffer (omega (arith, h.within)) h.held in
      (
        record { size = u.length / 2; elements = some r; space = u.maximum_length },
        rw (e, copied, stored),
        (record { not_null = refl; fits = omega (arith, same_size, size, h.within) }, same),
      )

  -- A copy has its block, also that of a null string, and the same characters.
  pub contents-copy_of :
      (s : String)
      → s.size ≤ length (slots s)
      → Returns (copy_of element s) (λ r. IsAllocated r × (contents r ≡ contents s))
  unfolding copy_of
  contents-copy_of s h =
      let (b, e, size) = allocate_lem s.size in
      let copied : List ℕ = take s.size (slots s) ++ drop s.size b in
      (
        record { size = s.size; elements = some copied; space = s.size },
        rw (e, copy_prefix s.size b (slots s) (omega arith) h) refl,
        (
          record {
            not_null = refl;
            fits = omega (arith, length-prefix s.size b (slots s) (omega arith) h);
          },
          take-prefix s.size (drop s.size b) (slots s) h,
        ),
      )

  -- Assigned to an empty string, a string keeps its characters; an empty one leaves the null string.
  pub contents-assign_empty :
      (s : String)
      → s.size ≤ length (slots s)
      → Returns
          (assign element empty_string s)
          (λ r. ((r ≡ empty_string) ⊎ IsAllocated r) × (contents r ≡ contents s))
  unfolding assign
  contents-assign_empty s h = elim (Bool-cases (leb s.size 0)) [
    | inl nothing ↦
        let none_left : s.size ≡ 0 = ground arith in
        (
          empty_string,
          rw (nothing, none_left, copy_prefix 0 [] (slots s) (omega arith) (omega arith)) refl,
          (inl refl, rw none_left refl),
        )
    | inr some_left ↦
        let (b, e, size) = allocate_lem s.size in
        let copied : List ℕ = take s.size (slots s) ++ drop s.size b in
        (
          record { size = s.size; elements = some copied; space = s.size },
          rw (some_left, e, copy_prefix s.size b (slots s) (omega arith) h) refl,
          (
            inr (record {
              not_null = refl;
              fits = omega (arith, length-prefix s.size b (slots s) (omega arith) h);
            }),
            take-prefix s.size (drop s.size b) (slots s) h,
          ),
        )
  ]
