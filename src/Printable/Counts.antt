-- ===== src/Printable/Counts.antt =====
-- The loop of `CheckPrintableUTF8` of support.cpp and its counts.
use windows_kernel_events_tr.Prelude.{
  ℕ, zero, suc, ◌+◌, ◌*◌, ◌/◌, ◌≤◌, ◌<◌, ◌≡◌, ◌⊎◌, ◌↔◌, ==_iff, refl, inl, inr, arith, List, Option,
  some, none, Bool, true, false, length, tests, ltb, ◌==◌, Returns, Bool-cases,
}
use windows_kernel_events_tr.Printable.{
  Library, decode, utf8_counts, count_if, count_one, check_printable_utf8, judge,
  below_text_threshold,
}

module _ (library : Library) where
  -- Every round moves the index on.
  decode-width : (buffer : List ℕ) (i : ℕ) → 0 < (decode library buffer i).width
  unfolding decode
  decode-width buffer i = ground arith

  -- With the rest of the buffer as fuel the loop ends, with no more printable characters than
  -- characters, and no more of these than bytes.
  utf8_counts-Bounded :
      (fuel : ℕ) (buffer : List ℕ) (i printable total : ℕ)
      → length buffer ≤ i + fuel
      → printable ≤ total
      → total ≤ i
      → total ≤ length buffer
      → Returns
          (utf8_counts library fuel buffer i printable total)
          (λ r. (r.0 ≤ r.1) × (r.1 ≤ length buffer))
  unfolding utf8_counts
  utf8_counts-Bounded zero buffer i printable total enough within behind fits =
      ((printable, total), ground arith, (within, fits))
  utf8_counts-Bounded (suc fuel) buffer i printable total enough within behind fits =
      elim (Bool-cases (ltb i (length buffer))) [
        | inr done ↦ ((printable, total), rw done refl, (within, fits))
        | inl more ↦
            let forward = decode-width buffer i in
            let (r, e, bounds) =
              utf8_counts-Bounded fuel buffer (i + (decode library buffer i).width) _ _
                (omega (arith, forward)) (counted_within (decode library buffer i).counted)
                (omega (arith, forward, one_more (decode library buffer i).counted))
                (omega (tests, more, one_more (decode library buffer i).counted)) in
            (r, rw more e, bounds)
      ]
    where
      counted_within : (o : Option Bool) → count_if library o printable ≤ count_one library o total
      counted_within none = within
      counted_within (some true) = omega (arith, within)
      counted_within (some false) = omega (arith, within)

      one_more : (o : Option Bool) → count_one library o total ≤ total + 1
      one_more none = omega arith
      one_more (some b) = omega arith

  -- What the counts say: some character was counted, and more than 97 of a hundred are printable.
  abbrev pub IsMostlyText : ℕ × ℕ → Type 0
  IsMostlyText (printable, total) = (0 < total) × (total * 97 / 100 < printable)

  judge-IsMostlyText : (r : ℕ × ℕ) → (judge library r ≡ true) ↔ IsMostlyText r
  unfolding below_text_threshold
  judge-IsMostlyText (printable, total) = ground arith

  -- `CheckPrintableUTF8` returns on every buffer: true exactly if the buffer is empty or its counts,
  -- of which there are no more printable characters than characters and no more of these than bytes,
  -- say that it is mostly text.
  pub check_printable_utf8-Decides :
      (buffer : List ℕ)
      → Returns (check_printable_utf8 library buffer) (λ b.
        (counts : ℕ × ℕ) × (utf8_counts library (length buffer) buffer 0 0 0 ≡ some counts)
        × (counts.0 ≤ counts.1)
        × (counts.1 ≤ length buffer)
        × ((b ≡ true) ↔ ((length buffer ≡ 0) ⊎ IsMostlyText counts)))
  unfolding check_printable_utf8
  check_printable_utf8-Decides buffer =
      let (r, e, (within, fits)) =
        utf8_counts-Bounded (length buffer) buffer 0 0 0 (omega arith) (omega arith) (omega arith)
          (omega arith) in
      elim (Bool-cases (length buffer == 0)) [
        | inl empty ↦
            let no_bytes = (==_iff (length buffer) 0).0 empty in
            (true, rw empty refl, (r, e, within, fits, (λ _. inl no_bytes, λ _. refl)))
        | inr some_left ↦
            let judged = judge-IsMostlyText r in
            (
              judge library r,
              rw (some_left, e) refl,
              (
                r,
                e,
                within,
                fits,
                (
                  λ t. inr (judged.0 t),
                  elim [ inl no_bytes ↦ absurd (ground arith) | inr mostly ↦ judged.1 mostly ],
                ),
              ),
            )
      ]
