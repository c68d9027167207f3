-- ===== src/Printable/Ascii.antt =====
-- `CheckPrintableUTF8` and `CheckPrintableANSI` of support.cpp on bytes below 0x80.
use windows_kernel_events_tr.Prelude.{
  ℕ, zero, suc, ◌+◌, ◌≤◌, ◌<◌, ◌≡◌, refl, subst, inl, inr, arith, tests, List, [], ◌∷◌, some, true,
  false, length, get_elem?, get_or, drop, ltb, ◌==◌, Bool-cases,
}
use windows_kernel_events_tr.Memory.{drop-cons}
use windows_kernel_events_tr.Printable.{
  Library, decode, utf8_counts, counts_of, check_printable_utf8, check_printable_ansi,
}

abbrev pub AllAscii : List ℕ → Type 0
AllAscii [] = Unit {0}
AllAscii (c ∷ rest) = (c < 0x80) × AllAscii rest

get_or-get_elem? : (q : List ℕ) (i x : ℕ) → get_elem? q i ≡ some x → get_or q i 0 ≡ x
get_or-get_elem? [] i x e = cc
get_or-get_elem? (y ∷ q) zero x e = cc
get_or-get_elem? (y ∷ q) (suc i) x e = get_or-get_elem? q i x e

drop-all : (q : List ℕ) (i : ℕ) → length q ≤ i → drop i q ≡ []
drop-all [] zero h = refl
drop-all [] (suc i) h = refl
drop-all (y ∷ q) zero h = absurd (omega arith)
drop-all (y ∷ q) (suc i) h = drop-all q i (omega arith)

module _ (library : Library) where
  decode-ascii :
      (buffer : List ℕ) (i x : ℕ)
      → get_elem? buffer i ≡ some x
      → x < 0x80
      → decode library buffer i ≡ record { width = 1; counted = some (library.is_text x) }
  unfolding decode
  decode-ascii buffer i x at small =
      let low : ltb x 0x80 ≡ true = omega (tests, small) in
      rw (decode, get_or-get_elem? buffer i x at, low) refl

  utf8_counts-ascii :
      (fuel : ℕ) (buffer : List ℕ) (i printable total : ℕ)
      → length buffer ≤ i + fuel
      → AllAscii (drop i buffer)
      → utf8_counts library fuel buffer i printable total
        ≡ some (counts_of library library.is_text (drop i buffer) printable total)
  unfolding utf8_counts counts_of
  utf8_counts-ascii zero buffer i printable total enough small =
      let done : ltb i (length buffer) ≡ false = ground arith in
      rw (done, drop-all buffer i (omega arith)) refl
  utf8_counts-ascii (suc fuel) buffer i printable total enough small =
      elim (Bool-cases (ltb i (length buffer))) [
        | inr done ↦ rw (done, drop-all buffer i (ground arith)) refl
        | inl more ↦
            let (x, at, rest) = drop-cons buffer i (omega (tests, more)) in
            let both : AllAscii (x ∷ drop (suc i) buffer) = subst AllAscii rest small in
            let next : i + 1 ≡ suc i = omega arith in
            rw (more, decode-ascii buffer i x at both.0, next, rest)
              (utf8_counts-ascii fuel buffer (suc i) _ _ (omega arith) both.1)
      ]

  -- On a buffer of bytes below 0x80 the two checks, of UTF-8 and of bytes, give the same answer.
  pub check_printable_utf8-ascii :
      (buffer : List ℕ)
      → AllAscii buffer
      → check_printable_utf8 library buffer ≡ some (check_printable_ansi library buffer)
  unfolding check_printable_utf8 check_printable_ansi
  check_printable_utf8-ascii buffer small = elim (Bool-cases (length buffer == 0)) [
    | inl empty ↦ rw (empty) refl
    | inr some_left ↦
        rw (some_left, utf8_counts-ascii (length buffer) buffer 0 0 0 (omega arith) small) refl
  ]
