-- ===== src/Printable.antt =====
-- EtwService/include/ulti/support.cpp: `CheckPrintableUTF8`, `CheckPrintableANSI` and
-- `CheckPrintableUTF16`, whether a buffer is mostly printable text. The C library's tests of
-- characters are arguments.
pub mod Counts
pub mod Ascii
use Prim.Native.Nat.{bit_and, bit_or}
use windows_kernel_events_tr.Prelude.{
  ℕ, zero, suc, ◌+◌, ◌*◌, ◌/◌, ◌%◌, ◌^◌, List, [], ◌∷◌, Option, some, none, Bool, true, false, not,
  length, get_or, leb, ltb, ◌==◌, if◌then◌else◌, ◌>>=◌,
}

-- `isprint(c) || isspace(c)` on bytes, `iswprint(c) || iswspace(c)` on wide characters.
pub record Library : Type 0 where
  pub is_text : ℕ → Bool
  pub is_wide_text : ℕ → Bool

-- `BelowTextThreshold(part, total)`; a buffer's size times 97 stays below 2^63.
unfoldable pub below_text_threshold : ℕ → ℕ → Bool
below_text_threshold part total = leb part (total * 97 / 100)

-- How far a character of UTF-8 takes the index, and, if it is counted, whether it is printable.
pub record Decoded : Type 0 where
  pub width : ℕ
  pub counted : Option Bool

module _ (library : Library) where
  open library use {is_text, is_wide_text}

  -- `wchar_t` has 16 bits.
  unfoldable pub wide : ℕ → Bool
  wide value = is_wide_text (value % 2 ^ 16)

  -- The round of the loop at index `i`. The bits that `|` joins have different places.
  unfoldable pub decode : List ℕ → ℕ → Decoded
  decode buffer i =
      let c = get_or buffer i 0 in
      let c1 = bit_and (get_or buffer (i + 1) 0) 0x3F in
      let c2 = bit_and (get_or buffer (i + 2) 0) 0x3F in
      let c3 = bit_and (get_or buffer (i + 3) 0) 0x3F in
      if ltb c 0x80
      then record { width = 1; counted = some (is_text c) }
      else if bit_and c 0xE0 == 0xC0
      then record {
        width = 2;
        counted =
            if ltb (i + 1) (length buffer) then some (wide (bit_and c 0x1F * 2 ^ 6 + c1)) else none;
      }
      else if bit_and c 0xF0 == 0xE0
      then record {
        width = 3;
        counted =
            if ltb (i + 2) (length buffer)
            then some (wide (bit_and c 0x0F * 2 ^ 12 + c1 * 2 ^ 6 + c2))
            else none;
      }
      else if bit_and c 0xF8 == 0xF0
      then record {
        width = 4;
        counted =
            if ltb (i + 3) (length buffer)
            then some (wide (bit_and c 0x07 * 2 ^ 18 + c1 * 2 ^ 12 + c2 * 2 ^ 6 + c3))
            else none;
      }
      else record { width = 1; counted = none }

  abbrev pub count_if : Option Bool → ℕ → ℕ
  count_if none printable = printable
  count_if (some b) printable = if b then printable + 1 else printable

  abbrev pub count_one : Option Bool → ℕ → ℕ
  count_one none total = total
  count_one (some b) total = total + 1

  -- `while (i < buffer.size())`, on fuel; the counts of printable and of all characters.
  unfoldable pub utf8_counts : ℕ → List ℕ → ℕ → ℕ → ℕ → Option (ℕ × ℕ)
  utf8_counts zero buffer i printable total =
      if ltb i (length buffer) then none else some (printable, total)
  utf8_counts (suc fuel) buffer i printable total =
      let d = decode buffer i in
      let rest =
        utf8_counts fuel buffer (i + d.width) (count_if d.counted printable)
          (count_one d.counted total) in
      if ltb i (length buffer) then rest else some (printable, total)

  -- The answer from the counts.
  abbrev pub judge : ℕ × ℕ → Bool
  judge (printable, total) =
      if total == 0 then false else not (below_text_threshold printable total)

  unfoldable pub check_printable_utf8 : List ℕ → Option Bool
  check_printable_utf8 buffer =
      if length buffer == 0
      then some true
      else (utf8_counts (length buffer) buffer 0 0 0 >>= λ counts. some (judge counts))

  -- `for (unsigned char c : buffer)`
  unfoldable pub counts_of : (ℕ → Bool) → List ℕ → ℕ → ℕ → ℕ × ℕ
  counts_of test [] printable total = (printable, total)
  counts_of test (c ∷ rest) printable total =
      counts_of test rest (if test c then printable + 1 else printable) (total + 1)

  unfoldable pub check_printable_ansi : List ℕ → Bool
  check_printable_ansi buffer =
      if length buffer == 0 then true else judge (counts_of is_text buffer 0 0)

  -- On wide characters, of which there are as many as the string is long.
  unfoldable pub check_printable_utf16 : List ℕ → Bool
  check_printable_utf16 string =
      if length string == 0 then true else judge (counts_of is_wide_text string 0 0)
