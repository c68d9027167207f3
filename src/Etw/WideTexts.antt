-- ===== src/Etw/WideTexts.antt =====
-- The texts of wide characters in the data of events, and the size that `GetEventPropertyValue` of
-- EtwService/include/etw/wmieventclass.cpp gives for them.
use windows_kernel_events_tr.Prelude.{
  ℕ, ◌+◌, ◌*◌, ◌/◌, ◌%◌, ◌<◌, ◌^◌, ◌&&◌, length, ◌≡◌, refl, ap, true, false, none, some, ◌==◌, List,
  [], ◌∷◌, ◌++◌, arith,
}
use windows_kernel_events_tr.Etw.Layout.{
  CimType, wcslen, text_size, sized_by_type, Property, WmiEventClass, wrap32, from_offset,
  get_event_property_value,
}

-- Wide characters, the lower byte first, with the null character after them.
unfoldable pub wide : List ℕ → List ℕ
wide [] = 0 ∷ 0 ∷ []
wide (c ∷ cs) = c % 256 ∷ c / 256 ∷ wide cs

-- Characters of 16 bits, none of them null.
abbrev pub AreWide : List ℕ → Type 0
AreWide [] = Unit {0}
AreWide (c ∷ cs) = (0 < c) × (c < 2 ^ 16) × AreWide cs

-- The property is one text of wide characters up to the null character.
pub record IsWideText (t : Property) : Type 0 where
  pub no_pointer : t.is_pointer ≡ false
  pub no_array : t.is_array ≡ false
  pub is_text : t.data_type ≡ CimType.text
  pub is_wide : t.format ≡ true
  pub terminated : t.termination ≡ none

pub wcslen-wide : (cs tail : List ℕ) → AreWide cs → wcslen (wide cs ++ tail) ≡ some (length cs)
unfolding wcslen wide
wcslen-wide [] tail h = refl
wcslen-wide (c ∷ cs) tail h =
    let some_bits : ((c % 256 == 0) && (c / 256 == 0)) ≡ false =
      let (p, _, _) = h in ground arith in
    rw (some_bits, wcslen-wide cs tail h.2) (ap some (omega arith))

pub text_sized :
    (w : WmiEventClass) (t : Property) (bytes cs tail : List ℕ) (offset : ℕ)
    → IsWideText t
    → AreWide cs
    → from_offset offset bytes ≡ some (wide cs ++ tail)
    → (k : ℕ) × (get_event_property_value w.system w.pointer_size t bytes offset ≡ some k) × (0 < k)
unfolding get_event_property_value sized_by_type text_size
text_sized w t bytes cs tail offset h wides at = (
  wrap32 (2 * (length cs % 2 ^ 16 + 1)),
  rw (h.no_pointer, h.no_array, h.is_text, h.terminated, h.is_wide, at, wcslen-wide cs tail wides)
      refl,
  omega arith,
)
