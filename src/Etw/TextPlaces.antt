-- ===== src/Etw/TextPlaces.antt =====
-- The texts of the event classes in EtwService/include/etw/event: where the constructors look for them.
use windows_kernel_events_tr.Prelude.{
  ℕ, ◌+◌, ◌<◌, ◌^◌, length, ◌≡◌, refl, sym, ◌∙◌, ap, true, false, none, some, ◌==◌, List, [], ◌∷◌,
  ◌++◌, arith, take, inl, inr, Bool-cases, subst,
}
use windows_kernel_events_tr.Etw.Names.{Name, same_name}
use windows_kernel_events_tr.Etw.Layout.{
  wcslen, Property, WmiEventClass, wrap32, minus_one, get_event_property_value, scan_properties,
  get_property_info, from_offset,
}
use windows_kernel_events_tr.Etw.Members.{
  text_after, Member, Offsets, no_offsets, locate_text, is_placed, text_offsets, copy_out,
  read_member,
}
use windows_kernel_events_tr.Etw.Places.{
  get_event_property_value_lem, AreFixed, AllFit, place, total, encode, from_total,
}
use windows_kernel_events_tr.Etw.WideTexts.{wide, AreWide, IsWideText, wcslen-wide, text_sized}
use windows_kernel_events_tr.Etw.Fields.{
  IsDescribed, ArePlaced, AreValues, scan_lem, locate_all_lem, known_lem, before_lem,
  copy_fields_lem,
}

last_size : List ℕ → ℕ → ℕ
last_size [] last = last
last_size (n ∷ ns) last = last_size ns n

text_missing :
    (w : WmiEventClass) (ps : List Property) (ns bytes : List ℕ) (name : Name) (offset last : ℕ)
    → AreFixed w ps ns
    → offset + total ns < 2 ^ 32
    → place name ps ns offset ≡ none
    → scan_properties w.system w.pointer_size name bytes ps offset last
      ≡ some (minus_one, last_size ns last)
unfolding scan_properties place total last_size
text_missing w [] [] bytes name offset last fixed room missing = refl
text_missing w (p ∷ ps) (n ∷ ns) bytes name offset last fixed room missing =
    let sized : (n == 0) ≡ false = let h = fixed.1 in ground arith in
    let small : wrap32 (offset + n) ≡ offset + n = omega arith in
    elim (Bool-cases (same_name p.name name)) [
      | inl same ↦ let clash : some (offset, n) ≡ none = rw (same) at missing in cc
      | inr other ↦
          let later : place name ps ns (offset + n) ≡ none = rw (other) at missing in
          rw (get_event_property_value_lem w p n fixed.0 fixed.2 bytes offset, sized, other, small)
            (text_missing w ps ns bytes name (offset + n) n fixed.3 (omega arith) later)
    ]
text_missing w [] (n ∷ ns) bytes name offset last fixed room missing = absurd fixed
text_missing w (p ∷ ps) [] bytes name offset last fixed room missing = absurd fixed

properties_nil : (ps : List Property) → ps ++ [] ≡ ps
properties_nil [] = refl
properties_nil (p ∷ ps) = ap (λ r. p ∷ r) (properties_nil ps)

-- What a class keeps whose text was not found.
abbrev pub astray : List (ℕ × ℕ) → Offsets
astray qs = record { is_positioned = true; fields = qs; text = minus_one }

-- A class that WMI describes by fixed fields, without the text that its constructor looks for: the
-- offset -1 passes the test that the text comes after all fields, since it is compared as 2^32 - 1. The
-- first event's constructor keeps that offset, and this constructor and that of every later event of the
-- layout copy the fields, and take the text from 2^32 - 1 bytes after the start of the event's data.
pub read_member-astray :
    (w : WmiEventClass) (ps : List Property) (ns vs rest : List ℕ) (m : Member) (qs : List (ℕ × ℕ))
    (name : Name)
    → IsDescribed w ps [] ns
    → ArePlaced ps ns m.located qs
    → m.texts ≡ text_after name
    → place name ps ns 0 ≡ none
    → AllFit ns vs
    → ((xs : List ℕ) × (read_member w m no_offsets (encode ns vs rest)
          ≡ some (astray qs, record { values = xs; texts = minus_one ∷ [] }))
        × AreValues ps vs (take m.copied m.located) xs)
      × ((later others : List ℕ)
          → AllFit ns later
          → (xs : List ℕ) × (read_member w m (astray qs) (encode ns later others)
              ≡ some (astray qs, record { values = xs; texts = minus_one ∷ [] }))
            × AreValues ps later (take m.copied m.located) xs)
unfolding read_member copy_out locate_text is_placed text_offsets
read_member-astray w ps ns vs rest m qs name d placed texts missing fit =
    let (xs, e, values) =
      copy_fields_lem w ps ns vs rest m.copied m.located qs d.fixed fit placed in
    let room = d.room in
    let info : get_property_info w name (encode ns vs rest) ≡ some (minus_one, last_size ns 0) =
      scan_lem w ps [] ns (encode ns vs rest) name d
      ∙ (ap (λ r. scan_properties w.system w.pointer_size name (encode ns vs rest) r 0 0)
            (properties_nil ps)
          ∙ text_missing w ps ns (encode ns vs rest) name 0 0 d.fixed (omega arith) missing) in
    (
      (
        xs,
        rw
            (
              locate_all_lem w ps [] ns (encode ns vs rest) m.located qs d placed,
              texts,
              info,
              known_lem w ps ns m.located qs d.fixed placed,
              before_lem w ps ns m.located qs minus_one d.fixed placed (omega arith),
              e,
            )
            refl,
        values,
      ),
      λ later others fits.
          let (ys, e', values') =
            copy_fields_lem w ps ns later others m.copied m.located qs d.fixed fits placed in
          (ys, rw (texts, e') refl, values'),
    )

scan_text :
    (w : WmiEventClass) (ps more : List Property) (t : Property) (ns bytes : List ℕ) (name : Name)
    (offset last k : ℕ)
    → AreFixed w ps ns
    → offset + total ns < 2 ^ 32
    → place name ps ns offset ≡ none
    → same_name t.name name ≡ true
    → get_event_property_value w.system w.pointer_size t bytes (offset + total ns) ≡ some k
    → 0 < k
    → scan_properties w.system w.pointer_size name bytes (ps ++ (t ∷ more)) offset last
      ≡ some (offset + total ns, k)
unfolding scan_properties place total
scan_text w [] more t [] bytes name offset last k fixed room missing named sized positive =
    let here : offset + 0 ≡ offset = omega arith in
    let known : (k == 0) ≡ false = ground arith in
    let size : get_event_property_value w.system w.pointer_size t bytes offset ≡ some k =
      subst (λ o. get_event_property_value w.system w.pointer_size t bytes o ≡ some k) here sized in
    rw (here, size, known, named) refl
scan_text w (p ∷ ps) more t (n ∷ ns) bytes name offset last k fixed room missing named sized
      positive =
    let known : (n == 0) ≡ false = let h = fixed.1 in ground arith in
    let small : wrap32 (offset + n) ≡ offset + n = omega arith in
    let later : offset + (n + total ns) ≡ offset + n + total ns = omega arith in
    elim (Bool-cases (same_name p.name name)) [
      | inl same ↦ let clash : some (offset, n) ≡ none = rw (same) at missing in cc
      | inr other ↦
          let missing_on : place name ps ns (offset + n) ≡ none = rw (other) at missing in
          rw
            (
              get_event_property_value_lem w p n fixed.0 fixed.2 bytes offset,
              known,
              other,
              small,
              later,
            )
            (scan_text w ps more t ns bytes name (offset + n) n k fixed.3 (omega arith) missing_on
              named
              (subst (λ o. get_event_property_value w.system w.pointer_size t bytes o ≡ some k)
                later sized)
              positive)
    ]
scan_text w [] more t (n ∷ ns) bytes name offset last k fixed room missing named sized positive =
    absurd fixed
scan_text w (p ∷ ps) more t [] bytes name offset last k fixed room missing named sized positive =
    absurd fixed

-- The text is found where the fixed fields end.
text_lem :
    (w : WmiEventClass) (ps more : List Property) (t : Property) (ns bytes : List ℕ) (name : Name)
    (k : ℕ)
    → IsDescribed w ps (t ∷ more) ns
    → place name ps ns 0 ≡ none
    → same_name t.name name ≡ true
    → get_event_property_value w.system w.pointer_size t bytes (total ns) ≡ some k
    → 0 < k
    → get_property_info w name bytes ≡ some (total ns, k)
text_lem w ps more t ns bytes name k d missing named sized positive =
    let room = d.room in
    let start : 0 + total ns ≡ total ns = omega arith in
    scan_lem w ps (t ∷ more) ns bytes name d
    ∙ (scan_text w ps more t ns bytes name 0 0 k d.fixed (omega arith) missing named
          (subst (λ o. get_event_property_value w.system w.pointer_size t bytes o ≡ some k)
            (sym start) sized)
          positive
        ∙ ap (λ o. some (o, k)) start)

-- An event of a class with a text after its fixed fields, laid out as WMI describes the class: the
-- fields with their values, the wide characters of the text with a null character, and anything after
-- them. Its constructor returns, copies the value of each of its fields, keeps the places, and takes the
-- text from where the characters of the text begin, which run up to the null character.
pub read-encode_text :
    (w : WmiEventClass) (ps more : List Property) (t : Property) (ns vs cs tail : List ℕ)
    (m : Member) (qs : List (ℕ × ℕ)) (name : Name)
    → IsDescribed w ps (t ∷ more) ns
    → ArePlaced ps ns m.located qs
    → m.texts ≡ text_after name
    → place name ps ns 0 ≡ none
    → same_name t.name name ≡ true
    → IsWideText t
    → AllFit ns vs
    → AreWide cs
    → (xs : List ℕ) × (read_member w m no_offsets (encode ns vs (wide cs ++ tail))
        ≡ some (
          record { is_positioned = true; fields = qs; text = total ns },
          record { values = xs; texts = total ns ∷ [] },
        ))
      × AreValues ps vs (take m.copied m.located) xs
      × (from_offset (total ns) (encode ns vs (wide cs ++ tail)) ≡ some (wide cs ++ tail))
      × (wcslen (wide cs ++ tail) ≡ some (length cs))
unfolding read_member copy_out locate_text is_placed text_offsets
read-encode_text w ps more t ns vs cs tail m qs name d placed texts missing named is_text fit
      wides =
    let bytes : List ℕ = encode ns vs (wide cs ++ tail) in
    let (xs, e, values) =
      copy_fields_lem w ps ns vs (wide cs ++ tail) m.copied m.located qs d.fixed fit placed in
    let at = from_total w ps ns vs (wide cs ++ tail) d.fixed fit in
    let (k, sized, positive) = text_sized w t bytes cs tail (total ns) is_text wides at in
    let room = d.room in
    let info = text_lem w ps more t ns bytes name k d missing named sized positive in
    (
      xs,
      rw
          (
            locate_all_lem w ps (t ∷ more) ns bytes m.located qs d placed,
            texts,
            info,
            known_lem w ps ns m.located qs d.fixed placed,
            before_lem w ps ns m.located qs (total ns) d.fixed placed (omega arith),
            e,
          )
          refl,
      values,
      at,
      wcslen-wide cs tail wides,
    )
