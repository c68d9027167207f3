-- ===== src/Etw/Fields.antt =====
-- The fields of an event whose class WMI describes: what `GetPropertyInfo` of EtwService/include/etw finds for
-- them, and what the constructors of the event classes copy.
use windows_kernel_events_tr.Prelude.{
  ℕ, zero, suc, ◌+◌, ◌-◌, ◌≤◌, ◌<◌, ◌^◌, ◌≡◌, refl, ◌∙◌, true, false, some, ◌==◌, ltb, List, [],
  ◌∷◌, ◌++◌, arith, take, inl, inr, Bool-cases, subst,
}
use windows_kernel_events_tr.Etw.Names.{Name, same_name}
use windows_kernel_events_tr.Etw.Layout.{
  Property, EventClass, CategoryClass, WmiEventClass, get_event_category_class, get_event_class,
  scan_properties, get_property_info, info_of_class, from_offset,
}
use windows_kernel_events_tr.Etw.Members.{
  locate_all, has_unknown, all_before, copy_field, copy_fields,
}
use windows_kernel_events_tr.Etw.Places.{
  AreFixed, AllFit, place, value_at, total, encode, copy-place, scan-place,
}

-- WMI describes the event's class by `ps`, whose sizes are `ns`, and `more`.
pub record IsDescribed (w : WmiEventClass) (ps more : List Property) (ns : List ℕ) : Type 0 where
  pub category : CategoryClass
  pub event_class : EventClass
  pub has_category :
      get_event_category_class w.system w.class_guid w.version w.classes ≡ some category
  pub has_class : get_event_class w.type category.children ≡ some event_class
  pub properties : event_class.properties ≡ ps ++ more
  pub fixed : AreFixed w ps ns
  pub room : total ns < 2 ^ 32 - 1

-- The names have their places and their values.
abbrev pub ArePlaced : List Property → List ℕ → List Name → List (ℕ × ℕ) → Type 0
ArePlaced ps ns [] [] = Unit {0}
ArePlaced ps ns (n ∷ names) (q ∷ qs) = (place n ps ns 0 ≡ some q) × ArePlaced ps ns names qs
ArePlaced ps ns _ _ = ⊥

abbrev pub AreValues : List Property → List ℕ → List Name → List ℕ → Type 0
AreValues ps vs [] [] = Unit {0}
AreValues ps vs (n ∷ names) (x ∷ xs) = (value_at n ps vs ≡ some x) × AreValues ps vs names xs
AreValues ps vs _ _ = ⊥

pub scan_lem :
    (w : WmiEventClass) (ps more : List Property) (ns bytes : List ℕ) (name : Name)
    → IsDescribed w ps more ns
    → get_property_info w name bytes
      ≡ scan_properties w.system w.pointer_size name bytes (ps ++ more) 0 0
unfolding get_property_info info_of_class
scan_lem w ps more ns bytes name d = rw (d.has_category, d.has_class, d.properties) refl

info_lem :
    (w : WmiEventClass) (ps more : List Property) (ns bytes : List ℕ) (name : Name) (q : ℕ × ℕ)
    → IsDescribed w ps more ns
    → place name ps ns 0 ≡ some q
    → get_property_info w name bytes ≡ some q
info_lem w ps more ns bytes name q d found =
    let room = d.room in
    scan_lem w ps more ns bytes name d
    ∙ scan-place w name ps more ns bytes 0 0 q d.fixed (omega arith) found

pub locate_all_lem :
    (w : WmiEventClass) (ps more : List Property) (ns bytes : List ℕ) (names : List Name)
    (qs : List (ℕ × ℕ))
    → IsDescribed w ps more ns
    → ArePlaced ps ns names qs
    → locate_all w names bytes ≡ some qs
unfolding locate_all
locate_all_lem w ps more ns bytes [] [] d placed = refl
locate_all_lem w ps more ns bytes (n ∷ names) (q ∷ qs) d placed =
    rw
      (
        info_lem w ps more ns bytes n q d placed.0,
        locate_all_lem w ps more ns bytes names qs d placed.1,
      )
      refl
locate_all_lem w ps more ns bytes [] (q ∷ qs) d placed = absurd placed
locate_all_lem w ps more ns bytes (n ∷ names) [] d placed = absurd placed

-- A place has a size, and lies within the fixed part.
place_within :
    (w : WmiEventClass) (name : Name) (ps : List Property) (ns : List ℕ) (offset : ℕ) (q : ℕ × ℕ)
    → AreFixed w ps ns
    → place name ps ns offset ≡ some q
    → (0 < q.1) × (q.0 < offset + total ns)
unfolding place total
place_within w name [] [] offset q fixed found = cc
place_within w name (p ∷ ps) (n ∷ ns) offset q fixed found =
    elim (Bool-cases (same_name p.name name)) [
      | inl same ↦
          let at : some (offset, n) ≡ some q = rw (same) at found in
          let here : (offset, n) ≡ q = cc in
          subst (λ (r : ℕ × ℕ). (0 < r.1) × (r.0 < offset + (n + total ns))) here
            (fixed.1, let h = fixed.1 in omega arith)
      | inr other ↦
          let later : place name ps ns (offset + n) ≡ some q = rw (other) at found in
          let (size, within) = place_within w name ps ns (offset + n) q fixed.3 later in
          (size, omega arith)
    ]
place_within w name [] (n ∷ ns) offset q fixed found = absurd fixed
place_within w name (p ∷ ps) [] offset q fixed found = absurd fixed

pub known_lem :
    (w : WmiEventClass) (ps : List Property) (ns : List ℕ) (names : List Name) (qs : List (ℕ × ℕ))
    → AreFixed w ps ns
    → ArePlaced ps ns names qs
    → has_unknown qs ≡ false
unfolding has_unknown
known_lem w ps ns [] [] fixed placed = refl
known_lem w ps ns (n ∷ names) (q ∷ qs) fixed placed =
    let size = (place_within w n ps ns 0 q fixed placed.0).0 in
    let positive : (q.1 == 0) ≡ false = ground arith in
    rw (positive) (known_lem w ps ns names qs fixed placed.1)
known_lem w ps ns [] (q ∷ qs) fixed placed = absurd placed
known_lem w ps ns (n ∷ names) [] fixed placed = absurd placed

pub before_lem :
    (w : WmiEventClass) (ps : List Property) (ns : List ℕ) (names : List Name) (qs : List (ℕ × ℕ))
    (t : ℕ)
    → AreFixed w ps ns
    → ArePlaced ps ns names qs
    → total ns ≤ t
    → all_before t qs ≡ true
unfolding all_before
before_lem w ps ns [] [] t fixed placed le = refl
before_lem w ps ns (n ∷ names) (q ∷ qs) t fixed placed le =
    let within = (place_within w n ps ns 0 q fixed placed.0).1 in
    let before : ltb q.0 t ≡ true = ground arith in
    rw (before) (before_lem w ps ns names qs t fixed placed.1 le)
before_lem w ps ns [] (q ∷ qs) t fixed placed le = absurd placed
before_lem w ps ns (n ∷ names) [] t fixed placed le = absurd placed

valued :
    (w : WmiEventClass) (name : Name) (ps : List Property) (ns vs : List ℕ) (offset : ℕ) (q : ℕ × ℕ)
    → AreFixed w ps ns
    → AllFit ns vs
    → place name ps ns offset ≡ some q
    → (x : ℕ) × (value_at name ps vs ≡ some x)
unfolding place value_at
valued w name [] [] [] offset q fixed fit found = cc
valued w name (p ∷ ps) (n ∷ ns) (v ∷ vs) offset q fixed fit found =
    elim (Bool-cases (same_name p.name name)) [
      | inl same ↦ (v, rw (same) refl)
      | inr other ↦
          let later : place name ps ns (offset + n) ≡ some q = rw (other) at found in
          let (x, e) = valued w name ps ns vs (offset + n) q fixed.3 fit.1 later in
          (x, rw (other) e)
    ]
valued w name [] [] (v ∷ vs) offset q fixed fit found = absurd fit
valued w name (p ∷ ps) (n ∷ ns) [] offset q fixed fit found = absurd fit
valued w name [] (n ∷ ns) vs offset q fixed fit found = absurd fixed
valued w name (p ∷ ps) [] vs offset q fixed fit found = absurd fixed

-- The fields are copied.
pub copy_fields_lem :
    (w : WmiEventClass) (ps : List Property) (ns vs rest : List ℕ) (k : ℕ) (names : List Name)
    (qs : List (ℕ × ℕ))
    → AreFixed w ps ns
    → AllFit ns vs
    → ArePlaced ps ns names qs
    → (xs : List ℕ) × (copy_fields (encode ns vs rest) (take k qs) ≡ some xs)
      × AreValues ps vs (take k names) xs
unfolding copy_fields from_offset
copy_fields_lem w ps ns vs rest zero names qs fixed fit placed = ([], refl, tt)
copy_fields_lem w ps ns vs rest (suc k) [] [] fixed fit placed = ([], refl, tt)
copy_fields_lem w ps ns vs rest (suc k) (n ∷ names) (q ∷ qs) fixed fit placed =
    let one = copy-place w n ps ns vs (encode ns vs rest) rest 0 fixed fit refl in
    let here : copy_field (encode ns vs rest) q ≡ value_at n ps vs = rw (placed.0) at one in
    let (xs, e, values) = copy_fields_lem w ps ns vs rest k names qs fixed fit placed.1 in
    let (x, value) = valued w n ps ns vs 0 q fixed fit placed.0 in
    (x ∷ xs, rw (here ∙ value, e) refl, (value, values))
copy_fields_lem w ps ns vs rest (suc k) [] (q ∷ qs) fixed fit placed = absurd placed
copy_fields_lem w ps ns vs rest (suc k) (n ∷ names) [] fixed fit placed = absurd placed
