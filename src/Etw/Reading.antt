-- ===== src/Etw/Reading.antt =====
-- What the constructors of the event classes in EtwService/include/etw/event read, of classes without texts.
use windows_kernel_events_tr.Prelude.{ℕ, ◌≡◌, refl, true, some, List, [], take}
use windows_kernel_events_tr.Etw.Layout.{Property, WmiEventClass}
use windows_kernel_events_tr.Etw.Members.{
  no_text, Member, no_offsets, locate_text, is_placed, text_offsets, copy_out, read_member,
}
use windows_kernel_events_tr.Etw.Places.{AllFit, encode}
use windows_kernel_events_tr.Etw.Fields.{
  IsDescribed, ArePlaced, AreValues, locate_all_lem, known_lem, copy_fields_lem,
}

-- An event of a class without texts, laid out as WMI describes the class: fixed fields, which are
-- pointers and single values of at most eight bytes, and anything after them. Its constructor returns, and copies the value of each of its fields,
-- in whatever order it asks for them; it keeps the places.
pub read-encode :
    (w : WmiEventClass) (ps more : List Property) (ns vs rest : List ℕ) (m : Member)
    (qs : List (ℕ × ℕ))
    → IsDescribed w ps more ns
    → ArePlaced ps ns m.located qs
    → m.texts ≡ no_text
    → AllFit ns vs
    → (xs : List ℕ) × (read_member w m no_offsets (encode ns vs rest)
        ≡ some (
          record { is_positioned = true; fields = qs; text = 0 },
          record { values = xs; texts = [] },
        ))
      × AreValues ps vs (take m.copied m.located) xs
unfolding read_member copy_out locate_text is_placed text_offsets
read-encode w ps more ns vs rest m qs d placed texts fit =
    let (xs, e, values) =
      copy_fields_lem w ps ns vs rest m.copied m.located qs d.fixed fit placed in
    (
      xs,
      rw
          (
            locate_all_lem w ps more ns (encode ns vs rest) m.located qs d placed,
            texts,
            known_lem w ps ns m.located qs d.fixed placed,
            e,
          )
          refl,
      values,
    )

-- For a class without texts that WMI describes by fixed fields, among them those that the constructor
-- looks for, the kept places serve for every later event, whatever its bytes: with them the constructor
-- does what it would do if it looked for the places anew.
pub read_member-cached :
    (w : WmiEventClass) (ps more : List Property) (ns bytes : List ℕ) (m : Member)
    (qs : List (ℕ × ℕ))
    → IsDescribed w ps more ns
    → ArePlaced ps ns m.located qs
    → m.texts ≡ no_text
    → read_member w m (record { is_positioned = true; fields = qs; text = 0 }) bytes
      ≡ read_member w m no_offsets bytes
unfolding read_member locate_text is_placed
read_member-cached w ps more ns bytes m qs d placed texts =
    rw
      (
        locate_all_lem w ps more ns bytes m.located qs d placed,
        texts,
        known_lem w ps ns m.located qs d.fixed placed,
      )
      refl
