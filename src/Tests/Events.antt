-- ===== src/Tests/Events.antt =====
-- Events of three classes, and what WMI says of them.
use windows_kernel_events_tr.Prelude.{
  ℕ, ◌≡◌, refl, true, false, some, none, List, [], ◌∷◌, ◌++◌, inl, inr, arith, take,
}
use windows_kernel_events_tr.Etw.Names.{Name, same_name}
use windows_kernel_events_tr.Etw.Layout.{
  CimType, Property, CategoryClass, WmiEventClass, minus_one, get_event_category_class,
  get_event_class, has_type, from_offset, wcslen,
}
use windows_kernel_events_tr.Etw.Members.{no_offsets, read_member, file_io_op_end, file_io_name}
use windows_kernel_events_tr.Etw.Places.{AreFixed, AllFit, place, total, encode}
use windows_kernel_events_tr.Etw.WideTexts.{wide, IsWideText}
use windows_kernel_events_tr.Etw.Fields.{IsDescribed, ArePlaced, AreValues}
use windows_kernel_events_tr.Etw.Reading.{read-encode, read_member-cached}
use windows_kernel_events_tr.Etw.TextPlaces.{astray, read-encode_text, read_member-astray}

abbrev plain : Name → CimType → Property
plain name data_type = record {
  name = name;
  is_pointer = false;
  is_array = false;
  max = none;
  format = true;
  termination = none;
  extension = none;
  data_type = data_type;
}

abbrev pointer : Name → Property
pointer name = record {
  name = name;
  is_pointer = true;
  is_array = false;
  max = none;
  format = false;
  termination = none;
  extension = none;
  data_type = CimType.integer32;
}

abbrev op_end_properties : List Property
op_end_properties = pointer "IrpPtr" ∷ pointer "ExtraInfo" ∷ plain "NtStatus" CimType.integer32 ∷ []

abbrev op_end_sizes : List ℕ
op_end_sizes = 8 ∷ 8 ∷ 4 ∷ []

abbrev op_end_category : CategoryClass
op_end_category = record {
  class_guid = some "FileIo";
  version = some 2;
  children =
      record { event_types = some (64 ∷ []); properties = [] }
      ∷ record { event_types = some (75 ∷ 76 ∷ []); properties = op_end_properties }
      ∷ [];
}

abbrev op_end_class : WmiEventClass
op_end_class = record {
  system = record {
    same_ignoring_case = λ a b. same_name a b;
    has_ipv6 = true;
    sid_length = λ bs. 8;
  };
  classes = op_end_category ∷ [];
  class_guid = "FileIo";
  version = 2;
  type = 76;
  pointer_size = 8;
}

op_end-AreFixed : AreFixed op_end_class op_end_properties op_end_sizes
op_end-AreFixed = (
  inl (refl, refl),
  omega arith,
  omega arith,
  (
    inl (refl, refl),
    omega arith,
    omega arith,
    (inr (refl, refl, refl), omega arith, omega arith, tt),
  ),
)

op_end-IsDescribed : IsDescribed op_end_class op_end_properties [] op_end_sizes
unfolding get_event_category_class get_event_class has_type same_name total
op_end-IsDescribed = record {
  category = op_end_category;
  event_class = record { event_types = some (75 ∷ 76 ∷ []); properties = op_end_properties };
  has_category = refl;
  has_class = refl;
  properties = refl;
  fixed = op_end-AreFixed;
  room = omega arith;
}

op_end-ArePlaced :
    ArePlaced op_end_properties op_end_sizes
      ("IrpPtr" ∷ "ExtraInfo" ∷ "NtStatus" ∷ [])
      ((0, 8) ∷ (8, 8) ∷ (16, 4) ∷ [])
unfolding place same_name
op_end-ArePlaced = (refl, (refl, (refl, tt)))

abbrev op_end_values : List ℕ
op_end_values = 4096 ∷ 70000 ∷ 5 ∷ []

op_end-AllFit : AllFit op_end_sizes op_end_values
op_end-AllFit = (omega arith, (omega arith, (omega arith, tt)))

read-encode_example :
    (xs : List ℕ) × (read_member op_end_class file_io_op_end no_offsets
        (encode op_end_sizes op_end_values (9 ∷ []))
      ≡ some (
        record { is_positioned = true; fields = (0, 8) ∷ (8, 8) ∷ (16, 4) ∷ []; text = 0 },
        record { values = xs; texts = [] },
      ))
    × AreValues op_end_properties op_end_values
        (take file_io_op_end.copied file_io_op_end.located)
        xs
unfolding file_io_op_end
read-encode_example =
    read-encode op_end_class op_end_properties [] op_end_sizes op_end_values (9 ∷ []) file_io_op_end
      ((0, 8) ∷ (8, 8) ∷ (16, 4) ∷ []) op_end-IsDescribed op_end-ArePlaced refl op_end-AllFit

read_member-cached_example :
    read_member op_end_class file_io_op_end
      (record { is_positioned = true; fields = (0, 8) ∷ (8, 8) ∷ (16, 4) ∷ []; text = 0 })
      (1 ∷ 2 ∷ [])
    ≡ read_member op_end_class file_io_op_end no_offsets (1 ∷ 2 ∷ [])
unfolding file_io_op_end
read_member-cached_example =
    read_member-cached op_end_class op_end_properties [] op_end_sizes (1 ∷ 2 ∷ []) file_io_op_end
      ((0, 8) ∷ (8, 8) ∷ (16, 4) ∷ []) op_end-IsDescribed op_end-ArePlaced refl

abbrev name_properties : List Property
name_properties = pointer "FileObject" ∷ []

abbrev name_class : List Property → WmiEventClass
name_class texts = record {
  system = record {
    same_ignoring_case = λ a b. same_name a b;
    has_ipv6 = true;
    sid_length = λ bs. 8;
  };
  classes =
      record {
        class_guid = some "FileIo";
        version = none;
        children =
            record { event_types = some (0 ∷ 32 ∷ []); properties = pointer "FileObject" ∷ texts }
            ∷ [];
      }
      ∷ [];
  class_guid = "FileIo";
  version = 2;
  type = 32;
  pointer_size = 8;
}

name-IsDescribed :
    (texts : List Property) → IsDescribed (name_class texts) name_properties texts (8 ∷ [])
unfolding get_event_category_class get_event_class has_type same_name total
name-IsDescribed texts = record {
  category = record {
    class_guid = some "FileIo";
    version = none;
    children =
        record { event_types = some (0 ∷ 32 ∷ []); properties = pointer "FileObject" ∷ texts } ∷ [];
  };
  event_class = record {
    event_types = some (0 ∷ 32 ∷ []);
    properties = pointer "FileObject" ∷ texts;
  };
  has_category = refl;
  has_class = refl;
  properties = refl;
  fixed = (inl (refl, refl), omega arith, omega arith, tt);
  room = omega arith;
}

name-ArePlaced : ArePlaced name_properties (8 ∷ []) ("FileObject" ∷ []) ((0, 8) ∷ [])
unfolding place same_name
name-ArePlaced = (refl, tt)

no_name : place "FileName" name_properties (8 ∷ []) 0 ≡ none
unfolding place same_name
no_name = refl

read_member-astray_example :
    ((xs : List ℕ) × (read_member
          (name_class [])
          file_io_name
          no_offsets
          (encode (8 ∷ []) (77 ∷ []) (65 ∷ 0 ∷ 0 ∷ 0 ∷ []))
        ≡ some (astray ((0, 8) ∷ []), record { values = xs; texts = minus_one ∷ [] }))
      × AreValues name_properties (77 ∷ []) (take file_io_name.copied file_io_name.located) xs)
    × ((later others : List ℕ)
        → AllFit (8 ∷ []) later
        → (xs : List ℕ) × (read_member
              (name_class [])
              file_io_name
              (astray ((0, 8) ∷ []))
              (encode (8 ∷ []) later others)
            ≡ some (astray ((0, 8) ∷ []), record { values = xs; texts = minus_one ∷ [] }))
          × AreValues name_properties later (take file_io_name.copied file_io_name.located) xs)
unfolding file_io_name
read_member-astray_example =
    read_member-astray (name_class []) name_properties (8 ∷ []) (77 ∷ []) (65 ∷ 0 ∷ 0 ∷ 0 ∷ [])
      file_io_name ((0, 8) ∷ []) "FileName" (name-IsDescribed []) name-ArePlaced refl no_name
      (omega arith, tt)

abbrev wide_name : Property
wide_name = plain "FileName" CimType.text

wide_name_named : same_name "FileName" "FileName" ≡ true
unfolding same_name
wide_name_named = refl

wide_name-IsWideText : IsWideText wide_name
wide_name-IsWideText = record {
  no_pointer = refl;
  no_array = refl;
  is_text = refl;
  is_wide = refl;
  terminated = refl;
}

-- The text "A".
read-encode_text_example :
    (xs : List ℕ) × (read_member
        (name_class (wide_name ∷ []))
        file_io_name
        no_offsets
        (encode (8 ∷ []) (77 ∷ []) (wide (65 ∷ []) ++ 9 ∷ []))
      ≡ some (
        record { is_positioned = true; fields = (0, 8) ∷ []; text = total (8 ∷ []) },
        record { values = xs; texts = total (8 ∷ []) ∷ [] },
      ))
    × AreValues name_properties (77 ∷ []) (take file_io_name.copied file_io_name.located) xs
    × (from_offset (total (8 ∷ [])) (encode (8 ∷ []) (77 ∷ []) (wide (65 ∷ []) ++ 9 ∷ []))
        ≡ some (wide (65 ∷ []) ++ 9 ∷ []))
    × (wcslen (wide (65 ∷ []) ++ 9 ∷ []) ≡ some 1)
unfolding file_io_name
read-encode_text_example =
    read-encode_text (name_class (wide_name ∷ [])) name_properties [] wide_name (8 ∷ []) (77 ∷ [])
      (65 ∷ []) (9 ∷ []) file_io_name ((0, 8) ∷ []) "FileName" (name-IsDescribed (wide_name ∷ []))
      name-ArePlaced refl no_name wide_name_named wide_name-IsWideText (omega arith, tt)
      (omega arith, omega arith, tt)
