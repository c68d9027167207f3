-- ===== src/Etw/Layout.antt =====
-- EtwService/include/etw/wmieventclass.cpp: `GetEventCategoryClass`, `GetEventClass`,
-- `GetEventPropertyValue` and `GetPropertyInfo` of WmiEventClass. What WMI answers is an argument: the
-- classes in the order of the enumeration, with their qualifiers. An `int` is its 32 bits. A read
-- outside the event's data, or through a null pointer, is a fault, `none`.
use windows_kernel_events_tr.Prelude.{
  ℕ, zero, suc, ◌+◌, ◌-◌, ◌*◌, ◌%◌, ◌^◌, Bool, true, false, ◌&&◌, ◌||◌, Option, none, some, ◌>>=◌,
  if◌then◌else◌, ◌==◌, ltb, List, [], ◌∷◌, length, take,
}
use windows_kernel_events_tr.Etw.Names.{Name, same_name}

-- The bits of the data type without CIM_FLAG_ARRAY.
pub data CimType : Type 0 where
  integer32 : CimType
  integer64 : CimType
  text : CimType
  boolean : CimType
  integer8 : CimType
  character16 : CimType
  object : CimType
  other_type : CimType

-- The value of the qualifier Extension.
pub data Extension : Type 0 where
  size_t : Extension
  port : Extension
  ip_addr : Extension
  ip_addr_v6 : Extension
  guid : Extension
  sid : Extension
  other_extension : Extension

-- PropertyList: what GetPropertyName gives for it, the qualifiers Pointer or PointerType, MAX, Format, StringTermination (whether its
-- value is NullTerminated) and Extension.
pub record Property : Type 0 where
  pub name : Name
  pub is_pointer : Bool
  pub is_array : Bool
  pub max : Option ℕ
  pub format : Bool
  pub termination : Option Bool
  pub extension : Option Extension
  pub data_type : CimType

pub record EventClass : Type 0 where
  pub event_types : Option (List ℕ)
  pub properties : List Property

pub record CategoryClass : Type 0 where
  pub class_guid : Option Name
  pub version : Option ℕ
  pub children : List EventClass

-- The system: whether `_wcsicmp` of two texts is 0, whether ntdll has RtlIpv6AddressToStringW, and
-- SeLengthSid of a copied security id.
pub record System : Type 0 where
  pub same_ignoring_case : Name → Name → Bool
  pub has_ipv6 : Bool
  pub sid_length : List ℕ → ℕ

abbrev pub wrap32 : ℕ → ℕ
wrap32 n = n % 2 ^ 32

abbrev pub minus_one : ℕ
minus_one = 2 ^ 32 - 1

-- The bytes from an offset on, and the number that the first of them stand for.
unfoldable pub from_offset : ℕ → List ℕ → Option (List ℕ)
from_offset zero bs = some bs
from_offset (suc n) [] = none
from_offset (suc n) (b ∷ bs) = from_offset n bs

unfoldable pub read_number : ℕ → List ℕ → Option ℕ
read_number zero bs = some 0
read_number (suc n) [] = none
read_number (suc n) (b ∷ bs) = do r ← read_number n bs; some (b + 256 * r)

-- strlen and wcslen
unfoldable pub strlen : List ℕ → Option ℕ
strlen [] = none
strlen (b ∷ bs) = let rest = strlen bs in if b == 0 then some 0 else (rest >>= λ n. some (n + 1))

unfoldable pub wcslen : List ℕ → Option ℕ
wcslen [] = none
wcslen (b ∷ []) = none
wcslen (b ∷ c ∷ bs) =
    let rest = wcslen bs in if (b == 0) && (c == 0) then some 0 else (rest >>= λ n. some (n + 1))

-- The loop over the elements of a CIM_STRING: all of them are measured at the same place.
unfoldable pub text_size : ℕ → Bool → Bool → List ℕ → ℕ → ℕ → Option ℕ
text_size zero terminated wide bytes offset size = some size
text_size (suc n) terminated wide bytes offset size = elim terminated [
  | true ↦ do
    bs ← from_offset offset bytes
    size ←
        (if wide
          then (wcslen bs >>= λ k. some (wrap32 (2 * (k % 2 ^ 16 + 1))))
          else (strlen bs >>= λ k. some (wrap32 (k % 2 ^ 16 + 1))))
    text_size n true wide bytes offset size
  | false ↦ text_size n false wide bytes offset size
]

-- The length of what is copied of a security id: at most SECURITY_MAX_SID_SIZE bytes.
unfoldable pub copy_length : ℕ → ℕ → ℕ → ℕ
copy_length total offset bytes_to_sid =
    let rest = (total + 2 ^ 65 - offset - bytes_to_sid) % 2 ^ 64 in
    if ltb 68 rest then 68 else rest % 2 ^ 16

-- The loop over the elements of an object with the extension Sid.
unfoldable pub sid_size : System → ℕ → ℕ → List ℕ → ℕ → ℕ → ℕ → Option ℕ
sid_size sys zero pointer_size bytes offset at size = some size
sid_size sys (suc n) pointer_size bytes offset at size = do
  bs ← from_offset at bytes
  temp ← read_number 4 bs
  elim (ltb 0 temp) [
    | true ↦ do
      let bytes_to_sid = (pointer_size * 2) % 2 ^ 16
      bs ← from_offset (at + bytes_to_sid) bytes
      let n_bytes = copy_length (length bytes) offset bytes_to_sid
      copied ← read_number n_bytes bs
      let length_of_sid = sys.sid_length (take n_bytes bs)
      sid_size sys n pointer_size bytes offset (at + bytes_to_sid + length_of_sid)
          (wrap32 (size + bytes_to_sid + length_of_sid))
    | false ↦ sid_size sys n pointer_size bytes offset (at + 4) (wrap32 (size + 4))
  ]

-- An object's size, for each value of the qualifier Extension.
unfoldable pub object_size : System → ℕ → Option Extension → ℕ → List ℕ → ℕ → Option ℕ
object_size sys pointer_size none array_size bytes offset = some 0
object_size sys pointer_size (some Extension.size_t) array_size bytes offset =
    some (wrap32 (pointer_size * array_size))
object_size sys pointer_size (some Extension.port) array_size bytes offset =
    some (wrap32 (wrap32 (2 * array_size) * array_size))
object_size sys pointer_size (some Extension.ip_addr) array_size bytes offset =
    some (wrap32 (wrap32 (4 * array_size) * array_size))
object_size sys pointer_size (some Extension.ip_addr_v6) array_size bytes offset =
    some (if sys.has_ipv6 then wrap32 (wrap32 (16 * array_size) * array_size) else 0)
object_size sys pointer_size (some Extension.guid) array_size bytes offset =
    some (wrap32 (wrap32 (16 * array_size) * array_size))
object_size sys pointer_size (some Extension.sid) array_size bytes offset =
    sid_size sys array_size pointer_size bytes offset offset 0
object_size sys pointer_size (some Extension.other_extension) array_size bytes offset = some 0

unfoldable pub sized_by_type : System → ℕ → Property → ℕ → CimType → List ℕ → ℕ → Option ℕ
sized_by_type sys pointer_size p n CimType.integer32 bytes offset = some (wrap32 (4 * n))
sized_by_type sys pointer_size p n CimType.integer64 bytes offset = some (wrap32 (8 * n))
sized_by_type sys pointer_size p n CimType.boolean bytes offset = some (wrap32 (4 * n))
sized_by_type sys pointer_size p n CimType.integer8 bytes offset = elim p.extension [
  | none ↦ some (wrap32 n)
  | some e ↦ some 16
]
sized_by_type sys pointer_size p n CimType.character16 bytes offset = some (wrap32 (2 * n))
sized_by_type sys pointer_size p n CimType.text bytes offset = elim p.termination [
  | none ↦ text_size n true p.format bytes offset minus_one
  | some terminated ↦
      text_size n terminated p.format bytes offset (if terminated then minus_one else 0)
]
sized_by_type sys pointer_size p n CimType.object bytes offset =
    object_size sys pointer_size p.extension n bytes offset
sized_by_type sys pointer_size p n CimType.other_type bytes offset = some 0

-- `GetEventPropertyValue`: the size of the property at the offset, 0 where it is not known.
unfoldable pub get_event_property_value : System → ℕ → Property → List ℕ → ℕ → Option ℕ
get_event_property_value sys pointer_size p bytes offset =
    if p.is_pointer
    then some pointer_size
    else if p.is_array
    then (elim p.max [
      | none ↦ some 0
      | some n ↦ sized_by_type sys pointer_size p n p.data_type bytes offset
    ])
    else sized_by_type sys pointer_size p 1 p.data_type bytes offset

-- `GetEventCategoryClass`: at the end of the enumeration the null pointer to the class is used.
unfoldable pub get_event_category_class :
    System → Name → ℕ → List CategoryClass → Option CategoryClass
get_event_category_class sys id version [] = none
get_event_category_class sys id version (c ∷ cs) =
    let rest = get_event_category_class sys id version cs in
    if (elim c.class_guid [ none ↦ false | some g ↦ sys.same_ignoring_case g id ])
      && (elim c.version [ none ↦ true | some v ↦ version == v ])
    then some c
    else rest

unfoldable pub has_type : ℕ → List ℕ → Bool
has_type type [] = false
has_type type (t ∷ ts) = (t == type) || has_type type ts

-- `GetEventClass`: no class where one has no event type, or where the enumeration ends.
unfoldable pub get_event_class : ℕ → List EventClass → Option EventClass
get_event_class type [] = none
get_event_class type (c ∷ cs) = elim c.event_types [
  | none ↦ none
  | some types ↦ if has_type type types then some c else get_event_class type cs
]

-- The loop of `GetPropertyInfo`: the offset and the size; the offset is -1 where the name is not found.
unfoldable pub scan_properties : System → ℕ → Name → List ℕ → List Property → ℕ → ℕ → Option (ℕ × ℕ)
scan_properties sys pointer_size name bytes [] offset size = some (minus_one, size)
scan_properties sys pointer_size name bytes (p ∷ ps) offset last = do
  size ← get_event_property_value sys pointer_size p bytes offset
  if size == 0
      then some (minus_one, size)
      else if same_name p.name name
      then some (offset, size)
      else scan_properties sys pointer_size name bytes ps (wrap32 (offset + size)) size

-- The constructor's arguments, and what WMI answers.
pub record WmiEventClass : Type 0 where
  pub system : System
  pub classes : List CategoryClass
  pub class_guid : Name
  pub version : ℕ
  pub type : ℕ
  pub pointer_size : ℕ

-- With a class, or the null pointer, for the event.
unfoldable pub info_of_class : WmiEventClass → Name → List ℕ → Option EventClass → Option (ℕ × ℕ)
info_of_class w name bytes none = some (minus_one, 0)
info_of_class w name bytes (some c) =
    scan_properties w.system w.pointer_size name bytes c.properties 0 0

unfoldable pub get_property_info : WmiEventClass → Name → List ℕ → Option (ℕ × ℕ)
get_property_info w name bytes = do
  category ← get_event_category_class w.system w.class_guid w.version w.classes
  info_of_class w name bytes (get_event_class w.type category.children)
