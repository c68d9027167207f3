-- ===== src/Etw/Places.antt =====
-- Where the fields of an event are, by the description of its class: EtwService/include/etw/wmieventclass.cpp.
use windows_kernel_events_tr.Prelude.{
  ℕ, zero, suc, ◌+◌, ◌*◌, ◌/◌, ◌%◌, ◌^◌, ◌≤◌, ◌<◌, ◌≡◌, ◌⊎◌, Bool, refl, sym, ap, true, false,
  Option, none, some, ◌>>=◌, if◌then◌else◌, ◌==◌, leb, List, [], ◌∷◌, ◌++◌, arith, length, inl, inr,
  Bool-cases, subst,
}
use windows_kernel_events_tr.Etw.Names.{Name, same_name}
use windows_kernel_events_tr.Etw.Layout.{
  System, CimType, Extension, sized_by_type, object_size, Property, WmiEventClass, wrap32,
  get_event_property_value, scan_properties, from_offset, read_number,
}
use windows_kernel_events_tr.Etw.Members.{copy_field}

-- The bytes of one value of a type that has a fixed size: 16-bit characters and ports, numbers of
-- 8, 32 and 64 bits, truth values and addresses of 32 bits, and sizes as wide as a pointer.
abbrev pub IsWide : ℕ → CimType → Option Extension → ℕ → Type 0
IsWide pointer_size CimType.integer32 e n = n ≡ 4
IsWide pointer_size CimType.integer64 e n = n ≡ 8
IsWide pointer_size CimType.boolean e n = n ≡ 4
IsWide pointer_size CimType.integer8 none n = n ≡ 1
IsWide pointer_size CimType.character16 e n = n ≡ 2
IsWide pointer_size CimType.object (some Extension.size_t) n = n ≡ pointer_size
IsWide pointer_size CimType.object (some Extension.port) n = n ≡ 2
IsWide pointer_size CimType.object (some Extension.ip_addr) n = n ≡ 4
IsWide pointer_size _ _ n = ⊥

-- The bytes of a property: a pointer, or one value.
abbrev pub IsSized : ℕ → Property → ℕ → Type 0
IsSized pointer_size p n =
    ((p.is_pointer ≡ true) × (n ≡ pointer_size))
    ⊎ ((p.is_pointer ≡ false)
        × (p.is_array ≡ false)
        × IsWide pointer_size p.data_type p.extension n)

-- The properties have such sizes, of eight bytes at most.
abbrev pub AreFixed : WmiEventClass → List Property → List ℕ → Type 0
AreFixed w [] [] = Unit {0}
AreFixed w (p ∷ ps) (n ∷ ns) = IsSized w.pointer_size p n × (0 < n) × (n ≤ 8) × AreFixed w ps ns
AreFixed w _ _ = ⊥

object_size_lem :
    (sys : System) (pointer_size : ℕ) (e : Option Extension) (n : ℕ)
    → IsWide pointer_size CimType.object e n
    → n ≤ 8
    → (bytes : List ℕ) (offset : ℕ) → object_size sys pointer_size e 1 bytes offset ≡ some n
unfolding object_size
object_size_lem sys q none n wide short bytes offset = absurd wide
object_size_lem sys q (some Extension.size_t) n wide short bytes offset = ap some (omega arith)
object_size_lem sys q (some Extension.port) n wide short bytes offset = ap some (sym wide)
object_size_lem sys q (some Extension.ip_addr) n wide short bytes offset = ap some (sym wide)
object_size_lem sys q (some Extension.ip_addr_v6) n wide short bytes offset = absurd wide
object_size_lem sys q (some Extension.guid) n wide short bytes offset = absurd wide
object_size_lem sys q (some Extension.sid) n wide short bytes offset = absurd wide
object_size_lem sys q (some Extension.other_extension) n wide short bytes offset = absurd wide

sized_by_type_lem :
    (sys : System) (pointer_size : ℕ) (p : Property) (t : CimType) (n : ℕ)
    → IsWide pointer_size t p.extension n
    → n ≤ 8
    → (bytes : List ℕ) (offset : ℕ) → sized_by_type sys pointer_size p 1 t bytes offset ≡ some n
unfolding sized_by_type
sized_by_type_lem sys q p CimType.integer32 n wide short bytes offset = ap some (sym wide)
sized_by_type_lem sys q p CimType.integer64 n wide short bytes offset = ap some (sym wide)
sized_by_type_lem sys q p CimType.boolean n wide short bytes offset = ap some (sym wide)
sized_by_type_lem sys q p CimType.character16 n wide short bytes offset = ap some (sym wide)
sized_by_type_lem sys q p CimType.text n wide short bytes offset = absurd wide
sized_by_type_lem sys q p CimType.other_type n wide short bytes offset = absurd wide
sized_by_type_lem sys q p CimType.integer8 n wide short bytes offset = byte p.extension wide
  where
    byte :
        (e : Option Extension)
        → IsWide q CimType.integer8 e n
        → (elim e [ none ↦ some (wrap32 1) | some _ ↦ some 16 ]) ≡ some n
    byte none wide = ap some (sym wide)
    byte (some e) wide = absurd wide
sized_by_type_lem sys q p CimType.object n wide short bytes offset =
    object_size_lem sys q p.extension n wide short bytes offset

-- `GetEventPropertyValue` gives the size, whatever the event's bytes.
pub get_event_property_value_lem :
    (w : WmiEventClass) (p : Property) (n : ℕ)
    → IsSized w.pointer_size p n
    → n ≤ 8
    → (bytes : List ℕ) (offset : ℕ)
    → get_event_property_value w.system w.pointer_size p bytes offset ≡ some n
unfolding get_event_property_value
get_event_property_value_lem w p n sized short bytes offset = elim sized [
  | inl (pointer, e) ↦ first p.is_pointer _ pointer e
  | inr (value, one, wide) ↦
      last p.is_pointer p.is_array _ _ _ value one
        (sized_by_type_lem w.system w.pointer_size p p.data_type n wide short bytes offset)
]
  where
    first :
        (b : Bool) (r : Option ℕ)
        → b ≡ true
        → n ≡ w.pointer_size
        → (if b then some w.pointer_size else r) ≡ some n
    first b r pointer e = rw pointer (ap some (sym e))

    last :
        (b a : Bool) (x y z : Option ℕ)
        → b ≡ false
        → a ≡ false
        → z ≡ some n
        → (if b then x else if a then y else z) ≡ some n
    last b a x y z value one e = rw (value, one) e

-- The place of the first property with the name: the sum of the sizes before it, and its own size.
unfoldable pub place : Name → List Property → List ℕ → ℕ → Option (ℕ × ℕ)
place name (p ∷ ps) (n ∷ ns) offset =
    if same_name p.name name then some (offset, n) else place name ps ns (offset + n)
place name _ _ offset = none

-- The first value of the name.
unfoldable pub value_at : Name → List Property → List ℕ → Option ℕ
value_at name (p ∷ ps) (v ∷ vs) = if same_name p.name name then some v else value_at name ps vs
value_at name _ _ = none

unfoldable pub total : List ℕ → ℕ
total [] = 0
total (n ∷ ns) = n + total ns

-- `n` bytes, the lowest first, and the bytes of the fields one after the other.
unfoldable pub bytes_of : ℕ → ℕ → List ℕ
bytes_of zero v = []
bytes_of (suc n) v = v % 256 ∷ bytes_of n (v / 256)

unfoldable pub encode : List ℕ → List ℕ → List ℕ → List ℕ
encode (n ∷ ns) (v ∷ vs) rest = bytes_of n v ++ encode ns vs rest
encode _ _ rest = rest

abbrev pub AllFit : List ℕ → List ℕ → Type 0
AllFit [] [] = Unit {0}
AllFit (n ∷ ns) (v ∷ vs) = (v < 256 ^ n) × AllFit ns vs
AllFit _ _ = ⊥

pow_suc : (n : ℕ) → 256 ^ suc n ≡ 256 * 256 ^ n
pow_suc n = omega arith

below_quotient : (v m : ℕ) → v < 256 * m → v / 256 < m
below_quotient v m h = omega arith

read-bytes_of :
    (n v : ℕ) (rest : List ℕ) → v < 256 ^ n → read_number n (bytes_of n v ++ rest) ≡ some v
unfolding read_number bytes_of
read-bytes_of zero v rest h = ap some (omega arith)
read-bytes_of (suc n) v rest h =
    let less : v / 256 < 256 ^ n = below_quotient v (256 ^ n) (omega (arith, h, pow_suc n)) in
    rw (read-bytes_of n (v / 256) rest less) (ap some (omega arith))

length-bytes_of : (n v : ℕ) → length (bytes_of n v) ≡ n
unfolding bytes_of
length-bytes_of zero v = refl
length-bytes_of (suc n) v = ground (arith, length-bytes_of n (v / 256))

from_offset_all : (xs ys : List ℕ) → from_offset (length xs) (xs ++ ys) ≡ some ys
unfolding from_offset
from_offset_all [] ys = refl
from_offset_all (x ∷ xs) ys = from_offset_all xs ys

from_offset-append :
    (bytes xs ys : List ℕ) (n : ℕ)
    → from_offset n bytes ≡ some (xs ++ ys)
    → from_offset (n + length xs) bytes ≡ some ys
unfolding from_offset
from_offset-append bytes xs ys zero h =
    let same : bytes ≡ xs ++ ys = cc in
    let start : 0 + length xs ≡ length xs = omega arith in rw (start, same) (from_offset_all xs ys)
from_offset-append [] xs ys (suc n) h = cc
from_offset-append (b ∷ bs) xs ys (suc n) h =
    let next : suc n + length xs ≡ suc (n + length xs) = omega arith in
    rw (next) (from_offset-append bs xs ys n h)

skip_lem :
    (xs ys zs : List ℕ) (n m : ℕ)
    → length xs ≡ n
    → from_offset m ys ≡ some zs
    → from_offset (n + m) (xs ++ ys) ≡ some zs
unfolding from_offset
skip_lem [] ys zs n m e h = let start : n + m ≡ m = omega (arith, e) in rw (start) h
skip_lem (x ∷ xs) ys zs n m e h =
    let next : n + m ≡ suc (length xs + m) = omega (arith, e) in
    rw (next) (skip_lem xs ys zs (length xs) m refl h)

-- A field is read where it is.
pub copy-place :
    (w : WmiEventClass) (name : Name) (ps : List Property) (ns vs bytes rest : List ℕ) (offset : ℕ)
    → AreFixed w ps ns
    → AllFit ns vs
    → from_offset offset bytes ≡ some (encode ns vs rest)
    → (place name ps ns offset >>= λ p. copy_field bytes p) ≡ value_at name ps vs
unfolding place value_at encode copy_field
copy-place w name [] [] [] bytes rest offset fixed fit at = refl
copy-place w name (p ∷ ps) (n ∷ ns) (v ∷ vs) bytes rest offset fixed fit at =
    elim (Bool-cases (same_name p.name name)) [
      | inl same ↦
          let short : leb n 8 ≡ true = let h = fixed.2 in ground arith in
          rw (same, at, short) (read-bytes_of n v (encode ns vs rest) fit.0)
      | inr other ↦
          let next : from_offset (offset + n) bytes ≡ some (encode ns vs rest) =
            subst (λ k. from_offset (offset + k) bytes ≡ some (encode ns vs rest))
              (length-bytes_of n v)
              (from_offset-append bytes (bytes_of n v) (encode ns vs rest) offset at) in
          rw (other) (copy-place w name ps ns vs bytes rest (offset + n) fixed.3 fit.1 next)
    ]
copy-place w name [] [] (v ∷ vs) bytes rest offset fixed fit at = absurd fit
copy-place w name (p ∷ ps) (n ∷ ns) [] bytes rest offset fixed fit at = absurd fit
copy-place w name [] (n ∷ ns) vs bytes rest offset fixed fit at = absurd fixed
copy-place w name (p ∷ ps) [] vs bytes rest offset fixed fit at = absurd fixed

-- `GetPropertyInfo` finds a property at its place.
pub scan-place :
    (w : WmiEventClass) (name : Name) (ps more : List Property) (ns bytes : List ℕ)
    (offset last : ℕ) (q : ℕ × ℕ)
    → AreFixed w ps ns
    → offset + total ns < 2 ^ 32
    → place name ps ns offset ≡ some q
    → scan_properties w.system w.pointer_size name bytes (ps ++ more) offset last ≡ some q
unfolding scan_properties place total
scan-place w name [] more [] bytes offset last q fixed room found = cc
scan-place w name (p ∷ ps) more (n ∷ ns) bytes offset last q fixed room found =
    let sized : (n == 0) ≡ false = let h = fixed.1 in ground arith in
    let small : wrap32 (offset + n) ≡ offset + n = omega arith in
    elim (Bool-cases (same_name p.name name)) [
      | inl same ↦
          let at : some (offset, n) ≡ some q = rw (same) at found in
          rw (get_event_property_value_lem w p n fixed.0 fixed.2 bytes offset, sized, same) at
      | inr other ↦
          let later : place name ps ns (offset + n) ≡ some q = rw (other) at found in
          rw (get_event_property_value_lem w p n fixed.0 fixed.2 bytes offset, sized, other, small)
            (scan-place w name ps more ns bytes (offset + n) n q fixed.3 (omega arith) later)
    ]
scan-place w name [] more (n ∷ ns) bytes offset last q fixed room found = absurd fixed
scan-place w name (p ∷ ps) more [] bytes offset last q fixed room found = absurd fixed

-- After the fixed fields comes the rest.
pub from_total :
    (w : WmiEventClass) (ps : List Property) (ns vs rest : List ℕ)
    → AreFixed w ps ns
    → AllFit ns vs
    → from_offset (total ns) (encode ns vs rest) ≡ some rest
unfolding from_offset total encode
from_total w [] [] [] rest fixed fit = refl
from_total w (p ∷ ps) (n ∷ ns) (v ∷ vs) rest fixed fit =
    skip_lem (bytes_of n v) (encode ns vs rest) rest n (total ns) (length-bytes_of n v)
      (from_total w ps ns vs rest fixed.3 fit.1)
from_total w [] [] (v ∷ vs) rest fixed fit = absurd fit
from_total w (p ∷ ps) (n ∷ ns) [] rest fixed fit = absurd fit
from_total w [] (n ∷ ns) vs rest fixed fit = absurd fixed
from_total w (p ∷ ps) [] vs rest fixed fit = absurd fixed
