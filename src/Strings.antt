-- ===== src/Strings.antt =====
-- driver/std/string/string.h: strings of wide or narrow characters, which are numbers here. A null
-- `elements_` is `none`; an access outside the block, or through null, is a fault.
pub mod Compare
pub mod Unicode
use windows_kernel_events_tr.Prelude.{
  ℕ, zero, suc, ◌+◌, ◌-◌, ◌*◌, ◌/◌, ◌%◌, ◌^◌, max, List, [], Option, some, none, Bool, true, false,
  ◌||◌, get_elem?, take, ◌>>=◌, leb, ltb, ◌==◌, if◌then◌else◌,
}
use windows_kernel_events_tr.Memory.{Element, store, copy, fill}
use windows_kernel_events_tr.Vector.{wrap64}

pub record String : Type 0 where
  pub size : ℕ
  pub elements : Option (List ℕ)
  pub space : ℕ

-- `UNICODE_STRING`: the lengths count bytes, two for each character of the buffer.
pub record UnicodeString : Type 0 where
  pub length : ℕ
  pub maximum_length : ℕ
  pub buffer : List ℕ

-- The slots that `elements_` points to; through null there are none.
abbrev pub slots_of : Option (List ℕ) → List ℕ
slots_of none = []
slots_of (some b) = b

abbrev pub slots : String → List ℕ
slots s = slots_of s.elements

abbrev pub is_null : Option (List ℕ) → Bool
is_null none = true
is_null (some b) = false

-- The pointer after stores through it.
abbrev pub written : Option (List ℕ) → List ℕ → Option (List ℕ)
written none b = none
written (some _) b = some b

-- The characters that a client sees.
abbrev pub contents : String → List ℕ
contents s = take s.size (slots s)

-- `String()`
abbrev pub empty_string : String
empty_string = record { size = 0; elements = none; space = 0 }

-- `for (k = 0; k < n; ++k) if (p[i + k] != q[j + k]) return false; return true;`
unfoldable pub match_at : ℕ → List ℕ → ℕ → List ℕ → ℕ → Option Bool
match_at zero p i q j = some true
match_at (suc n) p i q j =
    let rest = match_at n p (suc i) q (suc j) in
    get_elem? p i >>= λ x. get_elem? q j >>= λ y. if x == y then rest else some false

unfoldable pub is_prefix_of : String → String → Option Bool
is_prefix_of self str =
    if ltb str.size self.size
    then some false
    else if is_null self.elements || is_null str.elements
    then some false
    else match_at self.size (slots self) 0 (slots str) 0

unfoldable pub has_prefix : String → String → Option Bool
has_prefix self str =
    if ltb self.size str.size
    then some false
    else if is_null self.elements || is_null str.elements
    then some false
    else match_at str.size (slots self) 0 (slots str) 0

unfoldable pub is_suffix_of : String → String → Option Bool
is_suffix_of self str =
    if ltb str.size self.size
    then some false
    else if is_null self.elements || is_null str.elements
    then some false
    else match_at self.size (slots self) 0 (slots str) (str.size - self.size)

-- The index `size_ - str.size_ + i` is used on the argument, not on the string itself.
unfoldable pub has_suffix : String → String → Option Bool
has_suffix self str =
    if ltb self.size str.size
    then some false
    else if is_null self.elements || is_null str.elements
    then some false
    else match_at str.size (slots self) 0 (slots str) (self.size - str.size)

-- `operator==`
unfoldable pub equals : String → String → Option Bool
equals self str =
    if self.size == str.size
    then (if is_null self.elements || is_null str.elements
        then some false
        else match_at self.size (slots self) 0 (slots str) 0)
    else some false

module _ (element : Element ℕ) where
  open element use {blank, block}

  -- `T* p = new T[n + 1]; p[n] = T();`
  unfoldable pub allocate : ℕ → Option (List ℕ)
  allocate n = store (block (n + 1)) n blank

  -- `explicit String(size_t size)`
  unfoldable pub make : ℕ → Option String
  make n = allocate n >>= λ b.
      fill n b 0 blank >>= λ b'. some (record { size = n; elements = some b'; space = n })

  -- `String(const String& str)`
  unfoldable pub copy_of : String → Option String
  copy_of str = allocate str.size >>= λ b. copy str.size b 0 (slots str) 0 >>= λ b'.
      some (record { size = str.size; elements = some b'; space = str.size })

  -- `String(const UNICODE_STRING& uni_str)` for wide characters.
  unfoldable pub from_unicode : UnicodeString → Option String
  from_unicode u =
      let n = u.length / 2 in
      allocate n >>= λ b. copy n b 0 u.buffer 0 >>= λ b'.
      store b' n 0 >>= λ b''. some (record { size = n; elements = some b''; space = n })

  -- `operator=(const PUNICODE_STRING& uni_str)`; a null pointer is `none`.
  unfoldable pub assign_unicode : Option UnicodeString → Option String
  assign_unicode none = some empty_string
  assign_unicode (some u) = allocate u.maximum_length >>= λ b.
      copy (u.length / 2) b 0 u.buffer 0 >>= λ b'. store b' (u.length / 2) 0 >>= λ b''.
      some (record { size = u.length / 2; elements = some b''; space = u.maximum_length })

  -- `operator=(const String<T>& str)` between two strings.
  unfoldable pub assign : String → String → Option String
  assign self str =
      if leb str.size self.space
      then (copy str.size (slots self) 0 (slots str) 0 >>= λ b.
          some (record self { size = str.size; elements = written self.elements b }))
      else (allocate str.size >>= λ p. copy str.size p 0 (slots str) 0 >>= λ b.
          some (record { size = str.size; elements = some b; space = str.size }))

  unfoldable pub reserve : ℕ → String → Option String
  reserve new_size s =
      if leb new_size s.space
      then some s
      else (allocate new_size >>= λ p. copy s.size p 0 (slots s) 0 >>= λ b.
          some (record s { elements = some b; space = new_size }))

  unfoldable pub grow : String → Option String
  grow s =
      if s.space == 0
      then reserve 8 s
      else if s.size == s.space
      then reserve (wrap64 (2 * s.space)) s
      else some s

  unfoldable pub push_back : ℕ → String → Option String
  push_back c s = grow s >>= λ r. store (slots r) r.size c >>= λ b.
      some (record r { elements = some b; size = wrap64 (r.size + 1) })

  unfoldable pub append : String → String → Option String
  append s t = reserve (wrap64 (max t.size s.size * 2)) s >>= λ r.
      copy t.size (slots r) r.size (slots t) 0 >>= λ b.
      some (record r { elements = written r.elements b; size = wrap64 (r.size + t.size) })
