-- ===== src/Vector.antt =====
-- driver/std/vector/vector.h: the growing array. A vector is its size, the block that `elements_`
-- points to, and the space that it believes the block to have; a method that stores or reads
-- outside the block is a fault, `none`.
pub mod Growth
pub mod Joining
pub mod Removal
pub mod Erasure
pub mod Defects
use windows_kernel_events_tr.Prelude.{
  ℕ, zero, suc, ◌+◌, ◌-◌, ◌*◌, ◌%◌, ◌^◌, max, List, [], Option, some, Bool, true, false, ◌&&◌, ◌||◌,
  get_elem?, take, ◌>>=◌, leb, ltb, ◌==◌, if◌then◌else◌,
}
use windows_kernel_events_tr.Memory.{Element, store, copy, fill}

pub record Vector {ℓ} (A : Type ℓ) : Type ℓ where
  pub size : ℕ
  pub elements : List A
  pub space : ℕ

-- The elements that a client sees.
abbrev pub contents {ℓ} : {A : Type ℓ} → Vector A → List A
contents v = take v.size v.elements

abbrev pub wrap64 : ℕ → ℕ
wrap64 n = n % 2 ^ 64

module _ {ℓ} {A : Type ℓ} where
  -- `Vector()`
  unfoldable pub empty_vector : Vector A
  empty_vector = record { size = 0; elements = []; space = 0 }

  unfoldable pub empty : Vector A → Bool
  empty v = v.size == 0

  -- `elements_[i]`, of `At`, `operator[]`, `Front` and `Back`.
  unfoldable pub at : Vector A → ℕ → Option A
  at v i = get_elem? v.elements i

  unfoldable pub front : Vector A → Option A
  front v = get_elem? v.elements 0

  unfoldable pub back : Vector A → Option A
  back v = get_elem? v.elements (wrap64 (v.size + 2 ^ 64 - 1))

  -- `for (index = i; index < i + n; ++index) elements_[index] = elements_[index + 1]`
  unfoldable pub shift : ℕ → ℕ → List A → Option (List A)
  shift zero i es = some es
  shift (suc n) i es = get_elem? es (suc i) >>= λ x. store es i x >>= λ es'. shift n (suc i) es'

  -- The result beside the vector.
  unfoldable pub swap : Vector A → ℕ → ℕ → Option (Bool × Vector A)
  swap v i j =
      if leb v.size i || leb v.size j
      then some (false, v)
      else (get_elem? v.elements i >>= λ temp. get_elem? v.elements j >>= λ x.
          store v.elements i x >>= λ es.
          store es j temp >>= λ es'. some (true, record v { elements = es' }))

module _ {ℓ} {A : Type ℓ} (element : Element A) where
  open element use {blank, block}

  -- `explicit Vector(size_t s)`
  unfoldable pub make : ℕ → Option (Vector A)
  make s = fill s (block s) 0 blank >>= λ es. some (record { size = s; elements = es; space = s })

  -- `Vector(const Vector& v)`
  unfoldable pub copy_of : Vector A → Option (Vector A)
  copy_of v = copy v.size (block v.size) 0 v.elements 0 >>= λ es.
      some (record { size = v.size; elements = es; space = v.size })

  -- `operator=(const Vector<T>& v)` between two vectors. The loop of the first branch returns in
  -- its first round.
  unfoldable pub assign : Vector A → Vector A → Option (Vector A)
  assign self v =
      if leb v.size self.space && ltb 0 v.size
      then (get_elem? v.elements 0 >>= λ x.
          store self.elements 0 x >>= λ es. some (record self { elements = es; size = v.size }))
      else (copy v.size (block v.size) 0 v.elements 0 >>= λ p.
          some (record { size = v.size; elements = p; space = v.size }))

  unfoldable pub reserve : ℕ → Vector A → Option (Vector A)
  reserve new_size v =
      if leb new_size v.space
      then some v
      else (copy v.size (block new_size) 0 v.elements 0 >>= λ p.
          some (record v { elements = p; space = new_size }))

  -- `Resize(new_size, val)`; the argument `val` is not used.
  unfoldable pub resize : ℕ → Vector A → Option (Vector A)
  resize new_size v = reserve new_size v >>= λ r.
      fill (new_size - r.size) r.elements r.size blank >>= λ es.
      some (record r { elements = es; size = new_size })

  unfoldable pub clear : Vector A → Option (Vector A)
  clear v = fill v.size v.elements 0 blank >>= λ es.
      some (record { size = 0; elements = es; space = wrap64 (v.space + v.size) })

  -- The room that `PushBack` makes before it stores.
  unfoldable pub grow : Vector A → Option (Vector A)
  grow v =
      if v.space == 0
      then reserve 8 v
      else if v.size == v.space
      then reserve (wrap64 (2 * v.space)) v
      else some v

  unfoldable pub push_back : A → Vector A → Option (Vector A)
  push_back d v = grow v >>= λ r. store r.elements r.size d >>= λ es.
      some (record r { elements = es; size = wrap64 (r.size + 1) })

  unfoldable pub pop_back : Vector A → Option (Vector A)
  pop_back v =
      if v.size == 0
      then some v
      else (store v.elements (v.size - 1) blank >>= λ es.
          some (record v { elements = es; size = v.size - 1 }))

  unfoldable pub append : Vector A → Vector A → Option (Vector A)
  append v w = reserve (wrap64 (max w.size v.size * 2)) v >>= λ r.
      copy w.size r.elements r.size w.elements 0 >>= λ es.
      some (record r { elements = es; size = wrap64 (r.size + w.size) })

  -- `operator+`
  unfoldable pub plus : Vector A → Vector A → Option (Vector A)
  plus v w = reserve (wrap64 (max w.size v.size * 2)) empty_vector >>= λ r.
      resize (wrap64 (w.size + v.size)) r >>= λ s. copy v.size s.elements 0 v.elements 0 >>= λ es.
      copy w.size es v.size w.elements 0 >>= λ es'. some (record s { elements = es' })

  -- `Erase(i)`. At two or more elements the subtraction `size_ - 2` does not wrap.
  unfoldable pub erase : ℕ → Vector A → Option (Bool × Vector A)
  erase i v =
      if leb v.size i
      then some (false, v)
      else if v.size == 1
      then (store v.elements 0 blank >>= λ es. some (true, record v { elements = es; size = 0 }))
      else (shift (v.size - 2 - i) i v.elements >>= λ es. store es (v.size - 1) blank >>= λ es'.
          some (true, record v { elements = es'; size = v.size - 1 }))

  unfoldable pub erase_unordered : ℕ → Vector A → Option (Bool × Vector A)
  erase_unordered i v =
      if leb v.size i
      then some (false, v)
      else if v.size == 1
      then (store v.elements 0 blank >>= λ es. some (true, record v { elements = es; size = 0 }))
      else (get_elem? v.elements (v.size - 1) >>= λ x. store v.elements i x >>= λ es.
          store es (v.size - 1) blank >>= λ es'.
          some (true, record v { elements = es'; size = v.size - 1 }))
