-- ===== src/Strings/Compare.antt =====
-- The comparisons of string.h, against equality, prefixes and suffixes of lists of characters.
use windows_kernel_events_tr.Prelude.{
  ℕ, zero, suc, ◌+◌, ◌-◌, ◌≤◌, ◌<◌, ◌≡◌, ◌↔◌, refl, ap, sym, ◌∙◌, List, [], ◌∷◌, ◌++◌, inl, inr,
  Bool, true, false, some, none, Option, arith, length, take, drop, Returns, ltb, ◌==◌, ◌&&◌, ◌||◌,
  if◌then◌else◌, Bool-cases, length-take, length-append, take-append-drop,
}
use windows_kernel_events_tr.Memory.{
  drop-cons, take-take, take-append, get_elem?_out, drop-append, take-drop_end,
}
use windows_kernel_events_tr.Strings.{
  String, empty_string, slots, is_null, contents, match_at, is_prefix_of, has_prefix, is_suffix_of,
  has_suffix, equals,
}

-- The string has a block, and its characters lie in it.
pub record IsAllocated (s : String) : Type 0 where
  pub not_null : is_null s.elements ≡ false
  pub fits : s.size ≤ length (slots s)

-- Equality of lists of characters.
abbrev same : List ℕ → List ℕ → Bool
same [] [] = true
same [] (y ∷ ys) = false
same (x ∷ xs) [] = false
same (x ∷ xs) (y ∷ ys) = x == y && same xs ys

same_iff : (xs ys : List ℕ) → (same xs ys ≡ true) ↔ (xs ≡ ys)
same_iff [] [] = (λ _. refl, λ _. refl)
same_iff [] (y ∷ ys) = (λ h. cc, λ h. cc)
same_iff (x ∷ xs) [] = (λ h. cc, λ h. cc)
same_iff (x ∷ xs) (y ∷ ys) =
    (λ h. ground (arith, (same_iff xs ys).0), λ h. ground (arith, (same_iff xs ys).1))

same_comm : (xs ys : List ℕ) → same xs ys ≡ same ys xs
same_comm [] [] = refl
same_comm [] (y ∷ ys) = refl
same_comm (x ∷ xs) [] = refl
same_comm (x ∷ xs) (y ∷ ys) = ground (arith, same_comm xs ys)

-- Inside both blocks the comparing loop returns whether the two stretches are the same.
match_at_lem :
    (n : ℕ) (p : List ℕ) (i : ℕ) (q : List ℕ) (j : ℕ)
    → i + n ≤ length p
    → j + n ≤ length q
    → match_at n p i q j ≡ some (same (take n (drop i p)) (take n (drop j q)))
unfolding match_at
match_at_lem zero p i q j hp hq = refl
match_at_lem (suc n) p i q j hp hq =
    let (x, atx, restx) = drop-cons p i (omega arith) in
    let (y, aty, resty) = drop-cons q j (omega arith) in
    rw (atx, aty, match_at_lem n p (suc i) q (suc j) (omega arith) (omega arith), restx, resty)
      (both (x == y) (same (take n (drop (suc i) p)) (take n (drop (suc j) q))))
  where
    both : (b c : Bool) → (if b then some c else some false) ≡ some (b && c)
    both true c = refl
    both false c = refl

abbrev pub StartsWith : List ℕ → List ℕ → Type 0
StartsWith xs ys = (rest : List ℕ) × (ys ≡ xs ++ rest)

abbrev pub EndsWith : List ℕ → List ℕ → Type 0
EndsWith xs ys = (front : List ℕ) × (ys ≡ front ++ xs)

-- A test that returns, and says true exactly when the statement holds.
abbrev pub Decides : Option Bool → Type 0 → Type 0
Decides o P = Returns o (λ b. (b ≡ true) ↔ P)

length-contents : (s : String) → IsAllocated s → length (contents s) ≡ s.size
length-contents s h = omega (arith, length-take s.size (slots s), h.fits)

starts_same :
    (n : ℕ) (xs ys : List ℕ) → length xs ≡ n → (same xs (take n ys) ≡ true) ↔ StartsWith xs ys
starts_same n xs ys h = (
  λ e. (drop n ys, sym (rw ((same_iff xs (take n ys)).0 e) (take-append-drop n ys))),
  λ (rest, e). (same_iff xs (take n ys)).1 (rw e (sym (take-append n xs rest (sym h)))),
)

ends_same :
    (k : ℕ) (xs ys : List ℕ)
    → k + length xs ≡ length ys
    → (same xs (drop k ys) ≡ true) ↔ EndsWith xs ys
ends_same k xs ys h = (
  λ e. (take k ys, sym (rw ((same_iff xs (drop k ys)).0 e) (take-append-drop k ys))),
  λ (front, e). (same_iff xs (drop k ys)).1 (rw e (sym (drop-append k front xs (place front e)))),
)
  where
    place : (front : List ℕ) → ys ≡ front ++ xs → k ≡ length front
    place front e = omega (arith, ap length e, length-append front xs)

starts_too_long :
    (s t : String)
    → IsAllocated s
    → IsAllocated t
    → t.size < s.size
    → (rest : List ℕ) → contents t ≡ contents s ++ rest
    → ⊥
starts_too_long s t hs ht longer rest e = omega (
  arith,
  ap length e,
  length-append (contents s) rest,
  length-contents s hs,
  length-contents t ht,
)

-- On strings that have their blocks, `IsPrefixOf` returns, and says true exactly when the argument
-- starts with the string.
pub is_prefix_of-Decides :
    (s t : String)
    → IsAllocated s
    → IsAllocated t
    → Decides (is_prefix_of s t) (StartsWith (contents s) (contents t))
unfolding is_prefix_of
is_prefix_of-Decides s t hs ht = elim (Bool-cases (ltb t.size s.size)) [
  | inl longer ↦ (
    false,
    rw longer,
    (λ e. cc, λ (rest, e). absurd (starts_too_long s t hs ht (ground arith) rest e)),
  )
  | inr fits ↦ (
    same (contents s) (take s.size (slots t)),
    rw (fits, hs.not_null, ht.not_null)
        (match_at_lem s.size (slots s) 0 (slots t) 0 (ground (arith, hs.fits))
          (ground (arith, ht.fits))),
    rw (← take-take s.size t.size (slots t) (ground arith))
        (starts_same s.size (contents s) (contents t) (length-contents s hs)),
  )
]

-- `HasPrefix` returns, and says true exactly when the string starts with the argument.
pub has_prefix-Decides :
    (s t : String)
    → IsAllocated s
    → IsAllocated t
    → Decides (has_prefix s t) (StartsWith (contents t) (contents s))
unfolding has_prefix
has_prefix-Decides s t hs ht = elim (Bool-cases (ltb s.size t.size)) [
  | inl longer ↦ (
    false,
    rw longer,
    (λ e. cc, λ (rest, e). absurd (starts_too_long t s ht hs (ground arith) rest e)),
  )
  | inr fits ↦ (
    same (contents t) (take t.size (slots s)),
    rw (fits, hs.not_null, ht.not_null)
        (match_at_lem t.size (slots s) 0 (slots t) 0 (ground (arith, hs.fits))
            (ground (arith, ht.fits))
          ∙ ap some (same_comm (take t.size (slots s)) (contents t))),
    rw (← take-take t.size s.size (slots s) (ground arith))
        (starts_same t.size (contents t) (contents s) (length-contents t ht)),
  )
]

-- `IsSuffixOf` returns, and says true exactly when the argument ends with the string.
pub is_suffix_of-Decides :
    (s t : String)
    → IsAllocated s
    → IsAllocated t
    → Decides (is_suffix_of s t) (EndsWith (contents s) (contents t))
unfolding is_suffix_of
is_suffix_of-Decides s t hs ht = elim (Bool-cases (ltb t.size s.size)) [
  | inl longer ↦ (false, rw longer, (λ e. cc, λ (front, e). absurd (too_long longer front e)))
  | inr fits ↦
      let k = t.size - s.size in
      (
        same (contents s) (drop k (contents t)),
        rw (fits, hs.not_null, ht.not_null)
            (match_at_lem s.size (slots s) 0 (slots t) k (ground (arith, hs.fits))
                (ground (arith, ht.fits))
              ∙ ap (λ c. some (same (contents s) c)) (tail_of fits)),
        ends_same k (contents s) (contents t)
            (ground (arith, length-contents s hs, length-contents t ht)),
      )
]
  where
    too_long : ltb t.size s.size ≡ true → (front : List ℕ) → contents t ≡ front ++ contents s → ⊥
    too_long longer front e = ground (
      arith,
      ap length e,
      length-append front (contents s),
      length-contents s hs,
      length-contents t ht,
    )

    tail_of :
        ltb t.size s.size ≡ false
        → take s.size (drop (t.size - s.size) (slots t)) ≡ drop (t.size - s.size) (contents t)
    tail_of fits =
        let whole : s.size ≡ t.size - (t.size - s.size) = ground arith in
        ap (λ n. take n (drop (t.size - s.size) (slots t))) whole
        ∙ take-drop_end (t.size - s.size) t.size (slots t) ht.fits (omega arith)

-- `operator==` returns, and says true exactly when the characters are the same.
pub equals-Decides :
    (s t : String) → IsAllocated s → IsAllocated t → Decides (equals s t) (contents s ≡ contents t)
unfolding equals
equals-Decides s t hs ht = elim (Bool-cases (s.size == t.size)) [
  | inl alike ↦
      let e : s.size ≡ t.size = ground arith in
      (
        same (contents s) (contents t),
        rw (alike, hs.not_null, ht.not_null)
            (match_at_lem s.size (slots s) 0 (slots t) 0 (omega (arith, hs.fits))
                (ground (arith, ht.fits))
              ∙ ap (λ n. some (same (contents s) (take n (slots t)))) e),
        same_iff (contents s) (contents t),
      )
  | inr unlike ↦ (
    false,
    rw unlike,
    (
      λ e. cc,
      λ e. absurd (ground (arith, ap length e, length-contents s hs, length-contents t ht)),
    ),
  )
]

-- `HasSuffix` indexes the argument where it means the string: a non-empty argument whose block is
-- no longer than the difference of the sizes is read outside its block.
pub has_suffix_overruns :
    (s t : String)
    → IsAllocated s
    → IsAllocated t
    → 0 < t.size
    → t.size ≤ s.size
    → length (slots t) ≤ s.size - t.size
    → has_suffix s t ≡ none
unfolding has_suffix match_at
has_suffix_overruns s t hs ht held shorter small =
    rw (present, hs.not_null, ht.not_null) (overrun t.size held)
  where
    present : ltb s.size t.size ≡ false
    present = ground arith

    overrun : (n : ℕ) → 0 < n → match_at n (slots s) 0 (slots t) (s.size - t.size) ≡ none
    overrun zero h = absurd (omega arith)
    overrun (suc n) h =
        let (x, at, _) = drop-cons (slots s) 0 (omega (arith, hs.fits)) in
        rw (at, get_elem?_out (slots t) (s.size - t.size) small)

-- No string is a prefix of the null string.
pub is_prefix_of-null : (s : String) → is_prefix_of s empty_string ≡ some false
unfolding is_prefix_of
is_prefix_of-null s = elim (Bool-cases (ltb 0 s.size)) [
  | inl longer ↦ rw longer
  | inr fits ↦ rw (fits, or_true (is_null s.elements))
]
  where
    or_true : (b : Bool) → (b || true) ≡ true
    or_true true = refl
    or_true false = refl
