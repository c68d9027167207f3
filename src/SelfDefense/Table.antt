-- ===== src/SelfDefense/Table.antt =====
-- What the callbacks use of `Map<HANDLE, ProcessInfo>` of driver/std/map/map.h, as operations and
-- laws. `Insert` leaves an entry that is there as it is.
use windows_kernel_events_tr.Prelude.{
  ℕ, ◌≡◌, refl, subst, inl, inr, List, [], ◌∷◌, Option, some, none, false, arith, ◌==◌, ==_iff,
  Bool-cases, if◌then◌else◌,
}

-- The entry after an insertion: the one that was there, or the new one.
abbrev pub kept {ℓ} : {V : Type ℓ} → Option V → V → Option V
kept none v = some v
kept (some w) v = some w

pub record Table (V : Type 0) : Type 1 where
  pub Map : Type 0
  pub find : ℕ → Map → Option V
  pub insert : ℕ → V → Map → Map
  pub erase : ℕ → Map → Map
  pub find-insert :
      (k j : ℕ) (v : V) (m : Map)
      → find j (insert k v m) ≡ (if k == j then kept (find j m) v else find j m)
  pub find-erase : (k j : ℕ) (m : Map) → find j (erase k m) ≡ (if k == j then none else find j m)

module _ {V : Type 0} (table : Table V) where
  open table use {Map, find, insert, erase, find-insert, find-erase}

  -- An insertion leaves every entry that is there.
  pub insert-keeps :
      (k j : ℕ) (v w : V) (m : Map) → find j m ≡ some w → find j (insert k v m) ≡ some w
  insert-keeps k j v w m e = elim (Bool-cases (k == j)) [
    | inl same ↦ rw (find-insert k j v m, same, e) refl
    | inr other ↦ rw (find-insert k j v m, other) e
  ]

  -- On a key that is there it changes nothing.
  pub insert-known :
      (k j : ℕ) (v w : V) (m : Map) → find k m ≡ some w → find j (insert k v m) ≡ find j m
  insert-known k j v w m e = elim (Bool-cases (k == j)) [
    | inl same ↦
        let at_j : find j m ≡ some w = subst (λ i. find i m ≡ some w) ((==_iff k j).0 same) e in
        rw (find-insert k j v m, same, at_j) refl
    | inr other ↦ rw (find-insert k j v m, other) refl
  ]

  pub insert-other :
      (k j : ℕ) (v : V) (m : Map) → (k == j) ≡ false → find j (insert k v m) ≡ find j m
  insert-other k j v m other = rw (find-insert k j v m, other) refl

  pub erase-other : (k j : ℕ) (m : Map) → (k == j) ≡ false → find j (erase k m) ≡ find j m
  erase-other k j m other = rw (find-erase k j m, other) refl

-- Association lists meet the interface.
module _ {V : Type 0} where
  abbrev pub find_in : ℕ → List (ℕ × V) → Option V
  find_in k [] = none
  find_in k ((j, v) ∷ m) = if j == k then some v else find_in k m

  abbrev pub insert_in : ℕ → V → List (ℕ × V) → List (ℕ × V)
  insert_in k v [] = (k, v) ∷ []
  insert_in k v ((j, w) ∷ m) = if j == k then (j, w) ∷ m else (j, w) ∷ insert_in k v m

  abbrev pub erase_in : ℕ → List (ℕ × V) → List (ℕ × V)
  erase_in k [] = []
  erase_in k ((j, v) ∷ m) = if j == k then erase_in k m else (j, v) ∷ erase_in k m

  pub find_in-insert_in :
      (k j : ℕ) (v : V) (m : List (ℕ × V))
      → find_in j (insert_in k v m) ≡ (if k == j then kept (find_in j m) v else find_in j m)
  find_in-insert_in k j v [] = ground arith
  find_in-insert_in k j v ((i, w) ∷ m) = ground (arith, find_in-insert_in k j v m)

  pub find_in-erase_in :
      (k j : ℕ) (m : List (ℕ × V))
      → find_in j (erase_in k m) ≡ (if k == j then none else find_in j m)
  find_in-erase_in k j [] = ground arith
  find_in-erase_in k j ((i, w) ∷ m) = ground (arith, find_in-erase_in k j m)

abbrev pub list_table : (V : Type 0) → Table V
list_table V = record {
  Map = List (ℕ × V);
  find = find_in;
  insert = insert_in;
  erase = erase_in;
  find-insert = find_in-insert_in;
  find-erase = find_in-erase_in;
}
