-- ===== src/Service/Names.antt =====
-- Histories of `FileNameObjMap` of file_manager.cpp, and what it answers after them.
use windows_kernel_events_tr.Prelude.{
  ℕ, ◌≡◌, refl, ap, ◌∙◌, inl, inr, List, [], ◌∷◌, Option, some, none, if◌then◌else◌, ◌==◌,
  Bool-cases, Option-cases,
}
use windows_kernel_events_tr.Prelude.Maps.{put, remove}
use windows_kernel_events_tr.Service.Files.{
  NameMap, initial_names, map_object_with_path, remove_object, get_path_by_object,
}

pub data Operation : Type 0 where
  mapped : (file_object : ℕ) (file_path : List ℕ) → Operation
  removed : (file_object : ℕ) → Operation
  asked : (file_object : ℕ) → Operation

unfoldable pub step : Operation → NameMap → NameMap
step (Operation.mapped file_object file_path) names =
    map_object_with_path file_object file_path names
step (Operation.removed file_object) names = remove_object file_object names
step (Operation.asked file_object) names = (get_path_by_object file_object names).1

-- The operations are listed the latest first.
unfoldable pub after : List Operation → NameMap
after [] = initial_names
after (op ∷ ops) = step op (after ops)

-- What an object's path is by the history alone: the latest mapping of it that is not removed; the
-- object 0 is never mapped.
abbrev pub path_of : ℕ → List Operation → List ℕ
path_of file_object [] = []
path_of file_object (Operation.mapped o file_path ∷ ops) =
    if o == 0
    then path_of file_object ops
    else if o == file_object
    then file_path
    else path_of file_object ops
path_of file_object (Operation.removed o ∷ ops) =
    if o == 0
    then path_of file_object ops
    else if o == file_object
    then []
    else path_of file_object ops
path_of file_object (Operation.asked o ∷ ops) = path_of file_object ops

-- What the map has for an object; without an entry it is the empty path.
abbrev pub entry_of : Option (List ℕ) → List ℕ
entry_of none = []
entry_of (some path) = path

get_path-entry :
    (o : ℕ) (names : NameMap)
    → names 0 ≡ some []
    → get_path_by_object o names ≡ (entry_of (names o), names)
unfolding get_path_by_object
get_path-entry o names zero_path = elim (Option-cases (names o)) [
  | inl absent ↦ rw (get_path_by_object, absent, zero_path) refl
  | inr (path, present) ↦ rw (get_path_by_object, present) refl
]

-- The object 0 keeps the empty path.
after-zero : (ops : List Operation) → after ops 0 ≡ some []
unfolding after step initial_names map_object_with_path remove_object put remove
after-zero [] = refl
after-zero (Operation.mapped o file_path ∷ ops) = elim (Bool-cases (o == 0)) [
  | inl null ↦ rw null (after-zero ops)
  | inr some_object ↦ rw (some_object, some_object) (after-zero ops)
]
after-zero (Operation.removed o ∷ ops) = elim (Bool-cases (o == 0)) [
  | inl null ↦ rw null (after-zero ops)
  | inr some_object ↦ rw (some_object, some_object) (after-zero ops)
]
after-zero (Operation.asked o ∷ ops) =
    ap (λ r. r.1 0) (get_path-entry o (after ops) (after-zero ops)) ∙ after-zero ops

entry-after :
    (file_object : ℕ) (ops : List Operation)
    → entry_of (after ops file_object) ≡ path_of file_object ops
unfolding after step initial_names map_object_with_path remove_object put remove
entry-after file_object [] = elim (Bool-cases (0 == file_object)) [
  | inl null ↦ rw null refl
  | inr some_object ↦ rw some_object refl
]
entry-after file_object (Operation.mapped o file_path ∷ ops) = elim (Bool-cases (o == 0)) [
  | inl null ↦ rw null (entry-after file_object ops)
  | inr some_object ↦ elim (Bool-cases (o == file_object)) [
    | inl same ↦ rw (some_object, same) refl
    | inr other ↦ rw (some_object, other) (entry-after file_object ops)
  ]
]
entry-after file_object (Operation.removed o ∷ ops) = elim (Bool-cases (o == 0)) [
  | inl null ↦ rw null (entry-after file_object ops)
  | inr some_object ↦ elim (Bool-cases (o == file_object)) [
    | inl same ↦ rw (some_object, same) refl
    | inr other ↦ rw (some_object, other) (entry-after file_object ops)
  ]
]
entry-after file_object (Operation.asked o ∷ ops) =
    ap (λ r. entry_of (r.1 file_object)) (get_path-entry o (after ops) (after-zero ops))
    ∙ entry-after file_object ops

-- After every history of mapping, removing and asking, `GetPathByObject` answers with the path that
-- the history gives the object, or the empty path, and changes nothing.
pub get_path_by_object-after :
    (file_object : ℕ) (ops : List Operation)
    → get_path_by_object file_object (after ops) ≡ (path_of file_object ops, after ops)
get_path_by_object-after file_object ops =
    get_path-entry file_object (after ops) (after-zero ops)
    ∙ ap (λ path. (path, after ops)) (entry-after file_object ops)
