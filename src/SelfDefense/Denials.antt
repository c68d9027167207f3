-- ===== src/SelfDefense/Denials.antt =====
-- Which file operations `PreCreateFile` and `PreSetInformationFile` of self_defense.cpp refuse.
use Prim.Native.Nat.{bit_and}
use windows_kernel_events_tr.Prelude.{
  ℕ, ◌/◌, ◌^◌, ◌≡◌, ◌↔◌, inr, refl, sym, subst, ◌∙◌, Option, some, none, Bool, true, false, ◌>>=◌,
  Returns, if◌then◌else◌,
}
use windows_kernel_events_tr.Prelude.Bits.{flag_on}
use windows_kernel_events_tr.Memory.{Element}
use windows_kernel_events_tr.Strings.{String, UnicodeString, from_unicode}
use windows_kernel_events_tr.Strings.Unicode.{IsCounted, contents-from_unicode}
use windows_kernel_events_tr.SelfDefense.Table.{Table}
use windows_kernel_events_tr.SelfDefense.Model.{
  ProcessInfo, Kernel, State, is_in_protected_directory,
}
use windows_kernel_events_tr.SelfDefense.Protection.{Protects, is_in_protected_directory-Decides}
use windows_kernel_events_tr.SelfDefense.Images.{IsTrusted}
use windows_kernel_events_tr.SelfDefense.Readiness.{IsReady}
use windows_kernel_events_tr.SelfDefense.Files.{
  Outcome, Request, Create, Destination, SetInformation, is_changing, is_moving, is_modifying,
  pre_create_file, check_destination, pre_set_information_file, status_access_denied,
}
use windows_kernel_events_tr.SelfDefense.Refusals.{
  IsDecided, decided_by, IsOpenedToChange, IsChange, is_modifying_iff, is_changing_iff, not_moving,
}
use windows_kernel_events_tr.SelfDefense.Guard.{IsAnswered, IsSubject, guard-subject, guard-others}

module _ (element : Element ℕ) (kernel : Kernel) (trusted : IsTrusted kernel)
    (table : Table ProcessInfo) where
  open table use {Map}

  pre_create_file-subject :
      (request : Request) (create : Create) (st : State Map) (path : String)
      → IsReady element kernel trusted table st
      → IsAnswered request.file_name
      → IsSubject element kernel trusted table request st path
      → Returns (pre_create_file element kernel table request create st) (λ r.
        IsReady element kernel trusted table r.1
        × (r.0 ≡ (
            if is_modifying create then Outcome.complete status_access_denied else Outcome.pass)))
  unfolding pre_create_file
  pre_create_file-subject request create st path h named s =
      let (after, ready, dirs, e) =
        guard-subject element kernel trusted table request _ st path h named s in
      (_, e, (ready, refl))

  -- From a ready state, with counted names, `PreCreateFile` returns on an operation that it looks at,
  -- and leaves a ready state: access denied if bit 12 of the options is set (to delete the file when it
  -- is closed), the disposition in their highest byte is an even number (to supersede, create or
  -- overwrite it), or bit 1 or 2 of the access is asked for (to write or append data); every other
  -- operation passes.
  pub pre_create_file-denies :
      (request : Request) (create : Create) (st : State Map) (path : String)
      → IsReady element kernel trusted table st
      → IsAnswered request.file_name
      → IsSubject element kernel trusted table request st path
      → Returns
          (pre_create_file element kernel table request create st)
          (λ r. IsReady element kernel trusted table r.1 × IsDecided r.0 (IsOpenedToChange create))
  pre_create_file-denies request create st path h named s =
      let (r, e, (ready, outcome)) = pre_create_file-subject request create st path h named s in
      (
        r,
        e,
        (
          ready,
          subst (λ o. IsDecided o (IsOpenedToChange create)) (sym outcome)
              (decided_by (is_modifying create) _ (is_modifying_iff create)),
        ),
      )

  -- From a ready state, with counted names, `PreCreateFile` lets pass every creation that is not one it
  -- looks at: with protection off, from kernel mode, by a guarded process, or outside the directories.
  pub pre_create_file-passes :
      (request : Request) (create : Create) (st : State Map)
      → IsReady element kernel trusted table st
      → IsAnswered request.file_name
      → ((path : String) → IsSubject element kernel trusted table request st path → ⊥)
      → Returns (pre_create_file element kernel table request create st) (λ r. r.0 ≡ Outcome.pass)
  unfolding pre_create_file
  pre_create_file-passes request create st h named never =
      guard-others element kernel trusted table request _ st h named never

  -- From a ready state, with counted names, on an operation that it looks at, `PreCreateFile` lets
  -- FILE_OVERWRITE_IF pass, which truncates the file, if no write or append access is asked for and
  -- the file is not to be deleted.
  pub pre_create_file-overwrites :
      (request : Request) (create : Create) (st : State Map) (path : String)
      → IsReady element kernel trusted table st
      → IsAnswered request.file_name
      → IsSubject element kernel trusted table request st path
      → create.options / 2 ^ 24 ≡ 5
      → flag_on (bit_and create.options 0xFFFFFF) 0x1000 ≡ false
      → flag_on create.desired_access 2 ≡ false
      → flag_on create.desired_access 4 ≡ false
      → Returns (pre_create_file element kernel table request create st) (λ r. r.0 ≡ Outcome.pass)
  unfolding is_modifying
  pre_create_file-overwrites request create st path h named s disposition keeps reads no_append =
      let (r, e, (ready, outcome)) = pre_create_file-subject request create st path h named s in
      (r, e, outcome ∙ rw (is_modifying, keeps, disposition, reads, no_append) refl)

  -- From a ready state, with counted names, on an operation that it looks at, and that neither renames
  -- the file (class 10) nor links it (class 11), `PreSetInformationFile` returns: access denied for the
  -- classes 13, 19, 20 and 40, which delete the file, set its allocation or its end, or its short name;
  -- every other class passes.
  pub pre_set_information_file-denies :
      (request : Request) (information : SetInformation) (st : State Map) (path : String)
      → IsReady element kernel trusted table st
      → IsAnswered request.file_name
      → IsSubject element kernel trusted table request st path
      → (information.information_class ≡ 10 → ⊥)
      → (information.information_class ≡ 11 → ⊥)
      → Returns (pre_set_information_file element kernel table request information st) (λ r.
        IsReady element kernel trusted table r.1
        × IsDecided r.0 (IsChange information.information_class))
  unfolding pre_set_information_file
  pre_set_information_file-denies request information st path h named s no_rename no_link =
      let (after, ready, dirs, e) =
        guard-subject element kernel trusted table request _ st path h named s in
      let staying : is_moving information.information_class ≡ false =
        not_moving information.information_class no_rename no_link in
      let changing = is_changing information.information_class in
      (
        (if changing then Outcome.complete status_access_denied else Outcome.pass, after),
        e ∙ passed_on changing after _ staying,
        (ready, decided_by changing _ (is_changing_iff information.information_class)),
      )
    where
      passed_on :
          (b : Bool) (after : State Map) (o : Option Outcome)
          → is_moving information.information_class ≡ false
          → ◌>>=◌ {B = Outcome × State Map}
              (if b
                then some (Outcome.complete status_access_denied)
                else if is_moving information.information_class
                then o
                else some Outcome.pass)
              (λ o. some (o, after))
            ≡ some (if b then Outcome.complete status_access_denied else Outcome.pass, after)
      passed_on true after o staying = refl
      passed_on false after o staying = rw staying refl

  check_destination-found :
      (u : UnicodeString) (to : String) (b : Bool) (st : State Map)
      → from_unicode element u ≡ some to
      → is_in_protected_directory st.protected_dirs to ≡ some b
      → check_destination element kernel table (Destination.found u) st
        ≡ some (if b then Outcome.complete status_access_denied else Outcome.pass)
  unfolding check_destination
  check_destination-found u to b st taken found = rw (check_destination, taken, found) refl

  -- From a ready state, with counted names, a rename or a link of a protected file, in an operation
  -- that `PreSetInformationFile` looks at, to a destination that the filter manager names is refused
  -- exactly if the destination is protected too.
  pub pre_set_information_file-moves :
      (request : Request) (information : SetInformation) (st : State Map) (path : String)
      (u : UnicodeString)
      → IsReady element kernel trusted table st
      → IsAnswered request.file_name
      → IsSubject element kernel trusted table request st path
      → is_changing information.information_class ≡ false
      → is_moving information.information_class ≡ true
      → information.destination ≡ Destination.found u
      → IsCounted u
      → Returns (pre_set_information_file element kernel table request information st) (λ r.
        (to : String) × (from_unicode element u ≡ some to)
        × ((r.0 ≡ Outcome.complete status_access_denied) ↔ Protects st.protected_dirs to))
  unfolding pre_set_information_file
  pre_set_information_file-moves request information st path u h named s unchanging moving to_u
        counted =
      let (after, ready, dirs, e) =
        guard-subject element kernel trusted table request _ st path h named s in
      let (to, taken, (allocated, _)) = contents-from_unicode element u counted in
      let (b, found, decided) =
        is_in_protected_directory-Decides st.protected_dirs to h.dirs (inr allocated) in
      (
        (if b then Outcome.complete status_access_denied else Outcome.pass, after),
        e ∙ settled after _ (check_destination-found u to b after taken (rw dirs found)),
        (to, taken, refused b _ decided),
      )
    where
      settled :
          (now : State Map) (o : Outcome)
          → check_destination element kernel table (Destination.found u) now ≡ some o
          → ◌>>=◌ {B = Outcome × State Map}
              (if is_changing information.information_class
                then some (Outcome.complete status_access_denied)
                else if is_moving information.information_class
                then check_destination element kernel table information.destination now
                else some Outcome.pass)
              (λ o. some (o, now))
            ≡ some (o, now)
      settled now o checked = rw (unchanging, moving, to_u, checked) refl

      refused :
          (b : Bool) (P : Type 0)
          → ((b ≡ true) ↔ P)
          → ((if b then Outcome.complete status_access_denied else Outcome.pass)
              ≡ Outcome.complete status_access_denied)
            ↔ P
      refused true P decided = (λ _. decided.0 refl, λ _. refl)
      refused false P decided = (λ e. cc, λ p. let on : false ≡ true = decided.1 p in cc)

  -- From a ready state, with counted names, in a rename or a link that it looks at, if the filter
  -- manager does not name the destination and has not set the pointer, `PreSetInformationFile`
  -- releases it all the same: a fault.
  pub pre_set_information_file-faults :
      (request : Request) (information : SetInformation) (st : State Map) (path : String)
      → IsReady element kernel trusted table st
      → IsAnswered request.file_name
      → IsSubject element kernel trusted table request st path
      → is_changing information.information_class ≡ false
      → is_moving information.information_class ≡ true
      → information.destination ≡ Destination.failed false
      → pre_set_information_file element kernel table request information st ≡ none
  unfolding pre_set_information_file check_destination
  pre_set_information_file-faults request information st path h named s unchanging moving failed =
      let (after, ready, dirs, e) =
        guard-subject element kernel trusted table request _ st path h named s in
      e ∙ rw (unchanging, moving, failed) refl
