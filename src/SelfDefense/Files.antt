-- ===== src/SelfDefense/Files.antt =====
-- `PreCreateFile` and `PreSetInformationFile` of self_defense.cpp, and `GetFileFullPathName` of
-- driver/template/flt-ex.cpp: which file operations the mini-filter completes with an error.
use Prim.Native.Nat.{bit_and}
use windows_kernel_events_tr.Prelude.{
  ℕ, ◌/◌, ◌%◌, ◌^◌, Option, some, none, Bool, ◌||◌, not, ◌>>=◌, if◌then◌else◌, ◌==◌,
}
use windows_kernel_events_tr.Prelude.Bits.{flag_on}
use windows_kernel_events_tr.Memory.{Element}
use windows_kernel_events_tr.Strings.{String, UnicodeString, empty_string, from_unicode, assign}
use windows_kernel_events_tr.SelfDefense.Table.{Table}
use windows_kernel_events_tr.SelfDefense.Model.{
  ProcessInfo, Kernel, State, is_in_protected_directory, is_protected_process,
}

-- `FLT_PREOP_SUCCESS_NO_CALLBACK`, or `FLT_PREOP_COMPLETE` with the status put in `IoStatus`.
pub data Outcome : Type 0 where
  pass : Outcome
  complete : ℕ → Outcome

-- `STATUS_SUCCESS`, `STATUS_ACCESS_DENIED`, `STATUS_FLT_NAME_CACHE_MISS`
abbrev pub status_success : ℕ
status_success = 0

abbrev pub status_access_denied : ℕ
status_access_denied = 0xC0000022

abbrev pub status_flt_name_cache_miss : ℕ
status_flt_name_cache_miss = 0xC01C0018

-- What the filter manager answers to the two queries for a file's name: a status and, if that is
-- success, the name.
pub record FileName : Type 0 where
  pub cached_status : ℕ
  pub cached_name : UnicodeString
  pub system_status : ℕ
  pub system_name : UnicodeString

-- What the callbacks read of the callback data and the thread.
pub record Request : Type 0 where
  pub requestor_kernel : Bool
  pub previous_kernel : Bool
  pub current_pid : ℕ
  pub file_name : FileName

-- `Parameters.Create`
pub record Create : Type 0 where
  pub desired_access : ℕ
  pub options : ℕ

-- `FileRenameInformation` 10, `FileLinkInformation` 11, `FileDispositionInformation` 13,
-- `FileAllocationInformation` 19, `FileEndOfFileInformation` 20, `FileShortNameInformation` 40.
abbrev pub is_changing : ℕ → Bool
is_changing information_class =
    (information_class == 19)
    || (information_class == 13)
    || (information_class == 20)
    || (information_class == 40)

abbrev pub is_moving : ℕ → Bool
is_moving information_class = (information_class == 11) || (information_class == 10)

-- `FltGetDestinationFileNameInformation`: the name it gives, or whether, failing, it leaves
-- `name_info` as a pointer that `FltReleaseFileNameInformation` takes.
pub data Destination : Type 0 where
  found : UnicodeString → Destination
  failed : Bool → Destination

pub record SetInformation : Type 0 where
  pub information_class : ℕ
  pub destination : Destination

-- `FlagOn(create_options, FILE_DELETE_ON_CLOSE) || !FlagOn(create_disposition, FILE_OPEN)
-- || FlagOn(desired_access, FILE_WRITE_DATA) || FlagOn(desired_access, FILE_APPEND_DATA)`
unfoldable pub is_modifying : Create → Bool
is_modifying create =
    flag_on (bit_and create.options 0xFFFFFF) 0x1000
    || not (flag_on (create.options / 2 ^ 24 % 2 ^ 8) 1)
    || flag_on create.desired_access 2
    || flag_on create.desired_access 4

module _ (element : Element ℕ) where
  -- `res = String<WCHAR>(file_name_info->Name)` for the query that succeeds, if one does.
  unfoldable pub get_file_full_path_name : FileName → Option String
  get_file_full_path_name answer =
      if answer.cached_status == status_success
      then (from_unicode element answer.cached_name >>= λ name. assign element empty_string name)
      else if answer.cached_status == status_flt_name_cache_miss
      then (if answer.system_status == status_success
          then (from_unicode element answer.system_name >>= λ name.
              assign element empty_string name)
          else some empty_string)
      else some empty_string

  module _ (kernel : Kernel) (table : Table ProcessInfo) where
    open table use {Map}

    -- The checks with which both callbacks begin: whether the operation is one of an unprotected
    -- process on a protected path. What they look at then is the argument.
    unfoldable pub guard_file :
        Request → (State Map → Option Outcome) → State Map → Option (Outcome × State Map)
    guard_file request check st =
        if not st.enable_protect_file
        then some (Outcome.pass, st)
        else if request.requestor_kernel
        then some (Outcome.pass, st)
        else if request.previous_kernel
        then some (Outcome.pass, st)
        else (is_protected_process element kernel table request.current_pid st >>= λ r.
            if r.0
            then some (Outcome.pass, r.1)
            else (get_file_full_path_name request.file_name >>= λ file_path.
                is_in_protected_directory r.1.protected_dirs file_path >>= λ inside.
                if inside
                then (check r.1 >>= λ outcome. some (outcome, r.1))
                else some (Outcome.pass, r.1)))

    unfoldable pub pre_create_file : Request → Create → State Map → Option (Outcome × State Map)
    pre_create_file request create st =
        guard_file request
          (λ now.
            some
              (if is_modifying create then Outcome.complete status_access_denied else Outcome.pass))
          st

    -- The destination of a rename or a link; a name that was not given is released all the same.
    unfoldable pub check_destination : Destination → State Map → Option Outcome
    check_destination (Destination.found name) st = from_unicode element name >>= λ path.
        is_in_protected_directory st.protected_dirs path >>= λ inside.
        some (if inside then Outcome.complete status_access_denied else Outcome.pass)
    check_destination (Destination.failed set) st = if set then some Outcome.pass else none

    unfoldable pub pre_set_information_file :
        Request → SetInformation → State Map → Option (Outcome × State Map)
    pre_set_information_file request information st =
        guard_file request
          (λ now.
            if is_changing information.information_class
            then some (Outcome.complete status_access_denied)
            else if is_moving information.information_class
            then check_destination information.destination now
            else some Outcome.pass)
          st
