-- ===== src/SelfDefense/Model.antt =====
-- The state of self_defense.cpp, and how it tells protected directories and processes:
-- `IsInProtectedDirectory`, `GetProcessImageName`, `IsProtectedProcess`, `ProcessNotifyCallback`.
use windows_kernel_events_tr.Prelude.{
  ℕ, zero, suc, Option, some, none, Bool, true, false, ◌>>=◌, if◌then◌else◌,
}
use windows_kernel_events_tr.Memory.{Element}
use windows_kernel_events_tr.Vector
use windows_kernel_events_tr.Vector.{Vector}
use windows_kernel_events_tr.Strings.{
  String, UnicodeString, empty_string, is_prefix_of, assign_unicode, copy_of,
}
use windows_kernel_events_tr.SelfDefense.Table.{Table}

pub record ProcessInfo : Type 0 where
  pub pid : ℕ
  pub process_path : String
  pub is_protected : Bool
  pub start_time : ℕ

-- The kernel's answers about a process: whether `PsLookupProcessByProcessId` finds it, the name
-- that `SeLocateProcessImageName` returns, whether `ZwQueryInformationProcess` is resolved, whether
-- `ObOpenObjectByPointer` opens it, and the name that the query returns, if its first call reports
-- the length that the second one needs.
pub record Kernel : Type 0 where
  pub lookup : ℕ → Bool
  pub locate : ℕ → Option (Option UnicodeString)
  pub query_resolved : Bool
  pub open_object : ℕ → Bool
  pub query : ℕ → Option UnicodeString

-- `kProtectedDirList`, `kEnableProtectFile`; `kProcessMap` is `process_map`.
pub record State (Map : Type 0) : Type 0 where
  pub process_map : Map
  pub protected_dirs : Vector String
  pub enable_protect_file : Bool

-- `for (; n > 0; i++, n--) if (At(i).IsPrefixOf(path)) return true; return false;`
unfoldable pub scan_dirs : ℕ → ℕ → Vector String → String → Option Bool
scan_dirs zero i dirs path = some false
scan_dirs (suc n) i dirs path =
    let rest = scan_dirs n (suc i) dirs path in
    Vector.at dirs i >>= λ protected_dir.
    is_prefix_of protected_dir path >>= λ found. if found then some true else rest

unfoldable pub is_in_protected_directory : Vector String → String → Option Bool
is_in_protected_directory dirs path = scan_dirs dirs.size 0 dirs path

module _ (element : Element ℕ) (kernel : Kernel) where
  open kernel use {lookup, locate, query_resolved, open_object, query}

  -- `GetProcessImageName` where the process is not in the cache and `SeLocateProcessImageName`
  -- fails.
  unfoldable pub queried_image : ℕ → Option String
  queried_image pid =
      if query_resolved
      then (if open_object pid
          then elim (query pid) [
            | some image_name ↦ assign_unicode element (some image_name)
            | none ↦ some empty_string
          ]
          else some empty_string)
      else some empty_string

  -- `GetProcessImageName` where the process is not in the cache.
  unfoldable pub locate_image : ℕ → Option String
  locate_image pid =
      if lookup pid
      then elim (locate pid) [
        | some process_name ↦ assign_unicode element process_name
        | none ↦ queried_image pid
      ]
      else some empty_string

  module _ (table : Table ProcessInfo) where
    open table use {Map, find, insert, erase}

    -- A path that is returned from the cache, or put there, is copied.
    unfoldable pub get_process_image_name : ℕ → State Map → Option String
    get_process_image_name pid st = elim (find pid st.process_map) [
      | some info ↦ copy_of element info.process_path
      | none ↦ locate_image pid
    ]

    -- A process that is not in the cache is put there, with no start time.
    unfoldable pub is_protected_process : ℕ → State Map → Option (Bool × State Map)
    is_protected_process pid st = elim (find pid st.process_map) [
      | some info ↦
          if info.is_protected
          then some (true, st)
          else (is_in_protected_directory st.protected_dirs info.process_path >>= λ found.
              some (found, st))
      | none ↦ get_process_image_name pid st >>= λ process_path.
          is_in_protected_directory st.protected_dirs process_path >>= λ found.
          copy_of element process_path >>= λ path_copy.
          let info : ProcessInfo = record {
            pid = pid;
            process_path = path_copy;
            is_protected = found;
            start_time = 0;
          } in
          some (found, record st { process_map = insert pid info st.process_map })
    ]

    -- Whether a process that is in the cache is marked there.
    abbrev pub marked : ℕ → State Map → Bool
    marked pid st = elim (find pid st.process_map) [ some info ↦ info.is_protected | none ↦ false ]

    -- `ProcessNotifyCallback` with `create_info`; `parent` is the current process.
    unfoldable pub process_created : ℕ → ℕ → ℕ → State Map → Option (State Map)
    process_created pid parent now st = get_process_image_name pid st >>= λ process_path.
        is_in_protected_directory st.protected_dirs process_path >>= λ found.
        copy_of element process_path >>= λ path_copy.
        let info : ProcessInfo = record {
          pid = pid;
          process_path = path_copy;
          is_protected = if found then true else marked parent st;
          start_time = now;
        } in
        some (record st { process_map = insert pid info st.process_map })

    -- `ProcessNotifyCallback` without it.
    unfoldable pub process_exited : ℕ → State Map → State Map
    process_exited pid st = record st { process_map = erase pid st.process_map }
