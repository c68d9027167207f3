-- ===== src/Service/Consumer.antt =====
-- `ProcessEvent`, `ProcessFileIoEvent` and `ProcessProcessEvent` of
-- EtwService/include/etw/consumer.cpp: how the events of the kernel reach the managers. An event
-- holds the fields that the class of its type reads; the reading of the raw bytes is not modelled.
use windows_kernel_events_tr.Prelude.{
  ℕ, ◌+◌, ◌-◌, ◌%◌, ◌^◌, List, [], ◌∷◌, Option, Bool, true, false, ◌||◌, ◌&&◌, not, if◌then◌else◌,
  ◌==◌, ltb,
}
use windows_kernel_events_tr.Prelude.Maps.{remove}
use windows_kernel_events_tr.Service.Files.{NameMap, map_object_with_path, get_path_by_object}
use windows_kernel_events_tr.Service.Processes.{
  ProcessMap, System, to_lower, get_win32_path, get_image_file_name, add_process, remove_process,
  update_process_creation_time,
}
use windows_kernel_events_tr.Service.Filters.{overall_event_filter}

-- The GUIDs of the headers.
pub data Guid : Type 0 where
  event_trace : Guid
  disk_io : Guid
  file_io : Guid
  page_fault : Guid
  perf_info : Guid
  thread : Guid
  process : Guid
  registry : Guid
  unknown : Guid

pub record Event : Type 0 where
  pub guid : Guid
  pub type : ℕ
  pub process_id : ℕ
  pub time_in_ms : ℕ
  pub file_object : ℕ
  pub file_key : ℕ
  pub open_path : List ℕ
  pub create_options : ℕ
  pub pid : ℕ
  pub ppid : ℕ

-- What the consumer keeps: `kFileNameObjMap`, `file_rename_map_` and `kProcMan`.
pub record Tables : Type 0 where
  pub names : NameMap
  pub renames : ℕ → Option ((List ℕ × List ℕ) × ℕ)
  pub processes : ProcessMap

abbrev is_prefix : List ℕ → List ℕ → Bool
is_prefix [] ys = true
is_prefix (x ∷ xs) [] = false
is_prefix (x ∷ xs) (y ∷ ys) = (x == y) && is_prefix xs ys

-- `path.find(part) != npos`
unfoldable pub contains : List ℕ → List ℕ → Bool
contains part [] = is_prefix part []
contains part (c ∷ rest) = is_prefix part (c ∷ rest) || contains part rest

-- "NapierOne-tiny"
abbrev pub watched : List ℕ
watched = 78 ∷ 97 ∷ 112 ∷ 105 ∷ 101 ∷ 114 ∷ 79 ∷ 110 ∷ 101 ∷ 45 ∷ 116 ∷ 105 ∷ 110 ∷ 121 ∷ []

-- `static_cast<int>(pid)`, and the number of 64 bits that it becomes again.
unfoldable pub as_pid : ℕ → ℕ
as_pid pid = let low = pid % 2 ^ 32 in if ltb low (2 ^ 31) then low else low + (2 ^ 64 - 2 ^ 32)

module _ (system : System) (dir_exist : List ℕ → Bool) where
  -- The path is one of a file that is watched, and opened as a file.
  unfoldable pub is_watched : List ℕ → ℕ → Bool
  is_watched path create_options =
      contains (to_lower system watched) path
      && (not (((create_options % 2 ^ 24) % 2) == 1) && not (dir_exist path))

  unfoldable pub process_file_io_event : Event → Tables → Tables
  process_file_io_event event tables =
      if event.type == 64  -- kCreate
      then (let path = get_win32_path system event.open_path in
          if is_watched path event.create_options
          then record tables { names = map_object_with_path event.file_object path tables.names }
          else tables)
      else if event.type == 68  -- kWrite
      then (if as_pid event.process_id == 4
          then tables
          else record tables { names = (get_path_by_object event.file_object tables.names).1 })
      else if event.type == 66  -- kClose
      then (record tables {
        names = (get_path_by_object event.file_object tables.names).1;
        renames = remove event.file_key tables.renames;
      })
      else tables

  unfoldable pub process_started : Event → ProcessMap → ProcessMap
  process_started event m =
      let pid = as_pid event.pid in
      let real_ppid = as_pid event.process_id in
      let spoofed_ppid = as_pid event.ppid in
      let (image, m1) = get_image_file_name system pid m in
      let (real_image, m2) = get_image_file_name system real_ppid m1 in
      let (spoofed_image, m3) = get_image_file_name system spoofed_ppid m2 in
      update_process_creation_time pid event.time_in_ms (add_process pid real_ppid spoofed_ppid m3)

  unfoldable pub process_ended : Event → ProcessMap → ProcessMap
  process_ended event m =
      let (image, named) = get_image_file_name system event.pid m in remove_process event.pid named

  unfoldable pub process_process_event : Event → Tables → Tables
  process_process_event event tables =
      if event.type == 1  -- kProcessStart
      then record tables { processes = process_started event tables.processes }
      else if event.type == 2  -- kProcessEnd
      then record tables { processes = process_ended event tables.processes }
      else tables

  -- The handlers of the other classes are commented out.
  unfoldable pub dispatch : Guid → Event → Tables → Tables
  dispatch file_io event tables = process_file_io_event event tables
  dispatch process event tables = process_process_event event tables
  dispatch event_trace event tables = tables
  dispatch disk_io event tables = tables
  dispatch page_fault event tables = tables
  dispatch perf_info event tables = tables
  dispatch thread event tables = tables
  dispatch registry event tables = tables
  dispatch unknown event tables = tables

  -- `ProcessEvent`, in the process `current_pid`; the events of a trace itself and those of type 0,
  -- EVENT_TRACE_TYPE_INFO, are skipped.
  unfoldable pub process_event : ℕ → Event → Tables → Tables
  process_event current_pid event tables =
      if event.type == 0
      then tables
      else if overall_event_filter current_pid event.process_id
      then dispatch event.guid event tables
      else tables

  unfoldable pub process_events : ℕ → List Event → Tables → Tables
  process_events current_pid [] tables = tables
  process_events current_pid (event ∷ events) tables =
      process_events current_pid events (process_event current_pid event tables)
