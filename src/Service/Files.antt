-- ===== src/Service/Files.antt =====
-- `FileNameObjMap` and `FileIoManager` of EtwService/include/manager/file_manager.cpp.
use windows_kernel_events_tr.Prelude.{
  ℕ, List, [], ◌∷◌, ◌++◌, Option, some, none, length, if◌then◌else◌, ◌==◌,
}
use windows_kernel_events_tr.Prelude.Maps.{empty_map, put, remove}

-- `FileNameObjMap`: the map from file objects to paths; the object 0 has the empty path.
abbrev pub NameMap : Type 0
NameMap = ℕ → Option (List ℕ)

unfoldable pub initial_names : NameMap
initial_names = put 0 [] empty_map

unfoldable pub map_object_with_path : ℕ → List ℕ → NameMap → NameMap
map_object_with_path file_object file_path names =
    if file_object == 0 then names else put file_object file_path names

unfoldable pub remove_object : ℕ → NameMap → NameMap
remove_object file_object names = if file_object == 0 then names else remove file_object names

-- The path beside the map: `obj_to_name_map_[0]` puts the entry of 0 there if it is missing.
unfoldable pub get_path_by_object : ℕ → NameMap → List ℕ × NameMap
get_path_by_object file_object names = elim (names file_object) [
  | some path ↦ (path, names)
  | none ↦ elim (names 0) [ some path ↦ (path, names) | none ↦ ([], put 0 [] names) ]
]

-- `FileIoInfo`
pub record FileIoInfo : Type 0 where
  pub featured_access_flags : ℕ
  pub file_path : List ℕ
  pub start_time_ms : ℕ
  pub pid : ℕ
  pub write_size : ℕ
  pub file_path_old : List ℕ

abbrev pub no_event : FileIoInfo
no_event = record {
  featured_access_flags = 0;
  file_path = [];
  start_time_ms = 0;
  pid = 0;
  write_size = 0;
  file_path_old = [];
}

unfoldable pub rename_event : List ℕ → ℕ → ℕ → List ℕ → FileIoInfo
rename_event file_path_new pid start_time_ms file_path_old = record no_event {
  featured_access_flags = 0x4;
  file_path = file_path_new;
  file_path_old = file_path_old;
  start_time_ms = start_time_ms;
  pid = pid;
}

unfoldable pub write_event : List ℕ → ℕ → ℕ → ℕ → FileIoInfo
write_event file_path pid start_time_ms io_size = record no_event {
  featured_access_flags = 0x10;
  file_path = file_path;
  start_time_ms = start_time_ms;
  pid = pid;
  write_size = io_size;
}

-- `file_io_queue_`, the front first.
unfoldable pub push_rename : List ℕ → ℕ → ℕ → List ℕ → List FileIoInfo → List FileIoInfo
push_rename file_path_new pid start_time_ms file_path_old queue =
    queue ++ rename_event file_path_new pid start_time_ms file_path_old ∷ []

unfoldable pub push_write : List ℕ → ℕ → ℕ → ℕ → List FileIoInfo → List FileIoInfo
push_write file_path pid start_time_ms io_size queue =
    queue ++ write_event file_path pid start_time_ms io_size ∷ []

unfoldable pub pop_file_io_event : List FileIoInfo → FileIoInfo × List FileIoInfo
pop_file_io_event [] = (no_event, [])
pop_file_io_event (info ∷ queue) = (info, queue)

unfoldable pub get_queue_size : List FileIoInfo → ℕ
get_queue_size queue = length queue
