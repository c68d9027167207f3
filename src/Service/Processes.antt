-- ===== src/Service/Processes.antt =====
-- `ProcessManager` of EtwService/include/manager/process_manager.cpp, and the paths of
-- file_manager.cpp and ulti/support.cpp that it asks for.
use windows_kernel_events_tr.Prelude.{
  ℕ, ◌-◌, ◌*◌, ◌^◌, List, [], ◌∷◌, Option, some, none, Bool, true, false, ◌||◌, ◌&&◌, not, drop,
  replicate, if◌then◌else◌, ◌==◌,
}
use windows_kernel_events_tr.Prelude.Maps.{put, remove}

-- `ProcessInfo` of process_manager.h.
pub record Process : Type 0 where
  pub pid : ℕ
  pub ppid_real : ℕ
  pub ppid_adopted : ℕ
  pub creation_time : ℕ
  pub image_file_name : List ℕ

abbrev pub no_process : Process
no_process = record {
  pid = 0;
  ppid_real = 0;
  ppid_adopted = 0;
  creation_time = 0;
  image_file_name = [];
}

-- `process_map_`
abbrev pub ProcessMap : Type 0
ProcessMap = ℕ → Option Process

-- `process_map_[pid]`, which is a default entry if there is none.
abbrev pub entry_at : Option Process → Process
entry_at none = no_process
entry_at (some process) = process

-- `(uint64_t)(-1)` stands for no parent.
abbrev pub parent_or_zero : ℕ → ℕ
parent_or_zero ppid = if ppid == 2 ^ 64 - 1 then 0 else ppid

unfoldable pub add_process : ℕ → ℕ → ℕ → ProcessMap → ProcessMap
add_process pid ppid_real ppid_adopted m =
    put pid
      (record (entry_at (m pid)) {
        pid = pid;
        ppid_real = parent_or_zero ppid_real;
        ppid_adopted = parent_or_zero ppid_adopted;
      })
      m

unfoldable pub remove_process : ℕ → ProcessMap → ProcessMap
remove_process pid m = elim (m pid) [ some process ↦ remove pid m | none ↦ m ]

unfoldable pub is_child : ℕ → ℕ → ProcessMap → Bool
is_child ppid pid m = elim (m pid) [
  | some process ↦ (process.ppid_real == ppid) || (process.ppid_adopted == ppid)
  | none ↦ false
]

unfoldable pub update_image_file_name : ℕ → List ℕ → ProcessMap → ProcessMap
update_image_file_name pid image_file_name m = elim (m pid) [
  | some process ↦ put pid (record process { image_file_name = image_file_name }) m
  | none ↦ put pid (record no_process { image_file_name = image_file_name; pid = pid }) m
]

abbrev pub is_empty : List ℕ → Bool
is_empty [] = true
is_empty (c ∷ rest) = false

-- `GetProcessImageFileName`, in a buffer of 1040 characters that is doubled as long as it is too
-- small: the name, or, if the process is not opened or the call fails otherwise, the doublings.
pub data ImageAnswer : Type 0 where
  named : List ℕ → ImageAnswer
  failed : ℕ → ImageAnswer

-- What the paths need of the system: the C library's letters, the path of a file that its device
-- path names (by the cached prefixes or by opening it), and the names of the processes.
pub record System : Type 0 where
  pub is_alpha : ℕ → Bool
  pub lower : ℕ → ℕ
  pub device_path : List ℕ → List ℕ
  pub image_name : ℕ → ImageAnswer

-- The text begins with `\\?\` or with `\\.\`.
abbrev pub has_namespace : List ℕ → Bool
has_namespace (a ∷ b ∷ c ∷ d ∷ rest) =
    (a == 92) && (b == 92) && ((c == 63) || (c == 46)) && (d == 92)
has_namespace _ = false

module _ (system : System) where
  open system use {is_alpha, lower, device_path, image_name}

  -- `ulti::ToLower`
  unfoldable pub to_lower : List ℕ → List ℕ
  to_lower [] = []
  to_lower (c ∷ rest) = (if is_alpha c then lower c else c) ∷ to_lower rest

  unfoldable pub get_win32_path_case_sensitive : List ℕ → List ℕ
  get_win32_path_case_sensitive [] = []
  get_win32_path_case_sensitive (c ∷ rest) =
      if not (c == 92)
      then c ∷ rest
      else if has_namespace (c ∷ rest)
      then drop 4 (c ∷ rest)
      else device_path (c ∷ rest)

  unfoldable pub get_win32_path : List ℕ → List ℕ
  get_win32_path path = to_lower (get_win32_path_case_sensitive path)

  -- The buffer that the query leaves: it is cut to the name's length only if the call succeeds.
  unfoldable pub queried_name : ℕ → List ℕ
  queried_name pid = elim (image_name pid) [
    | ImageAnswer.named name ↦ name
    | ImageAnswer.failed doublings ↦ replicate (1040 * 2 ^ doublings) 0
  ]

  -- `GetImageFileName`, the name beside the map.
  unfoldable pub get_image_file_name : ℕ → ProcessMap → List ℕ × ProcessMap
  get_image_file_name pid m =
      let name = get_win32_path (queried_name pid) in
      let asked : List ℕ × ProcessMap =
        if is_empty name then (name, m) else (name, update_image_file_name pid name m) in
      elim (m pid) [
        | some process ↦
            if is_empty process.image_file_name then asked else (process.image_file_name, m)
        | none ↦ asked
      ]

unfoldable pub update_process_creation_time : ℕ → ℕ → ProcessMap → ProcessMap
update_process_creation_time pid creation_time m = elim (m pid) [
  | some process ↦ put pid (record process { creation_time = creation_time }) m
  | none ↦ m
]

-- The entry beside the map, which `operator[]` may have extended.
unfoldable pub get_process_info : ℕ → ProcessMap → Process × ProcessMap
get_process_info pid m = elim (m pid) [
  | some process ↦ (process, m)
  | none ↦ (no_process, put pid no_process m)
]
