-- ===== src/Service/Filters.antt =====
-- The event filters of EtwService/include/manager/manager.cpp.
use windows_kernel_events_tr.Prelude.{
  ℕ, ◌+◌, ◌-◌, ◌%◌, ◌^◌, List, [], ◌∷◌, Bool, true, false, ◌||◌, ◌&&◌, not, if◌then◌else◌, ◌==◌,
  ltb,
}
use windows_kernel_events_tr.Service.Processes.{
  ProcessMap, System, is_child, is_empty, get_process_info, get_image_file_name,
}

abbrev pub same_text : List ℕ → List ℕ → Bool
same_text [] [] = true
same_text (x ∷ xs) (y ∷ ys) = (x == y) && same_text xs ys
same_text _ _ = false

unfoldable pub overall_event_filter : ℕ → ℕ → Bool
overall_event_filter current_pid issuing_pid =
    not ((issuing_pid == 0) || (issuing_pid == current_pid))

unfoldable pub registry_event_filter : ℕ → ℕ → Bool
registry_event_filter status handle = not (not (status == 0) || (handle == 0))

-- The verdict on the allocation of memory of one process by another, as the answer and the map of
-- processes, which the questions may extend.
unfoldable pub page_fault_event_filter : System → ℕ → ℕ → ℕ → ProcessMap → Bool × ProcessMap
page_fault_event_filter system issuing_pid allocated_pid time_ms m =
    let (info, known) = get_process_info allocated_pid m in
    let (issuing_image, issued) = get_image_file_name system issuing_pid known in
    let (allocated_image, named) = get_image_file_name system allocated_pid issued in
    if (issuing_pid == 0) || (allocated_pid == 0)
    then (false, m)
    else if issuing_pid == allocated_pid
    then (false, m)
    else if issuing_pid == 4
    then (false, m)
    else if info.pid == 0
    then (false, known)
    else if is_child issuing_pid allocated_pid known
        && ltb ((time_ms + 2 ^ 64 - info.creation_time) % 2 ^ 64) 200
    then (false, known)
    else if is_empty issuing_image || is_empty allocated_image
    then (false, named)
    else if same_text issuing_image allocated_image
    then (false, named)
    else (true, named)
