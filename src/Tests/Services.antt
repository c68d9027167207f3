-- ===== src/Tests/Services.antt =====
-- The properties of the service at concrete buffers, queues and processes.
use windows_kernel_events_tr.Prelude.{
  map, ℕ, ◌+◌, ◌≤◌, ◌≡◌, ◌⊎◌, ◌↔◌, List, [], ◌∷◌, ◌++◌, some, true, false, arith, length, Returns,
  leb,
}
use windows_kernel_events_tr.Prelude.Maps.{empty_map}
use windows_kernel_events_tr.Printable.{
  Library, utf8_counts, check_printable_utf8, check_printable_ansi,
}
use windows_kernel_events_tr.Printable.Counts.{IsMostlyText, check_printable_utf8-Decides}
use windows_kernel_events_tr.Printable.Ascii.{check_printable_utf8-ascii}
use windows_kernel_events_tr.Service.Files.{
  FileIoInfo, rename_event, write_event, get_path_by_object,
}
use windows_kernel_events_tr.Service.Queue
use windows_kernel_events_tr.Service.Names
use windows_kernel_events_tr.Service.Processes.{ProcessMap, System, ImageAnswer}
use windows_kernel_events_tr.Service.Evaluation.{
  Disk, FileInfo, Selection, file_max_total_size_scan, select_events, evaluate_process,
}
use windows_kernel_events_tr.Service.Verdicts.{IsWithin}
use windows_kernel_events_tr.Service.Selections.{chosen_size, chosen_size-select_events}
use windows_kernel_events_tr.Service.Rounds.{evaluate_process-IsWithin}
use windows_kernel_events_tr.Service.Files.{initial_names}
use windows_kernel_events_tr.Service.Consumer.{Guid, Event, Tables, watched, process_events}
use windows_kernel_events_tr.Service.Watching.{AllWatched, process_events-AllWatched}
use windows_kernel_events_tr.Prelude.{none, inl, inr, Bool-cases, ◌==◌}
use windows_kernel_events_tr.Prelude.Maps.{put}

-- Characters from the blank on are printable.
abbrev library : Library
library = record { is_text = λ c. leb 32 c; is_wide_text = λ c. leb 32 c }

-- "A", a character of two bytes and a byte that starts none.
abbrev mixed : List ℕ
mixed = 65 ∷ 0xC3 ∷ 0xA9 ∷ 0xFF ∷ []

check_printable_utf8-Decides_example : Returns (check_printable_utf8 library mixed) (λ b.
    (counts : ℕ × ℕ) × (utf8_counts library 4 mixed 0 0 0 ≡ some counts)
    × (counts.0 ≤ counts.1)
    × (counts.1 ≤ 4)
    × ((b ≡ true) ↔ ((length mixed ≡ 0) ⊎ IsMostlyText library counts)))
check_printable_utf8-Decides_example = check_printable_utf8-Decides library mixed

check_printable_utf8-ascii_example :
    check_printable_utf8 library (65 ∷ 10 ∷ []) ≡ some (check_printable_ansi library (65 ∷ 10 ∷ []))
check_printable_utf8-ascii_example =
    check_printable_utf8-ascii library (65 ∷ 10 ∷ []) (omega arith, (omega arith, tt))

abbrev queue_operations : List Queue.Operation
queue_operations =
    Queue.Operation.pop
    ∷ Queue.Operation.write (65 ∷ []) 4 100 512
    ∷ Queue.Operation.rename (66 ∷ []) 4 101 (65 ∷ [])
    ∷ Queue.Operation.pop
    ∷ []

run-fifo_example :
    (Queue.run queue_operations []).0 ++ (Queue.run queue_operations []).1
    ≡ write_event (65 ∷ []) 4 100 512 ∷ rename_event (66 ∷ []) 4 101 (65 ∷ []) ∷ []
run-fifo_example = Queue.run-fifo queue_operations []

-- The latest first.
abbrev name_operations : List Names.Operation
name_operations =
    Names.Operation.removed 8
    ∷ Names.Operation.mapped 7 (66 ∷ [])
    ∷ Names.Operation.mapped 7 (65 ∷ [])
    ∷ []

get_path_by_object-after_example :
    get_path_by_object 7 (Names.after name_operations) ≡ (66 ∷ [], Names.after name_operations)
get_path_by_object-after_example = Names.get_path_by_object-after 7 name_operations

abbrev nobody : ProcessMap
nobody = empty_map

abbrev system : System
system = record {
  is_alpha = λ c. leb 65 c;
  lower = λ c. c + 32;
  device_path = λ path. path;
  image_name = λ pid. ImageAnswer.failed 0;
}

-- Files named by their paths, of 600 bytes; TrID recognizes all.
abbrev disk : Disk
disk = record {
  hash = λ path. length path;
  file_exists = λ path. true;
  is_executable = λ path. false;
  file_size = λ path. 600;
  parent_path = λ path. [];
  to_utf8 = λ path. path;
  copy_to_tmp = λ path size. path;
  check_trid = λ paths. map (λ path. true) paths;
}

length-answers : (paths : List (List ℕ)) → length (disk.check_trid paths) ≤ length paths
length-answers [] = omega arith
length-answers (path ∷ paths) = omega (arith, length-answers paths)

abbrev two_events : List FileIoInfo
two_events =
    write_event (65 ∷ []) 4 100 512 ∷ rename_event (66 ∷ 46 ∷ 116 ∷ []) 4 101 (65 ∷ []) ∷ []

evaluate_process-IsWithin_example :
    Returns (evaluate_process library system disk two_events) (IsWithin 2)
evaluate_process-IsWithin_example =
    evaluate_process-IsWithin library system disk two_events length-answers (omega arith)

abbrev nothing_selected : Selection
nothing_selected = record { counts = empty_map; unique_paths = λ h. true; file_list = [] }

nothing_chosen : nothing_selected.file_list ≡ []
nothing_chosen = λ i. []

chosen_size-select_events_example :
    chosen_size library system disk
      (λ h. some 600)
      4
      (select_events library system disk
        (λ h. some 600)
        (λ pid. false)
        two_events
        nothing_selected).file_list
    ≤ file_max_total_size_scan
chosen_size-select_events_example =
    chosen_size-select_events library system disk (λ h. some 600) (λ pid. false) two_events
      nothing_selected 4 (λ h. omega arith) nothing_chosen (λ pid. omega arith)

-- "a.txt"
abbrev text_file : FileInfo
text_file = record {
  current_path = 97 ∷ 46 ∷ 116 ∷ 120 ∷ 116 ∷ [];
  tmp_path = 97 ∷ 46 ∷ 116 ∷ 120 ∷ 116 ∷ [];
  pid = 4;
}

-- The process 9 starts the process 12, and names 7 for its parent.
abbrev start : Event
start = record {
  guid = Guid.process;
  type = 1;
  process_id = 9;
  time_in_ms = 0;
  file_object = 0;
  file_key = 0;
  open_path = [];
  create_options = 0;
  pid = 12;
  ppid = 7;
}

-- "napierone-tiny", opened as a file.
abbrev opening : Event
opening = record start { guid = Guid.file_io; type = 64; file_object = 5; open_path = watched }

abbrev no_tables : Tables
no_tables = record { names = initial_names; renames = empty_map; processes = nobody }

initial_names-AllWatched : AllWatched system (λ path. false) initial_names
unfolding initial_names put
initial_names-AllWatched o path e = elim (Bool-cases (0 == o)) [
  | inl same ↦ let both : some [] ≡ some path = rw same at e in inl (cc)
  | inr other ↦ let clash : none ≡ some path = rw other at e in cc
]

process_events-AllWatched_example :
    AllWatched system
      (λ path. false)
      (process_events system (λ path. false) 3 (opening ∷ start ∷ []) no_tables).names
process_events-AllWatched_example =
    process_events-AllWatched system (λ path. false) 3 (opening ∷ start ∷ []) no_tables
      initial_names-AllWatched
