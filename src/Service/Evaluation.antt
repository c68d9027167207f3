-- ===== src/Service/Evaluation.antt =====
-- `EvaluateProcess` of EtwService/include/manager/manager.cpp. The hash tables
-- are functions from keys, the queue of events is the list that the loops run over.
use windows_kernel_events_tr.Prelude.{
  ℕ, ◌+◌, ◌*◌, ◌/◌, List, [], ◌∷◌, Option, some, none, Bool, true, false, ◌||◌, ◌&&◌, not, length,
  ◌++◌, map, ◌>>=◌, if◌then◌else◌, ◌==◌, leb, ltb,
}
use windows_kernel_events_tr.Prelude.Bits.{flag_on}
use windows_kernel_events_tr.Prelude.Maps.{put, empty_map}
use windows_kernel_events_tr.Vector.{wrap64}
use windows_kernel_events_tr.Printable.{Library, check_printable_ansi}
use windows_kernel_events_tr.Service.Files.{FileIoInfo}
use windows_kernel_events_tr.Service.Processes.{System, to_lower, is_empty}

-- What the evaluation asks of the disk and the libraries: `std::hash`, the files' attributes and
-- sizes, the match with the pattern of executables, the parent path, the UTF-8 codec, the copies in
-- the temporary directory, and the answers of `CheckTrID`, which runs TrID and reads its output.
pub record Disk : Type 0 where
  pub hash : List ℕ → ℕ
  pub file_exists : List ℕ → Bool
  pub is_executable : List ℕ → Bool
  pub file_size : List ℕ → ℕ
  pub parent_path : List ℕ → List ℕ
  pub to_utf8 : List ℕ → List ℕ
  pub copy_to_tmp : List ℕ → ℕ → List ℕ
  pub check_trid : List (List ℕ) → List Bool

-- `FileCount`
pub record FileCount : Type 0 where
  pub file_count : ℕ
  pub total_size : ℕ
  pub unique_dir_hashes : List ℕ

abbrev pub no_files : FileCount
no_files = record { file_count = 0; total_size = 0; unique_dir_hashes = [] }

abbrev pub count_at : Option FileCount → FileCount
count_at none = no_files
count_at (some c) = c

-- The tables of the first loop: `pid_file_cnt`, `file_size_map`, `unique_paths`.
pub record Tally : Type 0 where
  pub counts : ℕ → Option FileCount
  pub sizes : ℕ → Option ℕ
  pub unique_paths : ℕ → Bool

-- `set.insert(x)`, on a list without doubles.
unfoldable pub insert_once : ℕ → List ℕ → List ℕ
insert_once x [] = x ∷ []
insert_once x (y ∷ ys) = if y == x then y ∷ ys else y ∷ insert_once x ys

abbrev pub add_to : ℕ → (ℕ → Bool) → ℕ → Bool
add_to x s y = if x == y then true else s y

abbrev pub take_from : ℕ → (ℕ → Bool) → ℕ → Bool
take_from x s y = if x == y then false else s y

-- `FileInfo`
pub record FileInfo : Type 0 where
  pub current_path : List ℕ
  pub tmp_path : List ℕ
  pub pid : ℕ

-- The recognized files and all files checked, of a process.
pub record Result : Type 0 where
  pub recognized : ℕ
  pub total : ℕ

abbrev pub result_at : Option Result → Result
result_at none = record { recognized = 0; total = 0 }
result_at (some r) = r

abbrev pub file_max_total_size_scan : ℕ
file_max_total_size_scan = 10 * 1024 * 1024 * 5

-- What follows the last "." of a name, if there is one.
unfoldable pub after_last_dot : List ℕ → Option (List ℕ)
after_last_dot [] = none
after_last_dot (c ∷ rest) = elim (after_last_dot rest) [
  | some extension ↦ some extension
  | none ↦ if c == 46 then some rest else none
]

unfoldable pub get_file_extension : System → List ℕ → List ℕ
get_file_extension system file_name = elim (after_last_dot file_name) [
  | some extension ↦ to_lower system extension
  | none ↦ []
]

-- `extension == L"txt"`
abbrev pub is_txt : List ℕ → Bool
is_txt (a ∷ b ∷ c ∷ []) = (a == 116) && (b == 120) && (c == 116)
is_txt _ = false

-- The state of the second loop: `pid_file_cnt`, `unique_paths`, `file_list`.
pub record Selection : Type 0 where
  pub counts : ℕ → Option FileCount
  pub unique_paths : ℕ → Bool
  pub file_list : List FileInfo

abbrev pub size_at : Option ℕ → ℕ
size_at none = 0
size_at (some n) = n

module _ (library : Library) (system : System) (disk : Disk) where
  open disk use {
    hash, file_exists, is_executable, file_size, parent_path, to_utf8, copy_to_tmp, check_trid,
  }

  -- A round of the first loop. A file is counted for the process whose event comes first.
  unfoldable pub count_event : FileIoInfo → Tally → Tally
  count_event io t =
      let h = hash io.file_path in
      let c = count_at (t.counts io.pid) in
      let entered : Tally = record t { counts = put io.pid c t.counts } in
      let size = file_size io.file_path in
      let sized : Tally = record entered { sizes = put h size t.sizes } in
      if not (file_exists io.file_path) || is_executable io.file_path
      then entered
      else elim (t.sizes h) [
        | some known ↦ entered
        | none ↦
            if size == 0
            then sized
            else if flag_on io.featured_access_flags 0x10 || flag_on io.featured_access_flags 0x4
            then record sized {
              counts =
                  put io.pid
                    (record {
                      file_count = wrap64 (c.file_count + 1);
                      total_size = wrap64 (c.total_size + size);
                      unique_dir_hashes =
                          insert_once (hash (parent_path io.file_path)) c.unique_dir_hashes;
                    })
                    t.counts;
              unique_paths = add_to h t.unique_paths;
            }
            else sized
      ]

  unfoldable pub count_events : List FileIoInfo → Tally → Tally
  count_events [] t = t
  count_events (io ∷ ios) t = count_events ios (count_event io t)

  -- `white_list_pid`: the processes that changed fewer than 10 files or files of fewer than 2
  -- directories; no total size is asked for.
  unfoldable pub white_listed : Tally → ℕ → Bool
  white_listed t pid = elim (t.counts pid) [
    | some c ↦ not (leb 10 c.file_count && leb 0 c.total_size && leb 2 (length c.unique_dir_hashes))
    | none ↦ false
  ]

  -- The counts start from 0 again.
  unfoldable pub reset_counts : (ℕ → Option FileCount) → ℕ → Option FileCount
  reset_counts counts pid = elim (counts pid) [
    | some c ↦ some (record c { file_count = 0; total_size = 0 })
    | none ↦ none
  ]

  -- A round of the second loop, with the sizes and the white list. A path that is not
  -- printable, or has MAX_PATH characters, is copied.
  unfoldable pub select_event : (ℕ → Option ℕ) → (ℕ → Bool) → FileIoInfo → Selection → Selection
  select_event sizes skipped io s =
      let h = hash io.file_path in
      let size = size_at (sizes h) in
      let c = count_at (s.counts io.pid) in
      let total = wrap64 (c.total_size + size) in
      let charged : Selection = record s {
        counts = put io.pid (record c { total_size = total }) s.counts;
        unique_paths = take_from h s.unique_paths;
      } in
      let tmp_path =
        if not (check_printable_ansi library (to_utf8 io.file_path))
          || leb 260 (length io.file_path)
        then copy_to_tmp io.file_path size
        else io.file_path in
      if not (s.unique_paths h) || skipped io.pid
      then s
      else if ltb file_max_total_size_scan total
      then record s { counts = put io.pid c s.counts }
      else if size == 0 || is_empty tmp_path
      then charged
      else record charged {
        counts =
            put io.pid (record c { total_size = total; file_count = wrap64 (c.file_count + 1) })
              s.counts;
        file_list =
            s.file_list
            ++ record { current_path = io.file_path; tmp_path = tmp_path; pid = io.pid } ∷ [];
      }

  unfoldable pub select_events :
      (ℕ → Option ℕ) → (ℕ → Bool) → List FileIoInfo → Selection → Selection
  select_events sizes skipped [] s = s
  select_events sizes skipped (io ∷ ios) s =
      select_events sizes skipped ios (select_event sizes skipped io s)

  -- A round of the loop over `file_list`: `trid_map` and `proc_check_results`. `trid_map[...]` puts
  -- `false` there for a text file that TrID does not report, whatever `IsPrintableFile` says of it.
  unfoldable pub check_file :
      FileInfo → (ℕ → Option Bool) × (ℕ → Option Result) → (ℕ → Option Bool) × (ℕ → Option Result)
  check_file file (trid_map, results) =
      let h = hash file.tmp_path in
      let r = result_at (results file.pid) in
      let counted : Bool → ℕ → Option Result = λ is_recognized.
        put file.pid
          (record {
            recognized = wrap64 (r.recognized + (if is_recognized then 1 else 0));
            total = wrap64 (r.total + 1);
          })
          results in
      if not (file_exists file.current_path) then (trid_map, results) else elim (trid_map h) [
        | some is_recognized ↦ (trid_map, counted is_recognized)
        | none ↦
            if file_exists file.current_path && is_txt (get_file_extension system file.current_path)
            then (put h false trid_map, counted false)
            else (trid_map, results)
      ]

  unfoldable pub check_files :
      List FileInfo
      → (ℕ → Option Bool) × (ℕ → Option Result)
      → (ℕ → Option Bool) × (ℕ → Option Result)
  check_files [] s = s
  check_files (file ∷ files) s = check_files files (check_file file s)

  -- `trid_map`, by the positions of the paths; more answers than paths are a fault.
  unfoldable pub trid_map_of :
      List (List ℕ) → List Bool → (ℕ → Option Bool) → Option (ℕ → Option Bool)
  trid_map_of paths [] m = some m
  trid_map_of [] (answer ∷ answers) m = none
  trid_map_of (path ∷ paths) (answer ∷ answers) m =
      trid_map_of paths answers (put (hash path) answer m)

  -- TrID is asked about 10 files or more.
  abbrev pub trid_output : List (List ℕ) → List Bool
  trid_output paths = if leb 10 (length paths) then check_trid paths else []

  -- The evaluation of the queued events: the results by process.
  unfoldable pub evaluate_process : List FileIoInfo → Option (ℕ → Option Result)
  evaluate_process file_io_list =
      let tally =
        count_events file_io_list
          (record { counts = empty_map; sizes = empty_map; unique_paths = λ h. false }) in
      let selection = select_events tally.sizes (white_listed tally) file_io_list (record {
        counts = reset_counts tally.counts;
        unique_paths = tally.unique_paths;
        file_list = [];
      }) in
      let paths = map (λ file. file.tmp_path) selection.file_list in
      trid_map_of paths (trid_output paths) empty_map >>= λ trid_map.
      some (check_files selection.file_list (trid_map, empty_map)).1

-- `total >= MIN_FILE_COUNT && BelowThreshold(num_recognized, total)`
unfoldable pub is_ransomware : Result → Bool
is_ransomware r = leb 10 r.total && leb r.recognized (wrap64 (r.total * 80) / 100)
