-- ===== src/Service/Rounds.antt =====
-- The rounds of the loops of `EvaluateProcess` of manager.cpp, and the function as a whole.
use windows_kernel_events_tr.Prelude.{
  ℕ, ◌+◌, ◌^◌, ◌≤◌, ◌<◌, ◌≡◌, refl, inl, inr, List, [], ◌∷◌, map, Option, Bool, false, ◌||◌, not,
  length, length-append, if◌then◌else◌, ◌==◌, leb, ltb, Bool-cases, arith, Returns,
}
use windows_kernel_events_tr.Prelude.Maps.{empty_map, put}
use windows_kernel_events_tr.Vector.{wrap64}
use windows_kernel_events_tr.Printable.{Library, check_printable_ansi}
use windows_kernel_events_tr.Service.Files.{FileIoInfo}
use windows_kernel_events_tr.Service.Processes.{System, is_empty}
use windows_kernel_events_tr.Service.Evaluation.{
  Disk, Tally, Selection, size_at, count_at, select_event, select_events, file_max_total_size_scan,
  trid_map_of, trid_output, evaluate_process, count_events, white_listed, reset_counts, check_files,
}
use windows_kernel_events_tr.Service.Verdicts.{IsWithin, check_files-IsWithin}

length-map : {A B : Type 0} (f : A → B) (xs : List A) → length (map f xs) ≡ length xs
length-map f [] = refl
length-map f (x ∷ xs) = omega (arith, length-map f xs)

module _ (library : Library) (system : System) (disk : Disk) where
  length-select_event :
      (sizes : ℕ → Option ℕ) (skipped : ℕ → Bool) (io : FileIoInfo) (s : Selection)
      → length (select_event library system disk sizes skipped io s).file_list
        ≤ length s.file_list + 1
  unfolding select_event
  length-select_event sizes skipped io s =
      let size = size_at (sizes (disk.hash io.file_path)) in
      let total = wrap64 ((count_at (s.counts io.pid)).total_size + size) in
      elim (Bool-cases (not (s.unique_paths (disk.hash io.file_path)) || skipped io.pid)) [
        | inl skip ↦ rw (select_event, skip) (omega arith)
        | inr chosen ↦ elim (Bool-cases (ltb file_max_total_size_scan total)) [
          | inl over ↦ rw (select_event, chosen, over) (omega arith)
          | inr within ↦ elim (Bool-cases (size == 0 || is_empty (tmp_path size))) [
            | inl dropped ↦ rw (select_event, chosen, within, dropped) (omega arith)
            | inr taken ↦
                rw (select_event, chosen, within, taken) (omega (arith, length-append s.file_list))
          ]
        ]
      ]
    where
      tmp_path : ℕ → List ℕ
      tmp_path size =
          if not (check_printable_ansi library (disk.to_utf8 io.file_path))
            || leb 260 (length io.file_path)
          then disk.copy_to_tmp io.file_path size
          else io.file_path

  length-select_events :
      (sizes : ℕ → Option ℕ) (skipped : ℕ → Bool) (ios : List FileIoInfo) (s : Selection)
      → length (select_events library system disk sizes skipped ios s).file_list
        ≤ length s.file_list + length ios
  unfolding select_events
  length-select_events sizes skipped [] s = omega arith
  length-select_events sizes skipped (io ∷ ios) s = omega (
    arith,
    length-select_event sizes skipped io s,
    length-select_events sizes skipped ios (select_event library system disk sizes skipped io s),
  )

  trid_map_of-Returns :
      (paths : List (List ℕ)) (answers : List Bool) (m : ℕ → Option Bool)
      → length answers ≤ length paths
      → Returns (trid_map_of library system disk paths answers m) (λ r. Unit {0})
  unfolding trid_map_of
  trid_map_of-Returns paths [] m h = (m, refl, tt)
  trid_map_of-Returns [] (answer ∷ answers) m h = absurd (omega arith)
  trid_map_of-Returns (path ∷ paths) (answer ∷ answers) m h =
      trid_map_of-Returns paths answers (put (disk.hash path) answer m) (omega arith)

  -- If TrID gives no more answers than it is asked for, the evaluation of fewer than 2^64 events
  -- returns, and in its results no process has more recognized files than checked ones, or more of
  -- these than there were events.
  pub evaluate_process-IsWithin :
      (ios : List FileIoInfo)
      → ((paths : List (List ℕ)) → length (disk.check_trid paths) ≤ length paths)
      → length ios < 2 ^ 64
      → Returns (evaluate_process library system disk ios) (IsWithin (length ios))
  unfolding evaluate_process
  evaluate_process-IsWithin ios answered small =
      let tally : Tally =
        count_events library system disk ios
          (record { counts = empty_map; sizes = empty_map; unique_paths = λ h. false }) in
      let start : Selection = record {
        counts = reset_counts library system disk tally.counts;
        unique_paths = tally.unique_paths;
        file_list = [];
      } in
      let skipped = white_listed library system disk tally in
      let selection = select_events library system disk tally.sizes skipped ios start in
      let shorter = length-select_events tally.sizes skipped ios start in
      let paths = map (λ file. file.tmp_path) selection.file_list in
      let (trid_map, e, _) =
        trid_map_of-Returns paths (trid_output library system disk paths) empty_map (few paths) in
      let all =
        check_files-IsWithin library system disk selection.file_list 0 trid_map empty_map
          (omega (arith, shorter)) (λ j. (omega arith, omega arith)) in
      (
        (check_files library system disk selection.file_list (trid_map, empty_map)).1,
        rw e refl,
        λ j. ((all j).0, omega (arith, (all j).1, shorter)),
      )
    where
      few : (paths : List (List ℕ)) → length (trid_output library system disk paths) ≤ length paths
      few paths = elim (Bool-cases (leb 10 (length paths))) [
        | inl many ↦ rw many (answered paths)
        | inr others ↦ rw others (omega arith)
      ]
