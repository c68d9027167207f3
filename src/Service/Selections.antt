-- ===== src/Service/Selections.antt =====
-- The selection of files by the second loop of `EvaluateProcess` of manager.cpp: their sizes together.
use windows_kernel_events_tr.Prelude.{
  ℕ, ◌+◌, ◌^◌, ◌≤◌, ◌<◌, ◌≡◌, refl, sym, ap, ◌∙◌, inl, inr, List, [], ◌∷◌, ◌++◌, Option, Bool, true,
  false, ◌||◌, not, length, if◌then◌else◌, ◌==◌, ==_iff, leb, ltb, Bool-cases, arith,
}
use windows_kernel_events_tr.Prelude.Maps.{put, put-same, put-other}
use windows_kernel_events_tr.Vector.{wrap64}
use windows_kernel_events_tr.Printable.{Library, check_printable_ansi}
use windows_kernel_events_tr.Service.Files.{FileIoInfo}
use windows_kernel_events_tr.Service.Processes.{System, is_empty}
use windows_kernel_events_tr.Service.Evaluation.{
  Disk, FileInfo, FileCount, count_at, Selection, size_at, select_event, select_events,
  file_max_total_size_scan,
}

module _ (library : Library) (system : System) (disk : Disk) (sizes : ℕ → Option ℕ) where
  open disk use {hash}

  -- The sizes of the files that are chosen for a process, together.
  unfoldable pub chosen_size : ℕ → List FileInfo → ℕ
  chosen_size pid [] = 0
  chosen_size pid (file ∷ files) =
      (if file.pid == pid then size_at (sizes (hash file.current_path)) else 0)
      + chosen_size pid files

  chosen_size-append :
      (pid : ℕ) (files : List FileInfo) (file : FileInfo)
      → chosen_size pid (files ++ file ∷ [])
        ≡ chosen_size pid files
          + (if file.pid == pid then size_at (sizes (hash file.current_path)) else 0)
  unfolding chosen_size
  chosen_size-append pid [] file = omega arith
  chosen_size-append pid (first ∷ files) file = omega (arith, chosen_size-append pid files file)

  chosen_size-own :
      (files : List FileInfo) (file : FileInfo)
      → chosen_size file.pid (files ++ file ∷ [])
        ≡ chosen_size file.pid files + size_at (sizes (hash file.current_path))
  chosen_size-own files file =
      let own : (file.pid == file.pid) ≡ true = (==_iff file.pid file.pid).1 refl in
      chosen_size-append file.pid files file ∙ rw own refl

  chosen_size-foreign :
      (pid : ℕ) (files : List FileInfo) (file : FileInfo)
      → (file.pid == pid) ≡ false
      → chosen_size pid (files ++ file ∷ []) ≡ chosen_size pid files
  chosen_size-foreign pid files file other =
      chosen_size-append pid files file ∙ rw other (omega arith)

  -- The files that are chosen for a process are charged to it, and it has not been charged too much.
  abbrev IsCharged : (ℕ → Option FileCount) → List FileInfo → Type 0
  IsCharged counts files =
      (pid : ℕ)
      → (chosen_size pid files ≤ (count_at (counts pid)).total_size)
        × ((count_at (counts pid)).total_size ≤ file_max_total_size_scan)

  -- A charge to one process, with a file of it or with none.
  charge-IsCharged :
      (s : Selection) (pid : ℕ) (d : FileCount) (files : List FileInfo)
      → IsCharged s.counts s.file_list
      → chosen_size pid files ≤ d.total_size
      → d.total_size ≤ file_max_total_size_scan
      → ((j : ℕ) → (pid == j) ≡ false → chosen_size j files ≡ chosen_size j s.file_list)
      → IsCharged (put pid d s.counts) files
  charge-IsCharged s pid d files h paid within others j = elim (Bool-cases (pid == j)) [
    | inl same ↦
        let here : pid ≡ j = (==_iff pid j).0 same in
        let at : put pid d s.counts j ≡ Option.some d =
          ap (λ i. put pid d s.counts i) (sym here) ∙ put-same pid d s.counts in
        rw (at, ← here) (paid, within)
    | inr other ↦ rw (put-other pid j d s.counts other, others j other) (h j)
  ]

  select_event-IsCharged :
      (skipped : ℕ → Bool) (io : FileIoInfo) (s : Selection)
      → size_at (sizes (hash io.file_path)) < 2 ^ 63
      → IsCharged s.counts s.file_list
      → IsCharged
          (select_event library system disk sizes skipped io s).counts
          (select_event library system disk sizes skipped io s).file_list
  unfolding select_event
  select_event-IsCharged skipped io s small h =
      let c = count_at (s.counts io.pid) in
      let size = size_at (sizes (hash io.file_path)) in
      let total = wrap64 (c.total_size + size) in
      let (paid, within) = h io.pid in
      let summed : total ≡ c.total_size + size = omega arith in
      let file : FileInfo = record {
        current_path = io.file_path;
        tmp_path = tmp_path io size;
        pid = io.pid;
      } in
      elim (Bool-cases (not (s.unique_paths (hash io.file_path)) || skipped io.pid)) [
        | inl skip ↦ rw (select_event, skip) h
        | inr chosen ↦ elim (Bool-cases (ltb file_max_total_size_scan total)) [
          | inl over ↦
              rw (select_event, chosen, over)
                (charge-IsCharged s io.pid c s.file_list h paid within (λ j other. refl))
          | inr fits ↦ elim (Bool-cases (size == 0 || is_empty (tmp_path io size))) [
            | inl dropped ↦
                rw (select_event, chosen, fits, dropped)
                  (charge-IsCharged s io.pid _ s.file_list h (omega arith) (below total fits)
                    (λ j other. refl))
            | inr taken ↦
                rw (select_event, chosen, fits, taken)
                  (charge-IsCharged s io.pid _ _ h
                    (let one_more = chosen_size-own s.file_list file in omega arith)
                    (below total fits) (λ j other. chosen_size-foreign j s.file_list file other))
          ]
        ]
      ]
    where
      tmp_path : FileIoInfo → ℕ → List ℕ
      tmp_path io size =
          if not (check_printable_ansi library (disk.to_utf8 io.file_path))
            || leb 260 (length io.file_path)
          then disk.copy_to_tmp io.file_path size
          else io.file_path

      below : (n : ℕ) → ltb file_max_total_size_scan n ≡ false → n ≤ file_max_total_size_scan
      below n fits = ground arith

  select_events-IsCharged :
      (skipped : ℕ → Bool) (ios : List FileIoInfo) (s : Selection)
      → ((h : ℕ) → size_at (sizes h) < 2 ^ 63)
      → IsCharged s.counts s.file_list
      → IsCharged
          (select_events library system disk sizes skipped ios s).counts
          (select_events library system disk sizes skipped ios s).file_list
  unfolding select_events
  select_events-IsCharged skipped [] s small h = h
  select_events-IsCharged skipped (io ∷ ios) s small h =
      select_events-IsCharged skipped ios (select_event library system disk sizes skipped io s)
        small (select_event-IsCharged skipped io s (small (hash io.file_path)) h)

  -- By the sizes that were kept for the paths, each below 2^63 bytes, and from a selection with no files
  -- where nothing is charged, the files that are chosen for a process's check have no more than 50 MB
  -- together, however many events there are.
  pub chosen_size-select_events :
      (skipped : ℕ → Bool) (ios : List FileIoInfo) (s : Selection) (pid : ℕ)
      → ((h : ℕ) → size_at (sizes h) < 2 ^ 63)
      → s.file_list ≡ []
      → ((j : ℕ) → (count_at (s.counts j)).total_size ≡ 0)
      → chosen_size pid (select_events library system disk sizes skipped ios s).file_list
        ≤ file_max_total_size_scan
  unfolding chosen_size
  chosen_size-select_events skipped ios s pid small none_yet free =
      let (paid, within) =
        select_events-IsCharged skipped ios s small
          (λ j. (rw none_yet (omega arith), omega (arith, free j))) pid in
      omega arith
