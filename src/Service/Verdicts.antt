-- ===== src/Service/Verdicts.antt =====
-- The selection of files and the counts of results by `EvaluateProcess` of manager.cpp.
use windows_kernel_events_tr.Prelude.{
  ℕ, ◌+◌, ◌^◌, ◌≤◌, ◌<◌, ◌≡◌, refl, sym, ap, subst, ◌∙◌, inl, inr, List, [], ◌∷◌, Option, some,
  none, Bool, true, false, length, if◌then◌else◌, ◌==◌, ==_iff, Bool-cases, Option-cases, arith,
}
use windows_kernel_events_tr.Prelude.Maps.{put, put-same, put-other}
use windows_kernel_events_tr.Vector.{wrap64}
use windows_kernel_events_tr.Printable.{Library}
use windows_kernel_events_tr.Service.Processes.{System}
use windows_kernel_events_tr.Service.Evaluation.{
  Disk, FileInfo, Result, result_at, check_file, check_files, get_file_extension, is_txt,
}

-- A property of every entry of a map is kept by `put` of a value that has it.
put-Every :
    {V W : Type 0} (read : Option V → W) (P : W → Type 0) (k : ℕ) (v : V) (m : ℕ → Option V)
    → P (read (some v))
    → ((j : ℕ) → P (read (m j)))
    → (j : ℕ) → P (read (put k v m j))
put-Every read P k v m here there j = elim (Bool-cases (k == j)) [
  | inl same ↦
      let at_j : put k v m j ≡ some v =
        ap (λ i. put k v m i) (sym ((==_iff k j).0 same)) ∙ put-same k v m in
      rw at_j here
  | inr other ↦ rw (put-other k j v m other) (there j)
]

-- The results after `n` files: no process has more recognized files than checked ones, or more of
-- these than there were files.
abbrev pub IsWithin : ℕ → (ℕ → Option Result) → Type 0
IsWithin n results =
    (pid : ℕ)
    → ((result_at (results pid)).recognized ≤ (result_at (results pid)).total)
      × ((result_at (results pid)).total ≤ n)

module _ (library : Library) (system : System) (disk : Disk) where
  counted-IsWithin :
      (n pid : ℕ) (b : Bool) (results : ℕ → Option Result)
      → n + 1 < 2 ^ 64
      → IsWithin n results
      → IsWithin (n + 1) (
          put pid
            (record {
              recognized = wrap64 ((result_at (results pid)).recognized + (if b then 1 else 0));
              total = wrap64 ((result_at (results pid)).total + 1);
            })
            results)
  counted-IsWithin n pid b results small h =
      put-Every result_at (λ r. (r.recognized ≤ r.total) × (r.total ≤ n + 1)) pid _ results
        (one_more b) (λ j. ((h j).0, omega (arith, (h j).1)))
    where
      one_more :
          (b : Bool)
          → (wrap64 ((result_at (results pid)).recognized + (if b then 1 else 0))
              ≤ wrap64 ((result_at (results pid)).total + 1))
            × (wrap64 ((result_at (results pid)).total + 1) ≤ n + 1)
      one_more true = (omega (arith, (h pid).0, (h pid).1), omega (arith, (h pid).1))
      one_more false = (omega (arith, (h pid).0, (h pid).1), omega (arith, (h pid).1))

  later-IsWithin :
      (n : ℕ) (results : ℕ → Option Result) → IsWithin n results → IsWithin (n + 1) results
  later-IsWithin n results h j = ((h j).0, omega (arith, (h j).1))

  check_file-IsWithin :
      (n : ℕ) (file : FileInfo) (trid_map : ℕ → Option Bool) (results : ℕ → Option Result)
      → n + 1 < 2 ^ 64
      → IsWithin n results
      → IsWithin (n + 1) (check_file library system disk file (trid_map, results)).1
  unfolding check_file
  check_file-IsWithin n file trid_map results small h =
      elim (Bool-cases (disk.file_exists file.current_path)) [
        | inr gone ↦ rw (check_file, gone) (later-IsWithin n results h)
        | inl there ↦ elim (Option-cases (trid_map (disk.hash file.tmp_path))) [
          | inr (b, reported) ↦
              rw (check_file, there, reported) (counted-IsWithin n file.pid b results small h)
          | inl unreported ↦
              elim (Bool-cases (is_txt (get_file_extension system file.current_path))) [
                | inl txt ↦
                    rw (check_file, there, unreported, there, txt)
                      (counted-IsWithin n file.pid false results small h)
                | inr other ↦
                    rw (check_file, there, unreported, there, other) (later-IsWithin n results h)
              ]
        ]
      ]

  -- The loop over the files keeps the bounds: from results within `n`, fewer than 2^64 files in all,
  -- no process has more recognized files than checked ones, or more of these than there were files.
  pub check_files-IsWithin :
      (files : List FileInfo) (n : ℕ) (trid_map : ℕ → Option Bool) (results : ℕ → Option Result)
      → n + length files < 2 ^ 64
      → IsWithin n results
      → IsWithin (n + length files) (check_files library system disk files (trid_map, results)).1
  unfolding check_files
  check_files-IsWithin [] n trid_map results small h = λ j. ((h j).0, omega (arith, (h j).1))
  check_files-IsWithin (file ∷ files) n trid_map results small h =
      let next = check_file library system disk file (trid_map, results) in
      let all =
        check_files-IsWithin files (n + 1) next.0 next.1 (omega arith)
          (check_file-IsWithin n file trid_map results (omega arith) h) in
      λ j. ((all j).0, omega (arith, (all j).1))

  -- A file that TrID does not report adds to no process's recognized files, also a text file that is
  -- printable.
  pub check_file-unreported :
      (file : FileInfo) (trid_map : ℕ → Option Bool) (results : ℕ → Option Result) (pid : ℕ)
      → trid_map (disk.hash file.tmp_path) ≡ none
      → (result_at (results file.pid)).recognized < 2 ^ 64
      → (result_at ((check_file library system disk file (trid_map, results)).1 pid)).recognized
        ≡ (result_at (results pid)).recognized
  unfolding check_file
  check_file-unreported file trid_map results pid unreported small =
      elim (Bool-cases (disk.file_exists file.current_path)) [
        | inr gone ↦ rw (check_file, gone) refl
        | inl there ↦ elim (Bool-cases (is_txt (get_file_extension system file.current_path))) [
          | inr other ↦ rw (check_file, there, unreported, there, other) refl
          | inl txt ↦
              rw (check_file, there, unreported, there, txt) (uncounted (file.pid == pid) refl)
        ]
      ]
    where
      result : Result
      result = record {
        recognized = wrap64 ((result_at (results file.pid)).recognized + 0);
        total = wrap64 ((result_at (results file.pid)).total + 1);
      }

      uncounted :
          (b : Bool)
          → (file.pid == pid) ≡ b
          → (result_at (put file.pid result results pid)).recognized
            ≡ (result_at (results pid)).recognized
      uncounted true same =
          let here : file.pid ≡ pid = (==_iff file.pid pid).0 same in
          subst
            (λ j.
              (result_at (put file.pid result results j)).recognized
              ≡ (result_at (results j)).recognized)
            here (rw (put-same file.pid result results) (omega (arith, small)))
      uncounted false other = rw (put-other file.pid pid result results other) refl
