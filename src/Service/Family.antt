-- ===== src/Service/Family.antt =====
-- What `ProcessManager` of process_manager.cpp knows of parents and images.
use windows_kernel_events_tr.Prelude.{
  ℕ, zero, suc, ◌*◌, ◌^◌, ◌<◌, ◌≡◌, ◌⊎◌, ◌↔◌, refl, sym, ap, ◌∙◌, inl, inr, List, ◌∷◌, some, none,
  true, false, ◌||◌, replicate, if◌then◌else◌, ◌==◌, Bool-cases, Option-cases, arith,
}
use windows_kernel_events_tr.Prelude.Maps.{put-same, remove-same}
use windows_kernel_events_tr.Service.Processes.{
  Process, no_process, ProcessMap, entry_at, parent_or_zero, add_process, remove_process, is_child,
  update_image_file_name, is_empty, ImageAnswer, System, to_lower, get_win32_path_case_sensitive,
  get_win32_path, queried_name, get_image_file_name,
}

either : (a b c : ℕ) → (((a == c) || (b == c)) ≡ true) ↔ ((a ≡ c) ⊎ (b ≡ c))
either a b c = ground arith

-- After `AddProcess` the process is the child of the two parents given and of no other, where the
-- parent -1 stands for 0.
pub add_process-is_child :
    (pid ppid_real ppid_adopted ppid : ℕ) (m : ProcessMap)
    → (is_child ppid pid (add_process pid ppid_real ppid_adopted m) ≡ true)
      ↔ ((parent_or_zero ppid_real ≡ ppid) ⊎ (parent_or_zero ppid_adopted ≡ ppid))
unfolding is_child add_process
add_process-is_child pid ppid_real ppid_adopted ppid m =
    rw
      (
        is_child,
        add_process,
        put-same pid
            (record (entry_at (m pid)) {
              pid = pid;
              ppid_real = parent_or_zero ppid_real;
              ppid_adopted = parent_or_zero ppid_adopted;
            })
            m,
      )
      (either (parent_or_zero ppid_real) (parent_or_zero ppid_adopted) ppid)

-- After `RemoveProcess` the process is the child of none.
remove_process-is_child :
    (pid ppid : ℕ) (m : ProcessMap) → is_child ppid pid (remove_process pid m) ≡ false
unfolding is_child remove_process
remove_process-is_child pid ppid m = elim (Option-cases (m pid)) [
  | inl absent ↦ rw (is_child, remove_process, absent, absent) refl
  | inr (process, present) ↦ rw (is_child, remove_process, present, remove-same pid m) refl
]

power-pos : (d : ℕ) → 0 < 2 ^ d
power-pos zero = omega arith
power-pos (suc d) = omega (arith, power-pos d)

module _ (system : System) where
  update-image :
      (pid : ℕ) (name : List ℕ) (m : ProcessMap)
      → (process : Process) × (update_image_file_name pid name m pid ≡ some process)
        × (process.image_file_name ≡ name)
  unfolding update_image_file_name
  update-image pid name m = elim (Option-cases (m pid)) [
    | inl absent ↦
        let process : Process = record no_process { image_file_name = name; pid = pid } in
        (process, rw (update_image_file_name, absent) (put-same pid process m), refl)
    | inr (old, present) ↦
        let process : Process = record old { image_file_name = name } in
        (process, rw (update_image_file_name, present) (put-same pid process m), refl)
  ]

  -- The name that the cache has, where it has one.
  image_cached :
      (pid : ℕ) (process : Process) (m : ProcessMap)
      → m pid ≡ some process
      → is_empty process.image_file_name ≡ false
      → get_image_file_name system pid m ≡ (process.image_file_name, m)
  unfolding get_image_file_name
  image_cached pid process m present full = rw (get_image_file_name, present, full) refl

  -- The name that is asked for, where the cache has none.
  abbrev Unnamed : ℕ → ProcessMap → Type 0
  Unnamed pid m =
      (m pid ≡ none)
      ⊎ ((process : Process) × (m pid ≡ some process) × (is_empty process.image_file_name ≡ true))

  image_asked :
      (pid : ℕ) (m : ProcessMap)
      → Unnamed pid m
      → get_image_file_name system pid m ≡ (
          let name = get_win32_path system (queried_name system pid) in
          if is_empty name then (name, m) else (name, update_image_file_name pid name m))
  unfolding get_image_file_name
  image_asked pid m (inl absent) = rw (get_image_file_name, absent) refl
  image_asked pid m (inr (process, present, empty)) = rw (get_image_file_name, present, empty) refl

  asked-again :
      (pid : ℕ) (m : ProcessMap)
      → Unnamed pid m
      → get_image_file_name system pid (get_image_file_name system pid m).1
        ≡ get_image_file_name system pid m
  asked-again pid m unnamed =
      let name = get_win32_path system (queried_name system pid) in
      let first = image_asked pid m unnamed in
      elim (Bool-cases (is_empty name)) [
        | inl empty ↦
            let all : get_image_file_name system pid m ≡ (name, m) = first ∙ rw empty refl in
            ap (λ r. get_image_file_name system pid r.1) all
        | inr full ↦
            let (process, held, same) = update-image pid name m in
            let all : get_image_file_name system pid m ≡ (name, update_image_file_name pid name m) =
              first ∙ rw full refl in
            ap (λ r. get_image_file_name system pid r.1) all
            ∙ image_cached pid process (update_image_file_name pid name m) held (rw same full)
            ∙ ap (λ n. (n, update_image_file_name pid name m)) same
            ∙ sym all
      ]

  -- Asked again, `GetImageFileName` gives the same name and leaves the map as the first call did.
  pub get_image_file_name-stable :
      (pid : ℕ) (m : ProcessMap)
      → get_image_file_name system pid (get_image_file_name system pid m).1
        ≡ get_image_file_name system pid m
  get_image_file_name-stable pid m = elim (Option-cases (m pid)) [
    | inl absent ↦ asked-again pid m (inl absent)
    | inr (process, present) ↦ elim (Bool-cases (is_empty process.image_file_name)) [
      | inl empty ↦ asked-again pid m (inr (process, present, empty))
      | inr full ↦
          let all = image_cached pid process m present full in
          ap (λ r. get_image_file_name system pid r.1) all
    ]
  ]

  to_lower-zeros :
      (n : ℕ) → system.is_alpha 0 ≡ false → to_lower system (replicate n 0) ≡ replicate n 0
  unfolding to_lower
  to_lower-zeros zero h = refl
  to_lower-zeros (suc n) h = rw h (ap (λ l. 0 ∷ l) (to_lower-zeros n h))

  zeros-path : (n : ℕ) → get_win32_path_case_sensitive system (replicate n 0) ≡ replicate n 0
  unfolding get_win32_path_case_sensitive
  zeros-path zero = refl
  zeros-path (suc n) = refl

  zeros-full : (n : ℕ) → 0 < n → is_empty (replicate n 0) ≡ false
  zeros-full zero h = absurd (omega arith)
  zeros-full (suc n) h = refl

  -- Of a process that has no name in the map and cannot be queried, `GetImageFileName` returns the
  -- whole buffer of null characters, which are no letters, and keeps it as the process's name.
  pub get_image_file_name-failed :
      (pid doublings : ℕ) (m : ProcessMap)
      → m pid ≡ none
      → system.image_name pid ≡ ImageAnswer.failed doublings
      → system.is_alpha 0 ≡ false
      → get_image_file_name system pid m ≡ (
        replicate (1040 * 2 ^ doublings) 0,
        update_image_file_name pid (replicate (1040 * 2 ^ doublings) 0) m,
      )
  unfolding queried_name get_win32_path
  get_image_file_name-failed pid doublings m absent failed letters =
      image_asked pid m (inl absent)
      ∙ rw
          (
            queried_name,
            get_win32_path,
            failed,
            zeros-path (1040 * 2 ^ doublings),
            to_lower-zeros (1040 * 2 ^ doublings) letters,
            zeros-full (1040 * 2 ^ doublings) (omega (arith, power-pos doublings)),
          )
          refl
