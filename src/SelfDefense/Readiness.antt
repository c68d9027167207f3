-- ===== src/SelfDefense/Readiness.antt =====
-- The states that the callbacks of self_defense.cpp keep to, and the processes that are guarded in them.
use windows_kernel_events_tr.Prelude.{
  ℕ, ◌≡◌, ◌⊎◌, ◌↔◌, inl, inr, refl, sym, subst, ◌∙◌, Option, some, none, Bool, true, false, Returns,
  if◌then◌else◌, ◌==◌, Option-cases, ==_iff,
}
use windows_kernel_events_tr.Memory.{Element}
use windows_kernel_events_tr.Strings.{String}
use windows_kernel_events_tr.Strings.Unicode.{contents-copy_of}
use windows_kernel_events_tr.SelfDefense.Table.{Table, kept}
use windows_kernel_events_tr.SelfDefense.Model.{
  ProcessInfo, Kernel, State, locate_image, get_process_image_name, process_exited,
}
use windows_kernel_events_tr.SelfDefense.Protection.{IsSound, AreDirs, Protects, IsSound-fits}
use windows_kernel_events_tr.SelfDefense.Images.{IsTrusted, locate_image-IsSound}

module _ (element : Element ℕ) (kernel : Kernel) (trusted : IsTrusted kernel)
    (table : Table ProcessInfo) where
  open table use {Map, find, insert, erase, find-insert, find-erase}

  -- The directories are strings with their blocks, and so are the paths in the cache, or null.
  pub record IsReady (st : State Map) : Type 0 where
    pub dirs : AreDirs st.protected_dirs
    pub cached :
        (pid : ℕ) (info : ProcessInfo)
        → find pid st.process_map ≡ some info
        → IsSound info.process_path

  -- The process is marked in the cache, or its image lies in a protected directory: the image
  -- that the cache has for it, or else the one that the kernel names.
  abbrev pub IsGuarded : ℕ → State Map → Type 0
  IsGuarded pid st =
      ((info : ProcessInfo) × (find pid st.process_map ≡ some info)
        × ((info.is_protected ≡ true) ⊎ Protects st.protected_dirs info.process_path))
      ⊎ ((s : String) × (find pid st.process_map ≡ none)
          × (locate_image element kernel pid ≡ some s)
          × Protects st.protected_dirs s)

  pub image_of :
      (pid : ℕ) (st : State Map)
      → IsReady st
      → Returns (get_process_image_name element kernel table pid st) IsSound
  unfolding get_process_image_name
  image_of pid st h = elim (Option-cases (find pid st.process_map)) [
    | inl e ↦ rw (get_process_image_name, e) (locate_image-IsSound element kernel trusted pid)
    | inr (info, e) ↦
        let (r, copied, (allocated, same)) =
          contents-copy_of element info.process_path
            (IsSound-fits info.process_path (h.cached pid info e)) in
        rw (get_process_image_name, e) (r, copied, inr allocated)
  ]

  pub insert-IsReady :
      (pid : ℕ) (info : ProcessInfo) (st : State Map)
      → IsReady st
      → IsSound info.process_path
      → IsReady (record st { process_map = insert pid info st.process_map })
  insert-IsReady pid info st h s = record {
    dirs = h.dirs;
    cached = λ j found e.
        sound (pid == j) found (find j st.process_map) (h.cached j)
          (sym (find-insert pid j info st.process_map) ∙ e);
  }
    where
      sound :
          (b : Bool) (found : ProcessInfo) (o : Option ProcessInfo)
          → ((i : ProcessInfo) → o ≡ some i → IsSound i.process_path)
          → (if b then kept o info else o) ≡ some found
          → IsSound found.process_path
      sound true found none old e =
          let same : info ≡ found = cc in subst (λ i. IsSound i.process_path) same s
      sound true found (some i) old e = old found e
      sound false found o old e = old found e

  pub erase-IsReady :
      (pid : ℕ) (st : State Map) → IsReady st → IsReady (process_exited element kernel table pid st)
  unfolding process_exited
  erase-IsReady pid st h = record {
    dirs = h.dirs;
    cached = λ j found e.
        sound (pid == j) found (find j st.process_map) (h.cached j)
          (sym (find-erase pid j st.process_map) ∙ e);
  }
    where
      sound :
          (b : Bool) (found : ProcessInfo) (o : Option ProcessInfo)
          → ((i : ProcessInfo) → o ≡ some i → IsSound i.process_path)
          → (if b then none else o) ≡ some found
          → IsSound found.process_path
      sound true found o old e = cc
      sound false found o old e = old found e

  -- What is guarded depends on the process's own entry and on the directories alone.
  pub IsGuarded-same :
      (pid : ℕ) (st after : State Map)
      → find pid after.process_map ≡ find pid st.process_map
      → after.protected_dirs ≡ st.protected_dirs
      → IsGuarded pid st
      → IsGuarded pid after
  IsGuarded-same pid st after e d (inl (info, known, inl on)) = inl (info, e ∙ known, inl on)
  IsGuarded-same pid st after e d (inl (info, known, inr p)) =
      inl (info, e ∙ known, inr (subst (λ l. Protects l info.process_path) (sym d) p))
  IsGuarded-same pid st after e d (inr (s, absent, named, p)) =
      inr (s, e ∙ absent, named, subst (λ l. Protects l s) (sym d) p)

  -- The decision for a process that is in the cache, not marked, and for one that is not there.
  pub IsGuarded-cached :
      (pid : ℕ) (info : ProcessInfo) (st : State Map) (b : Bool)
      → find pid st.process_map ≡ some info
      → info.is_protected ≡ false
      → ((b ≡ true) ↔ Protects st.protected_dirs info.process_path)
      → (b ≡ true) ↔ IsGuarded pid st
  IsGuarded-cached pid info st b e off decided = (
    λ t. inl (info, e, inr (decided.0 t)),
    elim [
      | inl (i, known, why) ↦
          let same : i ≡ info = cc in
          elim why [
            | inl on ↦
                let clash : info.is_protected ≡ true = subst (λ j. j.is_protected ≡ true) same on in
                cc
            | inr protects ↦
                decided.1 (subst (λ j. Protects st.protected_dirs j.process_path) same protects)
          ]
      | inr (s, absent, _, _) ↦ let clash : none ≡ some info = sym absent ∙ e in cc
    ],
  )

  pub IsGuarded-fresh :
      (pid : ℕ) (s : String) (st : State Map) (b : Bool)
      → find pid st.process_map ≡ none
      → locate_image element kernel pid ≡ some s
      → ((b ≡ true) ↔ Protects st.protected_dirs s)
      → (b ≡ true) ↔ IsGuarded pid st
  IsGuarded-fresh pid s st b e named decided = (
    λ t. inr (s, e, named, decided.0 t),
    elim [
      | inl (i, known, _) ↦ let clash : none ≡ some i = sym e ∙ known in cc
      | inr (s', _, named', protects) ↦
          let same : s' ≡ s = cc in
          decided.1 (subst (λ r. Protects st.protected_dirs r) same protects)
    ],
  )

  pub find-fresh :
      (pid : ℕ) (info : ProcessInfo) (m : Map)
      → find pid m ≡ none
      → find pid (insert pid info m) ≡ some info
  find-fresh pid info m e = rw (find-insert pid pid info m, e, (==_iff pid pid).1 refl) refl
