-- ===== src/SelfDefense/Processes.antt =====
-- What `IsProtectedProcess` of self_defense.cpp answers, and what it does to the cache.
use windows_kernel_events_tr.Prelude.{
  ℕ, ◌≡◌, ◌↔◌, inl, inr, refl, sym, subst, ap, ◌∙◌, some, none, Bool, true, false, Returns, ◌==◌,
  Bool-cases, Option-cases,
}
use windows_kernel_events_tr.Memory.{Element}
use windows_kernel_events_tr.Vector.{Vector}
use windows_kernel_events_tr.Strings.{String, contents, copy_of}
use windows_kernel_events_tr.Strings.Unicode.{contents-copy_of}
use windows_kernel_events_tr.Strings.Compare.{IsAllocated}
use windows_kernel_events_tr.SelfDefense.Table.{Table, insert-keeps, insert-other}
use windows_kernel_events_tr.SelfDefense.Model.{
  ProcessInfo, Kernel, State, locate_image, is_in_protected_directory, get_process_image_name,
  is_protected_process,
}
use windows_kernel_events_tr.SelfDefense.Protection.{
  IsSound, AreDirs, Protects, Protects-copy, IsSound-fits, is_in_protected_directory-Decides,
}
use windows_kernel_events_tr.SelfDefense.Images.{IsTrusted, locate_image-IsSound}
use windows_kernel_events_tr.SelfDefense.Readiness.{
  IsReady, IsGuarded, IsGuarded-cached, IsGuarded-fresh, insert-IsReady, find-fresh,
}

module _ (element : Element ℕ) (kernel : Kernel) (trusted : IsTrusted kernel)
    (table : Table ProcessInfo) where
  open table use {Map, find, insert, erase, find-insert, find-erase}

  -- What a call of `IsProtectedProcess` gives: the decision; a state that is ready and differs only
  -- in an entry for a process that had none; and the same answer when it is called again.
  pub record IsAnswer (pid : ℕ) (st : State Map) (b : Bool) (after : State Map) : Type 0 where
    pub decides : (b ≡ true) ↔ IsGuarded element kernel trusted table pid st
    pub ready : IsReady element kernel trusted table after
    pub keeps :
        (j : ℕ) (info : ProcessInfo)
        → find j st.process_map ≡ some info
        → find j after.process_map ≡ some info
    pub others : (j : ℕ) → (pid == j) ≡ false → find j after.process_map ≡ find j st.process_map
    pub added :
        find pid st.process_map ≡ none
        → (info : ProcessInfo) × (find pid after.process_map ≡ some info) × (info.start_time ≡ 0)
    pub dirs_same : after.protected_dirs ≡ st.protected_dirs
    pub stable : is_protected_process element kernel table pid after ≡ some (b, after)

  -- What a process that is not in the cache is put there with.
  abbrev pub entry : ℕ → String → Bool → ProcessInfo
  entry pid s b = record { pid = pid; process_path = s; is_protected = b; start_time = 0 }

  pub answer-marked :
      (pid : ℕ) (info : ProcessInfo) (st : State Map)
      → find pid st.process_map ≡ some info
      → info.is_protected ≡ true
      → is_protected_process element kernel table pid st ≡ some (true, st)
  unfolding is_protected_process
  answer-marked pid info st e on = rw (is_protected_process, e, on) refl

  answer-cached :
      (pid : ℕ) (info : ProcessInfo) (st : State Map) (b : Bool)
      → find pid st.process_map ≡ some info
      → info.is_protected ≡ false
      → is_in_protected_directory st.protected_dirs info.process_path ≡ some b
      → is_protected_process element kernel table pid st ≡ some (b, st)
  unfolding is_protected_process
  answer-cached pid info st b e off found = rw (is_protected_process, e, off, found) refl

  image_fresh :
      (pid : ℕ) (s : String) (st : State Map)
      → find pid st.process_map ≡ none
      → locate_image element kernel pid ≡ some s
      → get_process_image_name element kernel table pid st ≡ some s
  unfolding get_process_image_name
  image_fresh pid s st e named = rw (get_process_image_name, e) named

  answer-fresh :
      (pid : ℕ) (s r : String) (st : State Map) (b : Bool)
      → find pid st.process_map ≡ none
      → locate_image element kernel pid ≡ some s
      → is_in_protected_directory st.protected_dirs s ≡ some b
      → copy_of element s ≡ some r
      → is_protected_process element kernel table pid st
        ≡ some (b, record st { process_map = insert pid (entry pid r b) st.process_map })
  unfolding is_protected_process
  answer-fresh pid s r st b e named found copied =
      rw (is_protected_process, e, image_fresh pid s st e named, found, copied) refl

  -- The decision on a path and the one on its copy are the same.
  found-copy :
      (dirs : Vector String) (s r : String) (b : Bool)
      → AreDirs dirs
      → IsSound s
      → IsAllocated r
      → contents r ≡ contents s
      → ((b ≡ true) ↔ Protects dirs s)
      → is_in_protected_directory dirs r ≡ some b
  found-copy dirs s r b h sound p e decided =
      let (c, found, decided') = is_in_protected_directory-Decides dirs r h (inr p) in
      let same = Protects-copy dirs s r h sound p e in
      found
      ∙ ap some (
          agree c b (λ t. decided.1 (same.1 (decided'.0 t)))
            (λ t. decided'.1 (same.0 (decided.0 t))))
    where
      agree : (c b : Bool) → (c ≡ true → b ≡ true) → (b ≡ true → c ≡ true) → c ≡ b
      agree true b f g = sym (f refl)
      agree false true f g = g refl
      agree false false f g = refl

  known-IsAnswer :
      (pid : ℕ) (st : State Map) (b : Bool) (info : ProcessInfo)
      → IsReady element kernel trusted table st
      → find pid st.process_map ≡ some info
      → is_protected_process element kernel table pid st ≡ some (b, st)
      → ((b ≡ true) ↔ IsGuarded element kernel trusted table pid st)
      → IsAnswer pid st b st
  known-IsAnswer pid st b info h e answer decided = record {
    decides = decided;
    ready = h;
    keeps = λ j i known. known;
    others = λ j apart. refl;
    added = λ absent. let clash : none ≡ some info = sym absent ∙ e in cc;
    dirs_same = refl;
    stable = answer;
  }

  fresh-IsAnswer :
      (pid : ℕ) (st : State Map)
      → IsReady element kernel trusted table st
      → find pid st.process_map ≡ none
      → Returns (is_protected_process element kernel table pid st) (λ r. IsAnswer pid st r.0 r.1)
  fresh-IsAnswer pid st h e =
      let (s, named, sound) = locate_image-IsSound element kernel trusted pid in
      let (r, copied, (allocated, same)) = contents-copy_of element s (IsSound-fits s sound) in
      let (b, found, decided) =
        is_in_protected_directory-Decides st.protected_dirs s h.dirs sound in
      let info : ProcessInfo = entry pid r b in
      let after : State Map = record st { process_map = insert pid info st.process_map } in
      let held = find-fresh element kernel trusted table pid info st.process_map e in
      (
        (b, after),
        answer-fresh pid s r st b e named found copied,
        record {
          decides = IsGuarded-fresh element kernel trusted table pid s st b e named decided;
          ready = insert-IsReady element kernel trusted table pid info st h (inr allocated);
          keeps = λ j i known. insert-keeps table pid j info i st.process_map known;
          others = λ j apart. insert-other table pid j info st.process_map apart;
          added = λ absent. (info, held, refl);
          dirs_same = refl;
          stable = elim (Bool-cases b) [
            | inl on ↦ answer-marked pid info after held on ∙ ap (λ c. some (c, after)) (sym on)
            | inr off ↦
                answer-cached pid info after b held off
                  (found-copy st.protected_dirs s r b h.dirs sound allocated same decided)
          ];
        },
      )

  -- From a ready state `IsProtectedProcess` returns: true exactly for a guarded process; and asked
  -- again it gives the same answer and changes nothing.
  pub is_protected_process-Decides :
      (pid : ℕ) (st : State Map)
      → IsReady element kernel trusted table st
      → Returns (is_protected_process element kernel table pid st) (λ r. IsAnswer pid st r.0 r.1)
  is_protected_process-Decides pid st h = elim (Option-cases (find pid st.process_map)) [
    | inl e ↦ fresh-IsAnswer pid st h e
    | inr (info, e) ↦ elim (Bool-cases info.is_protected) [
      | inl on ↦
          let answer = answer-marked pid info st e on in
          (
            (true, st),
            answer,
            known-IsAnswer pid st true info h e answer (λ _. inl (info, e, inl on), λ _. refl),
          )
      | inr off ↦
          let (b, found, decided) =
            is_in_protected_directory-Decides st.protected_dirs info.process_path h.dirs
              (h.cached pid info e) in
          let answer = answer-cached pid info st b e off found in
          (
            (b, st),
            answer,
            known-IsAnswer pid st b info h e answer
                (IsGuarded-cached element kernel trusted table pid info st b e off decided),
          )
    ]
  ]

  -- What a call answers tells whether the process is guarded.
  pub answered-IsGuarded :
      (pid : ℕ) (st after : State Map) (b : Bool)
      → IsReady element kernel trusted table st
      → is_protected_process element kernel table pid st ≡ some (b, after)
      → (b ≡ true) ↔ IsGuarded element kernel trusted table pid st
  answered-IsGuarded pid st after b h e =
      let (r, e', answer) = is_protected_process-Decides pid st h in
      let same : r ≡ (b, after) = let both : some r ≡ some (b, after) = sym e' ∙ e in cc in
      subst (λ q. (q.0 ≡ true) ↔ IsGuarded element kernel trusted table pid st) same answer.decides
