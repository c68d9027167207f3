-- ===== src/SelfDefense/Lifetime.antt =====
-- The life of a process in the cache of self_defense.cpp: `ProcessNotifyCallback` at its creation
-- and its exit, and the checks in between.
use windows_kernel_events_tr.Prelude.{
  ℕ, ◌≡◌, ◌≢◌, ◌⊎◌, ◌↔◌, inl, inr, refl, ◌∙◌, List, [], ◌∷◌, Option, some, none, Bool, true, false,
  ◌>>=◌, Returns, if◌then◌else◌, ◌==◌, Bool-cases, ==_iff,
}
use windows_kernel_events_tr.Memory.{Element}
use windows_kernel_events_tr.Strings.{String, contents}
use windows_kernel_events_tr.Strings.Unicode.{contents-copy_of}
use windows_kernel_events_tr.Strings.Compare.{IsAllocated}
use windows_kernel_events_tr.SelfDefense.Table.{Table, insert-keeps, insert-known, erase-other}
use windows_kernel_events_tr.SelfDefense.Model.{
  ProcessInfo, Kernel, State, get_process_image_name, is_protected_process, marked, process_created,
  process_exited,
}
use windows_kernel_events_tr.SelfDefense.Protection.{
  IsSound-fits, Protects, is_in_protected_directory-Decides,
}
use windows_kernel_events_tr.SelfDefense.Images.{IsTrusted}
use windows_kernel_events_tr.SelfDefense.Readiness.{
  IsReady, image_of, insert-IsReady, erase-IsReady, find-fresh,
}
use windows_kernel_events_tr.SelfDefense.Processes.{answer-marked, is_protected_process-Decides}

-- What happens to the cache: a process is created by a parent, exits, or is checked.
pub data Event : Type 0 where
  created : (pid parent now : ℕ) → Event
  exited : ℕ → Event
  checked : ℕ → Event

-- The events in which the process does not exit.
abbrev pub Spares : ℕ → List Event → Type 0
Spares pid [] = Unit {0}
Spares pid (Event.exited j ∷ es) = (j ≢ pid) × Spares pid es
Spares pid (Event.created j p now ∷ es) = Spares pid es
Spares pid (Event.checked j ∷ es) = Spares pid es

module _ (element : Element ℕ) (kernel : Kernel) (table : Table ProcessInfo) where
  open table use {Map, find, insert, erase, find-insert, find-erase}

  unfoldable pub handle_event : Event → State Map → Option (State Map)
  handle_event (Event.created pid parent now) st =
      process_created element kernel table pid parent now st
  handle_event (Event.exited pid) st = some (process_exited element kernel table pid st)
  handle_event (Event.checked pid) st =
      is_protected_process element kernel table pid st >>= λ r. some r.1

  unfoldable pub handle_events : List Event → State Map → Option (State Map)
  handle_events [] st = some st
  handle_events (e ∷ es) st = handle_event e st >>= λ after. handle_events es after

module _ (element : Element ℕ) (kernel : Kernel) (trusted : IsTrusted kernel)
    (table : Table ProcessInfo) where
  open table use {Map, find, insert, erase, find-insert, find-erase}

  -- The entry of a process that the creation callback saw first.
  pub record IsRecorded (pid parent now : ℕ) (st after : State Map) (info : ProcessInfo)
      : Type 0 where
    pub held : find pid after.process_map ≡ some info
    pub named :
        (s : String) × (get_process_image_name element kernel table pid st ≡ some s)
        × (contents info.process_path ≡ contents s)
        × ((info.is_protected ≡ true)
            ↔ (Protects st.protected_dirs s ⊎ (marked element kernel table parent st ≡ true)))
    pub started : info.start_time ≡ now

  either_on :
      (P : Type 0) (b c : Bool)
      → ((b ≡ true) ↔ P)
      → ((if b then true else c) ≡ true) ↔ (P ⊎ (c ≡ true))
  either_on P true c p = (λ _. inl (p.0 refl), λ _. refl)
  either_on P false c p =
      (λ e. inr e, elim [ inl x ↦ let on : false ≡ true = p.1 x in cc | inr e ↦ e ])

  process_created-lem :
      (pid parent now : ℕ) (st : State Map)
      → IsReady element kernel trusted table st
      → (s : String) × (r : String) × (b : Bool) × (get_process_image_name element kernel table pid
            st
          ≡ some s)
        × IsAllocated r
        × (contents r ≡ contents s)
        × ((b ≡ true)
            ↔ (Protects st.protected_dirs s ⊎ (marked element kernel table parent st ≡ true)))
        × (process_created element kernel table pid parent now st
            ≡ some (record st {
              process_map =
                  insert pid
                    (record { pid = pid; process_path = r; is_protected = b; start_time = now })
                    st.process_map;
            }))
  unfolding process_created
  process_created-lem pid parent now st h =
      let (s, named, sound) = image_of element kernel trusted table pid st h in
      let (b, found, decided) =
        is_in_protected_directory-Decides st.protected_dirs s h.dirs sound in
      let (r, copied, (allocated, same)) = contents-copy_of element s (IsSound-fits s sound) in
      (
        s,
        r,
        (if b then true else marked element kernel table parent st),
        named,
        allocated,
        same,
        either_on (Protects st.protected_dirs s) b (marked element kernel table parent st) decided,
        rw (process_created, named, found, copied) refl,
      )

  -- From a ready state `ProcessNotifyCallback` on a created process that is not in the cache returns, and records it with its start
  -- time; it is marked exactly if its image lies in a protected directory or its parent is marked.
  pub created-IsRecorded :
      (pid parent now : ℕ) (st : State Map)
      → IsReady element kernel trusted table st
      → find pid st.process_map ≡ none
      → Returns
          (process_created element kernel table pid parent now st)
          (λ after. (info : ProcessInfo) × IsRecorded pid parent now st after info)
  created-IsRecorded pid parent now st h fresh =
      let (s, r, b, named, allocated, same, decided, e) = process_created-lem pid parent now st h in
      (
        _,
        e,
        (
          _,
          record {
            held = find-fresh element kernel trusted table pid _ st.process_map fresh;
            named = (s, named, same, decided);
            started = refl;
          },
        ),
      )

  -- From a ready state, on a created process that is in the cache already, `ProcessNotifyCallback` returns and leaves the cache as it is: the
  -- entry keeps its path, its mark and its start time.
  pub created-stale :
      (pid parent now : ℕ) (st : State Map) (info : ProcessInfo)
      → IsReady element kernel trusted table st
      → find pid st.process_map ≡ some info
      → Returns
          (process_created element kernel table pid parent now st)
          (λ after. (j : ℕ) → find j after.process_map ≡ find j st.process_map)
  created-stale pid parent now st info h known =
      let (s, r, b, named, allocated, same, decided, e) = process_created-lem pid parent now st h in
      (_, e, λ j. insert-known table pid j _ info st.process_map known)

  -- Each event is handled, and leaves the entries of the processes that it does not end.
  handle_event-Keeps :
      (ev : Event) (pid : ℕ) (info : ProcessInfo) (st : State Map)
      → IsReady element kernel trusted table st
      → find pid st.process_map ≡ some info
      → Spares pid (ev ∷ [])
      → Returns (handle_event element kernel table ev st) (λ after.
        IsReady element kernel trusted table after × (find pid after.process_map ≡ some info))
  unfolding handle_event process_exited
  handle_event-Keeps (Event.created j parent now) pid info st h e spared =
      let (s, r, b, named, allocated, same, decided, done) =
        process_created-lem j parent now st h in
      (
        _,
        done,
        (
          insert-IsReady element kernel trusted table j _ st h (inr allocated),
          insert-keeps table j pid _ info st.process_map e,
        ),
      )
  handle_event-Keeps (Event.exited j) pid info st h e spared =
      let other : (j == pid) ≡ false = elim (Bool-cases (j == pid)) [
        | inl same ↦ absurd (spared.0 ((==_iff j pid).0 same))
        | inr other ↦ other
      ] in
      let still : find pid (erase j st.process_map) ≡ some info =
        erase-other table j pid st.process_map other ∙ e in
      (_, refl, (erase-IsReady element kernel trusted table j st h, still))
  handle_event-Keeps (Event.checked j) pid info st h e spared =
      let (r, done, answer) = is_protected_process-Decides element kernel trusted table j st h in
      (_, rw done refl, (answer.ready, answer.keeps pid info e))

  -- Every run of events is handled, and an entry stays until its process exits.
  handle_events-Keeps :
      (es : List Event) (pid : ℕ) (info : ProcessInfo) (st : State Map)
      → IsReady element kernel trusted table st
      → find pid st.process_map ≡ some info
      → Spares pid es
      → Returns (handle_events element kernel table es st) (λ after.
        IsReady element kernel trusted table after × (find pid after.process_map ≡ some info))
  unfolding handle_events
  handle_events-Keeps [] pid info st h e spared = (st, refl, (h, e))
  handle_events-Keeps (ev ∷ es) pid info st h e spared =
      let (mid, done, (ready, known)) = handle_event-Keeps ev pid info st h e (first ev spared) in
      let (after, all_done, kept) =
        handle_events-Keeps es pid info mid ready known (later ev spared) in
      (after, rw done all_done, kept)
    where
      first : (ev : Event) → Spares pid (ev ∷ es) → Spares pid (ev ∷ [])
      first (Event.created j parent now) spared = tt
      first (Event.exited j) spared = (spared.0, tt)
      first (Event.checked j) spared = tt

      later : (ev : Event) → Spares pid (ev ∷ es) → Spares pid es
      later (Event.created j parent now) spared = spared
      later (Event.exited j) spared = spared.1
      later (Event.checked j) spared = spared

  -- From a ready state, a child of a marked process, if it is not in the cache when it is created, is protected after
  -- every run of events in which it does not exit; and the run is handled.
  pub child-protected :
      (es : List Event) (pid parent now : ℕ) (st : State Map)
      → IsReady element kernel trusted table st
      → find pid st.process_map ≡ none
      → marked element kernel table parent st ≡ true
      → Spares pid es
      → Returns
          (handle_events element kernel table (Event.created pid parent now ∷ es) st)
          (λ after. is_protected_process element kernel table pid after ≡ some (true, after))
  unfolding handle_events handle_event
  child-protected es pid parent now st h fresh on spared =
      let (s, r, b, named, allocated, same, decided, done) =
        process_created-lem pid parent now st h in
      let info : ProcessInfo = record {
        pid = pid;
        process_path = r;
        is_protected = b;
        start_time = now;
      } in
      let (after, all_done, (ready, known)) =
        handle_events-Keeps es pid info _
          (insert-IsReady element kernel trusted table pid info st h (inr allocated))
          (find-fresh element kernel trusted table pid info st.process_map fresh) spared in
      (
        after,
        rw done all_done,
        answer-marked element kernel trusted table pid info after known (decided.1 (inr on)),
      )
