-- ===== src/Service/Watching.antt =====
-- What the managers know after the events that EtwService/include/etw/consumer.cpp hands over.
use windows_kernel_events_tr.Prelude.{
  ℕ, ◌%◌, ◌^◌, ◌≡◌, ◌↔◌, ◌⊎◌, inl, inr, refl, sym, ◌∙◌, ap, subst, List, [], ◌∷◌, some, Bool, true,
  false, ◌&&◌, not, ◌==◌, ==_iff, Bool-cases, Option-cases, arith,
}
use windows_kernel_events_tr.Prelude.Maps.{put, put-same, put-other}
use windows_kernel_events_tr.Service.Files.{NameMap, map_object_with_path, get_path_by_object}
use windows_kernel_events_tr.Service.Processes.{
  ProcessMap, System, to_lower, get_win32_path, get_image_file_name, add_process, is_child,
  parent_or_zero, update_process_creation_time,
}
use windows_kernel_events_tr.Service.Filters.{overall_event_filter}
use windows_kernel_events_tr.Service.Family.{add_process-is_child}
use windows_kernel_events_tr.Service.Consumer.{
  Guid, Event, Tables, contains, watched, is_watched, as_pid, process_file_io_event,
  process_started, process_process_event, dispatch, process_event, process_events,
}

and_not : (a b c : Bool) → (a && (b && not c)) ≡ true → (a ≡ true) × (c ≡ false)
and_not true true false e = (refl, refl)
and_not true true true e = cc
and_not true false c e = cc
and_not false b c e = cc

-- The time of a process does not change its parents.
is_child_later :
    (ppid pid time : ℕ) (m : ProcessMap)
    → is_child ppid pid (update_process_creation_time pid time m) ≡ is_child ppid pid m
unfolding is_child update_process_creation_time
is_child_later ppid pid time m = elim (Option-cases (m pid)) [
  | inl e ↦ rw (is_child, update_process_creation_time, e, e) refl
  | inr (info, e) ↦
      rw
        (
          is_child,
          update_process_creation_time,
          e,
          put-same pid (record info { creation_time = time }) m,
        )
        refl
]

module _ (system : System) (dir_exist : List ℕ → Bool) where
  -- Every path that an object has is empty, or that of a watched file that was no directory.
  abbrev pub AllWatched : NameMap → Type 0
  AllWatched names =
      (o : ℕ) (path : List ℕ)
      → names o ≡ some path
      → (path ≡ []) ⊎ ((contains (to_lower system watched) path ≡ true) × (dir_exist path ≡ false))

  put-AllWatched :
      (o : ℕ) (path : List ℕ) (names : NameMap)
      → (path ≡ []) ⊎ ((contains (to_lower system watched) path ≡ true) × (dir_exist path ≡ false))
      → AllWatched names
      → AllWatched (put o path names)
  put-AllWatched o path names fine all q found e = elim (Bool-cases (o == q)) [
    | inl same ↦
        let here : put o path names q ≡ some path =
          subst (λ i. put o path names i ≡ some path) ((==_iff o q).0 same)
            (put-same o path names) in
        let both : some path ≡ some found = sym here ∙ e in
        let one : path ≡ found = cc in
        subst
          (λ p. (p ≡ []) ⊎ ((contains (to_lower system watched) p ≡ true) × (dir_exist p ≡ false)))
          one fine
    | inr other ↦ all q found (sym (put-other o q path names other) ∙ e)
  ]

  asked-AllWatched :
      (o : ℕ) (names : NameMap) → AllWatched names → AllWatched (get_path_by_object o names).1
  unfolding get_path_by_object
  asked-AllWatched o names all = elim (Option-cases (names o)) [
    | inr (path, e) ↦ rw (get_path_by_object, e) all
    | inl e ↦ elim (Option-cases (names 0)) [
      | inr (path, e') ↦ rw (get_path_by_object, e, e') all
      | inl e' ↦ rw (get_path_by_object, e, e') (put-AllWatched 0 [] names (inl refl) all)
    ]
  ]

  mapped-AllWatched :
      (o : ℕ) (path : List ℕ) (options : ℕ) (names : NameMap)
      → is_watched system dir_exist path options ≡ true
      → AllWatched names
      → AllWatched (map_object_with_path o path names)
  unfolding map_object_with_path is_watched
  mapped-AllWatched o path options names w all = elim (Bool-cases (o == 0)) [
    | inl null ↦ rw (null) all
    | inr some_object ↦ rw (some_object) (
        put-AllWatched o path names
          (inr (
            and_not (contains (to_lower system watched) path) (not (((options % 2 ^ 24) % 2) == 1))
              (dir_exist path) w))
          all)
  ]

  file_io-AllWatched :
      (event : Event) (tables : Tables)
      → AllWatched tables.names
      → AllWatched (process_file_io_event system dir_exist event tables).names
  unfolding process_file_io_event
  file_io-AllWatched event tables all = elim (Bool-cases (event.type == 64)) [
    | inl create ↦
        let path = get_win32_path system event.open_path in
        elim (Bool-cases (is_watched system dir_exist path event.create_options)) [
          | inl w ↦
              rw (create, w)
                (mapped-AllWatched event.file_object path event.create_options tables.names w all)
          | inr w ↦ rw (create, w) all
        ]
    | inr e ↦ elim (Bool-cases (event.type == 68)) [
      | inl write ↦ elim (Bool-cases (as_pid event.process_id == 4)) [
        | inl kernel ↦ rw (e, write, kernel) all
        | inr user ↦ rw (e, write, user) (asked-AllWatched event.file_object tables.names all)
      ]
      | inr e' ↦ elim (Bool-cases (event.type == 66)) [
        | inl close ↦ rw (e, e', close) (asked-AllWatched event.file_object tables.names all)
        | inr e'' ↦ rw (e, e', e'') all
      ]
    ]
  ]

  process-names :
      (event : Event) (tables : Tables)
      → (process_process_event system dir_exist event tables).names ≡ tables.names
  unfolding process_process_event
  process-names event tables = ground arith

  dispatch-AllWatched :
      (guid : Guid) (event : Event) (tables : Tables)
      → AllWatched tables.names
      → AllWatched (dispatch system dir_exist guid event tables).names
  unfolding dispatch
  dispatch-AllWatched Guid.file_io event tables all = file_io-AllWatched event tables all
  dispatch-AllWatched Guid.process event tables all =
      subst AllWatched (sym (process-names event tables)) all
  dispatch-AllWatched Guid.event_trace event tables all = all
  dispatch-AllWatched Guid.disk_io event tables all = all
  dispatch-AllWatched Guid.page_fault event tables all = all
  dispatch-AllWatched Guid.perf_info event tables all = all
  dispatch-AllWatched Guid.thread event tables all = all
  dispatch-AllWatched Guid.registry event tables all = all
  dispatch-AllWatched Guid.unknown event tables all = all

  event-AllWatched :
      (current_pid : ℕ) (event : Event) (tables : Tables)
      → AllWatched tables.names
      → AllWatched (process_event system dir_exist current_pid event tables).names
  unfolding process_event
  event-AllWatched current_pid event tables all = elim (Bool-cases (event.type == 0)) [
    | inl info ↦ rw (info) all
    | inr e ↦ elim (Bool-cases (overall_event_filter current_pid event.process_id)) [
      | inl handled ↦ rw (e, handled) (dispatch-AllWatched event.guid event tables all)
      | inr filtered ↦ rw (e, filtered) all
    ]
  ]

  -- Whatever events the kernel sends, the name table holds only the paths of watched files, with the
  -- marker in their name and no directory when they were opened, and empty ones, if it held no others
  -- before.
  pub process_events-AllWatched :
      (current_pid : ℕ) (events : List Event) (tables : Tables)
      → AllWatched tables.names
      → AllWatched (process_events system dir_exist current_pid events tables).names
  unfolding process_events
  process_events-AllWatched current_pid [] tables all = all
  process_events-AllWatched current_pid (event ∷ events) tables all =
      process_events-AllWatched current_pid events
        (process_event system dir_exist current_pid event tables)
        (event-AllWatched current_pid event tables all)

  event-started :
      (current_pid : ℕ) (event : Event) (tables : Tables)
      → event.guid ≡ Guid.process
      → event.type ≡ 1
      → overall_event_filter current_pid event.process_id ≡ true
      → (process_event system dir_exist current_pid event tables).processes
        ≡ process_started system dir_exist event tables.processes
  unfolding process_event dispatch process_process_event
  event-started current_pid event tables g ty handled =
      let not_info : (event.type == 0) ≡ false = ground (arith, ty) in
      let start : (event.type == 1) ≡ true = ground (arith, ty) in
      rw (not_info, handled)
        (ap (λ q. (dispatch system dir_exist q event tables).processes) g ∙ rw (start) refl)

  -- After the start of a process, reported by a process that is neither 0 nor the service, the process
  -- is the child of the reporting process and of the parent that the event names, and of no other; the
  -- ids are those of 32 bits, and the parent -1 stands for 0.
  pub process_event-is_child :
      (current_pid : ℕ) (event : Event) (tables : Tables) (ppid : ℕ)
      → event.guid ≡ Guid.process
      → event.type ≡ 1
      → overall_event_filter current_pid event.process_id ≡ true
      → (is_child ppid
            (as_pid event.pid)
            (process_event system dir_exist current_pid event tables).processes
          ≡ true)
        ↔ ((parent_or_zero (as_pid event.process_id) ≡ ppid)
            ⊎ (parent_or_zero (as_pid event.ppid) ≡ ppid))
  unfolding process_started
  process_event-is_child current_pid event tables ppid g ty handled =
      let pid = as_pid event.pid in
      let m1 = (get_image_file_name system pid tables.processes).1 in
      let m2 = (get_image_file_name system (as_pid event.process_id) m1).1 in
      let m3 = (get_image_file_name system (as_pid event.ppid) m2).1 in
      let added = add_process pid (as_pid event.process_id) (as_pid event.ppid) m3 in
      let parents : Type 0 =
        (parent_or_zero (as_pid event.process_id) ≡ ppid)
        ⊎ (parent_or_zero (as_pid event.ppid) ≡ ppid) in
      subst (λ m. (is_child ppid pid m ≡ true) ↔ parents)
        (sym (event-started current_pid event tables g ty handled))
        (subst (λ b. (b ≡ true) ↔ parents) (sym (is_child_later ppid pid event.time_in_ms added))
          (add_process-is_child pid (as_pid event.process_id) (as_pid event.ppid) ppid m3))
