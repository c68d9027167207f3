-- ===== src/Tests/Requests.antt =====
-- The properties of the callbacks of self_defense.cpp on the state of `Callbacks`.
use Prim.Native.Nat.{min}
use windows_kernel_events_tr.Prelude.{
  ℕ, ◌-◌, ◌*◌, ◌^◌, ◌≡◌, ◌↔◌, refl, subst, inl, [], ◌∷◌, some, true, false, arith, Returns, ◌<◌,
}
use windows_kernel_events_tr.Prelude.Bits.{testbit}
use windows_kernel_events_tr.Vector
use windows_kernel_events_tr.Vector.{Vector}
use windows_kernel_events_tr.Memory.{store, copy}
use windows_kernel_events_tr.Strings.{
  String, is_prefix_of, match_at, from_unicode, assign, allocate,
}
use windows_kernel_events_tr.SelfDefense.Model.{
  ProcessInfo, scan_dirs, is_in_protected_directory, is_protected_process, process_created,
}
use windows_kernel_events_tr.SelfDefense.Protection.{Protects}
use windows_kernel_events_tr.SelfDefense.Readiness.{IsReady, IsGuarded}
use windows_kernel_events_tr.SelfDefense.Processes.{answered-IsGuarded}
use windows_kernel_events_tr.SelfDefense.Lifetime.{
  Event, handle_events, IsRecorded, created-IsRecorded, created-stale, child-protected,
}
use windows_kernel_events_tr.SelfDefense.Handles.{ObjectType, Operation, in_grace, pre_ob_callback}
use windows_kernel_events_tr.SelfDefense.Access.{
  IsPastGrace, IsWithin, pre_ob_callback-strips, pre_ob_callback-IsWithin, pre_ob_callback-grants,
}
use windows_kernel_events_tr.SelfDefense.Files.{
  Outcome, Request, Create, Destination, SetInformation, get_file_full_path_name, pre_create_file,
  pre_set_information_file, status_access_denied,
}
use windows_kernel_events_tr.SelfDefense.Guard.{IsAnswered, IsSubject}
use windows_kernel_events_tr.SelfDefense.Denials.{
  pre_create_file-denies, pre_create_file-passes, pre_create_file-overwrites,
  pre_set_information_file-denies, pre_set_information_file-moves,
}
use windows_kernel_events_tr.SelfDefense.Refusals.{IsDecided, IsOpenedToChange, IsChange}
use windows_kernel_events_tr.Tests.{zeros, inner_path, outer_path, inner_name}
use windows_kernel_events_tr.Tests.Callbacks.{
  kernel, kernel-IsTrusted, table, process, state, state-IsReady, inner_name-IsCounted,
}

asks_outer : is_protected_process zeros kernel table 9 state ≡ some (false, state)
unfolding is_protected_process is_in_protected_directory scan_dirs is_prefix_of match_at Vector.at
asks_outer = refl

asks_inner : is_protected_process zeros kernel table 4 state ≡ some (true, state)
unfolding is_protected_process is_in_protected_directory scan_dirs is_prefix_of match_at Vector.at
asks_inner = refl

outer-IsGuarded : IsGuarded zeros kernel kernel-IsTrusted table 9 state → ⊥
outer-IsGuarded g =
    let on : false ≡ true =
      (answered-IsGuarded zeros kernel kernel-IsTrusted table 9 state state false state-IsReady
          asks_outer).1
        g in
    cc

inner-IsGuarded : IsGuarded zeros kernel kernel-IsTrusted table 4 state
inner-IsGuarded =
    (answered-IsGuarded zeros kernel kernel-IsTrusted table 4 state state true state-IsReady
        asks_inner).0
      refl

-- PROCESS_ALL_ACCESS to process 4.
abbrev all_access : Operation
all_access = record {
  kernel_handle = false;
  object_type = ObjectType.process;
  object_pid = 4;
  desired_access = 0x1FFFFF;
}

all_access-IsPastGrace : IsPastGrace zeros kernel kernel-IsTrusted table 9000000 4 state
all_access-IsPastGrace = record {
  recorded = λ info e.
      let same : process 4 inner_path false ≡ info = cc in
      subst (λ i. in_grace 9000000 i.start_time ≡ false) same refl;
  unrecorded = λ e. cc;
}

pre_ob_callback-strips_example :
    Returns (pre_ob_callback zeros kernel table false 9 9000000 all_access state) (λ r.
      IsReady zeros kernel kernel-IsTrusted table r.1
      × ((k : ℕ) → k < 32 → testbit k r.0 ≡ min (testbit k 0x1FFFFF) (1 - testbit k 0xD022F)))
pre_ob_callback-strips_example =
    pre_ob_callback-strips zeros kernel kernel-IsTrusted table 9 9000000 all_access state
      state-IsReady refl refl outer-IsGuarded inner-IsGuarded all_access-IsPastGrace

pre_ob_callback-IsWithin_example :
    Returns (pre_ob_callback zeros kernel table false 9 9000000 all_access state) (λ r.
      IsReady zeros kernel kernel-IsTrusted table r.1
      × IsWithin zeros kernel kernel-IsTrusted table r.0 0x1FFFFF)
pre_ob_callback-IsWithin_example =
    pre_ob_callback-IsWithin zeros kernel kernel-IsTrusted table false 9 9000000 all_access state
      state-IsReady

pre_ob_callback-grants_example :
    Returns
      (pre_ob_callback zeros kernel table false 4 9000000 all_access state)
      (λ r. r.0 ≡ 0x1FFFFF)
pre_ob_callback-grants_example =
    pre_ob_callback-grants zeros kernel kernel-IsTrusted table false 4 9000000 all_access state
      state-IsReady (inl inner-IsGuarded)

created-IsRecorded_example : Returns (process_created zeros kernel table 7 5 200 state) (λ after.
    (info : ProcessInfo) × IsRecorded zeros kernel kernel-IsTrusted table 7 5 200 state after info)
created-IsRecorded_example =
    created-IsRecorded zeros kernel kernel-IsTrusted table 7 5 200 state state-IsReady refl

created-stale_example :
    Returns
      (process_created zeros kernel table 9 5 200 state)
      (λ after. (j : ℕ) → table.find j after.process_map ≡ table.find j state.process_map)
created-stale_example =
    created-stale zeros kernel kernel-IsTrusted table 9 5 200 state (process 9 outer_path false)
      state-IsReady refl

child-protected_example :
    Returns
      (handle_events zeros kernel table
        (Event.created 7 5 200 ∷ Event.checked 9 ∷ Event.exited 5 ∷ [])
        state)
      (λ after. is_protected_process zeros kernel table 7 after ≡ some (true, after))
child-protected_example =
    child-protected zeros kernel kernel-IsTrusted table (Event.checked 9 ∷ Event.exited 5 ∷ []) 7 5
      200 state state-IsReady refl refl (λ e. omega (arith, e), tt)

-- Process 9 asks for "A\x".
abbrev stranger_request : Request
stranger_request = record {
  requestor_kernel = false;
  previous_kernel = false;
  current_pid = 9;
  file_name = record {
    cached_status = 0xC01C0018;
    cached_name = inner_name;
    system_status = 0;
    system_name = inner_name;
  };
}

-- The same, from kernel mode.
abbrev kernel_request : Request
kernel_request = record stranger_request { requestor_kernel = true }

stranger_request-IsAnswered : IsAnswered stranger_request.file_name
stranger_request-IsAnswered = record {
  cached = inner_name-IsCounted;
  system = inner_name-IsCounted;
}

inner_path-named : get_file_full_path_name zeros stranger_request.file_name ≡ some inner_path
unfolding get_file_full_path_name from_unicode assign allocate store copy
inner_path-named = refl

stranger_request-IsSubject :
    IsSubject zeros kernel kernel-IsTrusted table stranger_request state inner_path
stranger_request-IsSubject = record {
  enabled = refl;
  user = refl;
  from_user = refl;
  stranger = outer-IsGuarded;
  named = inner_path-named;
  inside = (refl, inl (120 ∷ [], refl));
}

-- To read and write, and FILE_OVERWRITE_IF to read.
abbrev write_open : Create
write_open = record { desired_access = 3; options = 2 ^ 24 }

abbrev overwrite_if : Create
overwrite_if = record { desired_access = 1; options = 5 * 2 ^ 24 }

pre_create_file-denies_example :
    Returns (pre_create_file zeros kernel table stranger_request write_open state) (λ r.
      IsReady zeros kernel kernel-IsTrusted table r.1 × IsDecided r.0 (IsOpenedToChange write_open))
pre_create_file-denies_example =
    pre_create_file-denies zeros kernel kernel-IsTrusted table stranger_request write_open state
      inner_path state-IsReady stranger_request-IsAnswered stranger_request-IsSubject

pre_create_file-passes_example :
    Returns
      (pre_create_file zeros kernel table kernel_request write_open state)
      (λ r. r.0 ≡ Outcome.pass)
pre_create_file-passes_example =
    pre_create_file-passes zeros kernel kernel-IsTrusted table kernel_request write_open state
      state-IsReady stranger_request-IsAnswered (λ path s. let user : true ≡ false = s.user in cc)

pre_create_file-overwrites_example :
    Returns
      (pre_create_file zeros kernel table stranger_request overwrite_if state)
      (λ r. r.0 ≡ Outcome.pass)
pre_create_file-overwrites_example =
    pre_create_file-overwrites zeros kernel kernel-IsTrusted table stranger_request overwrite_if
      state inner_path state-IsReady stranger_request-IsAnswered stranger_request-IsSubject refl
      refl refl refl

abbrev rename_inside : SetInformation
rename_inside = record { information_class = 10; destination = Destination.found inner_name }

abbrev rename_unnamed : SetInformation
rename_unnamed = record { information_class = 10; destination = Destination.failed false }

pre_set_information_file-moves_example :
    Returns (pre_set_information_file zeros kernel table stranger_request rename_inside state) (λ r.
      (to : String) × (from_unicode zeros inner_name ≡ some to)
      × ((r.0 ≡ Outcome.complete status_access_denied) ↔ Protects state.protected_dirs to))
pre_set_information_file-moves_example =
    pre_set_information_file-moves zeros kernel kernel-IsTrusted table stranger_request
      rename_inside state inner_path inner_name state-IsReady stranger_request-IsAnswered
      stranger_request-IsSubject refl refl refl inner_name-IsCounted

-- The disposition of a file, by which it is deleted.
abbrev disposition : SetInformation
disposition = record { information_class = 13; destination = Destination.failed false }

pre_set_information_file-denies_example :
    Returns
      (pre_set_information_file zeros kernel table stranger_request disposition state)
      (λ r. IsReady zeros kernel kernel-IsTrusted table r.1 × IsDecided r.0 (IsChange 13))
pre_set_information_file-denies_example =
    pre_set_information_file-denies zeros kernel kernel-IsTrusted table stranger_request disposition
      state inner_path state-IsReady stranger_request-IsAnswered stranger_request-IsSubject
      (λ e. absurd (omega arith)) (λ e. absurd (omega arith))
