-- ===== src/SelfDefense/Guard.antt =====
-- The checks with which `PreCreateFile` and `PreSetInformationFile` of self_defense.cpp begin.
use windows_kernel_events_tr.Prelude.{
  ℕ, ◌≡◌, ◌↔◌, inl, inr, refl, sym, ◌∙◌, subst, Option, some, Bool, true, false, ◌>>=◌, Returns,
  ◌==◌, Bool-cases,
}
use windows_kernel_events_tr.Memory.{Element}
use windows_kernel_events_tr.Strings.{String, UnicodeString, empty_string, from_unicode, assign}
use windows_kernel_events_tr.Strings.Unicode.{
  IsCounted, contents-from_unicode, contents-assign_empty,
}
use windows_kernel_events_tr.SelfDefense.Table.{Table}
use windows_kernel_events_tr.SelfDefense.Model.{ProcessInfo, Kernel, State}
use windows_kernel_events_tr.SelfDefense.Protection.{
  IsSound, IsSound-fits, Protects, is_in_protected_directory-Decides,
}
use windows_kernel_events_tr.SelfDefense.Images.{IsTrusted}
use windows_kernel_events_tr.SelfDefense.Readiness.{IsReady, IsGuarded}
use windows_kernel_events_tr.SelfDefense.Processes.{is_protected_process-Decides}
use windows_kernel_events_tr.SelfDefense.Files.{
  Outcome, FileName, Request, get_file_full_path_name, guard_file, status_success,
  status_flt_name_cache_miss,
}

-- The filter manager's names are counted strings.
pub record IsAnswered (answer : FileName) : Type 0 where
  pub cached : IsCounted answer.cached_name
  pub system : IsCounted answer.system_name

module _ (element : Element ℕ) where
  assigned :
      (u : UnicodeString)
      → IsCounted u
      → Returns (from_unicode element u >>= λ name. assign element empty_string name) IsSound
  assigned u h =
      let (s, e, (allocated, _)) = contents-from_unicode element u h in
      let (r, e', (sound, _)) = contents-assign_empty element s (IsSound-fits s (inr allocated)) in
      (r, rw (e, e') refl, sound)

  -- `GetFileFullPathName` returns, whatever the filter manager answers.
  pub get_file_full_path_name-IsSound :
      (answer : FileName)
      → IsAnswered answer
      → Returns (get_file_full_path_name element answer) IsSound
  unfolding get_file_full_path_name
  get_file_full_path_name-IsSound answer h =
      let nothing : Returns (some empty_string) IsSound = (empty_string, refl, inl refl) in
      elim (Bool-cases (answer.cached_status == status_success)) [
        | inl hit ↦ rw (get_file_full_path_name, hit) (assigned answer.cached_name h.cached)
        | inr miss ↦ elim (Bool-cases (answer.cached_status == status_flt_name_cache_miss)) [
          | inl cold ↦ elim (Bool-cases (answer.system_status == status_success)) [
            | inl hit ↦
                rw (get_file_full_path_name, miss, cold, hit) (assigned answer.system_name h.system)
            | inr failed ↦ rw (get_file_full_path_name, miss, cold, failed) nothing
          ]
          | inr other ↦ rw (get_file_full_path_name, miss, other) nothing
        ]
      ]

module _ (element : Element ℕ) (kernel : Kernel) (trusted : IsTrusted kernel)
    (table : Table ProcessInfo) where
  open table use {Map}

  -- The operation is one that the callbacks look at: protection is on, a user-mode request of a
  -- process that is not guarded, on a path in a protected directory.
  pub record IsSubject (request : Request) (st : State Map) (path : String) : Type 0 where
    pub enabled : st.enable_protect_file ≡ true
    pub user : request.requestor_kernel ≡ false
    pub from_user : request.previous_kernel ≡ false
    pub stranger : IsGuarded element kernel trusted table request.current_pid st → ⊥
    pub named : get_file_full_path_name element request.file_name ≡ some path
    pub inside : Protects st.protected_dirs path

  off : (b : Bool) (P : Type 0) → ((b ≡ true) ↔ P) → (P → ⊥) → b ≡ false
  off true P decided never = absurd (never (decided.0 refl))
  off false P decided never = refl

  -- On such an operation the checks pass it on.
  pub guard-subject :
      (request : Request) (check : State Map → Option Outcome) (st : State Map) (path : String)
      → IsReady element kernel trusted table st
      → IsAnswered request.file_name
      → IsSubject request st path
      → (after : State Map) × IsReady element kernel trusted table after
        × (after.protected_dirs ≡ st.protected_dirs)
        × (guard_file element kernel table request check st
            ≡ (check after >>= λ o. some (o, after)))
  unfolding guard_file
  guard-subject request check st path h named s =
      let ((b, after), e, answer) =
        is_protected_process-Decides element kernel trusted table request.current_pid st h in
      let unguarded = off b _ answer.decides s.stranger in
      let (r, e', sound) = get_file_full_path_name-IsSound element request.file_name named in
      let same : r ≡ path = let both : some r ≡ some path = sym e' ∙ s.named in cc in
      let (c, found, decided) =
        is_in_protected_directory-Decides st.protected_dirs path h.dirs
          (subst IsSound same sound) in
      let inside = decided.1 s.inside in
      (
        after,
        answer.ready,
        answer.dirs_same,
        rw
            (
              guard_file, s.user, s.from_user, e, unguarded, s.named, answer.dirs_same, found,
              inside, s.enabled,
            )
            refl,
      )

  -- Every other operation they let pass.
  pub guard-others :
      (request : Request) (check : State Map → Option Outcome) (st : State Map)
      → IsReady element kernel trusted table st
      → IsAnswered request.file_name
      → ((path : String) → IsSubject request st path → ⊥)
      → Returns (guard_file element kernel table request check st) (λ r. r.0 ≡ Outcome.pass)
  unfolding guard_file
  guard-others request check st h named never =
      let ((b, after), e, answer) =
        is_protected_process-Decides element kernel trusted table request.current_pid st h in
      let (path, e', sound) = get_file_full_path_name-IsSound element request.file_name named in
      let (c, found, decided) =
        is_in_protected_directory-Decides st.protected_dirs path h.dirs sound in
      elim (Bool-cases st.enable_protect_file) [
        | inr disabled ↦ ((Outcome.pass, st), rw (guard_file, disabled) refl, refl)
        | inl enabled ↦ elim (Bool-cases request.requestor_kernel) [
          | inl kernel_mode ↦ ((Outcome.pass, st), rw (guard_file, enabled, kernel_mode) refl, refl)
          | inr user ↦ elim (Bool-cases request.previous_kernel) [
            | inl kernel_mode ↦
                ((Outcome.pass, st), rw (guard_file, enabled, user, kernel_mode) refl, refl)
            | inr from_user ↦ elim (Bool-cases b) [
              | inl on ↦ (
                (Outcome.pass, after),
                rw (guard_file, user, from_user, e, on, enabled) refl,
                refl,
              )
              | inr unguarded ↦ elim (Bool-cases c) [
                | inl in_dir ↦ absurd (
                    never path (record {
                      enabled = enabled;
                      user = user;
                      from_user = from_user;
                      stranger = λ guarded. let on : b ≡ true = answer.decides.1 guarded in cc;
                      named = e';
                      inside = decided.0 in_dir;
                    }))
                | inr outside ↦ (
                  (Outcome.pass, after),
                  rw
                      (
                        guard_file, user, from_user, e, unguarded, e', answer.dirs_same, found,
                        outside, enabled,
                      )
                      refl,
                  refl,
                )
              ]
            ]
          ]
        ]
      ]
