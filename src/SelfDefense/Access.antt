-- ===== src/SelfDefense/Access.antt =====
-- What `PreObCallback` of self_defense.cpp lets through and what it takes away.
use Prim.Native.Nat.{min}
use windows_kernel_events_tr.Prelude.{
  ℕ, ◌-◌, ◌<◌, ◌≤◌, ◌≡◌, ◌⊎◌, ◌↔◌, inl, inr, refl, sym, ap, ◌∙◌, arith, List, [], ◌∷◌, some, none,
  Bool, true, false, ◌||◌, Returns, ◌==◌, Bool-cases, Option-cases,
}
use windows_kernel_events_tr.Prelude.Bits.{
  clear_flag, complement32, testbit, testbit-lt, testbit-zero, testbit-bit_and, HasComplement,
  testbit-clear_flag, same_below, same_below-agree,
}
use windows_kernel_events_tr.Memory.{Element}
use windows_kernel_events_tr.SelfDefense.Table.{Table}
use windows_kernel_events_tr.SelfDefense.Model.{ProcessInfo, Kernel, State}
use windows_kernel_events_tr.SelfDefense.Images.{IsTrusted}
use windows_kernel_events_tr.SelfDefense.Readiness.{IsReady, IsGuarded, IsGuarded-same}
use windows_kernel_events_tr.SelfDefense.Processes.{IsAnswer, is_protected_process-Decides}
use windows_kernel_events_tr.SelfDefense.Handles.{
  ObjectType, Operation, process_rights, thread_rights, clear_flags, strip, target_of, in_grace,
  restrict, pre_ob_callback,
}

-- The rights that an object's type loses, as one mask.
abbrev pub denied : ObjectType → ℕ
denied ObjectType.process = 0xD022F
denied ObjectType.thread = 0xC03B3
denied ObjectType.other = 0

-- A bit after the chain: it survives if no flag of the chain has it.
abbrev pub surviving : List ℕ → ℕ → ℕ
surviving [] k = 1
surviving (flag ∷ flags) k = min (1 - testbit k flag) (surviving flags k)

abbrev pub AllComplements : List ℕ → Type 0
AllComplements [] = Unit {0}
AllComplements (flag ∷ flags) = HasComplement flag × AllComplements flags

testbit-clear_flags :
    (flags : List ℕ) (access k : ℕ)
    → AllComplements flags
    → k < 32
    → testbit k (clear_flags flags access) ≡ min (testbit k access) (surviving flags k)
unfolding clear_flags
testbit-clear_flags [] access k h lt = omega (arith, testbit-lt k access)
testbit-clear_flags (flag ∷ flags) access k h lt = omega (
  arith,
  testbit-clear_flags flags (clear_flag flag access) k h.1 lt,
  testbit-clear_flag flag access k h.0 lt,
)

-- Stripping an access takes the denied rights of the object's type from it, and no other bit.
testbit-strip :
    (t : ObjectType) (access k : ℕ)
    → k < 32
    → testbit k (strip t access) ≡ min (testbit k access) (1 - testbit k (denied t))
unfolding strip same_below
testbit-strip ObjectType.process access k lt =
    testbit-clear_flags process_rights access k every lt
    ∙ ap (min (testbit k access))
        (same_below-agree (surviving process_rights) (λ j. 1 - testbit j 0xD022F) 32 k refl lt)
  where
    every : AllComplements process_rights
    every = (refl, (refl, (refl, (refl, (refl, (refl, (refl, (refl, (refl, tt)))))))))
testbit-strip ObjectType.thread access k lt =
    testbit-bit_and k access (complement32 thread_rights)
    ∙ ap (min (testbit k access)) (
        same_below-agree (λ j. testbit j (complement32 thread_rights)) (λ j. 1 - testbit j 0xC03B3)
          32 k refl lt)
testbit-strip ObjectType.other access k lt = omega (arith, testbit-lt k access, none_denied k)
  where
    none_denied : (j : ℕ) → testbit j 0 ≡ 0
    none_denied j = testbit-zero j

module _ (element : Element ℕ) (kernel : Kernel) (trusted : IsTrusted kernel)
    (table : Table ProcessInfo) where
  open table use {Map, find}

  -- What the callback may leave of an access.
  abbrev pub IsWithin : ℕ → ℕ → Type 0
  IsWithin left access = (k : ℕ) → k < 32 → testbit k left ≤ testbit k access

  strip-IsWithin : (t : ObjectType) (access : ℕ) → IsWithin (strip t access) access
  strip-IsWithin t access k lt = omega (arith, testbit-strip t access k lt)

  restrict-IsWithin :
      (now : ℕ) (op : Operation) (st : State Map)
      → IsWithin (restrict element kernel table now op st) op.desired_access
  unfolding restrict
  restrict-IsWithin now op st = elim (Option-cases (find (target_of op) st.process_map)) [
    | inl e ↦ rw (restrict, e) (strip-IsWithin op.object_type op.desired_access)
    | inr (info, e) ↦ elim (Bool-cases (in_grace now info.start_time)) [
      | inl early ↦ rw (restrict, e, early) (λ k lt. omega arith)
      | inr late ↦ rw (restrict, e, late) (strip-IsWithin op.object_type op.desired_access)
    ]
  ]

  -- The four ways through the callback, by what its checks answer.
  passes-trusted :
      (previous_kernel : Bool) (source now : ℕ) (op : Operation) (st : State Map)
      → (op.kernel_handle || previous_kernel) ≡ true ⊎ (source == target_of op) ≡ true
      → pre_ob_callback element kernel table previous_kernel source now op st
        ≡ some (op.desired_access, st)
  unfolding pre_ob_callback
  passes-trusted previous_kernel source now op st (inl t) = rw (pre_ob_callback, t) refl
  passes-trusted previous_kernel source now op st (inr t) =
      elim (Bool-cases (op.kernel_handle || previous_kernel)) [
        | inl k ↦ rw (pre_ob_callback, k) refl
        | inr k ↦ rw (pre_ob_callback, k, t) refl
      ]

  -- The grace period of the process is over: it started half a second ago or earlier, by the clock
  -- of 64 bits that counts tenths of a microsecond.
  pub record IsPastGrace (now pid : ℕ) (st : State Map) : Type 0 where
    pub recorded :
        (info : ProcessInfo)
        → find pid st.process_map ≡ some info
        → in_grace now info.start_time ≡ false
    pub unrecorded : find pid st.process_map ≡ none → in_grace now 0 ≡ false

  restrict-strips :
      (now : ℕ) (op : Operation) (st after : State Map) (b : Bool)
      → IsPastGrace now (target_of op) st
      → IsAnswer element kernel trusted table (target_of op) st b after
      → restrict element kernel table now op after ≡ strip op.object_type op.desired_access
  unfolding restrict
  restrict-strips now op st after b past answer =
      elim (Option-cases (find (target_of op) st.process_map)) [
        | inl e ↦
            let (info, held, zero_start) = answer.added e in
            rw (restrict, held, zero_start, past.unrecorded e) refl
        | inr (info, e) ↦
            rw (restrict, answer.keeps (target_of op) info e, past.recorded info e) refl
      ]

  refuse : (b : Bool) (P : Type 0) → ((b ≡ true) ↔ P) → (P → ⊥) → b ≡ false
  refuse true P decided never = absurd (never (decided.0 refl))
  refuse false P decided never = refl

  -- From a ready state, on a user-mode request of an unguarded process for a handle to another, guarded
  -- process that is past its grace period, `PreObCallback` returns, and leaves exactly the bits of the access that are
  -- not among the rights denied for the object's type.
  pub pre_ob_callback-strips :
      (source now : ℕ) (op : Operation) (st : State Map)
      → IsReady element kernel trusted table st
      → op.kernel_handle ≡ false
      → (source == target_of op) ≡ false
      → (IsGuarded element kernel trusted table source st → ⊥)
      → IsGuarded element kernel trusted table (target_of op) st
      → IsPastGrace now (target_of op) st
      → Returns (pre_ob_callback element kernel table false source now op st) (λ r.
        IsReady element kernel trusted table r.1
        × ((k : ℕ)
            → k < 32
            → testbit k r.0
              ≡ min (testbit k op.desired_access) (1 - testbit k (denied op.object_type))))
  unfolding pre_ob_callback
  pre_ob_callback-strips source now op st h user apart stranger guarded past =
      let ((b, mid), e, asked) =
        is_protected_process-Decides element kernel trusted table source st h in
      let ((c, after), e', answer) =
        is_protected_process-Decides element kernel trusted table (target_of op) mid asked.ready in
      let same = asked.others (target_of op) apart in
      let off = refuse b _ asked.decides stranger in
      let on = answer.decides.1 (
        IsGuarded-same element kernel trusted table (target_of op) st mid same asked.dirs_same
          guarded) in
      let past_mid : IsPastGrace now (target_of op) mid = record {
        recorded = λ info known. past.recorded info (sym same ∙ known);
        unrecorded = λ absent. past.unrecorded (sym same ∙ absent);
      } in
      (
        (restrict element kernel table now op after, after),
        rw (pre_ob_callback, user, apart, e, off, e', on) refl,
        (
          answer.ready,
          λ k lt.
              rw (restrict-strips now op mid after c past_mid answer)
                (testbit-strip op.object_type op.desired_access k lt),
        ),
      )

  -- `PreObCallback` returns from every ready state, leaves one, and never adds a bit to the access.
  pub pre_ob_callback-IsWithin :
      (previous_kernel : Bool) (source now : ℕ) (op : Operation) (st : State Map)
      → IsReady element kernel trusted table st
      → Returns
          (pre_ob_callback element kernel table previous_kernel source now op st)
          (λ r. IsReady element kernel trusted table r.1 × IsWithin r.0 op.desired_access)
  unfolding pre_ob_callback
  pre_ob_callback-IsWithin previous_kernel source now op st h =
      let ((b, mid), e, asked) =
        is_protected_process-Decides element kernel trusted table source st h in
      let ((c, after), e', answer) =
        is_protected_process-Decides element kernel trusted table (target_of op) mid asked.ready in
      elim (Bool-cases (op.kernel_handle || previous_kernel)) [
        | inl k ↦ ((op.desired_access, st), rw (pre_ob_callback, k) refl, (h, λ _ _. omega arith))
        | inr k ↦ elim (Bool-cases (source == target_of op)) [
          | inl own ↦
              ((op.desired_access, st), rw (pre_ob_callback, k, own) refl, (h, λ _ _. omega arith))
          | inr apart ↦ elim (Bool-cases b) [
            | inl on ↦ (
              (op.desired_access, mid),
              rw (pre_ob_callback, k, apart, e, on) refl,
              (asked.ready, λ _ _. omega arith),
            )
            | inr off ↦ elim (Bool-cases c) [
              | inl on ↦ (
                (restrict element kernel table now op after, after),
                rw (pre_ob_callback, k, apart, e, off, e', on) refl,
                (answer.ready, restrict-IsWithin now op after),
              )
              | inr off' ↦ (
                (op.desired_access, after),
                rw (pre_ob_callback, k, apart, e, off, e', off') refl,
                (answer.ready, λ _ _. omega arith),
              )
            ]
          ]
        ]
      ]

  -- From a ready state `PreObCallback` returns for a guarded process, and for any process that asks for
  -- a handle to one that is not guarded, and grants the access that it asks for.
  pub pre_ob_callback-grants :
      (previous_kernel : Bool) (source now : ℕ) (op : Operation) (st : State Map)
      → IsReady element kernel trusted table st
      → (IsGuarded element kernel trusted table source st
          ⊎ (IsGuarded element kernel trusted table (target_of op) st → ⊥))
      → Returns
          (pre_ob_callback element kernel table previous_kernel source now op st)
          (λ r. r.0 ≡ op.desired_access)
  unfolding pre_ob_callback
  pre_ob_callback-grants previous_kernel source now op st h why =
      let ((b, mid), e, asked) =
        is_protected_process-Decides element kernel trusted table source st h in
      let ((c, after), e', answer) =
        is_protected_process-Decides element kernel trusted table (target_of op) mid asked.ready in
      elim (Bool-cases (op.kernel_handle || previous_kernel)) [
        | inl k ↦ ((op.desired_access, st), rw (pre_ob_callback, k) refl, refl)
        | inr k ↦ elim (Bool-cases (source == target_of op)) [
          | inl own ↦ ((op.desired_access, st), rw (pre_ob_callback, k, own) refl, refl)
          | inr apart ↦ elim (Bool-cases b) [
            | inl on ↦ ((op.desired_access, mid), rw (pre_ob_callback, k, apart, e, on) refl, refl)
            | inr off ↦
                let off' : c ≡ false = elim why [
                  | inl guarded ↦ let on : b ≡ true = asked.decides.1 guarded in cc
                  | inr stranger ↦ refuse c _ answer.decides (λ guarded. stranger (
                      IsGuarded-same element kernel trusted table (target_of op) mid st
                        (sym (asked.others (target_of op) apart)) (sym asked.dirs_same) guarded))
                ] in
                (
                  (op.desired_access, after),
                  rw (pre_ob_callback, k, apart, e, off, e', off') refl,
                  refl,
                )
          ]
        ]
      ]
