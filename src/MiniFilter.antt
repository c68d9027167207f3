-- ===== src/MiniFilter.antt =====
-- driver/template/MiniFs.cpp: `MiniFsPreOperation` and `MiniFsPostOperation`, which run the
-- callbacks that are registered for an operation's major function, and `AllocCompletionContext` of
-- driver/template/register.cpp. An access outside the block of a vector is a fault, `none`.
pub mod Dispatch
use windows_kernel_events_tr.Prelude.{
  ℕ, zero, suc, ◌^◌, List, [], ◌∷◌, Option, some, none, Bool, true, false, ◌||◌, ◌&&◌, not, length,
  get_elem?, ◌>>=◌, if◌then◌else◌, ◌==◌, ltb,
}
use windows_kernel_events_tr.Memory.{Element, store}
use windows_kernel_events_tr.Vector.{Vector, make, resize}

-- An entry of `kFltFuncVector`; a null function is `none`. A callback before the operation returns
-- a status, and both change the state of the driver.
pub record Entry (S : Type 0) : Type 0 where
  pub irp_mj_function_code : ℕ
  pub pre_func : Option (S → ℕ × S)
  pub post_func : Option (S → S)

-- `FLT_PREOP_SUCCESS_WITH_CALLBACK`, `FLT_PREOP_SUCCESS_NO_CALLBACK`, `FLT_PREOP_COMPLETE`
abbrev pub success_with_callback : ℕ
success_with_callback = 0

abbrev pub success_no_callback : ℕ
success_no_callback = 1

abbrev pub complete : ℕ
complete = 4

module _ {S : Type 0} where
  -- The callback of an entry that is called before the operation, if one is.
  unfoldable pub called_pre : ℕ → Entry S → Option (S → ℕ × S)
  called_pre major entry = if major == entry.irp_mj_function_code then entry.pre_func else none

  -- The loop over the entries from the index on: whether one completed the operation, the statuses
  -- of the context, and the state.
  unfoldable pub run_pre : ℕ → List (Entry S) → ℕ → Vector ℕ → S → Option (Bool × Vector ℕ × S)
  run_pre major [] i p s = some (false, p, s)
  run_pre major (entry ∷ entries) i p s = elim (called_pre major entry) [
    | none ↦ run_pre major entries (suc i) p s
    | some f ↦ do
      let status = (f s).0
      let after = (f s).1
      es ← store p.elements i status
      let kept : Vector ℕ = record p { elements = es }
      elim (status == complete) [
        | true ↦ some (true, kept, after)
        | false ↦ run_pre major entries (suc i) kept after
      ]
  ]

  -- `AllocCompletionContext`, if there is memory for the context.
  unfoldable pub alloc_completion_context :
      Element ℕ → Bool → List (Entry S) → Option (Option (Vector ℕ))
  alloc_completion_context element has_memory entries =
      if has_memory
      then (make element (length entries) >>= λ status. some (some status))
      else some none

  -- The context of an operation: a new one, `none` if there is no memory for it, or the one that is
  -- there already.
  unfoldable pub take_context :
      Element ℕ → Bool → List (Entry S) → Option (Vector ℕ) → Option (Option (Vector ℕ))
  take_context element has_memory entries (some p) = some (some p)
  take_context element has_memory entries none =
      alloc_completion_context element has_memory entries >>= λ allocated. elim allocated [
        | none ↦ some none
        | some p ↦ resize element (length entries) p >>= λ r. some (some r)
      ]

  -- The status, the context that the operation's completion gets, and the state. A context that is
  -- deallocated, or never allocated, is `none`.
  unfoldable pub pre_operation :
      Element ℕ
      → Bool
      → Bool
      → Bool
      → ℕ
      → List (Entry S)
      → Option (Vector ℕ)
      → S
      → Option (ℕ × Option (Vector ℕ) × S)
  pre_operation element has_memory no_file_object requestor_kernel major entries context s =
      if no_file_object
      then some (success_no_callback, context, s)
      else if requestor_kernel
      then some (success_no_callback, context, s)
      else (take_context element has_memory entries context >>= λ taken. elim taken [
        | none ↦ some (success_no_callback, none, s)
        | some p ↦ run_pre major entries zero p s >>= λ r.
            some (if r.0 then (complete, none, r.2) else (success_with_callback, some r.1, r.2))
      ])

  -- The loop over the entries from the index on, which reads the status of an entry that has a
  -- callback for the operation.
  unfoldable pub run_post : ℕ → List (Entry S) → ℕ → Vector ℕ → S → Option S
  run_post major [] i p s = some s
  run_post major (entry ∷ entries) i p s =
      elim (if major == entry.irp_mj_function_code then entry.post_func else none) [
        | none ↦ run_post major entries (suc i) p s
        | some f ↦ do
          status ← get_elem? p.elements i
          let after =
              if not (status == success_no_callback) && not (status == complete) then f s else s
          run_post major entries (suc i) p after
      ]

  -- `NT_SUCCESS(status)` of the operation: the sign bit is off.
  unfoldable pub post_operation : ℕ → ℕ → List (Entry S) → Option (Vector ℕ) → S → Option S
  post_operation io_status major entries none s = some s
  post_operation io_status major entries (some p) s =
      if not (ltb io_status (2 ^ 31)) then some s else run_post major entries zero p s
