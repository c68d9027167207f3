-- ===== src/SelfDefense/Handles.antt =====
-- `PreObCallback` of self_defense.cpp: which accesses a handle to a process or a thread is granted.
use Prim.Native.Nat.{bit_and}
use windows_kernel_events_tr.Prelude.{
  ℕ, ◌+◌, ◌-◌, ◌%◌, ◌^◌, List, [], ◌∷◌, Option, some, none, Bool, ◌||◌, not, ◌>>=◌, if◌then◌else◌,
  ◌==◌, ltb,
}
use windows_kernel_events_tr.Prelude.Bits.{clear_flag, complement32}
use windows_kernel_events_tr.Memory.{Element}
use windows_kernel_events_tr.SelfDefense.Table.{Table}
use windows_kernel_events_tr.SelfDefense.Model.{ProcessInfo, Kernel, State, is_protected_process}

-- `ObjectType` of `OB_PRE_OPERATION_INFORMATION`, with the process of the object.
pub data ObjectType : Type 0 where
  process : ObjectType
  thread : ObjectType
  other : ObjectType

-- `OB_PRE_OPERATION_INFORMATION`, and the process that the object is or belongs to.
pub record Operation : Type 0 where
  pub kernel_handle : Bool
  pub object_type : ObjectType
  pub object_pid : ℕ
  pub desired_access : ℕ

-- `PROCESS_TERMINATE`, `PROCESS_CREATE_THREAD`, `PROCESS_SET_SESSIONID`, `PROCESS_VM_OPERATION`,
-- `PROCESS_VM_WRITE`, `PROCESS_SET_INFORMATION`, `DELETE`, `WRITE_DAC`, `WRITE_OWNER`.
abbrev pub process_rights : List ℕ
process_rights = 0x1 ∷ 0x2 ∷ 0x4 ∷ 0x8 ∷ 0x20 ∷ 0x200 ∷ 0x10000 ∷ 0x40000 ∷ 0x80000 ∷ []

-- `THREAD_DIRECT_IMPERSONATION`, `THREAD_IMPERSONATE`, `THREAD_SET_CONTEXT`,
-- `THREAD_SET_INFORMATION`, `THREAD_SET_THREAD_TOKEN`, `THREAD_SUSPEND_RESUME`,
-- `THREAD_TERMINATE`, `WRITE_DAC` and `WRITE_OWNER`, which have no bit in common.
abbrev pub thread_rights : ℕ
thread_rights = 0x200 + 0x100 + 0x10 + 0x20 + 0x80 + 0x2 + 0x1 + 0x40000 + 0x80000

-- The chain `if (desired_access & flag) desired_access &= ~flag;`
unfoldable pub clear_flags : List ℕ → ℕ → ℕ
clear_flags [] access = access
clear_flags (flag ∷ flags) access = clear_flags flags (clear_flag flag access)

unfoldable pub strip : ObjectType → ℕ → ℕ
strip ObjectType.process access = clear_flags process_rights access
strip ObjectType.thread access = bit_and access (complement32 thread_rights)
strip ObjectType.other access = access

-- `target_pid`; an object of neither type leaves it at 0.
abbrev pub target_of : Operation → ℕ
target_of op = elim op.object_type [
  | ObjectType.process ↦ op.object_pid
  | ObjectType.thread ↦ op.object_pid
  | ObjectType.other ↦ 0
]

-- `(ULONG64)(curr_time - start_time) < 5000000`
abbrev pub in_grace : ℕ → ℕ → Bool
in_grace now start = ltb ((now + 2 ^ 64 - start) % 2 ^ 64) 5000000

module _ (element : Element ℕ) (kernel : Kernel) (table : Table ProcessInfo) where
  open table use {Map, find}

  -- What is left of the access past the checks: `now` is the time that `KeQuerySystemTime` gives.
  unfoldable pub restrict : ℕ → Operation → State Map → ℕ
  restrict now op st = elim (find (target_of op) st.process_map) [
    | some info ↦
        if in_grace now info.start_time
        then op.desired_access
        else strip op.object_type op.desired_access
    | none ↦ strip op.object_type op.desired_access
  ]

  -- The callback, as the access that it leaves and the state; `previous_kernel` is whether
  -- `ExGetPreviousMode() == KernelMode`, `source_pid` the current process.
  unfoldable pub pre_ob_callback : Bool → ℕ → ℕ → Operation → State Map → Option (ℕ × State Map)
  pre_ob_callback previous_kernel source_pid now op st =
      if op.kernel_handle || previous_kernel
      then some (op.desired_access, st)
      else if source_pid == target_of op
      then some (op.desired_access, st)
      else (is_protected_process element kernel table source_pid st >>= λ source.
          if source.0
          then some (op.desired_access, source.1)
          else (is_protected_process element kernel table (target_of op) source.1 >>= λ target.
              if not target.0
              then some (op.desired_access, target.1)
              else some (restrict now op target.1, target.1)))
