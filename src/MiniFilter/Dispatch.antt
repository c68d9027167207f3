-- ===== src/MiniFilter/Dispatch.antt =====
-- The statuses that `MiniFsPreOperation` of MiniFs.cpp keeps for `MiniFsPostOperation`.
use windows_kernel_events_tr.Prelude.{ℕ, ◌≤◌, List, length, Option, some, none}
use windows_kernel_events_tr.Vector.{Vector}
use windows_kernel_events_tr.Vector.Growth.{IsValid}
use windows_kernel_events_tr.MiniFilter.{Entry}

-- A vector whose block has its elements, one for every entry.
pub record IsRoomy {S : Type 0} (entries : List (Entry S)) (p : Vector ℕ) : Type 0 where
  pub valid : IsValid p
  pub room : length entries ≤ p.size

-- The same of a context, if there is one.
abbrev pub IsPrepared : {S : Type 0} → List (Entry S) → Option (Vector ℕ) → Type 0
IsPrepared entries none = Unit {0}
IsPrepared entries (some p) = IsRoomy entries p
