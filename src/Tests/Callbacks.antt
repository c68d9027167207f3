-- ===== src/Tests/Callbacks.antt =====
-- The properties of self_defense.cpp on a concrete state: "A\" is protected, process 4 runs from
-- "A\x", process 9 from "Bx", and process 5 is marked.
use windows_kernel_events_tr.Prelude.{
  ℕ, ◌≡◌, refl, subst, inr, List, [], ◌∷◌, none, some, Bool, true, false, arith, ◌==◌, Returns,
  if◌then◌else◌,
}
use windows_kernel_events_tr.Vector.{Vector}
use windows_kernel_events_tr.Strings.{String, UnicodeString}
use windows_kernel_events_tr.Strings.Compare.{IsAllocated, Decides}
use windows_kernel_events_tr.Strings.Unicode.{IsCounted}
use windows_kernel_events_tr.SelfDefense.Table.{Table, list_table, find_in}
use windows_kernel_events_tr.SelfDefense.Model.{
  ProcessInfo, Kernel, State, is_in_protected_directory, is_protected_process,
}
use windows_kernel_events_tr.SelfDefense.Protection.{
  IsSound, AreDirs, Protects, is_in_protected_directory-Decides,
}
use windows_kernel_events_tr.SelfDefense.Images.{IsTrusted}
use windows_kernel_events_tr.SelfDefense.Readiness.{IsReady}
use windows_kernel_events_tr.SelfDefense.Processes.{IsAnswer, is_protected_process-Decides}
use windows_kernel_events_tr.Tests.{zeros, dir, inner_path, outer_path, inner_name}

dir-IsAllocated : IsAllocated dir
dir-IsAllocated = record { not_null = refl; fits = omega arith }

inner_path-IsAllocated : IsAllocated inner_path
inner_path-IsAllocated = record { not_null = refl; fits = omega arith }

outer_path-IsAllocated : IsAllocated outer_path
outer_path-IsAllocated = record { not_null = refl; fits = omega arith }

-- Every process that the kernel is asked for runs from "A\x".
abbrev pub kernel : Kernel
kernel = record {
  lookup = λ pid. true;
  locate = λ pid. some (some inner_name);
  query_resolved = true;
  open_object = λ pid. true;
  query = λ pid. none;
}

pub inner_name-IsCounted : IsCounted inner_name
inner_name-IsCounted = record { within = omega arith; held = omega arith }

pub kernel-IsTrusted : IsTrusted kernel
kernel-IsTrusted = record { located = λ pid u e. named u e; queried = λ pid u e. cc }
  where
    named : (u : UnicodeString) → some (some inner_name) ≡ some (some u) → IsCounted u
    named u e = let same : inner_name ≡ u = cc in subst IsCounted same inner_name-IsCounted

abbrev pub table : Table ProcessInfo
table = list_table ProcessInfo

abbrev pub dirs : Vector String
dirs = record { size = 1; elements = dir ∷ []; space = 1 }

dirs-AreDirs : AreDirs dirs
dirs-AreDirs = record {
  valid = record { fits = omega arith; real = refl };
  allocated = (dir-IsAllocated, tt);
  none_empty = (λ e. cc, tt);
}

abbrev pub process : ℕ → String → Bool → ProcessInfo
process pid path marked = record {
  pid = pid;
  process_path = path;
  is_protected = marked;
  start_time = 100;
}

abbrev pub state : State (List (ℕ × ProcessInfo))
state = record {
  process_map =
      (4, process 4 inner_path false)
      ∷ (5, process 5 outer_path true)
      ∷ (9, process 9 outer_path false)
      ∷ [];
  protected_dirs = dirs;
  enable_protect_file = true;
}

abbrev AllSound : List (ℕ × ProcessInfo) → Type 0
AllSound [] = Unit {0}
AllSound ((j, info) ∷ m) = IsSound info.process_path × AllSound m

found-IsSound :
    (m : List (ℕ × ProcessInfo))
    → AllSound m
    → (pid : ℕ) (info : ProcessInfo) → find_in pid m ≡ some info
    → IsSound info.process_path
found-IsSound [] h pid info e = cc
found-IsSound ((j, i) ∷ m) h pid info e = choose (j == pid) (found-IsSound m h.1 pid info) e
  where
    choose :
        (b : Bool)
        → (find_in pid m ≡ some info → IsSound info.process_path)
        → (if b then some i else find_in pid m) ≡ some info
        → IsSound info.process_path
    choose true later e = let same : i ≡ info = cc in subst (λ r. IsSound r.process_path) same h.0
    choose false later e = later e

pub state-IsReady : IsReady zeros kernel kernel-IsTrusted table state
state-IsReady = record {
  dirs = dirs-AreDirs;
  cached = λ pid info e. found-IsSound state.process_map every pid info e;
}
  where
    every : AllSound state.process_map
    every =
        (inr inner_path-IsAllocated, (inr outer_path-IsAllocated, (inr outer_path-IsAllocated, tt)))

is_in_protected_directory-Decides_example :
    Decides (is_in_protected_directory dirs inner_path) (Protects dirs inner_path)
is_in_protected_directory-Decides_example =
    is_in_protected_directory-Decides dirs inner_path dirs-AreDirs (inr inner_path-IsAllocated)

is_protected_process-Decides_example :
    Returns
      (is_protected_process zeros kernel table 9 state)
      (λ r. IsAnswer zeros kernel kernel-IsTrusted table 9 state r.0 r.1)
is_protected_process-Decides_example =
    is_protected_process-Decides zeros kernel kernel-IsTrusted table 9 state state-IsReady
