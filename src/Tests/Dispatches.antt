-- ===== src/Tests/Dispatches.antt =====
-- The property of MiniFs.cpp for two entries, of which the first counts its calls.
use windows_kernel_events_tr.Prelude.{ℕ, suc, List, [], ◌∷◌, some, none}
use windows_kernel_events_tr.MiniFilter.{Entry}

abbrev entries : List (Entry ℕ)
entries =
    record { irp_mj_function_code = 0; pre_func = some (λ s. (1, suc s)); post_func = none }
    ∷ record { irp_mj_function_code = 6; pre_func = none; post_func = some (λ s. suc s) }
    ∷ []
