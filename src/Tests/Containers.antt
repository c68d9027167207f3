-- ===== src/Tests/Containers.antt =====
-- The properties of vector.h at concrete vectors.
use windows_kernel_events_tr.Prelude.{◌≡◌, refl, [], ◌∷◌, none, true, arith, Returns, ◌>>=◌}
use mathlib.Core.List.{Perm}
use windows_kernel_events_tr.Vector.{contents, push_back, erase_unordered, erase, clear}
use windows_kernel_events_tr.Vector.Growth.{IsValid, contents-push_back}
use windows_kernel_events_tr.Vector.Removal.{erase_unordered-perm}
use windows_kernel_events_tr.Vector.Erasure.{erase-inner}
use windows_kernel_events_tr.Vector.Defects.{push_all, clear_then_push_overruns}
use windows_kernel_events_tr.Tests.{zeros, three_numbers, two_numbers}

three_numbers-IsValid : IsValid three_numbers
three_numbers-IsValid = record { fits = omega arith; real = refl }

two_numbers-IsValid : IsValid two_numbers
two_numbers-IsValid = record { fits = omega arith; real = refl }

contents-push_back_example :
    Returns (push_back zeros 1 two_numbers) (λ r. IsValid r × (contents r ≡ 8 ∷ 9 ∷ 1 ∷ []))
contents-push_back_example =
    contents-push_back zeros 1 two_numbers two_numbers-IsValid (omega arith)

erase_unordered-perm_example :
    Returns
      (erase_unordered zeros 0 three_numbers)
      (λ r. (r.0 ≡ true) × IsValid r.1 × Perm (5 ∷ 6 ∷ 7 ∷ []) (5 ∷ contents r.1))
erase_unordered-perm_example =
    erase_unordered-perm zeros three_numbers 0 5 three_numbers-IsValid (omega arith) refl

erase-inner_example :
    Returns
      (erase zeros 0 three_numbers)
      (λ r. (r.0 ≡ true) × IsValid r.1 × (contents r.1 ≡ 6 ∷ 6 ∷ []))
erase-inner_example = erase-inner zeros three_numbers 0 three_numbers-IsValid (omega arith)

clear_then_push_overruns_example :
    (clear zeros two_numbers >>= push_all zeros (1 ∷ 2 ∷ 3 ∷ [])) ≡ none
clear_then_push_overruns_example =
    clear_then_push_overruns zeros two_numbers (1 ∷ 2 ∷ 3 ∷ []) two_numbers-IsValid (omega arith)
      (omega arith) (omega arith)
