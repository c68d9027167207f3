-- ===== src/Tests.antt =====
-- Concrete blocks, strings and states on which the properties are run.
pub mod Containers
pub mod Texts
pub mod Callbacks
pub mod Requests
pub mod Services
pub mod Dispatches
pub mod Maps
pub mod Events
use windows_kernel_events_tr.Prelude.{ℕ, List, [], ◌∷◌, some, length-replicate, replicate}
use windows_kernel_events_tr.Memory.{Element}
use windows_kernel_events_tr.Vector.{Vector}
use windows_kernel_events_tr.Strings.{String, UnicodeString}

-- Blocks of zeros.
abbrev pub zeros : Element ℕ
zeros = record { blank = 0; block = λ n. replicate n 0; length-block = λ n. length-replicate n 0 }

-- Three numbers in a block of four slots.
abbrev pub three_numbers : Vector ℕ
three_numbers = record { size = 3; elements = 5 ∷ 6 ∷ 7 ∷ 0 ∷ []; space = 4 }

abbrev pub two_numbers : Vector ℕ
two_numbers = record { size = 2; elements = 8 ∷ 9 ∷ []; space = 2 }

-- "A\", "A\x" and "Bx".
abbrev pub dir : String
dir = record { size = 2; elements = some (65 ∷ 92 ∷ 0 ∷ []); space = 2 }

abbrev pub inner_path : String
inner_path = record { size = 3; elements = some (65 ∷ 92 ∷ 120 ∷ 0 ∷ []); space = 3 }

abbrev pub outer_path : String
outer_path = record { size = 2; elements = some (66 ∷ 120 ∷ 0 ∷ []); space = 2 }

abbrev pub inner_name : UnicodeString
inner_name = record { length = 6; maximum_length = 8; buffer = 65 ∷ 92 ∷ 120 ∷ [] }
