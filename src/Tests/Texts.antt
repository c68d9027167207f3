-- ===== src/Tests/Texts.antt =====
-- The properties of string.h at concrete strings.
use windows_kernel_events_tr.Prelude.{◌≡◌, refl, [], ◌∷◌, none, some, arith}
use windows_kernel_events_tr.Strings.{String, has_suffix}
use windows_kernel_events_tr.Strings.Compare.{has_suffix_overruns}

-- Five characters, of which the last is that of the one-character string.
abbrev long : String
long = record { size = 5; elements = some (1 ∷ 2 ∷ 3 ∷ 4 ∷ 5 ∷ 0 ∷ []); space = 5 }

abbrev short : String
short = record { size = 1; elements = some (5 ∷ 0 ∷ []); space = 1 }

has_suffix_overruns_example : has_suffix long short ≡ none
has_suffix_overruns_example =
    has_suffix_overruns long short (record { not_null = refl; fits = omega arith })
      (record { not_null = refl; fits = omega arith }) (omega arith) (omega arith) (omega arith)
