-- ===== src/Etw/Names.antt =====
-- The names of classes and properties in EtwService/include/etw/wmieventclass.cpp, as texts.
use Prim.Native.String.{String}
use text.Mathlib.Text.{◌==◌}
use text.Mathlib.TextPositions.{eq_refl}
use windows_kernel_events_tr.Prelude.{Bool, true, ◌≡◌}

abbrev pub Name : Type 0
Name = String

unfoldable pub same_name : Name → Name → Bool
same_name a b = a == b

pub same_name_refl : (a : Name) → same_name a a ≡ true
unfolding same_name
same_name_refl a = eq_refl a
