-- ===== src/Prelude/Maps.antt =====
-- Maps with numbers for keys, as functions.
use Prim.Native.Nat.{ℕ}
use mathlib.Core.Path.{◌≡◌, refl}
use mathlib.Core.Bool.{false}
use mathlib.Core.Option.{Option, none, some}
use windows_kernel_events_tr.Prelude.Tests.{◌==◌, ==_iff, if◌then◌else◌}

module _ {V : Type 0} where
  abbrev pub empty_map : ℕ → Option V
  empty_map k = none

  -- `map[k] = v`
  unfoldable pub put : ℕ → V → (ℕ → Option V) → ℕ → Option V
  put k v m j = if k == j then some v else m j

  -- `map.erase(k)`
  unfoldable pub remove : ℕ → (ℕ → Option V) → ℕ → Option V
  remove k m j = if k == j then none else m j

  pub put-same : (k : ℕ) (v : V) (m : ℕ → Option V) → put k v m k ≡ some v
  unfolding put
  put-same k v m = rw ((==_iff k k).1 refl) refl

  pub put-other : (k j : ℕ) (v : V) (m : ℕ → Option V) → (k == j) ≡ false → put k v m j ≡ m j
  unfolding put
  put-other k j v m h = rw h refl

  pub remove-same : (k : ℕ) (m : ℕ → Option V) → remove k m k ≡ none
  unfolding remove
  remove-same k m = rw ((==_iff k k).1 refl) refl

  pub remove-other : (k j : ℕ) (m : ℕ → Option V) → (k == j) ≡ false → remove k m j ≡ m j
  unfolding remove
  remove-other k j m h = rw h refl
