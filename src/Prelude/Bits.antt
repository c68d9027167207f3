-- ===== src/Prelude/Bits.antt =====
-- The bits of a 32-bit word: `testbit k x` is bit k, and the laws of `&` and of `& ~flag`.
use Prim.Native.Nat.{
  ℕ, zero, suc, ◌+◌, ◌-◌, ◌*◌, ◌/◌, ◌%◌, ◌^◌, ◌≤◌, ◌<◌, min, bit_and, digits, bit_and-bitwise,
}
use mathlib.Core.Path.{◌≡◌, ap, refl, ◌∙◌, sym}
use mathlib.Core.Logic.{◌↔◌, inl, inr}
use mathlib.Core.Bool.{Bool, true, false, not}
use native.Mathlib.Omega.{arith}
use windows_kernel_events_tr.Prelude.Tests.{◌==◌, ==_iff, if◌then◌else◌, Bool-cases}

-- Whether two functions agree on the numbers below a bound, by evaluation.
unfoldable pub same_below : (ℕ → ℕ) → (ℕ → ℕ) → ℕ → Bool
same_below f g zero = true
same_below f g (suc n) = if f n == g n then same_below f g n else false

pub same_below-agree : (f g : ℕ → ℕ) (n k : ℕ) → same_below f g n ≡ true → k < n → f k ≡ g k
unfolding same_below
same_below-agree f g zero k e below = absurd (omega arith)
same_below-agree f g (suc n) k e below = elim (Bool-cases (k == n)) [
  | inl top ↦ let here : k ≡ n = (==_iff k n).0 top in rw here (this_one e)
  | inr lower ↦ same_below-agree f g n k (earlier e) (ground arith)
]
  where
    this_one : (if f n == g n then same_below f g n else false) ≡ true → f n ≡ g n
    this_one e = ground arith

    earlier : (if f n == g n then same_below f g n else false) ≡ true → same_below f g n ≡ true
    earlier e = ground arith

abbrev pub testbit : ℕ → ℕ → ℕ
testbit zero x = x % 2
testbit (suc k) x = testbit k (x / 2)

pub testbit-lt : (k x : ℕ) → testbit k x < 2
testbit-lt zero x = omega arith
testbit-lt (suc k) x = testbit-lt k (x / 2)

pub testbit-zero : (k : ℕ) → testbit k 0 ≡ 0
testbit-zero zero = refl
testbit-zero (suc k) = testbit-zero k

-- The native operation runs over the digits of its left argument, with that argument as fuel; each
-- bit is decided by the digit that it belongs to.
testbit-digits :
    (k fuel x y : ℕ)
    → x ≤ fuel
    → testbit k (digits (λ rest. zero) min fuel x y) ≡ min (testbit k x) (testbit k y)
testbit-digits k zero zero y h = omega (arith, testbit-zero k)
testbit-digits k (suc fuel) zero y h = omega (arith, testbit-zero k)
testbit-digits k zero (suc x) y h = absurd (omega arith)
testbit-digits zero (suc fuel) (suc x) y h = omega arith
testbit-digits (suc k) (suc fuel) (suc x) y h =
    ap (testbit k) higher ∙ testbit-digits k fuel (suc x / 2) (y / 2) (omega arith)
  where
    higher :
        (digits (λ rest. zero) min fuel (suc x / 2) (y / 2) * 2 + min (suc x % 2) (y % 2)) / 2
        ≡ digits (λ rest. zero) min fuel (suc x / 2) (y / 2)
    higher = omega arith

pub testbit-bit_and : (k a b : ℕ) → testbit k (bit_and a b) ≡ min (testbit k a) (testbit k b)
testbit-bit_and k a b = ap (testbit k) (bit_and-bitwise a b) ∙ testbit-digits k a a b (omega arith)

-- `FlagOn(x, flag)`: `(x & flag) != 0`.
abbrev pub flag_on : ℕ → ℕ → Bool
flag_on x flag = not (bit_and x flag == 0)

-- `~flag` on 32 bits.
abbrev pub complement32 : ℕ → ℕ
complement32 flag = 2 ^ 32 - 1 - flag

-- `if (x & flag) x &= ~flag;`
abbrev pub clear_flag : ℕ → ℕ → ℕ
clear_flag flag x = if flag_on x flag then bit_and x (complement32 flag) else x

-- Which bits of a word survive, checked bit by bit.
abbrev pub HasComplement : ℕ → Type 0
HasComplement flag =
    same_below (λ k. testbit k (complement32 flag)) (λ k. 1 - testbit k flag) 32 ≡ true

-- A flag that is off leaves no bit of it in the word.
off-testbit : (flag x k : ℕ) → flag_on x flag ≡ false → min (testbit k x) (testbit k flag) ≡ 0
off-testbit flag x k h = sym (testbit-bit_and k x flag) ∙ rw (none_set) (testbit-zero k)
  where
    none_set : bit_and x flag ≡ 0
    none_set = ground arith

-- Clearing a flag clears its bits and leaves the others.
pub testbit-clear_flag :
    (flag x k : ℕ)
    → HasComplement flag
    → k < 32
    → testbit k (clear_flag flag x) ≡ min (testbit k x) (1 - testbit k flag)
testbit-clear_flag flag x k h lt = elim (Bool-cases (flag_on x flag)) [
  | inl on ↦ rw on (testbit-bit_and k x (complement32 flag) ∙ rw survive)
  | inr off ↦ rw off (omega (arith, off-testbit flag x k off, testbit-lt k x, testbit-lt k flag))
]
  where
    survive : testbit k (complement32 flag) ≡ 1 - testbit k flag
    survive = same_below-agree _ _ 32 k h lt

-- A number without bits is zero.
no_bits : (fuel n : ℕ) → n ≤ fuel → ((k : ℕ) → testbit k n ≡ 0) → n ≡ 0
no_bits zero n h none_set = omega arith
no_bits (suc fuel) zero h none_set = refl
no_bits (suc fuel) (suc n) h none_set =
    let half : suc n / 2 ≡ 0 = no_bits fuel (suc n / 2) (omega arith) (λ k. none_set (suc k)) in
    let low = none_set 0 in omega arith

testbit-power : (k : ℕ) → testbit k (2 ^ k) ≡ 1
testbit-power zero = refl
testbit-power (suc k) = let half : 2 ^ suc k / 2 ≡ 2 ^ k = omega arith in rw half (testbit-power k)

testbit-other_power : (j k : ℕ) → (j ≡ k → ⊥) → testbit j (2 ^ k) ≡ 0
testbit-other_power zero zero apart = absurd (apart refl)
testbit-other_power zero (suc k) apart = omega arith
testbit-other_power (suc j) zero apart = testbit-zero j
testbit-other_power (suc j) (suc k) apart =
    let half : 2 ^ suc k / 2 ≡ 2 ^ k = omega arith in
    rw half (testbit-other_power j k (λ e. apart (ap suc e)))

-- `FlagOn` of a single bit tests that bit.
pub flag_on_iff : (x k : ℕ) → (flag_on x (2 ^ k) ≡ true) ↔ (testbit k x ≡ 1)
flag_on_iff x k = (on, off)
  where
    zeros : testbit k x < 1 → (j : ℕ) → testbit j (bit_and x (2 ^ k)) ≡ 0
    zeros clear j = testbit-bit_and j x (2 ^ k) ∙ elim (Bool-cases (j == k)) [
      | inl same ↦ let here : j ≡ k = (==_iff j k).0 same in rw here (omega arith)
      | inr other ↦ let none_here = testbit-other_power j k (λ e. ground arith) in omega arith
    ]

    on : flag_on x (2 ^ k) ≡ true → testbit k x ≡ 1
    on set = elim (Bool-cases (testbit k x == 1)) [
      | inl e ↦ (==_iff (testbit k x) 1).0 e
      | inr clear ↦
          let none_set : bit_and x (2 ^ k) ≡ 0 =
            no_bits (bit_and x (2 ^ k)) (bit_and x (2 ^ k)) (omega arith)
              (zeros (let low = testbit-lt k x in ground arith)) in
          ground arith
    ]

    off : testbit k x ≡ 1 → flag_on x (2 ^ k) ≡ true
    off e = elim (Bool-cases (flag_on x (2 ^ k))) [
      | inl set ↦ set
      | inr clear ↦
          let low = off-testbit (2 ^ k) x k clear in
          let one = testbit-power k in absurd (omega arith)
    ]
