-- ===== src/Base/Bits/Step.antt =====
-- `bit_and` and `bit_or`, one binary digit at a time.
use Prim.Native.Nat.{
  ℕ, zero, suc, ◌+◌, ◌*◌, ◌/◌, ◌%◌, ◌≤◌, min, max, bit_and, bit_or, digits, bitwise,
  bit_and-bitwise, bit_or-bitwise,
}
use mathlib.Core.Path.{◌≡◌, refl, sym, ◌∙◌, ap}
use native.Mathlib.Omega.{arith}

module _ (rest : ℕ → ℕ) (join : ℕ → ℕ → ℕ) where
  no_digits : (fuel y : ℕ) → digits rest join fuel zero y ≡ rest y
  no_digits zero y = refl
  no_digits (suc fuel) y = refl

  -- Once there is enough fuel, more of it changes nothing.
  more_fuel :
      (big fuel x y : ℕ)
      → x ≤ fuel
      → fuel ≤ big
      → digits rest join big x y ≡ digits rest join fuel x y
  more_fuel big fuel zero y enough more = no_digits big y ∙ sym (no_digits fuel y)
  more_fuel zero fuel (suc x) y enough more = absurd (omega arith)
  more_fuel (suc big) zero (suc x) y enough more = absurd (omega arith)
  more_fuel (suc big) (suc fuel) (suc x) y enough more =
      ap (λ upper. upper * 2 + join (suc x % 2) (y % 2))
        (more_fuel big fuel (suc x / 2) (y / 2) (omega arith) (omega arith))

  lowest_digit :
      (x y : ℕ)
      → bitwise rest join (suc x) y
        ≡ bitwise rest join (suc x / 2) (y / 2) * 2 + join (suc x % 2) (y % 2)
  lowest_digit x y =
      ap (λ upper. upper * 2 + join (suc x % 2) (y % 2))
        (more_fuel x (suc x / 2) (suc x / 2) (y / 2) (omega arith) (omega arith))

pub bit_and_step : (x y : ℕ) → bit_and x y ≡ bit_and (x / 2) (y / 2) * 2 + min (x % 2) (y % 2)
bit_and_step zero y = rw (bit_and-bitwise 0 y, bit_and-bitwise 0 (y / 2)) (omega arith)
bit_and_step (suc x) y =
    bit_and-bitwise (suc x) y
    ∙ lowest_digit (λ _. 0) min x y
    ∙ ap (λ u. u * 2 + min (suc x % 2) (y % 2)) (sym (bit_and-bitwise (suc x / 2) (y / 2)))

pub bit_or_step : (x y : ℕ) → bit_or x y ≡ bit_or (x / 2) (y / 2) * 2 + max (x % 2) (y % 2)
bit_or_step zero y = rw (bit_or-bitwise 0 y, bit_or-bitwise 0 (y / 2)) (omega arith)
bit_or_step (suc x) y =
    bit_or-bitwise (suc x) y
    ∙ lowest_digit (λ low. low) max x y
    ∙ ap (λ u. u * 2 + max (suc x % 2) (y % 2)) (sym (bit_or-bitwise (suc x / 2) (y / 2)))

and_nothing : (fuel x : ℕ) → digits (λ _. 0) min fuel x 0 ≡ 0
and_nothing zero x = refl
and_nothing (suc fuel) zero = refl
and_nothing (suc fuel) (suc x) = omega (arith, and_nothing fuel (suc x / 2))

or_nothing : (fuel x : ℕ) → x ≤ fuel → digits (λ low. low) max fuel x 0 ≡ x
or_nothing zero zero enough = refl
or_nothing zero (suc x) enough = absurd (omega arith)
or_nothing (suc fuel) zero enough = refl
or_nothing (suc fuel) (suc x) enough = omega (arith, or_nothing fuel (suc x / 2) (omega arith))

pub bit_and-zero : (x : ℕ) → bit_and x 0 ≡ 0
bit_and-zero x = bit_and-bitwise x 0 ∙ and_nothing x x

pub bit_or-zero : (x : ℕ) → bit_or x 0 ≡ x
bit_or-zero x = bit_or-bitwise x 0 ∙ or_nothing x x (omega arith)
