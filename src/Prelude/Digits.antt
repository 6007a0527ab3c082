-- ===== src/Prelude/Digits.antt =====
-- Bounds on the native operations on binary digits.
use Prim.Native.Nat.{
  ℕ, zero, suc, ◌*◌, ◌/◌, ◌≤◌, ◌<◌, min, max, bit_and, bit_or, digits, bit_and-bitwise,
  bit_or-bitwise,
}
use native.Mathlib.Omega.{arith}
use mathlib.Core.Path.{subst, sym}

-- The powers of two.
abbrev pub top : ℕ → ℕ
top zero = 1
top (suc k) = top k * 2

or_digits-lt : (k fuel x y : ℕ) → x < top k → y < top k → digits (λ d. d) max fuel x y < top k
or_digits-lt k zero x y hx hy = hy
or_digits-lt k (suc fuel) zero y hx hy = hy
or_digits-lt zero (suc fuel) (suc x) y hx hy = absurd (omega arith)
or_digits-lt (suc k) (suc fuel) (suc x) y hx hy =
    omega (arith, or_digits-lt k fuel (suc x / 2) (y / 2) (omega arith) (omega arith))

-- An or of numbers below a power of two is below it.
pub bit_or-lt : (k x y : ℕ) → x < top k → y < top k → bit_or x y < top k
bit_or-lt k x y hx hy =
    subst (λ v. v < top k) (sym (bit_or-bitwise x y)) (or_digits-lt k x x y hx hy)

and_digits-le : (fuel x y : ℕ) → digits (λ d. zero) min fuel x y ≤ y
and_digits-le zero x y = omega arith
and_digits-le (suc fuel) zero y = omega arith
and_digits-le (suc fuel) (suc x) y = omega (arith, and_digits-le fuel (suc x / 2) (y / 2))

-- An and with a mask is at most the mask.
pub bit_and-le : (x y : ℕ) → bit_and x y ≤ y
bit_and-le x y = subst (λ v. v ≤ y) (sym (bit_and-bitwise x y)) (and_digits-le x x y)
