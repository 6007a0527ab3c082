-- ===== src/Prelude/Bits.antt =====
-- The binary digits of the native operations, one by one.
use Prim.Native.Nat.{
  ℕ, zero, suc, ◌+◌, ◌*◌, ◌/◌, ◌%◌, ◌≤◌, ◌<◌, min, max, bit_and, bit_or, digits, bit_and-bitwise,
  bit_or-bitwise,
}
use native.Mathlib.Nat.{div-div-eq-div-mul}
use native.Mathlib.Omega.{arith}
use mathlib.Core.Path.{◌≡◌, sym, ap, ◌∙◌}
use cognidns_core.Prelude.Digits.{top}

-- The digit at a position, the lowest at 0.
unfoldable pub bit : ℕ → ℕ → ℕ
bit k n = n / top k % 2

bit-suc : (k n : ℕ) → bit (suc k) n ≡ bit k (n / 2)
unfolding bit
bit-suc k n = ap (λ q. q % 2) (ap (λ m. n / m) (omega arith) ∙ sym (div-div-eq-div-mul n 2 (top k)))

bit-low : (n : ℕ) → bit 0 n ≡ n % 2
unfolding bit
bit-low n = omega arith

bit-zero : (k : ℕ) → bit k 0 ≡ 0
bit-zero zero = bit-low 0
bit-zero (suc k) = bit-suc k 0 ∙ bit-zero k

module _ (z : ℕ → ℕ) (f : ℕ → ℕ → ℕ) (z_digit : (k y : ℕ) → bit k (z y) ≡ f 0 (bit k y))
    (f_digit : (d e : ℕ) → d < 2 → e < 2 → f d e < 2) where
  bit-digits : (k fuel x y : ℕ) → x ≤ fuel → bit k (digits z f fuel x y) ≡ f (bit k x) (bit k y)
  bit-digits k zero zero y h = rw (bit-zero k) (z_digit k y)
  bit-digits k zero (suc x) y h = absurd (omega arith)
  bit-digits k (suc fuel) zero y h = rw (bit-zero k) (z_digit k y)
  bit-digits zero (suc fuel) (suc x) y h =
      let small = f_digit (suc x % 2) (y % 2) (omega arith) (omega arith) in
      rw (bit-low, bit-low, bit-low) (omega arith)
  bit-digits (suc k) (suc fuel) (suc x) y h =
      let small = f_digit (suc x % 2) (y % 2) (omega arith) (omega arith) in
      let rest = digits z f fuel (suc x / 2) (y / 2) in
      let half : (rest * 2 + f (suc x % 2) (y % 2)) / 2 ≡ rest = omega arith in
      bit-suc k (rest * 2 + f (suc x % 2) (y % 2))
      ∙ ap (bit k) half
      ∙ bit-digits k fuel (suc x / 2) (y / 2) (omega arith)
      ∙ sym (
          ap (λ a. f a (bit (suc k) y)) (bit-suc k (suc x))
          ∙ ap (f (bit k (suc x / 2))) (bit-suc k y))

-- The digits of an and are the digits' minimum, those of an or their maximum.
pub bit-bit_and : (k x y : ℕ) → bit k (bit_and x y) ≡ min (bit k x) (bit k y)
bit-bit_and k x y =
    ap (bit k) (bit_and-bitwise x y)
    ∙ bit-digits (λ d. zero) min (λ k y. bit-zero k ∙ omega arith) (λ d e hd he. omega arith) k x x
        y (omega arith)

pub bit-bit_or : (k x y : ℕ) → bit k (bit_or x y) ≡ max (bit k x) (bit k y)
bit-bit_or k x y =
    ap (bit k) (bit_or-bitwise x y)
    ∙ bit-digits (λ d. d) max (λ k y. omega arith) (λ d e hd he. omega arith) k x x y (omega arith)

pub bit-lt : (k n : ℕ) → bit k n < 2
unfolding bit
bit-lt k n = omega arith
