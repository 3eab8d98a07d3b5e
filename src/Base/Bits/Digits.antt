-- ===== src/Base/Bits/Digits.antt =====
-- The lowest binary digit of a bit operation apart from the others.
use Prim.Native.Nat.{ℕ, zero, suc, ◌+◌, ◌*◌, ◌/◌, ◌%◌, ◌≤◌, ◌<◌, min, max, digits, bitwise, differ}
use Prim.Native.Nat.{bit_and, bit_or, bit_xor, bit_and-bitwise, bit_or-bitwise, bit_xor-bitwise}
use mathlib.Core.Path.{◌≡◌, refl, ◌∙◌}
use native.Mathlib.Decide.{dec_lt}
use native.Mathlib.Omega.{arith}

module _ (rest : ℕ → ℕ) (pick : ℕ → ℕ → ℕ) where
  -- A round more than the number has digits is not used.
  one_more_round : (k x y : ℕ) → x ≤ k → digits rest pick (suc k) x y ≡ digits rest pick k x y
  one_more_round zero zero y h = refl
  one_more_round (suc k) zero y h = refl
  one_more_round zero (suc x) y h = absurd (omega arith)
  one_more_round (suc k) (suc x) y h =
      omega (arith, one_more_round k (suc x / 2) (y / 2) (omega arith))

  spare_rounds : (k x y : ℕ) → x ≤ k → digits rest pick k x y ≡ bitwise rest pick x y
  spare_rounds zero zero y h = refl
  spare_rounds zero (suc x) y h = absurd (omega arith)
  spare_rounds (suc k) x y h = elim (dec_lt k x) [
    | yes exact ↦ let at : x ≡ suc k = omega arith in rw at
    | no fewer ↦ one_more_round k x y (omega arith) ∙ spare_rounds k x y (omega arith)
  ]

  split_digit :
      (x y : ℕ)
      → bitwise rest pick (suc x) y
        ≡ pick (suc x % 2) (y % 2) + 2 * bitwise rest pick (suc x / 2) (y / 2)
  split_digit x y = omega (arith, spare_rounds x (suc x / 2) (y / 2) (omega arith))

differ-sum : (d e : ℕ) → d < 2 → e < 2 → differ d e ≡ (d + e) % 2
differ-sum zero e h k = omega arith
differ-sum (suc zero) zero h k = refl
differ-sum (suc zero) (suc zero) h k = refl
differ-sum (suc zero) (suc (suc e)) h k = absurd (omega arith)
differ-sum (suc (suc d)) e h k = absurd (omega arith)

pub bit_and_digit : (x y : ℕ) → bit_and x y ≡ min (x % 2) (y % 2) + 2 * bit_and (x / 2) (y / 2)
bit_and_digit zero y = omega (arith, bit_and-bitwise 0 y, bit_and-bitwise 0 (y / 2))
bit_and_digit (suc x) y = omega (
  arith,
  bit_and-bitwise (suc x) y,
  bit_and-bitwise (suc x / 2) (y / 2),
  split_digit (λ z. 0) min x y,
)

pub bit_or_digit : (x y : ℕ) → bit_or x y ≡ max (x % 2) (y % 2) + 2 * bit_or (x / 2) (y / 2)
bit_or_digit zero y = omega (arith, bit_or-bitwise 0 y, bit_or-bitwise 0 (y / 2))
bit_or_digit (suc x) y = omega (
  arith,
  bit_or-bitwise (suc x) y,
  bit_or-bitwise (suc x / 2) (y / 2),
  split_digit (λ z. z) max x y,
)

pub bit_xor_digit : (x y : ℕ) → bit_xor x y ≡ (x + y) % 2 + 2 * bit_xor (x / 2) (y / 2)
bit_xor_digit zero y = omega (arith, bit_xor-bitwise 0 y, bit_xor-bitwise 0 (y / 2))
bit_xor_digit (suc x) y = omega (
  arith,
  bit_xor-bitwise (suc x) y,
  bit_xor-bitwise (suc x / 2) (y / 2),
  split_digit (λ z. z) differ x y,
  differ-sum (suc x % 2) (y % 2) (omega arith) (omega arith),
)
