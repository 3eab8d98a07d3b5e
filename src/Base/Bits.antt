-- ===== src/Base/Bits.antt =====
-- Laws of `&`, `|` and `^` that the code's masks, packed fields and key streams rest on.
-- The native operations stand for a recursion on binary digits with fuel; first the fuel goes.
mod Digits
use Digits.{bit_and_digit, bit_or_digit, bit_xor_digit}
use Prim.Native.Nat.{ℕ, zero, suc, ◌+◌, ◌-◌, ◌*◌, ◌/◌, ◌%◌, ◌^◌, ◌≤◌, ◌<◌, bit_and, bit_or, bit_xor}
use mathlib.Core.Path.{◌≡◌, refl, ap, sym, ◌∙◌}
use native.Mathlib.Decide.{dec_lt}
use native.Mathlib.Nat.{pow-suc, one-le-pow, mul_comm, div-div-eq-div-mul}
use native.Mathlib.Omega.{arith}

bit_or-zero_upto : (n a : ℕ) → a ≤ n → bit_or a 0 ≡ a
bit_or-zero_upto n zero h = refl
bit_or-zero_upto zero (suc a) h = absurd (omega arith)
bit_or-zero_upto (suc n) (suc a) h =
    omega (arith, bit_or_digit (suc a) 0, bit_or-zero_upto n (suc a / 2) (omega arith))

bit_and-zero_upto : (n a : ℕ) → a ≤ n → bit_and a 0 ≡ 0
bit_and-zero_upto n zero h = refl
bit_and-zero_upto zero (suc a) h = absurd (omega arith)
bit_and-zero_upto (suc n) (suc a) h =
    omega (arith, bit_and_digit (suc a) 0, bit_and-zero_upto n (suc a / 2) (omega arith))

times_pow-suc : (q k : ℕ) → q * 2 ^ suc k ≡ 2 * (q * 2 ^ k)
times_pow-suc q k = omega (arith, ap (λ (t : ℕ). q * t) (pow-suc 2 k))

-- `(q << k) | r`, where `r` has `k` bits.
pub bit_or_concat : (k q r : ℕ) → r < 2 ^ k → bit_or (q * 2 ^ k) r ≡ q * 2 ^ k + r
bit_or_concat zero q r h = ground (arith, bit_or-zero_upto q q)
bit_or_concat (suc k) q r h = ground (
  arith,
  bit_or_digit (q * 2 ^ suc k) r,
  times_pow-suc q k,
  pow-suc 2 k,
  bit_or_concat k q (r / 2) (omega (arith, pow-suc 2 k)),
)

bit_and_low : (k q r : ℕ) → r < 2 ^ k → bit_and (q * 2 ^ k + r) (2 ^ k - 1) ≡ r
bit_and_low zero q r h = ground (arith, bit_and-zero_upto q q)
bit_and_low (suc k) q r h = ground (
  arith,
  bit_and_digit (q * 2 ^ suc k + r) (2 ^ suc k - 1),
  times_pow-suc q k,
  pow-suc 2 k,
  one-le-pow k 2,
  bit_and_low k q (r / 2) (omega (arith, pow-suc 2 k)),
)

-- `a & (2 ^ k - 1)` keeps the low `k` bits.
pub bit_and_mask : (k a : ℕ) → bit_and a (2 ^ k - 1) ≡ a % 2 ^ k
bit_and_mask k a = ground (arith, one-le-pow k 2, bit_and_low k (a / 2 ^ k) (a % 2 ^ k))

-- `a & (m << k)` masks the bits from `k` on.
pub bit_and_shifted : (k a m : ℕ) → bit_and a (m * 2 ^ k) ≡ bit_and (a / 2 ^ k) m * 2 ^ k
bit_and_shifted zero a m =
    let same : m * 1 ≡ m = omega arith in
    let whole : a / 1 ≡ a = omega arith in rw (same, whole) (omega arith)
bit_and_shifted (suc k) a m =
    let inner : m * 2 ^ suc k / 2 ≡ m * 2 ^ k = omega (arith, times_pow-suc m k) in
    let whole : a / 2 ^ suc k ≡ a / 2 / 2 ^ k =
      ap (λ (t : ℕ). a / t) (pow-suc 2 k ∙ mul_comm (2 ^ k) 2)
      ∙ sym (div-div-eq-div-mul a 2 (2 ^ k)) in
    omega (
      arith,
      bit_and_digit a (m * 2 ^ suc k),
      times_pow-suc m k,
      ap (bit_and (a / 2)) inner,
      bit_and_shifted k (a / 2) m,
      times_pow-suc (bit_and (a / 2 / 2 ^ k) m) k,
      ap (λ (t : ℕ). bit_and t m * 2 ^ suc k) whole,
    )

bit_xor_zeros : (a b : ℕ) → a ≡ 0 → b ≡ 0 → bit_xor (bit_xor a b) b ≡ a
bit_xor_zeros a b p q = rw (p, q)

-- A key stream is taken off as it is put on.
bit_xor_cancel_upto : (n a b : ℕ) → a + b ≤ n → bit_xor (bit_xor a b) b ≡ a
bit_xor_cancel_upto zero zero zero h = refl
bit_xor_cancel_upto zero (suc a) b h = absurd (omega arith)
bit_xor_cancel_upto zero zero (suc b) h = absurd (omega arith)
bit_xor_cancel_upto (suc n) a b h = elim (dec_lt 0 (a + b)) [
  | yes p ↦
      let high : bit_xor a b / 2 ≡ bit_xor (a / 2) (b / 2) = omega (arith, bit_xor_digit a b) in
      let low : bit_xor a b % 2 ≡ (a + b) % 2 = omega (arith, bit_xor_digit a b) in
      omega (
        arith,
        bit_xor_digit (bit_xor a b) b,
        low,
        ap (λ (t : ℕ). bit_xor t (b / 2)) high,
        bit_xor_cancel_upto n (a / 2) (b / 2) (omega arith),
      )
  | no p ↦ bit_xor_zeros a b (omega arith) (omega arith)
]

pub bit_xor_cancel : (a b : ℕ) → bit_xor (bit_xor a b) b ≡ a
bit_xor_cancel a b = bit_xor_cancel_upto (a + b) a b (omega arith)

pub bit_xor-lt : (k a b : ℕ) → a < 2 ^ k → b < 2 ^ k → bit_xor a b < 2 ^ k
bit_xor-lt zero a b p q =
    let a0 : a ≡ 0 = omega arith in let b0 : b ≡ 0 = omega arith in rw (a0, b0) (omega arith)
bit_xor-lt (suc k) a b p q = omega (
  arith,
  bit_xor_digit a b,
  pow-suc 2 k,
  bit_xor-lt k (a / 2) (b / 2) (omega (arith, pow-suc 2 k)) (omega (arith, pow-suc 2 k)),
)

bit_xor_comm_upto : (n a b : ℕ) → a + b ≤ n → bit_xor a b ≡ bit_xor b a
bit_xor_comm_upto zero zero zero h = refl
bit_xor_comm_upto zero (suc a) b h = absurd (omega arith)
bit_xor_comm_upto zero zero (suc b) h = absurd (omega arith)
bit_xor_comm_upto (suc n) a b h = elim (dec_lt 0 (a + b)) [
  | yes p ↦ omega (
    arith,
    bit_xor_digit a b,
    bit_xor_digit b a,
    bit_xor_comm_upto n (a / 2) (b / 2) (omega arith),
  )
  | no p ↦ let a0 : a ≡ 0 = omega arith in let b0 : b ≡ 0 = omega arith in rw (a0, b0)
]

pub bit_xor_comm : (a b : ℕ) → bit_xor a b ≡ bit_xor b a
bit_xor_comm a b = bit_xor_comm_upto (a + b) a b (omega arith)
