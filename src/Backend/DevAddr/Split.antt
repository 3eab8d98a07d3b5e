-- ===== src/Backend/DevAddr/Split.antt =====
-- `parseDevAddr` of libbackend/libserver.c by quotients and remainders.
use lo_ra_wan_backend.Base.{
  ℕ, ◌+◌, ◌-◌, ◌*◌, ◌/◌, ◌%◌, ◌^◌, ◌<◌, ◌≡◌, refl, ◌==◌, if◌then◌else◌, arith,
}
use lo_ra_wan_backend.Base.{Option, none, some, bit_and, Bool, ap, ◌∙◌}
use native.Mathlib.Decide.{dec_lt}
use native.Mathlib.Nat.{one-le-pow}
use lo_ra_wan_backend.Base.{◌≤◌}
use lo_ra_wan_backend.Base.Bits.{bit_and_mask, bit_and_shifted, bit_or_concat}
use lo_ra_wan_backend.Backend.DevAddr.{Parsed, parsed, parse_dev_addr}

scaled_eq : (x p m : ℕ) → 0 < m → (x * m == p * m) ≡ (x == p)
scaled_eq x p m h = elim (dec_lt x p) [
  | yes below ↦ let less : x * m < p * m = grind arith in ground arith
  | no above ↦ elim (dec_lt p x) [
    | yes over ↦ let more : p * m < x * m = grind arith in ground arith
    | no under ↦ let same : x ≡ p = omega arith in rw same (ground arith)
  ]
]

-- A test of the top bits.
top_test : (d k w p : ℕ) → (bit_and d ((2 ^ w - 1) * 2 ^ k) == p * 2 ^ k) ≡ (d / 2 ^ k % 2 ^ w == p)
top_test d k w p =
    ap (λ (t : ℕ). t == p * 2 ^ k)
      (bit_and_shifted k d (2 ^ w - 1) ∙ ap (λ (t : ℕ). t * 2 ^ k) (bit_and_mask w (d / 2 ^ k)))
    ∙ scaled_eq (d / 2 ^ k % 2 ^ w) p (2 ^ k) (omega (arith, one-le-pow k 2))

choose :
    {a b : Bool} {x y : Parsed} {r s : Option Parsed}
    → a ≡ b
    → x ≡ y
    → r ≡ s
    → (if a then some x else r) ≡ (if b then some y else s)
choose p q r = λ i. if p i then some (q i) else r i

-- A branch by quotients and remainders: `t` is the type, `shift` the bits of the NwkAddr.
abbrev pub split : ℕ → ℕ → ℕ → ℕ → Parsed
split d t shift id_bits = record {
  net_id = t * 2 ^ 21 + d / 2 ^ shift % 2 ^ id_bits;
  nwk_id = d / 2 ^ shift % 2 ^ id_bits;
  nwk_addr = d % 2 ^ shift;
}

parsed-split :
    (d t shift id_bits : ℕ)
    → 2 ^ id_bits ≤ 2 ^ 21
    → parsed d (t * 2 ^ 21) shift (2 ^ id_bits - 1) (2 ^ shift - 1) ≡ split d t shift id_bits
parsed-split d t shift id_bits h =
    let id : ℕ = d / 2 ^ shift % 2 ^ id_bits in
    let small : id < 2 ^ 21 = omega (arith, one-le-pow id_bits 2) in
    rw (bit_and_mask id_bits (d / 2 ^ shift), bit_and_mask shift d)
      (rw (bit_or_concat 21 t id small))

-- `parse_dev_addr` with the tests and branches so written.
pub parse_dev_addr-split :
    (d : ℕ)
    → parse_dev_addr d ≡ (
        if d / 2 ^ 24 % 2 ^ 8 == 0xfe
        then some (split d 7 7 17)
        else if d / 2 ^ 25 % 2 ^ 7 == 0x7e
        then some (split d 6 10 15)
        else if d / 2 ^ 26 % 2 ^ 6 == 0x3e
        then some (split d 5 13 13)
        else if d / 2 ^ 27 % 2 ^ 5 == 0x1e
        then some (split d 4 16 11)
        else if d / 2 ^ 28 % 2 ^ 4 == 0xe
        then some (split d 3 18 10)
        else if d / 2 ^ 29 % 2 ^ 3 == 6
        then some (split d 2 20 9)
        else if d / 2 ^ 30 % 2 ^ 2 == 2
        then some (split d 1 24 6)
        else if d / 2 ^ 31 % 2 ^ 1 == 0
        then some (split d 0 25 6)
        else none)
unfolding parse_dev_addr
parse_dev_addr-split d = choose (top_test d 24 8 0xfe) (parsed-split d 7 7 17 (omega arith)) (
    choose (top_test d 25 7 0x7e) (parsed-split d 6 10 15 (omega arith)) (
      choose (top_test d 26 6 0x3e) (parsed-split d 5 13 13 (omega arith)) (
        choose (top_test d 27 5 0x1e) (parsed-split d 4 16 11 (omega arith)) (
          choose (top_test d 28 4 0xe) (parsed-split d 3 18 10 (omega arith)) (
            choose (top_test d 29 3 6) (parsed-split d 2 20 9 (omega arith)) (
              choose (top_test d 30 2 2) (parsed-split d 1 24 6 (omega arith))
                (choose (top_test d 31 1 0) (parsed-split d 0 25 6 (omega arith)) refl)))))))
