-- ===== src/Backend/DevAddr/Space.antt =====
-- The addresses of a network, and that `parseDevAddr` gives their NetID back
-- (libbackend/libserver.c, network_server/fNS.c).
use lo_ra_wan_backend.Base.{
  ℕ, zero, suc, ◌+◌, ◌*◌, ◌/◌, ◌%◌, ◌^◌, ◌<◌, ◌≤◌, ◌≡◌, refl, ◌==◌, ltb, if◌then◌else◌, u32, arith,
}
use lo_ra_wan_backend.Base.{some, bit_and, bit_or, ap, ◌∙◌}
use lo_ra_wan_backend.Base.Bits.{bit_and_mask, bit_or_concat}
use lo_ra_wan_backend.Backend.DevAddr.{
  parse_dev_addr, AddressSpace, address_space, dev_addr_of, space,
}
use lo_ra_wan_backend.Backend.DevAddr.Types.{
  parse_type0, parse_type1, parse_type2, parse_type3, parse_type4, parse_type5, parse_type6,
  parse_type7,
}

-- The bits of the NwkID of a type.
abbrev pub nwk_id_bits : ℕ → ℕ
nwk_id_bits t =
    if ltb t 2
    then 6
    else if t == 2
    then 9
    else if t == 3
    then 10
    else if t == 4
    then 11
    else if t == 5
    then 13
    else if t == 6
    then 15
    else 17

-- The three parts of an address side by side: `k` is the bits below the prefix.
joined :
    (p k bits q id n : ℕ)
    → p * 2 ^ k ≡ q * 2 ^ bits
    → id * 2 ^ bits < 2 ^ k
    → 2 ^ k ≤ 2 ^ 32
    → n < 2 ^ bits
    → bit_or (bit_or (p * 2 ^ k) (u32 (id * 2 ^ bits))) n ≡ p * 2 ^ k + id * 2 ^ bits + n
joined p k bits q id n same small word low =
    let whole : u32 (id * 2 ^ bits) ≡ id * 2 ^ bits = omega arith in
    let base : bit_or (p * 2 ^ k) (id * 2 ^ bits) ≡ (q + id) * 2 ^ bits =
      omega (arith, bit_or_concat k p (id * 2 ^ bits) small) in
    rw (whole, base) (omega (arith, bit_or_concat bits (q + id) n low))

-- The network owns addresses, and each of them is parsed to its NetID.
pub record Owns (network_id : ℕ) : Type 0 where
  pub addresses : AddressSpace
  pub returns : address_space network_id ≡ some addresses
  pub parses :
      (nwk_addr : ℕ)
      → nwk_addr < 2 ^ addresses.nwk_addr_bits
      → parse_dev_addr (dev_addr_of addresses nwk_addr)
        ≡ some (record { net_id = network_id; nwk_id = network_id % 2 ^ 21; nwk_addr = nwk_addr })

Owns-type0 :
    (network_id : ℕ) → network_id / 2 ^ 21 ≡ 0 → network_id % 2 ^ 21 < 2 ^ 6 → Owns network_id
unfolding address_space
Owns-type0 network_id kind small =
    let id : ℕ = network_id % 2 ^ 21 in
    let part : bit_and network_id 0x3f ≡ id = omega (arith, bit_and_mask 6 network_id) in
    record {
      addresses = record {
        dev_addr_base = bit_or 0x0000_0000 (u32 (id * 2 ^ 25));
        nwk_addr_bits = 25;
      };
      returns = rw kind (ap (λ (i : ℕ). space i 0x0000_0000 25) part);
      parses = λ n low.
          rw (joined 0 31 25 0 id n (omega arith) (omega arith) (omega arith) low)
            (parse_type0 _ id n refl small low ∙ ground arith);
    }

Owns-type1 :
    (network_id : ℕ) → network_id / 2 ^ 21 ≡ 1 → network_id % 2 ^ 21 < 2 ^ 6 → Owns network_id
unfolding address_space
Owns-type1 network_id kind small =
    let id : ℕ = network_id % 2 ^ 21 in
    let part : bit_and network_id 0x3f ≡ id = omega (arith, bit_and_mask 6 network_id) in
    record {
      addresses = record {
        dev_addr_base = bit_or 0x8000_0000 (u32 (id * 2 ^ 24));
        nwk_addr_bits = 24;
      };
      returns = rw kind (ap (λ (i : ℕ). space i 0x8000_0000 24) part);
      parses = λ n low.
          rw (joined 2 30 24 128 id n (omega arith) (omega arith) (omega arith) low)
            (parse_type1 _ id n refl small low ∙ ground arith);
    }

Owns-type2 :
    (network_id : ℕ) → network_id / 2 ^ 21 ≡ 2 → network_id % 2 ^ 21 < 2 ^ 9 → Owns network_id
unfolding address_space
Owns-type2 network_id kind small =
    let id : ℕ = network_id % 2 ^ 21 in
    let part : bit_and network_id 0x1ff ≡ id = omega (arith, bit_and_mask 9 network_id) in
    record {
      addresses = record {
        dev_addr_base = bit_or 0xc000_0000 (u32 (id * 2 ^ 20));
        nwk_addr_bits = 20;
      };
      returns = rw kind (ap (λ (i : ℕ). space i 0xc000_0000 20) part);
      parses = λ n low.
          rw (joined 6 29 20 3072 id n (omega arith) (omega arith) (omega arith) low)
            (parse_type2 _ id n refl small low ∙ ground arith);
    }

Owns-type3 :
    (network_id : ℕ) → network_id / 2 ^ 21 ≡ 3 → network_id % 2 ^ 21 < 2 ^ 10 → Owns network_id
unfolding address_space
Owns-type3 network_id kind small =
    let id : ℕ = network_id % 2 ^ 21 in
    let part : bit_and network_id 0x1fffff ≡ id = omega (arith, bit_and_mask 21 network_id) in
    record {
      addresses = record {
        dev_addr_base = bit_or 0xe000_0000 (u32 (id * 2 ^ 18));
        nwk_addr_bits = 18;
      };
      returns = rw kind (ap (λ (i : ℕ). space i 0xe000_0000 18) part);
      parses = λ n low.
          rw (joined 14 28 18 14336 id n (omega arith) (omega arith) (omega arith) low)
            (parse_type3 _ id n refl small low ∙ ground arith);
    }

Owns-type4 :
    (network_id : ℕ) → network_id / 2 ^ 21 ≡ 4 → network_id % 2 ^ 21 < 2 ^ 11 → Owns network_id
unfolding address_space
Owns-type4 network_id kind small =
    let id : ℕ = network_id % 2 ^ 21 in
    let part : bit_and network_id 0x1fffff ≡ id = omega (arith, bit_and_mask 21 network_id) in
    record {
      addresses = record {
        dev_addr_base = bit_or 0xf000_0000 (u32 (id * 2 ^ 16));
        nwk_addr_bits = 16;
      };
      returns = rw kind (ap (λ (i : ℕ). space i 0xf000_0000 16) part);
      parses = λ n low.
          rw (joined 30 27 16 61440 id n (omega arith) (omega arith) (omega arith) low)
            (parse_type4 _ id n refl small low ∙ ground arith);
    }

Owns-type5 :
    (network_id : ℕ) → network_id / 2 ^ 21 ≡ 5 → network_id % 2 ^ 21 < 2 ^ 13 → Owns network_id
unfolding address_space
Owns-type5 network_id kind small =
    let id : ℕ = network_id % 2 ^ 21 in
    let part : bit_and network_id 0x1fffff ≡ id = omega (arith, bit_and_mask 21 network_id) in
    record {
      addresses = record {
        dev_addr_base = bit_or 0xf800_0000 (u32 (id * 2 ^ 13));
        nwk_addr_bits = 13;
      };
      returns = rw kind (ap (λ (i : ℕ). space i 0xf800_0000 13) part);
      parses = λ n low.
          rw (joined 62 26 13 507904 id n (omega arith) (omega arith) (omega arith) low)
            (parse_type5 _ id n refl small low ∙ ground arith);
    }

Owns-type6 :
    (network_id : ℕ) → network_id / 2 ^ 21 ≡ 6 → network_id % 2 ^ 21 < 2 ^ 15 → Owns network_id
unfolding address_space
Owns-type6 network_id kind small =
    let id : ℕ = network_id % 2 ^ 21 in
    let part : bit_and network_id 0x1fffff ≡ id = omega (arith, bit_and_mask 21 network_id) in
    record {
      addresses = record {
        dev_addr_base = bit_or 0xfc00_0000 (u32 (id * 2 ^ 10));
        nwk_addr_bits = 10;
      };
      returns = rw kind (ap (λ (i : ℕ). space i 0xfc00_0000 10) part);
      parses = λ n low.
          rw (joined 126 25 10 4128768 id n (omega arith) (omega arith) (omega arith) low)
            (parse_type6 _ id n refl small low ∙ ground arith);
    }

Owns-type7 :
    (network_id : ℕ) → network_id / 2 ^ 21 ≡ 7 → network_id % 2 ^ 21 < 2 ^ 17 → Owns network_id
unfolding address_space
Owns-type7 network_id kind small =
    let id : ℕ = network_id % 2 ^ 21 in
    let part : bit_and network_id 0x1fffff ≡ id = omega (arith, bit_and_mask 21 network_id) in
    record {
      addresses = record {
        dev_addr_base = bit_or 0xfe00_0000 (u32 (id * 2 ^ 7));
        nwk_addr_bits = 7;
      };
      returns = rw kind (ap (λ (i : ℕ). space i 0xfe00_0000 7) part);
      parses = λ n low.
          rw (joined 254 24 7 33292288 id n (omega arith) (omega arith) (omega arith) low)
            (parse_type7 _ id n refl small low ∙ ground arith);
    }

case_type :
    (t network_id : ℕ)
    → network_id / 2 ^ 21 ≡ t
    → t < 8
    → network_id % 2 ^ 21 < 2 ^ nwk_id_bits t
    → Owns network_id
case_type zero x e h fits = Owns-type0 x e fits
case_type (suc zero) x e h fits = Owns-type1 x e fits
case_type (suc (suc zero)) x e h fits = Owns-type2 x e fits
case_type (suc (suc (suc zero))) x e h fits = Owns-type3 x e fits
case_type (suc (suc (suc (suc zero)))) x e h fits = Owns-type4 x e fits
case_type (suc (suc (suc (suc (suc zero))))) x e h fits = Owns-type5 x e fits
case_type (suc (suc (suc (suc (suc (suc zero)))))) x e h fits = Owns-type6 x e fits
case_type (suc (suc (suc (suc (suc (suc (suc zero))))))) x e h fits = Owns-type7 x e fits
case_type (suc (suc (suc (suc (suc (suc (suc (suc t)))))))) x e h fits = absurd (omega arith)

-- For every NetID of 24 bits, whose NwkID fits its type, `fNS_init` finds an address base; the
-- address that it makes of any NwkAddr within the NwkAddr's bits is parsed by `parseDevAddr` to
-- that NetID, its NwkID and that NwkAddr.
pub parse_dev_addr-address_space :
    (network_id : ℕ)
    → network_id < 2 ^ 24
    → network_id % 2 ^ 21 < 2 ^ nwk_id_bits (network_id / 2 ^ 21)
    → Owns network_id
parse_dev_addr-address_space network_id size fits =
    case_type (network_id / 2 ^ 21) network_id refl (omega arith) fits
