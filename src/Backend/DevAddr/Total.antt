-- ===== src/Backend/DevAddr/Total.antt =====
-- Which addresses `parseDevAddr` of libbackend/libserver.c refuses.
use lo_ra_wan_backend.Base.{
  ℕ, ◌+◌, ◌*◌, ◌/◌, ◌%◌, ◌^◌, ◌<◌, ◌≤◌, ◌≡◌, refl, ◌==◌, if◌then◌else◌, arith,
}
use lo_ra_wan_backend.Base.{Option, some, ◌∙◌, sym, Bool, true, false, none, ◌⊎◌, inl, inr}
use native.Mathlib.Decide.{dec_lt}
use mathlib.Core.Path.{subst}
use native.Mathlib.Nat.{one-le-pow}
use lo_ra_wan_backend.Backend.DevAddr.{Parsed, parse_dev_addr}
use lo_ra_wan_backend.Backend.DevAddr.Split.{parse_dev_addr-split, split}
use lo_ra_wan_backend.Backend.DevAddr.Space.{nwk_id_bits}

-- What is returned is a NetID with its NwkID, of the bits of its type.
abbrev pub IsParsed : Option Parsed → Type 0
IsParsed result =
    (r : Parsed) × (result ≡ some r)
    × (r.net_id < 2 ^ 24)
    × (r.nwk_id ≡ r.net_id % 2 ^ 21)
    × (r.nwk_id < 2 ^ nwk_id_bits (r.net_id / 2 ^ 21))

otherwise :
    (b : Bool) {x : Parsed} {rest : Option Parsed}
    → IsParsed (some x)
    → (b ≡ false → IsParsed rest)
    → IsParsed (if b then some x else rest)
otherwise true p q = p
otherwise false p q = q refl

split-IsParsed :
    (d t shift w : ℕ)
    → t < 8
    → w ≡ nwk_id_bits t
    → 2 ^ w ≤ 2 ^ 21
    → IsParsed (some (split d t shift w))
split-IsParsed d t shift w h e small =
    let id : ℕ = d / 2 ^ shift % 2 ^ w in
    let less : id < 2 ^ w = omega (arith, one-le-pow w 2) in
    let kind : (t * 2 ^ 21 + id) / 2 ^ 21 ≡ t = omega arith in
    (split d t shift w, refl, omega arith, omega arith, rw (kind, sym e) less)

assigned : (d : ℕ) → d < 0xff00_0000 → IsParsed (parse_dev_addr d)
assigned d h = subst IsParsed (sym (parse_dev_addr-split d)) (
    otherwise (d / 2 ^ 24 % 2 ^ 8 == 0xfe)
      (split-IsParsed d 7 7 17 (omega arith) refl (omega arith))
      (λ n7.
        otherwise (d / 2 ^ 25 % 2 ^ 7 == 0x7e)
          (split-IsParsed d 6 10 15 (omega arith) refl (omega arith))
          (λ n6.
            otherwise (d / 2 ^ 26 % 2 ^ 6 == 0x3e)
              (split-IsParsed d 5 13 13 (omega arith) refl (omega arith))
              (λ n5.
                otherwise (d / 2 ^ 27 % 2 ^ 5 == 0x1e)
                  (split-IsParsed d 4 16 11 (omega arith) refl (omega arith))
                  (λ n4.
                    otherwise (d / 2 ^ 28 % 2 ^ 4 == 0xe)
                      (split-IsParsed d 3 18 10 (omega arith) refl (omega arith))
                      (λ n3.
                        otherwise (d / 2 ^ 29 % 2 ^ 3 == 6)
                          (split-IsParsed d 2 20 9 (omega arith) refl (omega arith))
                          (λ n2.
                            otherwise (d / 2 ^ 30 % 2 ^ 2 == 2)
                              (split-IsParsed d 1 24 6 (omega arith) refl (omega arith))
                              (λ n1.
                                otherwise (d / 2 ^ 31 % 2 ^ 1 == 0)
                                  (split-IsParsed d 0 25 6 (omega arith) refl (omega arith))
                                  (λ n0.
                                    absurd (ground (arith, n7, n6, n5, n4, n3, n2, n1, n0)))))))))))

-- `parseDevAddr` returns `UINT_MAX` exactly for the addresses from 0xff000000 on; every 32-bit
-- address below has a NetID, whose low bits are the NwkID, and the NwkID is within the bits of its
-- type.
pub parse_dev_addr_total :
    (d : ℕ)
    → d < 2 ^ 32
    → ((d < 0xff00_0000) × IsParsed (parse_dev_addr d))
      ⊎ ((0xff00_0000 ≤ d) × (parse_dev_addr d ≡ none))
parse_dev_addr_total d h = elim (dec_lt d 0xff00_0000) [
  | yes below ↦ inl (below, assigned d below)
  | no above ↦ inr (omega arith, parse_dev_addr-split d ∙ ground arith)
]
