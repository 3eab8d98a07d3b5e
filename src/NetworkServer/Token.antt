-- ===== src/NetworkServer/Token.antt =====
-- The token that goes with an uplink and comes back with its downlink: `ULToken_t` of
-- network_server/ns.h, its text in `fNS_uplink_direct` and the reading of it in `fNS_downlink`, both of
-- network_server/fNS.c.
use lo_ra_wan_backend.Base.{
  ℕ, zero, suc, ◌+◌, ◌*◌, ◌/◌, ◌%◌, ◌^◌, ◌<◌, ◌≡◌, refl, ap, arith, u8, Option, none, some, ◌>>=◌,
}
use lo_ra_wan_backend.Base.{List, [], ◌∷◌, ◌++◌, get_or, length, All}
use lo_ra_wan_backend.Backend.Hex.{get_int, to_hex, get_int-hex_digit}

-- The file descriptor of the gateway is not negative.
pub record Token : Type 0 where
  pub fd : ℕ
  pub count_us : ℕ
  pub seconds_at_beacon : ℕ
  pub tstamp_at_beacon : ℕ
  pub lgw_trigcnt_at_next_beacon : ℕ
  pub beacon_ch : ℕ

abbrev pub le4 : ℕ → List ℕ
le4 n = u8 n ∷ u8 (n / 2 ^ 8) ∷ u8 (n / 2 ^ 16) ∷ u8 (n / 2 ^ 24) ∷ []

abbrev pub from_le4 : List ℕ → ℕ → ℕ
from_le4 o i =
    get_or o i 0
    + get_or o (i + 1) 0 * 2 ^ 8
    + get_or o (i + 2) 0 * 2 ^ 16
    + get_or o (i + 3) 0 * 2 ^ 24

abbrev pub token_size : ℕ
token_size = 21

pub token_octets : Token → List ℕ
token_octets t =
    le4 t.fd
    ++ (le4 t.count_us
        ++ (le4 t.seconds_at_beacon
            ++ (le4 t.tstamp_at_beacon
                ++ (le4 t.lgw_trigcnt_at_next_beacon ++ u8 t.beacon_ch ∷ []))))

pub from_octets : List ℕ → Token
from_octets o = record {
  fd = from_le4 o 0;
  count_us = from_le4 o 4;
  seconds_at_beacon = from_le4 o 8;
  tstamp_at_beacon = from_le4 o 12;
  lgw_trigcnt_at_next_beacon = from_le4 o 16;
  beacon_ch = get_or o 20 0;
}

-- The text, without the NUL.
unfoldable pub token_text : Token → List ℕ
unfolding token_octets
token_text t = to_hex (token_octets t)

-- `sscanf("%02x")` once for each octet; `none` is a text whose token_octets are not written with two
-- digits each, which is not modelled.
pub scan_octets : ℕ → List ℕ → Option (List ℕ)
scan_octets zero text = some []
scan_octets (suc n) [] = none
scan_octets (suc n) (c ∷ []) = none
scan_octets (suc n) (c ∷ d ∷ text) = do
  hi ← get_int c
  lo ← get_int d
  rest ← scan_octets n text
  some ((hi * 16 + lo) ∷ rest)

unfoldable pub read_token : List ℕ → Option Token
unfolding scan_octets from_octets
read_token text = do o ← scan_octets token_size text; some (from_octets o)

scan_octets-to_hex :
    (bs : List ℕ) (n : ℕ)
    → n ≡ length bs
    → All (λ b. b < 256) bs
    → scan_octets n (to_hex bs) ≡ some bs
unfolding scan_octets
scan_octets-to_hex [] zero e h = refl
scan_octets-to_hex [] (suc n) e h = absurd (omega arith)
scan_octets-to_hex (b ∷ bs) zero e h = absurd (omega arith)
scan_octets-to_hex (b ∷ bs) (suc n) e h =
    let joined : b / 16 * 16 + b % 16 ≡ b = omega arith in
    rw (
      get_int-hex_digit (b / 16) (omega arith),
      get_int-hex_digit (b % 16) (omega arith),
      scan_octets-to_hex bs n (omega arith) h.1,
      joined,
    )

-- The fields fit their types.
pub record IsToken (t : Token) : Type 0 where
  pub fd : t.fd < 2 ^ 31
  pub count_us : t.count_us < 2 ^ 32
  pub seconds_at_beacon : t.seconds_at_beacon < 2 ^ 32
  pub tstamp_at_beacon : t.tstamp_at_beacon < 2 ^ 32
  pub lgw_trigcnt_at_next_beacon : t.lgw_trigcnt_at_next_beacon < 2 ^ 32
  pub beacon_ch : t.beacon_ch < 2 ^ 8

pub le4_back :
    (n : ℕ)
    → n < 2 ^ 32
    → u8 n + u8 (n / 2 ^ 8) * 2 ^ 8 + u8 (n / 2 ^ 16) * 2 ^ 16 + u8 (n / 2 ^ 24) * 2 ^ 24 ≡ n
le4_back n h = omega arith

pub u8_back : (n : ℕ) → n < 2 ^ 8 → u8 n ≡ n
u8_back n h = omega arith

from_octets-octets : (t : Token) → IsToken t → from_octets (token_octets t) ≡ t
unfolding from_octets token_octets
from_octets-octets t h = λ i. record {
  fd = le4_back t.fd (omega (arith, h.fd)) i;
  count_us = le4_back t.count_us h.count_us i;
  seconds_at_beacon = le4_back t.seconds_at_beacon h.seconds_at_beacon i;
  tstamp_at_beacon = le4_back t.tstamp_at_beacon h.tstamp_at_beacon i;
  lgw_trigcnt_at_next_beacon = le4_back t.lgw_trigcnt_at_next_beacon h.lgw_trigcnt_at_next_beacon i;
  beacon_ch = u8_back t.beacon_ch h.beacon_ch i;
}

-- The gateway and the time that a token names are read back from its text.
pub read_token-token_text : (t : Token) → IsToken t → read_token (token_text t) ≡ some t
unfolding read_token token_text
read_token-token_text t h =
    let bytes : All (λ b. b < 256) (token_octets t) = unfold token_octets in omega arith in
    let size : token_size ≡ length (token_octets t) = refl in
    rw (scan_octets-to_hex (token_octets t) token_size size bytes)
      (ap some (from_octets-octets t h))
