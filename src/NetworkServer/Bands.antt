-- ===== src/NetworkServer/Bands.antt =====
-- The data rate of the first receive window and the channel of an uplink, by region:
-- network_server/band_eu868.c, band_eu433.c, band_cn779.c, band_us902.c and band_au915.c. A frequency is
-- the whole number of 100 kHz that `modff` leaves.
use lo_ra_wan_backend.Base.{
  ℕ, zero, suc, ◌+◌, ◌-◌, ◌*◌, ◌/◌, ◌%◌, ◌<◌, ◌≡◌, refl, arith, min, max, ltb, ◌==◌, ◌&&◌,
  if◌then◌else◌, u8, bit_and,
}
use lo_ra_wan_backend.Base.{List, [], ◌∷◌, get_or, Option, none, some}
use lo_ra_wan_backend.Base.Bits.{bit_and_mask}

-- `drOffsets` of the three European tables, which are the same.
abbrev pub dr_offsets_eu868 : List (List ℕ)
dr_offsets_eu868 =
    (0 ∷ 0 ∷ 0 ∷ 0 ∷ 0 ∷ 0 ∷ [])
    ∷ (1 ∷ 0 ∷ 0 ∷ 0 ∷ 0 ∷ 0 ∷ [])
    ∷ (2 ∷ 1 ∷ 0 ∷ 0 ∷ 0 ∷ 0 ∷ [])
    ∷ (3 ∷ 2 ∷ 1 ∷ 0 ∷ 0 ∷ 0 ∷ [])
    ∷ (4 ∷ 3 ∷ 2 ∷ 1 ∷ 0 ∷ 0 ∷ [])
    ∷ (5 ∷ 4 ∷ 3 ∷ 2 ∷ 1 ∷ 0 ∷ [])
    ∷ (6 ∷ 5 ∷ 4 ∷ 3 ∷ 2 ∷ 1 ∷ [])
    ∷ (7 ∷ 6 ∷ 5 ∷ 4 ∷ 3 ∷ 2 ∷ [])
    ∷ []

abbrev pub us_915datarate_offsets : List (List ℕ)
us_915datarate_offsets =
    (10 ∷ 9 ∷ 8 ∷ 8 ∷ [])
    ∷ (11 ∷ 10 ∷ 9 ∷ 8 ∷ [])
    ∷ (12 ∷ 11 ∷ 10 ∷ 9 ∷ [])
    ∷ (13 ∷ 12 ∷ 11 ∷ 10 ∷ [])
    ∷ (13 ∷ 13 ∷ 12 ∷ 11 ∷ [])
    ∷ []

abbrev pub dr_offsets_au915 : List (List ℕ)
dr_offsets_au915 =
    (8 ∷ 8 ∷ 8 ∷ 8 ∷ 8 ∷ 8 ∷ [])
    ∷ (9 ∷ 8 ∷ 8 ∷ 8 ∷ 8 ∷ 8 ∷ [])
    ∷ (10 ∷ 9 ∷ 8 ∷ 9 ∷ 8 ∷ 8 ∷ [])
    ∷ (11 ∷ 10 ∷ 9 ∷ 8 ∷ 8 ∷ 8 ∷ [])
    ∷ (12 ∷ 11 ∷ 10 ∷ 9 ∷ 8 ∷ 8 ∷ [])
    ∷ (13 ∷ 12 ∷ 11 ∷ 10 ∷ 9 ∷ 8 ∷ [])
    ∷ (13 ∷ 13 ∷ 12 ∷ 11 ∷ 10 ∷ 9 ∷ [])
    ∷ []

abbrev entry : List (List ℕ) → ℕ → ℕ → ℕ
entry table ul_data_rate rxdr_offset1 = get_or (get_or table ul_data_rate []) rxdr_offset1 0

-- `DataRate1` of the `rx1_band_conv` functions.
pub rx1_band_conv_eu868 : ℕ → ℕ → ℕ
rx1_band_conv_eu868 ul_data_rate rxdr_offset1 = entry dr_offsets_eu868 ul_data_rate rxdr_offset1

pub rx1_band_conv_us902 : ℕ → ℕ → ℕ
rx1_band_conv_us902 ul_data_rate rxdr_offset1 =
    entry us_915datarate_offsets ul_data_rate rxdr_offset1

pub rx1_band_conv_au915 : ℕ → ℕ → ℕ
rx1_band_conv_au915 ul_data_rate rxdr_offset1 = entry dr_offsets_au915 ul_data_rate rxdr_offset1

-- `none` is the -1; the frequency is not below the band.
pub us902_get_ch : ℕ → ℕ → Option ℕ
us902_get_ch i data_rate =
    if data_rate == 4
    then some ((i - 9030) / 16 + 64)
    else if ltb data_rate 4
    then some ((i - 9023) / 2)
    else none

-- `down_channel`; 0xff stays for the other data rates.
pub us902_down_channel : ℕ → ℕ → ℕ
unfolding us902_get_ch
us902_down_channel i data_rate = elim (us902_get_ch i data_rate) [
  | none ↦ 0xff
  | some ch ↦ if data_rate == 4 then u8 (ch - 64) else bit_and (u8 ch) 7
]

below4 {ℓ} : (P : ℕ → Type ℓ) → P 0 → P 1 → P 2 → P 3 → (j : ℕ) → j < 4 → P j
below4 P p0 p1 p2 p3 zero h = p0
below4 P p0 p1 p2 p3 (suc zero) h = p1
below4 P p0 p1 p2 p3 (suc (suc zero)) h = p2
below4 P p0 p1 p2 p3 (suc (suc (suc zero))) h = p3
below4 P p0 p1 p2 p3 (suc (suc (suc (suc j)))) h = absurd (omega arith)

below5 {ℓ} : (P : ℕ → Type ℓ) → P 0 → P 1 → P 2 → P 3 → P 4 → (j : ℕ) → j < 5 → P j
below5 P p0 p1 p2 p3 p4 zero h = p0
below5 P p0 p1 p2 p3 p4 (suc zero) h = p1
below5 P p0 p1 p2 p3 p4 (suc (suc zero)) h = p2
below5 P p0 p1 p2 p3 p4 (suc (suc (suc zero))) h = p3
below5 P p0 p1 p2 p3 p4 (suc (suc (suc (suc zero)))) h = p4
below5 P p0 p1 p2 p3 p4 (suc (suc (suc (suc (suc j))))) h = absurd (omega arith)

below6 {ℓ} : (P : ℕ → Type ℓ) → P 0 → P 1 → P 2 → P 3 → P 4 → P 5 → (j : ℕ) → j < 6 → P j
below6 P p0 p1 p2 p3 p4 p5 zero h = p0
below6 P p0 p1 p2 p3 p4 p5 (suc zero) h = p1
below6 P p0 p1 p2 p3 p4 p5 (suc (suc zero)) h = p2
below6 P p0 p1 p2 p3 p4 p5 (suc (suc (suc zero))) h = p3
below6 P p0 p1 p2 p3 p4 p5 (suc (suc (suc (suc zero)))) h = p4
below6 P p0 p1 p2 p3 p4 p5 (suc (suc (suc (suc (suc zero))))) h = p5
below6 P p0 p1 p2 p3 p4 p5 (suc (suc (suc (suc (suc (suc j)))))) h = absurd (omega arith)

below7 {ℓ} : (P : ℕ → Type ℓ) → P 0 → P 1 → P 2 → P 3 → P 4 → P 5 → P 6 → (j : ℕ) → j < 7 → P j
below7 P p0 p1 p2 p3 p4 p5 p6 zero h = p0
below7 P p0 p1 p2 p3 p4 p5 p6 (suc zero) h = p1
below7 P p0 p1 p2 p3 p4 p5 p6 (suc (suc zero)) h = p2
below7 P p0 p1 p2 p3 p4 p5 p6 (suc (suc (suc zero))) h = p3
below7 P p0 p1 p2 p3 p4 p5 p6 (suc (suc (suc (suc zero)))) h = p4
below7 P p0 p1 p2 p3 p4 p5 p6 (suc (suc (suc (suc (suc zero))))) h = p5
below7 P p0 p1 p2 p3 p4 p5 p6 (suc (suc (suc (suc (suc (suc zero)))))) h = p6
below7 P p0 p1 p2 p3 p4 p5 p6 (suc (suc (suc (suc (suc (suc (suc j))))))) h = absurd (omega arith)

below8 {ℓ} :
    (P : ℕ → Type ℓ) → P 0 → P 1 → P 2 → P 3 → P 4 → P 5 → P 6 → P 7 → (j : ℕ) → j < 8 → P j
below8 P p0 p1 p2 p3 p4 p5 p6 p7 zero h = p0
below8 P p0 p1 p2 p3 p4 p5 p6 p7 (suc zero) h = p1
below8 P p0 p1 p2 p3 p4 p5 p6 p7 (suc (suc zero)) h = p2
below8 P p0 p1 p2 p3 p4 p5 p6 p7 (suc (suc (suc zero))) h = p3
below8 P p0 p1 p2 p3 p4 p5 p6 p7 (suc (suc (suc (suc zero)))) h = p4
below8 P p0 p1 p2 p3 p4 p5 p6 p7 (suc (suc (suc (suc (suc zero))))) h = p5
below8 P p0 p1 p2 p3 p4 p5 p6 p7 (suc (suc (suc (suc (suc (suc zero)))))) h = p6
below8 P p0 p1 p2 p3 p4 p5 p6 p7 (suc (suc (suc (suc (suc (suc (suc zero))))))) h = p7
below8 P p0 p1 p2 p3 p4 p5 p6 p7 (suc (suc (suc (suc (suc (suc (suc (suc j)))))))) h =
    absurd (omega arith)

-- In the European tables the downlink data rate is the uplink's less the offset, but not below 0.
pub rx1_band_conv_eu868_lem :
    (ul_data_rate rxdr_offset1 : ℕ)
    → ul_data_rate < 8
    → rxdr_offset1 < 6
    → rx1_band_conv_eu868 ul_data_rate rxdr_offset1 ≡ ul_data_rate - rxdr_offset1
unfolding rx1_band_conv_eu868
rx1_band_conv_eu868_lem u o h k =
    below8 (λ u. rx1_band_conv_eu868 u o ≡ u - o)
      (below6 (λ o. rx1_band_conv_eu868 0 o ≡ 0 - o) refl refl refl refl refl refl o k)
      (below6 (λ o. rx1_band_conv_eu868 1 o ≡ 1 - o) refl refl refl refl refl refl o k)
      (below6 (λ o. rx1_band_conv_eu868 2 o ≡ 2 - o) refl refl refl refl refl refl o k)
      (below6 (λ o. rx1_band_conv_eu868 3 o ≡ 3 - o) refl refl refl refl refl refl o k)
      (below6 (λ o. rx1_band_conv_eu868 4 o ≡ 4 - o) refl refl refl refl refl refl o k)
      (below6 (λ o. rx1_band_conv_eu868 5 o ≡ 5 - o) refl refl refl refl refl refl o k)
      (below6 (λ o. rx1_band_conv_eu868 6 o ≡ 6 - o) refl refl refl refl refl refl o k)
      (below6 (λ o. rx1_band_conv_eu868 7 o ≡ 7 - o) refl refl refl refl refl refl o k) u h

-- In the American table it is 10 more than the uplink's less the offset, within 8 and 13.
pub rx1_band_conv_us902_lem :
    (ul_data_rate rxdr_offset1 : ℕ)
    → ul_data_rate < 5
    → rxdr_offset1 < 4
    → rx1_band_conv_us902 ul_data_rate rxdr_offset1
      ≡ max 8 (min 13 (10 + ul_data_rate - rxdr_offset1))
unfolding rx1_band_conv_us902
rx1_band_conv_us902_lem u o h k =
    below5 (λ u. rx1_band_conv_us902 u o ≡ max 8 (min 13 (10 + u - o)))
      (below4 (λ o. rx1_band_conv_us902 0 o ≡ max 8 (min 13 (10 + 0 - o))) refl refl refl refl o k)
      (below4 (λ o. rx1_band_conv_us902 1 o ≡ max 8 (min 13 (10 + 1 - o))) refl refl refl refl o k)
      (below4 (λ o. rx1_band_conv_us902 2 o ≡ max 8 (min 13 (10 + 2 - o))) refl refl refl refl o k)
      (below4 (λ o. rx1_band_conv_us902 3 o ≡ max 8 (min 13 (10 + 3 - o))) refl refl refl refl o k)
      (below4 (λ o. rx1_band_conv_us902 4 o ≡ max 8 (min 13 (10 + 4 - o))) refl refl refl refl o k)
      u h

-- In the Australian table it is 8 more than the uplink's less the offset, within 8 and 13, but for
-- data rate 2 and offset 3, whose entry is 9 in place of 8.
pub rx1_band_conv_au915_lem :
    (ul_data_rate rxdr_offset1 : ℕ)
    → ul_data_rate < 7
    → rxdr_offset1 < 6
    → rx1_band_conv_au915 ul_data_rate rxdr_offset1 ≡ (
        if (ul_data_rate == 2) && (rxdr_offset1 == 3)
        then 9
        else max 8 (min 13 (8 + ul_data_rate - rxdr_offset1)))
unfolding rx1_band_conv_au915
rx1_band_conv_au915_lem u o h k =
    below7
      (λ u.
        rx1_band_conv_au915 u o ≡ (if (u == 2) && (o == 3) then 9 else max 8 (min 13 (8 + u - o))))
      (below6
        (λ o.
          rx1_band_conv_au915 0 o
          ≡ (if (0 == 2) && (o == 3) then 9 else max 8 (min 13 (8 + 0 - o))))
        refl refl refl refl refl refl o k)
      (below6
        (λ o.
          rx1_band_conv_au915 1 o
          ≡ (if (1 == 2) && (o == 3) then 9 else max 8 (min 13 (8 + 1 - o))))
        refl refl refl refl refl refl o k)
      (below6
        (λ o.
          rx1_band_conv_au915 2 o
          ≡ (if (2 == 2) && (o == 3) then 9 else max 8 (min 13 (8 + 2 - o))))
        refl refl refl refl refl refl o k)
      (below6
        (λ o.
          rx1_band_conv_au915 3 o
          ≡ (if (3 == 2) && (o == 3) then 9 else max 8 (min 13 (8 + 3 - o))))
        refl refl refl refl refl refl o k)
      (below6
        (λ o.
          rx1_band_conv_au915 4 o
          ≡ (if (4 == 2) && (o == 3) then 9 else max 8 (min 13 (8 + 4 - o))))
        refl refl refl refl refl refl o k)
      (below6
        (λ o.
          rx1_band_conv_au915 5 o
          ≡ (if (5 == 2) && (o == 3) then 9 else max 8 (min 13 (8 + 5 - o))))
        refl refl refl refl refl refl o k)
      (below6
        (λ o.
          rx1_band_conv_au915 6 o
          ≡ (if (6 == 2) && (o == 3) then 9 else max 8 (min 13 (8 + 6 - o))))
        refl refl refl refl refl refl o k)
      u h

-- In the American band the 64 channels of 125 kHz from 902.3 MHz on and the 8 of 500 kHz from 903.0
-- MHz on, sent at data rates below 4 and at 4, have the numbers 0 to 71, and the downlink channel is
-- the number modulo 8.
pub us902_get_ch_lem :
    (ch data_rate : ℕ)
    → ch < 72
    → data_rate ≡ (if ltb ch 64 then data_rate % 4 else 4)
    → (us902_get_ch (if ltb ch 64 then 9023 + 2 * ch else 9030 + 16 * (ch - 64)) data_rate
        ≡ some ch)
      × (us902_down_channel (if ltb ch 64 then 9023 + 2 * ch else 9030 + 16 * (ch - 64)) data_rate
          ≡ ch % 8)
unfolding us902_get_ch us902_down_channel
us902_get_ch_lem ch data_rate h k = (ground (arith, k), ground (arith, k, bit_and_mask 3 (u8 ch)))
