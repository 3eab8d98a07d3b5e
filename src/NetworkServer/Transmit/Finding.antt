-- ===== src/NetworkServer/Transmit/Finding.antt =====
-- Which gateway, region and data rate `fns_downlink` finds.
use lo_ra_wan_backend.Base.{
  Bool, ◌⊎◌, ℕ, ◌<◌, ◌≡◌, ◌≢◌, refl, arith, inl, inr, true, false, ltb, ◌==◌, Bool-cases,
}
use lo_ra_wan_backend.Base.{List, [], ◌∷◌, ◌++◌, length, get_or, Option, none, some, All}
use lo_ra_wan_backend.NetworkServer.TxPacket.{
  TxPkt, Gateway, ok, user_buf, gateway_write_downlink, gateway_id_write_downlink,
}
use lo_ra_wan_backend.NetworkServer.Transmit.{mod_fsk, DataRate}
use lo_ra_wan_backend.NetworkServer.Transmit.{TxRegion, find_fd, find_region, no_rate, set_rate}

-- Another gateway.
abbrev pub Apart : Gateway → Gateway → Type 0
Apart g h = (h.fd ≢ g.fd) × (h.eui ≢ g.eui)

find_fd-none : (g : Gateway) (gws : List Gateway) → All (Apart g) gws → find_fd g.fd gws ≡ none
unfolding find_fd
find_fd-none g [] h = refl
find_fd-none g (k ∷ gws) h =
    let other : (k.fd == g.fd) ≡ false = ground arith in rw (find_fd-none g gws h.1, other)

pub find_fd_lem :
    (g : Gateway) (before after : List Gateway)
    → All (Apart g) before
    → All (Apart g) after
    → find_fd g.fd (before ++ g ∷ after) ≡ some g
unfolding find_fd
find_fd_lem g [] after b a =
    let same : (g.fd == g.fd) ≡ true = ground arith in rw (find_fd-none g after a, same)
find_fd_lem g (k ∷ before) after b a = rw (find_fd_lem g before after b.1 a)

abbrev pub OtherRegion : TxRegion → TxRegion → Type 0
OtherRegion r q = q.rf_region ≢ r.rf_region

find_region-none :
    (r : TxRegion) (rs : List TxRegion) → All (OtherRegion r) rs → find_region r.rf_region rs ≡ none
unfolding find_region
find_region-none r [] h = refl
find_region-none r (q ∷ rs) h =
    let other : (q.rf_region == r.rf_region) ≡ false = ground arith in
    rw (find_region-none r rs h.1, other)

pub find_region_lem :
    (r : TxRegion) (before after : List TxRegion)
    → All (OtherRegion r) after
    → find_region r.rf_region (before ++ r ∷ after) ≡ some r
unfolding find_region
find_region_lem r [] after a =
    let same : (r.rf_region == r.rf_region) ≡ true = ground arith in
    rw (find_region-none r after a, same)
find_region_lem r (q ∷ before) after a = rw (find_region_lem r before after a)

-- The settings for a data rate: of LoRa, where the modulation is the one given, or of FSK.
abbrev pub IsRated : DataRate → ℕ → TxPkt → Type 0
IsRated rate lora q =
    ((rate.fdev_khz ≡ 0) × (q.bandwidth ≡ rate.lgw_bw) × (q.modulation ≡ lora))
    ⊎ ((0 < rate.fdev_khz) × (q.f_dev ≡ rate.fdev_khz) × (q.modulation ≡ mod_fsk))

-- What does not depend on the window.
abbrev pub form : TxPkt → Bool × ℕ × Bool × Bool × ℕ × ℕ
form q = (q.invert_pol, q.preamble, q.no_crc, q.no_header, q.coderate, q.modem_idx)

-- What a choice of the data rate leaves.
pub record Rated (rate : DataRate) (p q : TxPkt) : Type 0 where
  pub datarate : q.datarate ≡ rate.lgw_sf_bps
  pub same_form : form q ≡ form p
  pub rated : IsRated rate p.modulation q
  pub tx_mode : q.tx_mode ≡ p.tx_mode
  pub rf_power : q.rf_power ≡ p.rf_power
  pub size : q.size ≡ p.size
  pub payload : q.payload ≡ p.payload

pub set_rate-Rated :
    (region : TxRegion) (dr : ℕ) (p : TxPkt)
    → Rated (get_or region.datarates dr no_rate) p (set_rate region dr p)
unfolding set_rate
set_rate-Rated region dr p =
    elim (Bool-cases ((get_or region.datarates dr no_rate).fdev_khz == 0)) [
      | inl lora ↦ rw lora record {
        datarate = refl;
        same_form = refl;
        rated = inl (ground (arith, lora), refl, refl);
        tx_mode = refl;
        rf_power = refl;
        size = refl;
        payload = refl;
      }
      | inr fsk ↦ rw fsk record {
        datarate = refl;
        same_form = refl;
        rated = inr (ground (arith, fsk), refl, refl);
        tx_mode = refl;
        rf_power = refl;
        size = refl;
        payload = refl;
      }
    ]

module _ (write_fd : ℕ → List ℕ → Option ℕ) where
  pub gateway_id_write_downlink-skip :
      (g : Gateway) (before after : List Gateway) (p : TxPkt)
      → All (Apart g) before
      → gateway_id_write_downlink write_fd (before ++ g ∷ after) g.eui p
        ≡ gateway_write_downlink write_fd g p
  unfolding gateway_id_write_downlink
  gateway_id_write_downlink-skip g [] after p b =
      let same : (g.eui == g.eui) ≡ true = ground arith in rw same
  gateway_id_write_downlink-skip g (k ∷ before) after p b =
      let other : (k.eui == g.eui) ≡ false = ground arith in
      rw other (gateway_id_write_downlink-skip g before after p b.1)

  pub whole_write :
      (takes : (fd : ℕ) (bytes : List ℕ) → write_fd fd bytes ≡ some (length bytes))
      → (g : Gateway) (p : TxPkt) → p.size < 257
      → gateway_write_downlink write_fd g p ≡ (ok, (g.fd, user_buf p) ∷ [])
  unfolding gateway_write_downlink
  whole_write takes g p h =
      let fits : ltb 256 p.size ≡ false = ground arith in
      let whole : (length (user_buf p) == length (user_buf p)) ≡ true = ground arith in
      rw fits (rw (takes g.fd (user_buf p)) (rw whole refl))
