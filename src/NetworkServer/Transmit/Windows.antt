-- ===== src/NetworkServer/Transmit/Windows.antt =====
-- The receive windows of class A in `fns_downlink`.
use mathlib.Core.Path.{subst}
use lo_ra_wan_backend.Base.{
  true, false, ◌&&◌, ℕ, ◌+◌, ◌*◌, ◌<◌, ◌≡◌, refl, ap, ◌∙◌, arith, inl, inr, Bool, false,
  if◌then◌else◌, ltb, leb, ◌==◌, u32, Bool-cases,
}
use lo_ra_wan_backend.Base.{List, [], ◌∷◌, ◌++◌, length, get_or, Option, none, some, ◌>>=◌, All}
use mathlib.Core.List.{append-nil}
use lo_ra_wan_backend.NetworkServer.Token.{Token, IsToken, token_text, read_token-token_text}
use lo_ra_wan_backend.NetworkServer.Downlink.Outcome.{success}
use lo_ra_wan_backend.NetworkServer.TxPacket.{
  TxPkt, Gateway, Frames, ok, user_buf, gateway_id_write_downlink,
}
use lo_ra_wan_backend.NetworkServer.Transmit.{
  DataRate, mod_fsk, mod_lora, TxRegion, DlMetaData, Sent, timestamped, find_fd, find_region,
  at_time, no_rate, set_rate, start_pkt, second_window, two_windows, in_region, from_gateway,
  fns_downlink,
}
use lo_ra_wan_backend.NetworkServer.Transmit.Finding.{
  IsRated, form, Apart, OtherRegion, find_fd_lem, find_region_lem, set_rate-Rated,
  gateway_id_write_downlink-skip, whole_write,
}

-- A packet for one receive window; `lora` is the modulation that it has for a data rate of LoRa.
pub record IsWindow (region : TxRegion) (t : Token) (tx_buf : List ℕ) (seconds freq data_rate : ℕ)
    (lora : ℕ) (p : TxPkt) : Type 0 where
  pub freq_hz : p.freq_hz ≡ freq
  pub count_us : p.count_us ≡ u32 (t.count_us + seconds * 1000000)
  pub tx_mode : p.tx_mode ≡ timestamped
  pub datarate : p.datarate ≡ (get_or region.datarates data_rate no_rate).lgw_sf_bps
  pub rated : IsRated (get_or region.datarates data_rate no_rate) lora p
  pub standard : form p ≡ (true, 8, true, false, 1, 0)
  pub rf_power : p.rf_power ≡ region.dl_tx_dbm
  pub size : p.size ≡ length tx_buf
  pub payload : p.payload ≡ tx_buf

-- The modulation stays FSK for the second window, when a first window had it.
abbrev pub second_lora : TxRegion → (dl_freq1 data_rate1 : ℕ) → ℕ
second_lora region dl_freq1 data_rate1 =
    if ltb 1000000 dl_freq1 && ltb 0 (get_or region.datarates data_rate1 no_rate).fdev_khz
    then mod_fsk
    else mod_lora

-- Class A, with the token of an uplink.
abbrev pub class_a : Token → ℕ → ℕ → ℕ → ℕ → ℕ → DlMetaData
class_a t rx_delay1 dl_freq1 data_rate1 dl_freq2 data_rate2 = record {
  fns_ul_token = some (token_text t);
  class_mode = b'A';
  rx_delay1 = rx_delay1;
  dl_freq1 = dl_freq1;
  data_rate1 = data_rate1;
  dl_freq2 = dl_freq2;
  data_rate2 = data_rate2;
  ping_period = 0;
}

abbrev pub frame_if : ℕ → Gateway → TxPkt → Frames
frame_if dl_freq g p = if ltb 1000000 dl_freq then (g.fd, user_buf p) ∷ [] else []

module _ (write_fd : ℕ → List ℕ → Option ℕ) (g : Gateway) (before after : List Gateway) where
  -- As far as the windows.
  pub fns_downlink-two_windows :
      (aes : List ℕ → List ℕ → List ℕ) (limit : ℕ) (ping_time : ℕ → ℕ) (has_mote : Bool)
      (r : TxRegion) (rs rs' : List TxRegion) (stack : TxPkt) (t : Token) (delay f1 d1 f2 d2 : ℕ)
      (tx_buf : List ℕ)
      → IsToken t
      → t.fd ≡ g.fd
      → g.rf_region ≡ r.rf_region
      → All (Apart g) before
      → All (Apart g) after
      → All (OtherRegion r) rs'
      → 0 < length tx_buf
      → fns_downlink write_fd aes false limit ping_time has_mote
          (before ++ g ∷ after)
          (rs ++ r ∷ rs')
          stack
          (class_a t delay f1 d1 f2 d2)
          tx_buf
        ≡ some (
            two_windows write_fd
              (before ++ g ∷ after)
              g
              r
              t
              (class_a t delay f1 d1 f2 d2)
              (start_pkt stack r tx_buf))
  unfolding fns_downlink
  fns_downlink-two_windows aes limit ping_time has_mote r rs rs' stack t delay f1 d1 f2 d2 tx_buf h
        from region b a q pos =
      let start : Token → Option Gateway → Option Sent =
        from_gateway write_fd aes false limit ping_time has_mote (before ++ g ∷ after)
          (rs ++ r ∷ rs') stack (class_a t delay f1 d1 f2 d2) tx_buf in
      let any : (length tx_buf == 0) ≡ false = ground arith in
      let found : find_fd t.fd (before ++ g ∷ after) ≡ some g =
        ap (λ (k : ℕ). find_fd k (before ++ g ∷ after)) from ∙ find_fd_lem g before after b a in
      let known : find_region g.rf_region (rs ++ r ∷ rs') ≡ some r =
        ap (λ (k : ℕ). find_region k (rs ++ r ∷ rs')) region ∙ find_region_lem r rs rs' q in
      rw any (
        ap (λ (o : Option Token). o >>= λ u. start u (find_fd u.fd (before ++ g ∷ after)))
          (read_token-token_text t h)
        ∙ ap (start t) found
        ∙ ap
            (in_region write_fd aes false limit ping_time has_mote (before ++ g ∷ after)
              (rs ++ r ∷ rs') stack (class_a t delay f1 d1 f2 d2) tx_buf t g)
            known)

  module _ (takes : (fd : ℕ) (bytes : List ℕ) → write_fd fd bytes ≡ some (length bytes)) where
    sent_whole :
        (p : TxPkt)
        → All (Apart g) before
        → p.size < 257
        → gateway_id_write_downlink write_fd (before ++ g ∷ after) g.eui p
          ≡ (ok, (g.fd, user_buf p) ∷ [])
    sent_whole p b h =
        gateway_id_write_downlink-skip write_fd g before after p b
        ∙ whole_write write_fd takes g p h

    second_window_lem :
        (r : TxRegion) (t : Token) (delay f1 d1 f2 d2 : ℕ) (p : TxPkt) (frames : Frames)
        → All (Apart g) before
        → d2 < r.num_datarates
        → (at_time t (delay + 1) f2 (set_rate r d2 p)).size < 257
        → second_window write_fd (before ++ g ∷ after) g r t (class_a t delay f1 d1 f2 d2) p frames
          ≡ record {
            result = success;
            written = frames ++ frame_if f2 g (at_time t (delay + 1) f2 (set_rate r d2 p));
            deferred = none;
          }
    unfolding second_window
    second_window_lem r t delay f1 d1 f2 d2 p frames b h size =
        let rate : leb r.num_datarates d2 ≡ false = ground arith in
        elim (Bool-cases (ltb 1000000 f2)) [
          | inl open_it ↦
              rw open_it
                (rw rate (rw (sent_whole (at_time t (delay + 1) f2 (set_rate r d2 p)) b size) refl))
          | inr skip ↦ rw skip (rw append-nil refl)
        ]

-- A start packet, perhaps after the first window was set up in it.
record IsStart (region : TxRegion) (tx_buf : List ℕ) (lora : ℕ) (p : TxPkt) : Type 0 where
  pub modulation : p.modulation ≡ lora
  pub standard : form p ≡ (true, 8, true, false, 1, 0)
  pub tx_mode : p.tx_mode ≡ timestamped
  pub rf_power : p.rf_power ≡ region.dl_tx_dbm
  pub size : p.size ≡ length tx_buf
  pub payload : p.payload ≡ tx_buf

at_time-IsWindow :
    (region : TxRegion) (t : Token) (tx_buf : List ℕ) (seconds freq dr lora : ℕ) (p : TxPkt)
    → IsStart region tx_buf lora p
    → IsWindow region t tx_buf seconds freq dr lora (at_time t seconds freq (set_rate region dr p))
unfolding at_time
at_time-IsWindow region t tx_buf seconds freq dr lora p s =
    let rate = get_or region.datarates dr no_rate in
    let q = set_rate-Rated region dr p in
    record {
      freq_hz = refl;
      count_us = refl;
      tx_mode = q.tx_mode ∙ s.tx_mode;
      datarate = q.datarate;
      rated = subst (λ m. IsRated rate m (set_rate region dr p)) s.modulation q.rated;
      standard = q.same_form ∙ s.standard;
      rf_power = q.rf_power ∙ s.rf_power;
      size = q.size ∙ s.size;
      payload = q.payload ∙ s.payload;
    }

rated-modulation :
    (rate : DataRate) (lora : ℕ) (p : TxPkt)
    → IsRated rate lora p
    → p.modulation ≡ (if ltb 0 rate.fdev_khz then mod_fsk else lora)
rated-modulation rate lora p (inl (none_set, w, m)) =
    let test : ltb 0 rate.fdev_khz ≡ false = ground (arith, none_set) in rw test m
rated-modulation rate lora p (inr (some_set, w, m)) =
    let test : ltb 0 rate.fdev_khz ≡ true = ground (arith, some_set) in rw test m

-- The packet of an open first window is where the second starts.
at_time-IsStart :
    (region : TxRegion) (t : Token) (tx_buf : List ℕ) (seconds freq dr : ℕ) (p : TxPkt)
    → IsStart region tx_buf mod_lora p
    → ltb 1000000 freq ≡ true
    → IsStart region tx_buf
        (second_lora region freq dr)
        (at_time t seconds freq (set_rate region dr p))
at_time-IsStart region t tx_buf seconds freq dr p s open_it =
    let w = at_time-IsWindow region t tx_buf seconds freq dr mod_lora p s in
    record {
      modulation = rw open_it (
          rated-modulation (get_or region.datarates dr no_rate) mod_lora
            (at_time t seconds freq (set_rate region dr p)) w.rated);
      standard = w.standard;
      tx_mode = w.tx_mode;
      rf_power = w.rf_power;
      size = w.size;
      payload = w.payload;
    }

module _ (write_fd : ℕ → List ℕ → Option ℕ)
    (takes : (fd : ℕ) (bytes : List ℕ) → write_fd fd bytes ≡ some (length bytes)) (g : Gateway)
    (before after : List Gateway) where
  two_windows_lem :
      (r : TxRegion) (t : Token) (delay f1 d1 f2 d2 : ℕ) (tx_buf : List ℕ) (p : TxPkt)
      → All (Apart g) before
      → d1 < r.num_datarates
      → d2 < r.num_datarates
      → length tx_buf < 256
      → IsStart r tx_buf mod_lora p
      → (p1 p2 : TxPkt) × IsWindow r t tx_buf delay f1 d1 mod_lora p1
        × IsWindow r t tx_buf (delay + 1) f2 d2 (second_lora r f1 d1) p2
        × (two_windows write_fd (before ++ g ∷ after) g r t (class_a t delay f1 d1 f2 d2) p
            ≡ record {
              result = success;
              written = frame_if f1 g p1 ++ frame_if f2 g p2;
              deferred = none;
            })
  unfolding two_windows
  two_windows_lem r t delay f1 d1 f2 d2 tx_buf p b h k size s =
      let rate : leb r.num_datarates d1 ≡ false = ground arith in
      let p1 = at_time t delay f1 (set_rate r d1 p) in
      let w1 = at_time-IsWindow r t tx_buf delay f1 d1 mod_lora p s in
      elim (Bool-cases (ltb 1000000 f1)) [
        | inl open_it ↦
            let s1 = at_time-IsStart r t tx_buf delay f1 d1 p s open_it in
            let w2 = at_time-IsWindow r t tx_buf (delay + 1) f2 d2 (second_lora r f1 d1) p1 s1 in
            (
              p1,
              at_time t (delay + 1) f2 (set_rate r d2 p1),
              w1,
              w2,
              rw open_it (
                  rw rate (
                    rw (sent_whole write_fd g before after takes p1 b (omega (arith, w1.size))) (
                      second_window_lem write_fd g before after takes r t delay f1 d1 f2 d2 p1
                        ((g.fd, user_buf p1) ∷ []) b k (omega (arith, w2.size))))),
            )
        | inr skip ↦
            let w2 : IsWindow r t tx_buf (delay + 1) f2 d2 (second_lora r f1 d1)
                (at_time t (delay + 1) f2 (set_rate r d2 p)) =
              rw skip (at_time-IsWindow r t tx_buf (delay + 1) f2 d2 mod_lora p s) in
            (
              p1,
              at_time t (delay + 1) f2 (set_rate r d2 p),
              w1,
              w2,
              rw skip (
                  second_window_lem write_fd g before after takes r t delay f1 d1 f2 d2 p [] b k
                    (omega (arith, w2.size))),
            )
      ]

  -- A gateway g received an uplink, and the serving part sends a frame of up to 255 bytes back with its
  -- token, in class A and in time. The gateways have different file descriptors and EUIs, the region of
  -- g is the last one with its name, the data rates are in its table, and the socket takes what is
  -- written. Then the frame goes to g and to no other, once for each of the two windows that has a
  -- frequency above 1 MHz: at the frequency, data rate, bandwidth and modulation of the window (but a
  -- second window stays FSK after a first one that was), `rx_delay1` seconds after the
  -- uplink by the counter of the gateway, the second a second later, with the power of the region.
  pub fns_downlink_windows :
      (aes : List ℕ → List ℕ → List ℕ) (limit : ℕ) (ping_time : ℕ → ℕ) (has_mote : Bool)
      (r : TxRegion) (rs rs' : List TxRegion) (stack : TxPkt) (t : Token) (delay f1 d1 f2 d2 : ℕ)
      (tx_buf : List ℕ)
      → IsToken t
      → t.fd ≡ g.fd
      → g.rf_region ≡ r.rf_region
      → All (Apart g) before
      → All (Apart g) after
      → All (OtherRegion r) rs'
      → d1 < r.num_datarates
      → d2 < r.num_datarates
      → 0 < length tx_buf
      → length tx_buf < 256
      → (p1 p2 : TxPkt) × IsWindow r t tx_buf delay f1 d1 mod_lora p1
        × IsWindow r t tx_buf (delay + 1) f2 d2 (second_lora r f1 d1) p2
        × (fns_downlink write_fd aes false limit ping_time has_mote
              (before ++ g ∷ after)
              (rs ++ r ∷ rs')
              stack
              (class_a t delay f1 d1 f2 d2)
              tx_buf
            ≡ some record {
              result = success;
              written = frame_if f1 g p1 ++ frame_if f2 g p2;
              deferred = none;
            })
  fns_downlink_windows aes limit ping_time has_mote r rs rs' stack t delay f1 d1 f2 d2 tx_buf tok fd
        region b a q h k pos size =
      let start = start_pkt stack r tx_buf in
      let (p1, p2, w1, w2, e) =
        two_windows_lem r t delay f1 d1 f2 d2 tx_buf start b h k size (record {
          modulation = refl;
          standard = refl;
          tx_mode = refl;
          rf_power = refl;
          size = refl;
          payload = refl;
        }) in
      (
        p1,
        p2,
        w1,
        w2,
        fns_downlink-two_windows write_fd g before after aes limit ping_time has_mote r rs rs' stack
              t delay f1 d1 f2 d2 tx_buf tok fd region b a q pos
            ∙ ap some e,
      )
