-- ===== src/NetworkServer/Transmit/Lost.antt =====
-- A frame that the socket of a gateway does not take.
use lo_ra_wan_backend.Base.{
  ℕ, ◌+◌, ◌<◌, ◌≡◌, refl, ap, ◌∙◌, arith, Bool, false, ltb, leb, Bool-cases, inl, inr,
}
use lo_ra_wan_backend.Base.{List, [], ◌∷◌, ◌++◌, length, Option, none, some, All}
use lo_ra_wan_backend.NetworkServer.Token.{Token, IsToken}
use lo_ra_wan_backend.NetworkServer.Downlink.Outcome.{success}
use lo_ra_wan_backend.NetworkServer.TxPacket.{
  TxPkt, Gateway, fail, user_buf, gateway_write_downlink, gateway_id_write_downlink,
}
use lo_ra_wan_backend.NetworkServer.Transmit.{
  TxRegion, set_rate, at_time, start_pkt, second_window, two_windows, fns_downlink,
}
use lo_ra_wan_backend.NetworkServer.Transmit.Finding.{
  Apart, OtherRegion, gateway_id_write_downlink-skip,
}
use lo_ra_wan_backend.NetworkServer.Transmit.Windows.{class_a, fns_downlink-two_windows}

module _ (write_fd : ℕ → List ℕ → Option ℕ)
    (breaks : (fd : ℕ) (bytes : List ℕ) → write_fd fd bytes ≡ none) (g : Gateway)
    (before after : List Gateway) where
  not_written : (p : TxPkt) → gateway_write_downlink write_fd g p ≡ (fail, [])
  unfolding gateway_write_downlink
  not_written p = elim (Bool-cases (ltb 256 p.size)) [
    | inl big ↦ rw big
    | inr small ↦ rw small (rw (breaks g.fd (user_buf p)) refl)
  ]

  lost :
      (p : TxPkt)
      → All (Apart g) before
      → gateway_id_write_downlink write_fd (before ++ g ∷ after) g.eui p ≡ (fail, [])
  lost p b = gateway_id_write_downlink-skip write_fd g before after p b ∙ not_written p

  lost_second :
      (r : TxRegion) (t : Token) (delay f1 d1 f2 d2 : ℕ) (p : TxPkt)
      → All (Apart g) before
      → d2 < r.num_datarates
      → second_window write_fd (before ++ g ∷ after) g r t (class_a t delay f1 d1 f2 d2) p []
        ≡ record { result = success; written = []; deferred = none }
  unfolding second_window
  lost_second r t delay f1 d1 f2 d2 p b k =
      let rate : leb r.num_datarates d2 ≡ false = ground arith in
      elim (Bool-cases (ltb 1000000 f2)) [
        | inl open_it ↦
            rw open_it (rw rate (rw (lost (at_time t (delay + 1) f2 (set_rate r d2 p)) b) refl))
        | inr skip ↦ rw skip
      ]

  lost_windows :
      (r : TxRegion) (t : Token) (delay f1 d1 f2 d2 : ℕ) (p : TxPkt)
      → All (Apart g) before
      → d1 < r.num_datarates
      → d2 < r.num_datarates
      → two_windows write_fd (before ++ g ∷ after) g r t (class_a t delay f1 d1 f2 d2) p
        ≡ record { result = success; written = []; deferred = none }
  unfolding two_windows
  lost_windows r t delay f1 d1 f2 d2 p b h k =
      let p1 = at_time t delay f1 (set_rate r d1 p) in
      let rate : leb r.num_datarates d1 ≡ false = ground arith in
      let second : (q : TxPkt)
          → second_window write_fd (before ++ g ∷ after) g r t (class_a t delay f1 d1 f2 d2) q []
            ≡ record { result = success; written = []; deferred = none } =
        λ q. lost_second r t delay f1 d1 f2 d2 q b k in
      elim (Bool-cases (ltb 1000000 f1)) [
        | inl open_it ↦ rw open_it (rw rate (rw (lost p1 b) (second p1)))
        | inr skip ↦ rw skip (second p)
      ]

  -- A gateway g received an uplink, and the serving part sends a frame back with its token, in class A
  -- and in time; the gateways have different file descriptors and EUIs, the region of g is the last one
  -- with its name, and the data rates are in its table. When every `write` to a socket fails, nothing is
  -- written, and the result is still Success.
  pub fns_downlink_lost :
      (aes : List ℕ → List ℕ → List ℕ) (limit : ℕ) (ping_time : ℕ → ℕ) (has_mote : Bool)
      (r : TxRegion) (rs rs' : List TxRegion) (stack : TxPkt) (t : Token) (delay f1 d1 f2 d2 : ℕ)
      (tx_buf : List ℕ)
      → IsToken t
      → t.fd ≡ g.fd
      → g.rf_region ≡ r.rf_region
      → All (Apart g) before
      → All (Apart g) after
      → All (OtherRegion r) rs'
      → d1 < r.num_datarates
      → d2 < r.num_datarates
      → 0 < length tx_buf
      → fns_downlink write_fd aes false limit ping_time has_mote
          (before ++ g ∷ after)
          (rs ++ r ∷ rs')
          stack
          (class_a t delay f1 d1 f2 d2)
          tx_buf
        ≡ some record { result = success; written = []; deferred = none }
  fns_downlink_lost aes limit ping_time has_mote r rs rs' stack t delay f1 d1 f2 d2 tx_buf tok fd
        region b a q h k pos =
      fns_downlink-two_windows write_fd g before after aes limit ping_time has_mote r rs rs' stack t
        delay f1 d1 f2 d2 tx_buf tok fd region b a q pos
      ∙ ap some (lost_windows r t delay f1 d1 f2 d2 (start_pkt stack r tx_buf) b h k)
