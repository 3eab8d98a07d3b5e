-- ===== src/NetworkServer/TxPacket/Wire.antt =====
-- The bytes of `gateway_write_downlink` as the gateway reads them.
use lo_ra_wan_backend.Base.{ℕ, ◌+◌, ◌*◌, ◌^◌, ◌<◌, ◌≤◌, ◌≡◌, refl, ap, ◌∙◌, arith}
use lo_ra_wan_backend.Base.{
  List, [], ◌∷◌, ◌++◌, length, get_or, take, drop, length-append, length-take, take-length,
  take-append_length, get_or-append_right,
}
use lo_ra_wan_backend.NetworkServer.Token.{le4_back, from_le4}
use lo_ra_wan_backend.NetworkServer.TxPacket.{TxPkt, user_buf, as_byte}

-- The fields of a packet fit their types; the payload has its size.
pub record IsTxPkt (p : TxPkt) : Type 0 where
  pub freq_hz : p.freq_hz < 2 ^ 32
  pub count_us : p.count_us < 2 ^ 32
  pub datarate : p.datarate < 2 ^ 32
  pub preamble : p.preamble < 2 ^ 16
  pub size : p.size ≤ 256
  pub payload : length p.payload ≡ p.size

-- `sizeof(struct lgw_pkt_tx_s)`, which is the size of `user_buf`.
abbrev pub sizeof_tx_pkt : ℕ
sizeof_tx_pkt = 288

-- The command, the length, and the fields at their places.
pub record Carries (p : TxPkt) (b : List ℕ) : Type 0 where
  pub command : get_or b 0 0 ≡ 3
  pub len : get_or b 1 0 + get_or b 2 0 * 2 ^ 8 ≡ length b
  pub fits : length b ≤ sizeof_tx_pkt
  pub freq_hz : from_le4 b 3 ≡ p.freq_hz
  pub tx_mode : get_or b 7 0 ≡ p.tx_mode
  pub count_us : from_le4 b 8 ≡ p.count_us
  pub rf_power : get_or b 13 0 ≡ p.rf_power
  pub modulation : get_or b 14 0 ≡ p.modulation
  pub bandwidth : get_or b 15 0 ≡ p.bandwidth
  pub datarate : from_le4 b 16 ≡ p.datarate
  pub coderate : get_or b 20 0 ≡ p.coderate
  pub invert_pol : get_or b 21 0 ≡ as_byte p.invert_pol
  pub f_dev : get_or b 22 0 ≡ p.f_dev
  pub preamble : get_or b 23 0 + get_or b 24 0 * 2 ^ 8 ≡ p.preamble
  pub no_crc : get_or b 25 0 ≡ as_byte p.no_crc
  pub no_header : get_or b 26 0 ≡ as_byte p.no_header
  pub size : get_or b 27 0 + get_or b 28 0 * 2 ^ 8 ≡ p.size
  pub payload : take p.size (drop 29 b) ≡ p.payload
  pub modem_idx : get_or (drop 29 b) p.size 0 ≡ p.modem_idx

-- The gateway reads every field of a packet of up to 256 bytes, but for `rf_chain`, from what is
-- written to it, and the length; no byte is written behind the end of `user_buf`.
pub user_buf-Carries : (p : TxPkt) → IsTxPkt p → Carries p (user_buf p)
unfolding user_buf
user_buf-Carries p h =
    let whole : take p.size p.payload ≡ p.payload =
      ap (λ (k : ℕ). take k p.payload) {x = p.size} {y = length p.payload}
        (omega (arith, h.payload))
      ∙ take-length p.payload in
    let tail : length (take p.size p.payload ++ p.modem_idx ∷ []) ≡ p.size + 1 = omega (
      arith,
      length-append (take p.size p.payload) (p.modem_idx ∷ []),
      length-take p.size p.payload,
      h.payload,
    ) in
    record {
      command = refl;
      len = omega (arith, tail, h.size);
      fits = omega (arith, tail, h.size);
      freq_hz = le4_back p.freq_hz h.freq_hz;
      tx_mode = refl;
      count_us = le4_back p.count_us h.count_us;
      rf_power = refl;
      modulation = refl;
      bandwidth = refl;
      datarate = le4_back p.datarate h.datarate;
      coderate = refl;
      invert_pol = refl;
      f_dev = refl;
      preamble = omega (arith, h.preamble);
      no_crc = refl;
      no_header = refl;
      size = omega (arith, h.size);
      payload =
          take-append_length (take p.size p.payload) (p.modem_idx ∷ []) p.size
            (omega (arith, length-take p.size p.payload, h.payload))
          ∙ whole;
      modem_idx =
          get_or-append_right (take p.size p.payload) (p.modem_idx ∷ []) p.size 0 0
            (omega (arith, length-take p.size p.payload, h.payload));
    }
