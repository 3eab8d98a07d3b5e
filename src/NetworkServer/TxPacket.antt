-- ===== src/NetworkServer/TxPacket.antt =====
-- A downlink packet and how it gets to a gateway: `gateway_write_downlink` and
-- `gateway_id_write_downlink` of network_server/gateway.c. The socket of a gateway is an argument. The
-- counters of the last transmission, and the number of downlinks, are left out.
pub mod Wire
use lo_ra_wan_backend.Base.{
  ℕ, zero, suc, ◌+◌, ◌*◌, ◌/◌, ◌%◌, ◌^◌, Bool, true, false, if◌then◌else◌, ltb, ◌==◌, u8,
}
use lo_ra_wan_backend.Base.{List, [], ◌∷◌, ◌++◌, length, take, Option, none, some}
use lo_ra_wan_backend.NetworkServer.Token.{le4}

-- `struct lgw_pkt_tx_s`
pub record TxPkt : Type 0 where
  pub freq_hz : ℕ
  pub tx_mode : ℕ
  pub count_us : ℕ
  pub rf_power : ℕ
  pub modulation : ℕ
  pub bandwidth : ℕ
  pub datarate : ℕ
  pub coderate : ℕ
  pub invert_pol : Bool
  pub f_dev : ℕ
  pub preamble : ℕ
  pub no_crc : Bool
  pub no_header : Bool
  pub size : ℕ
  pub payload : List ℕ
  pub modem_idx : ℕ

-- `gateway_t`; the region is the pointer.
pub record Gateway : Type 0 where
  pub fd : ℕ
  pub eui : ℕ
  pub rf_region : ℕ
  pub seconds_at_beacon : ℕ
  pub tstamp_at_beacon : ℕ
  pub lgw_trigcnt_at_next_beacon : ℕ
  pub beacon_ch : ℕ

abbrev pub as_byte : Bool → ℕ
as_byte true = 1
as_byte false = 0

abbrev le2 : ℕ → List ℕ
le2 n = u8 n ∷ u8 (n / 2 ^ 8) ∷ []

-- Behind the command and the length.
abbrev pub tx_fields : TxPkt → List ℕ
tx_fields p =
    le4 p.freq_hz
    ++ (p.tx_mode
        ∷ (le4 p.count_us
            ++ (0xff
                ∷ p.rf_power
                ∷ p.modulation
                ∷ p.bandwidth
                ∷ (le4 p.datarate
                    ++ (p.coderate
                        ∷ as_byte p.invert_pol
                        ∷ p.f_dev
                        ∷ (le2 p.preamble
                            ++ (as_byte p.no_crc ∷ as_byte p.no_header ∷ le2 p.size)))))))

-- `user_buf`
unfoldable pub user_buf : TxPkt → List ℕ
user_buf p =
    let body = tx_fields p ++ (take p.size p.payload ++ p.modem_idx ∷ []) in
    let buf_idx = length body + 3 in 3 ∷ u8 buf_idx ∷ u8 (buf_idx / 2 ^ 8) ∷ body

-- 0, 1 and -1.
pub data WriteResult : Type 0 where
  ok fail no_gateway : WriteResult

-- What was written: the file descriptor and the bytes.
abbrev pub Frames : Type 0
Frames = List (ℕ × List ℕ)

module _ (write_fd : ℕ → List ℕ → Option ℕ) where
  -- `write` returns none for an error, else how many bytes it took.
  unfoldable pub gateway_write_downlink : Gateway → TxPkt → WriteResult × Frames
  unfolding user_buf
  gateway_write_downlink g p =
      if ltb 256 p.size then (fail, []) else elim (write_fd g.fd (user_buf p)) [
        | none ↦ (fail, [])
        | some wlen ↦
            if wlen == length (user_buf p)
            then (ok, (g.fd, user_buf p) ∷ [])
            else (fail, (g.fd, take wlen (user_buf p)) ∷ [])
      ]

  -- The first gateway with the EUI.
  unfoldable pub gateway_id_write_downlink : List Gateway → ℕ → TxPkt → WriteResult × Frames
  unfolding gateway_write_downlink
  gateway_id_write_downlink [] eui p = (no_gateway, [])
  gateway_id_write_downlink (g ∷ gs) eui p =
      if g.eui == eui then gateway_write_downlink g p else gateway_id_write_downlink gs eui p
