-- ===== src/NetworkServer/Transmit.antt =====
-- From the serving part to the antenna: `fNS_downlink` of network_server/fNS.c. The socket of a gateway,
-- the clock and `getMote` are arguments. A frequency is in Hz; the results of the floating point
-- numbers, which are whether the first window has passed, the first slot that can still be reached,
-- and the counter at a ping slot, are arguments too.
pub mod Finding
pub mod Windows
pub mod Lost
use lo_ra_wan_backend.Base.{
  ℕ, zero, suc, ◌+◌, ◌*◌, ◌/◌, ◌%◌, ◌^◌, Bool, true, false, not, ◌&&◌, ◌||◌, if◌then◌else◌, ltb,
  leb, ◌==◌, u8, u16, u32,
}
use lo_ra_wan_backend.Base.{
  List, [], ◌∷◌, ◌++◌, length, get_or, take, drop, Option, none, some, ◌>>=◌,
}
use lo_ra_wan_backend.NetworkServer.Token.{Token, le4, from_le4, read_token}
use lo_ra_wan_backend.NetworkServer.TxPacket.{
  TxPkt, Gateway, Frames, WriteResult, ok, fail, no_gateway, gateway_id_write_downlink,
}
use lo_ra_wan_backend.NetworkServer.Downlink.Outcome.{Result, success, failed, unknown}
use lo_ra_wan_backend.NetworkServer.PingSlot.{compute_ping_offset, use_pingslot}

-- `dr_t`
pub record DataRate : Type 0 where
  pub lgw_bw : ℕ
  pub lgw_sf_bps : ℕ
  pub fdev_khz : ℕ

pub record TxRegion : Type 0 where
  pub rf_region : ℕ
  pub dl_tx_dbm : ℕ
  pub datarates : List DataRate
  pub num_datarates : ℕ

-- `DLMetaData_t`
pub record DlMetaData : Type 0 where
  pub fns_ul_token : Option (List ℕ)
  pub class_mode : ℕ
  pub rx_delay1 : ℕ
  pub dl_freq1 : ℕ
  pub data_rate1 : ℕ
  pub dl_freq2 : ℕ
  pub data_rate2 : ℕ
  pub ping_period : ℕ

abbrev pub immediate : ℕ
immediate = 0

abbrev pub timestamped : ℕ
timestamped = 1

abbrev pub mod_lora : ℕ
mod_lora = 0x10

abbrev pub mod_fsk : ℕ
mod_fsk = 0x20

abbrev pub beacon_window_slots : ℕ
beacon_window_slots = 4096

-- A ping that waits for the next beacon.
pub record Deferred : Type 0 where
  pub ping_period : ℕ
  pub gateway : Gateway
  pub tx_pkt : TxPkt

pub record Sent : Type 0 where
  pub result : Result
  pub written : Frames
  pub deferred : Option Deferred

-- The last gateway with the file descriptor.
pub find_fd : ℕ → List Gateway → Option Gateway
find_fd fd [] = none
find_fd fd (g ∷ gs) = elim (find_fd fd gs) [
  | some h ↦ some h
  | none ↦ if g.fd == fd then some g else none
]

pub find_region : ℕ → List TxRegion → Option TxRegion
find_region rf_region [] = none
find_region rf_region (r ∷ rs) = elim (find_region rf_region rs) [
  | some q ↦ some q
  | none ↦ if r.rf_region == rf_region then some r else none
]

abbrev no_rate : DataRate
no_rate = record { lgw_bw = 0; lgw_sf_bps = 0; fdev_khz = 0 }

-- The modulation stays as it is when the rate is one of LoRa.
pub set_rate : TxRegion → ℕ → TxPkt → TxPkt
set_rate region dr p =
    let rate = get_or region.datarates dr no_rate in
    if rate.fdev_khz == 0
    then record p { datarate = rate.lgw_sf_bps; bandwidth = rate.lgw_bw }
    else record p { modulation = mod_fsk; f_dev = rate.fdev_khz; datarate = rate.lgw_sf_bps }

-- `stack` is what the memory of `tx_pkt` held before.
abbrev pub start_pkt : TxPkt → TxRegion → List ℕ → TxPkt
start_pkt stack region tx_buf = record stack {
  tx_mode = timestamped;
  rf_power = region.dl_tx_dbm;
  invert_pol = true;
  preamble = 8;
  no_crc = true;
  no_header = false;
  size = length tx_buf;
  payload = tx_buf;
  modem_idx = 0;
  coderate = 1;
  modulation = mod_lora;
}

abbrev pub xmit_failed : Frames → Sent
xmit_failed frames = record { result = failed; written = frames; deferred = none }

-- The frequency, and the counter some seconds after the uplink.
pub at_time : Token → ℕ → ℕ → TxPkt → TxPkt
at_time t seconds freq p = record p {
  freq_hz = freq;
  count_us = u32 (t.count_us + seconds * 1000000);
}

module _ (write_fd : ℕ → List ℕ → Option ℕ) where
  -- `gateway_id_write_downlink() < 0`, and what follows it.
  abbrev pub unless_negative : WriteResult × Frames → (Frames → Sent) → Sent
  unless_negative (no_gateway, frames) next = xmit_failed frames
  unless_negative (ok, frames) next = next frames
  unless_negative (fail, frames) next = next frames

  -- The second window, after the frames of the first.
  pub second_window : List Gateway → Gateway → TxRegion → Token → DlMetaData → TxPkt → Frames → Sent
  unfolding set_rate gateway_id_write_downlink
  second_window gws g region t md p frames =
      if not (ltb 1000000 md.dl_freq2)
      then record { result = success; written = frames; deferred = none }
      else if leb region.num_datarates md.data_rate2
      then xmit_failed frames
      else let rated = set_rate region md.data_rate2 p in
        let timed =
          if md.class_mode == b'C'
          then record rated { tx_mode = immediate; freq_hz = md.dl_freq2 }
          else at_time t (md.rx_delay1 + 1) md.dl_freq2 rated in
        unless_negative (gateway_id_write_downlink write_fd gws g.eui timed)
          (λ more. record { result = success; written = frames ++ more; deferred = none })

  pub two_windows : List Gateway → Gateway → TxRegion → Token → DlMetaData → TxPkt → Sent
  unfolding second_window set_rate gateway_id_write_downlink
  two_windows gws g region t md p =
      if not (ltb 1000000 md.dl_freq1)
      then second_window gws g region t md p []
      else if leb region.num_datarates md.data_rate1
      then xmit_failed []
      else let first = at_time t md.rx_delay1 md.dl_freq1 (set_rate region md.data_rate1 p) in
        unless_negative (gateway_id_write_downlink write_fd gws g.eui first)
          (λ frames. second_window gws g region t md first frames)

  -- Class B: at a slot, in this beacon period or after the next beacon.
  pub ping_at : (has_mote : Bool) → List Gateway → Gateway → DlMetaData → TxPkt → ℕ → Sent
  unfolding gateway_id_write_downlink
  ping_at has_mote gws g md timed slot =
      if leb beacon_window_slots slot
      then (if has_mote
          then record {
            result = unknown;
            written = [];
            deferred = some record { ping_period = md.ping_period; gateway = g; tx_pkt = timed };
          }
          else xmit_failed [])
      else unless_negative (gateway_id_write_downlink write_fd gws g.eui timed)
          (λ frames. record { result = success; written = frames; deferred = none })

  -- `limit` is the first slot in reach, `ping_time` the counter at a slot.
  pub ping :
      (List ℕ → List ℕ → List ℕ)
      → ℕ
      → (ℕ → ℕ)
      → Bool
      → List Gateway
      → Gateway
      → TxRegion
      → DlMetaData
      → TxPkt
      → Option Sent
  unfolding set_rate ping_at
  ping aes limit ping_time has_mote gws g region md p =
      if md.ping_period == 0
      then some (xmit_failed [])
      else let rated = set_rate region md.data_rate1 (record p { freq_hz = md.dl_freq1 }) in
        let offset =
          compute_ping_offset aes g.seconds_at_beacon (from_le4 p.payload 1) md.ping_period in
        (use_pingslot limit md.ping_period offset >>= λ slot.
        some (ping_at has_mote gws g md (record rated { count_us = ping_time slot }) slot))

  module _ (aes : List ℕ → List ℕ → List ℕ) (late : Bool) (limit : ℕ) (ping_time : ℕ → ℕ)
      (has_mote : Bool) (gws : List Gateway) (regions : List TxRegion) (stack : TxPkt)
      (md : DlMetaData) (tx_buf : List ℕ) where
    -- By the class.
    abbrev pub in_region : Token → Gateway → Option TxRegion → Option Sent
    in_region t g none = some (xmit_failed [])
    in_region t g (some region) =
        let p = start_pkt stack region tx_buf in
        if md.class_mode == b'B'
        then ping aes limit ping_time has_mote gws g region md p
        else if (md.class_mode == b'C') || (md.class_mode == b'A')
        then some (two_windows gws g region t md p)
        else some (xmit_failed [])

    abbrev pub from_gateway : Token → Option Gateway → Option Sent
    from_gateway t none = some (xmit_failed [])
    from_gateway t (some g) =
        if (md.class_mode == b'A') && late
        then some (xmit_failed [])
        else in_region t g (find_region g.rf_region regions)

    abbrev pub with_token : Option (List ℕ) → Option Sent
    with_token none = some (xmit_failed [])
    with_token (some text) = read_token text >>= λ t. from_gateway t (find_fd t.fd gws)

    -- `none` is a token that is not modelled, or no end of the ping slot loop.
    pub fns_downlink : Option Sent
    fns_downlink = if length tx_buf == 0 then some (xmit_failed []) else with_token md.fns_ul_token
