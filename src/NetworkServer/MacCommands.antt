-- ===== src/NetworkServer/MacCommands.antt =====
-- The MAC commands of an uplink: the loop of `parse_mac_command` of network_server/sNS.c, and
-- `network_controller_mote_init` of network_server/adr.c, which it calls. What comes from the gateway,
-- the database and floating point arithmetic is a record of inputs.
pub mod Safety
use lo_ra_wan_backend.Base.{
  ℕ, zero, suc, ◌+◌, ◌-◌, ◌*◌, ◌/◌, ◌%◌, ◌^◌, ◌==◌, ltb, leb, if◌then◌else◌, u8, u16, u32, bit_and,
}
use lo_ra_wan_backend.Base.{
  Bool, true, false, ◌&&◌, List, [], ◌∷◌, get_or, replicate, Option, none, some, ◌>>=◌,
}
use lo_ra_wan_backend.NetworkServer.MacQueue.{MacQueue}
use lo_ra_wan_backend.NetworkServer.MacQueue.Script.{Call, put, clear, call}
use lo_ra_wan_backend.NetworkServer.PingSlot.{compute_ping_offset}

-- A signed number: `negsuc n` is -(n + 1).
pub data ℤ : Type 0 where
  pos negsuc : ℕ → ℤ

abbrev pub null_snr : ℤ
null_snr = negsuc 29

-- The part of `regional_t` that is used. `init_session` says that the pointer is not NULL, and
-- `tx_param_setup` is `none` when it is not enabled.
pub record Region : Type 0 where
  pub init_ch_mask : List ℕ
  pub default_txpwr_idx : ℕ
  pub max_txpwr_idx : ℕ
  pub uplink_dr_max : ℕ
  pub beacon_hz : ℕ
  pub init_session : Bool
  pub tx_param_setup : Option ℕ

-- The fields of `s_t` that the commands change, besides the queue. `deleted` counts the calls of
-- `deleteOldSessions`.
pub record Session : Type 0 where
  pub ch_mask : List ℕ
  pub snr_history : List ℤ
  pub txpwr_idx : ℕ
  pub ping_slot_info : ℕ
  pub ping_period : ℕ
  pub ping_offset : ℕ
  pub class_mode_ind : ℕ
  pub check_old_sessions : Bool
  pub session_start_at_uplink : Bool
  pub deleted : ℕ

-- `i_diff` is the floor of the slots to the next beacon, `fraction` the division by 3906.5.
pub record Uplink : Type 0 where
  pub rx_snr : ℤ
  pub gw_cnt : ℕ
  pub has_dev_eui : Bool
  pub dev_addr : ℕ
  pub opt_neg : ℕ
  pub region : Option Region
  pub is_us902 : Bool
  pub beacon_ch : ℕ
  pub count_us : ℕ
  pub tstamp_at_beacon : ℕ
  pub seconds_at_beacon : ℕ
  pub i_diff : ℕ
  pub fraction : ℕ → ℕ
  pub aes : List ℕ → List ℕ → List ℕ

-- A region that is not found changes nothing.
pub network_controller_mote_init : Option Region → Session → Session
network_controller_mote_init none s = s
network_controller_mote_init (some region) s = record s {
  snr_history = replicate 3 null_snr;
  ch_mask = region.init_ch_mask;
  txpwr_idx = region.default_txpwr_idx;
}

-- The margin over the demodulation floor of -15 dB.
abbrev pub link_margin : ℤ → ℕ
link_margin (pos n) = u8 (n + 15)
link_margin (negsuc n) = if leb 15 n then 0 else 14 - n

-- What a command does: the bytes it takes, the call on the queue, and the session after it.
pub record Handled : Type 0 where
  pub used : ℕ
  pub queue_call : Option Call
  pub session : Session

abbrev answer : Session → ℕ → ℕ → List ℕ → Handled
answer s used cmd_len cmd_buf = record {
  used = used;
  queue_call = some (put cmd_len cmd_buf false);
  session = s;
}

abbrev answered : Session → ℕ → ℕ → Handled
answered s used cmd = record { used = used; queue_call = some (clear cmd); session = s }

abbrev ignore : Session → ℕ → Handled
ignore s used = record { used = used; queue_call = none; session = s }

abbrev ping_slot_info_req : Uplink → Session → ℕ → Handled
ping_slot_info_req ul s b =
    let ping_nb = 128 / 2 ^ (b % 8) in
    let period = u16 (4096 / ping_nb) in
    answer
      (record s {
        ping_slot_info = b;
        ping_period = period;
        ping_offset = compute_ping_offset ul.aes ul.seconds_at_beacon ul.dev_addr period;
      })
      2 1 (0x10 ∷ [])

abbrev beacon_timing_req : Uplink → Session → Handled
beacon_timing_req ul s = answer s 1 4 (
    0x12
    ∷ bit_and ul.i_diff 0xff
    ∷ bit_and (ul.i_diff / 2 ^ 8) 0xff
    ∷ (if ul.is_us902 then bit_and (ul.beacon_ch + 1) 7 else 0)
    ∷ [])

abbrev device_time_req : Uplink → Session → Handled
device_time_req ul s =
    let us_since_beacon = u32 (ul.count_us + (2 ^ 32 - ul.tstamp_at_beacon)) in
    let secs = u32 (us_since_beacon / 1_000_000 + ul.seconds_at_beacon) in
    answer s 1 6 (
      0x0d
      ∷ u8 secs
      ∷ u8 (secs / 2 ^ 8)
      ∷ u8 (secs / 2 ^ 16)
      ∷ u8 (secs / 2 ^ 24)
      ∷ u8 (ul.fraction (us_since_beacon % 1_000_000))
      ∷ [])

abbrev rekey_ind : Uplink → Session → ℕ → Handled
rekey_ind ul s minor =
    let old = (minor == 1) && (ul.has_dev_eui && s.check_old_sessions) in
    let s' = if old then record s { check_old_sessions = false; deleted = s.deleted + 1 } else s in
    answer s' 2 2 (0x0b ∷ minor ∷ [])

abbrev reset_ind : Uplink → Session → Handled
reset_ind ul s =
    answer (network_controller_mote_init ul.region (record s { session_start_at_uplink = true })) 2
      2 (0x01 ∷ ul.opt_neg ∷ [])

-- The `switch`: the command `c`, and the byte behind it.
pub handle : Uplink → Session → ℕ → ℕ → Handled
unfolding network_controller_mote_init
handle ul s c b =
    if c == 0x02
    then answer s 1 3 (0x02 ∷ link_margin ul.rx_snr ∷ u8 ul.gw_cnt ∷ [])
    else if c == 0x10
    then ping_slot_info_req ul s b
    else if c == 0x12
    then beacon_timing_req ul s
    else if c == 0x0d
    then device_time_req ul s
    else if c == 0x03
    then answered s 2 0x03
    else if c == 0x11
    then answered s 2 0x11
    else if c == 0x13
    then answered s 2 0x13
    else if c == 0x05
    then answered s 2 0x05
    else if c == 0x07
    then answered s 2 0x07
    else if c == 0x06
    then ignore s 3
    else if c == 0x0b
    then rekey_ind ul s b
    else if c == 0x01
    then reset_ind ul s
    else if c == 0x20
    then answer (record s { class_mode_ind = b }) 2 2 (0x20 ∷ b ∷ [])
    else if c == 0x0f
    then answered s 2 0x0f
    else if c == 0x09
    then answered s 1 0x09
    else ignore s 1

abbrev pub queue_after : MacQueue → Option Call → Option MacQueue
queue_after q none = some q
queue_after q (some c) = call q c

-- The loop, from `rx_cmd_buf_idx` on: the session, the queue, and the index at the end; `none` is no
-- fuel. `rx_cmd_buf` is the whole array that the commands stand in, of which `len` bytes are read;
-- a command at the end takes its byte from the array behind them.
pub parse_from : ℕ → Uplink → List ℕ → ℕ → ℕ → Session → MacQueue → Option (Session × MacQueue)
unfolding handle
parse_from zero ul rx_cmd_buf len idx s q = none
parse_from (suc fuel) ul rx_cmd_buf len idx s q =
    let h = handle ul s (get_or rx_cmd_buf idx 0) (get_or rx_cmd_buf (idx + 1) 0) in
    let more : MacQueue → Option (Session × MacQueue) =
      λ q'. parse_from fuel ul rx_cmd_buf len (u8 (idx + h.used)) h.session q' in
    if ltb idx len then queue_after q h.queue_call >>= more else some (s, q)

pub parse_mac_command : Uplink → List ℕ → ℕ → Session → MacQueue → Option (Session × MacQueue)
unfolding parse_from
parse_mac_command ul rx_cmd_buf len s q = parse_from (suc len) ul rx_cmd_buf len 0 s q
