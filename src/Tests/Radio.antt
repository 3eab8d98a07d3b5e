-- ===== src/Tests/Radio.antt =====
-- Frames, MAC commands, gateway reports and bands on concrete data (network_server/).
use lo_ra_wan_backend.Base.{
  ℕ, ◌≡◌, refl, true, false, some, none, Option, List, [], ◌∷◌, get_or, replicate, arith,
  if◌then◌else◌, ◌%◌, ltb, leb, not, ◌==◌, inr,
}
use lo_ra_wan_backend.NetworkServer.MacQueue.{fresh}
use lo_ra_wan_backend.NetworkServer.MacQueue.Pending.{pending}
use lo_ra_wan_backend.NetworkServer.MacCommands.{Uplink, Session, pos, negsuc, parse_mac_command}
use lo_ra_wan_backend.NetworkServer.MacCommands.Safety.{Obeyed, parse_mac_command_lem}
use lo_ra_wan_backend.NetworkServer.MoteLookup.{
  Frame, rejoin_request1, to_phy, sender, get_mote_mtype, get_mote_mtype-to_phy,
}
use lo_ra_wan_backend.NetworkServer.Gateway.{
  RxPkt, size_too_big, rf_too_small, unsupported_major, uplink_direct, parse_uplink,
}
use lo_ra_wan_backend.NetworkServer.Gateway.Wire.{to_wire, parse_uplink-to_wire}

abbrev session : Session
session = record {
  ch_mask = 0xff ∷ [];
  snr_history = negsuc 3 ∷ [];
  txpwr_idx = 0;
  ping_slot_info = 0;
  ping_period = 0;
  ping_offset = 0;
  class_mode_ind = 0;
  check_old_sessions = true;
  session_start_at_uplink = false;
  deleted = 0;
}

abbrev uplink : Uplink
uplink = record {
  rx_snr = pos 7;
  gw_cnt = 2;
  has_dev_eui = true;
  dev_addr = 0x2600_0001;
  opt_neg = 1;
  region = none;
  is_us902 = false;
  beacon_ch = 0;
  count_us = 5_000_000;
  tstamp_at_beacon = 1_000_000;
  seconds_at_beacon = 77;
  i_diff = 12;
  fraction = λ us. us;
  aes = λ key block. block;
}

-- RekeyInd, LinkCheckReq, PingSlotInfoReq, an unknown byte, and LinkADRAns.
abbrev commands : List ℕ
commands = 0x0b ∷ 1 ∷ 0x02 ∷ 0x10 ∷ 3 ∷ 0x77 ∷ 0x03 ∷ 7 ∷ []

mac_commands_example : Obeyed (pending fresh) 8 (parse_mac_command uplink commands 8 session fresh)
mac_commands_example =
    parse_mac_command_lem uplink commands 8 session fresh (omega arith) (inr refl)

abbrev eui : List ℕ
eui = 1 ∷ 2 ∷ 3 ∷ 4 ∷ 5 ∷ 6 ∷ 7 ∷ 8 ∷ []

abbrev lookup : ℕ → ℕ → Option ℕ
lookup dev_eui dev_addr = if dev_eui == 0x807_0605_0403_0201 then some 5 else none

abbrev rejoin_frame : Frame
rejoin_frame = rejoin_request1 (replicate 8 9) eui (4 ∷ 0 ∷ [])

get_mote_mtype_example : get_mote_mtype lookup (to_phy rejoin_frame) ≡ sender lookup rejoin_frame
get_mote_mtype_example = get_mote_mtype-to_phy lookup rejoin_frame (refl, refl)

abbrev packet : RxPkt
packet = record {
  freq_hz = 923_300_000;
  if_chain = 1;
  status = 0x10;
  count_us = 123_456;
  rf_chain = 0;
  modulation = 0x10;
  bandwidth = 3;
  datarate = 2;
  coderate = 1;
  rssi = 0xc2c8_0000;
  snr = 0x4110_0000;
  snr_min = 0;
  snr_max = 0;
  crc = 0xabcd;
  size = 14;
  payload = 0x40 ∷ replicate 13 7;
  modem_idx = 3;
}

parse_uplink_example : parse_uplink (to_wire packet) ≡ (
    if ltb 256 packet.size
    then size_too_big
    else if leb packet.size 11
    then rf_too_small
    else if not (get_or packet.payload 0 0 % 4 == 0)
    then unsupported_major
    else uplink_direct packet)
parse_uplink_example = parse_uplink-to_wire packet (omega arith)
