-- ===== src/Tests/Gathering.antt =====
-- Reports of one uplink on concrete data.
use lo_ra_wan_backend.Base.{◌≡◌, refl, arith, true, false, List, [], ◌∷◌, replicate, none, some}
use lo_ra_wan_backend.NetworkServer.TxPacket.{Gateway}
use lo_ra_wan_backend.NetworkServer.Transmit.{DataRate}
use lo_ra_wan_backend.NetworkServer.Collect.{
  off, local, GwInfo, UlMetaData, Mote, Packet, xmit_data_req, get_dr, uplink_direct,
}
use lo_ra_wan_backend.NetworkServer.Collect.Json.{
  Agreement, current, JsonUplink, phy, best_from, roaming_refusal,
}
use lo_ra_wan_backend.NetworkServer.Collect.Strongest.{Heard, Kept, Collecting, Local, heard_local}
use lo_ra_wan_backend.NetworkServer.Collect.Sources.{Remote, heard_remote}
use lo_ra_wan_backend.NetworkServer.Collect.Window.{
  Report, from_gateway, from_server, by_gateway, by_server, Hear, done, more, receive_all, Idle,
  FirstStrongest, receive_all_lem,
}
use lo_ra_wan_backend.NetworkServer.Collect.Hazards.{uplink_direct-best_r}

abbrev gateway : Gateway
gateway = record {
  fd = 7;
  eui = 70;
  rf_region = 2;
  seconds_at_beacon = 1_200_000_000;
  tstamp_at_beacon = 4_200_000_000;
  lgw_trigcnt_at_next_beacon = 33;
  beacon_ch = 3;
}

abbrev rates : List DataRate
rates =
    record { lgw_bw = 3; lgw_sf_bps = 4; fdev_khz = 0 }
    ∷ record { lgw_bw = 3; lgw_sf_bps = 2; fdev_khz = 0 }
    ∷ []

abbrev packet : Packet
packet = record {
  count_us = 1_000_000;
  freq_hz = 868_100_000;
  datarate = 2;
  bandwidth = 3;
  quality = 2_147_483_600;
  rssi = 60;
  snr = 134;
  size = 3;
  payload = 0x40 ∷ 1 ∷ 2 ∷ 3 ∷ [];
}

packet-Local : Local gateway packet rates
unfolding get_dr
packet-Local = record {
  dr = 1;
  known = refl;
  size = omega arith;
  payload = omega arith;
  any = omega arith;
}

abbrev far_gateway : GwInfo
far_gateway = record {
  id = 99;
  rf_region = 2;
  rssi = 30;
  snr = 120;
  ul_token = some (replicate 42 b'a');
}

abbrev far_data : UlMetaData
far_data = record {
  dev_eui = 5;
  dev_addr = 0x2600_0001;
  data_rate = 1;
  ul_freq = 868_100_000;
  rf_region = 2;
  gw_cnt = 1;
  gw_list = far_gateway ∷ [];
  fns_ul_token = none;
}

abbrev agreement : Agreement
agreement = record { is_net_id = true; motes_allowed = some true; device_profile = current }

abbrev request : JsonUplink
request = record {
  message_type = xmit_data_req;
  client_id = 0x13;
  req_tid = 1;
  payload_type = phy;
  pay_buf = 0x40 ∷ 1 ∷ 2 ∷ [];
  ulmd = some far_data;
}

request-Remote : Remote agreement request 5
unfolding best_from roaming_refusal
request-Remote = record {
  payload_type = refl;
  allowed = refl;
  md = far_data;
  parsed = refl;
  gateway = far_gateway;
  gateways = [];
  gw_list = refl;
  text = replicate 42 b'a';
  token = refl;
  long = omega arith;
  any = omega arith;
  short = omega arith;
}

abbrev idle : Mote
idle = record {
  dev_eui = 5;
  dev_addr = 0x2600_0001;
  progress = off;
  first_uplink = 0;
  release_uplink = 0;
  best_sq = 0;
  rx_snr = 0;
  best_ul_token = none;
  ulmd_local = record far_data { gw_list = [] };
  ul_frm_payload_len = 0;
  ul_payload_bin = replicate 256 0;
  ul_phy_payload_len = 0;
  best_r = none;
  requesters = [];
  session_until = 0;
}

abbrev far : Report
far = from_server 1_000_000_000 agreement request false

abbrev near : Report
near = from_gateway 1_100_000_000 rates gateway packet false

abbrev far_heard : Heard
far_heard = heard_remote request (far_gateway ∷ []) (replicate 42 b'a')

both_heard : Hear 5 (far ∷ near ∷ []) (far_heard ∷ heard_local gateway packet ∷ [])
unfolding request-Remote
both_heard = more (by_server request-Remote) (more (by_gateway packet-Local) done)

idle-Idle : Idle 5 idle
idle-Idle = record { dev_eui = refl; room = refl; roomy = tt; progress = refl }

receive_all_example :
    (m' : Mote) × (receive_all 1 (far ∷ near ∷ []) idle ≡ some m')
    × (h : Heard) × Kept h m'
    × FirstStrongest h (far_heard ∷ heard_local gateway packet ∷ [])
receive_all_example =
    receive_all_lem 1 5 far (near ∷ []) (far_heard ∷ heard_local gateway packet ∷ []) idle
      both_heard idle-Idle

abbrev remote_best : Mote
remote_best = record idle {
  progress = local;
  best_sq = 2_147_483_500;
  best_r = some 0;
  best_ul_token = some record { size = 43; text = replicate 42 b'a' };
}

remote_best-Collecting : Collecting 5 remote_best
remote_best-Collecting = record { dev_eui = refl; room = refl; roomy = omega arith; running = refl }

best_r_example :
    (m' : Mote) × (uplink_direct 0 1 rates gateway packet false remote_best ≡ some m')
    × Kept (heard_local gateway packet) m'
    × (m'.best_r ≡ some 0)
best_r_example =
    uplink_direct-best_r 0 1 rates gateway packet false 5 remote_best packet-Local
      remote_best-Collecting (omega arith) 0 refl
