-- ===== src/Tests/Serving.antt =====
-- Uplinks and downlinks of the serving network server on concrete frames (network_server/sNS.c,
-- network_server/adr.c).
use lo_ra_wan_backend.Base.{
  ℕ, ◌≡◌, refl, true, false, Bool, some, none, List, [], ◌∷◌, ◌++◌, length, All, replicate, arith,
  inr, ◌%◌, ◌<◌, ◌≤◌, max,
}
use lo_ra_wan_backend.NetworkServer.MacQueue.{fresh}
use lo_ra_wan_backend.NetworkServer.MacQueue.Script.{put}
use lo_ra_wan_backend.NetworkServer.MacCommands.{Region, Session, pos}
use lo_ra_wan_backend.NetworkServer.Downlink.{MoteSession, Server, schedule_downlink}
use lo_ra_wan_backend.NetworkServer.Downlink.Outcome.{
  AppDownlink, store_downlink, stored, success, failed,
}
use lo_ra_wan_backend.NetworkServer.Downlink.Schedule.{IsServer}
use lo_ra_wan_backend.NetworkServer.Downlink.EndDevice.{Reaches, schedule_downlink-Reaches}
use lo_ra_wan_backend.NetworkServer.Uplink.Life.{
  Event, payload, uplink, report, queue_call, life, Lives, life-Lives,
}
use lo_ra_wan_backend.NetworkServer.Uplink.Delivery.{with_payload, Delivers, payload_delivered}
use lo_ra_wan_backend.Base.{take}
use lo_ra_wan_backend.Base.Buffer.{patch}
use lo_ra_wan_backend.NetworkServer.Adr.{network_controller_adr}
use lo_ra_wan_backend.NetworkServer.Adr.Control.{
  Controls, aim_rate, aim_power, is_steady, margin, network_controller_adr_lem,
}
use lo_ra_wan_backend.NetworkServer.Uplink.{Arrival, sns_uplink}
use lo_ra_wan_backend.NetworkServer.Uplink.Keeps.{IsArrival}
use lo_ra_wan_backend.NetworkServer.Uplink.Survives.{Survives, sns_uplink-Survives}

-- Functions that stand for AES and CMAC.
abbrev mix : List ℕ → List ℕ → List ℕ
mix key msg = length key % 256 ∷ length msg % 256 ∷ replicate 14 0x5a

mix_bytes : (key msg : List ℕ) → All (λ b. b < 256) (mix key msg)
mix_bytes key msg = omega arith

abbrev behind : List ℕ
behind = replicate 16 0xee

abbrev session : Session
session = record {
  ch_mask = 0xff ∷ [];
  snr_history = pos 9 ∷ pos 8 ∷ pos 7 ∷ [];
  txpwr_idx = 0;
  ping_slot_info = 0;
  ping_period = 0;
  ping_offset = 0;
  class_mode_ind = 0;
  check_old_sessions = true;
  session_start_at_uplink = true;
  deleted = 0;
}

abbrev pub idle : Server
idle = record {
  commands = session;
  queue = fresh;
  conf_fcnt_down = 0;
  afcnt_down = 0;
  conf_dl_phy_payload_bin = replicate 256 0;
  conf_dl_phy_payload_len = 0;
  downlink = record {
    md_fcnt_down = 7;
    md_fport = 3;
    md_confirmed = true;
    phy_payload_bin = replicate 256 0;
    phy_payload_len = 0;
    frm_payload_bin = replicate 244 0x11;
    frm_payload_len = 5;
    frm_sent = false;
    resend_at = 0;
  };
  incr_nfcnt_down = false;
  new_fcnt_up = true;
  up_confre_sent = false;
  answer_app_downlink = false;
  force_adr = false;
  send_start_mac_cmds = false;
  snr_history_idx = 0;
  type2_rejoin_count = 0;
}

idle-IsServer : IsServer idle
idle-IsServer = record {
  ready = inr refl;
  room = refl;
  conf_room = refl;
  frm_room = refl;
  frm_fits = omega arith;
  len_fits = omega arith;
  conf_fits = omega arith;
}

abbrev pub keys : Bool → MoteSession
keys opt_neg = record {
  opt_neg = opt_neg;
  fcnt_up = 40;
  nfcnt_down = 7;
  null_nfcnt_down = false;
  nwk_s_enc_key = replicate 16 1;
  s_nwk_s_int_key = replicate 16 2;
}

-- A confirmed uplink with the counter 41 and two bytes of FOpts.
abbrev frame : List ℕ
frame = 0x80 ∷ 1 ∷ 0 ∷ 0 ∷ 0x26 ∷ 0x82 ∷ 41 ∷ 0 ∷ 2 ∷ 2 ∷ 9 ∷ 9 ∷ 9 ∷ 9 ∷ []

abbrev region : Region
region = record {
  init_ch_mask = 0xff ∷ [];
  default_txpwr_idx = 0;
  max_txpwr_idx = 5;
  uplink_dr_max = 5;
  beacon_hz = 923_400_000;
  init_session = true;
  tx_param_setup = some 0x25;
}

abbrev arrival : Arrival
arrival = record {
  ul_payload_bin = frame ++ replicate 242 0;
  ul_phy_payload_len = 14;
  data_rate = 2;
  ch = some 0;
  forever = false;
  has_session = true;
  expired = true;
  sql_opt_neg = false;
  delete_sent = true;
  dr_min = none;
  posted = true;
  decrypted_before = replicate 256 0xdd;
  profile = record {
    supports_class_b = some true;
    ping_slot_dr = some 3;
    ping_slot_freq = some 9_234_000;
    rx_freq2 = some 9_232_000;
    rx_data_rate2 = some 2;
  };
  info = record {
    rx_snr = pos 7;
    gw_cnt = 2;
    has_dev_eui = true;
    dev_addr = 0x2600_0001;
    opt_neg = 0;
    region = some region;
    is_us902 = false;
    beacon_ch = 0;
    count_us = 5_000_000;
    tstamp_at_beacon = 1_000_000;
    seconds_at_beacon = 77;
    i_diff = 12;
    fraction = λ us. us;
    aes = mix;
  };
}

arrival-IsArrival : IsArrival arrival
arrival-IsArrival = record {
  room = refl;
  long = omega arith;
  len_fits = omega arith;
  region_fits = omega arith;
}

handler_example : Survives false (sns_uplink mix mix behind 0x2600_0001 arrival (keys false) idle)
handler_example =
    sns_uplink-Survives mix mix behind 0x2600_0001 (λ key block. refl) arrival (keys false) idle
      arrival-IsArrival (omega arith) idle-IsServer refl

end_device_example :
    Reaches mix mix behind 0x2600_0001
      (λ key block. refl)
      (λ key msg. refl)
      mix_bytes
      (keys true)
      frame
      idle
      (schedule_downlink mix mix behind 0x2600_0001 (keys true) frame idle)
end_device_example =
    schedule_downlink-Reaches mix mix behind 0x2600_0001 (λ key block. refl) (λ key msg. refl)
      mix_bytes (keys true) frame idle idle-IsServer (omega arith) (omega arith) refl refl

abbrev greeting : AppDownlink
greeting = record { payload = 1 ∷ 2 ∷ 3 ∷ []; fcnt_down = 7; fport = 4; confirmed = false }

abbrev events : List Event
events =
    payload false false greeting
    ∷ queue_call (put 2 (4 ∷ 9 ∷ []) true)
    ∷ uplink arrival
    ∷ report success true
    ∷ uplink arrival
    ∷ report failed false
    ∷ []

life_example : Lives false (life mix mix behind 0x2600_0001 (keys false) idle events)
life_example =
    life-Lives mix mix behind 0x2600_0001 (λ key block. refl) (keys false) idle events (omega arith)
      idle-IsServer
      (
        omega arith,
        (
          (omega arith, omega arith, omega arith),
          ((arrival-IsArrival, refl), (tt, ((arrival-IsArrival, refl), (tt, tt)))),
        ),
      )

-- The same uplink with its MIC, in a session that lasts.
abbrev heard : Arrival
heard = record arrival {
  ul_payload_bin =
      0x80 ∷ 1 ∷ 0 ∷ 0 ∷ 0x26 ∷ 0x82 ∷ 41 ∷ 0 ∷ 2 ∷ 2 ∷ 16 ∷ 26 ∷ 0x5a ∷ 0x5a ∷ replicate 242 0;
  expired = false;
}

heard-IsArrival : IsArrival heard
heard-IsArrival = record {
  room = refl;
  long = omega arith;
  len_fits = omega arith;
  region_fits = omega arith;
}

delivered_example :
    (store_downlink false false (keys false) greeting idle
      ≡ some (stored (with_payload greeting idle)))
    × (take 3 (patch idle.downlink.frm_payload_bin 0 (1 ∷ 2 ∷ 3 ∷ [])) ≡ 1 ∷ 2 ∷ 3 ∷ [])
    × Delivers mix mix behind 0x2600_0001
        (λ key block. refl)
        (λ key msg. refl)
        mix_bytes
        heard
        (with_payload greeting idle)
        (sns_uplink mix mix behind 0x2600_0001 heard (keys false) (with_payload greeting idle))
unfolding lo_ra_wan_backend.NetworkServer.Integrity.check_mic
delivered_example =
    payload_delivered mix mix behind 0x2600_0001 (λ key block. refl) (λ key msg. refl) mix_bytes
      false heard (keys false) greeting idle heard-IsArrival (omega arith) idle-IsServer
      (omega arith) (refl, refl) refl (omega arith) (omega arith) (refl, refl) refl
      (omega arith, omega arith) refl refl refl refl

adr_example :
    Controls region 2 idle
      (is_steady (pos 9) (pos 8) (pos 7) 2)
      (margin (pos 9) (pos 8) (pos 7))
      (network_controller_adr (some region) 2 idle)
    × (2 ≤ aim_rate region 2 (is_steady (pos 9) (pos 8) (pos 7) 2) (margin (pos 9) (pos 8) (pos 7)))
    × (aim_rate region 2 (is_steady (pos 9) (pos 8) (pos 7) 2) (margin (pos 9) (pos 8) (pos 7))
        ≤ max 2 5)
    × (0
        ≤ aim_power region 2 0
            (is_steady (pos 9) (pos 8) (pos 7) 2)
            (margin (pos 9) (pos 8) (pos 7)))
    × (aim_power region 2 0 (is_steady (pos 9) (pos 8) (pos 7) 2) (margin (pos 9) (pos 8) (pos 7))
        ≤ max 0 5)
adr_example =
    network_controller_adr_lem region 2 idle (pos 9) (pos 8) (pos 7) (omega arith) (omega arith)
      (inr refl) refl (omega arith)
