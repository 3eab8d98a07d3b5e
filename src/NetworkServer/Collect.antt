-- ===== src/NetworkServer/Collect.antt =====
-- How the uplinks of a mote are collected, from its own gateways and from other network servers, until
-- one of them is taken: `mote_t` of network_server/ns.h, `save_uplink_start` of
-- network_server/common.c, `get_dr` and `fNS_uplink_direct` of network_server/fNS.c. A signal quality is an
-- `int`, counted from INT_MIN, and an SNR or RSSI an `int8_t`, counted from -128. The quality of a
-- local uplink is computed from floats and is given with the packet. The clock is an argument; the text of the time of reception, the position of a gateway and the
-- host time of the last read are left out.
pub mod Json
pub mod Strongest
pub mod Sources
pub mod Window
pub mod Hazards
use lo_ra_wan_backend.Base.{
  ℕ, zero, suc, ◌+◌, ◌-◌, ◌*◌, ◌/◌, ◌%◌, ◌^◌, Bool, true, false, not, ◌&&◌, ◌||◌, if◌then◌else◌,
  ltb, leb, ◌==◌, u8, ◌>>=◌,
}
use lo_ra_wan_backend.Base.{List, [], ◌∷◌, ◌++◌, length, take, Option, none, some}
use lo_ra_wan_backend.Base.Buffer.{write}
use lo_ra_wan_backend.NetworkServer.Adr.{max_datarates}
use lo_ra_wan_backend.NetworkServer.Token.{Token, token_text}
use lo_ra_wan_backend.NetworkServer.TxPacket.{Gateway}
use lo_ra_wan_backend.NetworkServer.Transmit.{DataRate}

pub data Progress : Type 0 where
  off local json : Progress

-- `GWInfo_t`
pub record GwInfo : Type 0 where
  pub id : ℕ
  pub rf_region : ℕ
  pub rssi : ℕ
  pub snr : ℕ
  pub ul_token : Option (List ℕ)

-- `ULMetaData_t`
pub record UlMetaData : Type 0 where
  pub dev_eui : ℕ
  pub dev_addr : ℕ
  pub data_rate : ℕ
  pub ul_freq : ℕ
  pub rf_region : ℕ
  pub gw_cnt : ℕ
  pub gw_list : List GwInfo
  pub fns_ul_token : Option (List ℕ)

pub data MessageType : Type 0 where
  pr_start_req hr_start_req xmit_data_req : MessageType

-- `requester_t`; the client is its NetID.
pub record Requester : Type 0 where
  pub needs_answer : Bool
  pub message_type : MessageType
  pub client_id : ℕ
  pub in_tid : ℕ
  pub ulmd : UlMetaData
  pub ans_ans : Bool

-- A string in memory of a certain size.
pub record Text : Type 0 where
  pub size : ℕ
  pub text : List ℕ

-- `best_r` points to a place in the list of requesters, where `none` is NULL; `first_uplink` and `release_uplink` are
-- in nanoseconds.
pub record Mote : Type 0 where
  pub dev_eui : ℕ
  pub dev_addr : ℕ
  pub progress : Progress
  pub first_uplink : ℕ
  pub release_uplink : ℕ
  pub best_sq : ℕ
  pub rx_snr : ℕ
  pub best_ul_token : Option Text
  pub ulmd_local : UlMetaData
  pub ul_frm_payload_len : ℕ
  pub ul_payload_bin : List ℕ
  pub ul_phy_payload_len : ℕ
  pub best_r : Option ℕ
  pub requesters : List (Option Requester)
  pub session_until : ℕ

abbrev pub request_waiting_local : ℕ
request_waiting_local = 200000000

abbrev pub is_off : Progress → Bool
is_off off = true
is_off local = false
is_off json = false

abbrev is_json : Progress → Bool
is_json off = false
is_json local = false
is_json json = true

-- `ulmd_free`: the token goes only if there is a gateway.
abbrev ulmd_free : UlMetaData → UlMetaData
ulmd_free md = record md {
  gw_cnt = 0;
  gw_list = [];
  fns_ul_token = elim md.gw_list [ [] ↦ md.fns_ul_token | g ∷ l ↦ none ];
}

-- `now` is the host time.
unfoldable pub save_uplink_start : ℕ → ℕ → Progress → Mote → Mote
save_uplink_start now rx2_seconds to_state m =
    let start = if is_json to_state then now - request_waiting_local else now in
    record m {
      ulmd_local = ulmd_free m.ulmd_local;
      requesters = [];
      best_r = none;
      best_sq = 0;
      first_uplink = start;
      release_uplink = start + rx2_seconds * 1000000000;
      progress = to_state;
      ul_phy_payload_len = 0;
      session_until = 0;
    }

-- The second window, or the first.
abbrev pub rx2s : ℕ → Bool → ℕ
rx2s dl_rxwin join_req =
    if dl_rxwin == 1 then if join_req then 5 else 1 else if join_req then 6 else 2

abbrev pub start_if_off : ℕ → ℕ → Progress → Mote → Mote
start_if_off now rx2_seconds to_state m =
    if is_off m.progress then save_uplink_start now rx2_seconds to_state m else m

-- The first data rate with this spreading factor and bandwidth, from `dr` on; `none` is
-- MAX_DATARATES.
unfoldable pub get_dr : List DataRate → ℕ → ℕ → ℕ → Option ℕ
get_dr [] dr datarate bandwidth = none
get_dr (d ∷ datarates) dr datarate bandwidth =
    if (datarate == d.lgw_sf_bps) && (bandwidth == d.lgw_bw)
    then some dr
    else get_dr datarates (suc dr) datarate bandwidth

-- What a gateway received.
pub record Packet : Type 0 where
  pub count_us : ℕ
  pub freq_hz : ℕ
  pub datarate : ℕ
  pub bandwidth : ℕ
  pub quality : ℕ
  pub rssi : ℕ
  pub snr : ℕ
  pub size : ℕ
  pub payload : List ℕ

abbrev pub token_of : Gateway → Packet → Token
token_of g p = record {
  fd = g.fd;
  count_us = p.count_us;
  seconds_at_beacon = g.seconds_at_beacon;
  tstamp_at_beacon = g.tstamp_at_beacon;
  lgw_trigcnt_at_next_beacon = g.lgw_trigcnt_at_next_beacon;
  beacon_ch = g.beacon_ch;
}

-- `strcpy` into the memory there is, or into new memory; `none` is a write behind its end.
unfoldable pub save_token : List ℕ → Option Text → Option Text
save_token text none = some record { size = length text + 1; text = text }
save_token text (some old) =
    if leb (length text + 1) old.size then some record old { text = text } else none

abbrev pub gw_info : Gateway → Packet → GwInfo
gw_info g p = record {
  id = g.eui;
  rf_region = g.rf_region;
  rssi = p.rssi;
  snr = p.snr;
  ul_token = some (token_text (token_of g p));
}

abbrev pub add_gateway : Gateway → Packet → Mote → Mote
add_gateway g p m = record m {
  ulmd_local = record m.ulmd_local {
    gw_list = m.ulmd_local.gw_list ++ gw_info g p ∷ [];
    gw_cnt = u8 (m.ulmd_local.gw_cnt + 1);
  };
}

-- Better than all before.
unfoldable pub take_local : Gateway → Packet → ℕ → Mote → Option Mote
unfolding save_token
take_local g p dr m = do
  token ← save_token (token_text (token_of g p)) m.best_ul_token
  bin ← write m.ul_payload_bin 0 (take p.size p.payload)
  some (record m {
    best_sq = p.quality;
    rx_snr = p.snr;
    best_ul_token = some token;
    ul_payload_bin = bin;
    ul_phy_payload_len = u8 p.size;
    ulmd_local = record m.ulmd_local {
      rf_region = g.rf_region;
      data_rate = dr;
      dev_eui = m.dev_eui;
      dev_addr = m.dev_addr;
      ul_freq = p.freq_hz;
    };
  })

-- `none` is a write behind the end of an array or string. `join_req` is what `GetMoteMtype` says
-- with the mote.
unfoldable pub uplink_direct : ℕ → ℕ → List DataRate → Gateway → Packet → Bool → Mote → Option Mote
unfolding get_dr save_uplink_start take_local
uplink_direct now dl_rxwin datarates g p join_req m =
    elim (get_dr (take max_datarates datarates) 0 p.datarate p.bandwidth) [
      | none ↦ some m
      | some dr ↦
          let added = add_gateway g p (start_if_off now (rx2s dl_rxwin join_req) local m) in
          if ltb added.best_sq p.quality then take_local g p dr added else some added
    ]
