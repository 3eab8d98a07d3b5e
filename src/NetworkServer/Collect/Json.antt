-- ===== src/NetworkServer/Collect/Json.antt =====
-- The uplinks that come from other network servers: `uplinkJson` of network_server/common.c. The database
-- and the JSON request are arguments; the meta data of a request that is answered at once are empty.
use lo_ra_wan_backend.Base.{
  ℕ, ◌+◌, ◌-◌, ◌*◌, ◌^◌, Bool, true, false, not, ◌&&◌, if◌then◌else◌, ltb, ◌==◌, u8, ◌>>=◌,
}
use lo_ra_wan_backend.Base.{List, [], ◌∷◌, ◌++◌, length, Option, none, some}
use lo_ra_wan_backend.Base.Buffer.{write}
use lo_ra_wan_backend.NetworkServer.MoteLookup.{none_dev_eui}
use lo_ra_wan_backend.NetworkServer.Collect.{
  json, GwInfo, UlMetaData, MessageType, pr_start_req, hr_start_req, xmit_data_req, Requester, Text,
  Mote, save_uplink_start, rx2s, start_if_off,
}

-- The gateway with the best signal of another network server.
pub record Best : Type 0 where
  pub best_sq : ℕ
  pub rx_snr : ℕ
  pub ul_token : Option (List ℕ)

-- 12 times the SNR and the RSSI, which are at least -128.
abbrev pub quality : GwInfo → ℕ
quality gi = gi.snr * 12 + gi.rssi + (2 ^ 31 - 128 * 13)

unfoldable pub best_from : List GwInfo → Best → Best
best_from [] b = b
best_from (gi ∷ gw_list) b = best_from gw_list (
    if ltb b.best_sq (quality gi)
    then record { best_sq = quality gi; rx_snr = gi.snr; ul_token = gi.ul_token }
    else b)

-- From INT_MIN and CHAR_MIN.
abbrev pub best_gateway : List GwInfo → Best
unfolding best_from
best_gateway gw_list = best_from gw_list record { best_sq = 0; rx_snr = 0; ul_token = none }

-- `realloc`, or new memory; without a token the old one stays.
abbrev pub replace_token : Option (List ℕ) → Option Text → Option Text
replace_token none old = old
replace_token (some text) old = some record { size = length text + 1; text = text }

-- What `uplinkJson` returns: nothing yet, or an answer at once.
pub data Reply : Type 0 where
  later other malformed_request no_roaming_agreement unknown_dev_addr unknown_dev_eui : Reply
  roaming_act_disallowed stale_device_profile : Reply

-- The `DeviceProfileTimestamp`: as new as ours, older with our profile added to the answer or not,
-- not there, or without one of ours to compare.
pub data ProfileCheck : Type 0 where
  current stale stale_unsent missing no_own_profile : ProfileCheck

-- What the database says of the other network and of the mote.
pub record Agreement : Type 0 where
  pub is_net_id : Bool
  pub motes_allowed : Option Bool
  pub device_profile : ProfileCheck

abbrev is_mote_allowed : ℕ → Option Bool → Option Reply
is_mote_allowed dev_eui none =
    some (if dev_eui == none_dev_eui then unknown_dev_addr else unknown_dev_eui)
is_mote_allowed dev_eui (some true) = none
is_mote_allowed dev_eui (some false) = some roaming_act_disallowed

abbrev check_profile : ProfileCheck → Option Reply
check_profile current = none
check_profile stale = some stale_device_profile
check_profile stale_unsent = some other
check_profile missing = some malformed_request
check_profile no_own_profile = some other

abbrev or_else : Option Reply → Option Reply → Option Reply
or_else (some r) next = some r
or_else none next = next

-- The answer to a roaming start that is not to be.
unfoldable pub roaming_refusal : MessageType → Agreement → ℕ → Option Reply
roaming_refusal xmit_data_req a dev_eui = none
roaming_refusal pr_start_req a dev_eui =
    if not a.is_net_id then some no_roaming_agreement else is_mote_allowed dev_eui a.motes_allowed
roaming_refusal hr_start_req a dev_eui =
    if not a.is_net_id
    then some no_roaming_agreement
    else or_else (is_mote_allowed dev_eui a.motes_allowed) (check_profile a.device_profile)

-- A PHYPayload, or a FRMPayload.
pub data PayloadType : Type 0 where
  phy frm : PayloadType

-- A request; `ulmd` is what `ParseULMetaData` reads, `none` where it fails.
pub record JsonUplink : Type 0 where
  pub message_type : MessageType
  pub client_id : ℕ
  pub req_tid : ℕ
  pub payload_type : PayloadType
  pub pay_buf : List ℕ
  pub ulmd : Option UlMetaData

abbrev pub no_meta_data : UlMetaData
no_meta_data = record {
  dev_eui = 0;
  dev_addr = 0;
  data_rate = 0;
  ul_freq = 0;
  rf_region = 0;
  gw_cnt = 0;
  gw_list = [];
  fns_ul_token = none;
}

-- A request that is answered at once has no answer to come; its meta data are empty.
abbrev pub requester : JsonUplink → Bool → UlMetaData → Bool → Requester
requester u needs_answer ulmd ans_ans = record {
  needs_answer = needs_answer;
  message_type = u.message_type;
  client_id = u.client_id;
  in_tid = u.req_tid;
  ulmd = ulmd;
  ans_ans = ans_ans;
}

-- At the end of the list.
abbrev pub add_requester : Requester → Mote → Mote
add_requester r m = record m { requesters = m.requesters ++ some r ∷ [] }

-- This network server knows the DevEUI, and the other one does not.
abbrev pub with_dev_eui : ℕ → UlMetaData → UlMetaData
with_dev_eui dev_eui md =
    if (md.dev_eui == none_dev_eui) && not (dev_eui == none_dev_eui)
    then record md { dev_eui = dev_eui }
    else md

-- The place of the new requester is that behind the old ones.
unfoldable pub take_remote : List ℕ → Best → ℕ → Mote → Option Mote
take_remote pay_buf b place m = do
  bin ← write m.ul_payload_bin 0 pay_buf
  some (record m {
    ul_payload_bin = bin;
    ul_phy_payload_len = u8 (length pay_buf);
    best_sq = b.best_sq;
    rx_snr = b.rx_snr;
    best_r = some place;
    best_ul_token = replace_token b.ul_token m.best_ul_token;
  })

-- The best gateway of the request against the best so far.
abbrev pub weigh : JsonUplink → UlMetaData → List GwInfo → Mote → Option (Reply × Mote)
weigh u md [] m = some (malformed_request, add_requester (requester u false md false) m)
weigh u md (g ∷ l) m =
    let b = best_gateway (g ∷ l) in
    let added = add_requester (requester u true md false) m in
    if ltb m.best_sq b.best_sq
    then (take_remote u.pay_buf b (length m.requesters) added >>= λ t. some (later, t))
    else some (later, added)

abbrev pub weigh_parsed : JsonUplink → Option UlMetaData → Mote → Option (Reply × Mote)
weigh_parsed u none m =
    some (malformed_request, add_requester (requester u false no_meta_data false) m)
weigh_parsed u (some md) m = let known = with_dev_eui m.dev_eui md in weigh u known known.gw_list m

unfoldable pub phy_uplink : JsonUplink → Mote → Option (Reply × Mote)
unfolding take_remote best_from
phy_uplink u m = weigh_parsed u u.ulmd m

unfoldable pub frm_uplink : JsonUplink → Mote → Option (Reply × Mote)
frm_uplink u m = elim u.ulmd [
  | none ↦ some (malformed_request, add_requester (requester u false no_meta_data false) m)
  | some md ↦ write m.ul_payload_bin 0 u.pay_buf >>= λ bin. some (
    later,
    record (add_requester (requester u true md true) m) {
      ul_frm_payload_len = length u.pay_buf;
      ul_payload_bin = bin;
    },
  )
]

abbrev pub take_json : JsonUplink → Mote → PayloadType → Option (Reply × Mote)
take_json u m phy = phy_uplink u m
take_json u m frm = frm_uplink u m

-- A roaming start has to be allowed.
abbrev pub examine : Agreement → JsonUplink → Mote → Option (Reply × Mote)
examine a u m = elim (roaming_refusal u.message_type a m.dev_eui) [
  | some r ↦ some (r, m)
  | none ↦ take_json u m u.payload_type
]

unfoldable pub uplink_json : ℕ → ℕ → Agreement → Bool → JsonUplink → Mote → Option (Reply × Mote)
unfolding save_uplink_start roaming_refusal phy_uplink frm_uplink
uplink_json now dl_rxwin a join_req u m =
    if length u.pay_buf == 0
    then some (malformed_request, m)
    else examine a u (start_if_off now (rx2s dl_rxwin join_req) json m)
