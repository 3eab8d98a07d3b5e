-- ===== src/NetworkServer/Collect/Sources.antt =====
-- An uplink from another network server.
use lo_ra_wan_backend.Base.{
  ℕ, ◌<◌, ◌≤◌, ◌≡◌, refl, sym, ap, ◌∙◌, arith, Bool, true, false, ltb, ◌==◌, u8, Bool-cases, inl,
  inr,
}
use lo_ra_wan_backend.Base.{List, ◌∷◌, length, Option, none, some}
use mathlib.Core.Path.{subst}
use lo_ra_wan_backend.Base.Buffer.{length-patch, take-patch, write_within}
use lo_ra_wan_backend.NetworkServer.Collect.{
  Progress, json, start_if_off, is_off, Mote, UlMetaData, GwInfo, rx2s,
}
use lo_ra_wan_backend.NetworkServer.Collect.Json.{
  Reply, Agreement, JsonUplink, phy, roaming_refusal, best_gateway, with_dev_eui, take_remote,
  weigh, weigh_parsed, take_json, examine, phy_uplink, uplink_json, add_requester, requester,
}
use lo_ra_wan_backend.NetworkServer.Collect.Strongest.{
  Heard, Kept, Collecting, Offered, token_length,
}

-- A request that is allowed and parsed, with a gateway whose token has the length of ours or more.
pub record Remote (a : Agreement) (u : JsonUplink) (eui : ℕ) : Type 0 where
  pub payload_type : u.payload_type ≡ phy
  pub allowed : roaming_refusal u.message_type a eui ≡ none
  pub md : UlMetaData
  pub parsed : u.ulmd ≡ some md
  pub gateway : GwInfo
  pub gateways : List GwInfo
  pub gw_list : md.gw_list ≡ gateway ∷ gateways
  pub text : List ℕ
  pub token : (best_gateway (gateway ∷ gateways)).ul_token ≡ some text
  pub long : token_length ≤ length text
  pub any : 0 < length u.pay_buf
  pub short : length u.pay_buf < 256

abbrev pub heard_remote : JsonUplink → List GwInfo → List ℕ → Heard
heard_remote u gw_list text = record {
  signal = (best_gateway gw_list).best_sq;
  snr = (best_gateway gw_list).rx_snr;
  frame = u.pay_buf;
  token = text;
}

gw_list-with_dev_eui : (eui : ℕ) (md : UlMetaData) → (with_dev_eui eui md).gw_list ≡ md.gw_list
gw_list-with_dev_eui eui md = ground arith

take_remote-Kept :
    (u : JsonUplink) (gw_list : List GwInfo) (text : List ℕ) (place eui : ℕ) (m : Mote)
    → (best_gateway gw_list).ul_token ≡ some text
    → token_length ≤ length text
    → length u.pay_buf < 256
    → Collecting eui m
    → (m' : Mote) × (take_remote u.pay_buf (best_gateway gw_list) place m ≡ some m')
      × Collecting eui m'
      × Kept (heard_remote u gw_list text) m'
unfolding take_remote
take_remote-Kept u gw_list text place eui m token long short c =
    rw (write_within m.ul_payload_bin 0 u.pay_buf (omega (arith, short, c.room))) (
      rw token (
        _,
        refl,
        record {
          dev_eui = c.dev_eui;
          room = length-patch m.ul_payload_bin 0 u.pay_buf ∙ c.room;
          roomy = omega (arith, long);
          running = c.running;
        },
        record {
          best_sq = refl;
          rx_snr = refl;
          frame =
              take-patch m.ul_payload_bin 0 u.pay_buf (u8 (length u.pay_buf)) (omega (arith, short))
                (omega (arith, short, c.room));
          token = refl;
        },
      ))

abbrev pub mote_after : Option (Reply × Mote) → Option Mote
mote_after none = none
mote_after (some (r, m)) = some m

weigh-Offered :
    (a : Agreement) (u : JsonUplink) (md : UlMetaData) (eui : ℕ) (m : Mote) (r : Remote a u eui)
    → Collecting eui m
    → Offered eui m
        (heard_remote u (r.gateway ∷ r.gateways) r.text)
        (mote_after (weigh u md (r.gateway ∷ r.gateways) m))
weigh-Offered a u md eui m r c =
    let gw_list : List GwInfo = r.gateway ∷ r.gateways in
    let added = add_requester (requester u true md false) m in
    let c' : Collecting eui added = record {
      dev_eui = c.dev_eui;
      room = c.room;
      roomy = c.roomy;
      running = c.running;
    } in
    elim (Bool-cases (ltb m.best_sq (best_gateway gw_list).best_sq)) [
      | inl better ↦
          let (m', taken, collecting, kept) =
            take_remote-Kept u gw_list r.text (length m.requesters) eui added r.token r.long r.short
              c' in
          rw better (rw taken (m', refl, collecting, inl (ground arith, kept)))
      | inr no_better ↦ rw no_better (
        added,
        refl,
        c',
        inr (
          ground arith,
          record { best_sq = refl; rx_snr = refl; bin = refl; len = refl; token = refl },
        ),
      )
    ]

start_if_off-running :
    (now rx2_seconds : ℕ) (p : Progress) (m : Mote)
    → is_off m.progress ≡ false
    → start_if_off now rx2_seconds p m ≡ m
start_if_off-running now rx2_seconds p m h = rw h

examine-weigh :
    (a : Agreement) (u : JsonUplink) (eui : ℕ) (m : Mote) (r : Remote a u eui)
    → m.dev_eui ≡ eui
    → examine a u m ≡ weigh u (with_dev_eui m.dev_eui r.md) (r.gateway ∷ r.gateways) m
unfolding phy_uplink
examine-weigh a u eui m r e =
    let allowed : roaming_refusal u.message_type a m.dev_eui ≡ none =
      ap (λ (k : ℕ). roaming_refusal u.message_type a k) e ∙ r.allowed in
    let known = with_dev_eui m.dev_eui r.md in
    rw (allowed, examine)
      (ap (take_json u m) r.payload_type
        ∙ ap (λ o. weigh_parsed u o m) r.parsed
        ∙ ap (λ l. weigh u known l m) (gw_list-with_dev_eui m.dev_eui r.md ∙ r.gw_list))

json-weigh :
    (now dl_rxwin : ℕ) (a : Agreement) (join_req : Bool) (u : JsonUplink) (eui : ℕ) (m : Mote)
    (r : Remote a u eui)
    → Collecting eui m
    → uplink_json now dl_rxwin a join_req u m
      ≡ weigh u (with_dev_eui m.dev_eui r.md) (r.gateway ∷ r.gateways) m
unfolding uplink_json
json-weigh now dl_rxwin a join_req u eui m r c =
    let any : (length u.pay_buf == 0) ≡ false = ground (arith, r.any) in
    rw any (
      ap (examine a u) (start_if_off-running now (rx2s dl_rxwin join_req) json m c.running)
      ∙ examine-weigh a u eui m r c.dev_eui)

pub uplink_json-Offered :
    (now dl_rxwin : ℕ) (a : Agreement) (join_req : Bool) (u : JsonUplink) (eui : ℕ) (m : Mote)
    (r : Remote a u eui)
    → Collecting eui m
    → Offered eui m
        (heard_remote u (r.gateway ∷ r.gateways) r.text)
        (mote_after (uplink_json now dl_rxwin a join_req u m))
uplink_json-Offered now dl_rxwin a join_req u eui m r c =
    subst (λ o. Offered eui m (heard_remote u (r.gateway ∷ r.gateways) r.text) (mote_after o))
      (sym (json-weigh now dl_rxwin a join_req u eui m r c))
      (weigh-Offered a u (with_dev_eui m.dev_eui r.md) eui m r c)
