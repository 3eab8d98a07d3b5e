-- ===== src/NetworkServer/Uplink/Keeps.antt =====
-- Every uplink that `sNS_uplink` of network_server/sNS.c takes ends with `s_t` as it should be.
use lo_ra_wan_backend.Base.{ℕ, ◌+◌, ◌-◌, ◌<◌, ◌≤◌, ◌≡◌, refl, ap, sym, ◌∙◌, arith}
use lo_ra_wan_backend.Base.{true, false, ◌&&◌, ◌||◌, ltb, ◌==◌, if_either}
use lo_ra_wan_backend.Base.{List, length, get_or, drop, length-drop, Option, none, some}
use mathlib.Core.Path.{subst}
use lo_ra_wan_backend.Backend.Cipher.Stream.{lora_encrypt_total}
use lo_ra_wan_backend.Base.Buffer.{patch}
use lo_ra_wan_backend.NetworkServer.MacQueue.Refine.{IsReady}
use lo_ra_wan_backend.NetworkServer.MacCommands.{Region}
use lo_ra_wan_backend.NetworkServer.Adr.{network_controller_uplink, network_controller_adr}
use lo_ra_wan_backend.NetworkServer.Adr.Control.{
  network_controller_adr-Controls, network_controller_uplink-same, no_region,
}
use lo_ra_wan_backend.NetworkServer.SessionStart.Steps.{
  Quiet, quiet, then-Quiet, requiet, init_session-Quiet,
}
use lo_ra_wan_backend.NetworkServer.SessionStart.Answers.{parse_commands-Quiet}
use lo_ra_wan_backend.NetworkServer.Downlink.{MoteSession, Server, fopts_len, fctrl_bit}
use lo_ra_wan_backend.NetworkServer.Downlink.Schedule.{IsServer}
use lo_ra_wan_backend.NetworkServer.Uplink.{
  Arrival, uplink_commands, uplink_adr, start_session, rx_dev_addr,
}

abbrev pub RegionFits : Option Region → Type 0
RegionFits none = Unit
RegionFits (some r) = (r.uplink_dr_max < 256) × (r.max_txpwr_idx < 256)

-- The array has its size, the frame is as long as a MIC at least, and the region's limits are bytes.
pub record IsArrival (a : Arrival) : Type 0 where
  pub room : length a.ul_payload_bin ≡ 256
  pub long : 4 ≤ a.ul_phy_payload_len
  pub len_fits : a.ul_phy_payload_len ≤ 255
  pub region_fits : RegionFits a.info.region

pub Quiet-IsServer :
    (s : Server) (result : Option Server) (q : Quiet s result) → IsServer s → IsServer q.server
Quiet-IsServer s result q v = record {
  ready = q.ready;
  room = ap (λ d. length d.phy_payload_bin) q.downlink ∙ v.room;
  conf_room = ap length q.conf_bin ∙ v.conf_room;
  frm_room = ap (λ d. length d.frm_payload_bin) q.downlink ∙ v.frm_room;
  frm_fits = subst (λ d. d.frm_payload_len ≤ 227) (sym q.downlink) v.frm_fits;
  len_fits = subst (λ d. d.phy_payload_len ≤ 255) (sym q.downlink) v.len_fits;
  conf_fits = omega (arith, q.conf_len, v.conf_fits);
}

pub start_session-Quiet : (a : Arrival) (s : Server) → IsReady s.queue → Quiet s (start_session a s)
unfolding start_session
start_session-Quiet a s r =
    let begun = record s { commands = record s.commands { session_start_at_uplink = false } } in
    if_either (Quiet s) s.commands.session_start_at_uplink
      (requiet s begun _ refl refl refl (init_session-Quiet a.profile a.info.region begun r))
      (quiet s r)

fopts_lt : (ul : List ℕ) → fopts_len ul ≤ 15
fopts_lt ul = omega arith

-- A server after adaptive data rate.
adapted-Quiet :
    (region : Option Region) (data_rate : ℕ) (s : Server)
    → RegionFits region
    → IsReady s.queue
    → Quiet s (network_controller_adr region data_rate s)
adapted-Quiet none data_rate s h r = rw (no_region data_rate s) (quiet s r)
adapted-Quiet (some region) data_rate s h r =
    let c = network_controller_adr-Controls region data_rate s h.0 h.1 r in
    record {
      server = c.server;
      returns = c.returns;
      ready = c.ready;
      downlink = c.same;
      conf_bin = c.same_conf;
      conf_len = c.same_conf_len;
    }

pub uplink_adr-Quiet :
    (a : Arrival) (s : Server) → IsArrival a → IsReady s.queue → Quiet s (uplink_adr a s)
unfolding uplink_adr
uplink_adr-Quiet a s v r =
    let t = network_controller_uplink s a.info.rx_snr in
    let (ready, same_down, same_bin, same_len) = network_controller_uplink-same s a.info.rx_snr in
    requiet s t _ same_down same_bin same_len (
      if_either (Quiet t) (fctrl_bit 7 a.ul_payload_bin || t.force_adr)
        (then-Quiet t _ _ (adapted-Quiet a.info.region a.data_rate t v.region_fits (ready r))
          (λ u p. requiet u (record u { force_adr = false }) _ refl refl refl (quiet _ p)))
        (quiet t (ready r)))

module _ (aes cmac : List ℕ → List ℕ → List ℕ) (stack : List ℕ) (dev_addr : ℕ)
    (block_size : (key block : List ℕ) → length (aes key block) ≡ 16) where
  pub uplink_commands-Quiet :
      (a : Arrival) (n : MoteSession) (fcnt_up : ℕ) (s : Server)
      → IsArrival a
      → IsReady s.queue
      → Quiet s (uplink_commands aes cmac stack dev_addr a n fcnt_up s)
  unfolding uplink_commands
  uplink_commands-Quiet a n fcnt_up s v r =
      let ul = a.ul_payload_bin in
      let rxofs = 8 + fopts_len ul in
      let frm_len = a.ul_phy_payload_len - 4 - (rxofs + 1) in
      let opts_lt = fopts_lt ul in
      let (payload, payload_returns) =
        lora_encrypt_total aes block_size n.nwk_s_enc_key (rx_dev_addr a) true fcnt_up 1 frm_len
          (drop (rxofs + 1) ul) (omega arith) (omega (arith, v.len_fits))
          (omega (arith, v.len_fits, v.room, length-drop (rxofs + 1) ul)) in
      let (opts, opts_returns) =
        lora_encrypt_total aes block_size n.nwk_s_enc_key (rx_dev_addr a) true fcnt_up 0
          (fopts_len ul) (drop 8 ul) (omega arith) (omega arith)
          (omega (arith, v.room, length-drop 8 ul)) in
      rw (payload_returns, opts_returns)
        (if_either (Quiet s) (ltb rxofs (a.ul_phy_payload_len - 4) && (get_or ul rxofs 0 == 0))
          (parse_commands-Quiet a.info (patch a.decrypted_before 0 payload) frm_len s
            (omega (arith, v.len_fits)) r)
          (if_either (Quiet s) (ltb 0 (fopts_len ul))
            (if_either (Quiet s) a.sql_opt_neg
              (parse_commands-Quiet a.info (patch a.decrypted_before 0 opts) (fopts_len ul) s
                (omega arith) r)
              (parse_commands-Quiet a.info (drop 8 ul) (fopts_len ul) s (omega arith) r))
            (quiet s r)))
