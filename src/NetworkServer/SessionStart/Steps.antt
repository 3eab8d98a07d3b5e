-- ===== src/NetworkServer/SessionStart/Steps.antt =====
-- The MAC commands at the start of a session keep `s_t` as it should be (network_server/sNS.c,
-- network_server/band_arib8ch.c).
use lo_ra_wan_backend.Base.{ℕ, ◌/◌, ◌<◌, ◌≤◌, ◌≡◌, refl, ◌∙◌, arith}
use lo_ra_wan_backend.Base.{Bool, true, false, if_either, u8, bit_or}
use lo_ra_wan_backend.Base.{List, [], ◌∷◌, get_or, length, Option, none, some, ◌>>=◌}
use lo_ra_wan_backend.NetworkServer.MacCommands.{Region}
use lo_ra_wan_backend.NetworkServer.MacQueue.Refine.{IsReady}
use lo_ra_wan_backend.NetworkServer.MacQueue.Accept.{put_queue_mac_cmds_lem}
use lo_ra_wan_backend.NetworkServer.Downlink.{Server}
use lo_ra_wan_backend.NetworkServer.SessionStart.{
  DeviceProfile, ask, freq_bytes, ask_rx2, ask_class_b, ask_by_class, arib_init_session,
  ask_tx_param, init_session, set_ch_mask0, ch_mask0,
}

-- A call that changed neither the downlink nor the counters, and left the queue as it should be.
pub record Quiet (s : Server) (result : Option Server) : Type 0 where
  pub server : Server
  pub returns : result ≡ some server
  pub ready : IsReady server.queue
  pub downlink : server.downlink ≡ s.downlink
  pub conf_bin : server.conf_dl_phy_payload_bin ≡ s.conf_dl_phy_payload_bin
  pub conf_len : server.conf_dl_phy_payload_len ≡ s.conf_dl_phy_payload_len

pub quiet : (s : Server) → IsReady s.queue → Quiet s (some s)
quiet s r = record {
  server = s;
  returns = refl;
  ready = r;
  downlink = refl;
  conf_bin = refl;
  conf_len = refl;
}

-- One call after the other.
pub then-Quiet :
    (s : Server) (first : Option Server) (next : Server → Option Server)
    → Quiet s first
    → ((t : Server) → IsReady t.queue → Quiet t (next t))
    → Quiet s (first >>= next)
then-Quiet s first next a b =
    let c = b a.server a.ready in
    record {
      server = c.server;
      returns = rw a.returns c.returns;
      ready = c.ready;
      downlink = c.downlink ∙ a.downlink;
      conf_bin = c.conf_bin ∙ a.conf_bin;
      conf_len = c.conf_len ∙ a.conf_len;
    }

pub ask-Quiet :
    (s : Server) (cmd_len : ℕ) (cmd_buf : List ℕ)
    → IsReady s.queue
    → 0 < cmd_len
    → cmd_len ≤ length cmd_buf
    → 0 < get_or cmd_buf 0 0
    → Quiet s (ask s cmd_len cmd_buf)
ask-Quiet s cmd_len cmd_buf r pos fits id_pos =
    let p = put_queue_mac_cmds_lem s.queue cmd_len cmd_buf true r pos fits id_pos in
    record {
      server = record s { queue = p.queue };
      returns = rw p.returns refl;
      ready = p.ready;
      downlink = refl;
      conf_bin = refl;
      conf_len = refl;
    }

ask_rx2-Quiet : (freq dr : Option ℕ) (s : Server) → IsReady s.queue → Quiet s (ask_rx2 freq dr s)
unfolding ask_rx2
ask_rx2-Quiet none dr s r = quiet s r
ask_rx2-Quiet (some freq) none s r = quiet s r
ask_rx2-Quiet (some freq) (some dr) s r =
    ask-Quiet s 5 (0x05 ∷ u8 dr ∷ freq_bytes freq []) r (omega arith) (omega arith) (omega arith)

ask_class_b-Quiet :
    (profile : DeviceProfile) (region : Region) (dr freq : Option ℕ) (s : Server)
    → IsReady s.queue
    → Quiet s (ask_class_b profile region dr freq s)
unfolding ask_class_b
ask_class_b-Quiet profile region none freq s r = quiet s r
ask_class_b-Quiet profile region (some dr) none s r = quiet s r
ask_class_b-Quiet profile region (some dr) (some freq) s r =
    then-Quiet s _ _
      (ask-Quiet s 5 (0x11 ∷ freq_bytes freq (u8 dr ∷ [])) r (omega arith) (omega arith)
        (omega arith))
      (λ t q.
        then-Quiet t _ _
          (ask-Quiet t 4 (0x13 ∷ freq_bytes (region.beacon_hz / 100) []) q (omega arith)
            (omega arith) (omega arith))
          (λ u p. ask_rx2-Quiet profile.rx_freq2 profile.rx_data_rate2 u p))

ask_by_class-Quiet :
    (profile : DeviceProfile) (region : Region) (b : Option Bool) (s : Server)
    → IsReady s.queue
    → Quiet s (ask_by_class profile region b s)
unfolding ask_by_class
ask_by_class-Quiet profile region none s r = quiet s r
ask_by_class-Quiet profile region (some true) s r =
    ask_class_b-Quiet profile region profile.ping_slot_dr profile.ping_slot_freq s r
ask_by_class-Quiet profile region (some false) s r =
    ask_rx2-Quiet profile.rx_freq2 profile.rx_data_rate2 s r

-- With other channels or flags it is as quiet.
pub requiet :
    (s t : Server) (result : Option Server)
    → t.downlink ≡ s.downlink
    → t.conf_dl_phy_payload_bin ≡ s.conf_dl_phy_payload_bin
    → t.conf_dl_phy_payload_len ≡ s.conf_dl_phy_payload_len
    → Quiet t result
    → Quiet s result
requiet s t result d b l q = record {
  server = q.server;
  returns = q.returns;
  ready = q.ready;
  downlink = q.downlink ∙ d;
  conf_bin = q.conf_bin ∙ b;
  conf_len = q.conf_len ∙ l;
}

arib_init_session-Quiet :
    (profile : DeviceProfile) (region : Region) (s : Server)
    → IsReady s.queue
    → Quiet s (arib_init_session profile region s)
unfolding arib_init_session
arib_init_session-Quiet profile region s r =
    requiet s (set_ch_mask0 s (bit_or (ch_mask0 s) 0x0038)) _ refl refl refl
      (ask_by_class-Quiet profile region profile.supports_class_b _ r)

ask_tx_param-Quiet :
    (octet : Option ℕ) (s : Server) → IsReady s.queue → Quiet s (ask_tx_param octet s)
unfolding ask_tx_param
ask_tx_param-Quiet none s r = quiet s r
ask_tx_param-Quiet (some octet) s r =
    ask-Quiet s 2 (0x09 ∷ octet ∷ []) r (omega arith) (omega arith) (omega arith)

pub init_session-Quiet :
    (profile : DeviceProfile) (region : Option Region) (s : Server)
    → IsReady s.queue
    → Quiet s (init_session profile region s)
unfolding init_session
init_session-Quiet profile none s r = quiet s r
init_session-Quiet profile (some region) s r =
    then-Quiet s _ _
      (if_either (Quiet s) region.init_session
        (then-Quiet s _ _ (arib_init_session-Quiet profile region s r)
          (λ t p. requiet t (record t { send_start_mac_cmds = true }) _ refl refl refl (quiet _ p)))
        (quiet s r))
      (λ t p. ask_tx_param-Quiet region.tx_param_setup t p)
