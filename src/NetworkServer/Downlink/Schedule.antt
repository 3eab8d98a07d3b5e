-- ===== src/NetworkServer/Downlink/Schedule.antt =====
-- When `sNS_schedule_downlink` of network_server/sNS.c sends, and what holds of `s_t` afterwards.
use lo_ra_wan_backend.Base.{ℕ, ◌≤◌, ◌≡◌, refl, ◌∙◌, arith}
use lo_ra_wan_backend.Base.{Bool, true, false, not, ◌==◌, Bool-cases, inl, inr, ◌⊎◌, if_either}
use lo_ra_wan_backend.Base.{List, length, length-append, take, Option, some}
use lo_ra_wan_backend.Base.Buffer.{length-patch}
use lo_ra_wan_backend.NetworkServer.MacQueue.Deliver.{length-sending}
use lo_ra_wan_backend.NetworkServer.Downlink.Parts.{body_of, length-body_of}
use lo_ra_wan_backend.NetworkServer.MacQueue.Pending.{pending, is_empty}
use lo_ra_wan_backend.NetworkServer.MacQueue.Refine.{IsReady, are_mac_cmds_queued_lem}
use lo_ra_wan_backend.NetworkServer.Downlink.{
  MoteSession, Server, schedule_downlink, previously_unsent, nothing_to_send, save_confirmed, mtype,
  mtype_unconf_dn, mtype_conf_dn,
}
use lo_ra_wan_backend.NetworkServer.Downlink.Sending.{Sends, send_lem}

-- The arrays have their sizes, and the payload fits into a frame with 15 bytes of FOpts.
pub record IsServer (s : Server) : Type 0 where
  pub ready : IsReady s.queue
  pub room : length s.downlink.phy_payload_bin ≡ 256
  pub conf_room : length s.conf_dl_phy_payload_bin ≡ 256
  pub frm_room : length s.downlink.frm_payload_bin ≡ 244
  pub frm_fits : s.downlink.frm_payload_len ≤ 227
  pub len_fits : s.downlink.phy_payload_len ≤ 255
  pub conf_fits : s.conf_dl_phy_payload_len ≤ 255

-- Nothing is left to send: the queue is empty, and no condition of the uplink holds.
abbrev pub rests : List ℕ → Server → Bool
rests ul s = nothing_to_send ul s (not (is_empty (pending s.queue)))

module _ (aes cmac : List ℕ → List ℕ → List ℕ) (stack : List ℕ) (dev_addr : ℕ)
    (block_size : (key block : List ℕ) → length (aes key block) ≡ 16) where
  -- Whether it sends is decided by the five conditions; then the array gets the whole frame.
  pub schedule_downlink_lem :
      (n : MoteSession) (ul : List ℕ) (s : Server)
      → IsServer s
      → 15 ≤ length stack
      → s.downlink.phy_payload_len ≡ 0
      → ((rests ul s ≡ true) × (schedule_downlink aes cmac stack dev_addr n ul s ≡ some s))
        ⊎ ((rests ul s ≡ false)
            × Sends aes cmac stack dev_addr block_size n ul s
                (schedule_downlink aes cmac stack dev_addr n ul s))
  unfolding schedule_downlink
  schedule_downlink_lem n ul s v k idle =
      let queued = are_mac_cmds_queued_lem s.queue v.ready in
      let sent =
        send_lem aes cmac stack dev_addr block_size n ul s v.ready v.room idle v.frm_fits
          (omega (arith, v.frm_room, v.frm_fits)) k in
      let first : previously_unsent n ul s ≡ false = rw idle refl in
      elim (Bool-cases (rests ul s)) [
        | inl rest ↦ inl (rest, rw (queued, first, rest) refl)
        | inr wants ↦ inr (wants, rw (queued, first, wants) sent)
      ]

-- A call that returned a server that is as it should be.
pub record Keeps (result : Option Server) : Type 0 where
  pub server : Server
  pub returns : result ≡ some server
  pub valid : IsServer server

save_confirmed-IsServer : (s : Server) → IsServer s → IsServer (save_confirmed s)
unfolding save_confirmed
save_confirmed-IsServer s v =
    let t = mtype s.downlink.phy_payload_bin in
    if_either IsServer (t == mtype_unconf_dn)
      record {
        ready = v.ready;
        room = v.room;
        conf_room = v.conf_room;
        frm_room = v.frm_room;
        frm_fits = v.frm_fits;
        len_fits = v.len_fits;
        conf_fits = omega arith;
      }
      (if_either IsServer (t == mtype_conf_dn)
        record {
          ready = v.ready;
          room = v.room;
          conf_room =
              length-patch s.conf_dl_phy_payload_bin 0
                (take s.downlink.phy_payload_len s.downlink.phy_payload_bin)
              ∙ v.conf_room;
          frm_room = v.frm_room;
          frm_fits = v.frm_fits;
          len_fits = v.len_fits;
          conf_fits = v.len_fits;
        }
        v)

module _ (aes cmac : List ℕ → List ℕ → List ℕ) (stack : List ℕ) (dev_addr : ℕ)
    (block_size : (key block : List ℕ) → length (aes key block) ≡ 16) where
  Sends-Keeps :
      (n : MoteSession) (ul : List ℕ) (s : Server) (result : Option Server)
      → IsServer s
      → Sends aes cmac stack dev_addr block_size n ul s result
      → Keeps result
  Sends-Keeps n ul s result v t =
      let opts_len = length-sending 0 (pending s.queue) (omega arith) in
      let body_len = length-body_of n s in
      record {
        server = _;
        returns = t.returns;
        valid = save_confirmed-IsServer _ record {
          ready = t.delivers.ready;
          room = t.size;
          conf_room = v.conf_room;
          frm_room = v.frm_room;
          frm_fits = v.frm_fits;
          len_fits = omega (
            arith,
            opts_len,
            body_len,
            v.frm_fits,
            t.is_opts.size,
            length-append t.opts (body_of n s),
          );
          conf_fits = v.conf_fits;
        };
      }

  -- Sent or not, the server stays as it should be; a frame that waits is left alone.
  pub schedule_downlink-Keeps :
      (n : MoteSession) (ul : List ℕ) (s : Server)
      → IsServer s
      → 15 ≤ length stack
      → (s.downlink.phy_payload_len ≡ 0) ⊎ (previously_unsent n ul s ≡ true)
      → Keeps (schedule_downlink aes cmac stack dev_addr n ul s)
  unfolding schedule_downlink
  schedule_downlink-Keeps n ul s v k (inl idle) =
      elim (schedule_downlink_lem aes cmac stack dev_addr block_size n ul s v k idle) [
        | inl rest ↦ record { server = s; returns = rest.1; valid = v }
        | inr sent ↦ Sends-Keeps n ul s _ v sent.1
      ]
  schedule_downlink-Keeps n ul s v k (inr unsent) = record {
    server = s;
    returns = rw (are_mac_cmds_queued_lem s.queue v.ready, unsent) refl;
    valid = v;
  }
