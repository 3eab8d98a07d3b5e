-- ===== src/NetworkServer/Uplink/Survives.antt =====
-- Every uplink that `sNS_uplink` of network_server/sNS.c takes ends with `s_t` as it should be.
use lo_ra_wan_backend.Base.{ℕ, ◌≤◌, ◌≡◌, refl, ◌∙◌, arith}
use lo_ra_wan_backend.Base.{
  u8, u16, leb, ◌+◌, ◌||◌, Bool, true, false, not, ◌&&◌, if◌then◌else◌, ltb, ◌==◌, if_either,
}
use lo_ra_wan_backend.Base.{List, length, take, Option, none, some, ◌>>=◌}
use lo_ra_wan_backend.Base.Buffer.{length-patch}
use lo_ra_wan_backend.NetworkServer.Integrity.{rx_mic4, check_mic, check_cmac_s}
use lo_ra_wan_backend.NetworkServer.FrameCounter.{uplink_fcnt}
use lo_ra_wan_backend.NetworkServer.ForceRejoin.{force_rejoin, force_rejoin_lem, force_rejoin-none}
use lo_ra_wan_backend.NetworkServer.Downlink.{
  MoteSession, Server, mtype, mtype_conf_up, fctrl_bit, rx_fcnt,
}
use lo_ra_wan_backend.NetworkServer.Downlink.Outcome.{answer_app, incr_nfcnt}
use lo_ra_wan_backend.NetworkServer.Downlink.Schedule.{IsServer, schedule_downlink-Keeps}
use lo_ra_wan_backend.NetworkServer.Downlink.Steps.{idle_or_unsent, answer_app-IsServer}
use lo_ra_wan_backend.NetworkServer.Uplink.{
  Arrival, UplinkResult, SessionCheck, stop, go_on, check_session, MicResult, check_mic_1v1,
  check_uplink_mic, take_ack, forget_old_sessions, success, no_session, delete_old_sessions,
  is_positive, cmac_s, accept, judge, count_uplink, after_check, sns_uplink, resending,
}
use lo_ra_wan_backend.NetworkServer.Uplink.Keeps.{
  IsArrival, Quiet-IsServer, start_session-Quiet, uplink_adr-Quiet, uplink_commands-Quiet,
}

-- The uplink was handled, and LoRaWAN is of the same version afterwards.
pub record Survives (opt_neg : Bool) (result : Option UplinkResult) : Type 0 where
  pub handled : UplinkResult
  pub returns : result ≡ some handled
  pub version : handled.session.opt_neg ≡ opt_neg
  pub valid : IsServer handled.server

-- A genuine uplink was handled: the verdict, and the counter for the database.
pub record Accepted (n : MoteSession) (fcnt_up : ℕ) (result : Option UplinkResult) : Type 0 where
  pub survives : Survives n.opt_neg result
  pub passed : survives.handled.verdict ≡ success
  pub counter : survives.handled.sql_fcnt_up ≡ (if fcnt_up == n.fcnt_up then none else some fcnt_up)

pub take_ack-IsServer : (n : MoteSession) (s : Server) → IsServer s → IsServer (take_ack n s).1
unfolding take_ack
take_ack-IsServer n s v =
    let d = s.downlink in
    let sent = (d.md_confirmed && ltb 0 d.frm_payload_len) && not (d.resend_at == 0) in
    record {
      ready = v.ready;
      room = v.room;
      conf_room = v.conf_room;
      frm_room = v.frm_room;
      frm_fits = if_either (λ (l : ℕ). l ≤ 227) sent (omega arith) v.frm_fits;
      len_fits = v.len_fits;
      conf_fits = v.conf_fits;
    }

take_ack-opt_neg : (n : MoteSession) (s : Server) → (take_ack n s).0.opt_neg ≡ n.opt_neg
unfolding take_ack incr_nfcnt
take_ack-opt_neg n s =
    if_either (λ (m : MoteSession). m.opt_neg ≡ n.opt_neg) s.incr_nfcnt_down refl refl

pub forgotten-IsServer :
    (a : Arrival) (s : Server) → IsServer s → IsServer (forget_old_sessions a s)
forgotten-IsServer a s v =
    if_either IsServer (not a.sql_opt_neg && s.commands.check_old_sessions)
      record {
        ready = v.ready;
        room = v.room;
        conf_room = v.conf_room;
        frm_room = v.frm_room;
        frm_fits = v.frm_fits;
        len_fits = v.len_fits;
        conf_fits = v.conf_fits;
      }
      v

pub flagged-IsServer :
    (b : Bool) (s : Server) → IsServer s → IsServer (record s { up_confre_sent = b })
flagged-IsServer b s v = record {
  ready = v.ready;
  room = v.room;
  conf_room = v.conf_room;
  frm_room = v.frm_room;
  frm_fits = v.frm_fits;
  len_fits = v.len_fits;
  conf_fits = v.conf_fits;
}

pub counted-IsServer : (s : Server) → IsServer s → IsServer (record s { new_fcnt_up = true })
counted-IsServer s v = record {
  ready = v.ready;
  room = v.room;
  conf_room = v.conf_room;
  frm_room = v.frm_room;
  frm_fits = v.frm_fits;
  len_fits = v.len_fits;
  conf_fits = v.conf_fits;
}

resending-IsServer : (s : Server) → IsServer s → IsServer (resending s)
resending-IsServer s v = record {
  ready = v.ready;
  room =
      length-patch s.downlink.phy_payload_bin 0
        (take s.conf_dl_phy_payload_len s.conf_dl_phy_payload_bin)
      ∙ v.room;
  conf_room = v.conf_room;
  frm_room = v.frm_room;
  frm_fits = v.frm_fits;
  len_fits = v.conf_fits;
  conf_fits = v.conf_fits;
}

-- The test of the session goes on with a server that is as it should be, or stops with one.
server_after : SessionCheck → Server
server_after (stop v s) = s
server_after (go_on s) = s

record Checks (result : Option SessionCheck) : Type 0 where
  check : SessionCheck
  returns : result ≡ some check
  valid : IsServer (server_after check)

rejoin-Checks :
    (a : Arrival) (s : Server) (dr_min : Option ℕ)
    → IsServer s
    → Checks (
        force_rejoin dr_min s.queue s.type2_rejoin_count 2 >>= λ r.
        some (go_on (record s { queue = r.0; type2_rejoin_count = r.1 })))
unfolding server_after
rejoin-Checks a s none v = record {
  check = go_on s;
  returns = rw (force_rejoin-none s.queue s.type2_rejoin_count 2) refl;
  valid = v;
}
rejoin-Checks a s (some dr_min) v =
    let (q, returns, ready, now) = force_rejoin_lem dr_min 2 s.type2_rejoin_count s.queue v.ready in
    record {
      check = go_on (record s { queue = q; type2_rejoin_count = 3 });
      returns = rw returns refl;
      valid = record {
        ready = ready;
        room = v.room;
        conf_room = v.conf_room;
        frm_room = v.frm_room;
        frm_fits = v.frm_fits;
        len_fits = v.len_fits;
        conf_fits = v.conf_fits;
      };
    }

some-Checks : (c : SessionCheck) → IsServer (server_after c) → Checks (some c)
some-Checks c v = record { check = c; returns = refl; valid = v }

check_session-Checks : (a : Arrival) (s : Server) → IsServer s → Checks (check_session a s)
unfolding check_session server_after
check_session-Checks a s v =
    let t = if ltb 0 s.downlink.frm_payload_len then answer_app a.posted s else s in
    let told : IsServer t =
      if_either IsServer (ltb 0 s.downlink.frm_payload_len) (answer_app-IsServer a.posted s v) v in
    if_either Checks a.forever (some-Checks (go_on s) v) (
      if_either Checks (not a.has_session) (some-Checks (stop no_session s) v) (
        if_either Checks a.expired
          (if_either Checks a.sql_opt_neg (rejoin-Checks a s a.dr_min v) (
            some-Checks _ (
              if_either (λ c. IsServer (server_after c))
                (is_positive (delete_old_sessions a.delete_sent)) told told)))
          (some-Checks (go_on s) v)))

module _ (aes cmac : List ℕ → List ℕ → List ℕ) (stack : List ℕ) (dev_addr : ℕ)
    (block_size : (key block : List ℕ) → length (aes key block) ≡ 16) where
  pub accept-Accepted :
      (a : Arrival) (n : MoteSession) (fcnt_up : ℕ) (s : Server)
      → IsArrival a
      → 15 ≤ length stack
      → IsServer s
      → (n.opt_neg && (mtype a.ul_payload_bin == mtype_conf_up)) ≡ false
      → Accepted n fcnt_up (accept aes cmac stack dev_addr a n fcnt_up s)
  unfolding accept
  accept-Accepted a n fcnt_up s i k v usual =
      let ack = fctrl_bit 5 a.ul_payload_bin in
      let known = record n { null_nfcnt_down = false } in
      let old = forget_old_sessions a s in
      let acked = if ack then take_ack known old else (known, old) in
      let old_valid = forgotten-IsServer a s v in
      let valid : IsServer acked.1 =
        if_either (λ (r : MoteSession × Server). IsServer r.1) ack
          (take_ack-IsServer known old old_valid) old_valid in
      let version : acked.0.opt_neg ≡ n.opt_neg =
        if_either (λ (r : MoteSession × Server). r.0.opt_neg ≡ n.opt_neg) ack
          (take_ack-opt_neg known old) refl in
      let b = start_session-Quiet a acked.1 valid.ready in
      let c =
        uplink_commands-Quiet aes cmac stack dev_addr block_size a acked.0 fcnt_up b.server i
          b.ready in
      let d = uplink_adr-Quiet a c.server i c.ready in
      let d_valid = Quiet-IsServer _ _ d (Quiet-IsServer _ _ c (Quiet-IsServer _ _ b valid)) in
      let conf = mtype a.ul_payload_bin == mtype_conf_up in
      let repeats = (fcnt_up == n.fcnt_up) && conf in
      let z =
        schedule_downlink-Keeps aes cmac stack dev_addr block_size acked.0 a.ul_payload_bin
          (record d.server { up_confre_sent = repeats }) (flagged-IsServer repeats d.server d_valid)
          k
          (idle_or_unsent acked.0.opt_neg conf d.server.downlink.phy_payload_len
            (rw version usual)) in
      record {
        survives = record {
          handled = record {
            verdict = success;
            session = acked.0;
            server = z.server;
            dropped = false;
            fcnt_down = if a.sql_opt_neg then acked.1.afcnt_down else acked.0.nfcnt_down;
            sql_fcnt_up = if fcnt_up == n.fcnt_up then none else some fcnt_up;
          };
          returns = rw (b.returns, c.returns, d.returns, z.returns) refl;
          version = version;
          valid = z.valid;
        };
        passed = refl;
        counter = refl;
      }

  within_bounds :
      {A : Type 0} {b : Bool} (x : A) → b ≡ true → (y : A) × ((if b then some x else none) ≡ some y)
  within_bounds x e = (x, rw e refl)

  -- The MIC of a frame of 4 to 255 bytes is read inside the array.
  cmac_s-within :
      (a : Arrival) (n : MoteSession) (conf_fcnt ch fcnt_up : ℕ)
      → IsArrival a
      → (ok : Bool) × (cmac_s aes cmac stack dev_addr a n conf_fcnt ch fcnt_up ≡ some ok)
  unfolding check_cmac_s
  cmac_s-within a n conf_fcnt ch fcnt_up i =
      let inside : leb (u8 (a.ul_phy_payload_len + 252) + 2) (length a.ul_payload_bin) ≡ true =
        ground (arith, i.room, i.long, i.len_fits) in
      within_bounds _ inside

  pub rx_mic4-within :
      (a : Arrival)
      → IsArrival a
      → (mic : ℕ) × (rx_mic4 a.ul_payload_bin a.ul_phy_payload_len ≡ some mic)
  rx_mic4-within a i =
      let inside : (leb 4 a.ul_phy_payload_len
            && leb a.ul_phy_payload_len (length a.ul_payload_bin))
          ≡ true =
        ground (arith, i.room, i.long, i.len_fits) in
      within_bounds _ inside

  -- The test of the MIC ends, with a server as it should be.
  record Tested (result : Option MicResult) : Type 0 where
    tested : MicResult
    returns : result ≡ some tested
    valid : IsServer tested.server

  check_mic_1v1-Tested :
      (a : Arrival) (n : MoteSession) (ch fcnt_up : ℕ) (s : Server)
      → IsArrival a
      → IsServer s
      → Tested (check_mic_1v1 aes cmac stack dev_addr a n ch fcnt_up s)
  unfolding check_mic_1v1
  check_mic_1v1-Tested a n ch fcnt_up s i v =
      let (first, e1) = cmac_s-within a n s.conf_fcnt_down ch fcnt_up i in
      let (second, e2) = cmac_s-within a n (u16 (s.conf_fcnt_down + 0xffff)) ch fcnt_up i in
      let (third, e3) = cmac_s-within a n 0 ch fcnt_up i in
      let m : MicResult =
        if first
        then record { ok = true; drops = false; server = record s { conf_fcnt_down = 0 } }
        else if ltb 0 s.conf_dl_phy_payload_len
        then record { ok = second || third; drops = true; server = resending s }
        else record { ok = false; drops = true; server = s } in
      record {
        tested = m;
        returns = rw (e1, e2, e3) refl;
        valid =
            if_either (λ (m : MicResult). IsServer m.server) first
              record {
                ready = v.ready;
                room = v.room;
                conf_room = v.conf_room;
                frm_room = v.frm_room;
                frm_fits = v.frm_fits;
                len_fits = v.len_fits;
                conf_fits = v.conf_fits;
              }
              (if_either (λ (m : MicResult). IsServer m.server) (ltb 0 s.conf_dl_phy_payload_len)
                (resending-IsServer s v) v);
      }

  check_uplink_mic-Tested :
      (a : Arrival) (n : MoteSession) (fcnt_up : ℕ) (ch : Option ℕ) (s : Server)
      → IsArrival a
      → IsServer s
      → Tested (check_uplink_mic aes cmac stack dev_addr a n fcnt_up ch s)
  unfolding check_uplink_mic check_mic
  check_uplink_mic-Tested a n fcnt_up none s i v =
      let (mic, e) = rx_mic4-within a i in
      if_either Tested a.sql_opt_neg
        record {
          tested = record { ok = false; drops = false; server = s };
          returns = refl;
          valid = v;
        }
        (rw e record {
          tested = record { ok = _; drops = true; server = s };
          returns = refl;
          valid = v;
        })
  check_uplink_mic-Tested a n fcnt_up (some c) s i v =
      let (mic, e) = rx_mic4-within a i in
      if_either Tested a.sql_opt_neg (check_mic_1v1-Tested a n c fcnt_up s i v) (
        rw e record {
          tested = record { ok = _; drops = true; server = s };
          returns = refl;
          valid = v;
        })

  judge-Survives :
      (a : Arrival) (n : MoteSession) (fcnt_up : ℕ) (m : MicResult)
      → IsArrival a
      → 15 ≤ length stack
      → IsServer m.server
      → (n.opt_neg && (mtype a.ul_payload_bin == mtype_conf_up)) ≡ false
      → Survives n.opt_neg (judge aes cmac stack dev_addr a n fcnt_up m)
  unfolding judge
  judge-Survives a n fcnt_up m i k v usual =
      if_either (Survives n.opt_neg) m.ok
        (accept-Accepted a n fcnt_up m.server i k v usual).survives
        record { handled = _; returns = refl; version = refl; valid = v }

  count_uplink-Survives :
      (a : Arrival) (n : MoteSession) (s : Server) (fcnt : Option ℕ)
      → IsArrival a
      → 15 ≤ length stack
      → IsServer s
      → (n.opt_neg && (mtype a.ul_payload_bin == mtype_conf_up)) ≡ false
      → Survives n.opt_neg (count_uplink aes cmac stack dev_addr a n s fcnt)
  unfolding count_uplink
  count_uplink-Survives a n s none i k v usual = record {
    handled = _;
    returns = refl;
    version = refl;
    valid = v;
  }
  count_uplink-Survives a n s (some fcnt_up) i k v usual =
      let t =
        check_uplink_mic-Tested a n fcnt_up a.ch (record s { new_fcnt_up = true }) i
          (counted-IsServer s v) in
      rw t.returns (judge-Survives a n fcnt_up t.tested i k t.valid usual)

  after_check-Survives :
      (a : Arrival) (n : MoteSession) (c : SessionCheck)
      → IsArrival a
      → 15 ≤ length stack
      → IsServer (server_after c)
      → (n.opt_neg && (mtype a.ul_payload_bin == mtype_conf_up)) ≡ false
      → Survives n.opt_neg (after_check aes cmac stack dev_addr a n c)
  unfolding after_check server_after
  after_check-Survives a n (stop verdict s) i k v usual = record {
    handled = _;
    returns = refl;
    version = refl;
    valid = v;
  }
  after_check-Survives a n (go_on s) i k v usual =
      count_uplink-Survives a n s (uplink_fcnt n.fcnt_up (rx_fcnt a.ul_payload_bin)) i k v usual

  -- Whatever the bytes of an uplink of 4 to 255 bytes are, the handler returns a verdict: its loops
  -- end, the MIC is read inside the array, nothing is written behind the end of an array, and `s_t`
  -- stays as it should be. In LoRaWAN 1.1 the uplink is not a confirmed one, for then the length of a
  -- frame that was not sent is kept.
  pub sns_uplink-Survives :
      (a : Arrival) (n : MoteSession) (s : Server)
      → IsArrival a
      → 15 ≤ length stack
      → IsServer s
      → (n.opt_neg && (mtype a.ul_payload_bin == mtype_conf_up)) ≡ false
      → Survives n.opt_neg (sns_uplink aes cmac stack dev_addr a n s)
  unfolding sns_uplink
  sns_uplink-Survives a n s i k v usual =
      let c = check_session-Checks a s v in
      rw c.returns (after_check-Survives a n c.check i k c.valid usual)
