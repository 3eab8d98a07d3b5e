-- ===== src/NetworkServer/Uplink.antt =====
-- An uplink at the serving network server: `sNS_uplink` of network_server/sNS.c. AES, CMAC, the SQL
-- database, the device and service profiles and floating point channels are not this code: they are
-- arguments. What goes to the SQL queue is in the result.
pub mod Keeps
pub mod Survives
pub mod Accepts
pub mod Life
pub mod Delivery
use lo_ra_wan_backend.Base.{
  ℕ, zero, suc, ◌+◌, ◌-◌, ◌*◌, ◌/◌, ◌%◌, ◌^◌, Bool, true, false, not, ◌&&◌, ◌||◌, if◌then◌else◌,
  ltb, ◌==◌, u8, u16, u32,
}
use lo_ra_wan_backend.Base.{List, [], ◌∷◌, length, get_or, take, drop, Option, none, some, ◌>>=◌}
use lo_ra_wan_backend.Base.Buffer.{patch}
use lo_ra_wan_backend.Backend.Cipher.{lora_encrypt}
use lo_ra_wan_backend.NetworkServer.FrameCounter.{uplink_fcnt}
use lo_ra_wan_backend.NetworkServer.Integrity.{Block, word4, check_mic, check_cmac_s}
use lo_ra_wan_backend.NetworkServer.ForceRejoin.{force_rejoin}
use lo_ra_wan_backend.NetworkServer.MacCommands.{Session, ℤ, pos, negsuc}
use lo_ra_wan_backend.NetworkServer.MacCommands
use lo_ra_wan_backend.NetworkServer.Adr.{network_controller_uplink, network_controller_adr}
use lo_ra_wan_backend.NetworkServer.SessionStart.{DeviceProfile, init_session, parse_commands}
use lo_ra_wan_backend.NetworkServer.Downlink.{
  MoteSession, Downlink, Server, mtype, mtype_conf_up, fopts_len, fctrl_bit, rx_fcnt,
  schedule_downlink,
}
use lo_ra_wan_backend.NetworkServer.Downlink.Outcome.{answer_app, incr_nfcnt}

-- The uplink and what is known of it. `ul_payload_bin` is the whole array; `ch` is `none` when the
-- region has no channel for the frequency; `decrypted_before` is what the memory of the local array
-- `decrypted` held before; `info` is what the MAC commands need.
pub record Arrival : Type 0 where
  pub ul_payload_bin : List ℕ
  pub ul_phy_payload_len : ℕ
  pub data_rate : ℕ
  pub ch : Option ℕ
  pub forever : Bool
  pub has_session : Bool
  pub expired : Bool
  pub sql_opt_neg : Bool
  pub delete_sent : Bool
  pub dr_min : Option ℕ
  pub posted : Bool
  pub decrypted_before : List ℕ
  pub profile : DeviceProfile
  pub info : MacCommands.Uplink

pub data Verdict : Type 0 where
  no_session delete_fail replay mic_failed success : Verdict

-- The session and server afterwards. `dropped` says that `ULPHYPayloadLen` is set to 0; `fcnt_down`
-- is for the application, and `sql_fcnt_up` the counter that is written to the database.
pub record UplinkResult : Type 0 where
  pub verdict : Verdict
  pub session : MoteSession
  pub server : Server
  pub dropped : Bool
  pub fcnt_down : ℕ
  pub sql_fcnt_up : Option ℕ

abbrev pub refuse : Verdict → Bool → MoteSession → Server → UplinkResult
refuse v dropped n s = record {
  verdict = v;
  session = n;
  server = s;
  dropped = dropped;
  fcnt_down = 0;
  sql_fcnt_up = none;
}

-- `deleteOldSessions` returns what `mq_send` does.
abbrev pub delete_old_sessions : Bool → ℤ
delete_old_sessions sent = if sent then pos 0 else negsuc 0

abbrev pub is_positive : ℤ → Bool
is_positive (pos n) = ltb 0 n
is_positive (negsuc n) = false

-- The test of the session: a verdict, or the server that goes on.
pub data SessionCheck : Type 0 where
  stop : Verdict → Server → SessionCheck
  go_on : Server → SessionCheck

abbrev expired_old : Arrival → Server → SessionCheck
expired_old a s =
    let t = if ltb 0 s.downlink.frm_payload_len then answer_app a.posted s else s in
    if is_positive (delete_old_sessions a.delete_sent) then stop delete_fail t else go_on t

pub check_session : Arrival → Server → Option SessionCheck
check_session a s =
    let rejoin : Option SessionCheck = (do
      r ← force_rejoin a.dr_min s.queue s.type2_rejoin_count 2
      some (go_on (record s { queue = r.0; type2_rejoin_count = r.1 }))) in
    if a.forever
    then some (go_on s)
    else if not a.has_session
    then some (stop no_session s)
    else if a.expired
    then if a.sql_opt_neg then rejoin else some (expired_old a s)
    else some (go_on s)

abbrev pub rx_dev_addr : Arrival → ℕ
rx_dev_addr a = word4 (drop 1 a.ul_payload_bin)

abbrev pub uplink_block : Arrival → ℕ → ℕ → ℕ → Block
uplink_block a conf_fcnt ch fcnt_up = record {
  header = 0x49;
  conf_fcnt = conf_fcnt;
  dr = a.data_rate;
  ch = ch;
  dir = 0;
  dev_addr = rx_dev_addr a;
  fcnt = fcnt_up;
  zero8 = 0;
  len_msg = u8 (a.ul_phy_payload_len + 252);
}

-- The previous confirmed downlink, to be sent again.
abbrev pub resending : Server → Server
resending s = record s {
  downlink = record s.downlink {
    phy_payload_bin =
        patch s.downlink.phy_payload_bin 0
          (take s.conf_dl_phy_payload_len s.conf_dl_phy_payload_bin);
    phy_payload_len = s.conf_dl_phy_payload_len;
  };
}

-- Whether the MIC is right, whether the frame is dropped when it is not, and the server.
pub record MicResult : Type 0 where
  pub ok : Bool
  pub drops : Bool
  pub server : Server

-- The ACK bit: the network counter goes on, and a confirmed payload is done once it was sent.
pub take_ack : MoteSession → Server → MoteSession × Server
take_ack n s =
    let d = s.downlink in
    let acked = d.md_confirmed && ltb 0 d.frm_payload_len in
    let sent = acked && not (d.resend_at == 0) in
    (
      if s.incr_nfcnt_down then incr_nfcnt n else n,
      record s {
        incr_nfcnt_down = false;
        answer_app_downlink = acked || s.answer_app_downlink;
        downlink = record d {
          frm_payload_len = if sent then 0 else d.frm_payload_len;
          resend_at = if sent then 0 else d.resend_at;
        };
      },
    )

-- Adaptive data rate, when the end device or the server asks for it.
pub uplink_adr : Arrival → Server → Option Server
uplink_adr a s =
    let t = network_controller_uplink s a.info.rx_snr in
    let adapted = (do
      u ← network_controller_adr a.info.region a.data_rate t
      some (record u { force_adr = false })) in
    if fctrl_bit 7 a.ul_payload_bin || t.force_adr then adapted else some t

pub start_session : Arrival → Server → Option Server
start_session a s =
    let begun = record s { commands = record s.commands { session_start_at_uplink = false } } in
    if s.commands.session_start_at_uplink
    then init_session a.profile a.info.region begun
    else some s

abbrev pub forget_old_sessions : Arrival → Server → Server
forget_old_sessions a s =
    if not a.sql_opt_neg && s.commands.check_old_sessions
    then record s {
      commands = record s.commands { check_old_sessions = false; deleted = s.commands.deleted + 1 };
    }
    else s

module _ (aes cmac : List ℕ → List ℕ → List ℕ) (stack : List ℕ) (dev_addr : ℕ) where
  abbrev pub cmac_s : Arrival → MoteSession → ℕ → ℕ → ℕ → Option Bool
  cmac_s a n conf_fcnt ch fcnt_up =
      check_cmac_s cmac (uplink_block a conf_fcnt ch fcnt_up) (some n.s_nwk_s_int_key)
        a.ul_payload_bin

  -- The MIC with the counter of the confirmed downlink, and when it is wrong, with the one before it
  -- and with 0; `none` is a read outside the array.
  pub check_mic_1v1 : Arrival → MoteSession → ℕ → ℕ → Server → Option MicResult
  check_mic_1v1 a n ch fcnt_up s = do
    first ← cmac_s a n s.conf_fcnt_down ch fcnt_up
    second ← cmac_s a n (u16 (s.conf_fcnt_down + 0xffff)) ch fcnt_up
    third ← cmac_s a n 0 ch fcnt_up
    some (
        if first
        then record { ok = true; drops = false; server = record s { conf_fcnt_down = 0 } }
        else if ltb 0 s.conf_dl_phy_payload_len
        then record { ok = second || third; drops = true; server = resending s }
        else record { ok = false; drops = true; server = s })

  pub check_uplink_mic : Arrival → MoteSession → ℕ → Option ℕ → Server → Option MicResult
  check_uplink_mic a n fcnt_up ch s =
      let mic_1v0 =
        check_mic cmac n.s_nwk_s_int_key (rx_dev_addr a) fcnt_up a.ul_payload_bin
          a.ul_phy_payload_len in
      if a.sql_opt_neg
      then elim ch [
        | none ↦ some record { ok = false; drops = false; server = s }
        | some c ↦ check_mic_1v1 a n c fcnt_up s
      ]
      else mic_1v0 >>= λ ok. some record { ok = ok; drops = true; server = s }

  -- MAC commands from the payload on port 0, or from the FOpts.
  pub uplink_commands : Arrival → MoteSession → ℕ → Server → Option Server
  uplink_commands a n fcnt_up s =
      let ul = a.ul_payload_bin in
      let rxofs = 8 + fopts_len ul in
      let frm_len = a.ul_phy_payload_len - 4 - (rxofs + 1) in
      let has_fport = ltb rxofs (a.ul_phy_payload_len - 4) in
      let key = n.nwk_s_enc_key in
      let on_port0 = (do
        decrypted ←
            lora_encrypt aes key (rx_dev_addr a) true fcnt_up 1 (drop (rxofs + 1) ul) frm_len
        parse_commands a.info (patch a.decrypted_before 0 decrypted) frm_len s) in
      let secret_fopts = (do
        decrypted ← lora_encrypt aes key (rx_dev_addr a) true fcnt_up 0 (drop 8 ul) (fopts_len ul)
        parse_commands a.info (patch a.decrypted_before 0 decrypted) (fopts_len ul) s) in
      if has_fport && (get_or ul rxofs 0 == 0)
      then on_port0
      else if ltb 0 (fopts_len ul)
      then if a.sql_opt_neg
        then secret_fopts
        else parse_commands a.info (drop 8 ul) (fopts_len ul) s
      else some s

  -- The frame is genuine.
  pub accept : Arrival → MoteSession → ℕ → Server → Option UplinkResult
  accept a n fcnt_up s =
      let confirmed = mtype a.ul_payload_bin == mtype_conf_up in
      let known = record n { null_nfcnt_down = false } in
      let old = forget_old_sessions a s in
      let acked = if fctrl_bit 5 a.ul_payload_bin then take_ack known old else (known, old) in
      let repeated = fcnt_up == n.fcnt_up in
      do
        begun ← start_session a acked.1
        commanded ← uplink_commands a acked.0 fcnt_up begun
        adapted ← uplink_adr a commanded
        scheduled ←
            schedule_downlink aes cmac stack dev_addr acked.0 a.ul_payload_bin
              (record adapted { up_confre_sent = repeated && confirmed })
        some record {
          verdict = success;
          session = acked.0;
          server = scheduled;
          dropped = false;
          fcnt_down = if a.sql_opt_neg then acked.1.afcnt_down else acked.0.nfcnt_down;
          sql_fcnt_up = if repeated then none else some fcnt_up;
        }

  pub judge : Arrival → MoteSession → ℕ → MicResult → Option UplinkResult
  judge a n fcnt_up m =
      if m.ok then accept a n fcnt_up m.server else some (refuse mic_failed m.drops n m.server)

  pub count_uplink : Arrival → MoteSession → Server → Option ℕ → Option UplinkResult
  count_uplink a n s none = some (refuse replay false n s)
  count_uplink a n s (some fcnt_up) =
      check_uplink_mic a n fcnt_up a.ch (record s { new_fcnt_up = true }) >>= λ m.
      judge a n fcnt_up m

  pub after_check : Arrival → MoteSession → SessionCheck → Option UplinkResult
  after_check a n (stop v s) = some (refuse v false n s)
  after_check a n (go_on s) = count_uplink a n s (uplink_fcnt n.fcnt_up (rx_fcnt a.ul_payload_bin))

  pub sns_uplink : Arrival → MoteSession → Server → Option UplinkResult
  sns_uplink a n s = do c ← check_session a s; after_check a n c
