-- ===== src/NetworkServer/Downlink.antt =====
-- The downlink frame: `sNS_schedule_downlink` and `get_queued_mac_cmds` of network_server/sNS.c, on
-- `s_t` of network_server/sNS.h and the session of `mote_t`. AES and CMAC are not this code: they
-- are parameters, as is what lies on the stack behind the buffer of the commands. `none` is a write
-- behind the end of the frame's array, a read behind what is known of the stack, or no fuel.
pub mod Outcome
pub mod Steps
pub mod Frame
pub mod Parts
pub mod Sending
pub mod Schedule
pub mod EndDevice
use lo_ra_wan_backend.Base.{
  ℕ, zero, suc, ◌+◌, ◌-◌, ◌*◌, ◌/◌, ◌%◌, ◌^◌, Bool, true, false, not, ◌&&◌, ◌||◌, if◌then◌else◌,
  ltb, leb, ◌==◌, u8, u16,
}
use lo_ra_wan_backend.Base.{
  List, [], ◌∷◌, ◌++◌, length, get_or, set, take, replicate, Option, none, some, ◌>>=◌,
}
use lo_ra_wan_backend.Base.Buffer.{patch, write}
use lo_ra_wan_backend.Backend.Bytes.{write2_byte_value, write4_byte_value}
use lo_ra_wan_backend.Backend.Cipher.{lora_encrypt}
use lo_ra_wan_backend.NetworkServer.Integrity.{Block, generate_data_frame_integrity_code}
use lo_ra_wan_backend.NetworkServer.MacQueue.{MacQueue, take_queued_mac_cmds, are_mac_cmds_queued}
use lo_ra_wan_backend.NetworkServer.MacCommands.{Session}

abbrev pub mtype_unconf_up : ℕ
mtype_unconf_up = 2

abbrev pub mtype_unconf_dn : ℕ
mtype_unconf_dn = 3

abbrev pub mtype_conf_up : ℕ
mtype_conf_up = 4

abbrev pub mtype_conf_dn : ℕ
mtype_conf_dn = 5

-- The bit fields of `mhdr_t` and `FCtrl_t`.
abbrev pub mtype : List ℕ → ℕ
mtype bin = get_or bin 0 0 / 2 ^ 5 % 8

pub set_mtype : List ℕ → ℕ → List ℕ
set_mtype bin t = set bin 0 (t * 2 ^ 5 + get_or bin 0 0 % 2 ^ 5)

abbrev pub fopts_len : List ℕ → ℕ
fopts_len bin = get_or bin 5 0 % 2 ^ 4

abbrev pub fctrl_bit : ℕ → List ℕ → Bool
fctrl_bit k bin = get_or bin 5 0 / 2 ^ k % 2 == 1

pub set_ack : List ℕ → Bool → List ℕ
set_ack bin b =
    let octet = get_or bin 5 0 in
    set bin 5 (octet / 2 ^ 6 * 2 ^ 6 + (if b then 2 ^ 5 else 0) + octet % 2 ^ 5)

-- The `FCnt` of the `fhdr_t` behind the first byte.
abbrev pub rx_fcnt : List ℕ → ℕ
rx_fcnt bin = get_or bin 6 0 + get_or bin 7 0 * 2 ^ 8

-- The part of `mote->session` that is used here.
pub record MoteSession : Type 0 where
  pub opt_neg : Bool
  pub fcnt_up : ℕ
  pub nfcnt_down : ℕ
  pub null_nfcnt_down : Bool
  pub nwk_s_enc_key : List ℕ
  pub s_nwk_s_int_key : List ℕ

pub record Downlink : Type 0 where
  pub md_fcnt_down : ℕ
  pub md_fport : ℕ
  pub md_confirmed : Bool
  pub phy_payload_bin : List ℕ
  pub phy_payload_len : ℕ
  pub frm_payload_bin : List ℕ
  pub frm_payload_len : ℕ
  pub frm_sent : Bool
  pub resend_at : ℕ

-- `s_t`; what the MAC commands change is in `commands`.
pub record Server : Type 0 where
  pub commands : Session
  pub queue : MacQueue
  pub conf_fcnt_down : ℕ
  pub afcnt_down : ℕ
  pub conf_dl_phy_payload_bin : List ℕ
  pub conf_dl_phy_payload_len : ℕ
  pub downlink : Downlink
  pub incr_nfcnt_down : Bool
  pub new_fcnt_up : Bool
  pub up_confre_sent : Bool
  pub answer_app_downlink : Bool
  pub force_adr : Bool
  pub send_start_mac_cmds : Bool
  pub snr_history_idx : ℕ
  pub type2_rejoin_count : ℕ

abbrev pub has_rx_fhdr : List ℕ → Bool
has_rx_fhdr ul = (mtype ul == mtype_conf_up) || (mtype ul == mtype_unconf_up)

-- A frame that was not sent is left alone, but in LoRaWAN 1.1 after a confirmed uplink.
abbrev pub previously_unsent : MoteSession → List ℕ → Server → Bool
previously_unsent n ul s =
    ltb 0 s.downlink.phy_payload_len && not (n.opt_neg && (mtype ul == mtype_conf_up))

abbrev pub uplink_forces_downlink : List ℕ → Server → Bool
uplink_forces_downlink ul s =
    if has_rx_fhdr ul
    then fctrl_bit 6 ul || (not (fctrl_bit 5 ul) && ltb 0 s.conf_dl_phy_payload_len)
    else ltb 0 s.conf_dl_phy_payload_len

abbrev pub nothing_to_send : List ℕ → Server → Bool → Bool
nothing_to_send ul s queued =
    not (mtype ul == mtype_conf_up)
    && (not (uplink_forces_downlink ul s) && (not queued && (s.downlink.frm_payload_len == 0)))

-- FRMPayload of the application: its counter is right, and it is in the frame.
abbrev pub has_payload : Server → Bool
has_payload s = not s.up_confre_sent && ltb 0 s.downlink.frm_payload_len

abbrev pub fcnt_agrees : MoteSession → Server → Bool
fcnt_agrees n s = n.opt_neg || (s.downlink.md_fcnt_down == n.nfcnt_down)

abbrev with_bin : Server → List ℕ → Server
with_bin s bin = record s { downlink = record s.downlink { phy_payload_bin = bin } }

pub add_payload : MoteSession → Server → Option Server
add_payload n s =
    let d = s.downlink in
    let payload = d.md_fport ∷ take d.frm_payload_len d.frm_payload_bin in
    let added : List ℕ → Server = λ bin. record s {
      afcnt_down = if n.opt_neg then d.md_fcnt_down else s.afcnt_down;
      downlink = record d {
        phy_payload_bin = set_mtype bin (if d.md_confirmed then mtype_conf_dn else mtype_unconf_dn);
        phy_payload_len = u8 (d.frm_payload_len + 1);
        frm_sent = true;
      };
    } in
    let unsent = record s { downlink = record d { frm_sent = false } } in
    if has_payload s
    then if fcnt_agrees n s
      then (do
        bin ← write d.phy_payload_bin (8 + fopts_len d.phy_payload_bin) payload
        some (added bin))
      else some unsent
    else some (with_bin unsent (set_mtype d.phy_payload_bin mtype_unconf_dn))

-- The confirmed frame is kept, for the uplink that acknowledges it.
pub save_confirmed : Server → Server
save_confirmed s =
    let d = s.downlink in
    let t = mtype d.phy_payload_bin in
    if t == mtype_unconf_dn
    then record s { conf_fcnt_down = 0; conf_dl_phy_payload_len = 0 }
    else if t == mtype_conf_dn
    then record s {
      conf_fcnt_down = rx_fcnt d.phy_payload_bin;
      conf_dl_phy_payload_bin =
          patch s.conf_dl_phy_payload_bin 0 (take d.phy_payload_len d.phy_payload_bin);
      conf_dl_phy_payload_len = d.phy_payload_len;
    }
    else s

abbrev pub down_block : ℕ → ℕ → ℕ → ℕ → Block
down_block conf_fcnt dev_addr fcnt len_msg = record {
  header = 0x49;
  conf_fcnt = conf_fcnt;
  dr = 0;
  ch = 0;
  dir = 1;
  dev_addr = dev_addr;
  fcnt = fcnt;
  zero8 = 0;
  len_msg = len_msg;
}

-- `block.b.confFCnt` is not zero.
abbrev pub acks_fcnt : MoteSession → List ℕ → Server → Bool
acks_fcnt n ul s = has_rx_fhdr ul && (s.new_fcnt_up && (n.opt_neg && (mtype ul == mtype_conf_up)))

-- FCnt, DevAddr and ACK.
pub set_header : List ℕ → ℕ → ℕ → Bool → List ℕ
set_header bin dev_addr fcnt_down ack =
    let counted = patch bin 6 (write2_byte_value [] fcnt_down) in
    set_ack (patch counted 1 (write4_byte_value [] dev_addr)) ack

pub message_len : Downlink → ℕ
message_len d = u8 (d.phy_payload_len + (1 + 7 + fopts_len d.phy_payload_bin))

module _ (aes cmac : List ℕ → List ℕ → List ℕ) (stack : List ℕ) (dev_addr : ℕ) where
  pub fopts : MoteSession → List ℕ → Option (List ℕ)
  fopts n [] = some []
  fopts n (c ∷ cs) =
      let len = length (c ∷ cs) in
      if n.opt_neg
      then lora_encrypt aes n.nwk_s_enc_key dev_addr false n.nfcnt_down 0
          (((c ∷ cs) ++ replicate (16 - len) 0) ++ stack) len
      else some (c ∷ cs)

  pub get_queued_mac_cmds : MoteSession → Server → Option Server
  get_queued_mac_cmds n s = do
    t ← take_queued_mac_cmds s.queue
    out ← fopts n t.buf
    bin ← write (set s.downlink.phy_payload_bin 5 (length t.buf)) 8 out
    some (with_bin (record s { queue = t.queue }) bin)

  -- The MIC, behind the `len` bytes of the message.
  pub add_mic : MoteSession → List ℕ → ℕ → Server → List ℕ → ℕ → Option Server
  add_mic n ul fcnt_down s headed len = do
    bin ← write headed len (
        write4_byte_value [] (
          generate_data_frame_integrity_code cmac
            (down_block (if acks_fcnt n ul s then rx_fcnt ul else 0) dev_addr fcnt_down len)
            n.s_nwk_s_int_key headed))
    some (
        save_confirmed record s {
          new_fcnt_up = s.new_fcnt_up && not (acks_fcnt n ul s);
          downlink = record s.downlink { phy_payload_bin = bin; phy_payload_len = u8 (len + 4) };
        })

  abbrev pub counter : MoteSession → Bool → Server → ℕ
  counter n using_afcnt_down s = if using_afcnt_down then s.afcnt_down else n.nfcnt_down

  pub seal : MoteSession → List ℕ → Bool → Server → Option Server
  seal n ul using_afcnt_down s =
      let fcnt_down = counter n using_afcnt_down s in
      add_mic n ul fcnt_down (record s { incr_nfcnt_down = not using_afcnt_down })
        (set_header s.downlink.phy_payload_bin dev_addr fcnt_down (mtype ul == mtype_conf_up))
        (message_len s.downlink)

  pub send : MoteSession → List ℕ → Server → Option Server
  send n ul s = do
    taken ← get_queued_mac_cmds n s
    filled ← add_payload n taken
    seal n ul (has_payload taken && n.opt_neg) filled

  pub schedule_downlink : MoteSession → List ℕ → Server → Option Server
  schedule_downlink n ul s = do
    queued ← are_mac_cmds_queued s.queue
    if previously_unsent n ul s || nothing_to_send ul s queued then some s else send n ul s
