-- ===== src/NetworkServer/Downlink/Outcome.antt =====
-- What becomes of a downlink: `hNS_to_sNS_downlink`, which stores the payload of the application,
-- `answer_app_downlink`, and `sNSDownlinkSent` of network_server/sNS.c. The posts to other servers
-- and the SQL database are not this code: whether the payload is answered in a post that was handed
-- over is an argument, as is whether the device profile supports class C.
use lo_ra_wan_backend.Base.{ℕ, ◌+◌, Bool, false, not, ◌&&◌, if◌then◌else◌, ltb, ◌==◌, u32}
use lo_ra_wan_backend.Base.{List, length, Option, some, ◌>>=◌}
use lo_ra_wan_backend.Base.Buffer.{write}
use lo_ra_wan_backend.NetworkServer.Downlink.{MoteSession, Server, mtype, mtype_unconf_dn}

-- The payload that comes from the application, and its `DLMetaData_t`.
pub record AppDownlink : Type 0 where
  pub payload : List ℕ
  pub fcnt_down : ℕ
  pub fport : ℕ
  pub confirmed : Bool

-- The counter that a LoRaWAN 1.0 payload must be encrypted with.
abbrev pub needed_fcnt_down : Bool → MoteSession → Server → ℕ
needed_fcnt_down supports_class_c n s =
    if not supports_class_c && s.incr_nfcnt_down then u32 (n.nfcnt_down + 1) else n.nfcnt_down

pub data Stored : Type 0 where
  refused : ℕ → Stored
  stored : Server → Stored

-- `none` is a copy behind the end of `FRMPayloadBin`.
unfoldable pub store_downlink : Bool → Bool → MoteSession → AppDownlink → Server → Option Stored
store_downlink sql_opt_neg supports_class_c n app s =
    let needed = needed_fcnt_down supports_class_c n s in
    if not sql_opt_neg && not (app.fcnt_down == needed) then some (refused needed) else (do
      bin ← write s.downlink.frm_payload_bin 0 app.payload
      some (
          stored record s {
            downlink = record s.downlink {
              frm_payload_bin = bin;
              frm_payload_len = length app.payload;
              md_fcnt_down = app.fcnt_down;
              md_fport = app.fport;
              md_confirmed = app.confirmed;
            };
          }))

-- The payload is forgotten once its answer is handed over.
unfoldable pub answer_app : Bool → Server → Server
answer_app posted s =
    if posted then record s { downlink = record s.downlink { frm_payload_len = 0 } } else s

-- `incr_sql_NFCntDown`, which always returns 0.
unfoldable pub incr_nfcnt : MoteSession → MoteSession
incr_nfcnt n = record n { nfcnt_down = u32 (n.nfcnt_down + 1) }

-- The result of a transmission; `unknown` is a null pointer.
pub data Result : Type 0 where
  success failed unknown : Result

abbrev pub counted_down : Server → Bool
counted_down s = (mtype s.downlink.phy_payload_bin == mtype_unconf_dn) && s.incr_nfcnt_down

-- The answer to an unconfirmed payload.
unfoldable pub answer_unconfirmed : Bool → Server → Server
answer_unconfirmed posted s =
    if not s.downlink.md_confirmed && ltb 0 s.downlink.frm_payload_len
    then record (answer_app posted s) { answer_app_downlink = false }
    else s

abbrev sent_off : Server → Server
sent_off s = record s {
  incr_nfcnt_down = s.incr_nfcnt_down && not (counted_down s);
  downlink = record s.downlink { phy_payload_len = 0 };
}

unfoldable pub downlink_sent : Result → Bool → MoteSession → Server → MoteSession × Server
downlink_sent success posted n s =
    (if counted_down s then incr_nfcnt n else n, answer_unconfirmed posted (sent_off s))
downlink_sent failed posted n s = (n, answer_unconfirmed posted s)
downlink_sent unknown posted n s = (n, s)
