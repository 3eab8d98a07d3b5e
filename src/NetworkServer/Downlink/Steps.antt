-- ===== src/NetworkServer/Downlink/Steps.antt =====
-- The steps of network_server/sNS.c round the downlinks of a session: a payload that comes from the
-- application, and the report of what was sent.
use lo_ra_wan_backend.Base.{ℕ, ◌≤◌, ◌≡◌, refl, ◌∙◌, arith}
use lo_ra_wan_backend.Base.{Bool, true, false, not, ◌&&◌, ltb, ◌==◌, ◌⊎◌, if_either}
use lo_ra_wan_backend.Base.{length, Option, some}
use lo_ra_wan_backend.Base.Buffer.{length-patch, write_within}
use lo_ra_wan_backend.NetworkServer.Downlink.{MoteSession, Server}
use lo_ra_wan_backend.NetworkServer.Downlink.Outcome.{
  AppDownlink, Stored, refused, stored, store_downlink, answer_app, answer_unconfirmed,
  counted_down, incr_nfcnt, needed_fcnt_down, downlink_sent, Result, success, failed, unknown,
}
use lo_ra_wan_backend.NetworkServer.Downlink.Schedule.{IsServer}

-- The server after `hNS_to_sNS_downlink`: a refusal changes nothing.
abbrev pub server_of : Server → Stored → Server
server_of s (refused needed) = s
server_of s (stored t) = t

pub answer_app-IsServer : (posted : Bool) (s : Server) → IsServer s → IsServer (answer_app posted s)
unfolding answer_app
answer_app-IsServer posted s v =
    if_either IsServer posted
      record {
        ready = v.ready;
        room = v.room;
        conf_room = v.conf_room;
        frm_room = v.frm_room;
        frm_fits = omega arith;
        len_fits = v.len_fits;
        conf_fits = v.conf_fits;
      }
      v

answer_unconfirmed-IsServer :
    (posted : Bool) (s : Server) → IsServer s → IsServer (answer_unconfirmed posted s)
unfolding answer_unconfirmed
answer_unconfirmed-IsServer posted s v =
    let a = answer_app-IsServer posted s v in
    if_either IsServer (not s.downlink.md_confirmed && ltb 0 s.downlink.frm_payload_len)
      record {
        ready = a.ready;
        room = a.room;
        conf_room = a.conf_room;
        frm_room = a.frm_room;
        frm_fits = a.frm_fits;
        len_fits = a.len_fits;
        conf_fits = a.conf_fits;
      }
      v

pub downlink_sent-IsServer :
    (r : Result) (posted : Bool) (n : MoteSession) (s : Server)
    → IsServer s
    → IsServer (downlink_sent r posted n s).1
unfolding downlink_sent
downlink_sent-IsServer success posted n s v = answer_unconfirmed-IsServer posted _ record {
  ready = v.ready;
  room = v.room;
  conf_room = v.conf_room;
  frm_room = v.frm_room;
  frm_fits = v.frm_fits;
  len_fits = omega arith;
  conf_fits = v.conf_fits;
}
downlink_sent-IsServer failed posted n s v = answer_unconfirmed-IsServer posted s v
downlink_sent-IsServer unknown posted n s v = v

pub downlink_sent-opt_neg :
    (r : Result) (posted : Bool) (n : MoteSession) (s : Server)
    → (downlink_sent r posted n s).0.opt_neg ≡ n.opt_neg
unfolding downlink_sent incr_nfcnt
downlink_sent-opt_neg success posted n s =
    if_either (λ (m : MoteSession). m.opt_neg ≡ n.opt_neg) (counted_down s) refl refl
downlink_sent-opt_neg failed posted n s = refl
downlink_sent-opt_neg unknown posted n s = refl

-- A payload that was taken, or the needed counter.
pub store_downlink-Keeps :
    (o c : Bool) (n : MoteSession) (app : AppDownlink) (s : Server)
    → IsServer s
    → length app.payload ≤ 227
    → (t : Stored) × (store_downlink o c n app s ≡ some t) × IsServer (server_of s t)
unfolding store_downlink
store_downlink-Keeps o c n app s v h =
    let d = s.downlink in
    let within = write_within d.frm_payload_bin 0 app.payload (omega (arith, v.frm_room)) in
    rw within (
      if_either (λ (r : Option Stored). (t : Stored) × (r ≡ some t) × IsServer (server_of s t))
        (not o && not (app.fcnt_down == needed_fcnt_down c n s)) (refused _, refl, v)
        (
          stored _,
          refl,
          record {
            ready = v.ready;
            room = v.room;
            conf_room = v.conf_room;
            frm_room = length-patch d.frm_payload_bin 0 app.payload ∙ v.frm_room;
            frm_fits = h;
            len_fits = v.len_fits;
            conf_fits = v.conf_fits;
          },
        ))

-- In the version and for the uplinks of usual events, a frame that waits is left alone.
pub idle_or_unsent :
    (opt_neg conf : Bool) (len : ℕ)
    → (opt_neg && conf) ≡ false
    → (len ≡ 0) ⊎ ((ltb 0 len && not (opt_neg && conf)) ≡ true)
idle_or_unsent opt_neg conf len h = rw h (ground arith)
