-- ===== src/NetworkServer/Roaming/Partners.antt =====
-- Two network servers that roam with each other.
use lo_ra_wan_backend.Base.{
  ℕ, ◌+◌, ◌≡◌, ◌≤◌, ◌<◌, refl, arith, Bool, true, false, if◌then◌else◌, ltb, none, some,
}
use lo_ra_wan_backend.NetworkServer.Answers.{slot_after}
use lo_ra_wan_backend.NetworkServer.Collect.{Requester, MessageType, pr_start_req, hr_start_req}
use lo_ra_wan_backend.NetworkServer.Roaming.{
  RoamState, roam_none, f_passive, s_passive, s_handover, h_handover, Row, sql_motes_query,
  update_roam, StopType, pr_stop_req, hr_stop_req, stopped, rx_success, start_answered,
  start_success_save, rstop, stop_request, stop_answered,
}

-- The two states of one kind of roaming, at the visited network and at home.
abbrev pub visited : Bool → RoamState
visited handover = if handover then s_handover else f_passive

abbrev pub home : Bool → RoamState
home handover = if handover then h_handover else s_passive

abbrev pub start_of : Bool → MessageType
start_of handover = if handover then hr_start_req else pr_start_req

abbrev pub stop_of : Bool → StopType
stop_of handover = if handover then hr_stop_req else pr_stop_req

-- A roaming state with a partner that is not over.
pub record RoamsWith (now net_id : ℕ) (state : RoamState) (row : Row) : Type 0 where
  pub roam_state : (sql_motes_query now row).roam_state ≡ state
  pub partner : (sql_motes_query now row).roaming_with_net_id ≡ net_id
  pub lasts : (sql_motes_query now row).roam_expired ≡ false

-- How roaming starts at both, goes on, and is stopped by home.
pub record StartsAndStops (handover mic mic' : Bool) (r : Requester) (host now now' lifetime : ℕ)
    (row row' : Row) : Type 0 where
  pub v : Row
  pub h : Row
  pub v_after : Row
  pub h_after : Row
  pub answered : start_answered now host handover rx_success (some true) mic lifetime row ≡ some v
  pub saved : start_success_save now (slot_after false r) mic' lifetime row' ≡ some h
  pub crashes : start_success_save now (slot_after true r) mic' lifetime row' ≡ none
  pub at_visited : RoamsWith now' host (visited handover) v
  pub at_home : RoamsWith now' r.client_id (home handover) h
  pub request : stop_request (sql_motes_query now' h) ≡ some (stop_of handover, r.client_id)
  pub agreed : rstop now' host (stop_of handover) none v ≡ some (stopped, v_after)
  pub told : stop_answered r.client_id rx_success h ≡ some h_after
  pub over_at_visited : (sql_motes_query now' v_after).roam_state ≡ roam_none
  pub over_at_home : (sql_motes_query now' h_after).roam_state ≡ roam_none

abbrev started : RoamState → (until net_id : ℕ) → Bool → Row → Row
started state until net_id mic row = record row {
  roam_state = state;
  roam_until = some until;
  roaming_with_net_id = some net_id;
  enable_fns_mic = some mic;
}

-- The visited network sent the request r to start roaming, and home agreed, for a lifetime above 0; the
-- visited network saved the ServiceProfile. When r is still there after the answer, home saves its
-- state: then both hold the two states of that kind of roaming, each with the NetID of the other, and
-- for the lifetime neither is over; when home then stops it, the visited network agrees, and there is
-- no roaming at either. When r was freed with the answer, saving reads through NULL.
pub roaming_lem :
    (handover mic mic' : Bool) (r : Requester) (host now now' lifetime : ℕ) (row row' : Row)
    → r.message_type ≡ start_of handover
    → 0 < lifetime
    → now' ≤ now + lifetime
    → StartsAndStops handover mic mic' r host now now' lifetime row row'
unfolding start_answered start_success_save sql_motes_query update_roam stop_request rstop
    stop_answered
roaming_lem true mic mic' r host now now' lifetime row row' kind pos k =
    let runs : ltb 0 lifetime ≡ true = ground arith in
    let lasts : ltb (now + lifetime) now' ≡ false = ground arith in
    record {
      v = started (visited true) (now + lifetime) host mic row;
      h = started (home true) (now + lifetime) r.client_id mic' row';
      v_after = _;
      h_after = _;
      answered = rw runs refl;
      saved = rw (kind, runs) refl;
      crashes = refl;
      at_visited = record { roam_state = refl; partner = refl; lasts = lasts };
      at_home = record { roam_state = refl; partner = refl; lasts = lasts };
      request = refl;
      agreed = refl;
      told = refl;
      over_at_visited = refl;
      over_at_home = refl;
    }
roaming_lem false mic mic' r host now now' lifetime row row' kind pos k =
    let runs : ltb 0 lifetime ≡ true = ground arith in
    let lasts : ltb (now + lifetime) now' ≡ false = ground arith in
    record {
      v = started (visited false) (now + lifetime) host mic row;
      h = started (home false) (now + lifetime) r.client_id mic' row';
      v_after = _;
      h_after = _;
      answered = rw runs refl;
      saved = rw (kind, runs) refl;
      crashes = refl;
      at_visited = record { roam_state = refl; partner = refl; lasts = lasts };
      at_home = record { roam_state = refl; partner = refl; lasts = lasts };
      request = refl;
      agreed = refl;
      told = refl;
      over_at_visited = refl;
      over_at_home = refl;
    }
