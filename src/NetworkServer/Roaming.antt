-- ===== src/NetworkServer/Roaming.antt =====
-- The roaming state of a mote in the database: `sql_motes_query`, `mote_update_database_roam`, the expiry
-- in `finish`, `RStop` and the last part of `xRStartAnsCallback`, all of network_server/common.c, and
-- `sNS_answer_RStart_Success_save`, `sNS_xRStopAnsCallback` and the stop request of `sNS_service` of
-- network_server/sNS.c. A row of the table motes is passed along; times are in seconds. The queue takes
-- every query, and `none` is a read through NULL.
pub mod Stops
pub mod Partners
use lo_ra_wan_backend.Base.{
  ℕ, ◌+◌, Bool, true, false, not, ◌&&◌, ◌||◌, if◌then◌else◌, ltb, Option, none, some,
}
use lo_ra_wan_backend.NetworkServer.Collect.{Requester, pr_start_req, hr_start_req, xmit_data_req}

pub data RoamState : Type 0 where
  roam_none f_passive roam_deferred s_passive s_handover h_handover : RoamState

-- `none` is NULL.
pub record Row : Type 0 where
  pub opt_neg : Option Bool
  pub roam_state : RoamState
  pub roam_until : Option ℕ
  pub roaming_with_net_id : Option ℕ
  pub enable_fns_mic : Option Bool

-- `sql_t`
pub record Sql : Type 0 where
  pub opt_neg : Bool
  pub roam_state : RoamState
  pub roam_until : ℕ
  pub roaming_with_net_id : ℕ
  pub enable_fns_mic : Bool
  pub is_sns : Bool
  pub roam_expired : Bool

abbrev pub or_zero : Option ℕ → ℕ
or_zero none = 0
or_zero (some n) = n

abbrev pub or_false : Option Bool → Bool
or_false none = false
or_false (some b) = b

abbrev pub acts_as_sns : RoamState → Bool
acts_as_sns roam_none = true
acts_as_sns f_passive = false
acts_as_sns roam_deferred = false
acts_as_sns s_passive = true
acts_as_sns s_handover = true
acts_as_sns h_handover = false

-- Without a time nothing is set.
abbrev pub has_expired : ℕ → Option ℕ → Bool
has_expired now none = false
has_expired now (some until) = ltb until now

-- What `sql_motes_query` makes of the row.
unfoldable pub sql_motes_query : ℕ → Row → Sql
sql_motes_query now row = record {
  opt_neg = or_false row.opt_neg;
  roam_state = row.roam_state;
  roam_until = or_zero row.roam_until;
  roaming_with_net_id = or_zero row.roaming_with_net_id;
  enable_fns_mic = or_false row.enable_fns_mic;
  is_sns = acts_as_sns row.roam_state;
  roam_expired = has_expired now row.roam_until;
}

abbrev pub or_old : {A : Type 0} → Option A → Option A → Option A
or_old none old = old
or_old (some a) old = some a

-- Only what is given is set; `*roamingWithNetID` is read for the MIC too.
unfoldable pub update_roam :
    RoamState → (until roaming_with : Option ℕ) → (mic : Option Bool) → Row → Option Row
update_roam state until none (some b) row = none
update_roam state until none none row =
    some record row { roam_state = state; roam_until = or_old until row.roam_until }
update_roam state until (some net_id) mic row = some record row {
  roam_state = state;
  roam_until = or_old until row.roam_until;
  roaming_with_net_id = some net_id;
  enable_fns_mic = or_old mic row.enable_fns_mic;
}

abbrev pub is_handover : RoamState → Bool
is_handover roam_none = false
is_handover f_passive = false
is_handover roam_deferred = false
is_handover s_passive = false
is_handover s_handover = true
is_handover h_handover = true

-- What `finish` goes on with: the state in RAM, or nothing while roaming is deferred.
pub data Going : Type 0 where
  go_on : RoamState → Row → Going
  skip_next crash : Going

abbrev pub gone : RoamState → Option Row → Going
gone state none = crash
gone state (some row) = go_on state row

unfoldable pub check_roaming : Sql → Row → Going
unfolding update_roam
check_roaming sql row = elim sql.roam_state [
  | roam_none ↦ go_on roam_none row
  | roam_deferred ↦
      if sql.roam_expired
      then gone roam_none (update_roam roam_none none none none row)
      else skip_next
  | f_passive ↦
      if sql.roam_expired
      then gone roam_none (update_roam roam_none none none none row)
      else go_on f_passive row
  | s_passive ↦
      if sql.roam_expired
      then gone roam_none (update_roam roam_none none none none row)
      else go_on s_passive row
  | s_handover ↦ go_on s_handover row
  | h_handover ↦ go_on h_handover row
]

pub data StopType : Type 0 where
  pr_stop_req hr_stop_req : StopType

pub data StopResult : Type 0 where
  stopped unknown_device : StopResult

abbrev pub can_stop : StopType → RoamState → Bool
can_stop pr_stop_req roam_none = false
can_stop pr_stop_req f_passive = true
can_stop pr_stop_req roam_deferred = false
can_stop pr_stop_req s_passive = false
can_stop pr_stop_req s_handover = false
can_stop pr_stop_req h_handover = false
can_stop hr_stop_req roam_none = false
can_stop hr_stop_req f_passive = false
can_stop hr_stop_req roam_deferred = false
can_stop hr_stop_req s_passive = false
can_stop hr_stop_req s_handover = true
can_stop hr_stop_req h_handover = false

abbrev pub stop_roaming : ℕ → ℕ → Option ℕ → Row → Option Row
unfolding update_roam
stop_roaming now sender none row = update_roam roam_none none (some sender) none row
stop_roaming now sender (some lifetime) row =
    update_roam roam_deferred (some (now + lifetime)) (some sender) none row

abbrev pub answer_stop : Option Row → Option (StopResult × Row)
answer_stop none = none
answer_stop (some row) = some (stopped, row)

-- A stop request of another network server for a mote with a row.
unfoldable pub rstop : ℕ → ℕ → StopType → Option ℕ → Row → Option (StopResult × Row)
unfolding sql_motes_query update_roam
rstop now sender pmt lifetime row =
    if can_stop pmt (sql_motes_query now row).roam_state
    then answer_stop (stop_roaming now sender lifetime row)
    else some (unknown_device, row)

pub data RxResult : Type 0 where
  rx_success rx_deferred rx_other : RxResult

-- Whether the ServiceProfile of the answer could be saved; `none` is no ServiceProfile.
abbrev pub state_after : Bool → RxResult → Option Bool → Option RoamState
state_after handover rx_success none = some roam_none
state_after handover rx_success (some false) = none
state_after handover rx_success (some true) = some (if handover then s_handover else f_passive)
state_after handover rx_deferred profile = some roam_deferred
state_after handover rx_other profile = some roam_none

-- The answer to a roaming start request.
unfoldable pub start_answered :
    ℕ → ℕ → Bool → RxResult → Option Bool → Bool → (lifetime : ℕ) → Row → Option Row
unfolding update_roam
start_answered now sender handover result profile mic lifetime row =
    if ltb 0 lifetime
    then elim (state_after handover result profile) [
      | none ↦ some row
      | some state ↦ update_roam state (some (now + lifetime)) (some sender) (some mic) row
    ]
    else some row

abbrev pub until_from : ℕ → ℕ → Option ℕ
until_from now lifetime = if ltb 0 lifetime then some (now + lifetime) else none

-- At home, after the answer: `*(mote->bestR)` is read, which is `none` when the requester was freed
-- with the answer. A lifetime that is not known is 0 here.
unfoldable pub start_success_save :
    ℕ → Option Requester → (mic : Bool) → (lifetime : ℕ) → Row → Option Row
unfolding update_roam
start_success_save now none mic lifetime row = none
start_success_save now (some r) mic lifetime row =
    let until = until_from now lifetime in
    elim r.message_type [
      | pr_start_req ↦ update_roam s_passive until (some r.client_id) (some mic) row
      | hr_start_req ↦ update_roam h_handover until (some r.client_id) (some mic) row
      | xmit_data_req ↦ none
    ]

-- The stop request that `sNS_service` sends, and to whom.
unfoldable pub stop_request : Sql → Option (StopType × ℕ)
stop_request sql = elim sql.roam_state [
  | roam_none ↦ none
  | f_passive ↦ none
  | roam_deferred ↦ none
  | s_passive ↦ some (pr_stop_req, sql.roaming_with_net_id)
  | s_handover ↦ none
  | h_handover ↦ some (hr_stop_req, sql.roaming_with_net_id)
]

unfoldable pub stop_answered : ℕ → RxResult → Row → Option Row
unfolding update_roam
stop_answered sender rx_success row = update_roam roam_none none (some sender) none row
stop_answered sender rx_deferred row = some row
stop_answered sender rx_other row = some row
