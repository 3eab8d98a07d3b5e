-- ===== src/NetworkServer/Answers.antt =====
-- The answers to the network servers that reported an uplink: the loop at `jsonHandler` of `finish`, and
-- `r_post_ans_to_ns`, both of network_server/common.c. A requester is freed when its answer is handed
-- over; `none` is a read through NULL or of a freed requester. The database, the application server
-- and the posts are arguments, and the fields of the answers are left out.
pub mod Faults
use lo_ra_wan_backend.Base.{
  ℕ, zero, suc, Bool, true, false, not, ◌&&◌, ◌||◌, if◌then◌else◌, ltb, ◌==◌, ◌>>=◌,
}
use lo_ra_wan_backend.Base.{List, [], ◌∷◌, ◌++◌, Option, none, some}
use lo_ra_wan_backend.NetworkServer.Collect.{
  Requester, MessageType, pr_start_req, hr_start_req, xmit_data_req,
}
use lo_ra_wan_backend.NetworkServer.Downlink.{MoteSession, Server}
use lo_ra_wan_backend.NetworkServer.Downlink.Outcome.{success, downlink_sent}

pub data Answer : Type 0 where
  accepted deferred other sql_failed to_as_failed : Answer

-- What the database and the application server say: whether the mote is known and the roaming
-- lifetime is positive, and whether `hNS_XmitDataReq_toAS` succeeds.
pub record Surroundings : Type 0 where
  pub join : Bool
  pub known : Bool
  pub lifetime : Bool
  pub to_as : Bool
  pub app_posted : Bool

-- A post: whether `http_post_hostname` returns 0, and whether `curl_multi_perform` takes it, which
-- frees the requester.
pub record Post : Type 0 where
  pub zero_returned : Bool
  pub freed : Bool

-- The part of the mote that the loop changes; `saved` counts the roaming states written to the database.
pub record State : Type 0 where
  pub session : MoteSession
  pub server : Server
  pub ul_frm_payload_len : ℕ
  pub requesters : List (Option Requester)
  pub answers : List (ℕ × Answer)
  pub saved : ℕ

abbrev pub is_start : MessageType → Bool
is_start pr_start_req = true
is_start hr_start_req = true
is_start xmit_data_req = false

-- What the loop does with a requester: `silent` is no answer. An XmitDataReq hands its payload on.
pub data Reaction : Type 0 where
  silent null_read : Reaction
  hand_on : Bool → Reaction
  answer : Answer → Reaction

-- The comparison with `*(mote->bestR)` reads through `bestR`.
pub start_answer : Surroundings → Option ℕ → ℕ → Reaction
start_answer w none i = if w.lifetime then null_read else answer other
start_answer w (some b) i =
    if w.lifetime then answer (if i == b then accepted else deferred) else answer other

pub react : Surroundings → Option ℕ → (frm_len i : ℕ) → Requester → Reaction
unfolding start_answer
react w best_r frm_len i r =
    if not r.needs_answer || w.join
    then silent
    else if not w.known
    then answer sql_failed
    else if is_start r.message_type
    then start_answer w best_r i
    else if ltb 0 frm_len
    then hand_on w.to_as
    else silent

abbrev pub is_accepted : Answer → Bool
is_accepted accepted = true
is_accepted deferred = false
is_accepted other = false
is_accepted sql_failed = false
is_accepted to_as_failed = false

-- `set` of a place that is there.
abbrev pub slot_after : Bool → Requester → Option Requester
slot_after freed r = if freed then none else some r

abbrev pub put_answer : ℕ → Answer → Option Requester → State → State
put_answer i a slot st = record st {
  requesters = st.requesters ++ slot ∷ [];
  answers = st.answers ++ (i, a) ∷ [];
}

-- Behind the post: an accepted roaming start has its downlink in the answer if there is one, and
-- `r->MessageType` is read after the requester was freed.
pub after_post : Surroundings → Post → ℕ → Answer → Requester → State → Option State
after_post w p i a r st =
    let done = put_answer i a (slot_after p.freed r) st in
    if not (p.zero_returned && is_accepted a)
    then some done
    else if p.freed
    then none
    else let (session, server) =
        if ltb 0 st.server.downlink.phy_payload_len
        then downlink_sent success w.app_posted st.session st.server
        else (st.session, st.server) in
      some record done { session = session; server = server; saved = suc st.saved }

abbrev pub keep : Option Requester → State → State
keep slot st = record st { requesters = st.requesters ++ slot ∷ [] }

abbrev pub perform : Surroundings → Post → ℕ → Requester → Reaction → State → Option State
perform w p i r silent st = some (keep (some r) st)
perform w p i r null_read st = none
perform w p i r (hand_on true) st = some (keep (some r) (record st { ul_frm_payload_len = 0 }))
perform w p i r (hand_on false) st =
    after_post w p i to_as_failed r (record st { ul_frm_payload_len = 0 })
perform w p i r (answer a) st = after_post w p i a r st

-- The requesters from place `i` on; those before are in the state.
pub answer_from :
    Surroundings → Option ℕ → (ℕ → Post) → ℕ → List (Option Requester) → State → Option State
unfolding react after_post
answer_from w best_r posts i [] st = some st
answer_from w best_r posts i (none ∷ l) st = answer_from w best_r posts (suc i) l (keep none st)
answer_from w best_r posts i (some r ∷ l) st =
    perform w (posts i) i r (react w best_r st.ul_frm_payload_len i r) st >>= λ st'.
    answer_from w best_r posts (suc i) l st'

-- All of them.
unfoldable pub answer_requesters :
    Surroundings → Option ℕ → (ℕ → Post) → List (Option Requester) → State → Option State
unfolding answer_from
answer_requesters w best_r posts requesters st =
    answer_from w best_r posts 0 requesters (record st { requesters = []; answers = [] })
