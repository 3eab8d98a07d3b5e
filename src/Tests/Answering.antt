-- ===== src/Tests/Answering.antt =====
-- Answers to network servers on concrete requesters (network_server/common.c).
use lo_ra_wan_backend.Base.{ℕ, ◌≡◌, true, false, Bool, [], ◌∷◌, none, some}
use lo_ra_wan_backend.NetworkServer.Collect.{UlMetaData, Requester, pr_start_req}
use lo_ra_wan_backend.NetworkServer.Answers.{Surroundings, Post, State, answer_requesters}
use lo_ra_wan_backend.NetworkServer.Answers.Faults.{any_faulty, is_none, answer_requesters-is_none}
use lo_ra_wan_backend.Tests.Serving.{idle, keys}

abbrev known_mote : Surroundings
known_mote = record { join = false; known = true; lifetime = true; to_as = true; app_posted = true }

abbrev handed_over : ℕ → Post
handed_over i = record { zero_returned = true; freed = true }

abbrev refused : ℕ → Post
refused i = record { zero_returned = false; freed = false }

abbrev far_data : UlMetaData
far_data = record {
  dev_eui = 5;
  dev_addr = 0x2600_0001;
  data_rate = 1;
  ul_freq = 868_100_000;
  rf_region = 2;
  gw_cnt = 0;
  gw_list = [];
  fns_ul_token = none;
}

abbrev start_request : Bool → Requester
start_request needs_answer = record {
  needs_answer = needs_answer;
  message_type = pr_start_req;
  client_id = 0x13;
  in_tid = 1;
  ulmd = far_data;
  ans_ans = false;
}

abbrev state : State
state = record {
  session = keys true;
  server = idle;
  ul_frm_payload_len = 4;
  requesters = [];
  answers = [];
  saved = 0;
}

answer_requesters_example :
    is_none (
      answer_requesters known_mote
        (some 1)
        handed_over
        (some (start_request true) ∷ some (start_request true) ∷ [])
        state)
    ≡ any_faulty known_mote
        (some 1)
        handed_over
        0
        (some (start_request true) ∷ some (start_request true) ∷ [])
answer_requesters_example =
    answer_requesters-is_none known_mote (some 1) handed_over
      (some (start_request true) ∷ some (start_request true) ∷ []) state

-- The second requester is read after it was freed; not so when the answer is refused.
freed_read :
    is_none (
      answer_requesters known_mote
        (some 1)
        handed_over
        (some (start_request true) ∷ some (start_request true) ∷ [])
        state)
    ≡ true
unfolding any_faulty
freed_read =
    answer_requesters-is_none known_mote (some 1) handed_over
      (some (start_request true) ∷ some (start_request true) ∷ []) state

not_freed :
    is_none (
      answer_requesters known_mote
        (some 1)
        refused
        (some (start_request true) ∷ some (start_request true) ∷ [])
        state)
    ≡ false
unfolding any_faulty
not_freed =
    answer_requesters-is_none known_mote (some 1) refused
      (some (start_request true) ∷ some (start_request true) ∷ []) state
