-- ===== src/Tests/Lookup.antt =====
-- The list of motes and the roaming state on concrete data (network_server/common.c).
use lo_ra_wan_backend.Base.{
  ℕ, ◌≡◌, refl, arith, true, false, ◌==◌, if◌then◌else◌, [], Option, none, some,
}
use mathlib.Core.Option.{none-ne-some}
use lo_ra_wan_backend.Base.{replicate, ◌∷◌}
use lo_ra_wan_backend.Backend.Bytes.{eui_buf_to_uint64}
use lo_ra_wan_backend.NetworkServer.Motes.Frames.{mote_of, mote_of_again}
use lo_ra_wan_backend.NetworkServer.MoteLookup.{
  Frame, join_request, data_up, none_dev_eui, no_dev_addr,
}
use lo_ra_wan_backend.NetworkServer.Motes.{
  Motes, associated, get_mote, mote_at, create_mote_on_list,
}
use lo_ra_wan_backend.NetworkServer.Motes.Distinct.{IsDistinct, get_mote-IsDistinct}
use lo_ra_wan_backend.NetworkServer.Collect.{Requester, pr_start_req}
use lo_ra_wan_backend.NetworkServer.Collect.Json.{no_meta_data}
use lo_ra_wan_backend.NetworkServer.Roaming.{Row, f_passive, roam_none}
use lo_ra_wan_backend.NetworkServer.Roaming.Stops.{left}
use lo_ra_wan_backend.NetworkServer.Roaming.Partners.{StartsAndStops, roaming_lem}

-- The mote with the DevEUI 5 has a session.
abbrev session : ℕ → Option ℕ
session dev_addr = if dev_addr == 0x2600_0001 then some 5 else none

abbrev no_session : ℕ → Option ℕ
no_session dev_addr = none

empty-IsDistinct : IsDistinct []
unfolding mote_at
empty-IsDistinct i j x y hx hy e l = absurd (none-ne-some x hx)

abbrev one_mote : Motes
one_mote = (get_mote no_session 6 no_dev_addr []).1

one_mote-IsDistinct : IsDistinct one_mote
one_mote-IsDistinct = get_mote-IsDistinct no_session 6 no_dev_addr [] empty-IsDistinct

two_motes_example : IsDistinct (get_mote session none_dev_eui 0x2600_0001 one_mote).1
two_motes_example =
    get_mote-IsDistinct session none_dev_eui 0x2600_0001 one_mote one_mote-IsDistinct

-- A join request with the DevEUI 5, then a frame with the DevAddr of its session.
abbrev asking : Frame
asking = join_request (replicate 8 9) (5 ∷ replicate 7 0) (1 ∷ 2 ∷ replicate 4 0)

abbrev sending : Frame
sending = data_up false 0x2600_0001 (replicate 7 0)

again_example :
    (place : ℕ) × (motes' motes'' : Motes) × (mote_of no_session one_mote asking
      ≡ some (place, motes'))
    × (mote_of session motes' sending ≡ some (place, motes''))
unfolding associated eui_buf_to_uint64
again_example =
    mote_of_again no_session session one_mote asking sending (refl, refl) (omega arith)
      one_mote-IsDistinct refl (omega arith)

second_place : (get_mote no_session 5 no_dev_addr one_mote).0 ≡ 1
unfolding get_mote create_mote_on_list
second_place = refl

abbrev no_roaming : Row
no_roaming = record {
  opt_neg = some true;
  roam_state = roam_none;
  roam_until = none;
  roaming_with_net_id = none;
  enable_fns_mic = none;
}

abbrev start : Requester
start = record {
  needs_answer = true;
  message_type = pr_start_req;
  client_id = 0x13;
  in_tid = 1;
  ulmd = no_meta_data;
  ans_ans = false;
}

partners_example : StartsAndStops false true true start 0x24 1000 1050 60 no_roaming no_roaming
partners_example =
    roaming_lem false true true start 0x24 1000 1050 60 no_roaming no_roaming refl (omega arith)
      (omega arith)

-- Passive roaming until a time that is over, and until a time that is NULL.
abbrev passive : Option ℕ → Row
passive until = record no_roaming { roam_state = f_passive; roam_until = until }

never_over : left 1050 (passive none) ≡ f_passive
never_over = refl
