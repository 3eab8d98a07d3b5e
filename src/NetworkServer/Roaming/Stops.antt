-- ===== src/NetworkServer/Roaming/Stops.antt =====
-- When a roaming state ends.
use lo_ra_wan_backend.Base.{
  ℕ, ◌+◌, ◌≡◌, refl, Bool, true, false, not, ◌&&◌, if◌then◌else◌, Option, none, some, Bool-cases,
  inl, inr,
}
use lo_ra_wan_backend.NetworkServer.Roaming.{
  RoamState, roam_none, f_passive, roam_deferred, s_passive, s_handover, h_handover, Row,
  has_expired, sql_motes_query, update_roam, is_handover, StopType, can_stop, stopped,
  unknown_device, rstop,
}

-- The state that is left at a time, for the time it is set to last.
abbrev pub left : ℕ → Row → RoamState
left now row =
    if has_expired now row.roam_until && not (is_handover row.roam_state)
    then roam_none
    else row.roam_state

abbrev pub left_row : ℕ → Row → Row
left_row now row = record row { roam_state = left now row }

abbrev pub is_deferred : RoamState → Bool
is_deferred roam_none = false
is_deferred f_passive = false
is_deferred roam_deferred = true
is_deferred s_passive = false
is_deferred s_handover = false
is_deferred h_handover = false

-- The state that is left, by whether the time is over.
abbrev left_of : Bool → RoamState → RoamState
left_of expired state = if expired && not (is_handover state) then roam_none else state

abbrev pub after_stop : ℕ → ℕ → Option ℕ → Row → Row
after_stop now sender none row = record row {
  roam_state = roam_none;
  roaming_with_net_id = some sender;
}
after_stop now sender (some lifetime) row = record row {
  roam_state = roam_deferred;
  roam_until = some (now + lifetime);
  roaming_with_net_id = some sender;
}

-- RStop answers with success exactly when the state is the one that the request ends: passive roaming,
-- forwarding, or handover, serving. Then there is no roaming any more, or it is deferred for the
-- lifetime in the request, and the row names the sender. Else it answers that it does not know the
-- device, and the row stays.
pub rstop_lem :
    (now sender : ℕ) (pmt : StopType) (lifetime : Option ℕ) (row : Row)
    → rstop now sender pmt lifetime row
      ≡ some (
          if can_stop pmt row.roam_state
          then (stopped, after_stop now sender lifetime row)
          else (unknown_device, row))
unfolding rstop sql_motes_query update_roam
rstop_lem now sender pmt none row = elim (Bool-cases (can_stop pmt row.roam_state)) [
  | inl fits ↦ rw fits refl
  | inr other ↦ rw other refl
]
rstop_lem now sender pmt (some lifetime) row = elim (Bool-cases (can_stop pmt row.roam_state)) [
  | inl fits ↦ rw fits refl
  | inr other ↦ rw other refl
]
