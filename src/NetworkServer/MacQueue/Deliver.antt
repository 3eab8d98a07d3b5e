-- ===== src/NetworkServer/MacQueue/Deliver.antt =====
-- `get_queued_mac_cmds` of network_server/sNS.c against the list of the commands that wait.
use lo_ra_wan_backend.Base.{ℕ, ◌+◌, ◌≡◌, refl, ◌≤◌, arith, ◌∙◌, sym}
use lo_ra_wan_backend.Base.{false, inl, inr}
use lo_ra_wan_backend.Base.{List, [], ◌∷◌, length, All, length-append, Option, some}
use mathlib.Core.Path.{subst}
use lo_ra_wan_backend.NetworkServer.MacQueue.{
  MacQueue, Taken, fresh, take_from, take_queued_mac_cmds,
}
use lo_ra_wan_backend.NetworkServer.MacQueue.Sending.{IsFull, take_from_lem, sent_slots}
use lo_ra_wan_backend.NetworkServer.MacQueue.Distinct.{kept-IsDistinct}
use lo_ra_wan_backend.NetworkServer.MacQueue.Valid.{
  IsHeld-IsFull, sent_slots-IsHeld, live-sent_slots, Walked-IsValid,
}
use lo_ra_wan_backend.NetworkServer.MacQueue.Pending.{
  Command, live, span, held, pending, sending, IsDistinct,
}
use lo_ra_wan_backend.NetworkServer.MacQueue.Refine.{IsReady}

-- The loop returned what `sending` says of the commands `l`, and left the ones that it keeps.
pub record Delivers (l : List Command) (result : Option Taken) : Type 0 where
  pub taken : Taken
  pub returns : result ≡ some taken
  pub ready : IsReady taken.queue
  pub sent : taken.buf ≡ (sending 0 l).bytes
  pub asked : taken.ret ≡ (sending 0 l).asked
  pub now : pending taken.queue ≡ (sending 0 l).kept
  pub fits : length taken.buf ≤ 15

-- What is sent stays within the 15 bytes.
pub length-sending :
    (used : ℕ) (l : List Command) → used ≤ 15 → used + length (sending used l).bytes ≤ 15
length-sending used [] h = omega arith
length-sending used (x ∷ l) h = ground (
  arith,
  length-sending (used + length x.bytes) l,
  length-append x.bytes (sending (used + length x.bytes) l).bytes,
)

-- `get_queued_mac_cmds` ends, sends the commands that fit into 15 bytes, oldest first, and keeps
-- those that want an answer or do not fit.
pub take_queued_mac_cmds_lem :
    (q : MacQueue) → IsReady q → Delivers (pending q) (take_queued_mac_cmds q)
unfolding take_queued_mac_cmds
take_queued_mac_cmds_lem q (inr e) = record {
  taken = record { queue = fresh; buf = []; ret = false };
  returns = unfold take_from in rw e;
  ready = inr refl;
  sent = rw e;
  asked = rw e;
  now = rw e;
  fits = omega arith;
}
take_queued_mac_cmds_lem q (inl v) =
    let full : All IsFull (held q) = IsHeld-IsFull (held q) v.held_ok in
    let r =
      take_from_lem 7 (span q) q q.out_idx [] false v.out_lt v.in_lt (omega arith) v.size refl
        (omega arith) full in
    let kept : live (sent_slots 0 (held q)) ≡ (sending 0 (pending q)).kept =
      live-sent_slots 0 (held q) full in
    let (valid, now) =
      Walked-IsValid q r.slots (sent_slots 0 (held q)) v r.walked
        (sent_slots-IsHeld 0 (held q) v.held_ok)
        (subst IsDistinct (sym kept) (kept-IsDistinct 0 (pending q) v.distinct)) in
    record {
      taken = record {
        queue = record q { slots = r.slots };
        buf = (sending 0 (pending q)).bytes;
        ret = (sending 0 (pending q)).asked;
      };
      returns = r.returns;
      ready = inl valid;
      sent = refl;
      asked = refl;
      now = now ∙ kept;
      fits = omega (arith, length-sending 0 (pending q) (omega arith));
    }
