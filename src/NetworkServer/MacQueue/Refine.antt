-- ===== src/NetworkServer/MacQueue/Refine.antt =====
-- The operations of the command queue (network_server/sNS.c) against its abstract view, the list of
-- the commands that wait. Each starts from a queue that is new or satisfies the invariant.
use lo_ra_wan_backend.Base.{ℕ, ◌≡◌, refl, ◌<◌, arith, sym, ◌⊎◌}
use lo_ra_wan_backend.Base.{not, inl, inr}
use lo_ra_wan_backend.Base.{List, [], All, Option, some}
use mathlib.Core.Path.{subst}
use lo_ra_wan_backend.NetworkServer.MacQueue.{
  Slot, MacQueue, fresh, loop_fuel, wipe_from, wipe_queued_mac_cmds, clear_from,
  clear_queued_mac_cmd, any_from, are_mac_cmds_queued,
}
use lo_ra_wan_backend.NetworkServer.MacQueue.Loops.{any_from_lem}
use lo_ra_wan_backend.NetworkServer.MacQueue.Writes.{wipe_from_lem, clear_from_lem}
use lo_ra_wan_backend.NetworkServer.MacQueue.Distinct.{remove_first-IsDistinct}
use lo_ra_wan_backend.NetworkServer.MacQueue.Writes.{Rewrote}
use lo_ra_wan_backend.NetworkServer.MacQueue.Valid.{
  IsValid, IsHeld, map-finish-IsHeld, live-map-finish, cleared-IsHeld, live-cleared, Walked-IsValid,
}
use lo_ra_wan_backend.NetworkServer.MacQueue.Pending.{
  Command, live, span, held, pending, is_empty, remove_first, IsDistinct,
}

-- A queue that is new, or has been put into.
abbrev pub IsReady : MacQueue → Type 0
IsReady q = IsValid q ⊎ (q ≡ fresh)

-- The operation returned a queue on which the commands `l` wait.
pub record Becomes (l : List Command) (result : Option MacQueue) : Type 0 where
  pub queue : MacQueue
  pub returns : result ≡ some queue
  pub ready : IsReady queue
  pub now : pending queue ≡ l

pub span-lt : (q : MacQueue) → span q < 6
span-lt q = omega arith

Rewrote-Becomes :
    (q : MacQueue) (w : List Slot) (result : Option MacQueue)
    → IsValid q
    → Rewrote (span q) q.out_idx q w result
    → All IsHeld w
    → IsDistinct (live w)
    → Becomes (live w) result
Rewrote-Becomes q w result v r h d =
    let (valid, now) = Walked-IsValid q r.slots w v r.walked h d in
    record {
      queue = record q { slots = r.slots };
      returns = r.returns;
      ready = inl valid;
      now = now;
    }

pub fresh_returns :
    (l : List Command) (result : Option MacQueue) → result ≡ some fresh → l ≡ [] → Becomes l result
fresh_returns l result e n = record { queue = fresh; returns = e; ready = inr refl; now = sym n }

-- `wipe_queued_mac_cmds` ends, and leaves no command.
pub wipe_queued_mac_cmds_lem : (q : MacQueue) → IsReady q → Becomes [] (wipe_queued_mac_cmds q)
unfolding wipe_queued_mac_cmds
wipe_queued_mac_cmds_lem q (inr e) =
    fresh_returns [] (wipe_from loop_fuel q q.out_idx) (unfold wipe_from in rw e) refl
wipe_queued_mac_cmds_lem q (inl v) =
    subst (λ l. Becomes l (wipe_from loop_fuel q q.out_idx)) (live-map-finish (held q))
      (Rewrote-Becomes q _ _ v
        (wipe_from_lem 7 (span q) q q.out_idx v.out_lt v.in_lt (omega arith) v.size refl
          (omega arith))
        (map-finish-IsHeld (held q) v.held_ok)
        (subst IsDistinct (sym (live-map-finish (held q))) tt))

-- `clear_queued_mac_cmd` ends, and removes the one command with the identifier.
pub clear_queued_mac_cmd_lem :
    (q : MacQueue) (c : ℕ)
    → IsReady q
    → Becomes (remove_first c (pending q)) (clear_queued_mac_cmd q c)
unfolding clear_queued_mac_cmd
clear_queued_mac_cmd_lem q c (inr e) =
    fresh_returns (remove_first c (pending q)) (clear_from loop_fuel q c q.out_idx)
      (unfold clear_from in rw e) (rw e)
clear_queued_mac_cmd_lem q c (inl v) =
    subst (λ l. Becomes l (clear_from loop_fuel q c q.out_idx)) (live-cleared c (held q))
      (Rewrote-Becomes q _ _ v
        (clear_from_lem 7 (span q) q c q.out_idx v.out_lt v.in_lt (omega arith) v.size refl
          (omega arith))
        (cleared-IsHeld c (held q) v.held_ok)
        (subst IsDistinct (sym (live-cleared c (held q)))
          (remove_first-IsDistinct c (pending q) v.distinct)))

-- `are_mac_cmds_queued` ends, and says whether a command waits.
pub are_mac_cmds_queued_lem :
    (q : MacQueue) → IsReady q → are_mac_cmds_queued q ≡ some (not (is_empty (pending q)))
unfolding are_mac_cmds_queued
are_mac_cmds_queued_lem q (inr e) = unfold any_from in rw e
are_mac_cmds_queued_lem q (inl v) =
    any_from_lem 7 (span q) q q.out_idx v.out_lt v.in_lt refl (omega arith)
