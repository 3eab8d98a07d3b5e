-- ===== src/NetworkServer/MacQueue/Loops.antt =====
-- Each loop over the ring, as a function of the slots that it walks: network_server/sNS.c.
use lo_ra_wan_backend.Base.{ℕ, zero, suc, ◌≡◌, ◌<◌, arith, ◌==◌}
use lo_ra_wan_backend.Base.{true, false, not}
use lo_ra_wan_backend.Base.{some}
use lo_ra_wan_backend.NetworkServer.MacQueue.{MacQueue, slot_at, next, already_queued, any_from}
use lo_ra_wan_backend.NetworkServer.MacQueue.Ring.{window, ahead, next-lt, ahead-next, ahead_self}
use lo_ra_wan_backend.NetworkServer.MacQueue.Pending.{live, has_command, is_empty, cid-command}

-- The test that ends a loop.
pub at_end : (i j : ℕ) → i < 6 → j < 6 → ahead i j ≡ 0 → (j == i) ≡ true
at_end i j hi hj e = ground (arith, ahead_self i j hi hj e)

pub not_at_end : (i j n : ℕ) → i < 6 → ahead i j ≡ suc n → (j == i) ≡ false
not_at_end i j n hi e = ground arith

pub already_queued_lem :
    (fuel n : ℕ) (q : MacQueue) (cmd my : ℕ)
    → my < 6
    → q.in_idx < 6
    → ahead my q.in_idx ≡ n
    → n < fuel
    → already_queued fuel q cmd my ≡ some (has_command cmd (live (window n my q.slots)))
unfolding already_queued
already_queued_lem zero n q cmd my hm hi e h = absurd (omega arith)
already_queued_lem (suc fuel) zero q cmd my hm hi e h = rw (at_end my q.in_idx hm hi e)
already_queued_lem (suc fuel) (suc n) q cmd my hm hi e h = ground (
  arith,
  not_at_end my q.in_idx n hm e,
  cid-command (slot_at q.slots my),
  already_queued_lem fuel n q cmd (next my) (next-lt my hm) hi (ahead-next my q.in_idx n hm hi e),
)

pub any_from_lem :
    (fuel n : ℕ) (q : MacQueue) (my : ℕ)
    → my < 6
    → q.in_idx < 6
    → ahead my q.in_idx ≡ n
    → n < fuel
    → any_from fuel q my ≡ some (not (is_empty (live (window n my q.slots))))
unfolding any_from
any_from_lem zero n q my hm hi e h = absurd (omega arith)
any_from_lem (suc fuel) zero q my hm hi e h = rw (at_end my q.in_idx hm hi e)
any_from_lem (suc fuel) (suc n) q my hm hi e h = ground (
  arith,
  not_at_end my q.in_idx n hm e,
  any_from_lem fuel n q (next my) (next-lt my hm) hi (ahead-next my q.in_idx n hm hi e),
)
