-- ===== src/NetworkServer/MacQueue/Writes.antt =====
-- The loops that write: what each leaves in the slots that it walks (network_server/sNS.c).
use lo_ra_wan_backend.Base.{ℕ, zero, suc, ◌≡◌, ◌≤◌, ◌<◌, arith, ◌==◌, ◌∙◌}
use lo_ra_wan_backend.Base.{false, not, ◌&&◌, if◌then◌else◌, Bool-cases, inl, inr}
use lo_ra_wan_backend.Base.{List, [], ◌∷◌, map, length, set, Option, some, length-set}
use mathlib.Core.Path.{subst}
use lo_ra_wan_backend.NetworkServer.MacQueue.{
  Slot, MacQueue, opcode, slot_at, next, finish, set_slot, wipe_from, clear_from,
}
use lo_ra_wan_backend.NetworkServer.MacQueue.Ring.{
  window, ahead, next-lt, ahead-next, window-set_behind,
}
use lo_ra_wan_backend.NetworkServer.MacQueue.Walk.{Walked, Walked-stop, Walked-skip, Walked-write}
use lo_ra_wan_backend.NetworkServer.MacQueue.Loops.{at_end, not_at_end}

-- `result` is the queue `q` with other slots, which a walk of `n` from `my` left as `w`.
pub record Rewrote (n my : ℕ) (q : MacQueue) (w : List Slot) (result : Option MacQueue)
    : Type 0 where
  pub slots : List Slot
  pub returns : result ≡ some (record q { slots = slots })
  pub walked : Walked n my q.slots slots w

wipe_from_step :
    (fuel : ℕ) (q : MacQueue) (my : ℕ)
    → (q.in_idx == my) ≡ false
    → wipe_from (suc fuel) q my
      ≡ wipe_from fuel (set_slot q my (finish (slot_at q.slots my))) (next my)
unfolding wipe_from
wipe_from_step fuel q my e = rw e

pub wipe_from_lem :
    (fuel n : ℕ) (q : MacQueue) (my : ℕ)
    → my < 6
    → q.in_idx < 6
    → n ≤ 6
    → length q.slots ≡ 6
    → ahead my q.in_idx ≡ n
    → n < fuel
    → Rewrote n my q (map finish (window n my q.slots)) (wipe_from fuel q my)
wipe_from_lem zero n q my hm hi hn hs e h = absurd (omega arith)
wipe_from_lem (suc fuel) zero q my hm hi hn hs e h = record {
  slots = q.slots;
  returns = unfold wipe_from in rw (at_end my q.in_idx hm hi e);
  walked = Walked-stop zero my q.slots;
}
wipe_from_lem (suc fuel) (suc n) q my hm hi hn hs e h =
    let y : Slot = finish (slot_at q.slots my) in
    let rest =
      wipe_from_lem fuel n (set_slot q my y) (next my) (next-lt my hm) hi (omega arith)
        (length-set q.slots my y ∙ hs) (ahead-next my q.in_idx n hm hi e) (omega arith) in
    record {
      slots = rest.slots;
      returns = wipe_from_step fuel q my (not_at_end my q.in_idx n hm e) ∙ rest.returns;
      walked =
          subst (λ w. Walked (suc n) my q.slots rest.slots (y ∷ map finish w))
            (window-set_behind n my q.slots y hm (omega arith) hs)
            (Walked-write n my q.slots rest.slots _ y hm hn hs rest.walked);
    }

-- The slots after the first command `c` of them was cleared.
abbrev pub cleared : ℕ → List Slot → List Slot
cleared c [] = []
cleared c (x ∷ xs) = if not (x.len == 0) && opcode x == c then finish x ∷ xs else x ∷ cleared c xs

clear_from_skip :
    (fuel : ℕ) (q : MacQueue) (c my : ℕ)
    → (q.in_idx == my) ≡ false
    → (not ((slot_at q.slots my).len == 0) && opcode (slot_at q.slots my) == c) ≡ false
    → clear_from (suc fuel) q c my ≡ clear_from fuel q c (next my)
unfolding clear_from
clear_from_skip fuel q c my e other = rw e (rw other)

pub clear_from_lem :
    (fuel n : ℕ) (q : MacQueue) (c my : ℕ)
    → my < 6
    → q.in_idx < 6
    → n ≤ 6
    → length q.slots ≡ 6
    → ahead my q.in_idx ≡ n
    → n < fuel
    → Rewrote n my q (cleared c (window n my q.slots)) (clear_from fuel q c my)
clear_from_lem zero n q c my hm hi hn hs e h = absurd (omega arith)
clear_from_lem (suc fuel) zero q c my hm hi hn hs e h = record {
  slots = q.slots;
  returns = unfold clear_from in rw (at_end my q.in_idx hm hi e);
  walked = Walked-stop zero my q.slots;
}
clear_from_lem (suc fuel) (suc n) q c my hm hi hn hs e h =
    elim (Bool-cases (not ((slot_at q.slots my).len == 0) && opcode (slot_at q.slots my) == c)) [
      | inl found ↦ record {
        slots = set q.slots my (finish (slot_at q.slots my));
        returns = unfold clear_from in rw (not_at_end my q.in_idx n hm e, found);
        walked = rw found (
            subst
              (λ w.
                Walked (suc n) my q.slots (set q.slots my (finish (slot_at q.slots my)))
                  (finish (slot_at q.slots my) ∷ w))
              (window-set_behind n my q.slots (finish (slot_at q.slots my)) hm (omega arith) hs)
              (Walked-write n my q.slots _ _ (finish (slot_at q.slots my)) hm hn hs
                (Walked-stop n (next my) _)));
      }
      | inr other ↦
          let rest =
            clear_from_lem fuel n q c (next my) (next-lt my hm) hi (omega arith) hs
              (ahead-next my q.in_idx n hm hi e) (omega arith) in
          record {
            slots = rest.slots;
            returns =
                clear_from_skip fuel q c my (not_at_end my q.in_idx n hm e) other ∙ rest.returns;
            walked = rw other (Walked-skip n my q.slots rest.slots _ hm hn rest.walked);
          }
    ]
