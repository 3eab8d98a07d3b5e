-- ===== src/NetworkServer/MacQueue/Put.antt =====
-- `put_queue_mac_cmds` of network_server/sNS.c: its two loops and the store.
use lo_ra_wan_backend.Base.{ℕ, zero, suc, ◌-◌, ◌≡◌, refl, ap, ◌<◌, arith, ◌==◌, ◌∙◌, sym}
use lo_ra_wan_backend.Base.{true, false, if◌then◌else◌, Bool-cases, inl, inr}
use lo_ra_wan_backend.Base.{List, [], ◌∷◌, ◌++◌, length, All, Option, some, length-set}
use lo_ra_wan_backend.Base.{get_or-set_self}
use mathlib.Core.Path.{subst}
use lo_ra_wan_backend.NetworkServer.MacQueue.{
  Slot, MacQueue, blank, opcode, slot_at, set_slot, set_opcode, next, pass_finished,
}
use lo_ra_wan_backend.NetworkServer.MacQueue.Ring.{
  window, ahead, next-lt, ahead-next, ahead_self, window_snoc, length-window, window-set_outside,
  window-set_behind,
}
use lo_ra_wan_backend.NetworkServer.MacQueue.Valid.{IsValid, IsFree, IsHeld}
use lo_ra_wan_backend.NetworkServer.MacQueue.Pending.{live, span, held, pending}

pub All-append : (P : Slot → Type 0) (xs ys : List Slot) → All P xs → All P ys → All P (xs ++ ys)
All-append P [] ys h k = k
All-append P (x ∷ xs) ys h k = (h.0, All-append P xs ys h.1 k)

-- The slots still taken once the finished ones at the front are passed over.
abbrev pub backlog : List Slot → ℕ
backlog [] = 0
backlog (x ∷ w) = let rest = backlog w in if opcode x == 0 then rest else suc (length w)

ahead_rest : (i j n : ℕ) → i < 6 → j < 6 → ahead i j ≡ suc n → ahead j i ≡ 5 - n
ahead_rest i j n hi hj e = ground arith

-- One round of the first loop.
abbrev passed : MacQueue → MacQueue
passed q = record (set_slot q q.out_idx (set_opcode 0xff (slot_at q.slots q.out_idx))) {
  out_idx = next q.out_idx;
}

module _ (q : MacQueue) (n : ℕ) (v : IsValid q) (e : span q ≡ suc n) where
  span-passed : span (passed q) ≡ n
  span-passed = ahead-next q.out_idx q.in_idx n v.out_lt v.in_lt e

  held_cons : held q ≡ slot_at q.slots q.out_idx ∷ window n (next q.out_idx) q.slots
  held_cons = rw e

  held-passed : held (passed q) ≡ window n (next q.out_idx) q.slots
  held-passed = rw span-passed (
      window-set_behind n q.out_idx q.slots (set_opcode 0xff (slot_at q.slots q.out_idx)) v.out_lt
        (omega (arith, v.out_lt)) v.size)

  first : IsHeld (slot_at q.slots q.out_idx)
  first = (rw held_cons at v.held_ok).0

  passed_mark : IsFree (set_opcode 0xff (slot_at q.slots q.out_idx))
  passed_mark = record {
    size = length-set (slot_at q.slots q.out_idx).buf 0 0xff ∙ first.size;
    marked =
        rw (get_or-set_self (slot_at q.slots q.out_idx).buf 0 0xff 0 (omega (arith, first.size)))
          (omega arith);
  }

  IsFree-passed : All IsFree (window (6 - span (passed q)) q.in_idx (passed q).slots)
  IsFree-passed =
      let s : List Slot = (passed q).slots in
      let y : Slot = set_opcode 0xff (slot_at q.slots q.out_idx) in
      let around : ahead q.in_idx q.out_idx ≡ 5 - n =
        ahead_rest q.out_idx q.in_idx n v.out_lt v.in_lt e in
      let count : 6 - span (passed q) ≡ suc (5 - n) = omega (arith, span-passed, v.in_lt, e) in
      let old : All IsFree (window (5 - n) q.in_idx q.slots) =
        subst (λ (k : ℕ). All IsFree (window k q.in_idx q.slots)) (omega (arith, e)) v.free in
      rw count (
        subst (All IsFree) (sym (window_snoc (5 - n) q.in_idx q.out_idx s v.in_lt v.out_lt around))
          (All-append IsFree (window (5 - n) q.in_idx s) (slot_at s q.out_idx ∷ [])
            (rw
              (window-set_outside (5 - n) q.in_idx q.out_idx q.slots y v.in_lt v.out_lt
                (omega arith) v.size (omega (arith, around)))
              old)
            (
              rw (get_or-set_self q.slots q.out_idx y blank (omega (arith, v.size, v.out_lt)))
                  passed_mark,
              tt,
            )))

  pending-passed : (opcode (slot_at q.slots q.out_idx) == 0) ≡ true → pending (passed q) ≡ pending q
  pending-passed z =
      let done : ((slot_at q.slots q.out_idx).len == 0) ≡ true = sym first.matched ∙ z in
      ap live held-passed ∙ sym (ap live held_cons ∙ rw done)

  pub passed-IsValid : (opcode (slot_at q.slots q.out_idx) == 0) ≡ true → IsValid (passed q)
  passed-IsValid z = record {
    size = length-set q.slots q.out_idx _ ∙ v.size;
    in_lt = v.in_lt;
    out_lt = next-lt q.out_idx v.out_lt;
    free = IsFree-passed;
    held_ok = rw held-passed (rw held_cons at v.held_ok).1;
    distinct = rw (pending-passed z) v.distinct;
  }

-- With nothing held the loop stops: the slot at `in_idx` is free.
idle_stops :
    (q : MacQueue) → IsValid q → span q ≡ 0 → (opcode (slot_at q.slots q.out_idx) == 0) ≡ false
idle_stops q v e =
    let same : q.out_idx ≡ q.in_idx = ahead_self q.out_idx q.in_idx v.out_lt v.in_lt e in
    let here : IsFree (slot_at q.slots q.in_idx) =
      (subst (λ (k : ℕ). All IsFree (window k q.in_idx q.slots)) {y = 6} (omega (arith, e))
        v.free).0 in
    rw same (ground (arith, here.marked))

pass_stop :
    (fuel : ℕ) (q : MacQueue)
    → (opcode (slot_at q.slots q.out_idx) == 0) ≡ false
    → pass_finished (suc fuel) q ≡ some q
unfolding pass_finished
pass_stop fuel q e = rw e

pass_step :
    (fuel : ℕ) (q : MacQueue)
    → (opcode (slot_at q.slots q.out_idx) == 0) ≡ true
    → pass_finished (suc fuel) q ≡ pass_finished fuel (passed q)
unfolding pass_finished
pass_step fuel q e = rw e

-- The first loop ends, keeps the commands, and leaves a command at the front or nothing.
pub record Passed (q : MacQueue) (result : Option MacQueue) : Type 0 where
  pub queue : MacQueue
  pub returns : result ≡ some queue
  pub valid : IsValid queue
  pub same : pending queue ≡ pending q
  pub left : span queue ≡ backlog (held q)

pub pass_finished_lem :
    (fuel n : ℕ) (q : MacQueue)
    → IsValid q
    → span q ≡ n
    → n < fuel
    → Passed q (pass_finished fuel q)
pass_finished_lem zero n q v e h = absurd (omega arith)
pass_finished_lem (suc fuel) zero q v e h = record {
  queue = q;
  returns = pass_stop fuel q (idle_stops q v e);
  valid = v;
  same = refl;
  left = e ∙ rw e;
}
pass_finished_lem (suc fuel) (suc n) q v e h =
    elim (Bool-cases (opcode (slot_at q.slots q.out_idx) == 0)) [
      | inl z ↦
          let rest =
            pass_finished_lem fuel n (passed q) (passed-IsValid q n v e z) (span-passed q n v e)
              (omega arith) in
          record {
            queue = rest.queue;
            returns = pass_step fuel q z ∙ rest.returns;
            valid = rest.valid;
            same = rest.same ∙ pending-passed q n v e z;
            left =
                rest.left
                ∙ ap backlog (held-passed q n v e)
                ∙ sym (ap backlog (held_cons q n v e) ∙ rw z);
          }
      | inr c ↦ record {
        queue = q;
        returns = pass_stop fuel q c;
        valid = v;
        same = refl;
        left =
            e
            ∙ sym (
                ap backlog (held_cons q n v e)
                ∙ rw c (ap suc (length-window n (next q.out_idx) q.slots)));
      }
    ]
