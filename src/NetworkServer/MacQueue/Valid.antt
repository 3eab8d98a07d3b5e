-- ===== src/NetworkServer/MacQueue/Valid.antt =====
-- The invariant of the command queue, and that a walk over the ring keeps it.
use lo_ra_wan_backend.Base.{ℕ, ◌+◌, ◌-◌, ◌≡◌, refl, ap, ◌<◌, arith, ltb, ◌==◌, ◌∙◌}
use lo_ra_wan_backend.Base.{true, false, not, ◌&&◌, if◌then◌else◌, Bool-cases, if_either, inl, inr}
use lo_ra_wan_backend.Base.{List, [], ◌∷◌, map, length, All, length-set, get_or-set_self}
use lo_ra_wan_backend.NetworkServer.MacQueue.{Slot, MacQueue, opcode, finish, sent}
use lo_ra_wan_backend.NetworkServer.MacQueue.Ring.{window}
use lo_ra_wan_backend.NetworkServer.MacQueue.Walk.{Walked}
use lo_ra_wan_backend.NetworkServer.MacQueue.Writes.{cleared}
use lo_ra_wan_backend.NetworkServer.MacQueue.Sending.{
  sent_slots, IsFull, sending_full, sending_fits,
}
use lo_ra_wan_backend.NetworkServer.MacQueue.Pending.{
  command, live, span, held, pending, remove_first, sending, IsDistinct, cid-command,
}

-- A slot that holds no command: its identifier is not 0, so that no loop passes over it.
pub record IsFree (x : Slot) : Type 0 where
  pub size : length x.buf ≡ 8
  pub marked : 0 < opcode x

-- A slot between the two indices: a command, or one that is done with.
pub record IsHeld (x : Slot) : Type 0 where
  pub size : length x.buf ≡ 8
  pub short : x.len < 8
  pub matched : (opcode x == 0) ≡ (x.len == 0)

pub record IsValid (q : MacQueue) : Type 0 where
  pub size : length q.slots ≡ 6
  pub in_lt : q.in_idx < 6
  pub out_lt : q.out_idx < 6
  pub free : All IsFree (window (6 - span q) q.in_idx q.slots)
  pub held_ok : All IsHeld (held q)
  pub distinct : IsDistinct (pending q)

pub IsHeld-IsFull : (w : List Slot) → All IsHeld w → All IsFull w
IsHeld-IsFull [] h = tt
IsHeld-IsFull (x ∷ w) h = (omega arith, IsHeld-IsFull w h.1)

pub finish-IsHeld : (x : Slot) → IsHeld x → IsHeld (finish x)
finish-IsHeld x h = record {
  size = length-set x.buf 0 0 ∙ h.size;
  short = omega arith;
  matched = rw (get_or-set_self x.buf 0 0 0 (omega arith));
}

sent-IsHeld : (x : Slot) → IsHeld x → IsHeld (sent x)
sent-IsHeld x h = if_either IsHeld x.needs_answer h (finish-IsHeld x h)

pub map-finish-IsHeld : (w : List Slot) → All IsHeld w → All IsHeld (map finish w)
map-finish-IsHeld [] h = tt
map-finish-IsHeld (x ∷ w) h = (finish-IsHeld x h.0, map-finish-IsHeld w h.1)

pub live-map-finish : (w : List Slot) → live (map finish w) ≡ []
live-map-finish [] = refl
live-map-finish (x ∷ w) = live-map-finish w

pub cleared-IsHeld : (c : ℕ) (w : List Slot) → All IsHeld w → All IsHeld (cleared c w)
cleared-IsHeld c [] h = tt
cleared-IsHeld c (x ∷ w) h = elim (Bool-cases (not (x.len == 0) && opcode x == c)) [
  | inl e ↦ rw e (finish-IsHeld x h.0, h.1)
  | inr e ↦ rw e (h.0, cleared-IsHeld c w h.1)
]

pub live-cleared : (c : ℕ) (w : List Slot) → live (cleared c w) ≡ remove_first c (live w)
live-cleared c [] = refl
live-cleared c (x ∷ w) = ground (arith, live-cleared c w, cid-command x)

pub sent_slots-IsHeld : (used : ℕ) (w : List Slot) → All IsHeld w → All IsHeld (sent_slots used w)
sent_slots-IsHeld used [] h = tt
sent_slots-IsHeld used (x ∷ w) h = elim (Bool-cases (x.len == 0)) [
  | inl e ↦ rw e (h.0, sent_slots-IsHeld used w h.1)
  | inr e ↦ elim (Bool-cases (ltb 15 (used + x.len))) [
    | inl f ↦ rw e (rw f h)
    | inr f ↦ rw e (rw f (sent-IsHeld x h.0, sent_slots-IsHeld (used + x.len) w h.1))
  ]
]

module _ (used : ℕ) (x : Slot) (w : List Slot) (full : IsFull x) (busy : (x.len == 0) ≡ false) where
  live_busy : live (x ∷ w) ≡ command x ∷ live w
  live_busy = rw busy

  live-sent_slots_full :
      ltb 15 (used + x.len) ≡ true
      → live (sent_slots used (x ∷ w)) ≡ (sending used (live (x ∷ w))).kept
  live-sent_slots_full f = rw (sending_full used x w full busy f) (rw busy (rw f (rw busy)))

  live_sent :
      (v : List Slot) → live (sent x ∷ v) ≡ (if x.needs_answer then command x ∷ live v else live v)
  live_sent v = elim (Bool-cases x.needs_answer) [ inl e ↦ ground arith | inr e ↦ ground arith ]

  live-sent_slots_fits :
      ltb 15 (used + x.len) ≡ false
      → live (sent_slots (used + x.len) w) ≡ (sending (used + x.len) (live w)).kept
      → live (sent_slots used (x ∷ w)) ≡ (sending used (live (x ∷ w))).kept
  live-sent_slots_fits f rest =
      rw (sending_fits used x w full busy f)
        (rw busy (rw f (live_sent (sent_slots (used + x.len) w) ∙ rw rest)))

pub live-sent_slots :
    (used : ℕ) (w : List Slot)
    → All IsFull w
    → live (sent_slots used w) ≡ (sending used (live w)).kept
live-sent_slots used [] h = refl
live-sent_slots used (x ∷ w) h = elim (Bool-cases (x.len == 0)) [
  | inl e ↦ rw e (rw e (live-sent_slots used w h.1))
  | inr e ↦ elim (Bool-cases (ltb 15 (used + x.len))) [
    | inl f ↦ live-sent_slots_full used x w h.0 e f
    | inr f ↦ live-sent_slots_fits used x w h.0 e f (live-sent_slots (used + x.len) w h.1)
  ]
]

-- A walk over all that the queue holds keeps the invariant, if it leaves such slots.
pub Walked-IsValid :
    (q : MacQueue) (t w : List Slot)
    → IsValid q
    → Walked (span q) q.out_idx q.slots t w
    → All IsHeld w
    → IsDistinct (live w)
    → IsValid (record q { slots = t }) × (pending (record q { slots = t }) ≡ live w)
Walked-IsValid q t w v walk h d = (
  record {
    size = walk.size ∙ v.size;
    in_lt = v.in_lt;
    out_lt = v.out_lt;
    free =
        rw (walk.outside (6 - span q) q.in_idx v.in_lt (omega arith) (omega (arith, v.out_lt)))
          v.free;
    held_ok = rw walk.inside h;
    distinct = rw walk.inside d;
  },
  ap live walk.inside,
)
