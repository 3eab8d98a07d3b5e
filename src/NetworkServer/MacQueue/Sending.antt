-- ===== src/NetworkServer/MacQueue/Sending.antt =====
-- The loop of `get_queued_mac_cmds` (network_server/sNS.c): which commands it takes.
use lo_ra_wan_backend.Base.{ℕ, zero, suc, ◌+◌, ◌≡◌, refl, ap, ◌≤◌, ◌<◌, arith, ltb, ◌==◌, ◌∙◌, sym}
use lo_ra_wan_backend.Base.{Bool, true, false, ◌||◌, if◌then◌else◌, Bool-cases, inl, inr}
use lo_ra_wan_backend.Base.{List, [], ◌∷◌, ◌++◌, length, Option, some, length-set}
use lo_ra_wan_backend.Base.{All, length-take, length-append}
use mathlib.Core.Path.{subst₂}
use mathlib.Core.List.{append-nil, append_assoc}
use lo_ra_wan_backend.NetworkServer.MacQueue.{
  Slot, MacQueue, slot_at, next, sent, set_slot, take_from, Taken,
}
use lo_ra_wan_backend.NetworkServer.MacQueue.Ring.{
  window, ahead, next-lt, ahead-next, window-set_behind,
}
use lo_ra_wan_backend.NetworkServer.MacQueue.Walk.{Walked, Walked-stop, Walked-skip, Walked-write}
use lo_ra_wan_backend.NetworkServer.MacQueue.Loops.{at_end, not_at_end}
use lo_ra_wan_backend.NetworkServer.MacQueue.Pending.{live, sending, command, Sending, Command}

-- The slots after a walk that started with `used` bytes taken.
abbrev pub sent_slots : ℕ → List Slot → List Slot
sent_slots used [] = []
sent_slots used (x ∷ xs) =
    let skip = sent_slots used xs in
    let send = sent_slots (used + x.len) xs in
    if x.len == 0 then x ∷ skip else if ltb 15 (used + x.len) then x ∷ xs else sent x ∷ send

-- A slot's command is as long as its `len` says.
abbrev pub IsFull : Slot → Type 0
IsFull x = x.len ≤ length x.buf

pub length-command : (x : Slot) → IsFull x → length (command x).bytes ≡ x.len
length-command x h = omega (arith, length-take x.len x.buf)

abbrev stopped : MacQueue → List ℕ → Bool → Option Taken
stopped q buf ret = some (record { queue = q; buf = buf; ret = ret })

-- What the loop returns with the slots `slots`, when `sending` says what it adds.
abbrev pub taken : MacQueue → List Slot → List ℕ → Bool → Sending → Option Taken
taken q slots buf ret r =
    some (record { queue = record q { slots = slots }; buf = buf ++ r.bytes; ret = ret || r.asked })

module _ (used : ℕ) (x : Slot) (w : List Slot) (full : IsFull x) (busy : (x.len == 0) ≡ false) where
  pub sending_full :
      ltb 15 (used + x.len) ≡ true
      → sending used (live (x ∷ w))
        ≡ record { bytes = []; kept = command x ∷ live w; asked = false }
  sending_full f = rw busy (rw (length-command x full) (rw f))

  pub sending_fits :
      ltb 15 (used + x.len) ≡ false
      → sending used (live (x ∷ w)) ≡ (
          let rest = sending (used + x.len) (live w) in
          record {
            bytes = (command x).bytes ++ rest.bytes;
            kept = if x.needs_answer then command x ∷ rest.kept else rest.kept;
            asked = x.needs_answer || rest.asked;
          })
  sending_fits f = rw busy (rw (length-command x full) (rw f))

-- `result` is what the loop returns when it walks the slots `w` with `used` bytes taken.
pub record Took (n my : ℕ) (q : MacQueue) (w : List Slot) (used : ℕ) (buf : List ℕ) (ret : Bool)
    (result : Option Taken) : Type 0 where
  pub slots : List Slot
  pub returns : result ≡ taken q slots buf ret (sending used (live w))
  pub walked : Walked n my q.slots slots (sent_slots used w)

or-false : (b : Bool) → (b || false) ≡ b
or-false true = refl
or-false false = refl

or_first : (a b r : Bool) → ((if a then true else b) || r) ≡ (b || (a || r))
or_first true true r = refl
or_first true false r = refl
or_first false true r = refl
or_first false false r = refl

taken_nothing :
    (q : MacQueue) (s : List Slot) (buf : List ℕ) (ret : Bool) (kept : List Command)
    → stopped (record q { slots = s }) buf ret
      ≡ taken q s buf ret (record { bytes = []; kept = kept; asked = false })
taken_nothing q s buf ret kept = rw (append-nil, or-false ret)

taken_more :
    (q : MacQueue) (s : List Slot) (buf b bs : List ℕ) (na ret asked : Bool) (k k' : List Command)
    → taken q s
        (buf ++ b)
        (if na then true else ret)
        (record { bytes = bs; kept = k; asked = asked })
      ≡ taken q s buf ret (record { bytes = b ++ bs; kept = k'; asked = na || asked })
taken_more q s buf b bs na ret asked k k' = rw (append_assoc, or_first na ret asked)

module _ (fuel : ℕ) (q : MacQueue) (my : ℕ) (buf : List ℕ) (ret : Bool) where
  take_from_end : (q.in_idx == my) ≡ true → take_from (suc fuel) q my buf ret ≡ stopped q buf ret
  unfolding take_from
  take_from_end e = rw e

  take_from_skip :
      (q.in_idx == my) ≡ false
      → ((slot_at q.slots my).len == 0) ≡ true
      → take_from (suc fuel) q my buf ret ≡ take_from fuel q (next my) buf ret
  unfolding take_from
  take_from_skip e z = rw e (rw z)

  take_from_full :
      (q.in_idx == my) ≡ false
      → ((slot_at q.slots my).len == 0) ≡ false
      → ltb 15 (length buf + (slot_at q.slots my).len) ≡ true
      → take_from (suc fuel) q my buf ret ≡ stopped q buf ret
  unfolding take_from
  take_from_full e z f = rw e (rw z (rw f))

  take_from_send :
      (q.in_idx == my) ≡ false
      → ((slot_at q.slots my).len == 0) ≡ false
      → ltb 15 (length buf + (slot_at q.slots my).len) ≡ false
      → take_from (suc fuel) q my buf ret
        ≡ take_from fuel
            (set_slot q my (sent (slot_at q.slots my)))
            (next my)
            (buf ++ (command (slot_at q.slots my)).bytes)
            (if (slot_at q.slots my).needs_answer then true else ret)
  unfolding take_from
  take_from_send e z f = rw e (rw z (rw f))

-- One round that sends, before the rounds `rest`.
Took-send :
    (fuel n : ℕ) (q : MacQueue) (my : ℕ) (buf : List ℕ) (ret : Bool)
    → my < 6
    → suc n ≤ 6
    → length q.slots ≡ 6
    → IsFull (slot_at q.slots my)
    → (q.in_idx == my) ≡ false
    → ((slot_at q.slots my).len == 0) ≡ false
    → ltb 15 (length buf + (slot_at q.slots my).len) ≡ false
    → Took n
        (next my)
        (set_slot q my (sent (slot_at q.slots my)))
        (window n (next my) q.slots)
        (length buf + (slot_at q.slots my).len)
        (buf ++ (command (slot_at q.slots my)).bytes)
        (if (slot_at q.slots my).needs_answer then true else ret)
        (take_from fuel
          (set_slot q my (sent (slot_at q.slots my)))
          (next my)
          (buf ++ (command (slot_at q.slots my)).bytes)
          (if (slot_at q.slots my).needs_answer then true else ret))
    → Took
        (suc n)
        my
        q
        (window (suc n) my q.slots)
        (length buf)
        buf
        ret
        (take_from (suc fuel) q my buf ret)
Took-send fuel n q my buf ret hm hn hs full go nz f rest =
    let x : Slot = slot_at q.slots my in
    let w : List Slot = window n (next my) q.slots in
    let r : Sending = sending (length buf + x.len) (live w) in
    record {
      slots = rest.slots;
      returns =
          take_from_send fuel q my buf ret go nz f
          ∙ rest.returns
          ∙ taken_more q rest.slots buf (command x).bytes r.bytes x.needs_answer ret r.asked r.kept
              (if x.needs_answer then command x ∷ r.kept else r.kept)
          ∙ ap (taken q rest.slots buf ret) (sym (sending_fits (length buf) x w full nz f));
      walked = rw nz (
          rw f (
            Walked-write n my q.slots rest.slots (sent_slots (length buf + x.len) w) (sent x) hm hn
              hs rest.walked));
    }

pub take_from_lem :
    (fuel n : ℕ) (q : MacQueue) (my : ℕ) (buf : List ℕ) (ret : Bool)
    → my < 6
    → q.in_idx < 6
    → n ≤ 6
    → length q.slots ≡ 6
    → ahead my q.in_idx ≡ n
    → n < fuel
    → All IsFull (window n my q.slots)
    → Took n my q (window n my q.slots) (length buf) buf ret (take_from fuel q my buf ret)
take_from_lem zero n q my buf ret hm hi hn hs e h full = absurd (omega arith)
take_from_lem (suc fuel) zero q my buf ret hm hi hn hs e h full = record {
  slots = q.slots;
  returns =
      take_from_end fuel q my buf ret (at_end my q.in_idx hm hi e)
      ∙ taken_nothing q q.slots buf ret [];
  walked = Walked-stop zero my q.slots;
}
take_from_lem (suc fuel) (suc n) q my buf ret hm hi hn hs e h full =
    let x : Slot = slot_at q.slots my in
    let go : (q.in_idx == my) ≡ false = not_at_end my q.in_idx n hm e in
    elim (Bool-cases (x.len == 0)) [
      | inl z ↦
          let rest =
            take_from_lem fuel n q (next my) buf ret (next-lt my hm) hi (omega arith) hs
              (ahead-next my q.in_idx n hm hi e) (omega arith) full.1 in
          record {
            slots = rest.slots;
            returns = rw z (take_from_skip fuel q my buf ret go z ∙ rest.returns);
            walked = rw z (Walked-skip n my q.slots rest.slots _ hm hn rest.walked);
          }
      | inr nz ↦ elim (Bool-cases (ltb 15 (length buf + x.len))) [
        | inl f ↦ record {
          slots = q.slots;
          returns =
              take_from_full fuel q my buf ret go nz f
              ∙ taken_nothing q q.slots buf ret (command x ∷ live (window n (next my) q.slots))
              ∙ ap (taken q q.slots buf ret)
                  (sym (sending_full (length buf) x (window n (next my) q.slots) full.0 nz f));
          walked = rw nz (rw f (Walked-stop (suc n) my q.slots));
        }
        | inr f ↦
            let y : Slot = sent x in
            let rest =
              take_from_lem fuel n (set_slot q my y) (next my) (buf ++ (command x).bytes)
                (if x.needs_answer then true else ret) (next-lt my hm) hi (omega arith)
                (length-set q.slots my y ∙ hs) (ahead-next my q.in_idx n hm hi e) (omega arith)
                (rw (window-set_behind n my q.slots y hm (omega arith) hs) full.1) in
            let used : length (buf ++ (command x).bytes) ≡ length buf + x.len =
              length-append buf (command x).bytes
              ∙ ap (λ (k : ℕ). length buf + k) (length-command x full.0) in
            Took-send fuel n q my buf ret hm hn hs full.0 go nz f (
              subst₂
                (λ w u.
                  Took n (next my) (set_slot q my y) w u (buf ++ (command x).bytes)
                    (if x.needs_answer then true else ret)
                    (take_from fuel (set_slot q my y) (next my) (buf ++ (command x).bytes)
                      (if x.needs_answer then true else ret)))
                (window-set_behind n my q.slots y hm (omega arith) hs) used rest)
      ]
    ]
