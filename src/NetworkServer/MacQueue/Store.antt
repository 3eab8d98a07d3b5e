-- ===== src/NetworkServer/MacQueue/Store.antt =====
-- The store at the end of `put_queue_mac_cmds` (network_server/sNS.c).
use lo_ra_wan_backend.Base.{ℕ, zero, suc, ◌-◌, ◌≡◌, refl, ap, ◌≤◌, ◌<◌, arith, ◌==◌, ◌∙◌, sym}
use lo_ra_wan_backend.Base.{Bool, false, ◌||◌}
use lo_ra_wan_backend.Base.{List, [], ◌∷◌, ◌++◌, length, get_or, take, drop, All, length-set}
use lo_ra_wan_backend.Base.{
  get_or-set_self, length-append, length-take, length-drop, take-append_length,
}
use mathlib.Core.Path.{subst, ap₂}
use native.Mathlib.Nat.{le_refl}
use lo_ra_wan_backend.NetworkServer.MacQueue.Put.{All-append}
use lo_ra_wan_backend.NetworkServer.MacQueue.{Slot, MacQueue, blank, slot_at, set_slot, next, copy}
use lo_ra_wan_backend.NetworkServer.MacQueue.Ring.{
  window, ahead, next-lt, window_snoc, window-set_outside, window-set_behind,
}
use lo_ra_wan_backend.NetworkServer.MacQueue.Valid.{IsValid, IsFree, IsHeld}
use lo_ra_wan_backend.NetworkServer.MacQueue.Pending.{
  Command, command, cid, live, span, held, pending, has_command, IsDistinct, live-append,
}

-- A slot with a new command in it.
abbrev pub filled : Slot → ℕ → List ℕ → Bool → Slot
filled old cmd_len cmd_buf needs_answer = record {
  len = cmd_len;
  needs_answer = needs_answer;
  buf = copy cmd_len cmd_buf old.buf;
}

get_or-copy :
    (n : ℕ) (from to : List ℕ)
    → 0 < n
    → n ≤ length from
    → get_or (copy n from to) 0 0 ≡ get_or from 0 0
get_or-copy zero from to h k = absurd (omega arith)
get_or-copy (suc n) [] to h k = absurd (omega arith)
get_or-copy (suc n) (x ∷ from) to h k = refl

module _ (old : Slot) (cmd_len : ℕ) (cmd_buf : List ℕ) (needs_answer : Bool) (pos : 0 < cmd_len)
    (short : cmd_len < 8) (fits : cmd_len ≤ length cmd_buf) (id_pos : 0 < get_or cmd_buf 0 0) where
  filled-IsHeld : length old.buf ≡ 8 → IsHeld (filled old cmd_len cmd_buf needs_answer)
  filled-IsHeld size = record {
    size = omega (
      arith,
      length-append (take cmd_len cmd_buf) (drop cmd_len old.buf),
      length-take cmd_len cmd_buf,
      length-drop cmd_len old.buf,
    );
    short = short;
    matched = rw (get_or-copy cmd_len cmd_buf old.buf pos fits) (ground arith);
  }

  command-filled :
      command (filled old cmd_len cmd_buf needs_answer)
      ≡ record { needs_answer = needs_answer; bytes = take cmd_len cmd_buf }
  command-filled =
      ap (λ l. let c : Command = record { needs_answer = needs_answer; bytes = l } in c)
        (take-append_length (take cmd_len cmd_buf) (drop cmd_len old.buf) cmd_len
          (omega (arith, length-take cmd_len cmd_buf)))

ahead-next_out : (i j n : ℕ) → i < 6 → j < 6 → ahead i j ≡ n → n < 5 → ahead i (next j) ≡ suc n
ahead-next_out i j n hi hj e h = ground arith

has_command-snoc :
    (c : ℕ) (l : List Command) (d : Command)
    → has_command c (l ++ d ∷ []) ≡ (has_command c l || (cid d == c))
has_command-snoc c [] d = ground arith
has_command-snoc c (x ∷ l) d = ground (arith, has_command-snoc c l d)

IsDistinct-snoc :
    (l : List Command) (d : Command)
    → IsDistinct l
    → has_command (cid d) l ≡ false
    → IsDistinct (l ++ d ∷ [])
IsDistinct-snoc [] d h k = (refl, tt)
IsDistinct-snoc (x ∷ l) d h k =
    (ground (arith, has_command-snoc (cid x) l d), IsDistinct-snoc l d h.1 (ground (arith, h)))

-- What a command that is accepted becomes in the abstract view.
abbrev pub queued : ℕ → List ℕ → Bool → Command
queued cmd_len cmd_buf needs_answer = record {
  needs_answer = needs_answer;
  bytes = take cmd_len cmd_buf;
}

cid-queued : (n : ℕ) (l : List ℕ) (b : Bool) → 0 < n → cid (queued n l b) ≡ get_or l 0 0
cid-queued zero l b h = absurd (omega arith)
cid-queued (suc n) [] b h = refl
cid-queued (suc n) (x ∷ l) b h = refl

module _ (q : MacQueue) (cmd_len : ℕ) (cmd_buf : List ℕ) (needs_answer : Bool) (v : IsValid q)
    (room : span q < 5) (pos : 0 < cmd_len) (short : cmd_len < 8) (fits : cmd_len ≤ length cmd_buf)
    (id_pos : 0 < get_or cmd_buf 0 0) where
  abbrev fill : Slot
  fill = filled (slot_at q.slots q.in_idx) cmd_len cmd_buf needs_answer

  abbrev stored : MacQueue
  stored = record (set_slot q q.in_idx fill) { in_idx = next q.in_idx }

  abbrev ending : ℕ
  ending = 5 - span q

  -- The free part is the slot at `in_idx` and what follows.
  IsFree-cons : All IsFree (slot_at q.slots q.in_idx ∷ window ending (next q.in_idx) q.slots)
  IsFree-cons =
      subst (λ (k : ℕ). All IsFree (window k q.in_idx q.slots)) {y = suc ending}
        (omega (arith, room)) v.free

  span-stored : span stored ≡ suc (span q)
  span-stored = ahead-next_out q.out_idx q.in_idx (span q) v.out_lt v.in_lt refl room

  held-stored : held stored ≡ held q ++ fill ∷ []
  held-stored =
      subst (λ (k : ℕ). window k q.out_idx stored.slots ≡ held q ++ fill ∷ []) (sym span-stored)
        (window_snoc (span q) q.out_idx q.in_idx stored.slots v.out_lt v.in_lt refl
          ∙ ap₂ ◌++◌
              (window-set_outside (span q) q.out_idx q.in_idx q.slots fill v.out_lt v.in_lt
                (omega (arith, room)) v.size (le_refl _))
              (ap (λ x. x ∷ [])
                (get_or-set_self q.slots q.in_idx fill blank (omega (arith, v.size, v.in_lt)))))

  pending-stored : pending stored ≡ pending q ++ queued cmd_len cmd_buf needs_answer ∷ []
  pending-stored =
      let busy : (cmd_len == 0) ≡ false = ground arith in
      ap live held-stored
      ∙ live-append (held q) (fill ∷ [])
      ∙ ap (λ l. pending q ++ l)
          (rw busy (
            ap (λ c. c ∷ [])
              (command-filled (slot_at q.slots q.in_idx) cmd_len cmd_buf needs_answer pos short fits
                id_pos)))

  pub stored-IsValid :
      has_command (get_or cmd_buf 0 0) (pending q) ≡ false
      → IsValid stored × (pending stored ≡ pending q ++ queued cmd_len cmd_buf needs_answer ∷ [])
  stored-IsValid absent = (
    record {
      size = length-set q.slots q.in_idx fill ∙ v.size;
      in_lt = next-lt q.in_idx v.in_lt;
      out_lt = v.out_lt;
      free =
          subst (λ (k : ℕ). All IsFree (window k (next q.in_idx) stored.slots)) {x = ending}
            (omega (arith, span-stored, room))
            (subst (All IsFree)
              (sym (window-set_behind ending q.in_idx q.slots fill v.in_lt (omega arith) v.size))
              IsFree-cons.1);
      held_ok = subst (All IsHeld) (sym held-stored) (
          All-append IsHeld (held q) (fill ∷ []) v.held_ok (
            filled-IsHeld (slot_at q.slots q.in_idx) cmd_len cmd_buf needs_answer pos short fits
                id_pos IsFree-cons.0.size,
            tt,
          ));
      distinct = subst IsDistinct (sym pending-stored) (
          IsDistinct-snoc (pending q) (queued cmd_len cmd_buf needs_answer) v.distinct
            (rw (cid-queued cmd_len cmd_buf needs_answer pos) absent));
    },
    pending-stored,
  )
