-- ===== src/NetworkServer/MacQueue/Accept.antt =====
-- `put_queue_mac_cmds` of network_server/sNS.c against the list of the commands that wait.
use lo_ra_wan_backend.Base.{ℕ, ◌≡◌, refl, ◌≤◌, ◌<◌, arith, ltb, ◌==◌, ◌∙◌, sym}
use lo_ra_wan_backend.Base.{Bool, true, not, ◌&&◌, if◌then◌else◌, Bool-cases, inl, inr}
use lo_ra_wan_backend.Base.{List, [], ◌∷◌, ◌++◌, length, get_or, replicate, some, ◌>>=◌}
use mathlib.Core.Path.{subst, subst₂}
use lo_ra_wan_backend.NetworkServer.MacQueue.{
  MacQueue, next, fresh, loop_fuel, set_opcode, blank, pass_finished, put_checked,
  put_queue_mac_cmds, store,
}
use lo_ra_wan_backend.NetworkServer.MacQueue.Ring.{ahead}
use lo_ra_wan_backend.NetworkServer.MacQueue.Loops.{already_queued_lem}
use lo_ra_wan_backend.NetworkServer.MacQueue.Put.{backlog, pass_finished_lem}
use lo_ra_wan_backend.NetworkServer.MacQueue.Store.{queued, stored-IsValid}
use lo_ra_wan_backend.NetworkServer.MacQueue.Valid.{IsValid}
use lo_ra_wan_backend.NetworkServer.MacQueue.Pending.{Command, span, held, pending, has_command}
use lo_ra_wan_backend.NetworkServer.MacQueue.Refine.{IsReady, Becomes}

-- The list after a put, when `used` slots are taken and the commands `l` wait: the command is
-- appended if it is short enough, a slot is left, and no command that waits has its identifier.
abbrev pub after_put : ℕ → List Command → ℕ → List ℕ → Bool → List Command
after_put used l cmd_len cmd_buf needs_answer =
    if ltb cmd_len 8 && (ltb used 5 && not (has_command (get_or cmd_buf 0 0) l))
    then l ++ queued cmd_len cmd_buf needs_answer ∷ []
    else l

full_test : (i j n : ℕ) → i < 6 → j < 6 → ahead i j ≡ n → (next j == i) ≡ not (ltb n 5)
full_test i j n hi hj e = ground arith

module _ (q : MacQueue) (cmd_len : ℕ) (cmd_buf : List ℕ) (needs_answer : Bool) (pos : 0 < cmd_len)
    (fits : cmd_len ≤ length cmd_buf) (id_pos : 0 < get_or cmd_buf 0 0) where
  abbrev accepted : Bool
  accepted = ltb cmd_len 8 && (ltb (span q) 5 && not (has_command (get_or cmd_buf 0 0) (pending q)))

  put_checked_eq :
      IsValid q
      → put_checked q cmd_len cmd_buf needs_answer
        ≡ some (if accepted then store q cmd_len cmd_buf needs_answer else q)
  unfolding put_checked
  put_checked_eq v = ground (
    arith,
    full_test q.out_idx q.in_idx (span q) v.out_lt v.in_lt refl,
    already_queued_lem 7 (span q) q (get_or cmd_buf 0 0) q.out_idx v.out_lt v.in_lt refl
        (omega arith),
  )

  -- What an accepted put leaves.
  store_lem :
      IsValid q
      → accepted ≡ true
      → IsValid (store q cmd_len cmd_buf needs_answer)
        × (pending (store q cmd_len cmd_buf needs_answer)
            ≡ pending q ++ queued cmd_len cmd_buf needs_answer ∷ [])
  unfolding store
  store_lem v ok =
      stored-IsValid q cmd_len cmd_buf needs_answer v (ground (arith, ok)) pos (ground (arith, ok))
        fits id_pos (ground (arith, ok))

  put_checked_lem :
      IsValid q
      → Becomes
          (after_put (span q) (pending q) cmd_len cmd_buf needs_answer)
          (put_checked q cmd_len cmd_buf needs_answer)
  put_checked_lem v = elim (Bool-cases accepted) [
    | inl ok ↦ record {
      queue = store q cmd_len cmd_buf needs_answer;
      returns = put_checked_eq v ∙ rw ok;
      ready = inl (store_lem v ok).0;
      now = (store_lem v ok).1 ∙ rw ok;
    }
    | inr refused ↦ record {
      queue = q;
      returns = put_checked_eq v ∙ rw refused;
      ready = inl v;
      now = rw refused;
    }
  ]

-- The queue of `fresh` once the first loop has marked all its slots.
abbrev washed : MacQueue
washed = record { slots = replicate 6 (set_opcode 0xff blank); in_idx = 0; out_idx = 0 }

washed-IsValid : IsValid washed
washed-IsValid = ground arith

pass_fresh : pass_finished loop_fuel fresh ≡ some washed
unfolding pass_finished
pass_fresh = refl

put_after :
    (q q' : MacQueue) (cmd_len : ℕ) (cmd_buf : List ℕ) (needs_answer : Bool) {used : ℕ}
    {l : List Command}
    → 0 < cmd_len
    → cmd_len ≤ length cmd_buf
    → 0 < get_or cmd_buf 0 0
    → pass_finished loop_fuel q ≡ some q'
    → IsValid q'
    → span q' ≡ used
    → pending q' ≡ l
    → Becomes
        (after_put used l cmd_len cmd_buf needs_answer)
        (put_queue_mac_cmds q cmd_len cmd_buf needs_answer)
unfolding put_queue_mac_cmds
put_after q q' cmd_len cmd_buf needs_answer {used} {l} pos fits id_pos e v s p =
    subst
      (λ r.
        Becomes (after_put used l cmd_len cmd_buf needs_answer)
          (r >>= λ q''. put_checked q'' cmd_len cmd_buf needs_answer))
      (sym e)
      (subst₂
        (λ u m.
          Becomes (after_put u m cmd_len cmd_buf needs_answer)
            (put_checked q' cmd_len cmd_buf needs_answer))
        s p (put_checked_lem q' cmd_len cmd_buf needs_answer pos fits id_pos v))

-- `put_queue_mac_cmds` ends; it appends the command when the queue accepts it, and else leaves the
-- commands that wait as they are.
pub put_queue_mac_cmds_lem :
    (q : MacQueue) (cmd_len : ℕ) (cmd_buf : List ℕ) (needs_answer : Bool)
    → IsReady q
    → 0 < cmd_len
    → cmd_len ≤ length cmd_buf
    → 0 < get_or cmd_buf 0 0
    → Becomes
        (after_put (backlog (held q)) (pending q) cmd_len cmd_buf needs_answer)
        (put_queue_mac_cmds q cmd_len cmd_buf needs_answer)
put_queue_mac_cmds_lem q cmd_len cmd_buf needs_answer (inl v) pos fits id_pos =
    let p = pass_finished_lem 7 (span q) q v refl (omega arith) in
    put_after q p.queue cmd_len cmd_buf needs_answer pos fits id_pos p.returns p.valid p.left p.same
put_queue_mac_cmds_lem q cmd_len cmd_buf needs_answer (inr e) pos fits id_pos =
    put_after q washed cmd_len cmd_buf needs_answer pos fits id_pos (rw e pass_fresh) washed-IsValid
      (rw e) (rw e)
