-- ===== src/NetworkServer/MacQueue/Script.antt =====
-- Whole lives of a command queue: any sequence of the calls of network_server/sNS.c.
use lo_ra_wan_backend.Base.{ℕ, ◌≡◌, refl, ◌≤◌, ◌<◌, Bool, ◌++◌, Option, some}
use lo_ra_wan_backend.Base.{List, [], ◌∷◌, length, get_or, inl, inr, ◌>>=◌, if_either}
use lo_ra_wan_backend.NetworkServer.MacQueue.{
  MacQueue, fresh, put_queue_mac_cmds, wipe_queued_mac_cmds, clear_queued_mac_cmd,
  take_queued_mac_cmds,
}
use lo_ra_wan_backend.NetworkServer.MacQueue.Pending.{
  Command, pending, held, remove_first, sending, IsDistinct,
}
use lo_ra_wan_backend.NetworkServer.MacQueue.Put.{backlog}
use lo_ra_wan_backend.NetworkServer.MacQueue.Store.{queued}
use lo_ra_wan_backend.NetworkServer.MacQueue.Refine.{
  IsReady, Becomes, wipe_queued_mac_cmds_lem, clear_queued_mac_cmd_lem,
}
use lo_ra_wan_backend.NetworkServer.MacQueue.Deliver.{take_queued_mac_cmds_lem}
use lo_ra_wan_backend.NetworkServer.MacQueue.Accept.{after_put, put_queue_mac_cmds_lem}

-- One call.
pub data Call : Type 0 where
  put : ℕ → List ℕ → Bool → Call
  clear : ℕ → Call
  wipe take : Call

pub call : MacQueue → Call → Option MacQueue
call q (put cmd_len cmd_buf needs_answer) = put_queue_mac_cmds q cmd_len cmd_buf needs_answer
call q (clear c) = clear_queued_mac_cmd q c
call q wipe = wipe_queued_mac_cmds q
call q take = do t ← take_queued_mac_cmds q; some t.queue

pub run : MacQueue → List Call → Option MacQueue
run q [] = some q
run q (c ∷ cs) = do q' ← call q c; run q' cs

-- A put passes a command with an identifier, as long as it says.
abbrev pub IsProper : Call → Type 0
IsProper (put cmd_len cmd_buf needs_answer) =
    (0 < cmd_len) × (cmd_len ≤ length cmd_buf) × (0 < get_or cmd_buf 0 0)
IsProper (clear c) = Unit
IsProper wipe = Unit
IsProper take = Unit

abbrev pub AllProper : List Call → Type 0
AllProper [] = Unit
AllProper (c ∷ cs) = IsProper c × AllProper cs

-- The abstract queue: a list, and a put that may be refused.
pub data Step : List Command → Call → List Command → Type 0 where
  accepted :
      (l : List Command) (n : ℕ) (buf : List ℕ) (b : Bool)
      → Step l (put n buf b) (l ++ queued n buf b ∷ [])
  refused : (l : List Command) (n : ℕ) (buf : List ℕ) (b : Bool) → Step l (put n buf b) l
  cleared : (l : List Command) (c : ℕ) → Step l (clear c) (remove_first c l)
  wiped : (l : List Command) → Step l wipe []
  taken : (l : List Command) → Step l take (sending 0 l).kept

pub data Steps : List Command → List Call → List Command → Type 0 where
  done : (l : List Command) → Steps l [] l
  more :
      {l m r : List Command} {c : Call} {cs : List Call}
      → Step l c m
      → Steps m cs r
      → Steps l (c ∷ cs) r

-- The concrete call made a step of the abstract queue.
pub record Refines (l : List Command) (c : Call) (result : Option MacQueue) : Type 0 where
  pub queue : MacQueue
  pub returns : result ≡ some queue
  pub ready : IsReady queue
  pub step : Step l c (pending queue)

after_put-Step :
    (used : ℕ) (l : List Command) (n : ℕ) (buf : List ℕ) (b : Bool)
    → Step l (put n buf b) (after_put used l n buf b)
after_put-Step used l n buf b =
    if_either (Step l (put n buf b)) _ (accepted l n buf b) (refused l n buf b)

Becomes-Refines :
    (l m : List Command) (c : Call) (result : Option MacQueue)
    → Step l c m
    → Becomes m result
    → Refines l c result
Becomes-Refines l m c result s r = record {
  queue = r.queue;
  returns = r.returns;
  ready = r.ready;
  step = rw r.now s;
}

pub call-Refines :
    (q : MacQueue) (c : Call) → IsReady q → IsProper c → Refines (pending q) c (call q c)
unfolding call
call-Refines q (put n buf b) r (pos, fits, id_pos) =
    Becomes-Refines _ _ _ _ (after_put-Step (backlog (held q)) (pending q) n buf b)
      (put_queue_mac_cmds_lem q n buf b r pos fits id_pos)
call-Refines q (clear c) r h =
    Becomes-Refines _ _ _ _ (cleared (pending q) c) (clear_queued_mac_cmd_lem q c r)
call-Refines q wipe r h = Becomes-Refines _ _ _ _ (wiped (pending q)) (wipe_queued_mac_cmds_lem q r)
call-Refines q take r h =
    let t = take_queued_mac_cmds_lem q r in
    record {
      queue = t.taken.queue;
      returns = rw t.returns;
      ready = t.ready;
      step = rw t.now (taken (pending q));
    }

-- A run that ended in `queue`, along the abstract commands `l`.
pub record Ran (l : List Command) (cs : List Call) (result : Option MacQueue) : Type 0 where
  pub queue : MacQueue
  pub returns : result ≡ some queue
  pub ready : IsReady queue
  pub steps : Steps l cs (pending queue)

pub run-Ran :
    (q : MacQueue) (cs : List Call) → IsReady q → AllProper cs → Ran (pending q) cs (run q cs)
unfolding run
run-Ran q [] r h = record { queue = q; returns = refl; ready = r; steps = done (pending q) }
run-Ran q (c ∷ cs) r h =
    let one = call-Refines q c r h.0 in
    let rest = run-Ran one.queue cs one.ready h.1 in
    record {
      queue = rest.queue;
      returns = rw one.returns rest.returns;
      ready = rest.ready;
      steps = more one.step rest.steps;
    }

pub IsReady-IsDistinct : (q : MacQueue) → IsReady q → IsDistinct (pending q)
IsReady-IsDistinct q (inl v) = v.distinct
IsReady-IsDistinct q (inr e) = rw e tt

-- Every sequence of calls on a new queue, whose puts pass an identifier and the length of their
-- buffer, runs to its end; it follows the abstract queue call by call, and no two commands that
-- wait at the end have one identifier.
pub run-Refines :
    (cs : List Call)
    → AllProper cs
    → Ran [] cs (run fresh cs) × ((q : MacQueue) × (run fresh cs ≡ some q) × IsDistinct (pending q))
run-Refines cs h =
    let r = run-Ran fresh cs (inr refl) h in
    (r, (r.queue, r.returns, IsReady-IsDistinct r.queue r.ready))
