-- ===== src/Tests/Queue.antt =====
-- The command queue of network_server/sNS.c on concrete queues.
use lo_ra_wan_backend.Base.{ℕ, ◌≡◌, true, false, some, List, [], ◌∷◌, inl, arith}
use lo_ra_wan_backend.NetworkServer.MacQueue.{
  Slot, MacQueue, fresh, blank, put_queue_mac_cmds, take_queued_mac_cmds,
}
use lo_ra_wan_backend.NetworkServer.MacQueue.Pending.{pending, held, IsDistinct}
use lo_ra_wan_backend.NetworkServer.MacQueue.Put.{backlog}
use lo_ra_wan_backend.NetworkServer.MacQueue.Refine.{IsReady, Becomes}
use lo_ra_wan_backend.NetworkServer.MacQueue.Deliver.{Delivers, take_queued_mac_cmds_lem}
use lo_ra_wan_backend.NetworkServer.MacQueue.Accept.{after_put, put_queue_mac_cmds_lem}
use lo_ra_wan_backend.NetworkServer.MacQueue.Script.{
  Call, Ran, run, run-Refines, put, clear, take, wipe,
}
use lo_ra_wan_backend.NetworkServer.ForceRejoin.{
  force_rejoin, force_rejoin_lem, force_rejoin_req, cmd_payload, max_retries,
}
use lo_ra_wan_backend.Base.{bit_and}

-- Two commands wait, one behind a slot that is done with.
abbrev link_adr : Slot
link_adr = record { len = 5; needs_answer = true; buf = 3 ∷ 0x51 ∷ 7 ∷ 0 ∷ 0 ∷ 0 ∷ 0 ∷ 0 ∷ [] }

abbrev dev_status : Slot
dev_status = record { len = 1; needs_answer = false; buf = 6 ∷ 0 ∷ 0 ∷ 0 ∷ 0 ∷ 0 ∷ 0 ∷ 0 ∷ [] }

abbrev passed_by : Slot
passed_by = record { len = 0; needs_answer = false; buf = 0xff ∷ 0 ∷ 0 ∷ 0 ∷ 0 ∷ 0 ∷ 0 ∷ 0 ∷ [] }

abbrev two_commands : MacQueue
two_commands = record {
  slots = dev_status ∷ passed_by ∷ passed_by ∷ passed_by ∷ link_adr ∷ blank ∷ [];
  in_idx = 1;
  out_idx = 4;
}

two_commands-IsReady : IsReady two_commands
two_commands-IsReady = inl (ground arith)

abbrev duty_cycle : List ℕ
duty_cycle = 4 ∷ 9 ∷ []

take_example : Delivers (pending two_commands) (take_queued_mac_cmds two_commands)
take_example = take_queued_mac_cmds_lem two_commands two_commands-IsReady

put_example :
    Becomes
      (after_put (backlog (held two_commands)) (pending two_commands) 2 duty_cycle true)
      (put_queue_mac_cmds two_commands 2 duty_cycle true)
put_example =
    put_queue_mac_cmds_lem two_commands 2 duty_cycle true two_commands-IsReady (omega arith)
      (omega arith) (omega arith)

abbrev calls : List Call
calls =
    put 2 duty_cycle true
    ∷ put 1 (6 ∷ []) false
    ∷ put 2 duty_cycle true
    ∷ take
    ∷ clear 4
    ∷ wipe
    ∷ []

run_example :
    Ran [] calls (run fresh calls)
    × ((q : MacQueue) × (run fresh calls ≡ some q) × IsDistinct (pending q))
run_example = run-Refines calls (ground arith)

force_rejoin_example :
    (filled : MacQueue) × (force_rejoin (some 2) two_commands 0 2 ≡ some (filled, max_retries))
    × IsReady filled
    × (pending filled
        ≡ record {
          needs_answer = false;
          bytes = force_rejoin_req ∷ bit_and (cmd_payload 2 2) 0xff ∷ 0 ∷ [];
        }
          ∷ [])
force_rejoin_example = force_rejoin_lem 2 2 0 two_commands two_commands-IsReady
