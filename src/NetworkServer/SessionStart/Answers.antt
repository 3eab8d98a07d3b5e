-- ===== src/NetworkServer/SessionStart/Answers.antt =====
-- The answers to the commands at the start of a session, and all of `parse_mac_command`
-- (network_server/sNS.c, network_server/band_arib8ch.c).
use lo_ra_wan_backend.Base.{ℕ, zero, suc, ◌+◌, ◌<◌, ◌≤◌, refl, arith}
use lo_ra_wan_backend.Base.{
  Bool, true, false, ◌&&◌, ◌||◌, if◌then◌else◌, ltb, ◌==◌, Bool-cases, inl, inr, if_either, u8,
  ltb→lt, bit_and, bit_or,
}
use lo_ra_wan_backend.Base.{List, get_or}
use lo_ra_wan_backend.NetworkServer.MacQueue.Refine.{IsReady}
use lo_ra_wan_backend.NetworkServer.MacCommands.{Uplink}
use lo_ra_wan_backend.NetworkServer.MacCommands.Safety.{parse_mac_command_lem}
use lo_ra_wan_backend.NetworkServer.Downlink.{Server}
use lo_ra_wan_backend.NetworkServer.SessionStart.{
  set_ch_mask0, ch_mask0, new_channel_req, start_step, start_from, arib_parse_start_mac_cmd,
  start_answers, parse_commands, has_start,
}
use lo_ra_wan_backend.NetworkServer.SessionStart.Steps.{
  Quiet, quiet, then-Quiet, requiet, ask-Quiet,
}

start_step-Quiet : (c : ℕ) (s : Server) → IsReady s.queue → Quiet s (start_step c s)
unfolding start_step
start_step-Quiet c s r =
    if_either (Quiet s) (c == 0x05)
      (then-Quiet s _ _ (ask-Quiet s 6 new_channel_req r (omega arith) (omega arith) (omega arith))
        (λ t p.
          requiet t (record (set_ch_mask0 t (bit_or (ch_mask0 t) 0x0004)) { force_adr = true }) _
            refl refl refl (quiet _ p)))
      (if_either (Quiet s) (c == 0x07)
        (requiet s
          (record (set_ch_mask0 s (bit_and (ch_mask0 s) 0xfffc)) {
            force_adr = true;
            send_start_mac_cmds = false;
          })
          _ refl refl refl (quiet _ r))
        (quiet s r))

used_lem : (b : Bool) (idx : ℕ) → idx < 253 → (idx < u8 (idx + (if b then 2 else 1)))
used_lem true idx h = omega arith
used_lem false idx h = omega arith

start_from-Quiet :
    (fuel : ℕ) (buf : List ℕ) (buf_len idx : ℕ) (s : Server)
    → buf_len ≤ 253
    → buf_len < fuel + idx
    → 0 < fuel
    → IsReady s.queue
    → Quiet s (start_from fuel buf buf_len idx s)
unfolding start_from
start_from-Quiet zero buf buf_len idx s small enough pos r = absurd (omega arith)
start_from-Quiet (suc fuel) buf buf_len idx s small enough pos r =
    let c = get_or buf idx 0 in
    let used : ℕ = if (c == 0x05) || (c == 0x07) then 2 else 1 in
    elim (Bool-cases (ltb idx buf_len)) [
      | inl in_range ↦ rw in_range (
          then-Quiet s (start_step c s) _ (start_step-Quiet c s r) (λ t p.
            let lt : idx < buf_len = ltb→lt idx buf_len in_range in
            let moved = used_lem ((c == 0x05) || (c == 0x07)) idx (omega arith) in
            start_from-Quiet fuel buf buf_len (u8 (idx + used)) t small (omega arith) (omega arith)
              p))
      | inr at_end ↦ rw at_end (quiet s r)
    ]

start_answers-Quiet :
    (ul : Uplink) (buf : List ℕ) (len : ℕ) (s : Server)
    → len ≤ 253
    → IsReady s.queue
    → Quiet s (start_answers ul buf len s)
unfolding start_answers arib_parse_start_mac_cmd
start_answers-Quiet ul buf len s small r =
    if_either (Quiet s) (s.send_start_mac_cmds && has_start ul.region)
      (start_from-Quiet (suc len) buf len 0 s small (omega arith) (omega arith) r) (quiet s r)

pub parse_commands-Quiet :
    (ul : Uplink) (buf : List ℕ) (len : ℕ) (s : Server)
    → len ≤ 253
    → IsReady s.queue
    → Quiet s (parse_commands ul buf len s)
unfolding parse_commands
parse_commands-Quiet ul buf len s small r =
    let o = parse_mac_command_lem ul buf len s.commands s.queue small r in
    let t = record s { commands = o.session; queue = o.queue } in
    rw o.returns (requiet s t _ refl refl refl (start_answers-Quiet ul buf len t small o.ready))
