-- ===== src/NetworkServer/MacQueue.antt =====
-- The queue of MAC commands that wait for an end device: `mac_cmd_queue` of `s_t`
-- (network_server/sNS.h) and the functions of network_server/sNS.c that work on it.
-- A slot's `buf` is its array of eight bytes. The loops walk an index round the ring; they take
-- fuel, and `none` means that the fuel ran out.
pub mod Ring
pub mod Walk
pub mod Pending
pub mod Loops
pub mod Writes
pub mod Sending
pub mod Valid
pub mod Put
pub mod Store
pub mod Distinct
pub mod Refine
pub mod Deliver
pub mod Accept
pub mod Script
use lo_ra_wan_backend.Base.{
  ℕ, zero, suc, ◌+◌, ◌≡◌, Bool, true, false, not, ◌&&◌, Option, none, some,
}
use lo_ra_wan_backend.Base.{List, [], ◌∷◌, ◌++◌, ltb, leb, ◌==◌, if◌then◌else◌, u8, ◌>>=◌}
use lo_ra_wan_backend.Base.{length, get_or, set, take, drop, replicate}

abbrev pub mac_cmd_size : ℕ
mac_cmd_size = 8

abbrev pub mac_cmd_queue_size : ℕ
mac_cmd_queue_size = 6

pub record Slot : Type 0 where
  pub len : ℕ
  pub needs_answer : Bool
  pub buf : List ℕ

pub record MacQueue : Type 0 where
  pub slots : List Slot
  pub in_idx : ℕ
  pub out_idx : ℕ

abbrev pub blank : Slot
blank = record { len = 0; needs_answer = false; buf = replicate mac_cmd_size 0 }

-- The queue of a new `s_t`, which comes from `calloc`.
abbrev pub fresh : MacQueue
fresh = record { slots = replicate mac_cmd_queue_size blank; in_idx = 0; out_idx = 0 }

-- `if (++idx == MAC_CMD_QUEUE_SIZE) idx = 0;` on a `uint8_t`.
abbrev pub next : ℕ → ℕ
next i = if u8 (i + 1) == mac_cmd_queue_size then 0 else u8 (i + 1)

abbrev pub slot_at : List Slot → ℕ → Slot
slot_at s i = get_or s i blank

-- `buf[0]`, the command's identifier.
abbrev pub opcode : Slot → ℕ
opcode x = get_or x.buf 0 0

abbrev pub set_opcode : ℕ → Slot → Slot
set_opcode c x = record x { buf = set x.buf 0 c }

-- A command that is done with: `len = 0; buf[0] = 0`.
abbrev pub finish : Slot → Slot
finish x = record (set_opcode 0 x) { len = 0 }

abbrev pub set_slot : MacQueue → ℕ → Slot → MacQueue
set_slot q i x = record q { slots = set q.slots i x }

-- More rounds than any loop over the ring makes.
abbrev pub loop_fuel : ℕ
loop_fuel = 7

pub wipe_from : ℕ → MacQueue → ℕ → Option MacQueue
wipe_from zero q my = none
wipe_from (suc fuel) q my =
    let rest = wipe_from fuel (set_slot q my (finish (slot_at q.slots my))) (next my) in
    if q.in_idx == my then some q else rest

pub wipe_queued_mac_cmds : MacQueue → Option MacQueue
wipe_queued_mac_cmds q = wipe_from loop_fuel q q.out_idx

-- The first loop of `put_queue_mac_cmds`: pass over the finished commands.
pub pass_finished : ℕ → MacQueue → Option MacQueue
pass_finished zero q = none
pass_finished (suc fuel) q =
    let here = set_opcode 0xff (slot_at q.slots q.out_idx) in
    let rest =
      pass_finished fuel (record (set_slot q q.out_idx here) { out_idx = next q.out_idx }) in
    if opcode (slot_at q.slots q.out_idx) == 0 then rest else some q

-- Is this command in the queue already?
pub already_queued : ℕ → MacQueue → ℕ → ℕ → Option Bool
already_queued zero q cmd my = none
already_queued (suc fuel) q cmd my =
    let rest = already_queued fuel q cmd (next my) in
    let x = slot_at q.slots my in
    if q.in_idx == my
    then some false
    else if not (x.len == 0) && opcode x == cmd
    then some true
    else rest

-- `memcpy(buf, cmd_buf, cmd_len)`.
abbrev pub copy : ℕ → List ℕ → List ℕ → List ℕ
copy n from to = take n from ++ drop n to

-- The command written into the slot at `in_idx`, and the index moved on.
pub store : MacQueue → ℕ → List ℕ → Bool → MacQueue
store q cmd_len cmd_buf needs_answer =
    let old = slot_at q.slots q.in_idx in
    let new : Slot = record {
      len = cmd_len;
      needs_answer = needs_answer;
      buf = copy cmd_len cmd_buf old.buf;
    } in
    record (set_slot q q.in_idx new) { in_idx = next q.in_idx }

pub put_checked : MacQueue → ℕ → List ℕ → Bool → Option MacQueue
put_checked q cmd_len cmd_buf needs_answer =
    if leb mac_cmd_size cmd_len then some q else if next q.in_idx == q.out_idx then some q else (do
      found ← already_queued loop_fuel q (get_or cmd_buf 0 0) q.out_idx
      some (if found then q else store q cmd_len cmd_buf needs_answer))

pub put_queue_mac_cmds : MacQueue → ℕ → List ℕ → Bool → Option MacQueue
put_queue_mac_cmds q cmd_len cmd_buf needs_answer = do
  q' ← pass_finished loop_fuel q
  put_checked q' cmd_len cmd_buf needs_answer

pub clear_from : ℕ → MacQueue → ℕ → ℕ → Option MacQueue
clear_from zero q cmd my = none
clear_from (suc fuel) q cmd my =
    let rest = clear_from fuel q cmd (next my) in
    let x = slot_at q.slots my in
    if q.in_idx == my
    then some q
    else if not (x.len == 0) && opcode x == cmd
    then some (set_slot q my (finish x))
    else rest

pub clear_queued_mac_cmd : MacQueue → ℕ → Option MacQueue
clear_queued_mac_cmd q cmd = clear_from loop_fuel q cmd q.out_idx

pub any_from : ℕ → MacQueue → ℕ → Option Bool
any_from zero q my = none
any_from (suc fuel) q my =
    let rest = any_from fuel q (next my) in
    if q.in_idx == my
    then some false
    else if ltb 0 (slot_at q.slots my).len
    then some true
    else rest

pub are_mac_cmds_queued : MacQueue → Option Bool
are_mac_cmds_queued q = any_from loop_fuel q q.out_idx

-- What the loop of `get_queued_mac_cmds` leaves: the queue, the `buf_idx` bytes of `buf`, and
-- `ret`, whether a command sent wants an answer.
pub record Taken : Type 0 where
  pub queue : MacQueue
  pub buf : List ℕ
  pub ret : Bool

-- The slot after its command was sent.
abbrev pub sent : Slot → Slot
sent x = if x.needs_answer then x else finish x

pub take_from : ℕ → MacQueue → ℕ → List ℕ → Bool → Option Taken
take_from zero q my buf ret = none
take_from (suc fuel) q my buf ret =
    let x = slot_at q.slots my in
    let stop : Option Taken = some (record { queue = q; buf = buf; ret = ret }) in
    let skip = take_from fuel q (next my) buf ret in
    let send =
      take_from fuel (set_slot q my (sent x)) (next my) (buf ++ take x.len x.buf)
        (if x.needs_answer then true else ret) in
    if q.in_idx == my
    then stop
    else if x.len == 0
    then skip
    else if ltb 15 (length buf + x.len)
    then stop
    else send

pub take_queued_mac_cmds : MacQueue → Option Taken
take_queued_mac_cmds q = take_from loop_fuel q q.out_idx [] false
