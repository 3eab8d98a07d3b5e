-- ===== src/NetworkServer/ForceRejoin.antt =====
-- `sNS_force_rejoin` of network_server/sNS.c, for a mote that has a session (`mote->s`). The service
-- profile comes from the SQL database, which is not this code: its `DRMin` is an argument, and
-- `none` is a query that fails.
use lo_ra_wan_backend.Base.{ℕ, ◌*◌, ◌^◌, ◌≡◌, refl, ap, ◌∙◌, arith, ◌==◌, if◌then◌else◌, false}
use lo_ra_wan_backend.Base.{List, [], ◌∷◌, All, Option, none, some, ◌>>=◌, bit_and, bit_or, u16}
use lo_ra_wan_backend.Base.Bits.{bit_and_mask}
use lo_ra_wan_backend.NetworkServer.MacQueue.{
  Slot, MacQueue, wipe_queued_mac_cmds, put_queue_mac_cmds,
}
use lo_ra_wan_backend.NetworkServer.MacQueue.Pending.{live, held, pending}
use lo_ra_wan_backend.NetworkServer.MacQueue.Valid.{IsHeld}
use lo_ra_wan_backend.NetworkServer.MacQueue.Put.{backlog}
use lo_ra_wan_backend.NetworkServer.MacQueue.Refine.{IsReady, wipe_queued_mac_cmds_lem}
use lo_ra_wan_backend.NetworkServer.MacQueue.Accept.{put_queue_mac_cmds_lem}
use lo_ra_wan_backend.Base.{inl, inr}

abbrev pub force_rejoin_req : ℕ
force_rejoin_req = 0x0e

abbrev pub max_retries : ℕ
max_retries = 3

abbrev pub period : ℕ
period = 1

pub cmd_payload : ℕ → ℕ → ℕ
cmd_payload dr_min type =
    let a = bit_and dr_min 0x0f in
    let b = bit_or a (bit_and max_retries 7 * 2 ^ 8) in
    let c = bit_or b (bit_and type 7 * 2 ^ 4) in u16 (bit_or c (bit_and period 7 * 2 ^ 11))

-- `cmd_buf[0]` to `cmd_buf[2]`.
pub cmd_buf : ℕ → ℕ → List ℕ
unfolding cmd_payload
cmd_buf dr_min type =
    force_rejoin_req
    ∷ bit_and (cmd_payload dr_min type) 0xff
    ∷ bit_and (cmd_payload dr_min type * 2 ^ 8) 0xff
    ∷ []

-- The queue and `type2_rejoin_count` after the call; `none` is a loop out of fuel.
pub force_rejoin : Option ℕ → MacQueue → ℕ → ℕ → Option (MacQueue × ℕ)
unfolding cmd_buf
force_rejoin none q type2_rejoin_count type = some (q, type2_rejoin_count)
force_rejoin (some dr_min) q type2_rejoin_count type = do
  wiped ← wipe_queued_mac_cmds q
  filled ← put_queue_mac_cmds wiped 3 (cmd_buf dr_min type) false
  some (filled, if type == 2 then max_retries else type2_rejoin_count)

live-backlog : (w : List Slot) → All IsHeld w → live w ≡ [] → backlog w ≡ 0
live-backlog [] h e = refl
live-backlog (x ∷ w) h e = ground (arith, h.0.matched, e, live-backlog w h.1)

ready-backlog : (q : MacQueue) → IsReady q → pending q ≡ [] → backlog (held q) ≡ 0
ready-backlog q (inl v) e = live-backlog (held q) v.held_ok e
ready-backlog q (inr f) e = rw f refl

last_byte :
    (dr_min type : ℕ)
    → cmd_buf dr_min type ≡ force_rejoin_req ∷ bit_and (cmd_payload dr_min type) 0xff ∷ 0 ∷ []
unfolding cmd_buf
last_byte dr_min type =
    ap (λ (b : ℕ). force_rejoin_req ∷ bit_and (cmd_payload dr_min type) 0xff ∷ b ∷ [])
      (bit_and_mask 8 (cmd_payload dr_min type * 2 ^ 8) ∙ omega arith)

-- With a service profile, the call replaces all commands that wait by ForceRejoinReq, which is
-- sent without waiting for an answer; its last byte, for the retries and the period, is always zero.
pub force_rejoin_lem :
    (dr_min type count : ℕ) (q : MacQueue)
    → IsReady q
    → (filled : MacQueue) × (force_rejoin (some dr_min) q count type
        ≡ some (filled, if type == 2 then max_retries else count))
      × IsReady filled
      × (pending filled
          ≡ record {
            needs_answer = false;
            bytes = force_rejoin_req ∷ bit_and (cmd_payload dr_min type) 0xff ∷ 0 ∷ [];
          }
            ∷ [])
unfolding force_rejoin
force_rejoin_lem dr_min type count q r =
    let w = wipe_queued_mac_cmds_lem q r in
    let p =
      put_queue_mac_cmds_lem w.queue 3
        (force_rejoin_req ∷ bit_and (cmd_payload dr_min type) 0xff ∷ 0 ∷ []) false w.ready
        (omega arith) (omega arith) (omega arith) in
    let none_left : backlog (held w.queue) ≡ 0 = ready-backlog w.queue w.ready w.now in
    (
      p.queue,
      rw (w.returns, last_byte dr_min type, p.returns),
      p.ready,
      p.now ∙ rw (none_left, w.now),
    )

-- Without a service profile nothing changes.
pub force_rejoin-none :
    (q : MacQueue) (count type : ℕ) → force_rejoin none q count type ≡ some (q, count)
unfolding force_rejoin
force_rejoin-none q count type = refl
