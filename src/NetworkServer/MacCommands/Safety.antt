-- ===== src/NetworkServer/MacCommands/Safety.antt =====
-- The MAC commands of an uplink (network_server/sNS.c) are any bytes that an end device sends.
use lo_ra_wan_backend.Base.{
  ℕ, zero, suc, ◌+◌, ◌-◌, ◌*◌, ◌/◌, ◌%◌, ◌^◌, u16, ◌≤◌, ◌<◌, ◌≡◌, refl, arith, ltb, if_either, u8,
  ◌==◌,
}
use lo_ra_wan_backend.Base.{true, false, List, [], ◌∷◌, get_or, length, Option, none, some, ◌>>=◌}
use mathlib.Core.Path.{subst}
use native.Mathlib.Decide.{dec_lt}
use native.Mathlib.Nat.{pow-le-pow_right, one-le-pow}
use lo_ra_wan_backend.NetworkServer.PingSlot.{ping_offset-lt}
use lo_ra_wan_backend.NetworkServer.MacQueue.{MacQueue}
use lo_ra_wan_backend.NetworkServer.MacQueue.Pending.{Command, pending}
use lo_ra_wan_backend.NetworkServer.MacQueue.Refine.{IsReady}
use lo_ra_wan_backend.NetworkServer.MacQueue.Script.{
  Call, IsProper, Steps, done, more, call-Refines,
}
use lo_ra_wan_backend.NetworkServer.MacCommands.{
  Uplink, Session, Handled, handle, queue_after, parse_from, parse_mac_command,
}

abbrev ProperCall : Option Call → Type 0
ProperCall none = Unit
ProperCall (some c) = IsProper c

-- A command takes one to three bytes, and its call has an identifier and a length.
abbrev IsHandled : Handled → Type 0
IsHandled h = (0 < h.used) × (h.used ≤ 3) × ProperCall h.queue_call

handle-IsHandled : (ul : Uplink) (s : Session) (c b : ℕ) → IsHandled (handle ul s c b)
unfolding handle
handle-IsHandled ul s c b = if_either IsHandled (c == 0x02) (omega arith) (
    if_either IsHandled (c == 0x10) (omega arith) (
      if_either IsHandled (c == 0x12) (omega arith) (
        if_either IsHandled (c == 0x0d) (omega arith) (
          if_either IsHandled (c == 0x03) (omega arith) (
            if_either IsHandled (c == 0x11) (omega arith) (
              if_either IsHandled (c == 0x13) (omega arith) (
                if_either IsHandled (c == 0x05) (omega arith) (
                  if_either IsHandled (c == 0x07) (omega arith) (
                    if_either IsHandled (c == 0x06) (omega arith) (
                      if_either IsHandled (c == 0x0b) (omega arith) (
                        if_either IsHandled (c == 0x01) (omega arith) (
                          if_either IsHandled (c == 0x20) (omega arith) (
                            if_either IsHandled (c == 0x0f) (omega arith) (
                              if_either IsHandled (c == 0x09) (omega arith)
                                (omega arith)))))))))))))))

-- The commands were handled: the queue followed the abstract one, in at most `most` calls.
pub record Obeyed (l : List Command) (most : ℕ) (result : Option (Session × MacQueue))
    : Type 0 where
  pub session : Session
  pub queue : MacQueue
  pub returns : result ≡ some (session, queue)
  pub ready : IsReady queue
  pub calls : List Call
  pub few : length calls ≤ most
  pub steps : Steps l calls (pending queue)

after_call :
    (q : MacQueue) (c : Option Call) (most room : ℕ) (next : MacQueue → Option (Session × MacQueue))
    → IsReady q
    → ProperCall c
    → ((q' : MacQueue) → IsReady q' → Obeyed (pending q') most (next q'))
    → suc most ≤ room
    → Obeyed (pending q) room (queue_after q c >>= next)
after_call q none most room next r p rest fits =
    let t = rest q r in
    record {
      session = t.session;
      queue = t.queue;
      returns = t.returns;
      ready = t.ready;
      calls = t.calls;
      few = omega (arith, t.few);
      steps = t.steps;
    }
after_call q (some c) most room next r p rest fits =
    let one = call-Refines q c r p in
    let t = rest one.queue one.ready in
    record {
      session = t.session;
      queue = t.queue;
      returns = rw one.returns t.returns;
      ready = t.ready;
      calls = c ∷ t.calls;
      few = omega (arith, t.few);
      steps = more one.step t.steps;
    }

parse_from-Obeyed :
    (fuel : ℕ) (ul : Uplink) (buf : List ℕ) (len idx : ℕ) (s : Session) (q : MacQueue)
    → len < fuel + idx
    → 0 < fuel
    → len ≤ 253
    → IsReady q
    → Obeyed (pending q) (len - idx) (parse_from fuel ul buf len idx s q)
unfolding parse_from
parse_from-Obeyed zero ul buf len idx s q f pos small r = absurd (omega arith)
parse_from-Obeyed (suc fuel) ul buf len idx s q f pos small r = elim (dec_lt idx len) [
  | yes inside ↦
      let test : ltb idx len ≡ true = ground arith in
      let h : Handled = handle ul s (get_or buf idx 0) (get_or buf (idx + 1) 0) in
      let ok = handle-IsHandled ul s (get_or buf idx 0) (get_or buf (idx + 1) 0) in
      let at : u8 (idx + h.used) ≡ idx + h.used = omega (arith, ok.0, ok.1) in
      rw test (
        after_call q h.queue_call (len - (idx + h.used)) (len - idx) _ r ok.2
          (λ q' ready. rw at (
            parse_from-Obeyed fuel ul buf len (idx + h.used) h.session q' (omega (arith, ok.0))
              (omega arith) small ready))
          (omega (arith, ok.0)))
  | no outside ↦
      let test : ltb idx len ≡ false = ground arith in
      record {
        session = s;
        queue = q;
        returns = rw test;
        ready = r;
        calls = [];
        few = omega arith;
        steps = done (pending q);
      }
]

-- Whatever up to 253 bytes an end device sends as MAC commands, the loop ends; it makes at most one
-- call on the queue for each byte, keeps the queue's invariant, and the commands that wait follow
-- the abstract queue through these calls.
pub parse_mac_command_lem :
    (ul : Uplink) (rx_cmd_buf : List ℕ) (len : ℕ) (s : Session) (q : MacQueue)
    → len ≤ 253
    → IsReady q
    → Obeyed (pending q) len (parse_mac_command ul rx_cmd_buf len s q)
unfolding parse_mac_command
parse_mac_command_lem ul buf len s q small r =
    subst (λ (n : ℕ). Obeyed (pending q) n (parse_from (suc len) ul buf len 0 s q)) (omega arith)
      (parse_from-Obeyed (suc len) ul buf len 0 s q (omega arith) (omega arith) small r)

period_eq : (p : ℕ) → p < 8 → u16 (4096 / (128 / 2 ^ p)) ≡ 32 * 2 ^ p
period_eq zero h = refl
period_eq (suc zero) h = refl
period_eq (suc (suc zero)) h = refl
period_eq (suc (suc (suc zero))) h = refl
period_eq (suc (suc (suc (suc zero)))) h = refl
period_eq (suc (suc (suc (suc (suc zero))))) h = refl
period_eq (suc (suc (suc (suc (suc (suc zero)))))) h = refl
period_eq (suc (suc (suc (suc (suc (suc (suc zero))))))) h = refl
period_eq (suc (suc (suc (suc (suc (suc (suc (suc p)))))))) h = absurd (omega arith)

-- PingSlotInfoReq sets a ping period of 32 slots times a power of two, up to 4096, with an offset
-- below it, which the choice of the ping slot needs.
pub ping_slot_info_lem :
    (ul : Uplink) (s : Session) (b : ℕ)
    → ((handle ul s 0x10 b).session.ping_period ≡ 32 * 2 ^ (b % 8))
      × ((handle ul s 0x10 b).session.ping_period ≤ 2 ^ 12)
      × ((handle ul s 0x10 b).session.ping_offset < (handle ul s 0x10 b).session.ping_period)
unfolding handle
ping_slot_info_lem ul s b =
    let period : ℕ = u16 (4096 / (128 / 2 ^ (b % 8))) in
    let e : period ≡ 32 * 2 ^ (b % 8) = period_eq (b % 8) (omega arith) in
    let below : 2 ^ (b % 8) ≤ 2 ^ 7 =
      pow-le-pow_right {n = 2} (omega arith) {i = b % 8} {j = 7} (omega arith) in
    let above : 1 ≤ 2 ^ (b % 8) = one-le-pow (b % 8) 2 (omega arith) in
    (
      e,
      omega (arith, e, below),
      ping_offset-lt ul.aes ul.seconds_at_beacon ul.dev_addr period (omega (arith, e, above)),
    )
