-- ===== src/NetworkServer/Uplink/Delivery.antt =====
-- A payload of the application on its way through network_server/sNS.c: `hNS_to_sNS_downlink` stores
-- it, and `sNS_uplink` answers the next uplink with it.
use lo_ra_wan_backend.Base.{ℕ, ◌+◌, ◌^◌, ◌<◌, ◌≤◌, ◌≡◌, refl, sym, ap, ◌∙◌, arith, u32}
use lo_ra_wan_backend.Base.{
  Bool, true, false, not, ltb, ◌&&◌, ◌||◌, ◌==◌, if◌then◌else◌, Bool-cases, inl, inr, if_either,
}
use lo_ra_wan_backend.Base.{List, ◌∷◌, length, take, Option, some, none, All}
use mathlib.Core.Bool.{and-false}
use mathlib.Core.Path.{subst}
use lo_ra_wan_backend.Base.Buffer.{patch, length-patch, take-patch, write_within}
use lo_ra_wan_backend.NetworkServer.FrameCounter.{uplink_fcnt_lem}
use lo_ra_wan_backend.NetworkServer.MacQueue.Pending.{pending, is_empty}
use lo_ra_wan_backend.NetworkServer.Downlink.{
  MoteSession, Server, mtype, mtype_conf_up, has_payload, fcnt_agrees, fctrl_bit, rx_fcnt,
  uplink_forces_downlink,
}
use lo_ra_wan_backend.NetworkServer.Downlink.Outcome.{
  AppDownlink, stored, store_downlink, needed_fcnt_down, incr_nfcnt,
}
use lo_ra_wan_backend.NetworkServer.Downlink.Parts.{body_of, sent_fcnt}
use lo_ra_wan_backend.NetworkServer.Downlink.Schedule.{IsServer}
use lo_ra_wan_backend.NetworkServer.Downlink.EndDevice.{Reaches, schedule_downlink-Reaches}
use lo_ra_wan_backend.NetworkServer.Uplink.{
  Arrival, UplinkResult, success, go_on, check_session, take_ack, forget_old_sessions, accept,
  judge, count_uplink, after_check, sns_uplink,
}
use lo_ra_wan_backend.NetworkServer.Uplink.Keeps.{
  IsArrival, Quiet-IsServer, start_session-Quiet, uplink_adr-Quiet, uplink_commands-Quiet,
}
use lo_ra_wan_backend.NetworkServer.Uplink.Survives.{
  take_ack-IsServer, forgotten-IsServer, flagged-IsServer, counted-IsServer,
}
use lo_ra_wan_backend.NetworkServer.Uplink.Accepts.{
  full_fcnt, genuine, fresh_enough, if_true, if_false, mic_1v0,
}

-- The server that has the payload.
abbrev pub with_payload : AppDownlink → Server → Server
with_payload app s = record s {
  downlink = record s.downlink {
    frm_payload_bin = patch s.downlink.frm_payload_bin 0 app.payload;
    frm_payload_len = length app.payload;
    md_fcnt_down = app.fcnt_down;
    md_fport = app.fport;
    md_confirmed = app.confirmed;
  };
}

-- The counter of downlinks after an uplink that has the ACK bit or not.
abbrev pub counter_after : (ack : Bool) → MoteSession → Server → ℕ
counter_after ack n s = if ack && s.incr_nfcnt_down then u32 (n.nfcnt_down + 1) else n.nfcnt_down

with_payload-IsServer :
    (app : AppDownlink) (s : Server)
    → IsServer s
    → length app.payload ≤ 227
    → IsServer (with_payload app s)
with_payload-IsServer app s v fits = record {
  ready = v.ready;
  room = v.room;
  conf_room = v.conf_room;
  frm_room = length-patch s.downlink.frm_payload_bin 0 app.payload ∙ v.frm_room;
  frm_fits = fits;
  len_fits = v.len_fits;
  conf_fits = v.conf_fits;
}

store_lem :
    (o c : Bool) (n : MoteSession) (app : AppDownlink) (s : Server)
    → IsServer s
    → length app.payload ≤ 227
    → app.fcnt_down ≡ needed_fcnt_down c n s
    → store_downlink o c n app s ≡ some (stored (with_payload app s))
unfolding store_downlink
store_lem o c n app s v h timely =
    let same : (app.fcnt_down == needed_fcnt_down c n s) ≡ true = ground (arith, timely) in
    let passes : (not o && not true) ≡ false = and-false (not o) in
    rw
      (
        same,
        passes,
        write_within s.downlink.frm_payload_bin 0 app.payload (omega (arith, v.frm_room)),
      )
      refl

wanted : (a b c : Bool) (len : ℕ) → 0 < len → (not a && (not b && (not c && (len == 0)))) ≡ false
wanted a b c len h = ground arith

-- What the ACK bit leaves of the payload and of the counter.
after_ack : Bool → MoteSession → Server → MoteSession × Server
after_ack ack n s = if ack then take_ack n s else (n, s)

record Kept (ack : Bool) (n : MoteSession) (s : Server) (r : MoteSession × Server) : Type 0 where
  downlink : r.1.downlink ≡ s.downlink
  version : r.0.opt_neg ≡ n.opt_neg
  counter : r.0.nfcnt_down ≡ counter_after ack n s

after_ack-Kept :
    (ack : Bool) (n : MoteSession) (s : Server)
    → (ack && not (s.downlink.resend_at == 0)) ≡ false
    → Kept ack n s (after_ack ack n s)
unfolding after_ack take_ack incr_nfcnt
after_ack-Kept false n s h = record { downlink = refl; version = refl; counter = refl }
after_ack-Kept true n s h = elim (Bool-cases s.incr_nfcnt_down) [
  | inl counts ↦ record {
    downlink = rw (h, and-false (s.downlink.md_confirmed && ltb 0 s.downlink.frm_payload_len)) refl;
    version = rw counts refl;
    counter = rw counts refl;
  }
  | inr stays ↦ record {
    downlink = rw (h, and-false (s.downlink.md_confirmed && ltb 0 s.downlink.frm_payload_len)) refl;
    version = rw stays refl;
    counter = rw stays refl;
  }
]

forgotten-downlink : (a : Arrival) (s : Server) → (forget_old_sessions a s).downlink ≡ s.downlink
forgotten-downlink a s =
    if_either (λ (t : Server). t.downlink ≡ s.downlink)
      (not a.sql_opt_neg && s.commands.check_old_sessions) refl refl

forgotten-counts :
    (a : Arrival) (s : Server) → (forget_old_sessions a s).incr_nfcnt_down ≡ s.incr_nfcnt_down
forgotten-counts a s =
    if_either (λ (t : Server). t.incr_nfcnt_down ≡ s.incr_nfcnt_down)
      (not a.sql_opt_neg && s.commands.check_old_sessions) refl refl

-- A session that has not expired goes on.
current-go_on :
    (a : Arrival) (s : Server)
    → (a.forever || (a.has_session && not a.expired)) ≡ true
    → check_session a s ≡ some (go_on s)
unfolding check_session
current-go_on a s current = elim (Bool-cases a.forever) [
  | inl lasting ↦ if_true _ _ lasting
  | inr limited ↦
      (let known : (a.has_session && not a.expired) ≡ true = rw limited at current in
        let has : not a.has_session ≡ false = ground (arith, known) in
        let lives : a.expired ≡ false = ground (arith, known) in
        if_false _ _ limited ∙ if_false _ _ has ∙ if_false _ _ lives)
]

module _ (aes cmac : List ℕ → List ℕ → List ℕ) (stack : List ℕ) (dev_addr : ℕ)
    (block_size : (key block : List ℕ) → length (aes key block) ≡ 16)
    (tag_size : (key msg : List ℕ) → length (cmac key msg) ≡ 16)
    (tag_bytes : (key msg : List ℕ) → All (λ b. b < 256) (cmac key msg)) where
  -- The handler accepts the uplink and leaves a frame for the end device, with the payload that `t`
  -- holds and its counter.
  pub record Delivers (a : Arrival) (t : Server) (result : Option UplinkResult) : Type 0 where
    pub handled : UplinkResult
    pub before : Server
    pub returns : result ≡ some handled
    pub verdict : handled.verdict ≡ success
    pub reaches :
        Reaches aes cmac stack dev_addr block_size tag_size tag_bytes handled.session
          a.ul_payload_bin before
          (some handled.server)
    pub body :
        body_of handled.session before
        ≡ t.downlink.md_fport ∷ take t.downlink.frm_payload_len t.downlink.frm_payload_bin
    pub fcnt : sent_fcnt handled.session before ≡ t.downlink.md_fcnt_down

  accept-Delivers :
      (a : Arrival) (n : MoteSession) (fcnt_up : ℕ) (t : Server)
      → IsArrival a
      → 15 ≤ length stack
      → IsServer t
      → dev_addr < 2 ^ 32
      → n.opt_neg ≡ false
      → t.downlink.phy_payload_len ≡ 0
      → 0 < t.downlink.frm_payload_len
      → (fctrl_bit 5 a.ul_payload_bin && not (t.downlink.resend_at == 0)) ≡ false
      → ((fcnt_up == n.fcnt_up) && (mtype a.ul_payload_bin == mtype_conf_up)) ≡ false
      → t.downlink.md_fcnt_down ≡ counter_after (fctrl_bit 5 a.ul_payload_bin) n t
      → Delivers a t (accept aes cmac stack dev_addr a n fcnt_up t)
  unfolding accept after_ack
  accept-Delivers a n fcnt_up t i k v h old idle pos waits new timely =
      let ack = fctrl_bit 5 a.ul_payload_bin in
      let known = record n { null_nfcnt_down = false } in
      let left = forget_old_sessions a t in
      let same_left = forgotten-downlink a t in
      let acked = after_ack ack known left in
      let kept =
        after_ack-Kept ack known left
          (subst (λ d. (ack && not (d.resend_at == 0)) ≡ false) (sym same_left) waits) in
      let left_valid = forgotten-IsServer a t v in
      let valid : IsServer acked.1 =
        if_either (λ (r : MoteSession × Server). IsServer r.1) ack
          (take_ack-IsServer known left left_valid) left_valid in
      let b = start_session-Quiet a acked.1 valid.ready in
      let c =
        uplink_commands-Quiet aes cmac stack dev_addr block_size a acked.0 fcnt_up b.server i
          b.ready in
      let d = uplink_adr-Quiet a c.server i c.ready in
      let d_valid = Quiet-IsServer _ _ d (Quiet-IsServer _ _ c (Quiet-IsServer _ _ b valid)) in
      let repeats = (fcnt_up == n.fcnt_up) && (mtype a.ul_payload_bin == mtype_conf_up) in
      let u = record d.server { up_confre_sent = repeats } in
      let same : u.downlink ≡ t.downlink =
        d.downlink ∙ c.downlink ∙ b.downlink ∙ kept.downlink ∙ same_left in
      let filled : 0 < u.downlink.frm_payload_len =
        subst (λ e. 0 < e.frm_payload_len) (sym same) pos in
      let has : has_payload u ≡ true = rw new (ground (arith, filled)) in
      let version : acked.0.opt_neg ≡ false = kept.version ∙ old in
      let counter : u.downlink.md_fcnt_down ≡ acked.0.nfcnt_down =
        ap (λ e. e.md_fcnt_down) same
        ∙ timely
        ∙ ap (λ e. if ack && e then u32 (n.nfcnt_down + 1) else n.nfcnt_down)
            (sym (forgotten-counts a t))
        ∙ sym kept.counter in
      let agrees : fcnt_agrees acked.0 u ≡ true = rw version (ground (arith, counter)) in
      let z =
        schedule_downlink-Reaches aes cmac stack dev_addr block_size tag_size tag_bytes acked.0
          a.ul_payload_bin u (flagged-IsServer repeats d.server d_valid) h k
          (ap (λ e. e.phy_payload_len) same ∙ idle)
          (wanted (mtype a.ul_payload_bin == mtype_conf_up)
            (uplink_forces_downlink a.ul_payload_bin u) (not (is_empty (pending u.queue)))
            u.downlink.frm_payload_len filled) in
      record {
        handled = record {
          verdict = success;
          session = acked.0;
          server = z.server;
          dropped = false;
          fcnt_down = if a.sql_opt_neg then acked.1.afcnt_down else acked.0.nfcnt_down;
          sql_fcnt_up = if fcnt_up == n.fcnt_up then none else some fcnt_up;
        };
        before = u;
        returns = rw (b.returns, c.returns, d.returns, z.returns) refl;
        verdict = refl;
        reaches =
            subst
              (λ r.
                Reaches aes cmac stack dev_addr block_size tag_size tag_bytes acked.0
                  a.ul_payload_bin u r)
              z.returns z;
        body =
            rw (has, agrees) refl
            ∙ ap (λ e. e.md_fport ∷ take e.frm_payload_len e.frm_payload_bin) same;
        fcnt = rw (has, version) (sym counter) ∙ ap (λ e. e.md_fcnt_down) same;
      }

  -- In a LoRaWAN 1.0 session that has not expired, with no frame waiting, a payload of 1 to 227 bytes
  -- with the counter that is needed is stored. `sNS_uplink` accepts the next genuine uplink, unless it
  -- repeats a confirmed one or brings an ACK while a transmission waits to be resent, and if the
  -- counter still agrees after its ACK bit, the end device reads the payload and its counter from the
  -- frame.
  pub payload_delivered :
      (c : Bool) (a : Arrival) (n : MoteSession) (app : AppDownlink) (s : Server)
      → IsArrival a
      → 15 ≤ length stack
      → IsServer s
      → dev_addr < 2 ^ 32
      → (n.opt_neg ≡ false) × (a.sql_opt_neg ≡ false)
      → (a.forever || (a.has_session && not a.expired)) ≡ true
      → n.fcnt_up < 2 ^ 32
      → rx_fcnt a.ul_payload_bin < 2 ^ 16
      → (fresh_enough a n ≡ true) × (genuine cmac a n ≡ true)
      → s.downlink.phy_payload_len ≡ 0
      → (0 < length app.payload) × (length app.payload ≤ 227)
      → (fctrl_bit 5 a.ul_payload_bin && not (s.downlink.resend_at == 0)) ≡ false
      → ((full_fcnt a n == n.fcnt_up) && (mtype a.ul_payload_bin == mtype_conf_up)) ≡ false
      → app.fcnt_down ≡ needed_fcnt_down c n s
      → app.fcnt_down ≡ counter_after (fctrl_bit 5 a.ul_payload_bin) n s
      → (store_downlink false c n app s ≡ some (stored (with_payload app s)))
        × (take (length app.payload) (patch s.downlink.frm_payload_bin 0 app.payload) ≡ app.payload)
        × Delivers a
            (with_payload app s)
            (sns_uplink aes cmac stack dev_addr a n (with_payload app s))
  unfolding sns_uplink after_check count_uplink judge
  payload_delivered c a n app s i k v h old current bound fcnt good idle fits waits new timely
        agrees =
      let t = with_payload app s in
      let valid = with_payload-IsServer app s v fits.1 in
      let counted = record t { new_fcnt_up = true } in
      let go = current-go_on a t current in
      let count =
        uplink_fcnt_lem n.fcnt_up (rx_fcnt a.ul_payload_bin) bound fcnt ∙ if_true _ _ good.0 in
      let mic = mic_1v0 aes cmac stack dev_addr block_size a n counted i old.1 in
      let z =
        accept-Delivers a n (full_fcnt a n) counted i k (counted-IsServer t valid) h old.0 idle
          fits.0 waits new agrees in
      (
        store_lem false c n app s v fits.1 timely,
        take-patch s.downlink.frm_payload_bin 0 app.payload (length app.payload) (omega arith)
            (omega (arith, v.frm_room, fits.1)),
        record {
          handled = z.handled;
          before = z.before;
          returns = rw (go, count, mic, good.1) z.returns;
          verdict = z.verdict;
          reaches = z.reaches;
          body = z.body;
          fcnt = z.fcnt;
        },
      )
