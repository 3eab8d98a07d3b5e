-- ===== src/NetworkServer/Downlink/Sending.antt =====
-- The frame that `sNS_schedule_downlink` of network_server/sNS.c makes of the commands that wait and
-- of the payload of the application.
use lo_ra_wan_backend.Base.{ℕ, ◌+◌, ◌≤◌, ◌≡◌, refl, ap, sym, ◌∙◌, arith}
use lo_ra_wan_backend.Base.{Bool, true, false, not, ◌&&◌, ◌||◌, if◌then◌else◌, ◌==◌}
use lo_ra_wan_backend.Base.{List, [], ◌∷◌, ◌++◌, length, get_or, set, take, Option, some, take-take}
use mathlib.Core.Path.{subst}
use mathlib.Core.List.{append-nil}
use lo_ra_wan_backend.NetworkServer.MacQueue.{take_queued_mac_cmds}
use lo_ra_wan_backend.Base.Buffer.{patch, write, length-patch, take-patch, write_within}
use lo_ra_wan_backend.NetworkServer.MacQueue.Pending.{pending, sending}
use lo_ra_wan_backend.NetworkServer.MacQueue.Refine.{IsReady}
use lo_ra_wan_backend.NetworkServer.MacQueue.Deliver.{
  length-sending, Delivers, take_queued_mac_cmds_lem,
}
use lo_ra_wan_backend.NetworkServer.Downlink.{
  MoteSession, Server, get_queued_mac_cmds, has_payload, with_bin, seal, send, counter, mtype,
  mtype_conf_up, acks_fcnt, save_confirmed,
}
use lo_ra_wan_backend.NetworkServer.Downlink.Frame.{Holds, Sealed, message, down_mic, seal_lem}
use lo_ra_wan_backend.NetworkServer.Downlink.Parts.{
  IsOpts, fopts_lem, fopts_stream, mhdr_after, body_of, length-body_of, sent_fcnt, reply, filled,
  add_payload_lem,
}

-- A list of at least eight bytes.
record Eight (l : List ℕ) : Type 0 where
  x0 : ℕ
  x1 : ℕ
  x2 : ℕ
  x3 : ℕ
  x4 : ℕ
  x5 : ℕ
  x6 : ℕ
  x7 : ℕ
  rest : List ℕ
  all : l ≡ x0 ∷ x1 ∷ x2 ∷ x3 ∷ x4 ∷ x5 ∷ x6 ∷ x7 ∷ rest

first-Eight : (l : List ℕ) → 8 ≤ length l → Eight l
first-Eight (x0 ∷ x1 ∷ x2 ∷ x3 ∷ x4 ∷ x5 ∷ x6 ∷ x7 ∷ rest) h = record {
  x0 = x0;
  x1 = x1;
  x2 = x2;
  x3 = x3;
  x4 = x4;
  x5 = x5;
  x6 = x6;
  x7 = x7;
  rest = rest;
  all = refl;
}
first-Eight _ h = absurd (omega arith)

module _ (aes cmac : List ℕ → List ℕ → List ℕ) (stack : List ℕ) (dev_addr : ℕ)
    (block_size : (key block : List ℕ) → length (aes key block) ≡ 16) where
  -- The commands are taken, and their FOpts are in the array.
  record Took (n : MoteSession) (s : Server) (result : Option Server) : Type 0 where
    bin : List ℕ
    delivers : Delivers (pending s.queue) (take_queued_mac_cmds s.queue)
    returns : result ≡ some (with_bin (record s { queue = delivers.taken.queue }) bin)
    opts : List ℕ
    is_opts :
        IsOpts
          (fopts_stream aes cmac stack dev_addr block_size n)
          n.opt_neg
          (sending 0 (pending s.queue)).bytes
          opts
    holds : Holds (with_bin s bin).downlink (get_or s.downlink.phy_payload_bin 0 0) opts []

  get_queued_mac_cmds_lem :
      (n : MoteSession) (s : Server)
      → IsReady s.queue
      → length s.downlink.phy_payload_bin ≡ 256
      → s.downlink.phy_payload_len ≡ 0
      → 15 ≤ length stack
      → Took n s (get_queued_mac_cmds aes cmac stack dev_addr n s)
  unfolding get_queued_mac_cmds
  get_queued_mac_cmds_lem n s r size len k =
      let t = take_queued_mac_cmds_lem s.queue r in
      let o = fopts_lem aes cmac stack dev_addr block_size n t.taken.buf t.fits k in
      let e = first-Eight s.downlink.phy_payload_bin (omega arith) in
      let l = length t.taken.buf in
      let over = patch e.rest 0 o.out in
      let opts = take l o.out in
      let room : length e.rest ≡ 248 = omega (arith, ap length e.all, size) in
      let within : write (set s.downlink.phy_payload_bin 5 l) 8 o.out
          ≡ some (e.x0 ∷ e.x1 ∷ e.x2 ∷ e.x3 ∷ e.x4 ∷ l ∷ e.x6 ∷ e.x7 ∷ over) =
        rw e.all (
          write_within (e.x0 ∷ e.x1 ∷ e.x2 ∷ e.x3 ∷ e.x4 ∷ l ∷ e.x6 ∷ e.x7 ∷ e.rest) 8 o.out
            (omega (arith, o.size, t.fits))) in
      record {
        bin = e.x0 ∷ e.x1 ∷ e.x2 ∷ e.x3 ∷ e.x4 ∷ l ∷ e.x6 ∷ e.x7 ∷ over;
        delivers = t;
        returns = rw (t.returns, o.returns, within) refl;
        opts = take l o.out;
        is_opts =
            subst
              (λ c.
                IsOpts (fopts_stream aes cmac stack dev_addr block_size n) n.opt_neg c
                  (take l o.out))
              t.sent o.is_opts;
        holds = record {
          a0 = e.x1;
          a1 = e.x2;
          a2 = e.x3;
          a3 = e.x4;
          f0 = e.x6;
          f1 = e.x7;
          tail = over;
          bin = rw (e.all, o.is_opts.size) refl;
          front =
              ap (λ (m : ℕ). take m over) {x = length opts + 0} {y = l}
                (omega (arith, o.is_opts.size))
              ∙ sym (take-take l (length o.out) over o.enough)
              ∙ ap (take l) (
                  take-patch e.rest 0 o.out (length o.out) (omega arith)
                    (omega (arith, o.size, t.fits)))
              ∙ sym (append-nil opts);
          room = length-patch e.rest 0 o.out ∙ room;
          len = len;
        };
      }

  -- What is sent: the commands of the queue as FOpts, the payload, and the MIC of it all.
  pub record Sends (n : MoteSession) (ul : List ℕ) (s : Server) (result : Option Server)
      : Type 0 where
    pub delivers : Delivers (pending s.queue) (take_queued_mac_cmds s.queue)
    pub opts : List ℕ
    pub is_opts :
        IsOpts
          (fopts_stream aes cmac stack dev_addr block_size n)
          n.opt_neg
          (sending 0 (pending s.queue)).bytes
          opts
    pub bin : List ℕ
    pub returns :
        result
        ≡ some (
            save_confirmed record (filled n s) {
              queue = delivers.taken.queue;
              incr_nfcnt_down = not (has_payload s && n.opt_neg);
              new_fcnt_up = s.new_fcnt_up && not (acks_fcnt n ul s);
              downlink = record (filled n s).downlink {
                phy_payload_bin = bin;
                phy_payload_len = length (reply dev_addr n ul s opts) + 4;
              };
            })
    pub content :
        take (length (reply dev_addr n ul s opts) + 4) bin
        ≡ reply dev_addr n ul s opts
          ++ down_mic aes cmac stack dev_addr n ul s (sent_fcnt n s) (reply dev_addr n ul s opts)
    pub size : length bin ≡ 256

  -- The counter of the application is used exactly when its payload is sent in LoRaWAN 1.1.
  one_counter :
      (has opt_neg agrees : Bool) (md old nf : ℕ)
      → (if has && opt_neg then if (has && (opt_neg || agrees)) && opt_neg then md else old else nf)
        ≡ (if has && opt_neg then md else nf)
  one_counter true true agrees md old nf = refl
  one_counter true false agrees md old nf = refl
  one_counter false opt_neg agrees md old nf = refl

  pub send_lem :
      (n : MoteSession) (ul : List ℕ) (s : Server)
      → IsReady s.queue
      → length s.downlink.phy_payload_bin ≡ 256
      → s.downlink.phy_payload_len ≡ 0
      → s.downlink.frm_payload_len ≤ 227
      → s.downlink.frm_payload_len ≤ length s.downlink.frm_payload_bin
      → 15 ≤ length stack
      → Sends n ul s (send aes cmac stack dev_addr n ul s)
  unfolding send
  send_lem n ul s r size len small frm k =
      let t = get_queued_mac_cmds_lem n s r size len k in
      let mhdr = get_or s.downlink.phy_payload_bin 0 0 in
      let opts_len : length t.opts ≤ 15 =
        omega (arith, t.is_opts.size, length-sending 0 (pending s.queue) (omega arith)) in
      let s1 = with_bin (record s { queue = t.delivers.taken.queue }) t.bin in
      let a = add_payload_lem n s1 mhdr t.opts t.holds opts_len small frm in
      let s2 = with_bin (filled n s1) a.bin in
      let b = has_payload s && n.opt_neg in
      let same : counter aes cmac stack dev_addr n b s2 ≡ sent_fcnt n s =
        one_counter (has_payload s) n.opt_neg (s.downlink.md_fcnt_down == n.nfcnt_down)
          s.downlink.md_fcnt_down s.afcnt_down n.nfcnt_down in
      let z =
        subst
          (λ f.
            let msg =
              message (mhdr_after n s mhdr) dev_addr (mtype ul == mtype_conf_up) f t.opts
                (body_of n s) in
            Sealed
              record s2 {
                incr_nfcnt_down = not b;
                new_fcnt_up = s.new_fcnt_up && not (acks_fcnt n ul s);
              }
              msg (down_mic aes cmac stack dev_addr n ul s2 f msg)
              (seal aes cmac stack dev_addr n ul b s2))
          same
          (seal_lem aes cmac stack dev_addr n ul b s2 (mhdr_after n s mhdr) t.opts (body_of n s)
            a.holds opts_len (omega (arith, length-body_of n s))) in
      record {
        delivers = t.delivers;
        opts = t.opts;
        is_opts = t.is_opts;
        bin = z.bin;
        returns = rw (t.returns, a.returns) z.returns;
        content = z.content;
        size = z.size;
      }
