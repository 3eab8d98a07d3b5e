-- ===== src/NetworkServer/Downlink/EndDevice.antt =====
-- The downlink of network_server/sNS.c as the end device reads it.
use lo_ra_wan_backend.Base.{
  ℕ, suc, ◌+◌, ◌-◌, ◌*◌, ◌/◌, ◌%◌, ◌^◌, ◌<◌, ◌≤◌, ◌≡◌, refl, ap, ap₂, sym, ◌∙◌, arith,
}
use lo_ra_wan_backend.Base.{
  Bool, true, false, if◌then◌else◌, ◌==◌, u8, bit_xor, inl, inr, if_either,
}
use lo_ra_wan_backend.Base.{
  List, [], ◌∷◌, ◌++◌, length, get_or, take, drop, Option, some, length-append, All, length-take,
  take-append_length, drop-append_length,
}
use mathlib.Core.List.{append_assoc}
use mathlib.Core.Bool.{true≢false}
use lo_ra_wan_backend.Backend.Cipher.Stream.{xor_twice}
use lo_ra_wan_backend.NetworkServer.Integrity.{Block, octets, word4}
use lo_ra_wan_backend.NetworkServer.Integrity.Checks.{generate-bytes}
use lo_ra_wan_backend.NetworkServer.MacQueue.Deliver.{length-sending}
use lo_ra_wan_backend.NetworkServer.MacQueue.Pending.{pending, sending}
use lo_ra_wan_backend.NetworkServer.Downlink.{
  MoteSession, Server, schedule_downlink, save_confirmed, down_block, acks_fcnt, rx_fcnt, mtype,
  mtype_conf_up, mtype_unconf_dn, mtype_conf_dn,
}
use lo_ra_wan_backend.NetworkServer.Downlink.Frame.{message}
use lo_ra_wan_backend.NetworkServer.Downlink.Parts.{
  IsOpts, fopts_stream, body_of, mhdr_after, sent_fcnt, reply,
}
use lo_ra_wan_backend.NetworkServer.Downlink.Sending.{Sends}
use lo_ra_wan_backend.NetworkServer.Downlink.Schedule.{IsServer, rests, schedule_downlink_lem}

-- What the end device gets: `body` is FPort and FRMPayload, or nothing.
pub record Received : Type 0 where
  pub dev_addr : ℕ
  pub ack : Bool
  pub fcnt : ℕ
  pub commands : List ℕ
  pub body : List ℕ
  pub mic : List ℕ

abbrev pub decrypt : (ℕ → ℕ) → List ℕ → List ℕ
decrypt stream [] = []
decrypt stream (x ∷ l) = bit_xor (stream 0) x ∷ decrypt (λ j. stream (suc j)) l

abbrev pub receive : Bool → (ℕ → ℕ) → List ℕ → Received
receive opt_neg stream frame =
    let n = get_or frame 5 0 % 2 ^ 4 in
    let opts = take n (drop 8 frame) in
    let behind = drop n (drop 8 frame) in
    record {
      dev_addr = word4 (drop 1 frame);
      ack = get_or frame 5 0 / 2 ^ 5 % 2 == 1;
      fcnt = get_or frame 6 0 + get_or frame 7 0 * 2 ^ 8;
      commands = if opt_neg then decrypt stream opts else opts;
      body = take (length behind - 4) behind;
      mic = drop (length behind - 4) behind;
    }

decrypt_lem :
    (stream : ℕ → ℕ) (cmds opts : List ℕ)
    → length opts ≡ length cmds
    → ((j : ℕ) → j < length cmds → get_or opts j 0 ≡ bit_xor (stream j) (get_or cmds j 0))
    → decrypt stream opts ≡ cmds
decrypt_lem stream [] [] e h = refl
decrypt_lem stream [] (x ∷ opts) e h = absurd (omega arith)
decrypt_lem stream (c ∷ cmds) [] e h = absurd (omega arith)
decrypt_lem stream (c ∷ cmds) (x ∷ opts) e h =
    ap₂ (λ a l. a ∷ l) (ap (bit_xor (stream 0)) (h 0 (omega arith)) ∙ xor_twice (stream 0) c)
      (decrypt_lem (λ j. stream (suc j)) cmds opts (omega arith) (λ j p. h (suc j) (omega arith)))

IsOpts-decrypt :
    (stream : ℕ → ℕ) (opt_neg : Bool) (cmds opts : List ℕ)
    → IsOpts stream opt_neg cmds opts
    → (if opt_neg then decrypt stream opts else opts) ≡ cmds
IsOpts-decrypt stream true cmds opts o = decrypt_lem stream cmds opts o.size (o.secret refl)
IsOpts-decrypt stream false cmds opts o = o.plain refl

receive-message :
    (opt_neg : Bool) (stream : ℕ → ℕ) (mhdr dev_addr fcnt : ℕ) (ack : Bool)
    (cmds opts body mic : List ℕ)
    → dev_addr < 2 ^ 32
    → length opts ≤ 15
    → length mic ≡ 4
    → IsOpts stream opt_neg cmds opts
    → receive opt_neg stream (message mhdr dev_addr ack fcnt opts body ++ mic) ≡ record {
      dev_addr = dev_addr;
      ack = ack;
      fcnt = fcnt % 2 ^ 16;
      commands = cmds;
      body = body;
      mic = mic;
    }
receive-message opt_neg stream mhdr dev_addr fcnt ack cmds opts body mic h k four o =
    let len : (length opts + (if ack then 2 ^ 5 else 0)) % 2 ^ 4 ≡ length opts = ground arith in
    let bit : ((length opts + (if ack then 2 ^ 5 else 0)) / 2 ^ 5 % 2 == 1) ≡ ack = ground arith in
    let address : word4 (
          u8 dev_addr
          ∷ u8 (dev_addr / 2 ^ 8)
          ∷ u8 (dev_addr / 2 ^ 16)
          ∷ u8 (dev_addr / 2 ^ 24)
          ∷ [])
        ≡ dev_addr =
      omega arith in
    let count : u8 fcnt + u8 (fcnt / 2 ^ 8) * 2 ^ 8 ≡ fcnt % 2 ^ 16 = omega arith in
    let front : take (length opts) ((opts ++ body) ++ mic) ≡ opts =
      ap (take (length opts)) (append_assoc opts body mic)
      ∙ take-append_length opts (body ++ mic) (length opts) refl in
    let behind : drop (length opts) ((opts ++ body) ++ mic) ≡ body ++ mic =
      ap (drop (length opts)) (append_assoc opts body mic)
      ∙ drop-append_length opts (body ++ mic) (length opts) refl in
    let cut : length (body ++ mic) - 4 ≡ length body = omega (arith, length-append body mic) in
    let text = take-append_length body mic (length body) refl in
    let code = drop-append_length body mic (length body) refl in
    rw
      (
        len,
        bit,
        address,
        count,
        front,
        behind,
        cut,
        text,
        code,
        IsOpts-decrypt stream opt_neg cmds opts o,
      )
      refl

save_confirmed-downlink : (s : Server) → (save_confirmed s).downlink ≡ s.downlink
unfolding save_confirmed
save_confirmed-downlink s =
    let t = mtype s.downlink.phy_payload_bin in
    if_either (λ (r : Server). r.downlink ≡ s.downlink) (t == mtype_unconf_dn) refl
      (if_either (λ (r : Server). r.downlink ≡ s.downlink) (t == mtype_conf_dn) refl refl)

module _ (aes cmac : List ℕ → List ℕ → List ℕ) (stack : List ℕ) (dev_addr : ℕ)
    (block_size : (key block : List ℕ) → length (aes key block) ≡ 16)
    (tag_size : (key msg : List ℕ) → length (cmac key msg) ≡ 16)
    (tag_bytes : (key msg : List ℕ) → All (λ b. b < 256) (cmac key msg)) where
  -- The block in front of the message under the MIC.
  abbrev pub mic_block : MoteSession → List ℕ → Server → List ℕ → Block
  mic_block n ul s msg =
      down_block (if acks_fcnt n ul s then rx_fcnt ul else 0) dev_addr (sent_fcnt n s) (length msg)

  -- The frame left in the array, as its message and MIC, and as the end device reads it.
  pub record Reaches (n : MoteSession) (ul : List ℕ) (s : Server) (result : Option Server)
      : Type 0 where
    pub server : Server
    pub msg : List ℕ
    pub returns : result ≡ some server
    pub len : server.downlink.phy_payload_len ≡ length msg + 4
    pub frame :
        take server.downlink.phy_payload_len server.downlink.phy_payload_bin
        ≡ msg ++ take 4 (cmac n.s_nwk_s_int_key (octets (mic_block n ul s msg) ++ msg))
    pub received :
        receive n.opt_neg
          (fopts_stream aes cmac stack dev_addr block_size n)
          (take server.downlink.phy_payload_len server.downlink.phy_payload_bin)
        ≡ record {
          dev_addr = dev_addr;
          ack = mtype ul == mtype_conf_up;
          fcnt = sent_fcnt n s % 2 ^ 16;
          commands = (sending 0 (pending s.queue)).bytes;
          body = body_of n s;
          mic = take 4 (cmac n.s_nwk_s_int_key (octets (mic_block n ul s msg) ++ msg));
        }

  Sends-Reaches :
      (n : MoteSession) (ul : List ℕ) (s : Server) (result : Option Server)
      → dev_addr < 2 ^ 32
      → Sends aes cmac stack dev_addr block_size n ul s result
      → Reaches n ul s result
  Sends-Reaches n ul s result h t =
      let msg = reply dev_addr n ul s t.opts in
      let key = n.s_nwk_s_int_key in
      let tag = cmac key (octets (mic_block n ul s msg) ++ msg) in
      let mic = generate-bytes cmac (mic_block n ul s msg) key msg tag_size tag_bytes refl in
      let opts_len = length-sending 0 (pending s.queue) (omega arith) in
      let content = t.content ∙ ap (λ m. msg ++ m) mic in
      record {
        server = _;
        msg = msg;
        returns = t.returns;
        len = rw (save_confirmed-downlink _) refl;
        frame = rw (save_confirmed-downlink _) content;
        received =
            rw (save_confirmed-downlink _, content)
              (receive-message n.opt_neg (fopts_stream aes cmac stack dev_addr block_size n)
                (mhdr_after n s (get_or s.downlink.phy_payload_bin 0 0)) dev_addr (sent_fcnt n s)
                (mtype ul == mtype_conf_up) (sending 0 (pending s.queue)).bytes t.opts (body_of n s)
                (take 4 tag) h (omega (arith, t.is_opts.size, opts_len))
                (omega
                  (arith, length-take 4 tag, tag_size key (octets (mic_block n ul s msg) ++ msg)))
                t.is_opts);
      }

  -- When one of the five conditions holds, the end device reads from the frame its address, the
  -- acknowledgement, the counter, the commands that waited and fit into 15 bytes, and FPort with
  -- the payload that the application gave; the MIC is the CMAC of the block and of the message.
  pub schedule_downlink-Reaches :
      (n : MoteSession) (ul : List ℕ) (s : Server)
      → IsServer s
      → dev_addr < 2 ^ 32
      → 15 ≤ length stack
      → s.downlink.phy_payload_len ≡ 0
      → rests ul s ≡ false
      → Reaches n ul s (schedule_downlink aes cmac stack dev_addr n ul s)
  schedule_downlink-Reaches n ul s v h k idle wants =
      elim (schedule_downlink_lem aes cmac stack dev_addr block_size n ul s v k idle) [
        | inl rest ↦ absurd (true≢false (sym rest.0 ∙ wants))
        | inr sent ↦ Sends-Reaches n ul s _ h sent.1
      ]
