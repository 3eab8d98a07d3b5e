-- ===== src/NetworkServer/Downlink/Parts.antt =====
-- What the first two steps of a downlink put into the array: the MAC commands, and the payload of
-- the application.
use lo_ra_wan_backend.Base.{
  ℕ, suc, ◌+◌, ◌-◌, ◌*◌, ◌%◌, ◌^◌, ◌<◌, ◌≤◌, ◌≡◌, refl, ap, sym, ◌∙◌, arith,
}
use lo_ra_wan_backend.Base.{
  Bool, true, false, ◌&&◌, if◌then◌else◌, ◌==◌, u8, bit_xor, Bool-cases, if_either, inl, inr,
}
use lo_ra_wan_backend.Base.{
  List, [], ◌∷◌, ◌++◌, length, get_or, take, Option, some, length-append, take-length, length-take,
  get_or-take, get_or-append_left, replicate, length-replicate,
}
use mathlib.Core.List.{append-nil}
use mathlib.Core.Bool.{true≢false}
use lo_ra_wan_backend.Base.Buffer.{patch, length-patch, take-patch, write_within}
use lo_ra_wan_backend.Backend.Cipher.Stream.{lora_encrypt_overrun, key_stream}
use lo_ra_wan_backend.NetworkServer.Downlink.{
  MoteSession, Downlink, Server, set_mtype, fopts, fopts_len, has_payload, fcnt_agrees, add_payload,
  mtype_conf_dn, mtype_unconf_dn, with_bin, mtype, mtype_conf_up,
}
use lo_ra_wan_backend.NetworkServer.Downlink.Frame.{Holds, message}

-- The first byte with another type.
abbrev pub typed : ℕ → ℕ → ℕ
typed t mhdr = t * 2 ^ 5 + mhdr % 2 ^ 5

-- What add_payload makes of the type and of the payload.
abbrev pub mhdr_after : MoteSession → Server → ℕ → ℕ
mhdr_after n s mhdr =
    if has_payload s
    then if fcnt_agrees n s
      then typed (if s.downlink.md_confirmed then mtype_conf_dn else mtype_unconf_dn) mhdr
      else mhdr
    else typed mtype_unconf_dn mhdr

abbrev pub body_of : MoteSession → Server → List ℕ
body_of n s =
    let d = s.downlink in
    if has_payload s && fcnt_agrees n s
    then d.md_fport ∷ take d.frm_payload_len d.frm_payload_bin
    else []

pub length-body_of :
    (n : MoteSession) (s : Server) → length (body_of n s) ≤ s.downlink.frm_payload_len + 1
length-body_of n s =
    if_either (λ b. length b ≤ s.downlink.frm_payload_len + 1) (has_payload s && fcnt_agrees n s)
      (omega (arith, length-take s.downlink.frm_payload_len s.downlink.frm_payload_bin))
      (omega arith)

abbrev pub sent_fcnt : MoteSession → Server → ℕ
sent_fcnt n s = if has_payload s && n.opt_neg then s.downlink.md_fcnt_down else n.nfcnt_down

-- The message of the downlink, with the FOpts `opts`.
abbrev pub reply : ℕ → MoteSession → List ℕ → Server → List ℕ → List ℕ
reply dev_addr n ul s opts =
    message (mhdr_after n s (get_or s.downlink.phy_payload_bin 0 0)) dev_addr
      (mtype ul == mtype_conf_up) (sent_fcnt n s) opts (body_of n s)

-- The server after add_payload, but for the array.
abbrev pub filled : MoteSession → Server → Server
filled n s =
    let sent = has_payload s && fcnt_agrees n s in
    record s {
      afcnt_down = if sent && n.opt_neg then s.downlink.md_fcnt_down else s.afcnt_down;
      downlink = record s.downlink {
        frm_sent = sent;
        phy_payload_len =
            if sent then u8 (s.downlink.frm_payload_len + 1) else s.downlink.phy_payload_len;
      };
    }

pub record Added (n : MoteSession) (s : Server) (mhdr : ℕ) (opts : List ℕ) (result : Option Server)
    : Type 0 where
  pub bin : List ℕ
  pub returns : result ≡ some (with_bin (filled n s) bin)
  pub holds : Holds (with_bin (filled n s) bin).downlink (mhdr_after n s mhdr) opts (body_of n s)

bare :
    {d : Downlink} {mhdr : ℕ} {opts : List ℕ} (h : Holds d mhdr opts [])
    → take (length opts) h.tail ≡ opts
bare {d} {mhdr} {opts} h =
    ap (λ (m : ℕ). take m h.tail) {x = length opts} {y = length opts + 0} (omega arith)
    ∙ h.front
    ∙ append-nil opts

copied :
    (d e : Downlink) (mhdr : ℕ) (opts body : List ℕ)
    → Holds d mhdr opts body
    → e.phy_payload_bin ≡ d.phy_payload_bin
    → e.phy_payload_len ≡ d.phy_payload_len
    → Holds e mhdr opts body
copied d e mhdr opts body h bin len = record {
  a0 = h.a0;
  a1 = h.a1;
  a2 = h.a2;
  a3 = h.a3;
  f0 = h.f0;
  f1 = h.f1;
  tail = h.tail;
  bin = bin ∙ h.bin;
  front = h.front;
  room = h.room;
  len = len ∙ h.len;
}

-- The same array with another type, and with a payload behind the FOpts.
retyped :
    (d e : Downlink) (t mhdr : ℕ) (opts body : List ℕ)
    → Holds d mhdr opts body
    → e.phy_payload_bin ≡ set_mtype d.phy_payload_bin t
    → e.phy_payload_len ≡ d.phy_payload_len
    → Holds e (typed t mhdr) opts body
unfolding set_mtype
retyped d e t mhdr opts body h bin len = record {
  a0 = h.a0;
  a1 = h.a1;
  a2 = h.a2;
  a3 = h.a3;
  f0 = h.f0;
  f1 = h.f1;
  tail = h.tail;
  bin = bin ∙ rw h.bin refl;
  front = h.front;
  room = h.room;
  len = len ∙ h.len;
}

patch_behind :
    (x0 x1 x2 x3 x4 x5 x6 x7 n : ℕ) (tail w : List ℕ)
    → patch (x0 ∷ x1 ∷ x2 ∷ x3 ∷ x4 ∷ x5 ∷ x6 ∷ x7 ∷ tail) (8 + n) w
      ≡ x0 ∷ x1 ∷ x2 ∷ x3 ∷ x4 ∷ x5 ∷ x6 ∷ x7 ∷ patch tail n w
patch_behind x0 x1 x2 x3 x4 x5 x6 x7 n tail w =
    ap (λ (i : ℕ). patch (x0 ∷ x1 ∷ x2 ∷ x3 ∷ x4 ∷ x5 ∷ x6 ∷ x7 ∷ tail) i w) {x = 8 + n}
      {y = suc (suc (suc (suc (suc (suc (suc (suc n)))))))} (omega arith)

appended :
    (d e : Downlink) (mhdr : ℕ) (opts body : List ℕ)
    → Holds d mhdr opts []
    → length opts + length body ≤ 243
    → e.phy_payload_bin ≡ patch d.phy_payload_bin (8 + length opts) body
    → e.phy_payload_len ≡ length body
    → Holds e mhdr opts body
appended d e mhdr opts body h fits bin len = record {
  a0 = h.a0;
  a1 = h.a1;
  a2 = h.a2;
  a3 = h.a3;
  f0 = h.f0;
  f1 = h.f1;
  tail = patch h.tail (length opts) body;
  bin =
      bin
      ∙ rw h.bin
          (patch_behind mhdr h.a0 h.a1 h.a2 h.a3 (length opts) h.f0 h.f1 (length opts) h.tail body);
  front =
      take-patch h.tail (length opts) body (length opts + length body) refl (omega (arith, h.room))
      ∙ ap (λ o. o ++ body) (bare h);
  room = length-patch h.tail (length opts) body ∙ h.room;
  len = len;
}

pub add_payload_lem :
    (n : MoteSession) (s : Server) (mhdr : ℕ) (opts : List ℕ)
    → Holds s.downlink mhdr opts []
    → length opts ≤ 15
    → s.downlink.frm_payload_len ≤ 227
    → s.downlink.frm_payload_len ≤ length s.downlink.frm_payload_bin
    → Added n s mhdr opts (add_payload n s)
unfolding add_payload set_mtype
add_payload_lem n s mhdr opts h k small frm = elim (Bool-cases (has_payload s)) [
  | inl has ↦ (elim (Bool-cases (fcnt_agrees n s)) [
    | inl agrees ↦
        rw (has, agrees)
          (let d = s.downlink in
            let payload = d.md_fport ∷ take d.frm_payload_len d.frm_payload_bin in
            let size : length payload ≡ d.frm_payload_len + 1 =
              omega (arith, length-take d.frm_payload_len d.frm_payload_bin) in
            let t = if d.md_confirmed then mtype_conf_dn else mtype_unconf_dn in
            let over = patch d.phy_payload_bin (8 + length opts) payload in
            let opts_len : fopts_len d.phy_payload_bin ≡ length opts = rw h.bin (omega arith) in
            let within : length d.phy_payload_bin ≡ 256 = rw h.bin (omega (arith, h.room)) in
            record {
              bin = set_mtype over t;
              returns =
                  rw
                    (
                      has,
                      agrees,
                      opts_len,
                      write_within d.phy_payload_bin (8 + length opts) payload (omega arith),
                    )
                    refl;
              holds =
                  rw (has, agrees)
                    (retyped
                      (record d {
                        phy_payload_bin = over;
                        phy_payload_len = u8 (d.frm_payload_len + 1);
                      })
                      _ t mhdr opts payload
                      (appended d _ mhdr opts payload h (omega arith) refl (omega arith)) refl
                      refl);
            })
    | inr differs ↦
        rw (has, differs)
          record {
            bin = s.downlink.phy_payload_bin;
            returns = rw (has, differs) refl;
            holds = rw (has, differs) (copied s.downlink _ mhdr opts [] h refl refl);
          }
  ])
  | inr hasnt ↦ rw hasnt record {
    bin = set_mtype s.downlink.phy_payload_bin mtype_unconf_dn;
    returns = rw hasnt refl;
    holds = rw hasnt (retyped s.downlink _ mtype_unconf_dn mhdr opts [] h refl refl);
  }
]

-- The FOpts are the commands as they are, or in LoRaWAN 1.1 combined with the key stream.
pub record IsOpts (stream : ℕ → ℕ) (encrypted : Bool) (cmds opts : List ℕ) : Type 0 where
  pub size : length opts ≡ length cmds
  pub plain : encrypted ≡ false → opts ≡ cmds
  pub secret :
      encrypted ≡ true
      → (j : ℕ) → j < length cmds
      → get_or opts j 0 ≡ bit_xor (stream j) (get_or cmds j 0)

-- What is written at the FOpts: they, and up to 16 bytes behind them.
pub record Written (stream : ℕ → ℕ) (encrypted : Bool) (cmds : List ℕ) (result : Option (List ℕ))
    : Type 0 where
  pub out : List ℕ
  pub returns : result ≡ some out
  pub size : length out ≤ length cmds + 16
  pub enough : length cmds ≤ length out
  pub is_opts : IsOpts stream encrypted cmds (take (length cmds) out)

module _ (aes cmac : List ℕ → List ℕ → List ℕ) (stack : List ℕ) (dev_addr : ℕ)
    (block_size : (key block : List ℕ) → length (aes key block) ≡ 16) where
  -- The key stream of the FOpts.
  abbrev pub fopts_stream : MoteSession → ℕ → ℕ
  fopts_stream n = key_stream aes block_size n.nwk_s_enc_key dev_addr false n.nfcnt_down 0

  pub fopts_lem :
      (n : MoteSession) (cmds : List ℕ)
      → length cmds ≤ 15
      → 15 ≤ length stack
      → Written (fopts_stream n) n.opt_neg cmds (fopts aes cmac stack dev_addr n cmds)
  unfolding fopts
  fopts_lem n [] h k = record {
    out = [];
    returns = refl;
    size = omega arith;
    enough = omega arith;
    is_opts = record { size = refl; plain = λ e. refl; secret = λ e j p. absurd (omega arith) };
  }
  fopts_lem n (c ∷ cs) h k = elim (Bool-cases n.opt_neg) [
    | inl neg ↦
        (let cmds = c ∷ cs in
          let padded = cmds ++ replicate (16 - length cmds) 0 in
          let buf = padded ++ stack in
          let size : length buf ≡ 16 + length stack = omega (
            arith,
            length-append padded stack,
            length-append {A = ℕ} cmds (replicate (16 - length cmds) 0),
            length-replicate {A = ℕ} (16 - length cmds) 0,
          ) in
          let r =
            lora_encrypt_overrun aes block_size n.nwk_s_enc_key dev_addr false n.nfcnt_down buf
              (length cmds) (omega arith) (omega arith) (omega (arith, size)) in
          record {
            out = r.out;
            returns = rw neg r.returns;
            size = omega (arith, r.size);
            enough = omega (arith, r.size);
            is_opts = record {
              size = omega (arith, length-take (length cmds) r.out, r.size);
              plain = λ e. absurd (true≢false (sym neg ∙ e));
              secret = λ e j p.
                  get_or-take (length cmds) r.out j 0 p
                  ∙ r.bytes j (omega arith)
                  ∙ ap (bit_xor (fopts_stream n j)) (
                      get_or-append_left padded stack j 0
                        (omega (arith, length-append {A = ℕ} cmds (replicate (16 - length cmds) 0)))
                      ∙ get_or-append_left cmds (replicate (16 - length cmds) 0) j 0 p);
            };
          })
    | inr plain ↦ record {
      out = c ∷ cs;
      returns = rw plain refl;
      size = omega arith;
      enough = omega arith;
      is_opts = record {
        size = ap length (take-length (c ∷ cs));
        plain = λ e. take-length (c ∷ cs);
        secret = λ e j p. absurd (true≢false (sym e ∙ plain));
      };
    }
  ]
