-- ===== src/NetworkServer/Downlink/Frame.antt =====
-- The frame that `sNS_schedule_downlink` of network_server/sNS.c leaves in `PHYPayloadBin`, as one
-- list of bytes.
use lo_ra_wan_backend.Base.{ℕ, ◌+◌, ◌*◌, ◌/◌, ◌%◌, ◌^◌, ◌≤◌, ◌≡◌, refl, ap, sym, ◌∙◌, arith}
use lo_ra_wan_backend.Base.{Bool, not, ◌&&◌, if◌then◌else◌, ◌==◌, u8}
use lo_ra_wan_backend.Base.{
  List, [], ◌∷◌, ◌++◌, length, take, Option, some, length-append, take-length,
}
use lo_ra_wan_backend.Base.Buffer.{patch, length-patch, take-patch, write_within}
use lo_ra_wan_backend.Backend.Bytes.{write2_byte_value, write4_byte_value}
use lo_ra_wan_backend.NetworkServer.Integrity.{generate_data_frame_integrity_code}
use lo_ra_wan_backend.NetworkServer.Integrity.Checks.{generate_same_message}
use lo_ra_wan_backend.NetworkServer.Downlink.{
  MoteSession, Downlink, Server, set_header, set_ack, message_len, add_mic, counter, seal, mtype,
  acks_fcnt, down_block, rx_fcnt, mtype_conf_up, save_confirmed,
}

abbrev pub bytes4 : ℕ → List ℕ
bytes4 n = u8 n ∷ u8 (n / 2 ^ 8) ∷ u8 (n / 2 ^ 16) ∷ u8 (n / 2 ^ 24) ∷ []

-- The first eight bytes, and the rest.
abbrev pub headed : ℕ → ℕ → Bool → ℕ → ℕ → List ℕ → List ℕ
headed mhdr dev_addr ack fcnt opts_len rest =
    mhdr ∷ bytes4 dev_addr
    ++ (opts_len + (if ack then 2 ^ 5 else 0)) ∷ u8 fcnt ∷ u8 (fcnt / 2 ^ 8) ∷ rest

-- MHDR, DevAddr, FCtrl, FCnt, FOpts, and FPort with the FRMPayload.
abbrev pub message : ℕ → ℕ → Bool → ℕ → List ℕ → List ℕ → List ℕ
message mhdr dev_addr ack fcnt opts body =
    headed mhdr dev_addr ack fcnt (length opts) (opts ++ body)

-- The array as far as it is filled: `mhdr`, FOptsLen, FOpts and body; its length counts the body.
pub record Holds (d : Downlink) (mhdr : ℕ) (opts body : List ℕ) : Type 0 where
  pub a0 : ℕ
  pub a1 : ℕ
  pub a2 : ℕ
  pub a3 : ℕ
  pub f0 : ℕ
  pub f1 : ℕ
  pub tail : List ℕ
  pub bin : d.phy_payload_bin ≡ mhdr ∷ a0 ∷ a1 ∷ a2 ∷ a3 ∷ length opts ∷ f0 ∷ f1 ∷ tail
  pub front : take (length opts + length body) tail ≡ opts ++ body
  pub room : length tail ≡ 248
  pub len : d.phy_payload_len ≡ length body

-- What lies in the array once the frame is complete.
pub record Sealed (s : Server) (msg mic : List ℕ) (result : Option Server) : Type 0 where
  pub bin : List ℕ
  pub returns :
      result
      ≡ some (
          save_confirmed record s {
            downlink = record s.downlink {
              phy_payload_bin = bin;
              phy_payload_len = length msg + 4;
            };
          })
  pub content : take (length msg + 4) bin ≡ msg ++ mic
  pub size : length bin ≡ 256

patch_nothing : (b : List ℕ) → patch b 0 [] ≡ b
patch_nothing [] = refl
patch_nothing (x ∷ b) = refl

set_header_lem :
    (mhdr a0 a1 a2 a3 f0 f1 dev_addr fcnt n : ℕ) (ack : Bool) (tail : List ℕ)
    → n ≤ 15
    → set_header (mhdr ∷ a0 ∷ a1 ∷ a2 ∷ a3 ∷ n ∷ f0 ∷ f1 ∷ tail) dev_addr fcnt ack
      ≡ headed mhdr dev_addr ack fcnt n tail
unfolding set_header set_ack write2_byte_value write4_byte_value
set_header_lem mhdr a0 a1 a2 a3 f0 f1 dev_addr fcnt n ack tail h =
    let octet : n / 2 ^ 6 * 2 ^ 6 + (if ack then 2 ^ 5 else 0) + n % 2 ^ 5
        ≡ n + (if ack then 2 ^ 5 else 0) =
      ground arith in
    rw (patch_nothing tail, octet) refl

message_len_lem :
    (d : Downlink) (mhdr : ℕ) (opts body : List ℕ)
    → Holds d mhdr opts body
    → length opts ≤ 15
    → length opts + length body ≤ 243
    → message_len d ≡ 8 + length (opts ++ body)
unfolding message_len
message_len_lem d mhdr opts body h k fits = rw (h.bin, h.len, length-append opts body) (omega arith)

module _ (aes cmac : List ℕ → List ℕ → List ℕ) (stack : List ℕ) (dev_addr : ℕ) where
  -- The MIC of a message that goes down.
  abbrev pub down_mic : MoteSession → List ℕ → Server → ℕ → List ℕ → List ℕ
  down_mic n ul s fcnt_down msg = bytes4 (
      generate_data_frame_integrity_code cmac
        (down_block (if acks_fcnt n ul s then rx_fcnt ul else 0) dev_addr fcnt_down (length msg))
        n.s_nwk_s_int_key msg)

  add_mic_lem :
      (n : MoteSession) (ul : List ℕ) (fcnt_down : ℕ) (s : Server) (bin msg : List ℕ)
      → take (length msg) bin ≡ msg
      → length bin ≡ 256
      → length msg ≤ 251
      → Sealed
          record s { new_fcnt_up = s.new_fcnt_up && not (acks_fcnt n ul s) }
          msg
          (down_mic n ul s fcnt_down msg)
          (add_mic aes cmac stack dev_addr n ul fcnt_down s bin (length msg))
  unfolding add_mic write4_byte_value
  add_mic_lem n ul fcnt_down s bin msg e size small =
      let mic = down_mic n ul s fcnt_down msg in
      let same =
        generate_same_message cmac
          (down_block (if acks_fcnt n ul s then rx_fcnt ul else 0) dev_addr fcnt_down (length msg))
          n.s_nwk_s_int_key bin msg (e ∙ sym (take-length msg)) in
      let len : u8 (length msg + 4) ≡ length msg + 4 = omega arith in
      record {
        bin = patch bin (length msg) mic;
        returns = rw (same, write_within bin (length msg) mic (omega arith), len);
        content =
            take-patch bin (length msg) mic (length msg + 4) refl (omega arith)
            ∙ ap (λ m. m ++ mic) e;
        size = length-patch bin (length msg) mic ∙ size;
      }

  pub seal_lem :
      (n : MoteSession) (ul : List ℕ) (b : Bool) (s : Server) (mhdr : ℕ) (opts body : List ℕ)
      → Holds s.downlink mhdr opts body
      → length opts ≤ 15
      → length opts + length body ≤ 243
      → let fcnt = counter aes cmac stack dev_addr n b s in
        let msg = message mhdr dev_addr (mtype ul == mtype_conf_up) fcnt opts body in
        Sealed
          record s {
            incr_nfcnt_down = not b;
            new_fcnt_up = s.new_fcnt_up && not (acks_fcnt n ul s);
          }
          msg
          (down_mic n ul s fcnt msg)
          (seal aes cmac stack dev_addr n ul b s)
  unfolding seal
  seal_lem n ul b s mhdr opts body h k fits =
      let fcnt = counter aes cmac stack dev_addr n b s in
      let ack = mtype ul == mtype_conf_up in
      let msg = message mhdr dev_addr ack fcnt opts body in
      let bin = headed mhdr dev_addr ack fcnt (length opts) h.tail in
      let header : set_header s.downlink.phy_payload_bin dev_addr fcnt ack ≡ bin = rw h.bin (
        set_header_lem mhdr h.a0 h.a1 h.a2 h.a3 h.f0 h.f1 dev_addr fcnt (length opts) ack h.tail
          k) in
      let len : message_len s.downlink ≡ length msg =
        message_len_lem s.downlink mhdr opts body h k fits ∙ omega arith in
      let size = length-append opts body in
      rw (header, len)
        (add_mic_lem n ul fcnt (record s { incr_nfcnt_down = not b }) bin msg
          (ap (λ r. headed mhdr dev_addr ack fcnt (length opts) r)
            (ap (λ (m : ℕ). take m h.tail) size ∙ h.front))
          (omega (arith, h.room)) (omega (arith, size)))
