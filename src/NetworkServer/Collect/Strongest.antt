-- ===== src/NetworkServer/Collect/Strongest.antt =====
-- Which uplink is kept when several gateways and network servers have heard it.
use lo_ra_wan_backend.Base.{
  ℕ, ◌+◌, ◌<◌, ◌≤◌, ◌≡◌, refl, sym, ap₂, ◌∙◌, arith, Bool, true, false, ltb, leb, u8, Bool-cases,
  ◌⊎◌, inl, inr,
}
use lo_ra_wan_backend.Base.{List, length, take, Option, none, some, length-take}
use mathlib.Core.Path.{subst}
use lo_ra_wan_backend.Base.Buffer.{length-patch, take-patch, write_within}
use lo_ra_wan_backend.NetworkServer.Adr.{max_datarates}
use lo_ra_wan_backend.NetworkServer.Token.{token_text}
use lo_ra_wan_backend.NetworkServer.TxPacket.{Gateway}
use lo_ra_wan_backend.NetworkServer.Transmit.{DataRate}
use lo_ra_wan_backend.NetworkServer.Collect.{
  is_off, Text, Mote, Packet, get_dr, token_of, save_token, take_local, add_gateway, uplink_direct,
}

-- What is heard of an uplink.
pub record Heard : Type 0 where
  pub signal : ℕ
  pub snr : ℕ
  pub frame : List ℕ
  pub token : List ℕ

abbrev pub token_length : ℕ
token_length = 42

-- The memory for the token has room for one of our own.
abbrev pub Roomy : Option Text → Type 0
Roomy none = Unit
Roomy (some t) = token_length < t.size

abbrev pub HasToken : List ℕ → Option Text → Type 0
HasToken text none = ⊥
HasToken text (some t) = t.text ≡ text

-- The mote holds what was heard.
pub record Kept (h : Heard) (m : Mote) : Type 0 where
  pub best_sq : m.best_sq ≡ h.signal
  pub rx_snr : m.rx_snr ≡ h.snr
  pub frame : take m.ul_phy_payload_len m.ul_payload_bin ≡ h.frame
  pub token : HasToken h.token m.best_ul_token

-- Uplinks are being collected for the mote.
pub record Collecting (eui : ℕ) (m : Mote) : Type 0 where
  pub dev_eui : m.dev_eui ≡ eui
  pub room : length m.ul_payload_bin ≡ 256
  pub roomy : Roomy m.best_ul_token
  pub running : is_off m.progress ≡ false

pub length-token_text :
    (g : Gateway) (p : Packet) → length (token_text (token_of g p)) ≡ token_length
unfolding token_text
length-token_text g p = refl

-- A local packet with its data rate.
pub record Local (g : Gateway) (p : Packet) (datarates : List DataRate) : Type 0 where
  pub dr : ℕ
  pub known : get_dr (take max_datarates datarates) 0 p.datarate p.bandwidth ≡ some dr
  pub size : p.size < 256
  pub payload : p.size ≤ length p.payload
  pub any : 0 < p.quality

abbrev pub heard_local : Gateway → Packet → Heard
heard_local g p = record {
  signal = p.quality;
  snr = p.snr;
  frame = take p.size p.payload;
  token = token_text (token_of g p);
}

save_token_lem :
    (text : List ℕ) (old : Option Text)
    → length text ≡ token_length
    → Roomy old
    → (t : Text) × (save_token text old ≡ some t) × (token_length < t.size) × (t.text ≡ text)
unfolding save_token
save_token_lem text none n h = (_, refl, omega (arith, n), refl)
save_token_lem text (some old) n h =
    let fits : leb (length text + 1) old.size ≡ true = ground (arith, n) in (_, rw fits, h, refl)

pub take_local-Kept :
    (g : Gateway) (p : Packet) (datarates : List DataRate) (dr eui : ℕ) (m : Mote)
    → Local g p datarates
    → Collecting eui m
    → (m' : Mote) × (take_local g p dr m ≡ some m')
      × Collecting eui m'
      × Kept (heard_local g p) m'
      × (m'.best_r ≡ m.best_r)
unfolding take_local
take_local-Kept g p datarates dr eui m l c =
    let (t, saved, size, text) =
      save_token_lem (token_text (token_of g p)) m.best_ul_token (length-token_text g p) c.roomy in
    let n : length (take p.size p.payload) ≡ p.size =
      omega (arith, length-take p.size p.payload, l.payload) in
    rw saved (
      rw
        (write_within m.ul_payload_bin 0 (take p.size p.payload) (omega (arith, n, l.size, c.room)))
        (
          _,
          refl,
          record {
            dev_eui = c.dev_eui;
            room = length-patch m.ul_payload_bin 0 (take p.size p.payload) ∙ c.room;
            roomy = size;
            running = c.running;
          },
          record {
            best_sq = refl;
            rx_snr = refl;
            frame =
                take-patch m.ul_payload_bin 0 (take p.size p.payload) (u8 p.size)
                  (omega (arith, n, l.size)) (omega (arith, l.size, c.room));
            token = text;
          },
          refl,
        ))

-- What is kept of an uplink is as it was.
pub record Same (m m' : Mote) : Type 0 where
  pub best_sq : m'.best_sq ≡ m.best_sq
  pub rx_snr : m'.rx_snr ≡ m.rx_snr
  pub bin : m'.ul_payload_bin ≡ m.ul_payload_bin
  pub len : m'.ul_phy_payload_len ≡ m.ul_phy_payload_len
  pub token : m'.best_ul_token ≡ m.best_ul_token

pub Same-Kept : (h : Heard) {m m' : Mote} → Same m m' → Kept h m → Kept h m'
Same-Kept h s k = record {
  best_sq = s.best_sq ∙ k.best_sq;
  rx_snr = s.rx_snr ∙ k.rx_snr;
  frame = ap₂ take s.len s.bin ∙ k.frame;
  token = subst (HasToken h.token) (sym s.token) k.token;
}

-- The new uplink is kept exactly when its signal is better than that of all before.
abbrev pub Offered : ℕ → Mote → Heard → Option Mote → Type 0
Offered eui m h result =
    (m' : Mote) × (result ≡ some m')
    × Collecting eui m'
    × (((m.best_sq < h.signal) × Kept h m') ⊎ ((h.signal ≤ m.best_sq) × Same m m'))

pub uplink_direct-Offered :
    (now dl_rxwin : ℕ) (datarates : List DataRate) (g : Gateway) (p : Packet) (join_req : Bool)
    (eui : ℕ) (m : Mote)
    → Local g p datarates
    → Collecting eui m
    → Offered eui m (heard_local g p) (uplink_direct now dl_rxwin datarates g p join_req m)
unfolding uplink_direct
uplink_direct-Offered now dl_rxwin datarates g p join_req eui m l c = rw l.known (
    rw c.running (elim (Bool-cases (ltb m.best_sq p.quality)) [
      | inl better ↦
          let (m', taken, collecting, kept, _) =
            take_local-Kept g p datarates l.dr eui (add_gateway g p m) l (record {
              dev_eui = c.dev_eui;
              room = c.room;
              roomy = c.roomy;
              running = c.running;
            }) in
          rw better (m', taken, collecting, inl (ground arith, kept))
      | inr no_better ↦ rw no_better (
        _,
        refl,
        record { dev_eui = c.dev_eui; room = c.room; roomy = c.roomy; running = c.running },
        inr (
          ground arith,
          record { best_sq = refl; rx_snr = refl; bin = refl; len = refl; token = refl },
        ),
      )
    ]))
