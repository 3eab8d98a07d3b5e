-- ===== src/NetworkServer/Collect/Window.antt =====
-- The uplinks of one window, from gateways and from network servers, in any order.
use lo_ra_wan_backend.Base.{
  ℕ, ◌<◌, ◌≤◌, ◌≡◌, refl, ap, arith, Bool, true, false, ltb, ◌==◌, Bool-cases, ◌⊎◌, inl, inr,
}
use lo_ra_wan_backend.Base.{List, [], ◌∷◌, ◌++◌, length, Option, some, ◌>>=◌, All}
use lo_ra_wan_backend.NetworkServer.TxPacket.{Gateway}
use lo_ra_wan_backend.NetworkServer.Transmit.{DataRate}
use lo_ra_wan_backend.NetworkServer.Collect.{
  local, json, is_off, Mote, Packet, GwInfo, save_uplink_start, rx2s, uplink_direct,
}
use lo_ra_wan_backend.NetworkServer.Collect.Json.{
  Agreement, JsonUplink, Best, best_from, quality, uplink_json,
}
use lo_ra_wan_backend.NetworkServer.Collect.Strongest.{
  Heard, Roomy, Kept, Collecting, Same-Kept, Offered, Local, heard_local, uplink_direct-Offered,
}
use lo_ra_wan_backend.NetworkServer.Collect.Sources.{
  Remote, heard_remote, mote_after, uplink_json-Offered,
}

-- An uplink that a gateway or a network server reports, with the host time.
pub data Report : Type 0 where
  from_gateway : (now : ℕ) → List DataRate → Gateway → Packet → (join_req : Bool) → Report
  from_server : (now : ℕ) → Agreement → JsonUplink → (join_req : Bool) → Report

pub receive : ℕ → Report → Mote → Option Mote
unfolding uplink_direct uplink_json
receive dl_rxwin (from_gateway now datarates g p join_req) m =
    uplink_direct now dl_rxwin datarates g p join_req m
receive dl_rxwin (from_server now a u join_req) m =
    mote_after (uplink_json now dl_rxwin a join_req u m)

pub receive_all : ℕ → List Report → Mote → Option Mote
unfolding receive
receive_all dl_rxwin [] m = some m
receive_all dl_rxwin (a ∷ l) m = receive dl_rxwin a m >>= λ m'. receive_all dl_rxwin l m'

-- What is heard by an arrival.
pub data Hears (eui : ℕ) : Report → Heard → Type 0 where
  by_gateway :
      {now : ℕ} {datarates : List DataRate} {g : Gateway} {p : Packet} {join_req : Bool}
      → Local g p datarates
      → Hears eui (from_gateway now datarates g p join_req) (heard_local g p)
  by_server :
      {now : ℕ} {a : Agreement} {u : JsonUplink} {join_req : Bool} (r : Remote a u eui)
      → Hears eui (from_server now a u join_req) (heard_remote u (r.gateway ∷ r.gateways) r.text)

receive-Offered :
    (dl_rxwin eui : ℕ) {a : Report} {h : Heard} (m : Mote)
    → Hears eui a h
    → Collecting eui m
    → Offered eui m h (receive dl_rxwin a m)
unfolding receive
receive-Offered dl_rxwin eui m (by_gateway {now} {datarates} {g} {p} {join_req} l) c =
    uplink_direct-Offered now dl_rxwin datarates g p join_req eui m l c
receive-Offered dl_rxwin eui m (by_server {now} {a} {u} {join_req} r) c =
    uplink_json-Offered now dl_rxwin a join_req u eui m r c

-- Each arrival with what is heard by it.
pub data Hear (eui : ℕ) : List Report → List Heard → Type 0 where
  done : Hear eui [] []
  more :
      {a : Report} {h : Heard} {l : List Report} {hs : List Heard}
      → Hears eui a h
      → Hear eui l hs
      → Hear eui (a ∷ l) (h ∷ hs)

-- The first of the strongest.
abbrev pub Below : ℕ → List Heard → Type 0
Below s hs = All (λ h. h.signal < s) hs

abbrev pub NoneAbove : ℕ → List Heard → Type 0
NoneAbove s hs = All (λ h. h.signal ≤ s) hs

pub record FirstStrongest (h : Heard) (hs : List Heard) : Type 0 where
  pub before : List Heard
  pub after : List Heard
  pub stands : hs ≡ before ++ h ∷ after
  pub weaker : Below h.signal before
  pub not_stronger : NoneAbove h.signal after

FirstStrongest-cons :
    (h k : Heard) (hs : List Heard)
    → k.signal < h.signal
    → FirstStrongest h hs
    → FirstStrongest h (k ∷ hs)
FirstStrongest-cons h k hs lt f = record {
  before = k ∷ f.before;
  after = f.after;
  stands = ap (λ t. k ∷ t) f.stands;
  weaker = (lt, f.weaker);
  not_stronger = f.not_stronger;
}

-- Behind an uplink that is kept: it stays, or one that is stronger replaces it.
receive_all-Kept :
    (dl_rxwin eui : ℕ) (l : List Report) (hs : List Heard) (k : Heard) (m : Mote)
    → Hear eui l hs
    → Collecting eui m
    → Kept k m
    → (m' : Mote) × (receive_all dl_rxwin l m ≡ some m')
      × ((Kept k m' × NoneAbove k.signal hs)
          ⊎ ((h : Heard) × Kept h m' × (k.signal < h.signal) × FirstStrongest h hs))
unfolding receive_all
receive_all-Kept dl_rxwin eui [] [] k m done c kept = (m, refl, inl (kept, tt))
receive_all-Kept dl_rxwin eui [] (h ∷ hs) k m none_left c kept = elim none_left [ ]
receive_all-Kept dl_rxwin eui (a ∷ l) [] k m none_left c kept = elim none_left [ ]
receive_all-Kept dl_rxwin eui (a ∷ l) (h ∷ hs) k m (more first rest) c kept =
    let (m1, received, c1, either) = receive-Offered dl_rxwin eui m first c in
    rw received (elim either [
      | inl (better, kept1) ↦
          let (m', all, outcome) = receive_all-Kept dl_rxwin eui l hs h m1 rest c1 kept1 in
          (
            m',
            all,
            inr (elim outcome [
              | inl o ↦ (
                h,
                o.0,
                omega (arith, better, kept.best_sq),
                record { before = []; after = hs; stands = refl; weaker = tt; not_stronger = o.1 },
              )
              | inr o ↦ (
                o.0,
                o.1,
                omega (arith, better, kept.best_sq, o.2),
                FirstStrongest-cons o.0 h hs o.2 o.3,
              )
            ]),
          )
      | inr (no_better, same) ↦
          let (m', all, outcome) =
            receive_all-Kept dl_rxwin eui l hs k m1 rest c1 (Same-Kept k same kept) in
          (
            m',
            all,
            elim outcome [
              | inl o ↦ inl (o.0, (omega (arith, no_better, kept.best_sq), o.1))
              | inr o ↦ inr (
                o.0,
                o.1,
                o.2,
                FirstStrongest-cons o.0 h hs (omega (arith, no_better, kept.best_sq, o.2)) o.3,
              )
            ],
          )
    ])

-- A mote for which nothing is collected.
pub record Idle (eui : ℕ) (m : Mote) : Type 0 where
  pub dev_eui : m.dev_eui ≡ eui
  pub room : length m.ul_payload_bin ≡ 256
  pub roomy : Roomy m.best_ul_token
  pub progress : is_off m.progress ≡ true

started : ℕ → Report → Mote → Mote
unfolding save_uplink_start
started dl_rxwin (from_gateway now datarates g p join_req) m =
    save_uplink_start now (rx2s dl_rxwin join_req) local m
started dl_rxwin (from_server now a u join_req) m =
    save_uplink_start now (rx2s dl_rxwin join_req) json m

started-Collecting :
    (dl_rxwin eui : ℕ) (a : Report) (m : Mote)
    → Idle eui m
    → Collecting eui (started dl_rxwin a m) × ((started dl_rxwin a m).best_sq ≡ 0)
unfolding started
started-Collecting dl_rxwin eui (from_gateway now datarates g p join_req) m i =
    (record { dev_eui = i.dev_eui; room = i.room; roomy = i.roomy; running = refl }, refl)
started-Collecting dl_rxwin eui (from_server now a u join_req) m i =
    (record { dev_eui = i.dev_eui; room = i.room; roomy = i.roomy; running = refl }, refl)

receive-started :
    (dl_rxwin eui : ℕ) {a : Report} {h : Heard} (m : Mote)
    → Hears eui a h
    → is_off m.progress ≡ true
    → receive dl_rxwin a m ≡ receive dl_rxwin a (started dl_rxwin a m)
unfolding receive started uplink_direct uplink_json
receive-started dl_rxwin eui m (by_gateway l) e = rw l.known (rw e refl)
receive-started dl_rxwin eui m (by_server {now} {a} {u} {join_req} r) e =
    let any : (length u.pay_buf == 0) ≡ false = ground (arith, r.any) in rw any (rw e refl)

best_from-ge : (gw_list : List GwInfo) (b : Best) → b.best_sq ≤ (best_from gw_list b).best_sq
unfolding best_from
best_from-ge [] b = omega arith
best_from-ge (gi ∷ gw_list) b = elim (Bool-cases (ltb b.best_sq (quality gi))) [
  | inl better ↦
      let next : Best = record { best_sq = quality gi; rx_snr = gi.snr; ul_token = gi.ul_token } in
      rw (better, best_from) (ground (arith, best_from-ge gw_list next))
  | inr no_better ↦ rw (no_better, best_from) (best_from-ge gw_list b)
]

signal_pos : (eui : ℕ) {a : Report} {h : Heard} → Hears eui a h → 0 < h.signal
unfolding best_from
signal_pos eui (by_gateway l) = l.any
signal_pos eui (by_server r) =
    let first : Best = record {
      best_sq = quality r.gateway;
      rx_snr = r.gateway.snr;
      ul_token = r.gateway.ul_token;
    } in
    let positive : ltb 0 (quality r.gateway) ≡ true = ground arith in
    rw (positive, best_from) (omega (arith, best_from-ge r.gateways first))

-- Nothing is collected for a mote, and one uplink is reported by gateways and network servers in any
-- order, each with a frame of up to 255 bytes and, from a network server, a gateway whose token is
-- at least as long as ours. Then no report writes behind the end of an array or string, and in the
-- end the mote holds the frame, the SNR, the signal and the token of the first of the strongest.
pub receive_all_lem :
    (dl_rxwin eui : ℕ) (a : Report) (l : List Report) (hs : List Heard) (m : Mote)
    → Hear eui (a ∷ l) hs
    → Idle eui m
    → (m' : Mote) × (receive_all dl_rxwin (a ∷ l) m ≡ some m')
      × (h : Heard) × Kept h m'
      × FirstStrongest h hs
unfolding receive_all
receive_all_lem dl_rxwin eui a l [] m nothing i = elim nothing [ ]
receive_all_lem dl_rxwin eui a l (h ∷ hs) m (more first rest) i =
    let (c, zero_sq) = started-Collecting dl_rxwin eui a m i in
    let (m1, received, c1, either) = receive-Offered dl_rxwin eui (started dl_rxwin a m) first c in
    let kept1 : Kept h m1 = elim either [
      | inl (better, kept) ↦ kept
      | inr (no_better, same) ↦ absurd (omega (arith, no_better, zero_sq, signal_pos eui first))
    ] in
    let (m', all, outcome) = receive_all-Kept dl_rxwin eui l hs h m1 rest c1 kept1 in
    rw (receive-started dl_rxwin eui m first i.progress) (
      rw received (elim outcome [
        | inl o ↦ (
          m',
          all,
          h,
          o.0,
          record { before = []; after = hs; stands = refl; weaker = tt; not_stronger = o.1 },
        )
        | inr o ↦ (m', all, o.0, o.1, FirstStrongest-cons o.0 h hs o.2 o.3)
      ]))
