-- ===== src/NetworkServer/Adr/Control.antt =====
-- What `network_controller_adr` of network_server/adr.c asks an end device for.
use lo_ra_wan_backend.Base.{
  ℕ, ◌-◌, ◌*◌, ◌<◌, ◌≤◌, ◌≡◌, refl, arith, max, min, ◌+◌, zero, suc, ltb, ◌&&◌,
}
use mathlib.Core.Path.{subst}
use lo_ra_wan_backend.Base.{
  Bool, true, not, ◌||◌, if◌then◌else◌, ◌==◌, Bool-cases, inl, inr, if_either,
}
use lo_ra_wan_backend.Base.{List, [], ◌∷◌, get_or, Option, none, some}
use lo_ra_wan_backend.NetworkServer.MacCommands.{ℤ, pos, negsuc, Region}
use lo_ra_wan_backend.NetworkServer.MacQueue.Pending.{pending, held}
use lo_ra_wan_backend.NetworkServer.MacQueue.Put.{backlog}
use lo_ra_wan_backend.NetworkServer.MacQueue.Refine.{IsReady}
use lo_ra_wan_backend.NetworkServer.MacQueue.Accept.{after_put, put_queue_mac_cmds_lem}
use lo_ra_wan_backend.NetworkServer.Downlink.{Server}
use lo_ra_wan_backend.NetworkServer.Adr.{
  Stats, scan, shifted, stats, stable, average, adapt, request_adr, link_adr_req,
  network_controller_uplink, network_controller_adr,
}
use lo_ra_wan_backend.NetworkServer.Adr.Loops.{
  rate_steps, power_steps, raise_rate_lem, lower_power_lem,
}

-- The data rate and power index to aim at, by whether the signal is steady and by its margin.
abbrev pub aim_rate : Region → (data_rate : ℕ) → Bool → (snr : ℕ) → ℕ
aim_rate region data_rate steady snr =
    if steady then data_rate + rate_steps region.uplink_dr_max data_rate snr else data_rate

abbrev pub aim_power : Region → (data_rate txpwr_idx : ℕ) → Bool → (snr : ℕ) → ℕ
aim_power region data_rate idx steady snr =
    if steady
    then idx
      + power_steps region.max_txpwr_idx idx
          (snr - 15 * rate_steps region.uplink_dr_max data_rate snr)
    else idx

abbrev pub asks : Region → ℕ → Server → Bool → ℕ → Bool
asks region data_rate s steady snr =
    s.force_adr
    || (not (data_rate == aim_rate region data_rate steady snr)
        || not (s.commands.txpwr_idx == aim_power region data_rate s.commands.txpwr_idx steady snr))

abbrev pub req : Region → ℕ → Server → Bool → ℕ → List ℕ
req region data_rate s steady snr =
    link_adr_req (aim_rate region data_rate steady snr)
      (aim_power region data_rate s.commands.txpwr_idx steady snr) (get_or s.commands.ch_mask 0 0)

-- The call returned a server with the new power index, and the request is put when something
-- changes.
pub record Controls (region : Region) (data_rate : ℕ) (s : Server) (steady : Bool) (snr : ℕ)
    (result : Option Server) : Type 0 where
  pub server : Server
  pub returns : result ≡ some server
  pub power : server.commands.txpwr_idx ≡ aim_power region data_rate s.commands.txpwr_idx steady snr
  pub ready : IsReady server.queue
  pub now : pending server.queue ≡ (
      if asks region data_rate s steady snr
      then after_put
          (backlog (held s.queue))
          (pending s.queue)
          5
          (req region data_rate s steady snr)
          true
      else pending s.queue)
  pub same : server.downlink ≡ s.downlink
  pub same_conf : server.conf_dl_phy_payload_bin ≡ s.conf_dl_phy_payload_bin
  pub same_conf_len : server.conf_dl_phy_payload_len ≡ s.conf_dl_phy_payload_len

-- What the code finds in the history.
abbrev found_steady : ℕ → Server → Bool
found_steady data_rate s = stable (stats s) data_rate

abbrev found_snr : Server → ℕ
found_snr s = average (stats s)

adapt_lem :
    (region : Region) (data_rate : ℕ) (s : Server)
    → region.uplink_dr_max < 256
    → region.max_txpwr_idx < 256
    → adapt region data_rate s
      ≡ some (
        aim_rate region data_rate (found_steady data_rate s) (found_snr s),
        aim_power region data_rate s.commands.txpwr_idx (found_steady data_rate s) (found_snr s),
      )
unfolding adapt
adapt_lem region data_rate s h k = elim (Bool-cases (stable (stats s) data_rate)) [
  | inl steady ↦
      rw
        (
          steady,
          raise_rate_lem 256 region.uplink_dr_max data_rate (average (stats s)) h (omega arith),
          lower_power_lem 256 region.max_txpwr_idx s.commands.txpwr_idx
              (average (stats s)
                - 15 * rate_steps region.uplink_dr_max data_rate (average (stats s)))
              k (omega arith),
        )
        refl
  | inr moving ↦ rw moving refl
]

request_adr_lem :
    (region : Region) (data_rate : ℕ) (s : Server) (steady : Bool) (snr : ℕ)
    → IsReady s.queue
    → Controls region data_rate s steady snr (
        request_adr data_rate
          (aim_rate region data_rate steady snr)
          (aim_power region data_rate s.commands.txpwr_idx steady snr)
          s)
unfolding request_adr
request_adr_lem region data_rate s steady snr r =
    let p =
      put_queue_mac_cmds_lem s.queue 5 (req region data_rate s steady snr) true r (omega arith)
        (omega arith) (omega arith) in
    let t = record s {
      commands = record s.commands {
        txpwr_idx = aim_power region data_rate s.commands.txpwr_idx steady snr;
      };
    } in
    elim (Bool-cases (asks region data_rate s steady snr)) [
      | inl yes_asks ↦ record {
        server = record t { queue = p.queue };
        returns = rw (yes_asks, p.returns) refl;
        power = refl;
        ready = p.ready;
        now = rw yes_asks p.now;
        same = refl;
        same_conf = refl;
        same_conf_len = refl;
      }
      | inr no_change ↦ record {
        server = t;
        returns = rw no_change refl;
        power = refl;
        ready = r;
        now = rw no_change refl;
        same = refl;
        same_conf = refl;
        same_conf_len = refl;
      }
    ]

pub network_controller_adr-Controls :
    (region : Region) (data_rate : ℕ) (s : Server)
    → region.uplink_dr_max < 256
    → region.max_txpwr_idx < 256
    → IsReady s.queue
    → Controls region data_rate s
        (found_steady data_rate s)
        (found_snr s)
        (network_controller_adr (some region) data_rate s)
unfolding network_controller_adr
network_controller_adr-Controls region data_rate s h k r =
    rw (adapt_lem region data_rate s h k)
      (request_adr_lem region data_rate s (found_steady data_rate s) (found_snr s) r)

-- A value in decibels, 128 higher.
abbrev raised : ℤ → ℕ
raised (pos n) = n + 128
raised (negsuc n) = 127 - n

-- The last three values lie within 4 dB, -40 and 40 dB included, and there is a data rate.
abbrev pub is_steady : (x y z : ℤ) → (data_rate : ℕ) → Bool
is_steady x y z data_rate =
    ltb (max 88 (max (raised x) (max (raised y) (raised z))))
      (min 168 (min (raised x) (min (raised y) (raised z))) + 4)
    && not (data_rate == 24)

-- Six times their average, twice their sum.
abbrev pub margin : (x y z : ℤ) → ℕ
margin x y z = 2 * (raised x + raised y + raised z - 3 * 128)

shifted-raised : (x : ℤ) → shifted x ≡ raised x
shifted-raised (pos n) = refl
shifted-raised (negsuc n) = refl

record Scanned (x y z : ℕ) (st : Stats) : Type 0 where
  largest : st.max_snr ≡ max 88 (max x (max y z))
  smallest : st.min_snr ≡ min 168 (min x (min y z))
  total : st.sum ≡ x + y + z

scan_lem :
    (x y z : ℤ) (idx : ℕ)
    → idx < 3
    → Scanned
        (raised x)
        (raised y)
        (raised z)
        (scan 3 (x ∷ y ∷ z ∷ []) idx (record { max_snr = 88; min_snr = 168; sum = 0 }))
unfolding scan
scan_lem x y z zero h =
    rw (shifted-raised x, shifted-raised y, shifted-raised z)
      record { largest = ground arith; smallest = ground arith; total = omega arith }
scan_lem x y z (suc zero) h =
    rw (shifted-raised x, shifted-raised y, shifted-raised z)
      record { largest = ground arith; smallest = ground arith; total = omega arith }
scan_lem x y z (suc (suc zero)) h =
    rw (shifted-raised x, shifted-raised y, shifted-raised z)
      record { largest = ground arith; smallest = ground arith; total = omega arith }
scan_lem x y z (suc (suc (suc idx))) h = absurd (omega arith)

-- The loops end. The history holds the last three SNRs. If they lie within 4 dB, the data rate is raised
-- by one for each 2.5 dB that their average has above zero, as far as the region allows, and then the
-- power is lowered by one for each 3 dB that leaves more than 3; the request is put on the queue
-- exactly when that changes something or is forced. The rate and the index never fall, nor pass the
-- region's limit if they are within it.
pub network_controller_adr_lem :
    (region : Region) (data_rate : ℕ) (s : Server) (x y z : ℤ)
    → region.uplink_dr_max < 256
    → region.max_txpwr_idx < 256
    → IsReady s.queue
    → s.commands.snr_history ≡ x ∷ y ∷ z ∷ []
    → s.snr_history_idx < 3
    → let steady = is_steady x y z data_rate in
      let snr = margin x y z in
      let idx = s.commands.txpwr_idx in
      Controls region data_rate s steady snr (network_controller_adr (some region) data_rate s)
      × (data_rate ≤ aim_rate region data_rate steady snr)
      × (aim_rate region data_rate steady snr ≤ max data_rate region.uplink_dr_max)
      × (idx ≤ aim_power region data_rate idx steady snr)
      × (aim_power region data_rate idx steady snr ≤ max idx region.max_txpwr_idx)
network_controller_adr_lem region data_rate s x y z h k r history bound =
    let steady = is_steady x y z data_rate in
    let idx = s.commands.txpwr_idx in
    let scanned : Scanned (raised x) (raised y) (raised z) (stats s) =
      rw history (scan_lem x y z s.snr_history_idx bound) in
    let same : found_steady data_rate s ≡ is_steady x y z data_rate =
      rw (scanned.largest, scanned.smallest) refl in
    let same_snr : found_snr s ≡ margin x y z = rw scanned.total refl in
    (
      subst
          (λ (b : Bool).
            Controls region data_rate s b (margin x y z)
              (network_controller_adr (some region) data_rate s))
          same
          (subst
            (λ (n : ℕ).
              Controls region data_rate s (found_steady data_rate s) n
                (network_controller_adr (some region) data_rate s))
            same_snr (network_controller_adr-Controls region data_rate s h k r)),
      if_either (λ d. data_rate ≤ d) steady (omega arith) (omega arith),
      if_either (λ d. d ≤ max data_rate region.uplink_dr_max) steady (omega arith) (omega arith),
      if_either (λ d. idx ≤ d) steady (omega arith) (omega arith),
      if_either (λ d. d ≤ max idx region.max_txpwr_idx) steady (omega arith) (omega arith),
    )

-- A region that is not found changes nothing, and the history is all that an uplink changes.
pub no_region : (data_rate : ℕ) (s : Server) → network_controller_adr none data_rate s ≡ some s
unfolding network_controller_adr
no_region data_rate s = refl

pub network_controller_uplink-same :
    (s : Server) (snr : ℤ)
    → (IsReady s.queue → IsReady (network_controller_uplink s snr).queue)
      × ((network_controller_uplink s snr).downlink ≡ s.downlink)
      × ((network_controller_uplink s snr).conf_dl_phy_payload_bin ≡ s.conf_dl_phy_payload_bin)
      × ((network_controller_uplink s snr).conf_dl_phy_payload_len ≡ s.conf_dl_phy_payload_len)
unfolding network_controller_uplink
network_controller_uplink-same s snr = (λ r. r, refl, refl, refl)
