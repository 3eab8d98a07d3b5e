-- ===== src/NetworkServer/Adr.antt =====
-- Adaptive data rate: `network_controller_uplink` and `network_controller_adr` of
-- network_server/adr.c. The floating point numbers there are whole numbers of decibels, a third of
-- their sum and steps of 2.5 and 3.0: they are exact in sixths of a decibel. A value of `int8_t` is
-- taken 128 higher, so that it is not negative; an average below 0 does what 0 does.
pub mod Loops
pub mod Control
use lo_ra_wan_backend.Base.{
  ℕ, zero, suc, ◌+◌, ◌-◌, ◌*◌, ◌/◌, ◌%◌, ◌^◌, Bool, true, false, not, ◌&&◌, ◌||◌, if◌then◌else◌,
  ltb, leb, ◌==◌, u8, bit_and, bit_or,
}
use lo_ra_wan_backend.Base.{List, [], ◌∷◌, get_or, set, Option, none, some, ◌>>=◌}
use lo_ra_wan_backend.NetworkServer.MacQueue.{put_queue_mac_cmds}
use lo_ra_wan_backend.NetworkServer.MacCommands.{ℤ, pos, negsuc, null_snr, Session, Region}
use lo_ra_wan_backend.NetworkServer.Downlink.{Server}

abbrev pub snr_history_size : ℕ
snr_history_size = 3

abbrev pub max_datarates : ℕ
max_datarates = 24

abbrev pub srv_mac_link_adr_req : ℕ
srv_mac_link_adr_req = 0x03

abbrev pub shifted : ℤ → ℕ
shifted (pos n) = n + 128
shifted (negsuc n) = 127 - n

pub network_controller_uplink : Server → ℤ → Server
network_controller_uplink s snr =
    let i = u8 (s.snr_history_idx + 1) in
    record s {
      commands = record s.commands {
        snr_history = set s.commands.snr_history s.snr_history_idx snr;
      };
      snr_history_idx = if i == snr_history_size then 0 else i;
    }

-- The loop over the history: largest, smallest, and sum.
pub record Stats : Type 0 where
  pub max_snr : ℕ
  pub min_snr : ℕ
  pub sum : ℕ

pub scan : ℕ → List ℤ → ℕ → Stats → Stats
scan zero history hist_idx st = st
scan (suc rounds) history hist_idx st =
    let x = shifted (get_or history hist_idx null_snr) in
    scan rounds history (if hist_idx == 0 then snr_history_size - 1 else hist_idx - 1) record {
      max_snr = if ltb st.max_snr x then x else st.max_snr;
      min_snr = if ltb x st.min_snr then x else st.min_snr;
      sum = st.sum + x;
    }

-- From -40 and 40.
abbrev pub stats : Server → Stats
stats s =
    scan snr_history_size s.commands.snr_history s.snr_history_idx
      record { max_snr = 88; min_snr = 168; sum = 0 }

abbrev pub stable : Stats → ℕ → Bool
stable st data_rate = ltb st.max_snr (st.min_snr + 4) && not (data_rate == max_datarates)

-- The average in sixths of a decibel.
abbrev pub average : Stats → ℕ
average st = 2 * (st.sum - snr_history_size * 128)

-- The first loop: the data rate and the rest of the margin; `none` is no fuel.
pub raise_rate : ℕ → ℕ → ℕ → ℕ → Option (ℕ × ℕ)
raise_rate zero dr_max data_rate snr = none
raise_rate (suc fuel) dr_max data_rate snr =
    let more = raise_rate fuel dr_max (u8 (data_rate + 1)) (snr - 15) in
    if ltb data_rate dr_max && ltb 0 snr then more else some (data_rate, snr)

-- The second loop: the power index.
pub lower_power : ℕ → ℕ → ℕ → ℕ → Option ℕ
lower_power zero max_idx txpwr_idx snr = none
lower_power (suc fuel) max_idx txpwr_idx snr =
    let more = lower_power fuel max_idx (u8 (txpwr_idx + 1)) (snr - 18) in
    if ltb 18 snr then if ltb txpwr_idx max_idx then more else some txpwr_idx else some txpwr_idx

abbrev pub loop_fuel : ℕ
loop_fuel = 256

pub adapt : Region → ℕ → Server → Option (ℕ × ℕ)
adapt region data_rate s =
    let st = stats s in
    if stable st data_rate
    then (do
      r ← raise_rate loop_fuel region.uplink_dr_max data_rate (average st)
      p ← lower_power loop_fuel region.max_txpwr_idx s.commands.txpwr_idx r.1
      some (r.0, p))
    else some (data_rate, s.commands.txpwr_idx)

abbrev pub link_adr_req : ℕ → ℕ → ℕ → List ℕ
link_adr_req data_rate txpwr_idx ch_mask =
    srv_mac_link_adr_req
    ∷ u8 (bit_or (data_rate * 2 ^ 4) txpwr_idx)
    ∷ bit_and ch_mask 0xff
    ∷ u8 (ch_mask / 2 ^ 8)
    ∷ 0
    ∷ []

-- The command that asks for the data rate and power, when they change.
pub request_adr : ℕ → ℕ → ℕ → Server → Option Server
request_adr orig_ul_dr data_rate txpwr_idx s =
    let changes = not (orig_ul_dr == data_rate) || not (s.commands.txpwr_idx == txpwr_idx) in
    let t = record s { commands = record s.commands { txpwr_idx = txpwr_idx } } in
    let req = link_adr_req data_rate txpwr_idx (get_or s.commands.ch_mask 0 0) in
    if s.force_adr || changes
    then (do q ← put_queue_mac_cmds s.queue 5 req true; some (record t { queue = q }))
    else some t

-- The region is `none` when its name is not in the list.
pub network_controller_adr : Option Region → ℕ → Server → Option Server
network_controller_adr none data_rate s = some s
network_controller_adr (some region) data_rate s = do
  a ← adapt region data_rate s
  request_adr data_rate a.0 a.1 s
