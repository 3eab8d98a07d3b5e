-- ===== src/NetworkServer/SessionStart.antt =====
-- The MAC commands at the start of a session: `init_session` of network_server/sNS.c,
-- `arib_init_session` and `arib_parse_start_mac_cmd` of network_server/band_arib8ch.c, and the end of
-- `parse_mac_command`, which calls the latter. What the device profile in the SQL database says is a
-- record; a query that fails is `none`, and a frequency is in units of 100 Hz.
pub mod Steps
pub mod Answers
use lo_ra_wan_backend.Base.{
  ℕ, zero, suc, ◌+◌, ◌*◌, ◌/◌, ◌%◌, ◌^◌, Bool, true, false, ◌&&◌, ◌||◌, if◌then◌else◌, ltb, ◌==◌,
  u8, bit_and, bit_or,
}
use lo_ra_wan_backend.Base.{List, [], ◌∷◌, get_or, set, Option, none, some, ◌>>=◌}
use lo_ra_wan_backend.NetworkServer.MacQueue.{put_queue_mac_cmds}
use lo_ra_wan_backend.NetworkServer.MacCommands.{Session, Region, Uplink, parse_mac_command}
use lo_ra_wan_backend.NetworkServer.Downlink.{Server}

pub record DeviceProfile : Type 0 where
  pub supports_class_b : Option Bool
  pub ping_slot_dr : Option ℕ
  pub ping_slot_freq : Option ℕ
  pub rx_freq2 : Option ℕ
  pub rx_data_rate2 : Option ℕ

-- `put_queue_mac_cmds` with an answer wanted.
abbrev pub ask : Server → ℕ → List ℕ → Option Server
ask s cmd_len cmd_buf = do
  q ← put_queue_mac_cmds s.queue cmd_len cmd_buf true
  some (record s { queue = q })

abbrev pub freq_bytes : ℕ → List ℕ → List ℕ
freq_bytes freq rest =
    bit_and freq 0xff ∷ bit_and (freq / 2 ^ 8) 0xff ∷ bit_and (freq / 2 ^ 16) 0xff ∷ rest

abbrev pub ch_mask0 : Server → ℕ
ch_mask0 s = get_or s.commands.ch_mask 0 0

abbrev pub set_ch_mask0 : Server → ℕ → Server
set_ch_mask0 s mask = record s {
  commands = record s.commands { ch_mask = set s.commands.ch_mask 0 mask };
}

-- The second receive window.
pub ask_rx2 : Option ℕ → Option ℕ → Server → Option Server
ask_rx2 none dr s = some s
ask_rx2 (some freq) none s = some s
ask_rx2 (some freq) (some dr) s = ask s 5 (0x05 ∷ u8 dr ∷ freq_bytes freq [])

-- Class B: the channel of the ping slots, and that of the beacon.
pub ask_class_b : DeviceProfile → Region → Option ℕ → Option ℕ → Server → Option Server
ask_class_b profile region none freq s = some s
ask_class_b profile region (some dr) none s = some s
ask_class_b profile region (some dr) (some freq) s = do
  t ← ask s 5 (0x11 ∷ freq_bytes freq (u8 dr ∷ []))
  u ← ask t 4 (0x13 ∷ freq_bytes (region.beacon_hz / 100) [])
  ask_rx2 profile.rx_freq2 profile.rx_data_rate2 u

pub ask_by_class : DeviceProfile → Region → Option Bool → Server → Option Server
ask_by_class profile region none s = some s
ask_by_class profile region (some true) s =
    ask_class_b profile region profile.ping_slot_dr profile.ping_slot_freq s
ask_by_class profile region (some false) s = ask_rx2 profile.rx_freq2 profile.rx_data_rate2 s

pub arib_init_session : DeviceProfile → Region → Server → Option Server
arib_init_session profile region s =
    ask_by_class profile region profile.supports_class_b
      (set_ch_mask0 s (bit_or (ch_mask0 s) 0x0038))

-- `TxParamSetupReq`, where the region enables it.
pub ask_tx_param : Option ℕ → Server → Option Server
ask_tx_param none s = some s
ask_tx_param (some octet) s = ask s 2 (0x09 ∷ octet ∷ [])

-- A region that is not found makes no difference to `s_t`.
pub init_session : DeviceProfile → Option Region → Server → Option Server
init_session profile none s = some s
init_session profile (some region) s =
    let started : Server → Server = λ t. record t { send_start_mac_cmds = true } in
    let init = (do t ← arib_init_session profile region s; some (started t)) in
    do u ← if region.init_session then init else some s; ask_tx_param region.tx_param_setup u

-- NewChannelReq for channel 2, 922.0 MHz, with data rates 3 to 5.
abbrev pub new_channel_req : List ℕ
new_channel_req = 0x07 ∷ 2 ∷ freq_bytes 9_220_000 (0x53 ∷ [])

-- An answer of the end device while a session starts.
pub start_step : ℕ → Server → Option Server
start_step c s =
    if c == 0x05
    then (do
      t ← ask s 6 new_channel_req
      some (record (set_ch_mask0 t (bit_or (ch_mask0 t) 0x0004)) { force_adr = true }))
    else if c == 0x07
    then some record (set_ch_mask0 s (bit_and (ch_mask0 s) 0xfffc)) {
      force_adr = true;
      send_start_mac_cmds = false;
    }
    else some s

-- The loop, from `idx` on; `none` is no fuel.
pub start_from : ℕ → List ℕ → ℕ → ℕ → Server → Option Server
start_from zero buf buf_len idx s = none
start_from (suc fuel) buf buf_len idx s =
    let c = get_or buf idx 0 in
    let used = if (c == 0x05) || (c == 0x07) then 2 else 1 in
    let more : Server → Option Server = λ t. start_from fuel buf buf_len (u8 (idx + used)) t in
    if ltb idx buf_len then start_step c s >>= more else some s

pub arib_parse_start_mac_cmd : List ℕ → ℕ → Server → Option Server
arib_parse_start_mac_cmd buf buf_len s = start_from (suc buf_len) buf buf_len 0 s

abbrev pub has_start : Option Region → Bool
has_start none = false
has_start (some region) = region.init_session

pub start_answers : Uplink → List ℕ → ℕ → Server → Option Server
start_answers ul rx_cmd_buf len s =
    let answers = arib_parse_start_mac_cmd rx_cmd_buf len s in
    if s.send_start_mac_cmds && has_start ul.region then answers else some s

-- All of `parse_mac_command`. Only the region that has `init_session` has `parse_start_mac_cmd`.
pub parse_commands : Uplink → List ℕ → ℕ → Server → Option Server
parse_commands ul rx_cmd_buf len s = do
  r ← parse_mac_command ul rx_cmd_buf len s.commands s.queue
  start_answers ul rx_cmd_buf len (record s { commands = r.0; queue = r.1 })
