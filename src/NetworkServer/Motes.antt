-- ===== src/NetworkServer/Motes.antt =====
-- The list of motes of a network server: `getMote`, `create_mote` and `create_mote_on_list` of
-- network_server/common.c. A place of the list can be NULL, which is `none`. What the database says
-- of the DevEUI that has a session with a DevAddr is an argument; there is always memory.
pub mod Identity
pub mod Distinct
pub mod Frames
use lo_ra_wan_backend.Base.{
  ℕ, zero, suc, Bool, true, false, not, ◌&&◌, if◌then◌else◌, ◌==◌, List, [], ◌∷◌, replicate, Option,
  none, some,
}
use lo_ra_wan_backend.NetworkServer.MoteLookup.{none_dev_eui, no_dev_addr}
use lo_ra_wan_backend.NetworkServer.Collect.{Mote, off}
use lo_ra_wan_backend.NetworkServer.Collect.Json.{no_meta_data}

abbrev pub Motes : Type 0
Motes = List (Option Mote)

-- The DevEUI of the session, if there is one.
abbrev pub or_session : ℕ → Option ℕ → ℕ
or_session dev_eui none = dev_eui
or_session dev_eui (some e) = e

unfoldable pub associated : (ℕ → Option ℕ) → (dev_eui dev_addr : ℕ) → ℕ
associated session dev_eui dev_addr =
    if dev_eui == none_dev_eui then or_session dev_eui (session dev_addr) else dev_eui

-- Zeros, but for the signal; a zero SNR is 128.
unfoldable pub create_mote : (ℕ → Option ℕ) → (dev_eui dev_addr : ℕ) → Mote
unfolding associated
create_mote session dev_eui dev_addr = record {
  dev_eui = associated session dev_eui dev_addr;
  dev_addr = dev_addr;
  progress = off;
  first_uplink = 0;
  release_uplink = 0;
  best_sq = 0;
  rx_snr = 128;
  best_ul_token = none;
  ulmd_local = no_meta_data;
  ul_frm_payload_len = 0;
  ul_payload_bin = replicate 256 0;
  ul_phy_payload_len = 0;
  best_r = none;
  requesters = [];
  session_until = 0;
}

-- By the DevEUI, or by the DevAddr when there is no DevEUI.
unfoldable pub is_sought : (dev_eui dev_addr : ℕ) → Mote → Bool
is_sought dev_eui dev_addr m =
    if not (dev_eui == none_dev_eui)
    then dev_eui == m.dev_eui
    else not (dev_addr == no_dev_addr) && (dev_addr == m.dev_addr)

-- A mote that is found by its DevEUI gets the DevAddr.
unfoldable pub with_dev_addr : (dev_eui dev_addr : ℕ) → Mote → Mote
with_dev_addr dev_eui dev_addr m =
    if not (dev_eui == none_dev_eui) && not (dev_addr == no_dev_addr)
    then record m { dev_addr = dev_addr }
    else m

-- A place further on.
abbrev pub further : Option Mote → Option (ℕ × Motes) → Option (ℕ × Motes)
further x none = none
further x (some (place, motes)) = some (suc place, x ∷ motes)

unfoldable pub find_mote : (dev_eui dev_addr : ℕ) → Motes → Option (ℕ × Motes)
unfolding is_sought with_dev_addr
find_mote dev_eui dev_addr [] = none
find_mote dev_eui dev_addr (none ∷ motes) = further none (find_mote dev_eui dev_addr motes)
find_mote dev_eui dev_addr (some m ∷ motes) =
    let rest = find_mote dev_eui dev_addr motes in
    if is_sought dev_eui dev_addr m
    then some (0, some (with_dev_addr dev_eui dev_addr m) ∷ motes)
    else further (some m) rest

abbrev pub past : Option Mote → ℕ × Motes → ℕ × Motes
past x (place, motes) = (suc place, x ∷ motes)

-- In the first place that is NULL, or at the end.
unfoldable pub create_mote_on_list : Mote → Motes → ℕ × Motes
create_mote_on_list m [] = (0, some m ∷ [])
create_mote_on_list m (none ∷ motes) = (0, some m ∷ motes)
create_mote_on_list m (some x ∷ motes) = past (some x) (create_mote_on_list m motes)

abbrev pub or_create : Mote → Motes → Option (ℕ × Motes) → ℕ × Motes
or_create m motes none = create_mote_on_list m motes
or_create m motes (some found) = found

-- The place of the mote, and the list.
unfoldable pub get_mote : (ℕ → Option ℕ) → (dev_eui dev_addr : ℕ) → Motes → ℕ × Motes
unfolding find_mote create_mote associated
get_mote session dev_eui dev_addr motes =
    let known = associated session dev_eui dev_addr in
    or_create (create_mote session known dev_addr) motes (find_mote known dev_addr motes)

-- The mote at a place.
unfoldable pub mote_at : Motes → ℕ → Option Mote
mote_at [] place = none
mote_at (x ∷ motes) zero = x
mote_at (x ∷ motes) (suc place) = mote_at motes place
