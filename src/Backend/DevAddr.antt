-- ===== src/Backend/DevAddr.antt =====
-- Device addresses: `parseDevAddr` of libbackend/libserver.c splits one, and `fNS_init` of
-- network_server/fNS.c builds the base of a network's addresses from its NetID.
pub mod Split
pub mod Types
pub mod Total
pub mod Space
use lo_ra_wan_backend.Base.{ℕ, ◌+◌, ◌*◌, ◌/◌, ◌%◌, ◌^◌, ◌<◌, ◌==◌, ltb, if◌then◌else◌, u32}
use lo_ra_wan_backend.Base.{Option, none, some, bit_and, bit_or}

pub record Parsed : Type 0 where
  pub net_id : ℕ
  pub nwk_id : ℕ
  pub nwk_addr : ℕ

-- One branch: the NetID's type bits, where the NwkID starts, its mask, and the NwkAddr's mask.
abbrev pub parsed : ℕ → ℕ → ℕ → ℕ → ℕ → Parsed
parsed dev_addr type_bits shift id_mask addr_mask =
    let nwk_id = bit_and (dev_addr / 2 ^ shift) id_mask in
    record {
      net_id = bit_or type_bits nwk_id;
      nwk_id = nwk_id;
      nwk_addr = bit_and dev_addr addr_mask;
    }

-- `none` is the return of `UINT_MAX`.
pub parse_dev_addr : ℕ → Option Parsed
parse_dev_addr d =
    if bit_and d 0xff00_0000 == 0xfe00_0000
    then some (parsed d 0xe0_0000 7 0x1_ffff 0x7f)
    else if bit_and d 0xfe00_0000 == 0xfc00_0000
    then some (parsed d 0xc0_0000 10 0x7fff 0x3ff)
    else if bit_and d 0xfc00_0000 == 0xf800_0000
    then some (parsed d 0xa0_0000 13 0x1fff 0x1fff)
    else if bit_and d 0xf800_0000 == 0xf000_0000
    then some (parsed d 0x80_0000 16 0x7ff 0xffff)
    else if bit_and d 0xf000_0000 == 0xe000_0000
    then some (parsed d 0x60_0000 18 0x3ff 0x3_ffff)
    else if bit_and d 0xe000_0000 == 0xc000_0000
    then some (parsed d 0x40_0000 20 0x1ff 0xf_ffff)
    else if bit_and d 0xc000_0000 == 0x8000_0000
    then some (parsed d 0x20_0000 24 0x3f 0xff_ffff)
    else if bit_and d 0x8000_0000 == 0
    then some (parsed d 0 25 0x3f 0x1ff_ffff)
    else none

-- `devAddrBase` and `nwkAddrBits`.
pub record AddressSpace : Type 0 where
  pub dev_addr_base : ℕ
  pub nwk_addr_bits : ℕ

abbrev pub net_id_type : ℕ → ℕ
net_id_type network_id = network_id / 2 ^ 21

abbrev pub net_id_part : ℕ → ℕ
net_id_part network_id =
    let t = net_id_type network_id in
    if ltb t 2
    then bit_and network_id 0x3f
    else if t == 2
    then bit_and network_id 0x1ff
    else bit_and network_id 0x1f_ffff

abbrev pub space : ℕ → ℕ → ℕ → Option AddressSpace
space id prefix bits =
    some (record { dev_addr_base = bit_or prefix (u32 (id * 2 ^ bits)); nwk_addr_bits = bits })

-- The part of `fNS_init` behind the opening of the database; `none` is the return of -1.
pub address_space : ℕ → Option AddressSpace
address_space network_id =
    let id = net_id_part network_id in
    let t = net_id_type network_id in
    if t == 0
    then space id 0 25
    else if t == 1
    then space id 0x8000_0000 24
    else if t == 2
    then space id 0xc000_0000 20
    else if t == 3
    then space id 0xe000_0000 18
    else if t == 4
    then space id 0xf000_0000 16
    else if t == 5
    then space id 0xf800_0000 13
    else if t == 6
    then space id 0xfc00_0000 10
    else if t == 7
    then space id 0xfe00_0000 7
    else none

-- `devAddrBase | nwkAddr`, as `getDevAddr` of network_server/sNS.c and `NwkAddrStr_to_devAddrStr` of
-- network_server/web.c form an address.
abbrev pub dev_addr_of : AddressSpace → ℕ → ℕ
dev_addr_of s nwk_addr = bit_or s.dev_addr_base nwk_addr
