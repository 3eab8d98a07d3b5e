-- ===== src/NetworkServer/Integrity.antt =====
-- Message integrity: `block_t` of network_server/ns.h, the codes of network_server/common.c and
-- libbackend/libserver.c, and the tests of network_server/sNS.c and network_server/fNS.c. CMAC is
-- not this code: the module takes it as a function of a key and a message.
pub mod Checks
use lo_ra_wan_backend.Base.{
  ℕ, zero, suc, ◌+◌, ◌-◌, ◌*◌, ◌/◌, ◌%◌, ◌^◌, Bool, true, false, if◌then◌else◌, ◌&&◌, ◌>>=◌, ltb,
  leb, ◌==◌, u8, u16, u32,
}
use lo_ra_wan_backend.Base.{List, [], ◌∷◌, ◌++◌, length, get_or, take, drop, Option, none, some}

pub record Block : Type 0 where
  pub header : ℕ
  pub conf_fcnt : ℕ
  pub dr : ℕ
  pub ch : ℕ
  pub dir : ℕ
  pub dev_addr : ℕ
  pub fcnt : ℕ
  pub zero8 : ℕ
  pub len_msg : ℕ

abbrev bytes2 : ℕ → List ℕ
bytes2 n = u8 n ∷ u8 (n / 2 ^ 8) ∷ []

abbrev bytes4 : ℕ → List ℕ
bytes4 n = u8 n ∷ u8 (n / 2 ^ 8) ∷ u8 (n / 2 ^ 16) ∷ u8 (n / 2 ^ 24) ∷ []

-- The packed fields, as a little-endian machine lays them out.
pub octets : Block → List ℕ
octets b =
    u8 b.header ∷ bytes2 b.conf_fcnt
    ++ u8 b.dr ∷ u8 b.ch ∷ u8 b.dir ∷ bytes4 b.dev_addr
    ++ bytes4 b.fcnt
    ++ u8 b.zero8 ∷ u8 b.len_msg ∷ []

-- `memcpy` of the first bytes into an integer.
abbrev pub word2 : List ℕ → ℕ
word2 t = get_or t 0 0 + get_or t 1 0 * 2 ^ 8

abbrev pub word4 : List ℕ → ℕ
word4 t = get_or t 0 0 + get_or t 1 0 * 2 ^ 8 + get_or t 2 0 * 2 ^ 16 + get_or t 3 0 * 2 ^ 24

-- The MIC that a frame of `len` bytes ends with, as the code reads it; `none` is a read in front of
-- the array or behind its end.
abbrev pub rx_mic4 : List ℕ → ℕ → Option ℕ
rx_mic4 p len =
    if leb 4 len && leb len (length p)
    then some (
        u32 (
          u32 (
            u32 (u32 (get_or p (len - 1) 0 * 2 ^ 24) + get_or p (len - 2) 0 * 2 ^ 16)
            + get_or p (len - 3) 0 * 2 ^ 8)
          + get_or p (len - 4) 0))
    else none

abbrev pub up_block : ℕ → ℕ → ℕ → Block
up_block dev_addr fcnt len_msg = record {
  header = 0x49;
  conf_fcnt = 0;
  dr = 0;
  ch = 0;
  dir = 0;
  dev_addr = dev_addr;
  fcnt = fcnt;
  zero8 = 0;
  len_msg = u8 len_msg;
}

module _ (cmac : List ℕ → List ℕ → List ℕ) where
  pub generate_data_frame_integrity_code : Block → List ℕ → List ℕ → ℕ
  unfolding octets
  generate_data_frame_integrity_code b s_nwk_s_int_key pkt_payload =
      word4 (cmac s_nwk_s_int_key (octets b ++ take b.len_msg pkt_payload))

  unfoldable pub generate_join_frame_integrity_code : List ℕ → List ℕ → ℕ → List ℕ
  generate_join_frame_integrity_code key input data_length =
      take 4 (cmac key (take data_length input))

  -- The test of a LoRaWAN 1.0 frame, in `sNS_uplink` and in `fNS_XmitDataReq_uplink`; `fcnt_up` is
  -- the 32-bit counter, `phy` the frame and `phy_len` its length.
  -- 256 - 4 is what the subtraction of 4 from a `uint8_t` adds.
  unfoldable pub check_mic : List ℕ → ℕ → ℕ → List ℕ → ℕ → Option Bool
  unfolding generate_data_frame_integrity_code
  check_mic key dev_addr fcnt_up phy phy_len =
      let code =
        generate_data_frame_integrity_code (up_block dev_addr fcnt_up (phy_len + 252)) key phy in
      rx_mic4 phy phy_len >>= λ rx_mic. some (code == rx_mic)

  -- LoRaWAN 1.1: the two halves of the MIC. A key that is NULL is `none`; the result is `none` when
  -- something is read in front of the array or behind its end.
  unfoldable pub check_cmac_s : Block → Option (List ℕ) → List ℕ → Option Bool
  unfolding octets
  check_cmac_s b none phy = some false
  check_cmac_s b (some s_nwk_s_int_key) phy =
      let rx_mic = u16 (u16 (get_or phy (b.len_msg + 1) 0 * 2 ^ 8) + get_or phy b.len_msg 0) in
      if leb (b.len_msg + 2) (length phy)
      then some (word2 (cmac s_nwk_s_int_key (octets b ++ take b.len_msg phy)) == rx_mic)
      else none

  pub check_cmac_f : List ℕ → ℕ → ℕ → ℕ → Option (List ℕ) → Option Bool
  unfolding octets
  check_cmac_f phy phy_len dev_addr fcnt_up none = some false
  check_cmac_f phy phy_len dev_addr fcnt_up (some f_nwk_s_int_key) =
      let rx_mic = u16 (u16 (get_or phy (phy_len - 1) 0 * 2 ^ 8) + get_or phy (phy_len - 2) 0) in
      let len = u8 (phy_len + 252) in
      if leb 2 phy_len && (leb phy_len (length phy) && leb len (length phy))
      then some (
          word2 (cmac f_nwk_s_int_key (octets (up_block dev_addr fcnt_up len) ++ take len phy))
          == rx_mic)
      else none
