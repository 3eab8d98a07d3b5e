-- ===== src/NetworkServer/Gateway.antt =====
-- The report of a received packet from a gateway: `parse_uplink` of network_server/gateway.c. A float is
-- the number of its four bytes. A byte behind the buffer reads as 0.
pub mod Wire
use lo_ra_wan_backend.Base.{
  ℕ, zero, suc, ◌+◌, ◌*◌, ◌/◌, ◌%◌, ◌^◌, ltb, leb, ◌==◌, not, if◌then◌else◌, Bool, true, false,
}
use lo_ra_wan_backend.Base.{List, [], ◌∷◌, ◌++◌, get_or, take, drop}

pub record RxPkt : Type 0 where
  pub freq_hz : ℕ
  pub if_chain : ℕ
  pub status : ℕ
  pub count_us : ℕ
  pub rf_chain : ℕ
  pub modulation : ℕ
  pub bandwidth : ℕ
  pub datarate : ℕ
  pub coderate : ℕ
  pub rssi : ℕ
  pub snr : ℕ
  pub snr_min : ℕ
  pub snr_max : ℕ
  pub crc : ℕ
  pub size : ℕ
  pub payload : List ℕ
  pub modem_idx : ℕ

-- The four ends of the function.
pub data Outcome : Type 0 where
  size_too_big rf_too_small unsupported_major : Outcome
  uplink_direct : RxPkt → Outcome

abbrev read2 : List ℕ → ℕ → ℕ
read2 b i = get_or b i 0 + get_or b (i + 1) 0 * 2 ^ 8

abbrev read4 : List ℕ → ℕ → ℕ
read4 b i =
    get_or b i 0
    + get_or b (i + 1) 0 * 2 ^ 8
    + get_or b (i + 2) 0 * 2 ^ 16
    + get_or b (i + 3) 0 * 2 ^ 24

abbrev read_pkt : List ℕ → RxPkt
read_pkt b = record {
  freq_hz = read4 b 0;
  if_chain = get_or b 4 0;
  status = get_or b 5 0;
  count_us = read4 b 6;
  rf_chain = get_or b 10 0;
  modulation = get_or b 11 0;
  bandwidth = get_or b 12 0;
  datarate = read4 b 13;
  coderate = get_or b 17 0;
  rssi = read4 b 18;
  snr = read4 b 22;
  snr_min = read4 b 26;
  snr_max = read4 b 30;
  crc = read2 b 34;
  size = read2 b 36;
  payload = take (read2 b 36) (drop 38 b);
  modem_idx = get_or b (38 + read2 b 36) 0;
}

-- 7 bytes of frame header and 4 of the integrity code.
pub parse_uplink : List ℕ → Outcome
parse_uplink user_buf =
    let p = read_pkt user_buf in
    if ltb 256 p.size
    then size_too_big
    else if leb p.size (7 + 4)
    then rf_too_small
    else if not (get_or p.payload 0 0 % 4 == 0)
    then unsupported_major
    else uplink_direct p
