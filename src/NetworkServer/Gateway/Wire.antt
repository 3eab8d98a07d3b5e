-- ===== src/NetworkServer/Gateway/Wire.antt =====
-- What a gateway sends for a packet, read back by `parse_uplink` of network_server/gateway.c.
use lo_ra_wan_backend.Base.{
  ℕ, ◌+◌, ◌*◌, ◌/◌, ◌%◌, ◌^◌, ◌<◌, ◌≡◌, refl, sym, ap, ◌∙◌, arith, ltb, leb, ◌==◌, not,
  if◌then◌else◌, u8,
}
use lo_ra_wan_backend.Base.{
  List, [], ◌∷◌, ◌++◌, get_or, length, take-append_length, get_or-append_right, get_or-drop,
}
use lo_ra_wan_backend.NetworkServer.Gateway.{
  RxPkt, size_too_big, rf_too_small, unsupported_major, uplink_direct, read_pkt, parse_uplink,
}

-- A packet's fields within their widths, and as many bytes of payload as its size says.
abbrev pub IsSound : RxPkt → Type 0
IsSound p =
    (p.freq_hz < 2 ^ 32)
    × (p.if_chain < 2 ^ 8)
    × (p.status < 2 ^ 8)
    × (p.count_us < 2 ^ 32)
    × (p.rf_chain < 2 ^ 8)
    × (p.modulation < 2 ^ 8)
    × (p.bandwidth < 2 ^ 8)
    × (p.datarate < 2 ^ 32)
    × (p.coderate < 2 ^ 8)
    × (p.rssi < 2 ^ 32)
    × (p.snr < 2 ^ 32)
    × (p.snr_min < 2 ^ 32)
    × (p.snr_max < 2 ^ 32)
    × (p.crc < 2 ^ 16)
    × (p.size < 2 ^ 16)
    × (p.modem_idx < 2 ^ 8)
    × (length p.payload ≡ p.size)

abbrev byte : ℕ → ℕ → ℕ
byte n i = u8 (n / 2 ^ (8 * i))

abbrev front4 : ℕ → List ℕ → List ℕ
front4 n rest = u8 n ∷ u8 (n / 2 ^ 8) ∷ u8 (n / 2 ^ 16) ∷ u8 (n / 2 ^ 24) ∷ rest

abbrev front2 : ℕ → List ℕ → List ℕ
front2 n rest = u8 n ∷ u8 (n / 2 ^ 8) ∷ rest

-- The fields in order, little-endian, with the payload before the last.
abbrev pub to_wire : RxPkt → List ℕ
to_wire p = front4 p.freq_hz (
    p.if_chain
    ∷ p.status
    ∷ front4 p.count_us (
        p.rf_chain
        ∷ p.modulation
        ∷ p.bandwidth
        ∷ front4 p.datarate (
            p.coderate
            ∷ front4 p.rssi (
                front4 p.snr (
                  front4 p.snr_min (
                    front4 p.snr_max
                      (front2 p.crc (front2 p.size (p.payload ++ p.modem_idx ∷ [])))))))))

four :
    (n : ℕ)
    → n < 2 ^ 32
    → u8 n + u8 (n / 2 ^ 8) * 2 ^ 8 + u8 (n / 2 ^ 16) * 2 ^ 16 + u8 (n / 2 ^ 24) * 2 ^ 24 ≡ n
four n h = omega arith

two : (n : ℕ) → n < 2 ^ 16 → u8 n + u8 (n / 2 ^ 8) * 2 ^ 8 ≡ n
two n h = omega arith

last_byte : (p : RxPkt) (n : ℕ) → n ≡ length p.payload → get_or (to_wire p) (38 + n) 0 ≡ p.modem_idx
last_byte p n e =
    sym (get_or-drop 38 (to_wire p) (38 + n) n 0 refl)
    ∙ get_or-append_right p.payload (p.modem_idx ∷ []) n 0 0 (omega arith)

read_pkt-to_wire : (p : RxPkt) → IsSound p → read_pkt (to_wire p) ≡ p
read_pkt-to_wire p s =
    let f = four p.freq_hz (omega arith) in
    let c = four p.count_us (omega arith) in
    let d = four p.datarate (omega arith) in
    let r = four p.rssi (omega arith) in
    let n = four p.snr (omega arith) in
    let lo = four p.snr_min (omega arith) in
    let hi = four p.snr_max (omega arith) in
    let k = two p.crc (omega arith) in
    let z = two p.size (omega arith) in
    let count : u8 p.size + u8 (p.size / 2 ^ 8) * 2 ^ 8 ≡ length p.payload = omega (arith, z) in
    let text =
      take-append_length p.payload (p.modem_idx ∷ []) (u8 p.size + u8 (p.size / 2 ^ 8) * 2 ^ 8)
        count in
    let m = last_byte p (u8 p.size + u8 (p.size / 2 ^ 8) * 2 ^ 8) count in
    λ i. record {
      freq_hz = f i;
      if_chain = p.if_chain;
      status = p.status;
      count_us = c i;
      rf_chain = p.rf_chain;
      modulation = p.modulation;
      bandwidth = p.bandwidth;
      datarate = d i;
      coderate = p.coderate;
      rssi = r i;
      snr = n i;
      snr_min = lo i;
      snr_max = hi i;
      crc = k i;
      size = z i;
      payload = text i;
      modem_idx = m i;
    }

-- `parse_uplink` passes on the packet that the gateway sent, field by field, when its size is from 12
-- to 256 bytes and its major version 0, and else drops it for the first of these that fails.
pub parse_uplink-to_wire :
    (p : RxPkt)
    → IsSound p
    → parse_uplink (to_wire p) ≡ (
        if ltb 256 p.size
        then size_too_big
        else if leb p.size 11
        then rf_too_small
        else if not (get_or p.payload 0 0 % 4 == 0)
        then unsupported_major
        else uplink_direct p)
unfolding parse_uplink
parse_uplink-to_wire p s =
    ap
      (λ q.
        if ltb 256 q.size
        then size_too_big
        else if leb q.size 11
        then rf_too_small
        else if not (get_or q.payload 0 0 % 4 == 0)
        then unsupported_major
        else uplink_direct q)
      (read_pkt-to_wire p s)
