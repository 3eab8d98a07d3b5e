-- ===== src/Tests/Collection.antt =====
-- The collection of uplinks and the way of a downlink to the antenna, on concrete data.
use lo_ra_wan_backend.Base.{ℕ, ◌+◌, ◌≡◌, refl, arith, true, false}
use lo_ra_wan_backend.Base.{List, [], ◌∷◌, ◌++◌, length, Option, none, some}
use lo_ra_wan_backend.NetworkServer.Token.{
  Token, IsToken, token_text, read_token, read_token-token_text,
}
use lo_ra_wan_backend.NetworkServer.Downlink.Outcome.{success}
use lo_ra_wan_backend.NetworkServer.TxPacket.{TxPkt, Gateway, user_buf}
use lo_ra_wan_backend.NetworkServer.Transmit.{mod_lora, DataRate}
use lo_ra_wan_backend.NetworkServer.Transmit.{TxRegion, fns_downlink}
use lo_ra_wan_backend.NetworkServer.TxPacket.Wire.{Carries, user_buf-Carries}
use lo_ra_wan_backend.NetworkServer.Transmit.Windows.{
  second_lora, IsWindow, class_a, frame_if, fns_downlink_windows,
}
use lo_ra_wan_backend.NetworkServer.Transmit.Lost.{fns_downlink_lost}

abbrev uplink_token : Token
uplink_token = record {
  fd = 7;
  count_us = 4_294_000_000;
  seconds_at_beacon = 1_200_000_000;
  tstamp_at_beacon = 4_200_000_000;
  lgw_trigcnt_at_next_beacon = 33;
  beacon_ch = 3;
}

uplink_token-IsToken : IsToken uplink_token
uplink_token-IsToken = omega arith

token_example : read_token (token_text uplink_token) ≡ some uplink_token
token_example = read_token-token_text uplink_token uplink_token-IsToken

abbrev gateway_at : ℕ → ℕ → Gateway
gateway_at fd eui = record {
  fd = fd;
  eui = eui;
  rf_region = 2;
  seconds_at_beacon = 1_200_000_000;
  tstamp_at_beacon = 4_200_000_000;
  lgw_trigcnt_at_next_beacon = 33;
  beacon_ch = 3;
}

abbrev sf7 : DataRate
sf7 = record { lgw_bw = 3; lgw_sf_bps = 2; fdev_khz = 0 }

abbrev fsk50 : DataRate
fsk50 = record { lgw_bw = 0; lgw_sf_bps = 50; fdev_khz = 25 }

abbrev europe : TxRegion
europe = record { rf_region = 2; dl_tx_dbm = 14; datarates = sf7 ∷ fsk50 ∷ []; num_datarates = 2 }

abbrev empty_pkt : TxPkt
empty_pkt = record {
  freq_hz = 868_100_000;
  tx_mode = 0;
  count_us = 5;
  rf_power = 14;
  modulation = 0x10;
  bandwidth = 3;
  datarate = 2;
  coderate = 1;
  invert_pol = true;
  f_dev = 0;
  preamble = 8;
  no_crc = true;
  no_header = false;
  size = 3;
  payload = 1 ∷ 2 ∷ 3 ∷ [];
  modem_idx = 0;
}

wire_example : Carries empty_pkt (user_buf empty_pkt)
wire_example = user_buf-Carries empty_pkt (omega arith)

abbrev all_taken : ℕ → List ℕ → Option ℕ
all_taken fd bytes = some (length bytes)

abbrev none_taken : ℕ → List ℕ → Option ℕ
none_taken fd bytes = none

abbrev frame : List ℕ
frame = 0x60 ∷ 1 ∷ 0 ∷ 0 ∷ 0x26 ∷ 0 ∷ 0 ∷ 0 ∷ 9 ∷ 9 ∷ 9 ∷ 9 ∷ []

abbrev no_aes : List ℕ → List ℕ → List ℕ
no_aes key block = block

windows_example :
    (p1 p2 : TxPkt) × IsWindow europe uplink_token frame 1 868_100_000 1 mod_lora p1
    × IsWindow europe uplink_token frame (1 + 1) 869_525_000 0 (second_lora europe 868_100_000 1) p2
    × (fns_downlink all_taken no_aes false 0
          (λ slot. slot)
          false
          ((gateway_at 5 50 ∷ []) ++ gateway_at 7 70 ∷ [])
          ([] ++ europe ∷ [])
          empty_pkt
          (class_a uplink_token 1 868_100_000 1 869_525_000 0)
          frame
        ≡ some record {
          result = success;
          written =
              frame_if 868_100_000 (gateway_at 7 70) p1
              ++ frame_if 869_525_000 (gateway_at 7 70) p2;
          deferred = none;
        })
windows_example =
    fns_downlink_windows all_taken (λ fd bytes. refl) (gateway_at 7 70) (gateway_at 5 50 ∷ []) []
      no_aes 0 (λ slot. slot) false europe [] [] empty_pkt uplink_token 1 868_100_000 1 869_525_000
      0 frame uplink_token-IsToken refl refl (omega arith) tt tt (omega arith) (omega arith)
      (omega arith) (omega arith)

lost_example :
    fns_downlink none_taken no_aes false 0
      (λ slot. slot)
      false
      ((gateway_at 5 50 ∷ []) ++ gateway_at 7 70 ∷ [])
      ([] ++ europe ∷ [])
      empty_pkt
      (class_a uplink_token 1 868_100_000 1 869_525_000 0)
      frame
    ≡ some record { result = success; written = []; deferred = none }
lost_example =
    fns_downlink_lost none_taken (λ fd bytes. refl) (gateway_at 7 70) (gateway_at 5 50 ∷ []) []
      no_aes 0 (λ slot. slot) false europe [] [] empty_pkt uplink_token 1 868_100_000 1 869_525_000
      0 frame uplink_token-IsToken refl refl (omega arith) tt tt (omega arith) (omega arith)
      (omega arith)
