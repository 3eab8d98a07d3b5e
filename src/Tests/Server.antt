-- ===== src/Tests/Server.antt =====
-- The network server's functions on concrete frames, addresses and requests (network_server/).
use lo_ra_wan_backend.Base.{
  ℕ, ◌≡◌, refl, ◌↔◌, ◌⊎◌, true, false, Bool, some, none, Option, List, [], ◌∷◌, ◌++◌, length, take,
  set, All, ◌==◌, replicate, arith, if◌then◌else◌, u32, ◌+◌, ◌-◌, ◌*◌, ◌/◌, ◌%◌, ◌^◌, ◌<◌, ◌≤◌,
}
use lo_ra_wan_backend.NetworkServer.FrameCounter.{
  in_window, uplink_fcnt, uplink_fcnt_lem, uplink_fcnt_rollover,
}
use lo_ra_wan_backend.NetworkServer.Integrity.{octets, up_block, check_mic}
use lo_ra_wan_backend.NetworkServer.Integrity.Checks.{check_mic_lem}
use lo_ra_wan_backend.NetworkServer.Assign.{Search, get_dev_addr, get_dev_addr_lem}
use lo_ra_wan_backend.NetworkServer.Transactions.{
  Transactions, next_tid, next_tid_lem, IsFirstFree, IsOldest,
}
use lo_ra_wan_backend.NetworkServer.PingSlot.{
  compute_ping_offset, use_pingslot, FirstSlot, ping_slot_lem,
}

fcnt_example :
    uplink_fcnt 0x1_fffe 0x2001
    ≡ (if in_window 0x1_fffe 0x2001 then some (0x1_fffe / 2 ^ 16 * 2 ^ 16 + 0x2001) else none)
fcnt_example = uplink_fcnt_lem 0x1_fffe 0x2001 (omega arith) (omega arith)

-- The frame after 0x1ffff gets the counter 0x10000.
rollover_example :
    ((0x1_ffff % 2 ^ 16 + 1 < 2 ^ 16)
      × (uplink_fcnt 0x1_ffff ((0x1_ffff + 1) % 2 ^ 16) ≡ some (0x1_ffff + 1)))
    ⊎ ((2 ^ 16 ≤ 0x1_ffff % 2 ^ 16 + 1)
        × (uplink_fcnt 0x1_ffff ((0x1_ffff + 1) % 2 ^ 16) ≡ some (0x1_ffff + 1 - 2 ^ 16))
        × (0x1_ffff + 1 - 2 ^ 16 < 0x1_ffff))
rollover_example = uplink_fcnt_rollover 0x1_ffff 1 (omega arith) (omega arith)

-- A code that stands for CMAC: the sum of the message, and constants.
abbrev total : List ℕ → ℕ
total [] = 0
total (b ∷ bs) = b + total bs

abbrev toy_mac : List ℕ → List ℕ → List ℕ
toy_mac key msg = total key % 256 ∷ total msg % 256 ∷ length msg % 256 ∷ replicate 13 0x5a

toy_mac_bytes : (key msg : List ℕ) → All (λ b. b < 256) (toy_mac key msg)
toy_mac_bytes key msg = omega arith

abbrev frame : List ℕ
frame = 0x40 ∷ 1 ∷ 0 ∷ 0 ∷ 0x26 ∷ 0 ∷ 7 ∷ 0 ∷ 1 ∷ 0xaa ∷ []

check_mic_example :
    (check_mic toy_mac
        (9 ∷ [])
        0x2600_0001
        7
        (frame ++ 9 ∷ 0x2c ∷ 26 ∷ 0x5a ∷ [])
        (length frame + 4)
      ≡ some true)
    ↔ (9 ∷ 0x2c ∷ 26 ∷ 0x5a ∷ []
        ≡ take 4 (toy_mac (9 ∷ []) (octets (up_block 0x2600_0001 7 (length frame)) ++ frame)))
check_mic_example =
    check_mic_lem toy_mac (λ key msg. refl) toy_mac_bytes (9 ∷ []) frame (9 ∷ 0x2c ∷ 26 ∷ 0x5a ∷ [])
      0x2600_0001 7 (omega arith) (refl, omega arith)

-- The database has the address with NwkAddr 1, and fails from NwkAddr 5 on.
abbrev sessions : ℕ → Option Bool
sessions dev_addr =
    if dev_addr == 0xfe00_0981
    then some true
    else if dev_addr == 0xfe00_0985
    then none
    else some false

abbrev motes : List (Option ℕ)
motes = none ∷ some 0xfe00_0980 ∷ []

get_dev_addr_example :
    Search sessions motes 0xfe00_0980 0 (2 ^ 7 - 1) 0 (get_dev_addr sessions motes 0xfe00_0980 7 0)
get_dev_addr_example = get_dev_addr_lem sessions motes 0xfe00_0980 7 0 (omega arith)

abbrev both_busy : Transactions
both_busy = record {
  t =
      record { sent_tid = 12; ans_callback = some 1 }
      ∷ record { sent_tid = 11; ans_callback = some 2 }
      ∷ [];
  next_req_tid = 12;
}

next_tid_example :
    (n : ℕ) × (next_tid both_busy 3 ≡ (
      record {
        t = set both_busy.t n (record { sent_tid = u32 (12 + 1); ans_callback = some 3 });
        next_req_tid = u32 (12 + 1);
      },
      u32 (12 + 1),
    ))
    × (IsFirstFree both_busy.t n ⊎ IsOldest both_busy.t n)
next_tid_example = next_tid_lem both_busy 3 (omega arith)

ping_slot_example :
    (compute_ping_offset toy_mac 1000 0x2600_0001 32 < 32)
    × FirstSlot 700 32
        (compute_ping_offset toy_mac 1000 0x2600_0001 32)
        (use_pingslot 700 32 (compute_ping_offset toy_mac 1000 0x2600_0001 32))
ping_slot_example =
    ping_slot_lem toy_mac 1000 0x2600_0001 32 700 (omega arith) (omega arith) (omega arith)
