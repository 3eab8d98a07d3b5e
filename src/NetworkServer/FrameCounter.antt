-- ===== src/NetworkServer/FrameCounter.antt =====
-- The 32-bit uplink frame counter from the 16 bits of a frame, and the replay test, which
-- `sNS_uplink` of network_server/sNS.c and `fNS_XmitDataReq_uplink` of network_server/fNS.c write alike.
use lo_ra_wan_backend.Base.{ℕ, ◌+◌, ◌-◌, ◌*◌, ◌/◌, ◌%◌, ◌^◌, ◌<◌, ◌≤◌, ◌≡◌, arith}
use lo_ra_wan_backend.Base.{
  Bool, ◌&&◌, if◌then◌else◌, ltb, leb, Option, none, some, u32, bit_and, bit_or,
}
use lo_ra_wan_backend.Base.{◌⊎◌}
use lo_ra_wan_backend.Base.Bits.{bit_or_concat, bit_and_mask, bit_and_shifted}

abbrev pub max_fcnt_gap : ℕ
max_fcnt_gap = 0x4000

-- An `int` by its 32 bits: below zero, and above the (positive) gap.
abbrev pub negative : ℕ → Bool
negative a = leb (2 ^ 31) a

abbrev pub exceeds_gap : ℕ → Bool
exceeds_gap a = ltb max_fcnt_gap a && ltb a (2 ^ 31)

-- `(session.FCntUp & 0xffff0000) | FCnt`
abbrev pub rx_fcnt32 : ℕ → ℕ → ℕ
rx_fcnt32 session_fcnt_up fcnt = bit_or (bit_and session_fcnt_up 0xffff_0000) fcnt

-- The counter that is used from here on; `none` is a replay.
pub uplink_fcnt : ℕ → ℕ → Option ℕ
uplink_fcnt session_fcnt_up fcnt =
    let fcnt_up = rx_fcnt32 session_fcnt_up fcnt in
    let a = u32 (fcnt_up + (2 ^ 32 - session_fcnt_up)) in
    let b = u32 (u32 (fcnt_up + 0x1_0000) + (2 ^ 32 - session_fcnt_up)) in
    if negative a && exceeds_gap b
    then none
    else if exceeds_gap a && exceeds_gap b
    then none
    else some fcnt_up

rx_fcnt32_eq :
    (session fcnt : ℕ)
    → session < 2 ^ 32
    → fcnt < 2 ^ 16
    → rx_fcnt32 session fcnt ≡ session / 2 ^ 16 * 2 ^ 16 + fcnt
rx_fcnt32_eq session fcnt h k =
    let high : bit_and session 0xffff_0000 ≡ session / 2 ^ 16 * 2 ^ 16 =
      omega (arith, bit_and_shifted 16 session 0xffff, bit_and_mask 16 (session / 2 ^ 16)) in
    rw high (bit_or_concat 16 (session / 2 ^ 16) fcnt k)

-- The 16 bits are at most 0x4000 ahead of those of the last counter, with wrap-around.
abbrev pub in_window : ℕ → ℕ → Bool
in_window session fcnt = leb ((fcnt + (2 ^ 16 - session % 2 ^ 16)) % 2 ^ 16) max_fcnt_gap

-- A frame passes exactly when its 16 bits are at most 0x4000 ahead of those of the last counter,
-- modulo 2^16; its counter is then the last one with these 16 bits put in place of its own, so it
-- never has the high half of the next 2^16 frames.
pub uplink_fcnt_lem :
    (session fcnt : ℕ)
    → session < 2 ^ 32
    → fcnt < 2 ^ 16
    → uplink_fcnt session fcnt
      ≡ (if in_window session fcnt then some (session / 2 ^ 16 * 2 ^ 16 + fcnt) else none)
unfolding uplink_fcnt
uplink_fcnt_lem session fcnt h k = rw (rx_fcnt32_eq session fcnt h k) (ground arith)

-- A frame in the window that does not pass a multiple of 2^16 gets the counter of the end device,
-- at most 0x4000 ahead of the last; one behind a multiple of 2^16 passes with a counter that is
-- 2^16 too low, below the last one.
pub uplink_fcnt_rollover :
    (session ahead : ℕ)
    → session + ahead < 2 ^ 32
    → ahead ≤ max_fcnt_gap
    → ((session % 2 ^ 16 + ahead < 2 ^ 16)
        × (uplink_fcnt session ((session + ahead) % 2 ^ 16) ≡ some (session + ahead)))
      ⊎ ((2 ^ 16 ≤ session % 2 ^ 16 + ahead)
          × (uplink_fcnt session ((session + ahead) % 2 ^ 16) ≡ some (session + ahead - 2 ^ 16))
          × (session + ahead - 2 ^ 16 < session))
uplink_fcnt_rollover session ahead h k =
    ground (arith, uplink_fcnt_lem session ((session + ahead) % 2 ^ 16) (omega arith) (omega arith))
