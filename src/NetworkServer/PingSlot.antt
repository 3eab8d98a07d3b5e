-- ===== src/NetworkServer/PingSlot.antt =====
-- Class B: `LoRaMacBeaconComputePingOffset` of network_server/sNS.c, and the choice of the ping slot in
-- `fNS_downlink` of network_server/fNS.c. AES is not this code: it is a parameter.
use lo_ra_wan_backend.Base.{
  ℕ, zero, suc, ◌+◌, ◌*◌, ◌/◌, ◌%◌, ◌^◌, ◌<◌, ◌≤◌, ◌≡◌, refl, arith, if◌then◌else◌, ltb, true,
  false,
}
use lo_ra_wan_backend.Base.{
  List, ◌∷◌, replicate, get_or, Option, none, some, bit_and, u16, u32, ◌⊎◌, inl, inr,
}
use native.Mathlib.Decide.{dec_lt}
use native.Mathlib.Nat.{mod-lt}

-- `buffer`: the time and the address, little-endian, and zeros.
pub ping_block : ℕ → ℕ → List ℕ
ping_block beacon_time address =
    let time = beacon_time % 2 ^ 32 in
    bit_and time 0xff
    ∷ bit_and (time / 2 ^ 8) 0xff
    ∷ bit_and (time / 2 ^ 16) 0xff
    ∷ bit_and (time / 2 ^ 24) 0xff
    ∷ bit_and address 0xff
    ∷ bit_and (address / 2 ^ 8) 0xff
    ∷ bit_and (address / 2 ^ 16) 0xff
    ∷ bit_and (address / 2 ^ 24) 0xff
    ∷ replicate 8 0

pub compute_ping_offset : (List ℕ → List ℕ → List ℕ) → ℕ → ℕ → ℕ → ℕ
unfolding ping_block
compute_ping_offset aes beacon_time address ping_period =
    let cipher = aes (replicate 16 0) (ping_block beacon_time address) in
    let result = u32 (get_or cipher 0 0 + get_or cipher 1 0 * 256) in u16 (result % ping_period)

-- `while (_use_pingslot < (now_pingslot+5)) _use_pingslot += PingPeriod;` where `limit` is
-- `now_pingslot+5`, or zero when that is negative; `none` is no fuel.
pub advance : ℕ → ℕ → ℕ → ℕ → Option ℕ
advance zero limit ping_period use_pingslot = none
advance (suc fuel) limit ping_period use_pingslot =
    let rest = advance fuel limit ping_period (u16 (use_pingslot + ping_period)) in
    if ltb use_pingslot limit then rest else some use_pingslot

pub use_pingslot : ℕ → ℕ → ℕ → Option ℕ
unfolding advance
use_pingslot limit ping_period ping_offset = advance (suc limit) limit ping_period ping_offset

-- The slot is the mote's, a number of periods after `from`, and the first that is not before the
-- limit.
pub record FirstSlot (limit ping_period from : ℕ) (result : Option ℕ) : Type 0 where
  pub slot : ℕ
  pub returns : result ≡ some slot
  pub turns : ℕ
  pub own : slot ≡ from + turns * ping_period
  pub late : limit ≤ slot
  pub first : (slot ≡ from) ⊎ (slot < limit + ping_period)

one_turn :
    {limit ping_period u : ℕ} {result : Option ℕ}
    → u < limit
    → FirstSlot limit ping_period (u + ping_period) result
    → FirstSlot limit ping_period u result
one_turn h r = record {
  slot = r.slot;
  returns = r.returns;
  turns = suc r.turns;
  own = omega (arith, r.own);
  late = r.late;
  first = elim r.first [ inl at ↦ inr (omega (arith, at)) | inr below ↦ inr below ];
}

advance_lem :
    (fuel limit ping_period u : ℕ)
    → 0 < ping_period
    → limit + ping_period ≤ 2 ^ 16
    → limit < fuel + u
    → 0 < fuel
    → FirstSlot limit ping_period u (advance fuel limit ping_period u)
unfolding advance
advance_lem zero limit p u pos word f k = absurd (omega arith)
advance_lem (suc fuel) limit p u pos word f k = elim (dec_lt u limit) [
  | yes early ↦
      let test : ltb u limit ≡ true = ground arith in
      let whole : u16 (u + p) ≡ u + p = omega arith in
      rw (test, whole)
        (one_turn early (advance_lem fuel limit p (u + p) pos word (omega arith) (omega arith)))
  | no now ↦
      let test : ltb u limit ≡ false = ground arith in
      record {
        slot = u;
        returns = rw test;
        turns = 0;
        own = omega arith;
        late = omega arith;
        first = inl refl;
      }
]

pub ping_offset-lt :
    (aes : List ℕ → List ℕ → List ℕ) (beacon_time address ping_period : ℕ)
    → 0 < ping_period
    → compute_ping_offset aes beacon_time address ping_period < ping_period
unfolding compute_ping_offset
ping_offset-lt aes t a p h =
    let cipher : List ℕ = aes (replicate 16 0) (ping_block t a) in
    let result : ℕ = u32 (get_or cipher 0 0 + get_or cipher 1 0 * 256) in
    omega (arith, mod-lt result h)

-- For any ping period up to 2^12 and a limit that comes from an `int16_t`, the loop ends without
-- wrapping its 16-bit counter, at the first slot of the mote that is not before the limit; the
-- mote's slots are its offset, below the period, and multiples of the period after it.
pub ping_slot_lem :
    (aes : List ℕ → List ℕ → List ℕ) (beacon_time address ping_period limit : ℕ)
    → 0 < ping_period
    → ping_period ≤ 2 ^ 12
    → limit < 2 ^ 15 + 5
    → (compute_ping_offset aes beacon_time address ping_period < ping_period)
      × FirstSlot limit ping_period
          (compute_ping_offset aes beacon_time address ping_period)
          (use_pingslot limit ping_period (compute_ping_offset aes beacon_time address ping_period))
unfolding use_pingslot
ping_slot_lem aes t a p limit pos most int = (
  ping_offset-lt aes t a p pos,
  advance_lem (suc limit) limit p (compute_ping_offset aes t a p) pos (omega arith) (omega arith)
      (omega arith),
)
