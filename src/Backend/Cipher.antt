-- ===== src/Backend/Cipher.antt =====
-- The payload cipher `LoRa_Encrypt` of libbackend/libserver.c and its helpers. AES is not this
-- code: the module takes it as a function of a key and a block.
pub mod Blocks
pub mod Stream
use lo_ra_wan_backend.Base.{
  ℕ, zero, suc, ◌+◌, ◌-◌, ◌*◌, ◌/◌, ◌%◌, ◌^◌, Bool, true, false, if◌then◌else◌, ltb, leb, ◌==◌,
  ◌||◌, u8, u32,
}
use lo_ra_wan_backend.Base.{
  List, [], ◌∷◌, ◌++◌, length, get_or, take, drop, replicate, Option, none, some, ◌>>=◌, bit_and,
  bit_xor,
}
use lo_ra_wan_backend.Backend.Bytes.{write4_byte_value}

-- The first `bytes` bytes of both, combined; `none` is a read behind the end of one.
pub block_ex_or : List ℕ → List ℕ → ℕ → Option (List ℕ)
block_ex_or l r zero = some []
block_ex_or (x ∷ l) (y ∷ r) (suc bytes) = do rest ← block_ex_or l r bytes; some (bit_xor x y ∷ rest)
block_ex_or [] r (suc bytes) = none
block_ex_or (x ∷ l) [] (suc bytes) = none

abbrev pub find_block_overhang : ℕ → ℕ
find_block_overhang input_data_length = bit_and input_data_length 15

abbrev pub count_blocks : ℕ → ℕ
count_blocks input_data_length =
    let in_round_down = bit_and input_data_length 0xfff0 in
    let round_up = if ltb 0 (find_block_overhang input_data_length) then 1 else 0 in
    in_round_down / 16 + round_up

-- The block `A` of round `i`.
pub counter_block : ℕ → Bool → ℕ → ℕ → List ℕ
unfolding write4_byte_value
counter_block address up sequence_number i =
    let head = 0x01 ∷ 0 ∷ 0 ∷ 0 ∷ 0 ∷ (if up then 0 else 1) ∷ [] in
    write4_byte_value (write4_byte_value head address) sequence_number ++ 0 ∷ i ∷ []

module _ (aes : List ℕ → List ℕ → List ℕ) (key : List ℕ) (address : ℕ) (up : Bool)
    (sequence_number : ℕ) where
  -- The rounds from `i` on; `none` is a read behind the input, or no fuel.
  pub encrypt_from : ℕ → ℕ → ℕ → ℕ → List ℕ → Option (List ℕ)
  unfolding block_ex_or counter_block
  encrypt_from zero blocks over i block_input = none
  encrypt_from (suc fuel) blocks over i block_input =
      let rest = encrypt_from fuel blocks over (u8 (i + 1)) (drop 16 block_input) in
      let s = aes key (counter_block address up sequence_number i) in
      let bytes_to_ex_or = if ltb i blocks || (over == 0) then 16 else over in
      if leb i blocks
      then (do here ← block_ex_or s block_input bytes_to_ex_or; more ← rest; some (here ++ more))
      else some []

  -- The bytes written to `out`. A packet has at most 255 bytes, so at most 17 rounds.
  pub lora_encrypt : ℕ → List ℕ → ℕ → Option (List ℕ)
  unfolding encrypt_from
  lora_encrypt i input input_data_length =
      let blocks = count_blocks input_data_length in
      let over = find_block_overhang input_data_length in
      if input_data_length == 0 then some [] else encrypt_from 18 blocks over i input
