-- ===== src/Backend/Cipher/Stream.antt =====
-- What `LoRa_Encrypt` of libbackend/libserver.c writes, byte by byte, for any AES whose blocks have
-- 16 bytes.
use lo_ra_wan_backend.Base.{
  ℕ, zero, suc, ◌+◌, ◌-◌, ◌*◌, ◌/◌, ◌%◌, ◌<◌, ◌≤◌, ◌≡◌, refl, ap, ap₂, ◌∙◌, arith,
}
use lo_ra_wan_backend.Base.{
  Bool, true, if◌then◌else◌, ltb, leb, ◌==◌, ◌||◌, u8, Option, some, ◌>>=◌, bit_xor,
}
use lo_ra_wan_backend.Base.{List, [], ◌++◌, length, get_or, drop, length-drop, same_elements}
use lo_ra_wan_backend.Base.Bits.{bit_xor_cancel, bit_xor_comm, bit_and_mask, bit_and_shifted}
use lo_ra_wan_backend.Backend.Cipher.Blocks.{Combined, block_ex_or_lem, join_block, restream, moved}
use lo_ra_wan_backend.Backend.Cipher.{
  block_ex_or, find_block_overhang, count_blocks, counter_block, encrypt_from, lora_encrypt,
}

-- The bytes of the last block.
abbrev last_bytes : ℕ → ℕ
last_bytes over = if over == 0 then 16 else over

count_blocks_eq : (len : ℕ) → len < 256 → count_blocks len ≡ (len + 15) / 16
count_blocks_eq len h =
    ground (arith, bit_and_mask 4 len, bit_and_shifted 4 len 0xfff, bit_and_mask 12 (len / 16))

pub xor_twice : (s b : ℕ) → bit_xor s (bit_xor s b) ≡ b
xor_twice s b =
    bit_xor_comm s (bit_xor s b)
    ∙ ap (λ (t : ℕ). bit_xor t s) (bit_xor_comm s b)
    ∙ bit_xor_cancel b s

module _ (aes : List ℕ → List ℕ → List ℕ)
    (block_size : (key block : List ℕ) → length (aes key block) ≡ 16) (key : List ℕ) (address : ℕ)
    (up : Bool) (sequence_number : ℕ) where
  -- The key stream of the rounds from `i` on.
  abbrev pub key_stream : ℕ → ℕ → ℕ
  key_stream i j =
      get_or (aes key (counter_block address up sequence_number (i + j / 16))) (j % 16) 0

  abbrev block : ℕ → List ℕ
  block i = aes key (counter_block address up sequence_number i)

  block-key_stream : (i j : ℕ) → j < 16 → get_or (block i) j 0 ≡ key_stream i j
  block-key_stream i j h =
      ap₂ (λ (r k : ℕ). get_or (block r) k 0) {x = i} {y = i + j / 16} {u = j} {v = j % 16}
        (omega arith) (omega arith)

  next_stream : (i j : ℕ) → key_stream i (16 + j) ≡ key_stream (i + 1) j
  next_stream i j =
      ap₂ (λ (r k : ℕ). get_or (block r) k 0) {x = i + (16 + j) / 16} {y = i + 1 + j / 16}
        {u = (16 + j) % 16} {v = j % 16} (omega arith) (omega arith)

  one_block :
      (i n : ℕ) (input : List ℕ)
      → n ≤ 16
      → n ≤ length input
      → Combined n (key_stream i) input (block_ex_or (block i) input n)
  one_block i n input h k =
      restream (λ j. get_or (block i) j 0) (key_stream i)
        (λ j p. block-key_stream i j (omega arith))
        (block_ex_or_lem (block i) input n
          (omega (arith, block_size key (counter_block address up sequence_number i))) k)

  abbrev rounds : ℕ → ℕ → ℕ → ℕ → List ℕ → Option (List ℕ)
  rounds = encrypt_from aes key address up sequence_number

  rounds_done :
      (fuel blocks over i : ℕ) (input : List ℕ)
      → blocks < i
      → rounds (suc fuel) blocks over i input ≡ some []
  unfolding encrypt_from
  rounds_done fuel blocks over i input h = ground arith

  rounds_step :
      (fuel blocks over i n : ℕ) (input : List ℕ)
      → i ≤ blocks
      → i < 255
      → (if ltb i blocks || (over == 0) then 16 else over) ≡ n
      → rounds (suc fuel) blocks over i input ≡ (
          block_ex_or (block i) input n >>= λ here.
          rounds fuel blocks over (i + 1) (drop 16 input) >>= λ more. some (here ++ more))
  unfolding encrypt_from
  rounds_step fuel blocks over i n input h small e =
      let test : leb i blocks ≡ true = ground arith in
      let byte : u8 (i + 1) ≡ i + 1 = omega arith in rw (test, byte, e)

  rounds_lem :
      (fuel n blocks over i : ℕ) (input : List ℕ)
      → i + n ≡ blocks
      → blocks < 255
      → n + 2 ≤ fuel
      → over < 16
      → n * 16 + last_bytes over ≤ length input
      → Combined (n * 16 + last_bytes over) (key_stream i) input (rounds fuel blocks over i input)
  rounds_lem zero n blocks over i input e b f o len = absurd (omega arith)
  rounds_lem (suc zero) n blocks over i input e b f o len = absurd (omega arith)
  rounds_lem (suc (suc fuel)) zero blocks over i input e b f o len =
      moved (omega arith)
        (rounds_step (suc fuel) blocks over i (last_bytes over) input (omega arith) (omega arith)
          (ground arith))
        (join_block (last_bytes over) 0 (key_stream i) (key_stream i) input _ _
          (one_block i (last_bytes over) input (ground arith) (omega (arith, len)))
          record {
            out = [];
            returns = rounds_done fuel blocks over (i + 1) (drop 16 input) (omega arith);
            size = refl;
            bytes = λ j h. absurd (omega arith);
          }
          (λ j h. absurd (omega arith)))
  rounds_lem (suc (suc fuel)) (suc n) blocks over i input e b f o len =
      moved (omega arith)
        (rounds_step (suc fuel) blocks over i 16 input (omega arith) (omega arith) (ground arith))
        (join_block 16 (n * 16 + last_bytes over) (key_stream i) (key_stream (i + 1)) input _ _
          (one_block i 16 input (omega arith) (omega (arith, len)))
          (rounds_lem (suc fuel) n blocks over (i + 1) (drop 16 input) (omega arith) b (omega arith)
            o (omega (arith, len, length-drop 16 input)))
          (λ j h. next_stream i j))

  -- `LoRa_Encrypt` counting from `i`: it writes `count` bytes.
  encrypt_lem :
      (i len count : ℕ) (input : List ℕ)
      → i ≤ 1
      → 0 < len
      → len < 256
      → count ≡ (1 - i) * 16 + len
      → count ≤ length input
      → Combined count
          (key_stream i)
          input
          (lora_encrypt aes key address up sequence_number i input len)
  unfolding lora_encrypt
  encrypt_lem i len count input h p q e fits =
      let over : find_block_overhang len ≡ len % 16 = bit_and_mask 4 len in
      let blocks : count_blocks len ≡ (len + 15) / 16 = count_blocks_eq len q in
      moved (ground (arith, over, blocks)) (ground arith) (
        rounds_lem 18 (count_blocks len - i) (count_blocks len) (find_block_overhang len) i input
          (omega (arith, blocks)) (omega (arith, blocks)) (omega (arith, blocks))
          (omega (arith, over)) (ground (arith, over, blocks, e, fits)))

  -- With `i` 1 and any AES of 16-byte blocks, `LoRa_Encrypt` returns for a packet of up to 255
  -- bytes as many bytes, each combined with that of the key stream; and encrypting again gives the
  -- packet back.
  pub lora_encrypt_round_trip :
      (input : List ℕ)
      → 0 < length input
      → length input < 256
      → (sent : Combined
          (length input)
          (key_stream 1)
          input
          (lora_encrypt aes key address up sequence_number 1 input (length input)))
        × (lora_encrypt aes key address up sequence_number 1 sent.out (length input) ≡ some input)
  lora_encrypt_round_trip input p q =
      let sent =
        encrypt_lem 1 (length input) (length input) input (omega arith) p q (omega arith)
          (omega arith) in
      let back =
        encrypt_lem 1 (length input) (length input) sent.out (omega arith) p q (omega arith)
          (omega (arith, sent.size)) in
      (
        sent,
        back.returns
            ∙ ap some (
                same_elements back.out input 0 back.size (λ j h.
                  back.bytes j h
                  ∙ ap (bit_xor (key_stream 1 j)) (sent.bytes j h)
                  ∙ xor_twice (key_stream 1 j) (get_or input j 0))),
      )

  -- With `i` 0, as for the FOpts, `LoRa_Encrypt` makes a round more: it reads and writes 16 bytes
  -- more than the length that it is given.
  pub lora_encrypt_overrun :
      (input : List ℕ) (len : ℕ)
      → 0 < len
      → len < 256
      → 16 + len ≤ length input
      → Combined
          (16 + len)
          (key_stream 0)
          input
          (lora_encrypt aes key address up sequence_number 0 input len)
  lora_encrypt_overrun input len p q fits =
      encrypt_lem 0 len (16 + len) input (omega arith) p q (omega arith) fits

  -- From 0 or 1 on, any length up to 255 bytes is encrypted, when the input goes on long enough.
  pub lora_encrypt_total :
      (i len : ℕ) (input : List ℕ)
      → i ≤ 1
      → len < 256
      → (1 - i) * 16 + len ≤ length input
      → (out : List ℕ) × (lora_encrypt aes key address up sequence_number i input len ≡ some out)
  unfolding lora_encrypt
  lora_encrypt_total i zero input h q fits = ([], refl)
  lora_encrypt_total i (suc len) input h q fits =
      let r = encrypt_lem i (suc len) ((1 - i) * 16 + suc len) input h (omega arith) q refl fits in
      (r.out, r.returns)
