-- ===== src/Tests/Shared.antt =====
-- The shared code of libbackend/libserver.c on concrete data.
use lo_ra_wan_backend.Base.{
  ℕ, ◌≡◌, ◌⊎◌, true, false, some, none, List, [], ◌∷◌, ◌++◌, length, take, replicate, arith, ◌+◌,
  ◌*◌, ◌^◌, ◌<◌, ◌≤◌, length-take, length-append, ap, ◌∙◌,
}
use lo_ra_wan_backend.Backend.DevAddr.{parse_dev_addr}
use lo_ra_wan_backend.Backend.DevAddr.Space.{Owns, parse_dev_addr-address_space}
use lo_ra_wan_backend.Backend.DevAddr.Total.{IsParsed, parse_dev_addr_total}
use lo_ra_wan_backend.Backend.Cipher.{lora_encrypt}
use lo_ra_wan_backend.Backend.Cipher.Blocks.{Combined}
use lo_ra_wan_backend.Backend.Cipher.Stream.{
  key_stream, lora_encrypt_round_trip, lora_encrypt_overrun,
}

abbrev hex_text : List ℕ
hex_text = b'0' ∷ b'a' ∷ b'F' ∷ b'f' ∷ []

abbrev two_bytes : List ℕ
two_bytes = 0x0a ∷ 0xff ∷ []

abbrev eui : List ℕ
eui = 1 ∷ 2 ∷ 3 ∷ 4 ∷ 5 ∷ 6 ∷ 7 ∷ 0xf8 ∷ []

address_space_example : Owns (3 * 2 ^ 21 + 0x155)
address_space_example =
    parse_dev_addr-address_space (3 * 2 ^ 21 + 0x155) (omega arith) (omega arith)

total_example :
    ((0xfe00_0981 < 0xff00_0000) × IsParsed (parse_dev_addr 0xfe00_0981))
    ⊎ ((0xff00_0000 ≤ 0xfe00_0981) × (parse_dev_addr 0xfe00_0981 ≡ none))
total_example = parse_dev_addr_total 0xfe00_0981 (omega arith)

-- A function that stands for AES: the key's bytes in front of the block's.
abbrev toy_aes : List ℕ → List ℕ → List ℕ
toy_aes key block = take 16 (key ++ (block ++ replicate 16 0x33))

toy_aes_size : (key block : List ℕ) → length (toy_aes key block) ≡ 16
toy_aes_size key block =
    let whole : List ℕ = key ++ (block ++ replicate 16 0x33) in
    let rest : length (block ++ replicate 16 0x33) ≡ length block + 16 =
      length-append block (replicate 16 0x33) in
    let count : length whole ≡ length key + (length block + 16) =
      length-append key (block ++ replicate 16 0x33) ∙ ap (λ (n : ℕ). length key + n) rest in
    length-take 16 whole ∙ omega (arith, count)

abbrev packet : List ℕ
packet = eui ++ eui ++ eui

encrypt_example :
    (sent : Combined
      (length packet)
      (key_stream toy_aes toy_aes_size eui 0x2600_0001 true 9 1)
      packet
      (lora_encrypt toy_aes eui 0x2600_0001 true 9 1 packet (length packet)))
    × (lora_encrypt toy_aes eui 0x2600_0001 true 9 1 sent.out (length packet) ≡ some packet)
encrypt_example =
    lora_encrypt_round_trip toy_aes toy_aes_size eui 0x2600_0001 true 9 packet (omega arith)
      (omega arith)

overrun_example :
    Combined
      (16 + 5)
      (key_stream toy_aes toy_aes_size eui 0x2600_0001 false 9 0)
      packet
      (lora_encrypt toy_aes eui 0x2600_0001 false 9 0 packet 5)
overrun_example =
    lora_encrypt_overrun toy_aes toy_aes_size eui 0x2600_0001 false 9 packet 5 (omega arith)
      (omega arith) (omega arith)
