-- ===== src/JoinServer/Keys.antt =====
-- The key derivations and `CryptJoinServer` of join_server/main.c. AES is not this code: the module
-- takes both its directions as functions of a key and a block.
use lo_ra_wan_backend.Base.{
  ℕ, ◌+◌, ◌-◌, ◌*◌, ◌/◌, ◌^◌, ◌≤◌, ◌<◌, ◌≡◌, refl, ap, sym, ◌∙◌, arith, u8,
}
use lo_ra_wan_backend.Base.{
  Bool, true, false, if◌then◌else◌, leb, List, [], ◌∷◌, ◌++◌, length, length-take, length-drop,
  length-append, take-append_length, drop-append_length, get_or, take, drop, replicate,
}
use lo_ra_wan_backend.Backend.Bytes.{write1_byte_value, write2_byte_value, write3_byte_value}

pub data KeyType : Type 0 where
  f_nwk_s_int_key s_nwk_s_int_key nwk_s_enc_key app_s_key : KeyType

abbrev pub key_byte : KeyType → ℕ
key_byte f_nwk_s_int_key = 0x01
key_byte s_nwk_s_int_key = 0x03
key_byte nwk_s_enc_key = 0x04
key_byte app_s_key = 0x02

-- The zeros from `ptr` to the end of the block.
abbrev pad : List ℕ → List ℕ
pad input = input ++ replicate (16 - length input) 0

pub join_key_block : ℕ → List ℕ → List ℕ
unfolding write1_byte_value
join_key_block token dev_eui = pad (write1_byte_value [] token ++ take 8 dev_eui)

pub session_key_block : Bool → KeyType → ℕ → List ℕ → ℕ → ℕ → List ℕ
unfolding write3_byte_value write2_byte_value
session_key_block opt_neg key_type join_nonce rx_join_eui rx_dev_nonce network_id =
    let input = write3_byte_value (key_byte key_type ∷ []) join_nonce in
    let named =
      if opt_neg then input ++ take 8 rx_join_eui else write3_byte_value input network_id in
    pad (write2_byte_value named rx_dev_nonce)

module _ (aes_encrypt : List ℕ → List ℕ → List ℕ) where
  pub generate_join_key : ℕ → List ℕ → List ℕ → List ℕ
  unfolding join_key_block
  generate_join_key token root_key dev_eui = aes_encrypt root_key (join_key_block token dev_eui)

  pub generate_session_key : Bool → KeyType → List ℕ → ℕ → List ℕ → ℕ → ℕ → List ℕ
  unfolding session_key_block
  generate_session_key opt_neg key_type root_key join_nonce rx_join_eui rx_dev_nonce network_id =
      aes_encrypt root_key
        (session_key_block opt_neg key_type join_nonce rx_join_eui rx_dev_nonce network_id)

-- The output; the join-accept is encrypted by a decryption.
pub crypt_join_server : (List ℕ → List ℕ → List ℕ) → List ℕ → List ℕ → ℕ → List ℕ
crypt_join_server aes_decrypt key input len =
    let first = aes_decrypt key (take 16 input) in
    if leb 16 len then first ++ aes_decrypt key (take 16 (drop 16 input)) else first

abbrev pub le3 : List ℕ → ℕ
le3 o = get_or o 0 0 + get_or o 1 0 * 2 ^ 8 + get_or o 2 0 * 2 ^ 16

abbrev pub le2 : List ℕ → ℕ
le2 o = get_or o 0 0 + get_or o 1 0 * 2 ^ 8

-- The block tells the key, the nonces and the EUI (LoRaWAN 1.1) or the NetID (1.0).
pub record Names (key_type : KeyType) (join_nonce rx_dev_nonce : ℕ) (nonce_at : ℕ) (block : List ℕ)
    : Type 0 where
  pub size : length block ≡ 16
  pub kind : get_or block 0 0 ≡ key_byte key_type
  pub join : le3 (drop 1 block) ≡ join_nonce
  pub device : le2 (drop nonce_at block) ≡ rx_dev_nonce

pub bytes-le3 : (n : ℕ) → n < 2 ^ 24 → u8 n + u8 (n / 2 ^ 8) * 2 ^ 8 + u8 (n / 2 ^ 16) * 2 ^ 16 ≡ n
bytes-le3 n h = omega arith

-- The input of a session key of LoRaWAN 1.1 is a block of 16 bytes, and different keys, join
-- nonces, JoinEUIs and device nonces have different blocks: all are read back from it.
pub session_key_block_1v1 :
    (key_type : KeyType) (join_nonce rx_dev_nonce network_id : ℕ) (rx_join_eui : List ℕ)
    → join_nonce < 2 ^ 24
    → rx_dev_nonce < 2 ^ 16
    → length rx_join_eui ≡ 8
    → Names key_type join_nonce rx_dev_nonce 12
        (session_key_block true key_type join_nonce rx_join_eui rx_dev_nonce network_id)
      × (take 8 (
            drop 4 (session_key_block true key_type join_nonce rx_join_eui rx_dev_nonce network_id))
          ≡ rx_join_eui)
unfolding session_key_block
session_key_block_1v1 k j d n (a ∷ b ∷ c ∷ e ∷ f ∷ g ∷ h ∷ i ∷ []) p q r =
    (record { size = refl; kind = refl; join = bytes-le3 j p; device = omega arith }, refl)
session_key_block_1v1 k j d n _ p q r = absurd (omega arith)

-- The input of a session key of LoRaWAN 1.0 is a block of 16 bytes, from which the key, the join
-- nonce, the NetID and the device nonce are read back.
pub session_key_block_1v0 :
    (key_type : KeyType) (join_nonce rx_dev_nonce network_id : ℕ) (rx_join_eui : List ℕ)
    → join_nonce < 2 ^ 24
    → rx_dev_nonce < 2 ^ 16
    → network_id < 2 ^ 24
    → Names key_type join_nonce rx_dev_nonce 7
        (session_key_block false key_type join_nonce rx_join_eui rx_dev_nonce network_id)
      × (le3 (
            drop 4
              (session_key_block false key_type join_nonce rx_join_eui rx_dev_nonce network_id))
          ≡ network_id)
unfolding session_key_block
session_key_block_1v0 k j d n eui p q r =
    (record { size = refl; kind = refl; join = bytes-le3 j p; device = omega arith }, bytes-le3 n r)

module _ (aes_encrypt aes_decrypt : List ℕ → List ℕ → List ℕ)
    (block_size : (key block : List ℕ) → length block ≡ 16 → length (aes_decrypt key block) ≡ 16)
    (inverse : (key block : List ℕ)
      → length block ≡ 16
      → aes_encrypt key (aes_decrypt key block) ≡ block) where
  -- A join-accept has 16 bytes or more behind its header. An end device that knows only the
  -- encryption gets it back, block by block, from what `CryptJoinServer` writes, which is 32 bytes.
  pub crypt_join_server_lem :
      (key input : List ℕ) (len : ℕ)
      → 32 ≤ length input
      → 16 ≤ len
      → (aes_encrypt key (take 16 (crypt_join_server aes_decrypt key input len)) ≡ take 16 input)
        × (aes_encrypt key (drop 16 (crypt_join_server aes_decrypt key input len))
            ≡ take 16 (drop 16 input))
        × (length (crypt_join_server aes_decrypt key input len) ≡ 32)
  unfolding crypt_join_server
  crypt_join_server_lem key input len h k =
      let first : List ℕ = aes_decrypt key (take 16 input) in
      let second : List ℕ = aes_decrypt key (take 16 (drop 16 input)) in
      let size1 : length (take 16 input) ≡ 16 = omega (arith, length-take 16 input) in
      let size2 : length (take 16 (drop 16 input)) ≡ 16 =
        omega (arith, length-take 16 (drop 16 input), length-drop 16 input) in
      let test : leb 16 len ≡ true = ground arith in
      rw test (
        ap (aes_encrypt key)
              (take-append_length first second 16 (sym (block_size key (take 16 input) size1)))
            ∙ inverse key (take 16 input) size1,
        ap (aes_encrypt key)
              (drop-append_length first second 16 (sym (block_size key (take 16 input) size1)))
            ∙ inverse key (take 16 (drop 16 input)) size2,
        omega (
          arith,
          length-append first second,
          block_size key (take 16 input) size1,
          block_size key (take 16 (drop 16 input)) size2,
        ),
      )
