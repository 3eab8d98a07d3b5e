-- ===== src/JoinServer/JoinAccept/EndDevice.antt =====
-- The join-accept of join_server/main.c as the end device reads it.
use lo_ra_wan_backend.Base.{
  ℕ, zero, suc, ◌+◌, ◌-◌, ◌^◌, ◌%◌, ◌<◌, ◌≤◌, ◌≡◌, refl, ap, ap₂, ◌∙◌, arith, ◌⊎◌, inl, inr, Bool,
  true, false, if◌then◌else◌, leb, ltb, ◌==◌, some,
}
use lo_ra_wan_backend.Base.{
  List, [], ◌∷◌, ◌++◌, length, take, drop, length-append, length-take, take-length, take-take,
  take-append_length,
}
use lo_ra_wan_backend.Backend.Bytes.{write2_byte_value, write3_byte_value, write4_byte_value}
use lo_ra_wan_backend.NetworkServer.Integrity.{generate_join_frame_integrity_code}
use lo_ra_wan_backend.JoinServer.Keys.{le3, bytes-le3, crypt_join_server, crypt_join_server_lem}
use lo_ra_wan_backend.JoinServer.Nonces.{JoinMote, accept_nonce}
use lo_ra_wan_backend.JoinServer.Request.{Request}
use lo_ra_wan_backend.JoinServer.JoinAccept.{
  Try, ok, ◌>>=◌, app_key, JoinerRow, JoinAnswer, choose_nonce, choose_1v1, join_message, join_mic,
  cypher_key, cyphered, answer_join, join_accept,
}

-- The end device encrypts one block, or two.
abbrev pub decypher : (List ℕ → List ℕ → List ℕ) → List ℕ → List ℕ → List ℕ
decypher aes_encrypt key tx =
    let first = aes_encrypt key (take 16 tx) in
    if ltb 16 (length tx) then first ++ aes_encrypt key (drop 16 tx) else first

-- The row of an end device of LoRaWAN 1.1.
abbrev pub joiner : List ℕ → List ℕ → List ℕ → List ℕ → JoinMote → JoinerRow
joiner root nwk_key int_key enc_key mote = record {
  app_key_answer = app_key root;
  nwk_key = some nwk_key;
  js_int_key = some int_key;
  js_enc_key = some enc_key;
  counters = some mote;
  updated = true;
  nonces = some [];
}

module _ (aes_encrypt cmac : List ℕ → List ℕ → List ℕ) where
  -- What an end device that has the keys makes of an answer.
  pub record Reads (int_key key : List ℕ) (r : Request) (mote : JoinMote) (answer : JoinAnswer)
      : Type 0 where
    pub join_nonce : le3 (drop 1 answer.message) ≡ mote.join_nonce % 2 ^ 24
    pub plain :
        decypher aes_encrypt key (drop 1 answer.tx_buf)
        ≡ drop 1 answer.message
          ++ (take 4 (
              cmac int_key (
                write2_byte_value (r.join_req_type ∷ take 8 r.rf_join_eui) r.rx_nonce
                ++ answer.message)))

split_take : (n m : ℕ) (l : List ℕ) → take n l ++ take m (drop n l) ≡ take (n + m) l
split_take zero m l = ap (λ (k : ℕ). take k l) {x = m} {y = 0 + m} (omega arith)
split_take (suc n) zero [] =
    ap (λ (k : ℕ). take k []) {x = suc (n + 0)} {y = suc n + 0} (omega arith)
split_take (suc n) (suc m) [] =
    ap (λ (k : ℕ). take k []) {x = suc (n + suc m)} {y = suc n + suc m} (omega arith)
split_take (suc n) m (x ∷ l) =
    ap (λ t. x ∷ t) (split_take n m l)
    ∙ ap (λ (k : ℕ). take k (x ∷ l)) {x = suc (n + m)} {y = suc n + m} (omega arith)

chosen_key :
    (b : Bool) (x y : List ℕ) (f : List ℕ → Try JoinAnswer)
    → ((if b then ok x else ok y) >>= f) ≡ f (if b then x else y)
chosen_key true x y f = refl
chosen_key false x y f = refl

module _ (aes_encrypt : List ℕ → List ℕ → List ℕ) (key : List ℕ) where
  decypher_one :
      (tx : List ℕ)
      → length tx ≡ 32
      → decypher aes_encrypt key (take 16 tx) ≡ aes_encrypt key (take 16 tx)
  decypher_one tx h =
      let test : ltb 16 (length (take 16 tx)) ≡ false =
        let size : length (take 16 tx) ≡ 16 = omega (arith, length-take 16 tx) in ground arith in
      rw test (ap (aes_encrypt key) (take-take 16 16 tx (omega arith)))

  decypher_two :
      (tx : List ℕ)
      → length tx ≡ 32
      → decypher aes_encrypt key (take 32 tx)
        ≡ aes_encrypt key (take 16 tx) ++ aes_encrypt key (drop 16 tx)
  decypher_two tx h =
      let whole : take 32 tx ≡ tx =
        ap (λ (k : ℕ). take k tx) {x = 32} {y = length tx} (omega arith) ∙ take-length tx in
      let test : ltb 16 (length tx) ≡ true = ground arith in rw whole (rw test refl)

module _ (aes_encrypt aes_decrypt cmac : List ℕ → List ℕ → List ℕ) (behind : List ℕ)
    (block_size : (key block : List ℕ) → length block ≡ 16 → length (aes_decrypt key block) ≡ 16)
    (inverse : (key block : List ℕ)
      → length block ≡ 16
      → aes_encrypt key (aes_decrypt key block) ≡ block) where
  cyphered_lem :
      (key body mic : List ℕ)
      → length mic ≡ 4
      → (length body ≡ 12) ⊎ (length body ≡ 28)
      → 16 ≤ length behind
      → decypher aes_encrypt key
          (drop 1 (cyphered aes_encrypt aes_decrypt cmac behind key (0x20 ∷ body) mic))
        ≡ body ++ mic
  unfolding cyphered
  cyphered_lem key body mic four (inl short) k =
      let len : suc (length (body ++ mic)) - 1 ≡ 16 = omega (arith, length-append body mic) in
      let size : 32 ≤ length ((body ++ mic) ++ behind) =
        omega (arith, length-append (body ++ mic) behind, length-append body mic) in
      let (one, two, whole) =
        crypt_join_server_lem aes_encrypt aes_decrypt block_size inverse key
          ((body ++ mic) ++ behind) 16 size (omega arith) in
      rw len (
        decypher_one aes_encrypt key
          (crypt_join_server aes_decrypt key ((body ++ mic) ++ behind) 16) whole
        ∙ one
        ∙ take-append_length (body ++ mic) behind 16 (omega (arith, length-append body mic)))
  cyphered_lem key body mic four (inr long) k =
      let len : suc (length (body ++ mic)) - 1 ≡ 32 = omega (arith, length-append body mic) in
      let size : 32 ≤ length ((body ++ mic) ++ behind) =
        omega (arith, length-append (body ++ mic) behind, length-append body mic) in
      let (one, two, whole) =
        crypt_join_server_lem aes_encrypt aes_decrypt block_size inverse key
          ((body ++ mic) ++ behind) 32 size (omega arith) in
      rw len (
        decypher_two aes_encrypt key
          (crypt_join_server aes_decrypt key ((body ++ mic) ++ behind) 32) whole
        ∙ ap₂ (λ a b. a ++ b) one two
        ∙ split_take 16 16 ((body ++ mic) ++ behind)
        ∙ take-append_length (body ++ mic) behind 32 (omega (arith, length-append body mic)))

  -- An end device of LoRaWAN 1.1, whose keys the database has, asks to join with a nonce above the
  -- last one; the database takes the change, the request has its fields, and the CFList 0 or 16
  -- bytes. AES encryption undoes AES decryption on blocks of 16 bytes, CMAC has 16 bytes, and the
  -- array has 16 bytes behind the message. Then the join server answers, counts the nonce and the
  -- join nonce, and sends what the end device, which only encrypts, turns into the message with this
  -- join nonce and the MIC over the request and the message: with the network key, or with the key
  -- of rejoins for a rejoin.
  pub join_accept-Reads :
      (mac_size : (key input : List ℕ) → length (cmac key input) ≡ 16)
      → (random network_id dev_addr dl_settings rx_delay : ℕ)
        (root nwk_key int_key enc_key cf_list : List ℕ) (mote : JoinMote) (r : Request)
      → (length cf_list ≡ 0) ⊎ (length cf_list ≡ 16)
      → 16 ≤ length behind
      → mote.nonce_last < r.rx_nonce
      → (answer : JoinAnswer) × (join_accept aes_encrypt aes_decrypt cmac behind random
            (joiner root nwk_key int_key enc_key mote)
            (record {
              network_id = network_id;
              dev_addr = some dev_addr;
              dl_settings = some dl_settings;
              rx_delay = some rx_delay;
              cf_list = cf_list;
            })
            r
          ≡ (
            joiner root nwk_key int_key enc_key
                (record { nonce_last = mote.nonce_last + 1; join_nonce = mote.join_nonce + 1 }),
            ok answer,
          ))
        × Reads aes_encrypt cmac int_key
            (if r.join_req_type == 0xff then nwk_key else enc_key)
            r
            mote
            answer
  unfolding join_accept answer_join choose_nonce choose_1v1 accept_nonce join_mic cypher_key
      join_message generate_join_frame_integrity_code write2_byte_value write3_byte_value
      write4_byte_value
  join_accept-Reads mac_size random network_id dev_addr dl_settings rx_delay root nwk_key int_key
        enc_key cf_list mote r size k newer =
      let test : leb r.rx_nonce mote.nonce_last ≡ false = ground arith in
      let fits : ltb 16 (length cf_list) ≡ false = ground arith in
      let message =
        join_message true (mote.join_nonce % 2 ^ 24) network_id dev_addr dl_settings rx_delay
          cf_list in
      let input =
        write2_byte_value (r.join_req_type ∷ take 8 r.rf_join_eui) r.rx_nonce ++ message in
      let mic = generate_join_frame_integrity_code cmac int_key input (length input) in
      let four : length mic ≡ 4 = omega (
        arith,
        length-take 4 (cmac int_key (take (length input) input)),
        mac_size int_key (take (length input) input),
      ) in
      let blocks : (length (drop 1 message) ≡ 12) ⊎ (length (drop 1 message) ≡ 28) = elim size [
        | inl e ↦ inl (omega arith)
        | inr e ↦ inr (omega arith)
      ] in
      let after =
        joiner root nwk_key int_key enc_key
          (record { nonce_last = mote.nonce_last + 1; join_nonce = mote.join_nonce + 1 }) in
      let key = if r.join_req_type == 0xff then nwk_key else enc_key in
      rw test (
        rw fits (
          _,
          ap (λ t. (after, t)) (chosen_key (r.join_req_type == 0xff) nwk_key enc_key _),
          record {
            join_nonce = bytes-le3 (mote.join_nonce % 2 ^ 24) (omega arith);
            plain =
                cyphered_lem key (drop 1 message) mic four blocks k
                ∙ ap (λ t. drop 1 message ++ take 4 (cmac int_key t)) (take-length input);
          },
        ))
