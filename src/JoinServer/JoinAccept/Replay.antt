-- ===== src/JoinServer/JoinAccept/Replay.antt =====
-- A LoRaWAN 1.0 join request that join_server/main.c receives again.
use lo_ra_wan_backend.Base.{ℕ, ◌≡◌, refl, arith, Bool, true, false, ◌==◌, none, some, List}
use lo_ra_wan_backend.JoinServer.Request.{Request}
use lo_ra_wan_backend.JoinServer.JoinAccept.{
  denied, activation_disallowed, no_app_key, JoinerRow, JoinFields, member, choose_nonce,
  choose_1v0, join_accept,
}

-- The row of an end device of LoRaWAN 1.0.
abbrev pub joiner_1v0 : List ℕ → List ℕ → JoinerRow
joiner_1v0 nwk_key used = record {
  app_key_answer = no_app_key;
  nwk_key = some nwk_key;
  js_int_key = none;
  js_enc_key = none;
  counters = none;
  updated = true;
  nonces = some used;
}

module _ (aes_encrypt aes_decrypt cmac : List ℕ → List ℕ → List ℕ) (behind : List ℕ) where
  after_either :
      (random random' : ℕ) (nwk_key used : List ℕ) (fields fields' : JoinFields) (r : Request)
      (b : Bool)
      → member r.rx_nonce used ≡ b
      → let after : JoinerRow =
          (join_accept aes_encrypt aes_decrypt cmac behind random
            (joiner_1v0 nwk_key used)
            fields
            r).0 in
        (join_accept aes_encrypt aes_decrypt cmac behind random' after fields' r).1
        ≡ denied activation_disallowed
  unfolding join_accept choose_nonce choose_1v0 member
  after_either random random' nwk_key used fields fields' r true t = rw t (rw t refl)
  after_either random random' nwk_key used fields fields' r false t =
      let same : (r.rx_nonce == r.rx_nonce) ≡ true = ground arith in rw t (rw same refl)

  -- A LoRaWAN 1.0 end device is in the database, which takes changes. Whether its join request was
  -- accepted or refused, the same request is refused when it comes again, with any other random
  -- number and fields.
  pub join_accept_again :
      (random random' : ℕ) (nwk_key used : List ℕ) (fields fields' : JoinFields) (r : Request)
      → let after : JoinerRow =
          (join_accept aes_encrypt aes_decrypt cmac behind random
            (joiner_1v0 nwk_key used)
            fields
            r).0 in
        (join_accept aes_encrypt aes_decrypt cmac behind random' after fields' r).1
        ≡ denied activation_disallowed
  join_accept_again random random' nwk_key used fields fields' r =
      after_either random random' nwk_key used fields fields' r (member r.rx_nonce used) refl
