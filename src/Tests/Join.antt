-- ===== src/Tests/Join.antt =====
-- The join server of join_server/main.c on concrete requests.
use lo_ra_wan_backend.Base.{ap, ◌∙◌}
use lo_ra_wan_backend.Base.{ℕ, ◌≡◌, refl, List, [], ◌∷◌, ◌++◌, length, replicate, arith}
use lo_ra_wan_backend.Base.{◌⊎◌, some, none, inr}
use lo_ra_wan_backend.JoinServer.Request.{
  Request, parse_request, parse_request_rejoin1, other, unknown_dev_eui,
}
use lo_ra_wan_backend.JoinServer.JoinAccept.{
  ok, denied, activation_disallowed, JoinFields, JoinAnswer, join_accept,
}
use lo_ra_wan_backend.JoinServer.JoinAccept.Replay.{joiner_1v0, join_accept_again}
use lo_ra_wan_backend.JoinServer.JoinAccept.EndDevice.{joiner, Reads, join_accept-Reads}
use lo_ra_wan_backend.JoinServer.Nonces.{JoinMote}

abbrev row : JoinMote
row = record { nonce_last = 3; join_nonce = 40 }

abbrev join_eui : List ℕ
join_eui = 0x11 ∷ 0x22 ∷ 0x33 ∷ 0x44 ∷ 0x55 ∷ 0x66 ∷ 0x77 ∷ 0x88 ∷ []

-- A cipher that swaps the bytes of a block pairwise.
abbrev swap : List ℕ → List ℕ → List ℕ
swap key [] = []
swap key (a ∷ []) = a ∷ []
swap key (a ∷ b ∷ rest) = b ∷ a ∷ swap key rest

swap_size : (key block : List ℕ) → length (swap key block) ≡ length block
swap_size key [] = refl
swap_size key (a ∷ []) = refl
swap_size key (a ∷ b ∷ rest) = omega (arith, swap_size key rest)

swap_inverse : (key block : List ℕ) → swap key (swap key block) ≡ block
swap_inverse key [] = refl
swap_inverse key (a ∷ []) = refl
swap_inverse key (a ∷ b ∷ rest) = ap (λ l. a ∷ b ∷ l) (swap_inverse key rest)

abbrev accept : List ℕ
accept = join_eui ++ join_eui ++ replicate 16 0x20

rejoin1_example :
    (parse_request swap 0x8877_6655_4433_2211 7
        (some join_eui)
        (some join_eui)
        (0xc0 ∷ 1 ∷ accept)
        24
      ≡ other)
    ⊎ (parse_request swap 0x8877_6655_4433_2211 7
          (some join_eui)
          (some join_eui)
          (0xc0 ∷ 1 ∷ accept)
          24
        ≡ unknown_dev_eui)
rejoin1_example =
    parse_request_rejoin1 swap 0x8877_6655_4433_2211 7 (some join_eui) (some join_eui) accept 24

abbrev tag : List ℕ → List ℕ → List ℕ
tag key input = replicate 16 7

abbrev join_request : Request
join_request = record { rf_join_eui = join_eui; rx_nonce = 6; mic_key = none; join_req_type = 0xff }

join_accept_example :
    (answer : JoinAnswer) × (join_accept swap swap tag
        (replicate 16 0)
        9
        (joiner (1 ∷ []) (2 ∷ []) (3 ∷ []) (4 ∷ []) row)
        (record {
          network_id = 0x13;
          dev_addr = some 0x2600_0001;
          dl_settings = some 3;
          rx_delay = some 1;
          cf_list = replicate 16 5;
        })
        join_request
      ≡ (
        joiner (1 ∷ []) (2 ∷ []) (3 ∷ []) (4 ∷ []) (record { nonce_last = 4; join_nonce = 41 }),
        ok answer,
      ))
    × Reads swap tag (3 ∷ []) (2 ∷ []) join_request row answer
join_accept_example =
    join_accept-Reads swap swap tag (replicate 16 0) (λ key block h. swap_size key block ∙ h)
      (λ key block h. swap_inverse key block) (λ key input. refl) 9 0x13 0x2600_0001 3 1 (1 ∷ [])
      (2 ∷ []) (3 ∷ []) (4 ∷ []) (replicate 16 5) row join_request (inr refl) (omega arith)
      (omega arith)

abbrev named : JoinFields
named = record {
  network_id = 0x13;
  dev_addr = some 0x2600_0001;
  dl_settings = some 3;
  rx_delay = some 1;
  cf_list = [];
}

join_again_example :
    (join_accept swap swap tag [] 77
      (join_accept swap swap tag [] 9 (joiner_1v0 (2 ∷ []) (4 ∷ 5 ∷ [])) named join_request).0
      named
      join_request).1
    ≡ denied activation_disallowed
join_again_example =
    join_accept_again swap swap tag [] 9 77 (2 ∷ []) (4 ∷ 5 ∷ []) named named join_request
