-- ===== src/JoinServer/Request.antt =====
-- The tests of a join or rejoin request at the start of `parse_rf_join_req` of join_server/main.c, on the
-- received bytes. The keys come from the database: `none` is an answer other than 1. CMAC is a parameter.
use lo_ra_wan_backend.Base.{
  ℕ, ◌+◌, ◌-◌, ◌*◌, ◌/◌, ◌^◌, ◌≡◌, refl, ◌==◌, not, ◌||◌, if◌then◌else◌, Bool, true, false, ◌⊎◌,
  inl, inr,
}
use lo_ra_wan_backend.Base.{List, ◌∷◌, get_or, take, drop, Option, none, some}
use lo_ra_wan_backend.Backend.Bytes.{eui_buf_to_uint64, uint64_to_eui_buf}
use lo_ra_wan_backend.NetworkServer.Integrity.{generate_join_frame_integrity_code, word4, rx_mic4}

pub record Request : Type 0 where
  pub rf_join_eui : List ℕ
  pub rx_nonce : ℕ
  pub mic_key : Option (List ℕ)
  pub join_req_type : ℕ

-- `Other`, `UnknownDevEUI` and `MICFailed`, or the request; `outside` is a MIC that is read outside the
-- buffer.
pub data Checked : Type 0 where
  other unknown_dev_eui mic_failed outside : Checked
  accepted : Request → Checked

abbrev nonce_at : List ℕ → ℕ → ℕ
nonce_at b i = get_or b i 0 + get_or b (i + 1) 0 * 2 ^ 8

module _ (cmac : List ℕ → List ℕ → List ℕ) (dev_eui64 my_join_eui64 : ℕ)
    (js_int_key nwk_key : Option (List ℕ)) where
  -- From the comparison of the JoinEUI to that of the MIC.
  pub check_request : List ℕ → ℕ → Request → Checked
  check_request rx_buf rx_len r =
      if not (eui_buf_to_uint64 r.rf_join_eui == my_join_eui64) then other else elim r.mic_key [
        | none ↦ accepted r
        | some key ↦ elim (rx_mic4 rx_buf rx_len) [
          | none ↦ outside
          | some rx_mic ↦
              if word4 (generate_join_frame_integrity_code cmac key rx_buf (rx_len - 4)) == rx_mic
              then accepted r
              else mic_failed
        ]
      ]

  abbrev rejoin02 : List ℕ → ℕ → ℕ → Checked
  rejoin02 rx_buf rx_len type =
      if (type == 0) || (type == 2)
      then check_request rx_buf rx_len (record {
        rf_join_eui = uint64_to_eui_buf my_join_eui64;
        rx_nonce = nonce_at rx_buf 13;
        mic_key = none;
        join_req_type = type;
      })
      else other

  abbrev rejoin : List ℕ → ℕ → ℕ → Checked
  rejoin rx_buf rx_len type =
      if type == 1
      then (if not (dev_eui64 == eui_buf_to_uint64 (take 8 (drop 10 rx_buf)))
          then other
          else elim js_int_key [ none ↦ unknown_dev_eui | some key ↦ rejoin02 rx_buf rx_len type ])
      else rejoin02 rx_buf rx_len type

  abbrev join : List ℕ → ℕ → Checked
  join rx_buf rx_len =
      if not (dev_eui64 == eui_buf_to_uint64 (take 8 (drop 9 rx_buf)))
      then other
      else elim nwk_key [
        | none ↦ unknown_dev_eui
        | some key ↦ check_request rx_buf rx_len (record {
          rf_join_eui = take 8 (drop 1 rx_buf);
          rx_nonce = nonce_at rx_buf 17;
          mic_key = some key;
          join_req_type = 0xff;
        })
      ]

  pub parse_request : List ℕ → ℕ → Checked
  unfolding check_request
  parse_request rx_buf rx_len =
      let mtype = get_or rx_buf 0 0 / 2 ^ 5 in
      if mtype == 6
      then rejoin rx_buf rx_len (get_or rx_buf 1 0)
      else if mtype == 0
      then join rx_buf rx_len
      else other

  rejoin1 :
      (rx_buf : List ℕ) (rx_len : ℕ) (key : Option (List ℕ)) (same : Bool)
      → let result : Checked =
          (if not same then other else elim key [ none ↦ unknown_dev_eui | some k ↦ other ]) in
        (result ≡ other) ⊎ (result ≡ unknown_dev_eui)
  rejoin1 rx_buf rx_len key false = inl refl
  rejoin1 rx_buf rx_len none true = inr refl
  rejoin1 rx_buf rx_len (some k) true = inl refl

  -- No rejoin request of type 1 is accepted, whatever its EUI, its key and its MIC are.
  pub parse_request_rejoin1 :
      (rest : List ℕ) (rx_len : ℕ)
      → (parse_request (0xc0 ∷ 1 ∷ rest) rx_len ≡ other)
        ⊎ (parse_request (0xc0 ∷ 1 ∷ rest) rx_len ≡ unknown_dev_eui)
  unfolding parse_request
  parse_request_rejoin1 rest rx_len =
      rejoin1 (0xc0 ∷ 1 ∷ rest) rx_len js_int_key
        (dev_eui64 == eui_buf_to_uint64 (take 8 (drop 8 rest)))
