-- ===== src/JoinServer/JoinAccept.antt =====
-- The join-accept and the session keys: `parse_rf_join_req` of join_server/main.c from the choice of
-- the nonce on, after the request has passed its tests. The database and the JSON request are
-- records of what they say; AES, CMAC, `rand` and what lies behind the message in its array are
-- arguments. The query for the lifetime, the key envelopes and the JSON text of the answer are left
-- out: they come last and can still turn the answer into `JoinReqFailed`.
pub mod EndDevice
pub mod Replay
use lo_ra_wan_backend.Base.{
  ℕ, ◌+◌, ◌-◌, ◌*◌, ◌/◌, ◌%◌, ◌^◌, Bool, true, false, if◌then◌else◌, ltb, leb, ◌==◌, u8, bit_and,
  bit_or,
}
use lo_ra_wan_backend.Base.{List, [], ◌∷◌, ◌++◌, length, take, drop, Option, none, some}
use lo_ra_wan_backend.Backend.Bytes.{write2_byte_value, write3_byte_value, write4_byte_value}
use lo_ra_wan_backend.NetworkServer.Integrity.{generate_join_frame_integrity_code}
use lo_ra_wan_backend.JoinServer.Keys.{
  KeyType, crypt_join_server, generate_session_key, f_nwk_s_int_key, s_nwk_s_int_key, nwk_s_enc_key,
  app_s_key,
}
use lo_ra_wan_backend.JoinServer.Nonces.{JoinMote, accept_nonce}
use lo_ra_wan_backend.JoinServer.Request.{Request}

pub data Refusal : Type 0 where
  join_req_failed activation_disallowed malformed_request frame_size_error : Refusal

-- A step that may refuse the request.
pub data Try {ℓ} (A : Type ℓ) : Type ℓ where
  denied : Refusal → Try A
  ok : A → Try A

infixl 5 ◌>>=◌
abbrev pub ◌>>=◌ {ℓ κ} : {A : Type ℓ} {B : Type κ} → Try A → (A → Try B) → Try B
denied r >>= f = denied r
ok a >>= f = f a

-- `none` is the refusal.
abbrev pub needs {ℓ} : {A : Type ℓ} → Refusal → Option A → Try A
needs r none = denied r
needs r (some a) = ok a

-- What the query for the AppKey returns: -1, 1, or another number.
pub data AppKey : Type 0 where
  query_failed no_app_key : AppKey
  app_key : List ℕ → AppKey

-- The end device in the database. `counters` has the last nonce from the column of the kind of
-- request, `nonces` are those of LoRaWAN 1.0; `none` is a query that fails, else a key is what its
-- array holds afterwards. `updated` tells whether the database takes a change.
pub record JoinerRow : Type 0 where
  pub app_key_answer : AppKey
  pub nwk_key : Option (List ℕ)
  pub js_int_key : Option (List ℕ)
  pub js_enc_key : Option (List ℕ)
  pub counters : Option JoinMote
  pub updated : Bool
  pub nonces : Option (List ℕ)

-- The fields of the JSON request; `cf_list` holds the bytes of its hexadecimal text.
pub record JoinFields : Type 0 where
  pub network_id : ℕ
  pub dev_addr : Option ℕ
  pub dl_settings : Option ℕ
  pub rx_delay : Option ℕ
  pub cf_list : List ℕ

-- The version, the join nonce, and the row afterwards.
pub record Chosen : Type 0 where
  pub opt_neg : Bool
  pub join_nonce : ℕ
  pub row : JoinerRow

pub member : ℕ → List ℕ → Bool
member n [] = false
member n (x ∷ l) = if n == x then true else member n l

abbrev pub count_request : JoinerRow → Option (JoinMote × ℕ) → Try Chosen
count_request row none = denied activation_disallowed
count_request row (some (next, join_nonce)) =
    if row.updated
    then ok record {
      opt_neg = true;
      join_nonce = join_nonce;
      row = record row { counters = some next };
    }
    else denied join_req_failed

-- LoRaWAN 1.1: the counters. An UPDATE that fails leaves them.
pub choose_1v1 : JoinerRow → ℕ → Option JoinMote → Try Chosen
choose_1v1 row rx_nonce none = denied join_req_failed
choose_1v1 row rx_nonce (some mote) = count_request row (accept_nonce mote rx_nonce)

-- LoRaWAN 1.0: `check_nonce`, whose -1 for a query that fails is a true value.
pub choose_1v0 : ℕ → JoinerRow → ℕ → Option (List ℕ) → Try Chosen
choose_1v0 random row rx_nonce none = denied activation_disallowed
choose_1v0 random row rx_nonce (some used) =
    if member rx_nonce used
    then denied activation_disallowed
    else ok record {
      opt_neg = false;
      join_nonce = bit_and random 0xffffff;
      row = record row { nonces = some (if row.updated then rx_nonce ∷ used else used) };
    }

abbrev pub row_after : JoinerRow → Try Chosen → JoinerRow
row_after row (denied why) = row
row_after row (ok c) = c.row

pub choose_nonce : ℕ → JoinerRow → ℕ → AppKey → Try Chosen
choose_nonce random row rx_nonce query_failed = denied join_req_failed
choose_nonce random row rx_nonce (app_key k) = choose_1v1 row rx_nonce row.counters
choose_nonce random row rx_nonce no_app_key = choose_1v0 random row rx_nonce row.nonces

-- The bit of DLSettings that tells the version.
abbrev pub with_opt_neg : Bool → ℕ → ℕ
with_opt_neg opt_neg dl_settings =
    if opt_neg then bit_or dl_settings 0x80 else bit_and dl_settings 0xffffff7f

-- `uncyphered`, from MHDR to the CFList.
pub join_message : Bool → ℕ → ℕ → ℕ → ℕ → ℕ → List ℕ → List ℕ
join_message opt_neg join_nonce network_id dev_addr dl_settings rx_delay cf_list =
    let head = write3_byte_value (write3_byte_value (0x20 ∷ []) join_nonce) network_id in
    write4_byte_value head dev_addr ++ u8 (with_opt_neg opt_neg dl_settings) ∷ u8 rx_delay ∷ cf_list

-- The keys for the answer; in LoRaWAN 1.0 the network has one.
pub record SessionKeys : Type 0 where
  pub f_nwk : List ℕ
  pub s_nwk : Option (List ℕ)
  pub nwk_enc : Option (List ℕ)
  pub app : List ℕ

pub record JoinAnswer : Type 0 where
  pub message : List ℕ
  pub tx_buf : List ℕ
  pub keys : SessionKeys

-- The AppKey of LoRaWAN 1.1; without one it is not used.
abbrev app_root : AppKey → List ℕ
app_root (app_key k) = k
app_root query_failed = []
app_root no_app_key = []

module _ (aes_encrypt aes_decrypt cmac : List ℕ → List ℕ → List ℕ) (behind : List ℕ) where
  -- The MIC: in LoRaWAN 1.1 it covers the request as well.
  pub join_mic : Bool → JoinerRow → List ℕ → Request → List ℕ → Try (List ℕ)
  join_mic true row nwk_key r message = do
    js_int_key ← needs join_req_failed row.js_int_key
    let input = write2_byte_value (r.join_req_type ∷ take 8 r.rf_join_eui) r.rx_nonce ++ message in
        ok (generate_join_frame_integrity_code cmac js_int_key input (length input))
  join_mic false row nwk_key r message =
      ok (generate_join_frame_integrity_code cmac nwk_key message (length message))

  -- The key of the encryption: a rejoin has its own.
  pub cypher_key : Bool → JoinerRow → List ℕ → Request → Try (List ℕ)
  cypher_key true row nwk_key r =
      if r.join_req_type == 0xff then ok nwk_key else needs join_req_failed row.js_enc_key
  cypher_key false row nwk_key r = ok nwk_key

  -- `txBuf`: as many bytes as the message and its MIC have.
  pub cyphered : List ℕ → List ℕ → List ℕ → List ℕ
  cyphered key message mic =
      let plain = message ++ mic in
      let len = length plain - 1 in
      0x20 ∷ take len (crypt_join_server aes_decrypt key (drop 1 (plain ++ behind)) len)

  pub session_keys : Bool → JoinerRow → List ℕ → ℕ → Request → ℕ → SessionKeys
  session_keys opt_neg row nwk_key join_nonce r network_id =
      let derive : Bool → KeyType → List ℕ → List ℕ = λ v type root.
        generate_session_key aes_encrypt v type root join_nonce r.rf_join_eui r.rx_nonce
          network_id in
      if opt_neg
      then record {
        f_nwk = derive true f_nwk_s_int_key nwk_key;
        s_nwk = some (derive true s_nwk_s_int_key nwk_key);
        nwk_enc = some (derive true nwk_s_enc_key nwk_key);
        app = derive true app_s_key (app_root row.app_key_answer);
      }
      else record {
        f_nwk = derive false f_nwk_s_int_key nwk_key;
        s_nwk = none;
        nwk_enc = none;
        app = derive false app_s_key nwk_key;
      }

  -- The answer with the nonce that was chosen.
  pub answer_join : JoinerRow → JoinFields → Request → Chosen → Try JoinAnswer
  answer_join row fields r c = do
    nwk_key ← needs join_req_failed row.nwk_key
    dev_addr ← needs malformed_request fields.dev_addr
    dl_settings ← needs malformed_request fields.dl_settings
    rx_delay ← needs malformed_request fields.rx_delay
    cf_list ← if ltb 16 (length fields.cf_list) then denied frame_size_error else ok fields.cf_list
    let message =
          join_message c.opt_neg c.join_nonce fields.network_id dev_addr dl_settings rx_delay
            cf_list in
        do
          mic ← join_mic c.opt_neg row nwk_key r message
          key ← cypher_key c.opt_neg row nwk_key r
          ok record {
            message = message;
            tx_buf = cyphered key message mic;
            keys = session_keys c.opt_neg row nwk_key c.join_nonce r fields.network_id;
          }

  -- The row afterwards: a refusal behind the choice of the nonce does not take it back.
  pub join_accept : ℕ → JoinerRow → JoinFields → Request → JoinerRow × Try JoinAnswer
  join_accept random row fields r =
      let chosen = choose_nonce random row r.rx_nonce row.app_key_answer in
      (row_after row chosen, chosen >>= answer_join row fields r)
