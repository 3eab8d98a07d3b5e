-- ===== src/NetworkServer/MoteLookup.antt =====
-- Whose frame it is: `GetMoteMtype` of network_server/common.c. `getMote`, which asks the list and the
-- database, is a parameter; its `none` is NULL.
use lo_ra_wan_backend.Base.{
  ℕ, ◌+◌, ◌*◌, ◌/◌, ◌^◌, ◌<◌, ◌≡◌, refl, ap, ◌∙◌, arith, ◌==◌, if◌then◌else◌, Bool, true, false,
  ◌||◌,
}
use lo_ra_wan_backend.Base.{
  List, ◌∷◌, ◌++◌, get_or, take, drop, length, Option, none, some, u8, take-append_length,
  drop-append_length,
}
use lo_ra_wan_backend.Backend.Bytes.{eui_buf_to_uint64}

abbrev pub none_dev_eui : ℕ
none_dev_eui = 0xffff_ffff_ffff_ffff

abbrev pub no_dev_addr : ℕ
no_dev_addr = 0xffff_ffff

-- `rx_fhdr->DevAddr`
abbrev dev_addr_at : List ℕ → ℕ
dev_addr_at phy =
    get_or phy 1 0 + get_or phy 2 0 * 2 ^ 8 + get_or phy 3 0 * 2 ^ 16 + get_or phy 4 0 * 2 ^ 24

module _ {ℓ} {Mote : Type ℓ} (get_mote : ℕ → ℕ → Option Mote) where
  -- A mote, and `jReq`.
  abbrev mote_or_null : Bool → Option Mote → Option Mote × Bool
  mote_or_null j_req none = (none, false)
  mote_or_null j_req (some mote) = (some mote, j_req)

  abbrev by_eui : Bool → List ℕ → Option Mote × Bool
  by_eui j_req eui = mote_or_null j_req (get_mote (eui_buf_to_uint64 eui) no_dev_addr)

  abbrev rejoin_lookup : List ℕ → Option Mote × Bool
  rejoin_lookup phy =
      let type = get_or phy 1 0 in
      if type == 1
      then by_eui false (take 8 (drop 10 phy))
      else if (type == 2) || (type == 0)
      then by_eui false (take 8 (drop 5 phy))
      else (none, false)

  pub get_mote_mtype : List ℕ → Option Mote × Bool
  get_mote_mtype phy =
      let mtype = get_or phy 0 0 / 2 ^ 5 in
      if mtype == 6
      then rejoin_lookup phy
      else if mtype == 0
      then by_eui true (take 8 (drop 9 phy))
      else if (mtype == 2) || (mtype == 4)
      then mote_or_null false (get_mote none_dev_eui (dev_addr_at phy))
      else (none, false)

-- The frames that a network server gets.
pub data Frame : Type 0 where
  join_request : List ℕ → List ℕ → List ℕ → Frame
  rejoin_request1 : List ℕ → List ℕ → List ℕ → Frame
  rejoin_request02 : Bool → List ℕ → List ℕ → List ℕ → Frame
  data_up : Bool → ℕ → List ℕ → Frame

-- As an end device sends them: the JoinEUI or NetID, the DevEUI, and what follows; of a data frame,
-- whether it is confirmed, the DevAddr, and what follows.
abbrev pub to_phy : Frame → List ℕ
to_phy (join_request join_eui dev_eui rest) = 0x00 ∷ (join_eui ++ (dev_eui ++ rest))
to_phy (rejoin_request1 join_eui dev_eui rest) = 0xc0 ∷ 1 ∷ (join_eui ++ (dev_eui ++ rest))
to_phy (rejoin_request02 two net_id dev_eui rest) =
    0xc0 ∷ (if two then 2 else 0) ∷ (net_id ++ (dev_eui ++ rest))
to_phy (data_up confirmed dev_addr rest) =
    (if confirmed then 0x80 else 0x40)
    ∷ u8 dev_addr
    ∷ u8 (dev_addr / 2 ^ 8)
    ∷ u8 (dev_addr / 2 ^ 16)
    ∷ u8 (dev_addr / 2 ^ 24)
    ∷ rest

abbrev pub IsFrame : Frame → Type 0
IsFrame (join_request join_eui dev_eui rest) = (length join_eui ≡ 8) × (length dev_eui ≡ 8)
IsFrame (rejoin_request1 join_eui dev_eui rest) = (length join_eui ≡ 8) × (length dev_eui ≡ 8)
IsFrame (rejoin_request02 two net_id dev_eui rest) = (length net_id ≡ 3) × (length dev_eui ≡ 8)
IsFrame (data_up confirmed dev_addr rest) = dev_addr < 2 ^ 32

module _ {ℓ} {Mote : Type ℓ} (get_mote : ℕ → ℕ → Option Mote) where
  -- A mote that there is, with the mark of a join request; no mote has no mark.
  abbrev pub marked : Bool → Option Mote → Option Mote × Bool
  marked asks_to_join none = (none, false)
  marked asks_to_join (some mote) = (some mote, asks_to_join)

  -- The sender, by its DevEUI or its DevAddr, and whether it asks to join.
  abbrev pub sender : Frame → Option Mote × Bool
  sender (join_request join_eui dev_eui rest) =
      marked true (get_mote (eui_buf_to_uint64 dev_eui) no_dev_addr)
  sender (rejoin_request1 join_eui dev_eui rest) =
      marked false (get_mote (eui_buf_to_uint64 dev_eui) no_dev_addr)
  sender (rejoin_request02 two net_id dev_eui rest) =
      marked false (get_mote (eui_buf_to_uint64 dev_eui) no_dev_addr)
  sender (data_up confirmed dev_addr rest) = marked false (get_mote none_dev_eui dev_addr)

  mote_or_null-marked : (b : Bool) (o : Option Mote) → mote_or_null get_mote b o ≡ marked b o
  mote_or_null-marked b none = refl
  mote_or_null-marked b (some mote) = refl

  -- Behind `n` bytes stands the DevEUI.
  eui_behind :
      (n : ℕ) (front eui rest : List ℕ)
      → n ≡ length front
      → 8 ≡ length eui
      → take 8 (drop n (front ++ (eui ++ rest))) ≡ eui
  eui_behind n front eui rest p q =
      ap (take 8) (drop-append_length front (eui ++ rest) n p) ∙ take-append_length eui rest 8 q

  rejoin_lookup-to_phy :
      (two : Bool) (net_id dev_eui rest : List ℕ)
      → IsFrame (rejoin_request02 two net_id dev_eui rest)
      → rejoin_lookup get_mote (to_phy (rejoin_request02 two net_id dev_eui rest))
        ≡ marked false (get_mote (eui_buf_to_uint64 dev_eui) no_dev_addr)
  rejoin_lookup-to_phy true net_id dev_eui rest h =
      ap (by_eui get_mote false) (eui_behind 3 net_id dev_eui rest (omega arith) (omega arith))
      ∙ mote_or_null-marked false _
  rejoin_lookup-to_phy false net_id dev_eui rest h =
      ap (by_eui get_mote false) (eui_behind 3 net_id dev_eui rest (omega arith) (omega arith))
      ∙ mote_or_null-marked false _

  -- For every join request, rejoin request of type 0, 1 or 2, and data frame, the lookup asks for the
  -- DevEUI or DevAddr that the end device put in, and says whether it is a join request.
  pub get_mote_mtype-to_phy :
      (f : Frame) → IsFrame f → get_mote_mtype get_mote (to_phy f) ≡ sender f
  unfolding get_mote_mtype
  get_mote_mtype-to_phy (join_request join_eui dev_eui rest) h =
      ap (by_eui get_mote true) (eui_behind 8 join_eui dev_eui rest (omega arith) (omega arith))
      ∙ mote_or_null-marked true _
  get_mote_mtype-to_phy (rejoin_request1 join_eui dev_eui rest) h =
      ap (by_eui get_mote false) (eui_behind 8 join_eui dev_eui rest (omega arith) (omega arith))
      ∙ mote_or_null-marked false _
  get_mote_mtype-to_phy (rejoin_request02 two net_id dev_eui rest) h =
      rejoin_lookup-to_phy two net_id dev_eui rest h
  get_mote_mtype-to_phy (data_up true dev_addr rest) h =
      ap (λ (a : ℕ). mote_or_null get_mote false (get_mote none_dev_eui a)) (omega arith)
      ∙ mote_or_null-marked false _
  get_mote_mtype-to_phy (data_up false dev_addr rest) h =
      ap (λ (a : ℕ). mote_or_null get_mote false (get_mote none_dev_eui a)) (omega arith)
      ∙ mote_or_null-marked false _
