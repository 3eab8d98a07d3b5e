-- ===== src/NetworkServer/Motes/Frames.antt =====
-- Which mote of the list the frames of one device get to: `GetMoteMtype` with `getMote`.
use lo_ra_wan_backend.Base.{ℕ, ◌≡◌, ◌<◌, ap, ◌∙◌, Bool, Option, some}
use lo_ra_wan_backend.Backend.Bytes.{eui_buf_to_uint64}
use lo_ra_wan_backend.NetworkServer.MoteLookup.{
  none_dev_eui, no_dev_addr, get_mote_mtype, Frame, join_request, rejoin_request1, rejoin_request02,
  data_up, to_phy, IsFrame, get_mote_mtype-to_phy,
}
use lo_ra_wan_backend.NetworkServer.Motes.{Motes, associated, get_mote}
use lo_ra_wan_backend.NetworkServer.Motes.Distinct.{IsDistinct, get_mote_again}

-- The DevEUI and the DevAddr that a frame carries.
abbrev pub eui_of : Frame → ℕ
eui_of (join_request join_eui dev_eui rest) = eui_buf_to_uint64 dev_eui
eui_of (rejoin_request1 join_eui dev_eui rest) = eui_buf_to_uint64 dev_eui
eui_of (rejoin_request02 two net_id dev_eui rest) = eui_buf_to_uint64 dev_eui
eui_of (data_up confirmed dev_addr rest) = none_dev_eui

abbrev pub addr_of : Frame → ℕ
addr_of (join_request join_eui dev_eui rest) = no_dev_addr
addr_of (rejoin_request1 join_eui dev_eui rest) = no_dev_addr
addr_of (rejoin_request02 two net_id dev_eui rest) = no_dev_addr
addr_of (data_up confirmed dev_addr rest) = dev_addr

-- The DevEUI of the device, when the database is asked too.
abbrev pub device : (ℕ → Option ℕ) → Frame → ℕ
device session f = associated session (eui_of f) (addr_of f)

-- The mote of the list that a frame gets to, and the list then.
unfoldable pub mote_of : (ℕ → Option ℕ) → Motes → Frame → Option (ℕ × Motes)
mote_of session motes f = (get_mote_mtype (λ e a. some (get_mote session e a motes)) (to_phy f)).0

mote_of_lem :
    (session : ℕ → Option ℕ) (motes : Motes) (f : Frame)
    → IsFrame f
    → mote_of session motes f ≡ some (get_mote session (eui_of f) (addr_of f) motes)
unfolding mote_of
mote_of_lem session motes (join_request join_eui dev_eui rest) h =
    ap (λ (p : Option (ℕ × Motes) × Bool). p.0)
      (get_mote_mtype-to_phy _ (join_request join_eui dev_eui rest) h)
mote_of_lem session motes (rejoin_request1 join_eui dev_eui rest) h =
    ap (λ (p : Option (ℕ × Motes) × Bool). p.0)
      (get_mote_mtype-to_phy _ (rejoin_request1 join_eui dev_eui rest) h)
mote_of_lem session motes (rejoin_request02 two net_id dev_eui rest) h =
    ap (λ (p : Option (ℕ × Motes) × Bool). p.0)
      (get_mote_mtype-to_phy _ (rejoin_request02 two net_id dev_eui rest) h)
mote_of_lem session motes (data_up confirmed dev_addr rest) h =
    ap (λ (p : Option (ℕ × Motes) × Bool). p.0)
      (get_mote_mtype-to_phy _ (data_up confirmed dev_addr rest) h)

-- Two frames of any kind are of one device when the DevEUI they carry, or that of the session of their
-- DevAddr, is the same. In a list in which no DevEUI has two motes both get to a mote, and to the same
-- place of the list, whatever sessions the database has then.
pub mote_of_again :
    (session session' : ℕ → Option ℕ) (motes : Motes) (f f' : Frame)
    → IsFrame f
    → IsFrame f'
    → IsDistinct motes
    → device session f ≡ device session' f'
    → device session f < none_dev_eui
    → (place : ℕ) × (motes' motes'' : Motes) × (mote_of session motes f ≡ some (place, motes'))
      × (mote_of session' motes' f' ≡ some (place, motes''))
mote_of_again session session' motes f f' h h' d same known =
    let found = get_mote session (eui_of f) (addr_of f) motes in
    let again = get_mote session' (eui_of f') (addr_of f') found.1 in
    let place : again.0 ≡ found.0 =
      get_mote_again session session' (eui_of f) (addr_of f) (eui_of f') (addr_of f') motes d same
        known in
    (
      found.0,
      found.1,
      again.1,
      mote_of_lem session motes f h,
      mote_of_lem session' found.1 f' h' ∙ ap (λ (k : ℕ). some (k, again.1)) place,
    )
