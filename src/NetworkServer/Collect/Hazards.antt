-- ===== src/NetworkServer/Collect/Hazards.antt =====
-- What a better local uplink does after one that another network server reported.
use lo_ra_wan_backend.Base.{ℕ, ◌<◌, ◌≡◌, refl, ◌∙◌, arith, Bool, true, ltb}
use lo_ra_wan_backend.Base.{List, some}
use lo_ra_wan_backend.NetworkServer.TxPacket.{Gateway}
use lo_ra_wan_backend.NetworkServer.Transmit.{DataRate}
use lo_ra_wan_backend.NetworkServer.Collect.{Mote, Packet, take_local, add_gateway, uplink_direct}
use lo_ra_wan_backend.NetworkServer.Collect.Strongest.{
  Kept, Collecting, Local, heard_local, take_local-Kept,
}

module _ (now dl_rxwin : ℕ) (datarates : List DataRate) (g : Gateway) (p : Packet) (join_req : Bool)
    (eui : ℕ) (m : Mote) (l : Local g p datarates) (c : Collecting eui m)
    (better : m.best_sq < p.quality) where
  is_taken :
      uplink_direct now dl_rxwin datarates g p join_req m ≡ take_local g p l.dr (add_gateway g p m)
  unfolding uplink_direct
  is_taken =
      let test : ltb m.best_sq p.quality ≡ true = ground arith in
      rw l.known (rw c.running (rw test refl))

  -- An uplink of up to 255 bytes with a known data rate comes from an own gateway, stronger than what is
  -- kept for the mote, whose token has room for ours. It replaces the frame, the signal and the token,
  -- but `bestR` stays: where it points to a requester, it still points to it.
  pub uplink_direct-best_r :
      (place : ℕ)
      → m.best_r ≡ some place
      → (m' : Mote) × (uplink_direct now dl_rxwin datarates g p join_req m ≡ some m')
        × Kept (heard_local g p) m'
        × (m'.best_r ≡ some place)
  uplink_direct-best_r place e =
      let c' : Collecting eui (add_gateway g p m) = record {
        dev_eui = c.dev_eui;
        room = c.room;
        roomy = c.roomy;
        running = c.running;
      } in
      let (m', taken, _, kept, same) =
        take_local-Kept g p datarates l.dr eui (add_gateway g p m) l c' in
      (m', is_taken ∙ taken, kept, same ∙ e)
