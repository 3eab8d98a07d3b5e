-- ===== src/NetworkServer/Uplink/Accepts.antt =====
-- Which LoRaWAN 1.0 uplinks `sNS_uplink` of network_server/sNS.c accepts.
use lo_ra_wan_backend.Base.{ℕ, ◌+◌, ◌*◌, ◌/◌, ◌^◌, ◌≡◌, refl, ap, ◌∙◌}
use lo_ra_wan_backend.Base.{Bool, true, false, ◌&&◌, if◌then◌else◌, ◌==◌}
use lo_ra_wan_backend.Base.{List, length, Option, none, some, ◌>>=◌}
use lo_ra_wan_backend.NetworkServer.MacQueue.{MacQueue}
use lo_ra_wan_backend.NetworkServer.FrameCounter.{in_window}
use lo_ra_wan_backend.NetworkServer.Integrity.{check_mic}
use lo_ra_wan_backend.NetworkServer.Downlink.{MoteSession, Server, rx_fcnt}
use lo_ra_wan_backend.NetworkServer.Downlink.Schedule.{IsServer}
use lo_ra_wan_backend.NetworkServer.Uplink.{
  MicResult, Arrival, UplinkResult, success, replay, mic_failed, SessionCheck, go_on,
  check_uplink_mic, rx_dev_addr,
}
use lo_ra_wan_backend.NetworkServer.Uplink.Keeps.{IsArrival}
use lo_ra_wan_backend.NetworkServer.Uplink.Survives.{rx_mic4-within}

-- The 32-bit counter of a frame, and its MIC.
abbrev pub full_fcnt : Arrival → MoteSession → ℕ
full_fcnt a n = n.fcnt_up / 2 ^ 16 * 2 ^ 16 + rx_fcnt a.ul_payload_bin

abbrev pub is_right : Option Bool → Bool
is_right none = false
is_right (some ok) = ok

abbrev pub genuine : (List ℕ → List ℕ → List ℕ) → Arrival → MoteSession → Bool
genuine cmac a n = is_right (
    check_mic cmac n.s_nwk_s_int_key (rx_dev_addr a) (full_fcnt a n) a.ul_payload_bin
      a.ul_phy_payload_len)

abbrev pub fresh_enough : Arrival → MoteSession → Bool
fresh_enough a n = in_window n.fcnt_up (rx_fcnt a.ul_payload_bin)

-- The verdict on an uplink, and what a refused one leaves: the session and the queue.
pub record Judged (a : Arrival) (n : MoteSession) (q : MacQueue) (good : Bool)
    (result : Option UplinkResult) : Type 0 where
  pub handled : UplinkResult
  pub returns : result ≡ some handled
  pub verdict :
      handled.verdict ≡ (if fresh_enough a n then if good then success else mic_failed else replay)
  pub untouched :
      (fresh_enough a n && good) ≡ false → (handled.session ≡ n) × (handled.server.queue ≡ q)
  pub counter :
      (fresh_enough a n && good) ≡ true
      → handled.sql_fcnt_up ≡ (if full_fcnt a n == n.fcnt_up then none else some (full_fcnt a n))

pub if_true : {A : Type 0} {b : Bool} (x y : A) → b ≡ true → (if b then x else y) ≡ x
if_true x y e = rw e refl

pub if_false : {A : Type 0} {b : Bool} (x y : A) → b ≡ false → (if b then x else y) ≡ y
if_false x y e = rw e refl

abbrev the_result : Bool → Server → MicResult
the_result ok s = record { ok = ok; drops = true; server = s }

module _ (aes cmac : List ℕ → List ℕ → List ℕ) (stack : List ℕ) (dev_addr : ℕ)
    (block_size : (key block : List ℕ) → length (aes key block) ≡ 16) where
  check_mic-within :
      (a : Arrival) (n : MoteSession)
      → IsArrival a
      → check_mic cmac n.s_nwk_s_int_key
          (rx_dev_addr a)
          (full_fcnt a n)
          a.ul_payload_bin
          a.ul_phy_payload_len
        ≡ some (genuine cmac a n)
  unfolding check_mic
  check_mic-within a n i =
      let (mic, e) = rx_mic4-within aes cmac stack dev_addr block_size a i in rw e refl

  pub mic_1v0 :
      (a : Arrival) (n : MoteSession) (s : Server)
      → IsArrival a
      → a.sql_opt_neg ≡ false
      → check_uplink_mic aes cmac stack dev_addr a n (full_fcnt a n) a.ch s
        ≡ some record { ok = genuine cmac a n; drops = true; server = s }
  unfolding check_uplink_mic
  mic_1v0 a n s i old =
      if_false _ _ old
      ∙ ap (λ (o : Option Bool). o >>= λ ok. some (the_result ok s)) (check_mic-within a n i)

abbrev GoesOn : Server → Option SessionCheck → Type 0
GoesOn s result = (t : Server) × (result ≡ some (go_on t)) × (t.queue ≡ s.queue) × IsServer t
