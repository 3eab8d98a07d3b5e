-- ===== src/NetworkServer/Uplink/Life.antt =====
-- The life of a session in network_server/sNS.c: payloads that come from the application, uplinks,
-- reports of what was sent, and calls on the queue, in any order. Between two uplinks the session is
-- read from the database again.
use lo_ra_wan_backend.Base.{ℕ, ◌≤◌, ◌≡◌, refl, sym, ◌∙◌}
use lo_ra_wan_backend.Base.{Bool, false, ◌&&◌, ◌==◌}
use lo_ra_wan_backend.Base.{List, [], ◌∷◌, length, Option, none, some, ◌>>=◌}
use mathlib.Core.Path.{subst}
use lo_ra_wan_backend.NetworkServer.MacQueue.Script.{Call, call, IsProper, call-Refines}
use lo_ra_wan_backend.NetworkServer.Downlink.{MoteSession, Server, mtype, mtype_conf_up}
use lo_ra_wan_backend.NetworkServer.Downlink.Outcome.{
  AppDownlink, store_downlink, downlink_sent, Result,
}
use lo_ra_wan_backend.NetworkServer.Downlink.Schedule.{IsServer}
use lo_ra_wan_backend.NetworkServer.Downlink.Steps.{
  server_of, store_downlink-Keeps, downlink_sent-IsServer, downlink_sent-opt_neg,
}
use lo_ra_wan_backend.NetworkServer.Uplink.{Arrival, sns_uplink}
use lo_ra_wan_backend.NetworkServer.Uplink.Keeps.{IsArrival}
use lo_ra_wan_backend.NetworkServer.Uplink.Survives.{sns_uplink-Survives}

-- The session with the counter that was written.
abbrev pub read_again : Option ℕ → MoteSession → MoteSession
read_again none n = n
read_again (some fcnt_up) n = record n { fcnt_up = fcnt_up }

-- One event: a payload, an uplink, the report of a transmission, and a call on the queue of MAC
-- commands.
pub data Event : Type 0 where
  payload : (sql_opt_neg supports_class_c : Bool) → AppDownlink → Event
  uplink : Arrival → Event
  report : Result → Bool → Event
  queue_call : Call → Event

module _ (aes cmac : List ℕ → List ℕ → List ℕ) (stack : List ℕ) (dev_addr : ℕ) where
  pub happens : MoteSession → Server → Event → Option (MoteSession × Server)
  happens n s (payload o c app) = do t ← store_downlink o c n app s; some (n, server_of s t)
  happens n s (uplink a) = do
    r ← sns_uplink aes cmac stack dev_addr a n s
    some (read_again r.sql_fcnt_up r.session, r.server)
  happens n s (report r posted) = some (downlink_sent r posted n s)
  happens n s (queue_call c) = do q ← call s.queue c; some (n, record s { queue = q })

  pub life : MoteSession → Server → List Event → Option (MoteSession × Server)
  life n s [] = some (n, s)
  life n s (e ∷ es) = do t ← happens n s e; life t.0 t.1 es

-- A payload fits beside 15 bytes of commands; with LoRaWAN 1.1, no uplink is confirmed, for then the
-- length of a frame that was not sent is kept.
abbrev pub IsUsual : Bool → Event → Type 0
IsUsual opt_neg (payload o c app) = length app.payload ≤ 227
IsUsual opt_neg (uplink a) =
    IsArrival a × ((opt_neg && (mtype a.ul_payload_bin == mtype_conf_up)) ≡ false)
IsUsual opt_neg (report r posted) = Unit
IsUsual opt_neg (queue_call c) = IsProper c

abbrev pub AllUsual : Bool → List Event → Type 0
AllUsual opt_neg [] = Unit
AllUsual opt_neg (e ∷ es) = IsUsual opt_neg e × AllUsual opt_neg es

same_version : (o : Option ℕ) (n : MoteSession) → (read_again o n).opt_neg ≡ n.opt_neg
same_version none n = refl
same_version (some fcnt_up) n = refl

-- A run that ended, in LoRaWAN of the same version.
pub record Lives (opt_neg : Bool) (result : Option (MoteSession × Server)) : Type 0 where
  pub session : MoteSession
  pub server : Server
  pub returns : result ≡ some (session, server)
  pub version : session.opt_neg ≡ opt_neg
  pub valid : IsServer server

module _ (aes cmac : List ℕ → List ℕ → List ℕ) (stack : List ℕ) (dev_addr : ℕ)
    (block_size : (key block : List ℕ) → length (aes key block) ≡ 16) where
  happens-Lives :
      (n : MoteSession) (s : Server) (e : Event)
      → 15 ≤ length stack
      → IsServer s
      → IsUsual n.opt_neg e
      → Lives n.opt_neg (happens aes cmac stack dev_addr n s e)
  unfolding happens
  happens-Lives n s (payload o c app) k v h =
      let (t, returns, valid) = store_downlink-Keeps o c n app s v h in
      record {
        session = n;
        server = server_of s t;
        returns = rw returns refl;
        version = refl;
        valid = valid;
      }
  happens-Lives n s (uplink a) k v h =
      let r = sns_uplink-Survives aes cmac stack dev_addr block_size a n s h.0 k v h.1 in
      record {
        session = read_again r.handled.sql_fcnt_up r.handled.session;
        server = r.handled.server;
        returns = rw r.returns refl;
        version = same_version r.handled.sql_fcnt_up r.handled.session ∙ r.version;
        valid = r.valid;
      }
  happens-Lives n s (report r posted) k v h = record {
    session = _;
    server = _;
    returns = refl;
    version = downlink_sent-opt_neg r posted n s;
    valid = downlink_sent-IsServer r posted n s v;
  }
  happens-Lives n s (queue_call c) k v h =
      let r = call-Refines s.queue c v.ready h in
      record {
        session = n;
        server = record s { queue = r.queue };
        returns = rw r.returns refl;
        version = refl;
        valid = record {
          ready = r.ready;
          room = v.room;
          conf_room = v.conf_room;
          frm_room = v.frm_room;
          frm_fits = v.frm_fits;
          len_fits = v.len_fits;
          conf_fits = v.conf_fits;
        };
      }

  -- Whatever order payloads of up to 227 bytes, uplinks of 4 to 255 bytes, handled by `sNS_uplink` (with
  -- no confirmed ones in LoRaWAN 1.1), reports and proper queue calls come in, every call returns,
  -- nothing is written behind the end of an array, and `s_t` stays as it should be.
  pub life-Lives :
      (n : MoteSession) (s : Server) (es : List Event)
      → 15 ≤ length stack
      → IsServer s
      → AllUsual n.opt_neg es
      → Lives n.opt_neg (life aes cmac stack dev_addr n s es)
  unfolding life
  life-Lives n s [] k v h = record {
    session = n;
    server = s;
    returns = refl;
    version = refl;
    valid = v;
  }
  life-Lives n s (e ∷ es) k v h =
      let one = happens-Lives n s e k v h.0 in
      let usual = subst (λ o. AllUsual o es) (sym one.version) h.1 in
      let rest = life-Lives one.session one.server es k one.valid usual in
      record {
        session = rest.session;
        server = rest.server;
        returns = rw one.returns rest.returns;
        version = rest.version ∙ one.version;
        valid = rest.valid;
      }
