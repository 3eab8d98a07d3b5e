-- ===== src/Lib.antt =====
-- LoRaWAN backend: the join server, the network server (its forwarding part fNS and its serving
-- part sNS) and the application server, which exchange JSON over HTTP and share libbackend/.
-- A gateway hands an uplink to fNS, which passes it to sNS; sNS tests its counter and its integrity
-- code, runs its MAC commands, and schedules a downlink, which takes MAC commands from a queue. A join
-- request goes to the join server, which derives the session keys.
--
-- Which file models which part:
--   Backend/Bytes, Hex      write*ByteValue, eui_buf_to_uint64, uint64_to_eui_buf, getInt,
--                           ascii_hex_to_buf and numHexDigits of libbackend/libserver.c
--   Backend/Cipher          LoRa_Encrypt and its helpers of libbackend/libserver.c
--   Backend/DevAddr         parseDevAddr of libbackend/libserver.c, and the address base of fNS_init
--                           of network_server/fNS.c
--   NetworkServer/MacQueue  mac_cmd_queue of s_t (network_server/sNS.h) and the functions of
--                           network_server/sNS.c that work on it: put_queue_mac_cmds,
--                           clear_queued_mac_cmd, wipe_queued_mac_cmds, are_mac_cmds_queued, and the
--                           loop of get_queued_mac_cmds (take_queued_mac_cmds)
--   NetworkServer/FrameCounter  the replay test of sNS_uplink and fNS_XmitDataReq_uplink
--   NetworkServer/Integrity     block_t, the integrity codes, check_cmacS and check_cmacF
--   NetworkServer/Assign        getDevAddr of network_server/sNS.c
--   NetworkServer/Transactions  next_tid of network_server/common.c
--   NetworkServer/ForceRejoin   sNS_force_rejoin of network_server/sNS.c
--   NetworkServer/PingSlot      LoRaMacBeaconComputePingOffset and the slot choice of fNS_downlink
--   NetworkServer/MacCommands   the loop of parse_mac_command of network_server/sNS.c, and
--                               network_controller_mote_init of network_server/adr.c
--   NetworkServer/MoteLookup    GetMoteMtype of network_server/common.c
--   NetworkServer/Gateway       parse_uplink of network_server/gateway.c
--   NetworkServer/Bands         the data rates and channels of network_server/band_*.c
--   JoinServer/Request          the tests at the start of parse_rf_join_req of join_server/main.c
--   NetworkServer/Downlink      sNS_schedule_downlink and get_queued_mac_cmds of
--                               network_server/sNS.c; below it Outcome (hNS_to_sNS_downlink,
--                               answer_app_downlink, sNSDownlinkSent) and its Steps, the frame's
--                               proofs (Frame, Parts, Sending, Schedule), and EndDevice (the frame
--                               as it is read)
--   NetworkServer/Adr           network_controller_uplink and network_controller_adr of
--                               network_server/adr.c
--   NetworkServer/SessionStart  init_session of network_server/sNS.c with the commands of
--                               network_server/band_arib8ch.c
--   NetworkServer/Uplink        sNS_uplink of network_server/sNS.c, composed of all these; below it
--                               Keeps, Survives and Accepts, Life (events in any order) and Delivery
--                               (one payload of the application)
--   JoinServer/JoinAccept       the rest of parse_rf_join_req: the nonce, the join-accept and the
--                               session keys; below it EndDevice (the answer as it is read) and Replay
--   NetworkServer/Token         ULToken_t of network_server/ns.h, its text and its reading in
--                               network_server/fNS.c
--   NetworkServer/TxPacket      gateway_id_write_downlink and gateway_write_downlink of
--                               network_server/gateway.c; below it Wire (the bytes)
--   NetworkServer/Transmit      fNS_downlink of network_server/fNS.c; below it Finding (gateway, region
--                               and data rate), Windows (class A) and Lost (a socket that fails)
--   NetworkServer/Collect       fNS_uplink_direct of network_server/fNS.c and save_uplink_start of
--                               network_server/common.c; below it Json (uplinkJson), the uplink that
--                               is kept (Strongest, Sources, Window), and Hazards
--   NetworkServer/Answers       the loop at jsonHandler of finish and r_post_ans_to_ns of
--                               network_server/common.c; below it Faults
--   NetworkServer/Motes         getMote and create_mote of network_server/common.c; below it Identity
--                               (which mote is given), Distinct, and Frames (with GetMoteMtype)
--   NetworkServer/Roaming       sql_motes_query, mote_update_database_roam, RStop and the roaming in finish
--                               and xRStartAnsCallback of network_server/common.c, with the home side
--                               in network_server/sNS.c; below it Stops and Partners
--   JoinServer/Keys, Nonces     the keys, the join-accept and the nonces of join_server/main.c
--   Base                        shared names, tests, lists and the laws of bit operations
--   Tests                       the theorems on concrete data
--
-- State is passed explicitly. A pointer that is moved along is the list that stands behind it. A C
-- array is a list; numbers are natural numbers, with the wrap-around of their width where the code
-- can reach it. The loops round the command queue take fuel 7, more than the six slots; LoRa_Encrypt
-- takes fuel 18, one more than the rounds for 255 bytes; the MAC commands and the ping slot loop take
-- one more than their length and their limit, and the loops of
-- network_controller_adr take 256, the values of their 8-bit index. The theorems show that the fuel is enough.
--
-- AES, CMAC and the SQL database are parameters. Not modelled: HTTP, JSON, SQL texts, DNS, the web
-- pages, and computations on floating point numbers, whose results are inputs. Nor are the
-- service loops, the beacons of a gateway and its time on air, the choice between local and remote
-- transmission in sNS, the key envelopes of a join answer, and the JSON of the requests between servers.
mod Base
pub mod Backend
pub mod NetworkServer
pub mod JoinServer
pub mod Tests
