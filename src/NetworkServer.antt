-- ===== src/NetworkServer.antt =====
-- network_server/, the network server: its serving part (sNS.c), its forwarding part (fNS.c), and
-- what they share (common.c).
pub mod MacQueue
pub mod FrameCounter
pub mod Integrity
pub mod Downlink
pub mod Adr
pub mod SessionStart
pub mod Uplink
pub mod Assign
pub mod Token
pub mod TxPacket
pub mod Transmit
pub mod Collect
pub mod Answers
pub mod Motes
pub mod Roaming
pub mod Transactions
pub mod ForceRejoin
pub mod PingSlot
pub mod MacCommands
pub mod Bands
pub mod Gateway
pub mod MoteLookup
