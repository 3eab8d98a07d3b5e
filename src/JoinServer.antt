-- ===== src/JoinServer.antt =====
-- join_server/main.c, the join server: the keys that it derives, the encryption of the join-accept,
-- and the nonces of join requests.
pub mod Keys
pub mod Nonces
pub mod Request
pub mod JoinAccept
