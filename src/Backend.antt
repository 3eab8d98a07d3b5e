-- ===== src/Backend.antt =====
-- libbackend/, the code that the three servers share.
pub mod Bytes
pub mod Hex
pub mod DevAddr
pub mod Cipher
