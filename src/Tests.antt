-- ===== src/Tests.antt =====
-- Concrete runs of the theorems' statements, one module per part of the program.
mod Queue
mod Server
mod Shared
mod Join
mod Radio
mod Serving
mod Collection
mod Gathering
mod Answering
mod Lookup
