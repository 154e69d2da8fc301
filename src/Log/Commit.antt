-- ===== src/Log/Commit.antt =====
-- `commit`: the transaction takes effect at one write, that of the header.
pub mod Write
pub mod Latest
pub mod Cuts
pub mod Atomic
