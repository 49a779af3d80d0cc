-- ===== src/Import.antt =====
-- mattx_import.c: a process is rebuilt on the node where it arrives, or comes back.
pub mod Pages
pub mod Threads
pub mod Carver
pub mod Effects
pub mod Stub
pub mod Arrival
pub mod Return
