-- ===== src/Dsm.antt =====
-- Distributed shared memory of mattx_fileio.c in mode 2: the home node's directory of pages, the
-- guest's copies and faults, and the table of calls that wait for an answer.
pub mod Directory
pub mod Guest
pub mod Rpc
pub mod Trap
