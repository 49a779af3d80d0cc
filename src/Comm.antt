-- ===== src/Comm.antt =====
-- mattx_comm.c: framing over TCP, the sender, the receiver thread, the dispatch table.
pub mod Header
pub mod Kernel
pub mod Receive
pub mod Send
pub mod Dispatch
pub mod Delivery
