-- ===== src/Sched.antt =====
-- mattx_sched.c: which tasks count and which may move, the load, the choice of a task and of a node.
pub mod Names
pub mod Tasks
pub mod Balance
