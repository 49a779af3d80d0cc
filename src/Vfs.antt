-- ===== src/Vfs.antt =====
-- The files of another node, mattx_rpc_vfs_x and handle_vfs_x of mattx_fileio.c: the calls that
-- mattxfs makes, the node that serves them, and the messages between the two.
pub mod Disk
pub mod Wire
pub mod Home
pub mod Calls
pub mod Readdir
pub mod Client
pub mod Ops
