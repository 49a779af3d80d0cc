-- ===== src/Mattxfs.antt =====
-- mattxfs (mattxfs/mattxfs.c): a directory per node, and in it the files of that node.
pub mod Paths
pub mod Listing
pub mod Files
pub mod Lookup
