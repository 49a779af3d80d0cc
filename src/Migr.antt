-- ===== src/Migr.antt =====
-- Migration: the capture of a process on the node it leaves, the data pump, and the recall.
pub mod Blueprint
pub mod Effects
pub mod Gang
pub mod AddressSpace
pub mod Capture
pub mod Pump
pub mod Recall
