-- ===== src/Tests.antt =====
-- Concrete inputs on which the theorems apply, part by part.
mod Comm
mod Registry
mod Sched
mod Cluster
mod Dsm
mod Space
mod Migr
mod Import
mod Disk
mod Vfs
mod Deputy
mod Mattxfs
