-- ===== src/Registry.antt =====
-- mattx_guest.c: the tables of guests and exports, the clock fixups, and the ends of processes.
pub mod Slots
pub mod Guests
pub mod Exports
pub mod Clock
pub mod Watch
pub mod Lifecycle
