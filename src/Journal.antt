-- ===== src/Journal.antt =====
-- drop/journal.py: the durable record, one JSON file for each drop.
pub mod Entry
pub mod Store
pub mod Write
pub mod Atomic
pub mod Sound
pub mod Claims
pub mod Update
pub mod Reads
