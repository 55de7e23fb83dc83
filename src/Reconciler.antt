-- ===== src/Reconciler.antt =====
-- drop/reconciler.py.
pub mod Latch
pub mod Trigger
pub mod Finalize
pub mod Edits
pub mod Pass
pub mod Settled
pub mod Once
pub mod Numeric
pub mod Origins
pub mod Guarded
pub mod Total
pub mod Keeps
