-- ===== src/Tests.antt =====
-- Every theorem of the header's list that has a hypothesis or a variable, at concrete data.
mod Secrets
mod Passes
mod Origins
mod Entries
mod Claims
mod Payloads
mod Drops
mod Waits
mod Refusals
mod Transfers
mod Edits
