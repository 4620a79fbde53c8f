-- ===== src/Tests.antt =====
-- The theorems at concrete inputs.
mod Fixtures
mod Witnesses
mod Wire
mod Packing
mod Restored
mod Receivers
mod Senders
mod Linked
mod Figures
mod Memory
mod Fpdus
mod Endings
