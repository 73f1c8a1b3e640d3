-- ===== src/Tests.antt =====
-- The theorems at concrete inputs: hives, stores and counters with a few tasks.
mod Hives
mod Samples
mod Tasks
mod Ends
mod Gates
mod Maps
mod Tries
mod Stores
mod Counters
mod Closings
mod Orders
