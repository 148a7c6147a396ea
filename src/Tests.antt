-- ===== src/Tests.antt =====
-- The theorems at concrete inputs, with runs of the code.
mod Fixtures
mod Values
mod Payments
mod Stores
mod Conversations
mod Streams
mod Wallets
mod Smokes
mod Monitors
mod Repeats
mod Crowds
