-- ===== src/Tests.antt =====
-- The theorems at concrete inputs.
mod Wire
mod Caches
mod Walks
mod Zones
mod Replies
mod Signatures
mod Chains
mod Flights
mod Clients
