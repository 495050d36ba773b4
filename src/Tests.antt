-- ===== src/Tests.antt =====
-- The theorems at concrete data, and runs of the driver's functions.
mod Bus
mod Config
mod Claims
mod Scans
mod Cycle
mod Queues
mod Returned
mod Guests
mod Start
mod Release
mod Machine
mod Plugin
