-- ===== src/Housekeeping.antt =====
-- Services/source/housekeeping/housekeeping_service.c: the data of all devices, collected in a ring
-- of numbered files, found by timestamp, and sent to the ground.
pub mod Timestamps
pub mod Search
pub mod State
pub mod Config
pub mod Storage
pub mod Operations
pub mod Collect
pub mod Fetch
pub mod App
