-- ===== src/Adcs/Laws.antt =====
-- What the requests to the ADCS service come to.
pub mod Keeps
pub mod Settings
pub mod Values
