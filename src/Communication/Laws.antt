-- ===== src/Communication/Laws.antt =====
-- What the requests to the radios do.
pub mod Keeps
pub mod Settings
pub mod Strings
