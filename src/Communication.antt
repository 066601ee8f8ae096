-- ===== src/Communication.antt =====
-- Services/source/communication/communication_service.c: the requests of the ground to the S-band
-- transmitter and to the UHF radio.
pub mod Answer
pub mod Sband
pub mod Uhf
pub mod Messages
pub mod App
pub mod Laws
