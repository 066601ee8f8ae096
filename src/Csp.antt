-- ===== src/Csp.antt =====
-- Packets, byte order and the integer conversions of Services/source/util/service_utilities.c and
-- Services/include/services.h, and what the services ask of libcsp.
pub mod Bytes
pub mod Packet
pub mod Convert
pub mod Network
