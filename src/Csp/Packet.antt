-- ===== src/Csp/Packet.antt =====
-- `csp_packet_t` as the services see it, and the offsets of Services/include/services.h.
use ex2_services.Base.{ℕ, List, ◌∷◌, [], ◌%◌}
use ex2_services.Csp.Bytes.{Memory, put}

-- The reports of `SAT_returnState` that the services give.
pub data SatReturn : Type 0 where
  satr_ok satr_error satr_pkt_illegal_subservice : SatReturn

abbrev pub subservice_byte : ℕ
subservice_byte = 0

abbrev pub status_byte : ℕ
status_byte = 1

abbrev pub in_data_byte : ℕ
in_data_byte = 1

abbrev pub out_data_byte : ℕ
out_data_byte = 2

-- `buffer` is the address of the packet, by which libcsp knows it.
pub record Packet : Type 0 where
  pub buffer : ℕ
  pub length : ℕ
  pub bytes : Memory

-- `set_packet_length`: the parameter is a uint16_t.
abbrev pub set_packet_length : Packet → ℕ → Packet
set_packet_length p n = record p { length = n % 65536 }

-- memcpy into `packet->data[off]`.
abbrev pub write : Packet → ℕ → List ℕ → Packet
write p off bs = record p { bytes = put off bs p.bytes }

-- A status is an int8_t, kept as its byte: -1 is 255.
abbrev pub minus_one : ℕ
minus_one = 255

-- memcpy of the status to the status byte; `status` is an int8_t, so an `int` is cut to a byte.
abbrev pub write_status : Packet → ℕ → Packet
write_status p status = write p status_byte (status % 256 ∷ [])
