-- ===== src/Adcs/Answer.antt =====
-- How the cases of `adcs_service_app` read their arguments, convert what they answer, and answer.
use ex2_services.Base.{ℕ, ◌+◌, ◌%◌, ◌==◌, if◌then◌else◌, List, length}
use ex2_services.Csp.Bytes.{Endian}
use ex2_services.Csp.Convert.{cnv8_16, cnv8_32}
use ex2_services.Csp.Network.{Network}
use ex2_services.Csp.Packet.{
  Packet, SatReturn, in_data_byte, out_data_byte, set_packet_length, write, write_status,
}
use ex2_services.Communication.Answer.{check_size}

-- A driver is given the address of a variable, and may change it.
abbrev pub Updates : Type 0 → Type 0 → Type 0
Updates W A = A → W → ℕ × A × W

-- The type of a variable or a field: how C converts its values to uint32_t, and a uint32_t to it.
-- A value is its pattern of bits.
pub record FieldType : Type 0 where
  pub to_u32 : ℕ → ℕ
  pub of_u32 : ℕ → ℕ

-- uint8_t, uint16_t and bool.
abbrev pub uint8 : FieldType
uint8 = record { to_u32 = λ x. x; of_u32 = λ x. x % 256 }

abbrev pub uint16 : FieldType
uint16 = record { to_u32 = λ x. x; of_u32 = λ x. x % 65536 }

abbrev pub c_bool : FieldType
c_bool = record { to_u32 = λ x. x; of_u32 = λ x. if x == 0 then 0 else 1 }

module _ {e : Endian} (net : Network e) where
  -- `x = csp_hton32((uint32_t)x)`, stored back into the variable.
  unfoldable pub in_network : FieldType → ℕ → ℕ
  in_network t x = t.of_u32 (net.hton32 (t.to_u32 x))

  -- `cnv8_16`, or `cnv8_32`, and the conversion to the host, `i` bytes into the data of a request.
  unfoldable pub in_u16 : Packet → ℕ → ℕ
  in_u16 packet i = net.ntoh16 (cnv8_16 e packet.bytes (in_data_byte + i))

  unfoldable pub in_u32 : Packet → ℕ → ℕ
  in_u32 packet i = net.ntoh32 (cnv8_32 e packet.bytes (in_data_byte + i))

-- An answer whose data is written only where the status, an int8_t, is `SATR_OK`; its length counts
-- the data all the same.
unfoldable pub reply_if_ok : {W : Type 0} → ℕ → ℕ → Packet → ℕ → List ℕ → W → SatReturn × Packet × W
unfolding check_size
reply_if_ok satr_ok_number data_size packet status bs w =
    let stated = write_status packet status in
    let answer =
      if (status % 256) == satr_ok_number then write stated out_data_byte bs else stated in
    (check_size data_size (length bs), set_packet_length answer (1 + length bs + 1), w)
