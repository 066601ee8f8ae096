-- ===== src/Communication/Answer.antt =====
-- How the cases of `communication_service_app` answer, and the calls of the drivers.
use ex2_services.Base.{ℕ, ◌+◌, ltb, if◌then◌else◌, List, length}
use ex2_services.Housekeeping.Timestamps.{Run, done, out_of_bounds}
use ex2_services.Csp.Packet.{
  Packet, SatReturn, satr_ok, satr_error, out_data_byte, set_packet_length, write, write_status,
}

-- A driver reads something, or sets something, and gives its status.
abbrev pub Reads : Type 0 → Type 0 → Type 0
Reads W A = W → ℕ × A × W

abbrev pub Sets : Type 0 → Type 0 → Type 0
Sets W A = A → W → ℕ × W

-- `csp_htonflt` and `csp_ntohflt`, on the 32 bits of a float.
pub record Floats : Type 0 where
  pub htonflt : ℕ → ℕ
  pub ntohflt : ℕ → ℕ

-- The answer that is a status only.
unfoldable pub answer_status : Packet → ℕ → Packet
answer_status packet status = set_packet_length (write_status packet status) 2

-- The answer of a status and data.
unfoldable pub answer_data : Packet → ℕ → List ℕ → Packet
answer_data packet status bs =
    set_packet_length (write (write_status packet status) out_data_byte bs) (1 + length bs + 1)

-- `if (sizeof(data) + 1 > csp_buffer_data_size()) return_state = SATR_ERROR;`
unfoldable pub check_size : ℕ → ℕ → SatReturn
check_size data_size size = if ltb data_size (size + 1) then satr_error else satr_ok

module _ {W : Type 0} where
  unfoldable pub reply : Packet → ℕ × W → SatReturn × Packet × W
  unfolding answer_status
  reply packet (status, w) = (satr_ok, answer_status packet status, w)

  -- The whole answer of a case that gets data; the answer is written even where it does
  -- not fit, which `within` then finds.
  unfoldable pub reply_data : ℕ → Packet → ℕ → List ℕ → W → SatReturn × Packet × W
  unfolding answer_data check_size
  reply_data data_size packet status bs w =
      (check_size data_size (length bs), answer_data packet status bs, w)

  -- The data of an answer are copied behind the status up to the answer's length, whatever the check
  -- of the size has found: where that is behind the end of the buffer, the copy leaves the buffer.
  unfoldable pub within : ℕ → SatReturn × Packet × W → Run (SatReturn × Packet × W)
  within data_size (report, answer, w) =
      if ltb data_size answer.length then out_of_bounds else done (report, answer, w)
