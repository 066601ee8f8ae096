-- ===== src/Adcs/Files.antt =====
-- The cases of `adcs_service_app` for files, logs and uploads.
use ex2_services.Base.{ℕ, ◌+◌, [], ◌∷◌}
use ex2_services.Csp.Bytes.{Endian}
use ex2_services.Csp.Network.{Network}
use ex2_services.Csp.Packet.{Packet, SatReturn, satr_ok, in_data_byte}
use ex2_services.Communication.Answer.{answer_data, reply}
use ex2_services.Adcs.Answer.{in_u16, in_u32, c_bool, Updates}

-- The calls of the driver.
pub record FilesHal (W : Type 0) : Type 0 where
  pub reset : W → ℕ × W
  pub reset_log_pointer : W → ℕ × W
  pub advance_log_pointer : W → ℕ × W
  pub reset_boot_registers : W → ℕ × W
  pub format_sd_card : W → ℕ × W
  pub erase_file : (file_type file_counter erase_all : ℕ) → W → ℕ × W
  pub load_file_download_block : (file_type counter offset block_length : ℕ) → W → ℕ × W
  pub advance_file_list_read_pointer : W → ℕ × W
  pub initiate_file_upload : (file_dest block_size : ℕ) → W → ℕ × W
  pub file_upload_packet : ℕ → Updates W ℕ
  pub finalize_upload_block : (file_dest offset block_length : ℕ) → W → ℕ × W
  pub reset_upload_block : W → ℕ × W
  pub reset_file_list_read_pointer : W → ℕ × W
  pub initiate_download_burst : (msg_length ignore_hole_map : ℕ) → W → ℕ × W

module _ {e : Endian} (net : Network e) {W : Type 0} (hal : FilesHal W) (data_size : ℕ) where
  unfoldable pub adcs_reset : Packet → W → SatReturn × Packet × W
  adcs_reset packet w = reply packet (hal.reset w)

  unfoldable pub adcs_reset_log_pointer : Packet → W → SatReturn × Packet × W
  adcs_reset_log_pointer packet w = reply packet (hal.reset_log_pointer w)

  unfoldable pub adcs_advance_log_pointer : Packet → W → SatReturn × Packet × W
  adcs_advance_log_pointer packet w = reply packet (hal.advance_log_pointer w)

  unfoldable pub adcs_reset_boot_registers : Packet → W → SatReturn × Packet × W
  adcs_reset_boot_registers packet w = reply packet (hal.reset_boot_registers w)

  unfoldable pub adcs_format_sd_card : Packet → W → SatReturn × Packet × W
  adcs_format_sd_card packet w = reply packet (hal.format_sd_card w)

  unfoldable pub adcs_erase_file : Packet → W → SatReturn × Packet × W
  adcs_erase_file packet w = reply packet (
      hal.erase_file (packet.bytes in_data_byte) (packet.bytes (in_data_byte + 1))
        (packet.bytes (in_data_byte + 2)) w)

  unfoldable pub adcs_load_file_download_block : Packet → W → SatReturn × Packet × W
  adcs_load_file_download_block packet w = reply packet (
      hal.load_file_download_block (packet.bytes in_data_byte) (packet.bytes (in_data_byte + 1))
        (in_u32 net packet 2) (in_u16 net packet 6) w)

  unfoldable pub adcs_advance_file_list_read_pointer : Packet → W → SatReturn × Packet × W
  adcs_advance_file_list_read_pointer packet w = reply packet (hal.advance_file_list_read_pointer w)

  unfoldable pub adcs_initiate_file_upload : Packet → W → SatReturn × Packet × W
  adcs_initiate_file_upload packet w =
      reply packet
        (hal.initiate_file_upload (packet.bytes in_data_byte) (packet.bytes (in_data_byte + 1)) w)

  -- `char file_bytes` holds what the stack held.
  unfoldable pub adcs_file_upload_packet : ℕ → Packet → W → SatReturn × Packet × W
  adcs_file_upload_packet stack packet w =
      let (status, file_bytes, w₁) = hal.file_upload_packet (in_u16 net packet 0) stack w in
      (satr_ok, answer_data packet status (file_bytes ∷ []), w₁)

  unfoldable pub adcs_finalize_upload_block : Packet → W → SatReturn × Packet × W
  adcs_finalize_upload_block packet w = reply packet (
      hal.finalize_upload_block (packet.bytes in_data_byte) (in_u32 net packet 1)
        (in_u16 net packet 5) w)

  unfoldable pub adcs_reset_upload_block : Packet → W → SatReturn × Packet × W
  adcs_reset_upload_block packet w = reply packet (hal.reset_upload_block w)

  unfoldable pub adcs_reset_file_list_read_pointer : Packet → W → SatReturn × Packet × W
  adcs_reset_file_list_read_pointer packet w = reply packet (hal.reset_file_list_read_pointer w)

  unfoldable pub adcs_initiate_download_burst : Packet → W → SatReturn × Packet × W
  adcs_initiate_download_burst packet w = reply packet (
      hal.initiate_download_burst (packet.bytes in_data_byte)
        (c_bool.of_u32 (packet.bytes (in_data_byte + 1))) w)
