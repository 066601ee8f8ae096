-- ===== src/Adcs/Program.antt =====
-- The cases of `adcs_service_app` for the boot programs.
use ex2_services.Base.{ℕ, ◌+◌, List, [], ◌∷◌}
use ex2_services.Csp.Bytes.{Endian}
use ex2_services.Csp.Network.{Network}
use ex2_services.Csp.Packet.{Packet, SatReturn, in_data_byte}
use ex2_services.Communication.Answer.{Reads, reply, reply_data}
use ex2_services.Adcs.Answer.{FieldType, in_network, c_bool}

-- The structs that the service converts, at the values of their fields, or at the types of these.
pub record BootloaderState (A : Type 0) : Type 0 where
  pub uptime : A
  pub flags_arr : A

pub record ProgramInfo (A : Type 0) : Type 0 where
  pub index : A
  pub busy : A
  pub file_size : A
  pub crc16_checksum : A

-- The calls of the driver; a `_bytes` is the layout of a struct, a `_size` its `sizeof`.
pub record ProgramHal (W : Type 0) : Type 0 where
  pub clear_err_flags : W → ℕ × W
  pub set_boot_index : (index : ℕ) → W → ℕ × W
  pub run_selected_program : W → ℕ × W
  pub read_program_info : (index : ℕ) → W → ℕ × W
  pub copy_program_internal_flash : (index overwrite_flag : ℕ) → W → ℕ × W
  pub get_bootloader_state : Reads W (BootloaderState ℕ)
  pub bootloader_state_types : BootloaderState FieldType
  pub bootloader_state_bytes : BootloaderState ℕ → List ℕ
  pub get_program_info : Reads W (ProgramInfo ℕ)
  pub program_info_types : ProgramInfo FieldType
  pub program_info_bytes : ProgramInfo ℕ → List ℕ
  pub copy_internal_flash_progress : (busy err : ℕ) → W → ℕ × ℕ × ℕ × W

module _ {e : Endian} (net : Network e) {W : Type 0} (hal : ProgramHal W) (data_size : ℕ) where
  unfoldable pub adcs_clear_err_flags : Packet → W → SatReturn × Packet × W
  adcs_clear_err_flags packet w = reply packet (hal.clear_err_flags w)

  unfoldable pub adcs_set_boot_index : Packet → W → SatReturn × Packet × W
  adcs_set_boot_index packet w = reply packet (hal.set_boot_index (packet.bytes in_data_byte) w)

  unfoldable pub adcs_run_selected_program : Packet → W → SatReturn × Packet × W
  adcs_run_selected_program packet w = reply packet (hal.run_selected_program w)

  unfoldable pub adcs_read_program_info : Packet → W → SatReturn × Packet × W
  adcs_read_program_info packet w =
      reply packet (hal.read_program_info (packet.bytes in_data_byte) w)

  unfoldable pub adcs_copy_program_internal_flash : Packet → W → SatReturn × Packet × W
  adcs_copy_program_internal_flash packet w = reply packet (
      hal.copy_program_internal_flash (packet.bytes in_data_byte) (packet.bytes (in_data_byte + 1))
        w)

  unfoldable pub adcs_get_bootloader_state : Packet → W → SatReturn × Packet × W
  adcs_get_bootloader_state packet w =
      let (status, x, w₁) = hal.get_bootloader_state w in
      let t = hal.bootloader_state_types in
      let converted : BootloaderState ℕ = record {
        uptime = in_network net t.uptime x.uptime;
        flags_arr = in_network net t.flags_arr x.flags_arr;
      } in
      reply_data data_size packet status (hal.bootloader_state_bytes converted) w₁

  unfoldable pub adcs_get_program_info : Packet → W → SatReturn × Packet × W
  adcs_get_program_info packet w =
      let (status, x, w₁) = hal.get_program_info w in
      let t = hal.program_info_types in
      let converted : ProgramInfo ℕ = record {
        index = in_network net t.index x.index;
        busy = in_network net t.busy x.busy;
        file_size = in_network net t.file_size x.file_size;
        crc16_checksum = in_network net t.crc16_checksum x.crc16_checksum;
      } in
      reply_data data_size packet status (hal.program_info_bytes converted) w₁

  unfoldable pub adcs_copy_internal_flash_progress : Packet → W → SatReturn × Packet × W
  adcs_copy_internal_flash_progress packet w =
      let (status, busy, err, w₁) = hal.copy_internal_flash_progress 0 0 w in
      let bs = in_network net c_bool busy ∷ in_network net c_bool err ∷ [] in
      reply_data data_size packet status bs w₁
