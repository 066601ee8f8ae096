-- ===== src/Adcs/Status.antt =====
-- The cases of `adcs_service_app` for what the ADCS reports of itself, its files and its memory.
use ex2_services.Base.{ℕ, List, [], ◌∷◌}
use ex2_services.Csp.Bytes.{Endian, u16_bytes}
use ex2_services.Csp.Network.{Network}
use ex2_services.Csp.Packet.{Packet, SatReturn}
use ex2_services.Communication.Answer.{Reads, reply_data}
use ex2_services.Adcs.Answer.{FieldType, in_network, c_bool, uint16, Updates, reply_if_ok}

-- The structs that the service converts, at the values of their fields, or at the types of these.
pub record NodeIdentification (A : Type 0) : Type 0 where
  pub node_type : A
  pub interface_ver : A
  pub major_firm_ver : A
  pub minor_firm_ver : A
  pub runtime_s : A
  pub runtime_ms : A

pub record BootProgramStat (A : Type 0) : Type 0 where
  pub mcu_reset_cause : A
  pub boot_cause : A
  pub boot_count : A
  pub boot_idx : A

pub record BootIndex (A : Type 0) : Type 0 where
  pub program_idx : A
  pub boot_stat : A

pub record LastLoggedEvent (A : Type 0) : Type 0 where
  pub time : A
  pub event_id : A
  pub event_param : A

pub record TcAck (A : Type 0) : Type 0 where
  pub last_tc_id : A
  pub tc_processed : A
  pub tc_err_idx : A

pub record FileDownloadBlockStat (A : Type 0) : Type 0 where
  pub ready : A
  pub param_err : A
  pub crc16_checksum : A
  pub length : A

pub record FileInfo (A : Type 0) : Type 0 where
  pub type_ : A
  pub updating : A
  pub counter : A
  pub size : A
  pub time : A
  pub crc16_checksum : A

pub record SramLatchupCount (A : Type 0) : Type 0 where
  pub sram1 : A
  pub sram2 : A

pub record EdacErrCount (A : Type 0) : Type 0 where
  pub single_sram : A
  pub double_sram : A
  pub multi_sram : A

-- The calls of the driver; a `_bytes` is the layout of a struct, a `_size` its `sizeof`. `satr_ok_number` is the enumerator `SATR_OK`.
pub record StatusHal (W : Type 0) : Type 0 where
  pub satr_ok_number : ℕ
  pub get_node_identification : Reads W (NodeIdentification ℕ)
  pub node_identification_types : NodeIdentification FieldType
  pub node_identification_bytes : NodeIdentification ℕ → List ℕ
  pub get_boot_program_stat : Reads W (BootProgramStat ℕ)
  pub boot_program_stat_types : BootProgramStat FieldType
  pub boot_program_stat_bytes : BootProgramStat ℕ → List ℕ
  pub get_boot_index : Reads W (BootIndex ℕ)
  pub boot_index_types : BootIndex FieldType
  pub boot_index_bytes : BootIndex ℕ → List ℕ
  pub get_last_logged_event : Reads W (LastLoggedEvent ℕ)
  pub last_logged_event_types : LastLoggedEvent FieldType
  pub last_logged_event_bytes : LastLoggedEvent ℕ → List ℕ
  pub get_sd_format_process : (format_busy erase_all_busy : ℕ) → W → ℕ × ℕ × ℕ × W
  pub get_tc_ack : Reads W (TcAck ℕ)
  pub tc_ack_types : TcAck FieldType
  pub tc_ack_bytes : TcAck ℕ → List ℕ
  pub get_file_download_buffer : Reads W (ℕ × List ℕ)
  pub file_download_buffer_bytes : (packet_count : ℕ) → (file : List ℕ) → List ℕ
  pub get_file_download_block_stat : Reads W (FileDownloadBlockStat ℕ)
  pub file_download_block_stat_types : FileDownloadBlockStat FieldType
  pub file_download_block_stat_bytes : FileDownloadBlockStat ℕ → List ℕ
  pub get_file_info : Reads W (FileInfo ℕ)
  pub file_info_types : FileInfo FieldType
  pub file_info_bytes : FileInfo ℕ → List ℕ
  pub get_init_upload_stat : Updates W ℕ
  pub get_finalize_upload_stat : (busy err : ℕ) → W → ℕ × ℕ × ℕ × W
  pub get_upload_crc16_checksum : Reads W ℕ
  pub get_sram_latchup_count : Reads W (SramLatchupCount ℕ)
  pub sram_latchup_count_types : SramLatchupCount FieldType
  pub sram_latchup_count_bytes : SramLatchupCount ℕ → List ℕ
  pub get_edac_err_count : Reads W (EdacErrCount ℕ)
  pub edac_err_count_types : EdacErrCount FieldType
  pub edac_err_count_bytes : EdacErrCount ℕ → List ℕ
  pub get_comms_stat : Updates W ℕ

module _ {e : Endian} (net : Network e) {W : Type 0} (hal : StatusHal W) (data_size : ℕ) where
  unfoldable pub adcs_get_node_identification : Packet → W → SatReturn × Packet × W
  adcs_get_node_identification packet w =
      let (status, x, w₁) = hal.get_node_identification w in
      let t = hal.node_identification_types in
      let converted : NodeIdentification ℕ = record {
        node_type = in_network net t.node_type x.node_type;
        interface_ver = in_network net t.interface_ver x.interface_ver;
        major_firm_ver = in_network net t.major_firm_ver x.major_firm_ver;
        minor_firm_ver = in_network net t.minor_firm_ver x.minor_firm_ver;
        runtime_s = in_network net t.runtime_s x.runtime_s;
        runtime_ms = in_network net t.runtime_ms x.runtime_ms;
      } in
      reply_data data_size packet status (hal.node_identification_bytes converted) w₁

  unfoldable pub adcs_get_boot_program_stat : Packet → W → SatReturn × Packet × W
  adcs_get_boot_program_stat packet w =
      let (status, x, w₁) = hal.get_boot_program_stat w in
      let t = hal.boot_program_stat_types in
      let converted : BootProgramStat ℕ = record {
        mcu_reset_cause = in_network net t.mcu_reset_cause x.mcu_reset_cause;
        boot_cause = in_network net t.boot_cause x.boot_cause;
        boot_count = in_network net t.boot_count x.boot_count;
        boot_idx = in_network net t.boot_idx x.boot_idx;
      } in
      reply_data data_size packet status (hal.boot_program_stat_bytes converted) w₁

  unfoldable pub adcs_get_boot_index : Packet → W → SatReturn × Packet × W
  adcs_get_boot_index packet w =
      let (status, x, w₁) = hal.get_boot_index w in
      let t = hal.boot_index_types in
      let converted : BootIndex ℕ = record {
        program_idx = in_network net t.program_idx x.program_idx;
        boot_stat = in_network net t.boot_stat x.boot_stat;
      } in
      reply_data data_size packet status (hal.boot_index_bytes converted) w₁

  unfoldable pub adcs_get_last_logged_event : Packet → W → SatReturn × Packet × W
  adcs_get_last_logged_event packet w =
      let (status, x, w₁) = hal.get_last_logged_event w in
      let t = hal.last_logged_event_types in
      let converted : LastLoggedEvent ℕ = record {
        time = in_network net t.time x.time;
        event_id = in_network net t.event_id x.event_id;
        event_param = in_network net t.event_param x.event_param;
      } in
      reply_data data_size packet status (hal.last_logged_event_bytes converted) w₁

  unfoldable pub adcs_get_sd_format_process : Packet → W → SatReturn × Packet × W
  adcs_get_sd_format_process packet w =
      let (status, format_busy, erase_all_busy, w₁) = hal.get_sd_format_process 0 0 w in
      let bs = in_network net c_bool format_busy ∷ in_network net c_bool erase_all_busy ∷ [] in
      reply_data data_size packet status bs w₁

  unfoldable pub adcs_get_tc_ack : Packet → W → SatReturn × Packet × W
  adcs_get_tc_ack packet w =
      let (status, x, w₁) = hal.get_tc_ack w in
      let t = hal.tc_ack_types in
      let converted : TcAck ℕ = record {
        last_tc_id = in_network net t.last_tc_id x.last_tc_id;
        tc_processed = in_network net t.tc_processed x.tc_processed;
        tc_err_idx = in_network net t.tc_err_idx x.tc_err_idx;
      } in
      reply_data data_size packet status (hal.tc_ack_bytes converted) w₁

  unfoldable pub adcs_get_file_download_buffer : Packet → W → SatReturn × Packet × W
  adcs_get_file_download_buffer packet w =
      let (status, (packet_count, file), w₁) = hal.get_file_download_buffer w in
      reply_data data_size packet status (hal.file_download_buffer_bytes packet_count file) w₁

  unfoldable pub adcs_get_file_download_block_stat : Packet → W → SatReturn × Packet × W
  adcs_get_file_download_block_stat packet w =
      let (status, x, w₁) = hal.get_file_download_block_stat w in
      let t = hal.file_download_block_stat_types in
      let converted : FileDownloadBlockStat ℕ = record {
        ready = in_network net t.ready x.ready;
        param_err = in_network net t.param_err x.param_err;
        crc16_checksum = in_network net t.crc16_checksum x.crc16_checksum;
        length = in_network net t.length x.length;
      } in
      reply_data data_size packet status (hal.file_download_block_stat_bytes converted) w₁

  unfoldable pub adcs_get_file_info : Packet → W → SatReturn × Packet × W
  adcs_get_file_info packet w =
      let (status, x, w₁) = hal.get_file_info w in
      let t = hal.file_info_types in
      let converted : FileInfo ℕ = record {
        type_ = in_network net t.type_ x.type_;
        updating = in_network net t.updating x.updating;
        counter = in_network net t.counter x.counter;
        size = in_network net t.size x.size;
        time = in_network net t.time x.time;
        crc16_checksum = in_network net t.crc16_checksum x.crc16_checksum;
      } in
      reply_data data_size packet status (hal.file_info_bytes converted) w₁

  unfoldable pub adcs_get_init_upload_stat : Packet → W → SatReturn × Packet × W
  adcs_get_init_upload_stat packet w =
      let (status, busy, w₁) = hal.get_init_upload_stat 0 w in
      reply_if_ok hal.satr_ok_number data_size packet status (in_network net c_bool busy ∷ []) w₁

  unfoldable pub adcs_get_finalize_upload_stat : Packet → W → SatReturn × Packet × W
  adcs_get_finalize_upload_stat packet w =
      let (status, busy, err, w₁) = hal.get_finalize_upload_stat 0 0 w in
      let bs = in_network net c_bool busy ∷ in_network net c_bool err ∷ [] in
      reply_data data_size packet status bs w₁

  unfoldable pub adcs_get_upload_crc16_checksum : Packet → W → SatReturn × Packet × W
  adcs_get_upload_crc16_checksum packet w =
      let (status, checksum, w₁) = hal.get_upload_crc16_checksum w in
      reply_data data_size packet status (u16_bytes e (in_network net uint16 checksum)) w₁

  unfoldable pub adcs_get_sram_latchup_count : Packet → W → SatReturn × Packet × W
  adcs_get_sram_latchup_count packet w =
      let (status, x, w₁) = hal.get_sram_latchup_count w in
      let t = hal.sram_latchup_count_types in
      let converted : SramLatchupCount ℕ = record {
        sram1 = in_network net t.sram1 x.sram1;
        sram2 = in_network net t.sram2 x.sram2;
      } in
      reply_data data_size packet status (hal.sram_latchup_count_bytes converted) w₁

  unfoldable pub adcs_get_edac_err_count : Packet → W → SatReturn × Packet × W
  adcs_get_edac_err_count packet w =
      let (status, x, w₁) = hal.get_edac_err_count w in
      let t = hal.edac_err_count_types in
      let converted : EdacErrCount ℕ = record {
        single_sram = in_network net t.single_sram x.single_sram;
        double_sram = in_network net t.double_sram x.double_sram;
        multi_sram = in_network net t.multi_sram x.multi_sram;
      } in
      reply_data data_size packet status (hal.edac_err_count_bytes converted) w₁

  unfoldable pub adcs_get_comms_stat : Packet → W → SatReturn × Packet × W
  adcs_get_comms_stat packet w =
      let (status, comm_status, w₁) = hal.get_comms_stat 0 w in
      reply_if_ok hal.satr_ok_number data_size packet status
        (u16_bytes e (in_network net uint16 comm_status)) w₁
