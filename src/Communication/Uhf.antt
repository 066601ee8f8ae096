-- ===== src/Communication/Uhf.antt =====
-- The driver of the UHF radio, as the cases of `communication_service_app` use it.
pub mod Set
pub mod Get
use ex2_services.Base.{ℕ, ◌+◌, ◌*◌, ◌/◌, ◌%◌, ◌==◌, if◌then◌else◌, List, [], ◌∷◌, ◌++◌}
use ex2_services.Csp.Bytes.{Endian, Memory, put, slice, u32_bytes}
use ex2_services.Csp.Convert.{cnv8_32}
use ex2_services.Csp.Network.{Network}
use ex2_services.Csp.Packet.{Packet, SatReturn, in_data_byte}
use ex2_services.Housekeeping.Timestamps.{Run, done, ◌>>=◌}
use ex2_services.Communication.Answer.{Reads, Sets, Floats, reply, reply_data}
use ex2_services.Communication.Messages.{
  ConfigStruct, callsign_len, morse_beacon_msg_len_max, beacon_msg_len_max, fram_size,
  single_note_len, copy_message, morse_char, padded,
}

-- `UHF_Status`, with the fields that the service names; `scw` is an array.
pub record UhfStatus : Type 0 where
  pub scw : Memory
  pub freq : ℕ
  pub uptime : ℕ
  pub pckts_out : ℕ
  pub pckts_in : ℕ
  pub pckts_in_crc16 : ℕ
  pub pipe_t : ℕ
  pub beacon_t : ℕ
  pub audio_t : ℕ
  pub temperature : ℕ

-- The driver: `SCW_LEN`, `U_GOOD_CONFIG` and `U_BAD_PARAM` (as the byte of the status), its calls,
-- and the bytes that `UHF_Status` has in memory.
pub record UhfHal (W : Type 0) : Type 0 where
  pub scw_len : ℕ
  pub u_good_config : ℕ
  pub u_bad_param : ℕ
  pub set_scw : Sets W Memory
  pub set_freq : Sets W ℕ
  pub set_pipe_t : Sets W ℕ
  pub set_beacon_t : Sets W ℕ
  pub set_audio_t : Sets W ℕ
  pub restore : Sets W ℕ
  pub low_pwr : Sets W ℕ
  pub secure : Sets W ℕ
  pub set_destination : Sets W ConfigStruct
  pub set_source : Sets W ConfigStruct
  pub set_morse : Sets W ConfigStruct
  pub set_midi : Sets W ConfigStruct
  pub set_beacon_msg : Sets W ConfigStruct
  pub set_i2c : Sets W ℕ
  pub set_fram : ℕ → Sets W Memory
  pub get_scw : Reads W Memory
  pub get_freq : Reads W ℕ
  pub get_uptime : Reads W ℕ
  pub get_pckts_out : Reads W ℕ
  pub get_pckts_in : Reads W ℕ
  pub get_pckts_in_crc16 : Reads W ℕ
  pub get_pipe_t : Reads W ℕ
  pub get_beacon_t : Reads W ℕ
  pub get_audio_t : Reads W ℕ
  pub get_temp : Reads W ℕ
  pub get_destination : Reads W ConfigStruct
  pub get_source : Reads W ConfigStruct
  pub get_morse : Reads W ConfigStruct
  pub get_midi : Reads W ConfigStruct
  pub get_beacon_msg : Reads W ConfigStruct
  pub get_fram : ℕ → Reads W Memory
  pub get_secure_key : Reads W ℕ
  pub status_bytes : UhfStatus → List ℕ
