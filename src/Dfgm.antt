-- ===== src/Dfgm.antt =====
-- Services/source/dfgm/dfgm_service.c: the requests of the ground to the magnetometer.
pub mod Laws
use ex2_services.Base.{ℕ, ◌+◌, ◌-◌, ◌^◌, ◌==◌, if◌then◌else◌, List, map, length}
use ex2_services.Csp.Bytes.{Endian}
use ex2_services.Csp.Convert.{cnv8_32}
use ex2_services.Csp.Network.{Network}
use ex2_services.Csp.Packet.{
  Packet, SatReturn, satr_ok, satr_pkt_illegal_subservice, subservice_byte, in_data_byte,
  out_data_byte, set_packet_length, write, write_status,
}

-- `DFGM_Housekeeping`: its twelve 16-bit fields, in the order in which the service names them.
pub record DfgmHousekeeping : Type 0 where
  pub core_voltage : ℕ
  pub sensor_temp : ℕ
  pub ref_temp : ℕ
  pub board_temp : ℕ
  pub pos_rail_voltage : ℕ
  pub input_voltage : ℕ
  pub ref_voltage : ℕ
  pub input_current : ℕ
  pub reserved1 : ℕ
  pub reserved2 : ℕ
  pub reserved3 : ℕ
  pub reserved4 : ℕ

-- The driver, and the bytes that the struct has in memory. A run takes a number of seconds, which
-- is an int32_t, here its pattern of 32 bits.
pub record DfgmHal (W : Type 0) : Type 0 where
  pub run : ℕ → W → ℕ × W
  pub stop : W → ℕ × W
  pub get_hk : W → ℕ × DfgmHousekeeping × W
  pub hk_bytes : DfgmHousekeeping → List ℕ

abbrev pub dfgm_run : ℕ
dfgm_run = 0

abbrev pub dfgm_start : ℕ
dfgm_start = 1

abbrev pub dfgm_stop : ℕ
dfgm_stop = 2

abbrev pub dfgm_get_hk : ℕ
dfgm_get_hk = 3

-- INT_MAX
abbrev pub max_runtime : ℕ
max_runtime = 2_147_483_647

module _ {e : Endian} (net : Network e) {W : Type 0} (hal : DfgmHal W) where
  -- The answer of the three cases that report a status only.
  unfoldable pub answer_status : Packet → ℕ × W → SatReturn × Packet × W
  answer_status packet (status, w) = (satr_ok, set_packet_length (write_status packet status) 2, w)

  -- The time to run is taken in the order of the host.
  unfoldable pub handle_run : Packet → W → SatReturn × Packet × W
  handle_run packet w =
      let given_runtime = cnv8_32 e packet.bytes in_data_byte in
      answer_status packet (hal.run given_runtime w)

  unfoldable pub handle_start : Packet → W → SatReturn × Packet × W
  handle_start packet w = answer_status packet (hal.run max_runtime w)

  unfoldable pub handle_stop : Packet → W → SatReturn × Packet × W
  handle_stop packet w = answer_status packet (hal.stop w)

  unfoldable pub hk_to_network : DfgmHousekeeping → DfgmHousekeeping
  hk_to_network hk = record {
    core_voltage = net.hton16 hk.core_voltage;
    sensor_temp = net.hton16 hk.sensor_temp;
    ref_temp = net.hton16 hk.ref_temp;
    board_temp = net.hton16 hk.board_temp;
    pos_rail_voltage = net.hton16 hk.pos_rail_voltage;
    input_voltage = net.hton16 hk.input_voltage;
    ref_voltage = net.hton16 hk.ref_voltage;
    input_current = net.hton16 hk.input_current;
    reserved1 = net.hton16 hk.reserved1;
    reserved2 = net.hton16 hk.reserved2;
    reserved3 = net.hton16 hk.reserved3;
    reserved4 = net.hton16 hk.reserved4;
  }

  unfoldable pub handle_get_hk : Packet → W → SatReturn × Packet × W
  handle_get_hk packet w =
      let (status, hk, w₁) = hal.get_hk w in
      let bs = hal.hk_bytes (hk_to_network hk) in
      let answer = write (write_status packet status) out_data_byte bs in
      (satr_ok, set_packet_length answer (1 + length bs + 1), w₁)

  unfoldable pub dfgm_service_app : Packet → W → SatReturn × Packet × W
  dfgm_service_app packet w =
      let ser_subtype = packet.bytes subservice_byte in
      if ser_subtype == dfgm_run
      then handle_run packet w
      else if ser_subtype == dfgm_start
      then handle_start packet w
      else if ser_subtype == dfgm_stop
      then handle_stop packet w
      else if ser_subtype == dfgm_get_hk
      then handle_get_hk packet w
      else (satr_pkt_illegal_subservice, packet, w)
