-- ===== src/Adcs/Control.antt =====
-- The cases of `adcs_service_app` for control and actuators.
use ex2_services.Base.{ℕ, ◌+◌, List}
use ex2_services.Csp.Bytes.{Endian, slice}
use ex2_services.Csp.Network.{Network}
use ex2_services.Csp.Packet.{Packet, SatReturn, in_data_byte}
use ex2_services.Communication.Answer.{Sets, reply}
use ex2_services.Adcs.Answer.{in_u16}

-- The calls of the driver; a `_bytes` is the layout of a struct, a `_size` its `sizeof`.
pub record ControlHal (W : Type 0) : Type 0 where
  pub deploy_magnetometer_boom : (timeout : ℕ) → W → ℕ × W
  pub set_enabled_state : (state : ℕ) → W → ℕ × W
  pub clear_latched_errs : (adcs_flag hk_flag : ℕ) → W → ℕ × W
  pub set_attitude_ctr_mode : (ctrl_mode timeout : ℕ) → W → ℕ × W
  pub set_attitude_estimate_mode : (mode : ℕ) → W → ℕ × W
  pub trigger_adcs_loop : W → ℕ × W
  pub trigger_adcs_loop_sim : Sets W (List ℕ)
  pub set_asgp4_rune_mode : (mode : ℕ) → W → ℕ × W
  pub trigger_asgp4 : W → ℕ × W
  pub set_mtm_op_mode : (mode : ℕ) → W → ℕ × W
  pub cnv2jpg : (source qf white_balance : ℕ) → W → ℕ × W
  pub save_img : (camera img_size : ℕ) → W → ℕ × W
  pub set_magnetorquer_output : Sets W (List ℕ)
  pub set_wheel_speed : Sets W (List ℕ)
  pub save_config : W → ℕ × W
  pub save_orbit_params : W → ℕ × W
  pub sim_sensor_data_size : ℕ
  pub xyz16_size : ℕ

module _ {e : Endian} (net : Network e) {W : Type 0} (hal : ControlHal W) (data_size : ℕ) where
  unfoldable pub adcs_deploy_magnetometer_boom : Packet → W → SatReturn × Packet × W
  adcs_deploy_magnetometer_boom packet w =
      reply packet (hal.deploy_magnetometer_boom (packet.bytes in_data_byte) w)

  unfoldable pub adcs_set_enabled_state : Packet → W → SatReturn × Packet × W
  adcs_set_enabled_state packet w =
      reply packet (hal.set_enabled_state (packet.bytes in_data_byte) w)

  unfoldable pub adcs_clear_latched_errs : Packet → W → SatReturn × Packet × W
  adcs_clear_latched_errs packet w =
      reply packet
        (hal.clear_latched_errs (packet.bytes in_data_byte) (packet.bytes (in_data_byte + 1)) w)

  unfoldable pub adcs_set_attitude_ctr_mode : Packet → W → SatReturn × Packet × W
  adcs_set_attitude_ctr_mode packet w =
      reply packet (hal.set_attitude_ctr_mode (packet.bytes in_data_byte) (in_u16 net packet 1) w)

  unfoldable pub adcs_set_attitude_estimate_mode : Packet → W → SatReturn × Packet × W
  adcs_set_attitude_estimate_mode packet w =
      reply packet (hal.set_attitude_estimate_mode (packet.bytes in_data_byte) w)

  unfoldable pub adcs_trigger_adcs_loop : Packet → W → SatReturn × Packet × W
  adcs_trigger_adcs_loop packet w = reply packet (hal.trigger_adcs_loop w)

  unfoldable pub adcs_trigger_adcs_loop_sim : Packet → W → SatReturn × Packet × W
  adcs_trigger_adcs_loop_sim packet w =
      reply packet
        (hal.trigger_adcs_loop_sim (slice in_data_byte hal.sim_sensor_data_size packet.bytes) w)

  unfoldable pub adcs_set_asgp4_rune_mode : Packet → W → SatReturn × Packet × W
  adcs_set_asgp4_rune_mode packet w =
      reply packet (hal.set_asgp4_rune_mode (packet.bytes in_data_byte) w)

  unfoldable pub adcs_trigger_asgp4 : Packet → W → SatReturn × Packet × W
  adcs_trigger_asgp4 packet w = reply packet (hal.trigger_asgp4 w)

  unfoldable pub adcs_set_mtm_op_mode : Packet → W → SatReturn × Packet × W
  adcs_set_mtm_op_mode packet w = reply packet (hal.set_mtm_op_mode (packet.bytes in_data_byte) w)

  unfoldable pub adcs_cnv2jpg : Packet → W → SatReturn × Packet × W
  adcs_cnv2jpg packet w = reply packet (
      hal.cnv2jpg (packet.bytes in_data_byte) (packet.bytes (in_data_byte + 1))
        (packet.bytes (in_data_byte + 2)) w)

  unfoldable pub adcs_save_img : Packet → W → SatReturn × Packet × W
  adcs_save_img packet w =
      reply packet (hal.save_img (packet.bytes in_data_byte) (packet.bytes (in_data_byte + 1)) w)

  unfoldable pub adcs_set_magnetorquer_output : Packet → W → SatReturn × Packet × W
  adcs_set_magnetorquer_output packet w =
      reply packet (hal.set_magnetorquer_output (slice in_data_byte hal.xyz16_size packet.bytes) w)

  unfoldable pub adcs_set_wheel_speed : Packet → W → SatReturn × Packet × W
  adcs_set_wheel_speed packet w =
      reply packet (hal.set_wheel_speed (slice in_data_byte hal.xyz16_size packet.bytes) w)

  unfoldable pub adcs_save_config : Packet → W → SatReturn × Packet × W
  adcs_save_config packet w = reply packet (hal.save_config w)

  unfoldable pub adcs_save_orbit_params : Packet → W → SatReturn × Packet × W
  adcs_save_orbit_params packet w = reply packet (hal.save_orbit_params w)
