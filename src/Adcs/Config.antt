-- ===== src/Adcs/Config.antt =====
-- The cases of `adcs_service_app` for the configuration.
use ex2_services.Base.{ℕ, ◌+◌, List, [], ◌∷◌}
use ex2_services.Csp.Bytes.{Endian, Memory, slice, u16_bytes}
use ex2_services.Csp.Network.{Network}
use ex2_services.Csp.Packet.{
  Packet, SatReturn, in_data_byte, out_data_byte, set_packet_length, write, write_status,
}
use ex2_services.Communication.Answer.{Reads, Sets, check_size, reply, reply_data}
use ex2_services.Adcs.Answer.{in_network, in_u16, uint8, Updates}

-- The calls of the driver; a `_bytes` is the layout of a struct, a `_size` its `sizeof`.
pub record ConfigHal (W : Type 0) : Type 0 where
  pub set_power_control : Updates W ℕ
  pub get_power_control : Reads W ℕ
  pub set_attitude_angle : Sets W (List ℕ)
  pub get_attitude_angle : Reads W (List ℕ)
  pub set_track_controller : Sets W (List ℕ)
  pub get_track_controller : Reads W (List ℕ)
  pub set_log_config : List ℕ → (period dest log : ℕ) → W → ℕ × Memory × W
  pub get_log_config : (log : ℕ) → W → ℕ × Memory × ℕ × ℕ × W
  pub set_inertial_ref : Sets W (List ℕ)
  pub get_inertial_ref : Reads W (List ℕ)
  pub set_sgp4_orbit_params : Sets W (List ℕ)
  pub get_sgp4_orbit_params : Reads W (List ℕ)
  pub set_system_config : Sets W (List ℕ)
  pub get_system_config : Reads W (List ℕ)
  pub set_mtq_config : Sets W (List ℕ)
  pub set_rw_config : Updates W ℕ
  pub set_rate_gyro : Sets W (List ℕ)
  pub set_css_config : Sets W (List ℕ)
  pub set_star_track_config : Sets W (List ℕ)
  pub set_cubesense_config : Sets W (List ℕ)
  pub set_mtm_config : List ℕ → (mtm : ℕ) → W → ℕ × W
  pub set_detumble_config : Sets W (List ℕ)
  pub set_ywheel_config : Sets W (List ℕ)
  pub set_tracking_config : Sets W (List ℕ)
  pub set_moi_mat : Sets W (List ℕ)
  pub set_estimation_config : Sets W (List ℕ)
  pub set_usercoded_setting : Sets W (List ℕ)
  pub set_asgp4_setting : Sets W (List ℕ)
  pub get_full_config : Reads W (List ℕ)
  pub xyz_size : ℕ
  pub adcs_sgp4_size : ℕ
  pub adcs_sys_config_size : ℕ
  pub xyzu8_size : ℕ
  pub rate_gyro_config_size : ℕ
  pub css_config_size : ℕ
  pub cubestar_config_size : ℕ
  pub cubesense_config_size : ℕ
  pub mtm_config_size : ℕ
  pub detumble_config_size : ℕ
  pub ywheel_ctrl_config_size : ℕ
  pub track_ctrl_config_size : ℕ
  pub moment_inertia_config_size : ℕ
  pub estimation_config_size : ℕ
  pub usercoded_setting_size : ℕ
  pub aspg4_setting_size : ℕ

module _ {e : Endian} (net : Network e) {W : Type 0} (hal : ConfigHal W) (data_size : ℕ) where
  unfoldable pub adcs_set_power_control : Packet → W → SatReturn × Packet × W
  adcs_set_power_control packet w =
      let (status, control, w₁) = hal.set_power_control (packet.bytes in_data_byte) w in
      reply_data data_size packet status (in_network net uint8 control ∷ []) w₁

  unfoldable pub adcs_get_power_control : Packet → W → SatReturn × Packet × W
  adcs_get_power_control packet w =
      let (status, control, w₁) = hal.get_power_control w in
      reply_data data_size packet status (in_network net uint8 control ∷ []) w₁

  unfoldable pub adcs_set_attitude_angle : Packet → W → SatReturn × Packet × W
  adcs_set_attitude_angle packet w =
      reply packet (hal.set_attitude_angle (slice in_data_byte hal.xyz_size packet.bytes) w)

  unfoldable pub adcs_get_attitude_angle : Packet → W → SatReturn × Packet × W
  adcs_get_attitude_angle packet w =
      let (status, bs, w₁) = hal.get_attitude_angle w in reply_data data_size packet status bs w₁

  unfoldable pub adcs_set_track_controller : Packet → W → SatReturn × Packet × W
  adcs_set_track_controller packet w =
      reply packet (hal.set_track_controller (slice in_data_byte hal.xyz_size packet.bytes) w)

  unfoldable pub adcs_get_track_controller : Packet → W → SatReturn × Packet × W
  adcs_get_track_controller packet w =
      let (status, bs, w₁) = hal.get_track_controller w in reply_data data_size packet status bs w₁

  unfoldable pub adcs_set_log_config : Packet → W → SatReturn × Packet × W
  adcs_set_log_config packet w =
      let flags_arr : List ℕ = slice in_data_byte 10 packet.bytes in
      let period : ℕ = in_u16 net packet 1 in
      let dest : ℕ = packet.bytes (in_data_byte + 2) in
      let log : ℕ = packet.bytes (in_data_byte + 3) in
      let (status, flags, w₁) = hal.set_log_config flags_arr period dest log w in
      reply_data data_size packet status (slice 0 10 flags) w₁

  unfoldable pub adcs_get_log_config : Packet → W → SatReturn × Packet × W
  adcs_get_log_config packet w =
      let (status, flags_arr, period, dest, w₁) = hal.get_log_config 0 w in
      let p₁ = write (write_status packet status) out_data_byte (slice 0 10 flags_arr) in
      let p₂ = write p₁ (out_data_byte + 1) (u16_bytes e period) in
      let p₃ = write p₂ (out_data_byte + 3) (dest ∷ []) in
      let p₄ = write p₃ (out_data_byte + 4) (0 ∷ []) in
      (check_size data_size (10 + 2 + 1 + 1), set_packet_length p₄ (10 + 2 + 1 + 1 + 1 + 1), w₁)

  unfoldable pub adcs_set_inertial_ref : Packet → W → SatReturn × Packet × W
  adcs_set_inertial_ref packet w =
      reply packet (hal.set_inertial_ref (slice in_data_byte hal.xyz_size packet.bytes) w)

  unfoldable pub adcs_get_inertial_ref : Packet → W → SatReturn × Packet × W
  adcs_get_inertial_ref packet w =
      let (status, bs, w₁) = hal.get_inertial_ref w in reply_data data_size packet status bs w₁

  unfoldable pub adcs_set_sgp4_orbit_params : Packet → W → SatReturn × Packet × W
  adcs_set_sgp4_orbit_params packet w =
      reply packet
        (hal.set_sgp4_orbit_params (slice in_data_byte hal.adcs_sgp4_size packet.bytes) w)

  unfoldable pub adcs_get_sgp4_orbit_params : Packet → W → SatReturn × Packet × W
  adcs_get_sgp4_orbit_params packet w =
      let (status, bs, w₁) = hal.get_sgp4_orbit_params w in reply_data data_size packet status bs w₁

  unfoldable pub adcs_set_system_config : Packet → W → SatReturn × Packet × W
  adcs_set_system_config packet w =
      reply packet
        (hal.set_system_config (slice in_data_byte hal.adcs_sys_config_size packet.bytes) w)

  unfoldable pub adcs_get_system_config : Packet → W → SatReturn × Packet × W
  adcs_get_system_config packet w =
      let (status, bs, w₁) = hal.get_system_config w in reply_data data_size packet status bs w₁

  unfoldable pub adcs_set_mtq_config : Packet → W → SatReturn × Packet × W
  adcs_set_mtq_config packet w =
      reply packet (hal.set_mtq_config (slice in_data_byte hal.xyzu8_size packet.bytes) w)

  unfoldable pub adcs_set_rw_config : Packet → W → SatReturn × Packet × W
  adcs_set_rw_config packet w =
      let (status, rw, w₁) = hal.set_rw_config (packet.bytes in_data_byte) w in
      reply_data data_size packet status (rw ∷ []) w₁

  unfoldable pub adcs_set_rate_gyro : Packet → W → SatReturn × Packet × W
  adcs_set_rate_gyro packet w =
      reply packet (hal.set_rate_gyro (slice in_data_byte hal.rate_gyro_config_size packet.bytes) w)

  unfoldable pub adcs_set_css_config : Packet → W → SatReturn × Packet × W
  adcs_set_css_config packet w =
      reply packet (hal.set_css_config (slice in_data_byte hal.css_config_size packet.bytes) w)

  unfoldable pub adcs_set_star_track_config : Packet → W → SatReturn × Packet × W
  adcs_set_star_track_config packet w =
      reply packet
        (hal.set_star_track_config (slice in_data_byte hal.cubestar_config_size packet.bytes) w)

  unfoldable pub adcs_set_cubesense_config : Packet → W → SatReturn × Packet × W
  adcs_set_cubesense_config packet w =
      reply packet
        (hal.set_cubesense_config (slice in_data_byte hal.cubesense_config_size packet.bytes) w)

  unfoldable pub adcs_set_mtm_config : Packet → W → SatReturn × Packet × W
  adcs_set_mtm_config packet w =
      let mtm : ℕ = packet.bytes (in_data_byte + hal.mtm_config_size) in
      reply packet (hal.set_mtm_config (slice in_data_byte hal.mtm_config_size packet.bytes) mtm w)

  unfoldable pub adcs_set_detumble_config : Packet → W → SatReturn × Packet × W
  adcs_set_detumble_config packet w =
      reply packet
        (hal.set_detumble_config (slice in_data_byte hal.detumble_config_size packet.bytes) w)

  unfoldable pub adcs_set_ywheel_config : Packet → W → SatReturn × Packet × W
  adcs_set_ywheel_config packet w =
      reply packet
        (hal.set_ywheel_config (slice in_data_byte hal.ywheel_ctrl_config_size packet.bytes) w)

  unfoldable pub adcs_set_tracking_config : Packet → W → SatReturn × Packet × W
  adcs_set_tracking_config packet w =
      reply packet
        (hal.set_tracking_config (slice in_data_byte hal.track_ctrl_config_size packet.bytes) w)

  unfoldable pub adcs_set_moi_mat : Packet → W → SatReturn × Packet × W
  adcs_set_moi_mat packet w =
      reply packet
        (hal.set_moi_mat (slice in_data_byte hal.moment_inertia_config_size packet.bytes) w)

  unfoldable pub adcs_set_estimation_config : Packet → W → SatReturn × Packet × W
  adcs_set_estimation_config packet w =
      reply packet
        (hal.set_estimation_config (slice in_data_byte hal.estimation_config_size packet.bytes) w)

  unfoldable pub adcs_set_usercoded_setting : Packet → W → SatReturn × Packet × W
  adcs_set_usercoded_setting packet w =
      reply packet
        (hal.set_usercoded_setting (slice in_data_byte hal.usercoded_setting_size packet.bytes) w)

  unfoldable pub adcs_set_asgp4_setting : Packet → W → SatReturn × Packet × W
  adcs_set_asgp4_setting packet w =
      reply packet
        (hal.set_asgp4_setting (slice in_data_byte hal.aspg4_setting_size packet.bytes) w)

  unfoldable pub adcs_get_full_config : Packet → W → SatReturn × Packet × W
  adcs_get_full_config packet w =
      let (status, bs, w₁) = hal.get_full_config w in reply_data data_size packet status bs w₁
