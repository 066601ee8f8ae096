-- ===== src/Adcs/App.antt =====
-- `ADCS_Subtype` of Services/include/adcs/adcs_service.h, and the switch of `adcs_service_app`.
use ex2_services.Base.{ℕ, List, [], ◌∷◌, get_or}
use ex2_services.Csp.Bytes.{Endian}
use ex2_services.Csp.Network.{Network}
use ex2_services.Csp.Packet.{satr_ok, subservice_byte}
use ex2_services.Service.Task.{App}
use ex2_services.Adcs.Files.{
  FilesHal, adcs_reset, adcs_reset_log_pointer, adcs_advance_log_pointer, adcs_reset_boot_registers,
  adcs_format_sd_card, adcs_erase_file, adcs_load_file_download_block,
  adcs_advance_file_list_read_pointer, adcs_initiate_file_upload, adcs_file_upload_packet,
  adcs_finalize_upload_block, adcs_reset_upload_block, adcs_reset_file_list_read_pointer,
  adcs_initiate_download_burst,
}
use ex2_services.Adcs.Status.{
  StatusHal, adcs_get_node_identification, adcs_get_boot_program_stat, adcs_get_boot_index,
  adcs_get_last_logged_event, adcs_get_sd_format_process, adcs_get_tc_ack,
  adcs_get_file_download_buffer, adcs_get_file_download_block_stat, adcs_get_file_info,
  adcs_get_init_upload_stat, adcs_get_finalize_upload_stat, adcs_get_upload_crc16_checksum,
  adcs_get_sram_latchup_count, adcs_get_edac_err_count, adcs_get_comms_stat,
}
use ex2_services.Adcs.Settings.{
  SettingsHal, adcs_set_cache_en_state, adcs_set_sram_scrub_size, adcs_set_unixtime_save_config,
  adcs_set_hole_map, adcs_set_unix_t, adcs_get_cache_en_state, adcs_get_sram_scrub_size,
  adcs_get_unixtime_save_config, adcs_get_hole_map, adcs_get_unix_t,
}
use ex2_services.Adcs.Program.{
  ProgramHal, adcs_clear_err_flags, adcs_set_boot_index, adcs_run_selected_program,
  adcs_read_program_info, adcs_copy_program_internal_flash, adcs_get_bootloader_state,
  adcs_get_program_info, adcs_copy_internal_flash_progress,
}
use ex2_services.Adcs.Control.{
  ControlHal, adcs_deploy_magnetometer_boom, adcs_set_enabled_state, adcs_clear_latched_errs,
  adcs_set_attitude_ctr_mode, adcs_set_attitude_estimate_mode, adcs_trigger_adcs_loop,
  adcs_trigger_adcs_loop_sim, adcs_set_asgp4_rune_mode, adcs_trigger_asgp4, adcs_set_mtm_op_mode,
  adcs_cnv2jpg, adcs_save_img, adcs_set_magnetorquer_output, adcs_set_wheel_speed, adcs_save_config,
  adcs_save_orbit_params,
}
use ex2_services.Adcs.Telemetry.{
  TelemetryHal, adcs_get_current_state, adcs_get_jpg_cnv_progess, adcs_get_cubeacp_state,
  adcs_get_sat_pos_llh, adcs_get_execution_times, adcs_get_acp_loop_stat,
  adcs_get_img_save_progress, adcs_get_measurements, adcs_get_actuator, adcs_get_estimation,
  adcs_get_asgp4, adcs_get_raw_sensor, adcs_get_raw_gps, adcs_get_star_tracker,
  adcs_get_mtm2_measurements, adcs_get_power_temp,
}
use ex2_services.Adcs.Config.{
  ConfigHal, adcs_set_power_control, adcs_get_power_control, adcs_set_attitude_angle,
  adcs_get_attitude_angle, adcs_set_track_controller, adcs_get_track_controller,
  adcs_set_log_config, adcs_get_log_config, adcs_set_inertial_ref, adcs_get_inertial_ref,
  adcs_set_sgp4_orbit_params, adcs_get_sgp4_orbit_params, adcs_set_system_config,
  adcs_get_system_config, adcs_set_mtq_config, adcs_set_rw_config, adcs_set_rate_gyro,
  adcs_set_css_config, adcs_set_star_track_config, adcs_set_cubesense_config, adcs_set_mtm_config,
  adcs_set_detumble_config, adcs_set_ywheel_config, adcs_set_tracking_config, adcs_set_moi_mat,
  adcs_set_estimation_config, adcs_set_usercoded_setting, adcs_set_asgp4_setting,
  adcs_get_full_config,
}

pub data Subtype : Type 0 where
  reset reset_log_pointer advance_log_pointer reset_boot_registers format_sd_card : Subtype
  erase_file load_file_download_block advance_file_list_read_pointer : Subtype
  initiate_file_upload file_upload_packet finalize_upload_block reset_upload_block : Subtype
  reset_file_list_read_pointer initiate_download_burst get_node_identification : Subtype
  get_boot_program_stat get_boot_index get_last_logged_event get_sd_format_process : Subtype
  get_tc_ack get_file_download_buffer get_file_download_block_stat get_file_info : Subtype
  get_init_upload_stat get_finalize_upload_stat get_upload_crc16_checksum : Subtype
  get_sram_latchup_count get_edac_err_count get_comms_stat set_cache_en_state : Subtype
  set_sram_scrub_size set_unixtime_save_config set_hole_map set_unix_t : Subtype
  get_cache_en_state get_sram_scrub_size get_unixtime_save_config get_hole_map : Subtype
  get_unix_t clear_err_flags set_boot_index run_selected_program read_program_info : Subtype
  copy_program_internal_flash get_bootloader_state get_program_info : Subtype
  copy_internal_flash_progress deploy_magnetometer_boom set_enabled_state : Subtype
  clear_latched_errs set_attitude_ctr_mode set_attitude_estimate_mode : Subtype
  trigger_adcs_loop trigger_adcs_loop_sim set_asgp4_rune_mode trigger_asgp4 : Subtype
  set_mtm_op_mode cnv2jpg save_img set_magnetorquer_output set_wheel_speed save_config : Subtype
  save_orbit_params get_current_state get_jpg_cnv_progess get_cubeacp_state : Subtype
  get_sat_pos_llh get_execution_times get_acp_loop_stat get_img_save_progress : Subtype
  get_measurements get_actuator get_estimation get_asgp4 get_raw_sensor get_raw_gps : Subtype
  get_star_tracker get_mtm2_measurements get_power_temp set_power_control : Subtype
  get_power_control set_attitude_angle get_attitude_angle set_track_controller : Subtype
  get_track_controller set_log_config get_log_config set_inertial_ref get_inertial_ref : Subtype
  set_sgp4_orbit_params get_sgp4_orbit_params set_system_config get_system_config : Subtype
  set_mtq_config set_rw_config set_rate_gyro set_css_config set_star_track_config : Subtype
  set_cubesense_config set_mtm_config set_detumble_config set_ywheel_config : Subtype
  set_tracking_config set_moi_mat set_estimation_config set_usercoded_setting : Subtype
  set_asgp4_setting get_full_config : Subtype
  unknown : Subtype

-- The enumerators in their order, numbered from 0.
abbrev pub subtypes : List Subtype
subtypes =
    reset ∷ reset_log_pointer ∷ advance_log_pointer ∷ reset_boot_registers ∷ format_sd_card
    ∷ erase_file ∷ load_file_download_block ∷ advance_file_list_read_pointer ∷ initiate_file_upload
    ∷ file_upload_packet ∷ finalize_upload_block ∷ reset_upload_block ∷ reset_file_list_read_pointer
    ∷ initiate_download_burst ∷ get_node_identification ∷ get_boot_program_stat ∷ get_boot_index
    ∷ get_last_logged_event ∷ get_sd_format_process ∷ get_tc_ack ∷ get_file_download_buffer
    ∷ get_file_download_block_stat ∷ get_file_info ∷ get_init_upload_stat ∷ get_finalize_upload_stat
    ∷ get_upload_crc16_checksum ∷ get_sram_latchup_count ∷ get_edac_err_count ∷ get_comms_stat
    ∷ set_cache_en_state ∷ set_sram_scrub_size ∷ set_unixtime_save_config ∷ set_hole_map
    ∷ set_unix_t ∷ get_cache_en_state ∷ get_sram_scrub_size ∷ get_unixtime_save_config
    ∷ get_hole_map ∷ get_unix_t ∷ clear_err_flags ∷ set_boot_index ∷ run_selected_program
    ∷ read_program_info ∷ copy_program_internal_flash ∷ get_bootloader_state ∷ get_program_info
    ∷ copy_internal_flash_progress ∷ deploy_magnetometer_boom ∷ set_enabled_state
    ∷ clear_latched_errs ∷ set_attitude_ctr_mode ∷ set_attitude_estimate_mode ∷ trigger_adcs_loop
    ∷ trigger_adcs_loop_sim ∷ set_asgp4_rune_mode ∷ trigger_asgp4 ∷ set_mtm_op_mode ∷ cnv2jpg
    ∷ save_img ∷ set_magnetorquer_output ∷ set_wheel_speed ∷ save_config ∷ save_orbit_params
    ∷ get_current_state ∷ get_jpg_cnv_progess ∷ get_cubeacp_state ∷ get_sat_pos_llh
    ∷ get_execution_times ∷ get_acp_loop_stat ∷ get_img_save_progress ∷ get_measurements
    ∷ get_actuator ∷ get_estimation ∷ get_asgp4 ∷ get_raw_sensor ∷ get_raw_gps ∷ get_star_tracker
    ∷ get_mtm2_measurements ∷ get_power_temp ∷ set_power_control ∷ get_power_control
    ∷ set_attitude_angle ∷ get_attitude_angle ∷ set_track_controller ∷ get_track_controller
    ∷ set_log_config ∷ get_log_config ∷ set_inertial_ref ∷ get_inertial_ref ∷ set_sgp4_orbit_params
    ∷ get_sgp4_orbit_params ∷ set_system_config ∷ get_system_config ∷ set_mtq_config ∷ set_rw_config
    ∷ set_rate_gyro ∷ set_css_config ∷ set_star_track_config ∷ set_cubesense_config ∷ set_mtm_config
    ∷ set_detumble_config ∷ set_ywheel_config ∷ set_tracking_config ∷ set_moi_mat
    ∷ set_estimation_config ∷ set_usercoded_setting ∷ set_asgp4_setting ∷ get_full_config ∷ []

unfoldable pub subtype : ℕ → Subtype
subtype n = get_or subtypes n unknown

-- The driver of the ADCS.
pub record AdcsHal (W : Type 0) : Type 0 where
  pub files : FilesHal W
  pub status : StatusHal W
  pub settings : SettingsHal W
  pub program : ProgramHal W
  pub control : ControlHal W
  pub telemetry : TelemetryHal W
  pub config : ConfigHal W

module _ {e : Endian} (net : Network e) {W : Type 0} (hal : AdcsHal W) (data_size stack : ℕ) where
  -- The cases of the switch; the default leaves the packet as it is, and reports no error.
  unfoldable pub handle : Subtype → App W
  handle reset p w = adcs_reset net hal.files data_size p w
  handle reset_log_pointer p w = adcs_reset_log_pointer net hal.files data_size p w
  handle advance_log_pointer p w = adcs_advance_log_pointer net hal.files data_size p w
  handle reset_boot_registers p w = adcs_reset_boot_registers net hal.files data_size p w
  handle format_sd_card p w = adcs_format_sd_card net hal.files data_size p w
  handle erase_file p w = adcs_erase_file net hal.files data_size p w
  handle load_file_download_block p w = adcs_load_file_download_block net hal.files data_size p w
  handle advance_file_list_read_pointer p w =
      adcs_advance_file_list_read_pointer net hal.files data_size p w
  handle initiate_file_upload p w = adcs_initiate_file_upload net hal.files data_size p w
  handle file_upload_packet p w = adcs_file_upload_packet net hal.files data_size stack p w
  handle finalize_upload_block p w = adcs_finalize_upload_block net hal.files data_size p w
  handle reset_upload_block p w = adcs_reset_upload_block net hal.files data_size p w
  handle reset_file_list_read_pointer p w =
      adcs_reset_file_list_read_pointer net hal.files data_size p w
  handle initiate_download_burst p w = adcs_initiate_download_burst net hal.files data_size p w
  handle get_node_identification p w = adcs_get_node_identification net hal.status data_size p w
  handle get_boot_program_stat p w = adcs_get_boot_program_stat net hal.status data_size p w
  handle get_boot_index p w = adcs_get_boot_index net hal.status data_size p w
  handle get_last_logged_event p w = adcs_get_last_logged_event net hal.status data_size p w
  handle get_sd_format_process p w = adcs_get_sd_format_process net hal.status data_size p w
  handle get_tc_ack p w = adcs_get_tc_ack net hal.status data_size p w
  handle get_file_download_buffer p w = adcs_get_file_download_buffer net hal.status data_size p w
  handle get_file_download_block_stat p w =
      adcs_get_file_download_block_stat net hal.status data_size p w
  handle get_file_info p w = adcs_get_file_info net hal.status data_size p w
  handle get_init_upload_stat p w = adcs_get_init_upload_stat net hal.status data_size p w
  handle get_finalize_upload_stat p w = adcs_get_finalize_upload_stat net hal.status data_size p w
  handle get_upload_crc16_checksum p w = adcs_get_upload_crc16_checksum net hal.status data_size p w
  handle get_sram_latchup_count p w = adcs_get_sram_latchup_count net hal.status data_size p w
  handle get_edac_err_count p w = adcs_get_edac_err_count net hal.status data_size p w
  handle get_comms_stat p w = adcs_get_comms_stat net hal.status data_size p w
  handle set_cache_en_state p w = adcs_set_cache_en_state net hal.settings data_size p w
  handle set_sram_scrub_size p w = adcs_set_sram_scrub_size net hal.settings data_size p w
  handle set_unixtime_save_config p w = adcs_set_unixtime_save_config net hal.settings data_size p w
  handle set_hole_map p w = adcs_set_hole_map net hal.settings data_size p w
  handle set_unix_t p w = adcs_set_unix_t net hal.settings data_size p w
  handle get_cache_en_state p w = adcs_get_cache_en_state net hal.settings data_size p w
  handle get_sram_scrub_size p w = adcs_get_sram_scrub_size net hal.settings data_size p w
  handle get_unixtime_save_config p w = adcs_get_unixtime_save_config net hal.settings data_size p w
  handle get_hole_map p w = adcs_get_hole_map net hal.settings data_size p w
  handle get_unix_t p w = adcs_get_unix_t net hal.settings data_size p w
  handle clear_err_flags p w = adcs_clear_err_flags net hal.program data_size p w
  handle set_boot_index p w = adcs_set_boot_index net hal.program data_size p w
  handle run_selected_program p w = adcs_run_selected_program net hal.program data_size p w
  handle read_program_info p w = adcs_read_program_info net hal.program data_size p w
  handle copy_program_internal_flash p w =
      adcs_copy_program_internal_flash net hal.program data_size p w
  handle get_bootloader_state p w = adcs_get_bootloader_state net hal.program data_size p w
  handle get_program_info p w = adcs_get_program_info net hal.program data_size p w
  handle copy_internal_flash_progress p w =
      adcs_copy_internal_flash_progress net hal.program data_size p w
  handle deploy_magnetometer_boom p w = adcs_deploy_magnetometer_boom net hal.control data_size p w
  handle set_enabled_state p w = adcs_set_enabled_state net hal.control data_size p w
  handle clear_latched_errs p w = adcs_clear_latched_errs net hal.control data_size p w
  handle set_attitude_ctr_mode p w = adcs_set_attitude_ctr_mode net hal.control data_size p w
  handle set_attitude_estimate_mode p w =
      adcs_set_attitude_estimate_mode net hal.control data_size p w
  handle trigger_adcs_loop p w = adcs_trigger_adcs_loop net hal.control data_size p w
  handle trigger_adcs_loop_sim p w = adcs_trigger_adcs_loop_sim net hal.control data_size p w
  handle set_asgp4_rune_mode p w = adcs_set_asgp4_rune_mode net hal.control data_size p w
  handle trigger_asgp4 p w = adcs_trigger_asgp4 net hal.control data_size p w
  handle set_mtm_op_mode p w = adcs_set_mtm_op_mode net hal.control data_size p w
  handle cnv2jpg p w = adcs_cnv2jpg net hal.control data_size p w
  handle save_img p w = adcs_save_img net hal.control data_size p w
  handle set_magnetorquer_output p w = adcs_set_magnetorquer_output net hal.control data_size p w
  handle set_wheel_speed p w = adcs_set_wheel_speed net hal.control data_size p w
  handle save_config p w = adcs_save_config net hal.control data_size p w
  handle save_orbit_params p w = adcs_save_orbit_params net hal.control data_size p w
  handle get_current_state p w = adcs_get_current_state net hal.telemetry data_size p w
  handle get_jpg_cnv_progess p w = adcs_get_jpg_cnv_progess net hal.telemetry data_size p w
  handle get_cubeacp_state p w = adcs_get_cubeacp_state net hal.telemetry data_size p w
  handle get_sat_pos_llh p w = adcs_get_sat_pos_llh net hal.telemetry data_size p w
  handle get_execution_times p w = adcs_get_execution_times net hal.telemetry data_size p w
  handle get_acp_loop_stat p w = adcs_get_acp_loop_stat net hal.telemetry data_size p w
  handle get_img_save_progress p w = adcs_get_img_save_progress net hal.telemetry data_size p w
  handle get_measurements p w = adcs_get_measurements net hal.telemetry data_size p w
  handle get_actuator p w = adcs_get_actuator net hal.telemetry data_size p w
  handle get_estimation p w = adcs_get_estimation net hal.telemetry data_size p w
  handle get_asgp4 p w = adcs_get_asgp4 net hal.telemetry data_size p w
  handle get_raw_sensor p w = adcs_get_raw_sensor net hal.telemetry data_size p w
  handle get_raw_gps p w = adcs_get_raw_gps net hal.telemetry data_size p w
  handle get_star_tracker p w = adcs_get_star_tracker net hal.telemetry data_size p w
  handle get_mtm2_measurements p w = adcs_get_mtm2_measurements net hal.telemetry data_size p w
  handle get_power_temp p w = adcs_get_power_temp net hal.telemetry data_size p w
  handle set_power_control p w = adcs_set_power_control net hal.config data_size p w
  handle get_power_control p w = adcs_get_power_control net hal.config data_size p w
  handle set_attitude_angle p w = adcs_set_attitude_angle net hal.config data_size p w
  handle get_attitude_angle p w = adcs_get_attitude_angle net hal.config data_size p w
  handle set_track_controller p w = adcs_set_track_controller net hal.config data_size p w
  handle get_track_controller p w = adcs_get_track_controller net hal.config data_size p w
  handle set_log_config p w = adcs_set_log_config net hal.config data_size p w
  handle get_log_config p w = adcs_get_log_config net hal.config data_size p w
  handle set_inertial_ref p w = adcs_set_inertial_ref net hal.config data_size p w
  handle get_inertial_ref p w = adcs_get_inertial_ref net hal.config data_size p w
  handle set_sgp4_orbit_params p w = adcs_set_sgp4_orbit_params net hal.config data_size p w
  handle get_sgp4_orbit_params p w = adcs_get_sgp4_orbit_params net hal.config data_size p w
  handle set_system_config p w = adcs_set_system_config net hal.config data_size p w
  handle get_system_config p w = adcs_get_system_config net hal.config data_size p w
  handle set_mtq_config p w = adcs_set_mtq_config net hal.config data_size p w
  handle set_rw_config p w = adcs_set_rw_config net hal.config data_size p w
  handle set_rate_gyro p w = adcs_set_rate_gyro net hal.config data_size p w
  handle set_css_config p w = adcs_set_css_config net hal.config data_size p w
  handle set_star_track_config p w = adcs_set_star_track_config net hal.config data_size p w
  handle set_cubesense_config p w = adcs_set_cubesense_config net hal.config data_size p w
  handle set_mtm_config p w = adcs_set_mtm_config net hal.config data_size p w
  handle set_detumble_config p w = adcs_set_detumble_config net hal.config data_size p w
  handle set_ywheel_config p w = adcs_set_ywheel_config net hal.config data_size p w
  handle set_tracking_config p w = adcs_set_tracking_config net hal.config data_size p w
  handle set_moi_mat p w = adcs_set_moi_mat net hal.config data_size p w
  handle set_estimation_config p w = adcs_set_estimation_config net hal.config data_size p w
  handle set_usercoded_setting p w = adcs_set_usercoded_setting net hal.config data_size p w
  handle set_asgp4_setting p w = adcs_set_asgp4_setting net hal.config data_size p w
  handle get_full_config p w = adcs_get_full_config net hal.config data_size p w
  handle unknown p w = (satr_ok, p, w)

  unfoldable pub adcs_service_app : App W
  unfolding handle
  adcs_service_app packet w = handle (subtype (packet.bytes subservice_byte)) packet w
