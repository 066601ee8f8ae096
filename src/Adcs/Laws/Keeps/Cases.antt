-- ===== src/Adcs/Laws/Keeps/Cases.antt =====
-- Each case of the ADCS service answers in the packet of its request.
use ex2_services.Base.{ℕ, ◌≡◌, ◌≢◌, refl, inl, arith, List}
use ex2_services.Csp.Bytes.{Endian, put, put_outside, u16_bytes}
use ex2_services.Csp.Network.{Network}
use ex2_services.Csp.Packet.{Packet, satr_pkt_illegal_subservice, subservice_byte}
use ex2_services.Service.Task.{Accept, task}
use ex2_services.Service.Task.Laws.{released, received, released-task}
use ex2_services.Communication.Laws.Keeps.{Keeps}
use ex2_services.Adcs.Files.{
  adcs_reset, adcs_reset_log_pointer, adcs_advance_log_pointer, adcs_reset_boot_registers,
  adcs_format_sd_card, adcs_erase_file, adcs_load_file_download_block,
  adcs_advance_file_list_read_pointer, adcs_initiate_file_upload, adcs_file_upload_packet,
  adcs_finalize_upload_block, adcs_reset_upload_block, adcs_reset_file_list_read_pointer,
  adcs_initiate_download_burst,
}
use ex2_services.Adcs.Status.{
  adcs_get_node_identification, adcs_get_boot_program_stat, adcs_get_boot_index,
  adcs_get_last_logged_event, adcs_get_sd_format_process, adcs_get_tc_ack,
  adcs_get_file_download_buffer, adcs_get_file_download_block_stat, adcs_get_file_info,
  adcs_get_init_upload_stat, adcs_get_finalize_upload_stat, adcs_get_upload_crc16_checksum,
  adcs_get_sram_latchup_count, adcs_get_edac_err_count, adcs_get_comms_stat,
}
use ex2_services.Adcs.Settings.{
  adcs_set_cache_en_state, adcs_set_sram_scrub_size, adcs_set_unixtime_save_config,
  adcs_set_hole_map, adcs_set_unix_t, adcs_get_cache_en_state, adcs_get_sram_scrub_size,
  adcs_get_unixtime_save_config, adcs_get_hole_map, adcs_get_unix_t,
}
use ex2_services.Adcs.Program.{
  adcs_clear_err_flags, adcs_set_boot_index, adcs_run_selected_program, adcs_read_program_info,
  adcs_copy_program_internal_flash, adcs_get_bootloader_state, adcs_get_program_info,
  adcs_copy_internal_flash_progress,
}
use ex2_services.Adcs.Control.{
  adcs_deploy_magnetometer_boom, adcs_set_enabled_state, adcs_clear_latched_errs,
  adcs_set_attitude_ctr_mode, adcs_set_attitude_estimate_mode, adcs_trigger_adcs_loop,
  adcs_trigger_adcs_loop_sim, adcs_set_asgp4_rune_mode, adcs_trigger_asgp4, adcs_set_mtm_op_mode,
  adcs_cnv2jpg, adcs_save_img, adcs_set_magnetorquer_output, adcs_set_wheel_speed, adcs_save_config,
  adcs_save_orbit_params,
}
use ex2_services.Adcs.Telemetry.{
  adcs_get_current_state, adcs_get_jpg_cnv_progess, adcs_get_cubeacp_state, adcs_get_sat_pos_llh,
  adcs_get_execution_times, adcs_get_acp_loop_stat, adcs_get_img_save_progress,
  adcs_get_measurements, adcs_get_actuator, adcs_get_estimation, adcs_get_asgp4,
  adcs_get_raw_sensor, adcs_get_raw_gps, adcs_get_star_tracker, adcs_get_mtm2_measurements,
  adcs_get_power_temp,
}
use ex2_services.Adcs.Config.{
  adcs_set_power_control, adcs_get_power_control, adcs_set_attitude_angle, adcs_get_attitude_angle,
  adcs_set_track_controller, adcs_get_track_controller, adcs_set_log_config, adcs_get_log_config,
  adcs_set_inertial_ref, adcs_get_inertial_ref, adcs_set_sgp4_orbit_params,
  adcs_get_sgp4_orbit_params, adcs_set_system_config, adcs_get_system_config, adcs_set_mtq_config,
  adcs_set_rw_config, adcs_set_rate_gyro, adcs_set_css_config, adcs_set_star_track_config,
  adcs_set_cubesense_config, adcs_set_mtm_config, adcs_set_detumble_config, adcs_set_ywheel_config,
  adcs_set_tracking_config, adcs_set_moi_mat, adcs_set_estimation_config,
  adcs_set_usercoded_setting, adcs_set_asgp4_setting, adcs_get_full_config,
}
use ex2_services.Adcs.App.{
  AdcsHal, Subtype, subtype, handle, adcs_service_app, unknown, reset, reset_log_pointer,
  advance_log_pointer, reset_boot_registers, format_sd_card, erase_file, load_file_download_block,
  advance_file_list_read_pointer, initiate_file_upload, file_upload_packet, finalize_upload_block,
  reset_upload_block, reset_file_list_read_pointer, initiate_download_burst,
  get_node_identification, get_boot_program_stat, get_boot_index, get_last_logged_event,
  get_sd_format_process, get_tc_ack, get_file_download_buffer, get_file_download_block_stat,
  get_file_info, get_init_upload_stat, get_finalize_upload_stat, get_upload_crc16_checksum,
  get_sram_latchup_count, get_edac_err_count, get_comms_stat, set_cache_en_state,
  set_sram_scrub_size, set_unixtime_save_config, set_hole_map, set_unix_t, get_cache_en_state,
  get_sram_scrub_size, get_unixtime_save_config, get_hole_map, get_unix_t, clear_err_flags,
  set_boot_index, run_selected_program, read_program_info, copy_program_internal_flash,
  get_bootloader_state, get_program_info, copy_internal_flash_progress, deploy_magnetometer_boom,
  set_enabled_state, clear_latched_errs, set_attitude_ctr_mode, set_attitude_estimate_mode,
  trigger_adcs_loop, trigger_adcs_loop_sim, set_asgp4_rune_mode, trigger_asgp4, set_mtm_op_mode,
  cnv2jpg, save_img, set_magnetorquer_output, set_wheel_speed, save_config, save_orbit_params,
  get_current_state, get_jpg_cnv_progess, get_cubeacp_state, get_sat_pos_llh, get_execution_times,
  get_acp_loop_stat, get_img_save_progress, get_measurements, get_actuator, get_estimation,
  get_asgp4, get_raw_sensor, get_raw_gps, get_star_tracker, get_mtm2_measurements, get_power_temp,
  set_power_control, get_power_control, set_attitude_angle, get_attitude_angle,
  set_track_controller, get_track_controller, set_log_config, get_log_config, set_inertial_ref,
  get_inertial_ref, set_sgp4_orbit_params, get_sgp4_orbit_params, set_system_config,
  get_system_config, set_mtq_config, set_rw_config, set_rate_gyro, set_css_config,
  set_star_track_config, set_cubesense_config, set_mtm_config, set_detumble_config,
  set_ywheel_config, set_tracking_config, set_moi_mat, set_estimation_config, set_usercoded_setting,
  set_asgp4_setting, get_full_config,
}
use ex2_services.Adcs.Laws.Keeps.{
  not_illegal, IsAnswer, reply-IsAnswer, reply_data-IsAnswer, answer_data-IsAnswer,
  reply_if_ok-IsAnswer, unknown-IsAnswer, hole_map-IsAnswer,
}

module _ {e : Endian} (net : Network e) {W : Type 0} (hal : AdcsHal W) (data_size stack : ℕ) where
  log_config-IsAnswer :
      (p : Packet) (w : W) → IsAnswer p (adcs_get_log_config net hal.config data_size p w)
  unfolding IsAnswer Keeps adcs_get_log_config put
  log_config-IsAnswer p w =
      ((refl, put_outside 3 (u16_bytes e _) _ 0 (inl (omega arith))), not_illegal data_size _)

  handle-IsAnswer :
      (t : Subtype) (p : Packet) (w : W) → IsAnswer p (handle net hal data_size stack t p w)
  unfolding handle adcs_reset adcs_reset_log_pointer adcs_advance_log_pointer
      adcs_reset_boot_registers adcs_format_sd_card adcs_erase_file adcs_load_file_download_block
      adcs_advance_file_list_read_pointer adcs_initiate_file_upload adcs_file_upload_packet
      adcs_finalize_upload_block adcs_reset_upload_block adcs_reset_file_list_read_pointer
      adcs_initiate_download_burst adcs_get_node_identification adcs_get_boot_program_stat
      adcs_get_boot_index adcs_get_last_logged_event adcs_get_sd_format_process adcs_get_tc_ack
      adcs_get_file_download_buffer adcs_get_file_download_block_stat adcs_get_file_info
      adcs_get_init_upload_stat adcs_get_finalize_upload_stat adcs_get_upload_crc16_checksum
      adcs_get_sram_latchup_count adcs_get_edac_err_count adcs_get_comms_stat
      adcs_set_cache_en_state adcs_set_sram_scrub_size adcs_set_unixtime_save_config
      adcs_set_hole_map adcs_set_unix_t adcs_get_cache_en_state adcs_get_sram_scrub_size
      adcs_get_unixtime_save_config adcs_get_hole_map adcs_get_unix_t adcs_clear_err_flags
      adcs_set_boot_index adcs_run_selected_program adcs_read_program_info
      adcs_copy_program_internal_flash adcs_get_bootloader_state adcs_get_program_info
      adcs_copy_internal_flash_progress adcs_deploy_magnetometer_boom adcs_set_enabled_state
      adcs_clear_latched_errs adcs_set_attitude_ctr_mode adcs_set_attitude_estimate_mode
      adcs_trigger_adcs_loop adcs_trigger_adcs_loop_sim adcs_set_asgp4_rune_mode adcs_trigger_asgp4
      adcs_set_mtm_op_mode adcs_cnv2jpg adcs_save_img adcs_set_magnetorquer_output
      adcs_set_wheel_speed adcs_save_config adcs_save_orbit_params adcs_get_current_state
      adcs_get_jpg_cnv_progess adcs_get_cubeacp_state adcs_get_sat_pos_llh adcs_get_execution_times
      adcs_get_acp_loop_stat adcs_get_img_save_progress adcs_get_measurements adcs_get_actuator
      adcs_get_estimation adcs_get_asgp4 adcs_get_raw_sensor adcs_get_raw_gps adcs_get_star_tracker
      adcs_get_mtm2_measurements adcs_get_power_temp adcs_set_power_control adcs_get_power_control
      adcs_set_attitude_angle adcs_get_attitude_angle adcs_set_track_controller
      adcs_get_track_controller adcs_set_log_config adcs_set_inertial_ref adcs_get_inertial_ref
      adcs_set_sgp4_orbit_params adcs_get_sgp4_orbit_params adcs_set_system_config
      adcs_get_system_config adcs_set_mtq_config adcs_set_rw_config adcs_set_rate_gyro
      adcs_set_css_config adcs_set_star_track_config adcs_set_cubesense_config adcs_set_mtm_config
      adcs_set_detumble_config adcs_set_ywheel_config adcs_set_tracking_config adcs_set_moi_mat
      adcs_set_estimation_config adcs_set_usercoded_setting adcs_set_asgp4_setting
      adcs_get_full_config
  handle-IsAnswer reset p w = reply-IsAnswer p _
  handle-IsAnswer reset_log_pointer p w = reply-IsAnswer p _
  handle-IsAnswer advance_log_pointer p w = reply-IsAnswer p _
  handle-IsAnswer reset_boot_registers p w = reply-IsAnswer p _
  handle-IsAnswer format_sd_card p w = reply-IsAnswer p _
  handle-IsAnswer erase_file p w = reply-IsAnswer p _
  handle-IsAnswer load_file_download_block p w = reply-IsAnswer p _
  handle-IsAnswer advance_file_list_read_pointer p w = reply-IsAnswer p _
  handle-IsAnswer initiate_file_upload p w = reply-IsAnswer p _
  handle-IsAnswer file_upload_packet p w = answer_data-IsAnswer p _ _ _
  handle-IsAnswer finalize_upload_block p w = reply-IsAnswer p _
  handle-IsAnswer reset_upload_block p w = reply-IsAnswer p _
  handle-IsAnswer reset_file_list_read_pointer p w = reply-IsAnswer p _
  handle-IsAnswer initiate_download_burst p w = reply-IsAnswer p _
  handle-IsAnswer get_node_identification p w = reply_data-IsAnswer data_size p _ _ _
  handle-IsAnswer get_boot_program_stat p w = reply_data-IsAnswer data_size p _ _ _
  handle-IsAnswer get_boot_index p w = reply_data-IsAnswer data_size p _ _ _
  handle-IsAnswer get_last_logged_event p w = reply_data-IsAnswer data_size p _ _ _
  handle-IsAnswer get_sd_format_process p w = reply_data-IsAnswer data_size p _ _ _
  handle-IsAnswer get_tc_ack p w = reply_data-IsAnswer data_size p _ _ _
  handle-IsAnswer get_file_download_buffer p w = reply_data-IsAnswer data_size p _ _ _
  handle-IsAnswer get_file_download_block_stat p w = reply_data-IsAnswer data_size p _ _ _
  handle-IsAnswer get_file_info p w = reply_data-IsAnswer data_size p _ _ _
  handle-IsAnswer get_init_upload_stat p w = reply_if_ok-IsAnswer _ data_size p _ _ _
  handle-IsAnswer get_finalize_upload_stat p w = reply_data-IsAnswer data_size p _ _ _
  handle-IsAnswer get_upload_crc16_checksum p w = reply_data-IsAnswer data_size p _ _ _
  handle-IsAnswer get_sram_latchup_count p w = reply_data-IsAnswer data_size p _ _ _
  handle-IsAnswer get_edac_err_count p w = reply_data-IsAnswer data_size p _ _ _
  handle-IsAnswer get_comms_stat p w = reply_if_ok-IsAnswer _ data_size p _ _ _
  handle-IsAnswer set_cache_en_state p w = reply-IsAnswer p _
  handle-IsAnswer set_sram_scrub_size p w = reply-IsAnswer p _
  handle-IsAnswer set_unixtime_save_config p w = reply-IsAnswer p _
  handle-IsAnswer set_hole_map p w = hole_map-IsAnswer p _ _ _
  handle-IsAnswer set_unix_t p w = reply-IsAnswer p _
  handle-IsAnswer get_cache_en_state p w = reply_if_ok-IsAnswer _ data_size p _ _ _
  handle-IsAnswer get_sram_scrub_size p w = reply_if_ok-IsAnswer _ data_size p _ _ _
  handle-IsAnswer get_unixtime_save_config p w = reply_data-IsAnswer data_size p _ _ _
  handle-IsAnswer get_hole_map p w = reply_data-IsAnswer data_size p _ _ _
  handle-IsAnswer get_unix_t p w = reply_data-IsAnswer data_size p _ _ _
  handle-IsAnswer clear_err_flags p w = reply-IsAnswer p _
  handle-IsAnswer set_boot_index p w = reply-IsAnswer p _
  handle-IsAnswer run_selected_program p w = reply-IsAnswer p _
  handle-IsAnswer read_program_info p w = reply-IsAnswer p _
  handle-IsAnswer copy_program_internal_flash p w = reply-IsAnswer p _
  handle-IsAnswer get_bootloader_state p w = reply_data-IsAnswer data_size p _ _ _
  handle-IsAnswer get_program_info p w = reply_data-IsAnswer data_size p _ _ _
  handle-IsAnswer copy_internal_flash_progress p w = reply_data-IsAnswer data_size p _ _ _
  handle-IsAnswer deploy_magnetometer_boom p w = reply-IsAnswer p _
  handle-IsAnswer set_enabled_state p w = reply-IsAnswer p _
  handle-IsAnswer clear_latched_errs p w = reply-IsAnswer p _
  handle-IsAnswer set_attitude_ctr_mode p w = reply-IsAnswer p _
  handle-IsAnswer set_attitude_estimate_mode p w = reply-IsAnswer p _
  handle-IsAnswer trigger_adcs_loop p w = reply-IsAnswer p _
  handle-IsAnswer trigger_adcs_loop_sim p w = reply-IsAnswer p _
  handle-IsAnswer set_asgp4_rune_mode p w = reply-IsAnswer p _
  handle-IsAnswer trigger_asgp4 p w = reply-IsAnswer p _
  handle-IsAnswer set_mtm_op_mode p w = reply-IsAnswer p _
  handle-IsAnswer cnv2jpg p w = reply-IsAnswer p _
  handle-IsAnswer save_img p w = reply-IsAnswer p _
  handle-IsAnswer set_magnetorquer_output p w = reply-IsAnswer p _
  handle-IsAnswer set_wheel_speed p w = reply-IsAnswer p _
  handle-IsAnswer save_config p w = reply-IsAnswer p _
  handle-IsAnswer save_orbit_params p w = reply-IsAnswer p _
  handle-IsAnswer get_current_state p w = answer_data-IsAnswer p _ _ _
  handle-IsAnswer get_jpg_cnv_progess p w = reply_data-IsAnswer data_size p _ _ _
  handle-IsAnswer get_cubeacp_state p w = reply_data-IsAnswer data_size p _ _ _
  handle-IsAnswer get_sat_pos_llh p w = answer_data-IsAnswer p _ _ _
  handle-IsAnswer get_execution_times p w = reply_data-IsAnswer data_size p _ _ _
  handle-IsAnswer get_acp_loop_stat p w = reply_data-IsAnswer data_size p _ _ _
  handle-IsAnswer get_img_save_progress p w = reply_data-IsAnswer data_size p _ _ _
  handle-IsAnswer get_measurements p w = reply_data-IsAnswer data_size p _ _ _
  handle-IsAnswer get_actuator p w = reply_data-IsAnswer data_size p _ _ _
  handle-IsAnswer get_estimation p w = reply_data-IsAnswer data_size p _ _ _
  handle-IsAnswer get_asgp4 p w = reply_data-IsAnswer data_size p _ _ _
  handle-IsAnswer get_raw_sensor p w = reply_data-IsAnswer data_size p _ _ _
  handle-IsAnswer get_raw_gps p w = reply_data-IsAnswer data_size p _ _ _
  handle-IsAnswer get_star_tracker p w = reply_data-IsAnswer data_size p _ _ _
  handle-IsAnswer get_mtm2_measurements p w = reply_data-IsAnswer data_size p _ _ _
  handle-IsAnswer get_power_temp p w = reply_data-IsAnswer data_size p _ _ _
  handle-IsAnswer set_power_control p w = reply_data-IsAnswer data_size p _ _ _
  handle-IsAnswer get_power_control p w = reply_data-IsAnswer data_size p _ _ _
  handle-IsAnswer set_attitude_angle p w = reply-IsAnswer p _
  handle-IsAnswer get_attitude_angle p w = reply_data-IsAnswer data_size p _ _ _
  handle-IsAnswer set_track_controller p w = reply-IsAnswer p _
  handle-IsAnswer get_track_controller p w = reply_data-IsAnswer data_size p _ _ _
  handle-IsAnswer set_log_config p w = reply_data-IsAnswer data_size p _ _ _
  handle-IsAnswer get_log_config p w = log_config-IsAnswer p w
  handle-IsAnswer set_inertial_ref p w = reply-IsAnswer p _
  handle-IsAnswer get_inertial_ref p w = reply_data-IsAnswer data_size p _ _ _
  handle-IsAnswer set_sgp4_orbit_params p w = reply-IsAnswer p _
  handle-IsAnswer get_sgp4_orbit_params p w = reply_data-IsAnswer data_size p _ _ _
  handle-IsAnswer set_system_config p w = reply-IsAnswer p _
  handle-IsAnswer get_system_config p w = reply_data-IsAnswer data_size p _ _ _
  handle-IsAnswer set_mtq_config p w = reply-IsAnswer p _
  handle-IsAnswer set_rw_config p w = reply_data-IsAnswer data_size p _ _ _
  handle-IsAnswer set_rate_gyro p w = reply-IsAnswer p _
  handle-IsAnswer set_css_config p w = reply-IsAnswer p _
  handle-IsAnswer set_star_track_config p w = reply-IsAnswer p _
  handle-IsAnswer set_cubesense_config p w = reply-IsAnswer p _
  handle-IsAnswer set_mtm_config p w = reply-IsAnswer p _
  handle-IsAnswer set_detumble_config p w = reply-IsAnswer p _
  handle-IsAnswer set_ywheel_config p w = reply-IsAnswer p _
  handle-IsAnswer set_tracking_config p w = reply-IsAnswer p _
  handle-IsAnswer set_moi_mat p w = reply-IsAnswer p _
  handle-IsAnswer set_estimation_config p w = reply-IsAnswer p _
  handle-IsAnswer set_usercoded_setting p w = reply-IsAnswer p _
  handle-IsAnswer set_asgp4_setting p w = reply-IsAnswer p _
  handle-IsAnswer get_full_config p w = reply_data-IsAnswer data_size p _ _ _
  handle-IsAnswer unknown p w = unknown-IsAnswer p w

  -- Whatever the subservice, the packet that the application leaves has the buffer and the subservice
  -- of the request, and the report is not that of an illegal subservice.
  pub adcs_service_app-IsAnswer :
      (p : Packet) (w : W)
      → let (report, answer, w₁) = adcs_service_app net hal data_size stack p w in
        (answer.buffer ≡ p.buffer)
        × (answer.bytes subservice_byte ≡ p.bytes subservice_byte)
        × (report ≢ satr_pkt_illegal_subservice)
  unfolding adcs_service_app IsAnswer Keeps
  adcs_service_app-IsAnswer p w =
      let (same, legal) = handle-IsAnswer (subtype (p.bytes subservice_byte)) p w in
      (same.0, same.1, legal)

  -- Whatever the environment and the driver do, the task gives back each packet that it reads exactly
  -- once, by a successful send or by a free, in the order of arrival.
  pub adcs_releases :
      (inputs : List Accept) (w : W) (counter : ℕ)
      → released (task (adcs_service_app net hal data_size stack) 1 inputs (w, counter)).0
        ≡ received inputs
  adcs_releases inputs w counter =
      released-task (adcs_service_app net hal data_size stack)
        (λ p w. (adcs_service_app-IsAnswer p w).0) 1 inputs w counter
