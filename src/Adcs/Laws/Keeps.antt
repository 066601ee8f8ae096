-- ===== src/Adcs/Laws/Keeps.antt =====
-- The answers of the ADCS service are the packets of their requests.
pub mod Cases
use ex2_services.Base.{
  ℕ, ◌%◌, ◌≡◌, ◌≢◌, refl, inl, inr, ◌==◌, Bool-cases, arith, List, [], ◌∷◌, length,
}
use ex2_services.Csp.Bytes.{Endian, put, put_outside, u16_bytes}
use ex2_services.Csp.Network.{Network}
use ex2_services.Csp.Packet.{
  Packet, SatReturn, satr_ok, satr_pkt_illegal_subservice, subservice_byte, out_data_byte,
  write_status, write, set_packet_length,
}
use ex2_services.Service.Task.{Accept, task}
use ex2_services.Service.Task.Laws.{released, received, released-task}
use ex2_services.Communication.Answer.{reply, reply_data, answer_status, answer_data, check_size}
use ex2_services.Communication.Laws.Keeps.{Keeps, reply-Keeps, reply_data-Keeps, answer_data-Keeps}
use ex2_services.Adcs.Answer.{reply_if_ok}
use ex2_services.Adcs.Files.{
  adcs_reset, adcs_reset_log_pointer, adcs_advance_log_pointer, adcs_reset_boot_registers,
  adcs_format_sd_card, adcs_erase_file, adcs_load_file_download_block,
  adcs_advance_file_list_read_pointer, adcs_initiate_file_upload, adcs_file_upload_packet,
  adcs_finalize_upload_block, adcs_reset_upload_block, adcs_reset_file_list_read_pointer,
  adcs_initiate_download_burst,
}
use ex2_services.Adcs.Status.{
  adcs_get_node_identification, adcs_get_boot_program_stat, adcs_get_boot_index,
  adcs_get_last_logged_event, adcs_get_sd_format_process, adcs_get_tc_ack,
  adcs_get_file_download_buffer, adcs_get_file_download_block_stat, adcs_get_file_info,
  adcs_get_init_upload_stat, adcs_get_finalize_upload_stat, adcs_get_upload_crc16_checksum,
  adcs_get_sram_latchup_count, adcs_get_edac_err_count, adcs_get_comms_stat,
}
use ex2_services.Adcs.Settings.{
  adcs_set_cache_en_state, adcs_set_sram_scrub_size, adcs_set_unixtime_save_config,
  adcs_set_hole_map, adcs_set_unix_t, adcs_get_cache_en_state, adcs_get_sram_scrub_size,
  adcs_get_unixtime_save_config, adcs_get_hole_map, adcs_get_unix_t,
}
use ex2_services.Adcs.Program.{
  adcs_clear_err_flags, adcs_set_boot_index, adcs_run_selected_program, adcs_read_program_info,
  adcs_copy_program_internal_flash, adcs_get_bootloader_state, adcs_get_program_info,
  adcs_copy_internal_flash_progress,
}
use ex2_services.Adcs.Control.{
  adcs_deploy_magnetometer_boom, adcs_set_enabled_state, adcs_clear_latched_errs,
  adcs_set_attitude_ctr_mode, adcs_set_attitude_estimate_mode, adcs_trigger_adcs_loop,
  adcs_trigger_adcs_loop_sim, adcs_set_asgp4_rune_mode, adcs_trigger_asgp4, adcs_set_mtm_op_mode,
  adcs_cnv2jpg, adcs_save_img, adcs_set_magnetorquer_output, adcs_set_wheel_speed, adcs_save_config,
  adcs_save_orbit_params,
}
use ex2_services.Adcs.Telemetry.{
  adcs_get_current_state, adcs_get_jpg_cnv_progess, adcs_get_cubeacp_state, adcs_get_sat_pos_llh,
  adcs_get_execution_times, adcs_get_acp_loop_stat, adcs_get_img_save_progress,
  adcs_get_measurements, adcs_get_actuator, adcs_get_estimation, adcs_get_asgp4,
  adcs_get_raw_sensor, adcs_get_raw_gps, adcs_get_star_tracker, adcs_get_mtm2_measurements,
  adcs_get_power_temp,
}
use ex2_services.Adcs.Config.{
  adcs_set_power_control, adcs_get_power_control, adcs_set_attitude_angle, adcs_get_attitude_angle,
  adcs_set_track_controller, adcs_get_track_controller, adcs_set_log_config, adcs_get_log_config,
  adcs_set_inertial_ref, adcs_get_inertial_ref, adcs_set_sgp4_orbit_params,
  adcs_get_sgp4_orbit_params, adcs_set_system_config, adcs_get_system_config, adcs_set_mtq_config,
  adcs_set_rw_config, adcs_set_rate_gyro, adcs_set_css_config, adcs_set_star_track_config,
  adcs_set_cubesense_config, adcs_set_mtm_config, adcs_set_detumble_config, adcs_set_ywheel_config,
  adcs_set_tracking_config, adcs_set_moi_mat, adcs_set_estimation_config,
  adcs_set_usercoded_setting, adcs_set_asgp4_setting, adcs_get_full_config,
}
use ex2_services.Adcs.App.{
  AdcsHal, Subtype, subtype, handle, adcs_service_app, unknown, reset, reset_log_pointer,
  advance_log_pointer, reset_boot_registers, format_sd_card, erase_file, load_file_download_block,
  advance_file_list_read_pointer, initiate_file_upload, file_upload_packet, finalize_upload_block,
  reset_upload_block, reset_file_list_read_pointer, initiate_download_burst,
  get_node_identification, get_boot_program_stat, get_boot_index, get_last_logged_event,
  get_sd_format_process, get_tc_ack, get_file_download_buffer, get_file_download_block_stat,
  get_file_info, get_init_upload_stat, get_finalize_upload_stat, get_upload_crc16_checksum,
  get_sram_latchup_count, get_edac_err_count, get_comms_stat, set_cache_en_state,
  set_sram_scrub_size, set_unixtime_save_config, set_hole_map, set_unix_t, get_cache_en_state,
  get_sram_scrub_size, get_unixtime_save_config, get_hole_map, get_unix_t, clear_err_flags,
  set_boot_index, run_selected_program, read_program_info, copy_program_internal_flash,
  get_bootloader_state, get_program_info, copy_internal_flash_progress, deploy_magnetometer_boom,
  set_enabled_state, clear_latched_errs, set_attitude_ctr_mode, set_attitude_estimate_mode,
  trigger_adcs_loop, trigger_adcs_loop_sim, set_asgp4_rune_mode, trigger_asgp4, set_mtm_op_mode,
  cnv2jpg, save_img, set_magnetorquer_output, set_wheel_speed, save_config, save_orbit_params,
  get_current_state, get_jpg_cnv_progess, get_cubeacp_state, get_sat_pos_llh, get_execution_times,
  get_acp_loop_stat, get_img_save_progress, get_measurements, get_actuator, get_estimation,
  get_asgp4, get_raw_sensor, get_raw_gps, get_star_tracker, get_mtm2_measurements, get_power_temp,
  set_power_control, get_power_control, set_attitude_angle, get_attitude_angle,
  set_track_controller, get_track_controller, set_log_config, get_log_config, set_inertial_ref,
  get_inertial_ref, set_sgp4_orbit_params, get_sgp4_orbit_params, set_system_config,
  get_system_config, set_mtq_config, set_rw_config, set_rate_gyro, set_css_config,
  set_star_track_config, set_cubesense_config, set_mtm_config, set_detumble_config,
  set_ywheel_config, set_tracking_config, set_moi_mat, set_estimation_config, set_usercoded_setting,
  set_asgp4_setting, get_full_config,
}

pub not_illegal : (data_size size : ℕ) → check_size data_size size ≢ satr_pkt_illegal_subservice
unfolding check_size
not_illegal data_size size = ground arith

module _ {W : Type 0} where
  -- An answer in the packet of the request, which the service does not call illegal.
  unfoldable pub IsAnswer : Packet → SatReturn × Packet × W → Type 0
  IsAnswer p r = Keeps p r × (r.0 ≢ satr_pkt_illegal_subservice)

  pub reply-IsAnswer : (p : Packet) (r : ℕ × W) → IsAnswer p (reply p r)
  unfolding IsAnswer reply
  reply-IsAnswer p r = (reply-Keeps p r, ground arith)

  pub reply_data-IsAnswer :
      (size : ℕ) (p : Packet) (status : ℕ) (bs : List ℕ) (w : W)
      → IsAnswer p (reply_data size p status bs w)
  unfolding IsAnswer reply_data
  reply_data-IsAnswer size p status bs w = (reply_data-Keeps size p status bs w, not_illegal size _)

  pub answer_data-IsAnswer :
      (p : Packet) (status : ℕ) (bs : List ℕ) (w : W)
      → IsAnswer p (satr_ok, answer_data p status bs, w)
  unfolding IsAnswer Keeps
  answer_data-IsAnswer p status bs w = (answer_data-Keeps p satr_ok status bs w, ground arith)

  pub reply_if_ok-IsAnswer :
      (ok size : ℕ) (p : Packet) (status : ℕ) (bs : List ℕ) (w : W)
      → IsAnswer p (reply_if_ok ok size p status bs w)
  unfolding IsAnswer Keeps reply_if_ok answer_data reply answer_status
  reply_if_ok-IsAnswer ok size p status bs w = elim (Bool-cases ((status % 256) == ok)) [
    | inl good ↦ rw good (
      answer_data-Keeps p (check_size size (length bs)) status bs w,
      not_illegal size (length bs),
    )
    | inr bad ↦ rw bad (reply-Keeps p (status, w), not_illegal size _)
  ]

  pub unknown-IsAnswer : (p : Packet) (w : W) → IsAnswer p (satr_ok, p, w)
  unfolding IsAnswer Keeps
  unknown-IsAnswer p w = ((refl, refl), ground arith)

  pub hole_map-IsAnswer :
      (p : Packet) (status hole_map : ℕ) (w : W)
      → let stated = write_status p status in
        IsAnswer p (satr_ok, set_packet_length (write stated out_data_byte (hole_map ∷ [])) 2, w)
  unfolding IsAnswer Keeps answer_data put
  hole_map-IsAnswer p status hole_map w =
      (answer_data-Keeps p satr_ok status (hole_map ∷ []) w, ground arith)
