-- ===== src/Examples/AdcsDriver.antt =====
-- A driver of the ADCS whose state is the last struct that it was given; `gives` is what of it a
-- request gets.
use ex2_services.Base.{ℕ, ◌+◌, ltb, if◌then◌else◌, List, [], ◌∷◌}
use ex2_services.Csp.Bytes.{Memory}
use ex2_services.Adcs.Answer.{uint16}
use ex2_services.Adcs.App.{AdcsHal}
use ex2_services.Adcs.Files.{FilesHal}
use ex2_services.Adcs.Status.{StatusHal}
use ex2_services.Adcs.Settings.{SettingsHal}
use ex2_services.Adcs.Program.{ProgramHal}
use ex2_services.Adcs.Control.{ControlHal}
use ex2_services.Adcs.Telemetry.{TelemetryHal}
use ex2_services.Adcs.Config.{ConfigHal}

-- The flags 10, 11 and so on to 19.
abbrev pub ten : Memory
ten i = if ltb i 10 then 10 + i else 0

abbrev pub files_driver : (List ℕ → List ℕ) → FilesHal (List ℕ)
files_driver gives = record {
  reset = λ w. (0, w);
  reset_log_pointer = λ w. (0, w);
  advance_log_pointer = λ w. (0, w);
  reset_boot_registers = λ w. (0, w);
  format_sd_card = λ w. (0, w);
  erase_file = λ x0 x1 x2 w. (0, x0 ∷ x1 ∷ x2 ∷ w);
  load_file_download_block = λ x0 x1 x2 x3 w. (0, x0 ∷ x1 ∷ x2 ∷ x3 ∷ w);
  advance_file_list_read_pointer = λ w. (0, w);
  initiate_file_upload = λ x0 x1 w. (0, x0 ∷ x1 ∷ w);
  file_upload_packet = λ n x w. (0, 5, n ∷ w);
  finalize_upload_block = λ x0 x1 x2 w. (0, x0 ∷ x1 ∷ x2 ∷ w);
  reset_upload_block = λ w. (0, w);
  reset_file_list_read_pointer = λ w. (0, w);
  initiate_download_burst = λ x0 x1 w. (0, x0 ∷ x1 ∷ w);
}

abbrev pub status_driver : (List ℕ → List ℕ) → StatusHal (List ℕ)
status_driver gives = record {
  satr_ok_number = 0;
  get_node_identification = λ w. (
    0,
    record {
      node_type = 7;
      interface_ver = 7;
      major_firm_ver = 7;
      minor_firm_ver = 7;
      runtime_s = 7;
      runtime_ms = 7;
    },
    w,
  );
  node_identification_types = record {
    node_type = uint16;
    interface_ver = uint16;
    major_firm_ver = uint16;
    minor_firm_ver = uint16;
    runtime_s = uint16;
    runtime_ms = uint16;
  };
  node_identification_bytes = λ x. 5 ∷ 6 ∷ [];
  get_boot_program_stat =
      λ w. (0, record { mcu_reset_cause = 7; boot_cause = 7; boot_count = 7; boot_idx = 7 }, w);
  boot_program_stat_types = record {
    mcu_reset_cause = uint16;
    boot_cause = uint16;
    boot_count = uint16;
    boot_idx = uint16;
  };
  boot_program_stat_bytes = λ x. 5 ∷ 6 ∷ [];
  get_boot_index = λ w. (0, record { program_idx = 7; boot_stat = 7 }, w);
  boot_index_types = record { program_idx = uint16; boot_stat = uint16 };
  boot_index_bytes = λ x. 5 ∷ 6 ∷ [];
  get_last_logged_event = λ w. (0, record { time = 7; event_id = 7; event_param = 7 }, w);
  last_logged_event_types = record { time = uint16; event_id = uint16; event_param = uint16 };
  last_logged_event_bytes = λ x. 5 ∷ 6 ∷ [];
  get_sd_format_process = λ x y w. (0, 1, 0, w);
  get_tc_ack = λ w. (0, record { last_tc_id = 7; tc_processed = 7; tc_err_idx = 7 }, w);
  tc_ack_types = record { last_tc_id = uint16; tc_processed = uint16; tc_err_idx = uint16 };
  tc_ack_bytes = λ x. 5 ∷ 6 ∷ [];
  get_file_download_buffer = λ w. (0, (1, []), w);
  file_download_buffer_bytes = λ n f. 1 ∷ [];
  get_file_download_block_stat =
      λ w. (0, record { ready = 7; param_err = 7; crc16_checksum = 7; length = 7 }, w);
  file_download_block_stat_types = record {
    ready = uint16;
    param_err = uint16;
    crc16_checksum = uint16;
    length = uint16;
  };
  file_download_block_stat_bytes = λ x. 5 ∷ 6 ∷ [];
  get_file_info = λ w. (
    0,
    record { type_ = 7; updating = 7; counter = 7; size = 7; time = 7; crc16_checksum = 7 },
    w,
  );
  file_info_types = record {
    type_ = uint16;
    updating = uint16;
    counter = uint16;
    size = uint16;
    time = uint16;
    crc16_checksum = uint16;
  };
  file_info_bytes = λ x. 5 ∷ 6 ∷ [];
  get_init_upload_stat = λ x w. (0, 1, w);
  get_finalize_upload_stat = λ x y w. (0, 1, 0, w);
  get_upload_crc16_checksum = λ w. (0, 513, w);
  get_sram_latchup_count = λ w. (0, record { sram1 = 7; sram2 = 7 }, w);
  sram_latchup_count_types = record { sram1 = uint16; sram2 = uint16 };
  sram_latchup_count_bytes = λ x. 5 ∷ 6 ∷ [];
  get_edac_err_count = λ w. (0, record { single_sram = 7; double_sram = 7; multi_sram = 7 }, w);
  edac_err_count_types = record { single_sram = uint16; double_sram = uint16; multi_sram = uint16 };
  edac_err_count_bytes = λ x. 5 ∷ 6 ∷ [];
  get_comms_stat = λ x w. (0, 7, w);
}

abbrev pub settings_driver : (List ℕ → List ℕ) → SettingsHal (List ℕ)
settings_driver gives = record {
  satr_ok_number = 0;
  set_cache_en_state = λ x0 w. (0, x0 ∷ w);
  set_sram_scrub_size = λ x0 w. (0, x0 ∷ w);
  set_unixtime_save_config = λ x0 x1 w. (0, x0 ∷ x1 ∷ w);
  set_hole_map = λ n x w. (0, 3, n ∷ w);
  set_unix_t = λ x0 x1 w. (0, x0 ∷ x1 ∷ w);
  get_cache_en_state = λ x w. (0, 1, w);
  get_sram_scrub_size = λ w. (0, 9, w);
  get_unixtime_save_config = λ w. (0, record { when = 7; period = 7 }, w);
  unixtime_save_config_types = record { when = uint16; period = uint16 };
  unixtime_save_config_bytes = λ x. 5 ∷ 6 ∷ [];
  get_hole_map = λ n w. (0, 3, w);
  get_unix_t = λ w. (0, record { unix_t = 7; count_ms = 7 }, w);
  adcs_unix_t_types = record { unix_t = uint16; count_ms = uint16 };
  adcs_unix_t_bytes = λ x. 5 ∷ 6 ∷ [];
}

abbrev pub program_driver : (List ℕ → List ℕ) → ProgramHal (List ℕ)
program_driver gives = record {
  clear_err_flags = λ w. (0, w);
  set_boot_index = λ x0 w. (0, x0 ∷ w);
  run_selected_program = λ w. (0, w);
  read_program_info = λ x0 w. (0, x0 ∷ w);
  copy_program_internal_flash = λ x0 x1 w. (0, x0 ∷ x1 ∷ w);
  get_bootloader_state = λ w. (0, record { uptime = 7; flags_arr = 7 }, w);
  bootloader_state_types = record { uptime = uint16; flags_arr = uint16 };
  bootloader_state_bytes = λ x. 5 ∷ 6 ∷ [];
  get_program_info = λ w. (0, record { index = 7; busy = 7; file_size = 7; crc16_checksum = 7 }, w);
  program_info_types = record {
    index = uint16;
    busy = uint16;
    file_size = uint16;
    crc16_checksum = uint16;
  };
  program_info_bytes = λ x. 5 ∷ 6 ∷ [];
  copy_internal_flash_progress = λ x y w. (0, 1, 0, w);
}

abbrev pub control_driver : (List ℕ → List ℕ) → ControlHal (List ℕ)
control_driver gives = record {
  deploy_magnetometer_boom = λ x0 w. (0, x0 ∷ w);
  set_enabled_state = λ x0 w. (0, x0 ∷ w);
  clear_latched_errs = λ x0 x1 w. (0, x0 ∷ x1 ∷ w);
  set_attitude_ctr_mode = λ x0 x1 w. (0, x0 ∷ x1 ∷ w);
  set_attitude_estimate_mode = λ x0 w. (0, x0 ∷ w);
  trigger_adcs_loop = λ w. (0, w);
  trigger_adcs_loop_sim = λ x w. (0, x);
  set_asgp4_rune_mode = λ x0 w. (0, x0 ∷ w);
  trigger_asgp4 = λ w. (0, w);
  set_mtm_op_mode = λ x0 w. (0, x0 ∷ w);
  cnv2jpg = λ x0 x1 x2 w. (0, x0 ∷ x1 ∷ x2 ∷ w);
  save_img = λ x0 x1 w. (0, x0 ∷ x1 ∷ w);
  set_magnetorquer_output = λ x w. (0, x);
  set_wheel_speed = λ x w. (0, x);
  save_config = λ w. (0, w);
  save_orbit_params = λ w. (0, w);
  sim_sensor_data_size = 3;
  xyz16_size = 3;
}

abbrev pub telemetry_driver : (List ℕ → List ℕ) → TelemetryHal (List ℕ)
telemetry_driver gives = record {
  get_current_state = λ w. (0, gives w, w);
  get_jpg_cnv_progess = λ w. (0, record { percentage = 7; result = 7; file_counter = 7 }, w);
  jpg_cnv_progress_types = record { percentage = uint16; result = uint16; file_counter = uint16 };
  jpg_cnv_progress_bytes = λ x. 5 ∷ 6 ∷ [];
  get_cubeacp_state = λ w. (0, 5, w);
  get_sat_pos_llh = λ w. (0, gives w, w);
  get_execution_times =
      λ w. (0, record { adcs_update = 7; sensor_comms = 7; sgp4_propag = 7; igrf_model = 7 }, w);
  execution_times_types = record {
    adcs_update = uint16;
    sensor_comms = uint16;
    sgp4_propag = uint16;
    igrf_model = uint16;
  };
  execution_times_bytes = λ x. 5 ∷ 6 ∷ [];
  get_acp_loop_stat = λ w. (0, record { time = 7; execution_point = 7 }, w);
  acp_loop_stat_types = record { time = uint16; execution_point = uint16 };
  acp_loop_stat_bytes = λ x. 5 ∷ 6 ∷ [];
  get_img_save_progress = λ w. (0, record { percentage = 7; status = 7 }, w);
  img_save_progress_types = record { percentage = uint16; status = uint16 };
  img_save_progress_bytes = λ x. 5 ∷ 6 ∷ [];
  get_measurements = λ w. (0, gives w, w);
  get_actuator = λ w. (0, gives w, w);
  get_estimation = λ w. (0, gives w, w);
  get_asgp4 = λ x y w. (0, 1, 0, [], w);
  get_raw_sensor = λ w. (0, gives w, w);
  get_raw_gps = λ w. (0, gives w, w);
  get_star_tracker = λ w. (0, gives w, w);
  get_mtm2_measurements = λ w. (0, gives w, w);
  get_power_temp = λ w. (0, gives w, w);
}

abbrev pub config_driver : (List ℕ → List ℕ) → ConfigHal (List ℕ)
config_driver gives = record {
  set_power_control = λ x w. (0, 9, x ∷ w);
  get_power_control = λ w. (0, 9, w);
  set_attitude_angle = λ x w. (0, x);
  get_attitude_angle = λ w. (0, gives w, w);
  set_track_controller = λ x w. (0, x);
  get_track_controller = λ w. (0, gives w, w);
  set_log_config = λ f p d l w. (0, ten, p ∷ d ∷ l ∷ []);
  get_log_config = λ l w. (0, ten, 300, 2, w);
  set_inertial_ref = λ x w. (0, x);
  get_inertial_ref = λ w. (0, gives w, w);
  set_sgp4_orbit_params = λ x w. (0, x);
  get_sgp4_orbit_params = λ w. (0, gives w, w);
  set_system_config = λ x w. (0, x);
  get_system_config = λ w. (0, gives w, w);
  set_mtq_config = λ x w. (0, x);
  set_rw_config = λ x w. (0, 4, x ∷ w);
  set_rate_gyro = λ x w. (0, x);
  set_css_config = λ x w. (0, x);
  set_star_track_config = λ x w. (0, x);
  set_cubesense_config = λ x w. (0, x);
  set_mtm_config = λ x m w. (0, m ∷ x);
  set_detumble_config = λ x w. (0, x);
  set_ywheel_config = λ x w. (0, x);
  set_tracking_config = λ x w. (0, x);
  set_moi_mat = λ x w. (0, x);
  set_estimation_config = λ x w. (0, x);
  set_usercoded_setting = λ x w. (0, x);
  set_asgp4_setting = λ x w. (0, x);
  get_full_config = λ w. (0, gives w, w);
  xyz_size = 3;
  adcs_sgp4_size = 3;
  adcs_sys_config_size = 3;
  xyzu8_size = 3;
  rate_gyro_config_size = 3;
  css_config_size = 3;
  cubestar_config_size = 3;
  cubesense_config_size = 3;
  mtm_config_size = 3;
  detumble_config_size = 3;
  ywheel_ctrl_config_size = 3;
  track_ctrl_config_size = 3;
  moment_inertia_config_size = 3;
  estimation_config_size = 3;
  usercoded_setting_size = 3;
  aspg4_setting_size = 3;
}

abbrev pub adcs : (List ℕ → List ℕ) → AdcsHal (List ℕ)
adcs gives = record {
  files = files_driver gives;
  status = status_driver gives;
  settings = settings_driver gives;
  program = program_driver gives;
  control = control_driver gives;
  telemetry = telemetry_driver gives;
  config = config_driver gives;
}
