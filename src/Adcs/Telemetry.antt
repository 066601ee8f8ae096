-- ===== src/Adcs/Telemetry.antt =====
-- The cases of `adcs_service_app` for states and measurements.
use ex2_services.Base.{ℕ, List, [], ◌∷◌}
use ex2_services.Csp.Bytes.{Endian}
use ex2_services.Csp.Network.{Network}
use ex2_services.Csp.Packet.{Packet, SatReturn, satr_ok}
use ex2_services.Communication.Answer.{Reads, answer_data, reply_data}
use ex2_services.Adcs.Answer.{FieldType, in_network}

-- The structs that the service converts, at the values of their fields, or at the types of these.
pub record JpgCnvProgress (A : Type 0) : Type 0 where
  pub percentage : A
  pub result : A
  pub file_counter : A

pub record ExecutionTimes (A : Type 0) : Type 0 where
  pub adcs_update : A
  pub sensor_comms : A
  pub sgp4_propag : A
  pub igrf_model : A

pub record AcpLoopStat (A : Type 0) : Type 0 where
  pub time : A
  pub execution_point : A

pub record ImgSaveProgress (A : Type 0) : Type 0 where
  pub percentage : A
  pub status : A

-- The calls of the driver; a `_bytes` is the layout of a struct, a `_size` its `sizeof`.
pub record TelemetryHal (W : Type 0) : Type 0 where
  pub get_current_state : Reads W (List ℕ)
  pub get_jpg_cnv_progess : Reads W (JpgCnvProgress ℕ)
  pub jpg_cnv_progress_types : JpgCnvProgress FieldType
  pub jpg_cnv_progress_bytes : JpgCnvProgress ℕ → List ℕ
  pub get_cubeacp_state : Reads W ℕ
  pub get_sat_pos_llh : Reads W (List ℕ)
  pub get_execution_times : Reads W (ExecutionTimes ℕ)
  pub execution_times_types : ExecutionTimes FieldType
  pub execution_times_bytes : ExecutionTimes ℕ → List ℕ
  pub get_acp_loop_stat : Reads W (AcpLoopStat ℕ)
  pub acp_loop_stat_types : AcpLoopStat FieldType
  pub acp_loop_stat_bytes : AcpLoopStat ℕ → List ℕ
  pub get_img_save_progress : Reads W (ImgSaveProgress ℕ)
  pub img_save_progress_types : ImgSaveProgress FieldType
  pub img_save_progress_bytes : ImgSaveProgress ℕ → List ℕ
  pub get_measurements : Reads W (List ℕ)
  pub get_actuator : Reads W (List ℕ)
  pub get_estimation : Reads W (List ℕ)
  pub get_asgp4 : (complete err : ℕ) → W → ℕ × ℕ × ℕ × List ℕ × W
  pub get_raw_sensor : Reads W (List ℕ)
  pub get_raw_gps : Reads W (List ℕ)
  pub get_star_tracker : Reads W (List ℕ)
  pub get_mtm2_measurements : Reads W (List ℕ)
  pub get_power_temp : Reads W (List ℕ)

module _ {e : Endian} (net : Network e) {W : Type 0} (hal : TelemetryHal W) (data_size : ℕ) where
  -- No check of the size.
  unfoldable pub adcs_get_current_state : Packet → W → SatReturn × Packet × W
  adcs_get_current_state packet w =
      let (status, bs, w₁) = hal.get_current_state w in (satr_ok, answer_data packet status bs, w₁)

  unfoldable pub adcs_get_jpg_cnv_progess : Packet → W → SatReturn × Packet × W
  adcs_get_jpg_cnv_progess packet w =
      let (status, x, w₁) = hal.get_jpg_cnv_progess w in
      let t = hal.jpg_cnv_progress_types in
      let converted : JpgCnvProgress ℕ = record {
        percentage = in_network net t.percentage x.percentage;
        result = in_network net t.result x.result;
        file_counter = in_network net t.file_counter x.file_counter;
      } in
      reply_data data_size packet status (hal.jpg_cnv_progress_bytes converted) w₁

  unfoldable pub adcs_get_cubeacp_state : Packet → W → SatReturn × Packet × W
  adcs_get_cubeacp_state packet w =
      let (status, flags_arr, w₁) = hal.get_cubeacp_state w in
      reply_data data_size packet status (flags_arr ∷ []) w₁

  -- No check of the size.
  unfoldable pub adcs_get_sat_pos_llh : Packet → W → SatReturn × Packet × W
  adcs_get_sat_pos_llh packet w =
      let (status, bs, w₁) = hal.get_sat_pos_llh w in (satr_ok, answer_data packet status bs, w₁)

  unfoldable pub adcs_get_execution_times : Packet → W → SatReturn × Packet × W
  adcs_get_execution_times packet w =
      let (status, x, w₁) = hal.get_execution_times w in
      let t = hal.execution_times_types in
      let converted : ExecutionTimes ℕ = record {
        adcs_update = in_network net t.adcs_update x.adcs_update;
        sensor_comms = in_network net t.sensor_comms x.sensor_comms;
        sgp4_propag = in_network net t.sgp4_propag x.sgp4_propag;
        igrf_model = in_network net t.igrf_model x.igrf_model;
      } in
      reply_data data_size packet status (hal.execution_times_bytes converted) w₁

  unfoldable pub adcs_get_acp_loop_stat : Packet → W → SatReturn × Packet × W
  adcs_get_acp_loop_stat packet w =
      let (status, x, w₁) = hal.get_acp_loop_stat w in
      let t = hal.acp_loop_stat_types in
      let converted : AcpLoopStat ℕ = record {
        time = in_network net t.time x.time;
        execution_point = in_network net t.execution_point x.execution_point;
      } in
      reply_data data_size packet status (hal.acp_loop_stat_bytes converted) w₁

  unfoldable pub adcs_get_img_save_progress : Packet → W → SatReturn × Packet × W
  adcs_get_img_save_progress packet w =
      let (status, x, w₁) = hal.get_img_save_progress w in
      let t = hal.img_save_progress_types in
      let converted : ImgSaveProgress ℕ = record {
        percentage = in_network net t.percentage x.percentage;
        status = in_network net t.status x.status;
      } in
      reply_data data_size packet status (hal.img_save_progress_bytes converted) w₁

  unfoldable pub adcs_get_measurements : Packet → W → SatReturn × Packet × W
  adcs_get_measurements packet w =
      let (status, bs, w₁) = hal.get_measurements w in reply_data data_size packet status bs w₁

  unfoldable pub adcs_get_actuator : Packet → W → SatReturn × Packet × W
  adcs_get_actuator packet w =
      let (status, bs, w₁) = hal.get_actuator w in reply_data data_size packet status bs w₁

  unfoldable pub adcs_get_estimation : Packet → W → SatReturn × Packet × W
  adcs_get_estimation packet w =
      let (status, bs, w₁) = hal.get_estimation w in reply_data data_size packet status bs w₁

  unfoldable pub adcs_get_asgp4 : Packet → W → SatReturn × Packet × W
  adcs_get_asgp4 packet w =
      let (status, complete, err, asgp4, w₁) = hal.get_asgp4 0 0 w in
      reply_data data_size packet status (complete ∷ err ∷ asgp4) w₁

  unfoldable pub adcs_get_raw_sensor : Packet → W → SatReturn × Packet × W
  adcs_get_raw_sensor packet w =
      let (status, bs, w₁) = hal.get_raw_sensor w in reply_data data_size packet status bs w₁

  unfoldable pub adcs_get_raw_gps : Packet → W → SatReturn × Packet × W
  adcs_get_raw_gps packet w =
      let (status, bs, w₁) = hal.get_raw_gps w in reply_data data_size packet status bs w₁

  unfoldable pub adcs_get_star_tracker : Packet → W → SatReturn × Packet × W
  adcs_get_star_tracker packet w =
      let (status, bs, w₁) = hal.get_star_tracker w in reply_data data_size packet status bs w₁

  unfoldable pub adcs_get_mtm2_measurements : Packet → W → SatReturn × Packet × W
  adcs_get_mtm2_measurements packet w =
      let (status, bs, w₁) = hal.get_mtm2_measurements w in reply_data data_size packet status bs w₁

  unfoldable pub adcs_get_power_temp : Packet → W → SatReturn × Packet × W
  adcs_get_power_temp packet w =
      let (status, bs, w₁) = hal.get_power_temp w in reply_data data_size packet status bs w₁
