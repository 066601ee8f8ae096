-- ===== src/Examples/Adcs.antt =====
-- Requests to the ADCS.
use ex2_services.Base.{ℕ, ◌≡◌, refl, arith, true, List, [], ◌∷◌}
use ex2_services.Csp.Bytes.{slice}
use ex2_services.Service.Task.{read_loop, sent}
use ex2_services.Communication.Answer.{reply}
use ex2_services.Adcs.Config.{adcs_set_attitude_angle, adcs_get_attitude_angle, adcs_get_log_config}
use ex2_services.Adcs.Settings.{adcs_set_unix_t}
use ex2_services.Adcs.Status.{adcs_get_comms_stat, adcs_get_upload_crc16_checksum}
use ex2_services.Adcs.App.{AdcsHal, adcs_service_app}
use ex2_services.Adcs.Laws.Settings.{Remembers, settings_come_back}
use ex2_services.Adcs.Laws.Values.{
  values_sent, values_received, comms_stat_answers, log_config_overlaps, unknown_sent_back,
}
use ex2_services.Examples.Toys.{network, packet_of, packet_of-IsBytes}
use ex2_services.Examples.AdcsDriver.{adcs}

abbrev keeping : AdcsHal (List ℕ)
keeping = adcs (λ w. w)

driver-Remembers : Remembers keeping.config
driver-Remembers = record {
  angle = λ x w. refl;
  track = λ x w. refl;
  inertial = λ x w. refl;
  sgp4 = λ x w. refl;
  system = λ x w. refl;
}

settings_come_back_example :
    let p = packet_of (81 ∷ 7 ∷ 8 ∷ 9 ∷ []) in
    let q = packet_of (82 ∷ []) in
    let w₁ = (adcs_set_attitude_angle network keeping.config 100 p []).2 in
    let got = slice 2 3 (adcs_get_attitude_angle network keeping.config 100 q w₁).1.bytes in
    got ≡ 7 ∷ 8 ∷ 9 ∷ []
settings_come_back_example =
    (settings_come_back network keeping.config 100 driver-Remembers
      (packet_of (81 ∷ 7 ∷ 8 ∷ 9 ∷ [])) (packet_of (82 ∷ [])) []).0

values_sent_example :
    slice 0 4
      (adcs_get_upload_crc16_checksum network keeping.status 100 (packet_of (25 ∷ [])) []).1.bytes
    ≡ 25 ∷ 0 ∷ 2 ∷ 1 ∷ []
values_sent_example =
    (values_sent network 100 keeping.status keeping.config (packet_of (25 ∷ [])) [] (omega arith)
      (omega arith) (omega arith) (omega arith)).0

values_received_example :
    let p = packet_of (33 ∷ 0 ∷ 0 ∷ 1 ∷ 2 ∷ 3 ∷ 4 ∷ []) in
    adcs_set_unix_t network keeping.settings 100 p [] ≡ reply p (0, 258 ∷ 1027 ∷ [])
values_received_example =
    (values_received network 100 keeping.files keeping.settings
      (packet_of (33 ∷ 0 ∷ 0 ∷ 1 ∷ 2 ∷ 3 ∷ 4 ∷ [])) []
      (packet_of-IsBytes (33 ∷ 0 ∷ 0 ∷ 1 ∷ 2 ∷ 3 ∷ 4 ∷ []) refl)).2

comms_stat_answers_example :
    let answer = (adcs_get_comms_stat network keeping.status 100 (packet_of (28 ∷ [])) []).1 in
    (answer.length ≡ 4) × (slice 2 2 answer.bytes ≡ 0 ∷ 7 ∷ [])
comms_stat_answers_example =
    comms_stat_answers network 100 keeping.status (packet_of (28 ∷ [])) [] (omega arith)

log_config_overlaps_example :
    slice 0 16 (adcs_get_log_config network keeping.config 100 (packet_of (86 ∷ [])) []).1.bytes
    ≡ 86 ∷ 0 ∷ 10 ∷ 1 ∷ 44 ∷ 2 ∷ 0 ∷ 15 ∷ 16 ∷ 17 ∷ 18 ∷ 19 ∷ 0 ∷ 0 ∷ 0 ∷ 0 ∷ []
log_config_overlaps_example =
    log_config_overlaps network 100 keeping.config (packet_of (86 ∷ [])) []

unknown_sent_back_example :
    read_loop (adcs_service_app network keeping 100 0) ((packet_of (200 ∷ 3 ∷ []), true) ∷ []) []
    ≡ (sent (packet_of (200 ∷ 3 ∷ [])) ∷ [], [])
unknown_sent_back_example =
    unknown_sent_back network keeping 100 0 (packet_of (200 ∷ 3 ∷ [])) [] (omega arith)
