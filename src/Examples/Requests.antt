-- ===== src/Examples/Requests.antt =====
-- Requests to the housekeeping service, the updater, the general service, the logger and the magnetometer.
use ex2_services.Base.{
  ℕ, ◌+◌, ◌-◌, ◌^◌, ◌<◌, ◌≡◌, inr, refl, arith, true, false, Option, none, some, List, [], ◌∷◌,
  ◌==◌, leb, ltb, if◌then◌else◌,
}
use ex2_services.Csp.Bytes.{big, slice, u16_bytes, put}
use ex2_services.Csp.Packet.{Packet, satr_ok, minus_one, set_packet_length, write_status}
use ex2_services.Housekeeping.Timestamps.{done, ◌>>=◌}
use ex2_services.Housekeeping.Operations.{set_max_files}
use ex2_services.Housekeeping.App.{
  get_max_files_subservice, send_or_free, status_of, max_files_answer, hk_service_app,
}
use ex2_services.Housekeeping.App.Laws.{max_files_swapped}
use ex2_services.Service.Task.{Accept, connection}
use ex2_services.Updater.{ImageInfo, Board, with_buffer, updater_app}
use ex2_services.Updater.Laws.{only_golden_writes, failed_read_is_programmed}
use ex2_services.General.{Watchdog, GeneralHal}
use ex2_services.Logger.{LogHal, exists_after, file_exists, logger_service_app}
use ex2_services.Logger.Laws.{log_text}
use ex2_services.Dfgm.{DfgmHal, DfgmHousekeeping}
use ex2_services.Examples.Toys.{
  network, packet_of, packet_of-IsBytes, files, link, sizes, converters, hk_state,
}

abbrev ask : Packet
ask = packet_of (2 ∷ [])

-- The answer to `ask` where there are three files, sent back.
abbrev sent_back : Packet
sent_back = packet_of (1 ∷ 0 ∷ 3 ∷ [])

max_files_swapped_example :
    let answer = max_files_answer network converters sizes (files none) link ask hk_state in
    (hk_service_app network converters sizes (files none) link none ask hk_state
      ≡ done (satr_ok, record hk_state { world = send_or_free link answer 0 }))
    × (slice 0 4 answer.bytes ≡ get_max_files_subservice ∷ 0 ∷ u16_bytes big 3)
    × (hk_service_app network converters sizes (files none) link none sent_back hk_state ≡ (
        set_max_files big sizes (files none) 768 none hk_state >>= λ r. done (
          satr_ok,
          record (r.1) {
            world =
                send_or_free link
                  (set_packet_length (write_status sent_back (status_of r.0)) 2)
                  r.1.world;
          },
        )))
unfolding max_files_answer put
max_files_swapped_example =
    max_files_swapped network converters sizes (files none) link none ask sent_back hk_state
      hk_state (packet_of-IsBytes (1 ∷ 0 ∷ 3 ∷ []) refl) (omega arith) refl refl refl

abbrev info : ImageInfo
info = record { exists = 1; addr = 4096; crc = 3; others = [] }

-- A heap with 300 bytes, a file that cannot be read, and flash memory that takes everything.
abbrev board : Board ℕ
board = record {
  init_eeprom = λ w. (true, w);
  shutdown_eeprom = λ w. w;
  get_golden_info = λ w. (info, w);
  get_app_info = λ w. (info, w);
  set_app_info = λ i w. w + 1;
  verify_application = λ w. (true, w);
  verify_golden = λ w. (true, w);
  open_image = λ w. (some 3, w);
  stat_size = λ fd w. (some 100, w);
  read_image = λ fd n w. (2 ^ 32 - 1, λ i. 7, w);
  malloc = λ n w. (leb n 300, w);
  start_addr_check = λ a n w. true;
  block_erase = λ a n w. (0, w);
  block_program = λ a buf n w. (0, w + n);
  info_bytes = λ i. i.exists ∷ [];
}

only_golden_writes_example :
    updater_app board big false (packet_of (4 ∷ 1 ∷ 2 ∷ [])) 6
    ≡ (satr_ok, write_status (set_packet_length (packet_of (4 ∷ 1 ∷ 2 ∷ [])) 2) minus_one, 6)
only_golden_writes_example =
    only_golden_writes board big (packet_of (4 ∷ 1 ∷ 2 ∷ [])) 6 (inr (omega arith, omega arith))

failed_read_is_programmed_example : with_buffer board 3 4096 (256, 0) ≡ (0, 256)
failed_read_is_programmed_example =
    failed_read_is_programmed board 3 4096 256 (λ i. 7) 0 0 256 (omega arith) (omega arith) refl
      refl

abbrev inputs : List Accept
inputs = connection ((packet_of (1 ∷ []), true) ∷ (packet_of (8 ∷ []), true) ∷ []) ∷ []

abbrev readings : DfgmHousekeeping
readings = record {
  core_voltage = 1;
  sensor_temp = 2;
  ref_temp = 3;
  board_temp = 4;
  pos_rail_voltage = 5;
  input_voltage = 6;
  ref_voltage = 7;
  input_current = 8;
  reserved1 = 0;
  reserved2 = 0;
  reserved3 = 0;
  reserved4 = 0;
}

-- The state is the time that is left to run.
abbrev dfgm : DfgmHal ℕ
dfgm = record {
  run = λ t w. (0, t);
  stop = λ w. (0, 0);
  get_hk = λ w. (0, readings, w);
  hk_bytes = λ hk. u16_bytes big hk.core_voltage;
}

abbrev dog : Watchdog ℕ
dog = record { get_delay = λ w. (60, w); set_delay = λ t w. (0, t) }

-- A board whose state counts its reboots.
abbrev general : GeneralHal ℕ
general = record {
  reboot_system = λ t w. w + 1;
  deployable = λ b. b;
  deploy = λ d w. (0, 9, w);
  switchstatus = λ i w. (1, w);
  uhf = dog;
  sband = dog;
  charon = dog;
}

-- A request to reboot into the application.
abbrev reboot_packet : Packet
reboot_packet = packet_of (0 ∷ 65 ∷ [])

-- The name and the descriptor of a log file, whose text is all A, and of which `size` bytes are sent.
abbrev log_hal : ℕ → LogHal ℕ
log_hal size = record {
  get_file_size = λ w. (0, size, w);
  set_file_size = λ n w. (0, n);
  get_logger_file = λ w. 97 ∷ [];
  get_logger_old_file = λ w. 98 ∷ [];
  create_excl = λ f w. (none, w);
  is_eexist = λ w. true;
  open_rdonly = λ f w. (some 3, w);
  read_file = λ fd n m w. (40, λ i. 65, w);
  close_file = λ fd w. w;
  unlink = λ f w. w;
  errno_text = λ w. 50 ∷ [];
}

log_text_example :
    (answer : Packet) × (logger_service_app big (log_hal 600) (some (λ i. 7)) (packet_of (0 ∷ [])) 0
      ≡ done (satr_ok, answer, 0))
    × (answer.length ≡ 502)
    × (answer.bytes 1 ≡ 0)
    × ((j : ℕ) → j < 500 → answer.bytes (2 + j) ≡ (if ltb j 40 then 65 else 0))
unfolding file_exists exists_after
log_text_example =
    log_text big (log_hal 600) (λ i. 7) (λ i. 65) (packet_of (0 ∷ [])) 0 0 0 0 0 0 600 40 3 refl
      refl (omega arith) refl refl refl (omega arith)

-- The command `echo a b`.
abbrev parameters : ℕ → Option (List ℕ)
parameters n = if n == 1 then some (97 ∷ []) else if n == 2 then some (98 ∷ []) else none
