-- ===== src/Examples/Radios.antt =====
-- Requests to the radios.
use ex2_services.Base.{ℕ, ◌+◌, ◌/◌, ◌%◌, ◌<◌, ◌≤◌, ◌≡◌, ◌≢◌, ◌⊎◌, arith, List, [], ◌∷◌}
use ex2_services.Csp.Bytes.{Memory, slice}
use ex2_services.Csp.Packet.{Packet}
use ex2_services.Communication.Answer.{Floats, reply}
use ex2_services.Communication.Messages.{ConfigStruct}
use ex2_services.Communication.Sband.{SbandHal}
use ex2_services.Communication.Uhf.{UhfHal}
use ex2_services.Communication.Laws.Settings.{i2c_address, secure_key_bytes}
use ex2_services.Communication.Laws.Strings.{IsSpaced, morse_text, midi_notes}
use ex2_services.Communication.Uhf.Get.{uhf_get_secure_key}
use ex2_services.Communication.Uhf.Set.{uhf_set_morse, uhf_set_midi, uhf_set_i2c}
use ex2_services.Examples.Toys.{network, packet_of}

abbrev floats : Floats
floats = record { htonflt = λ x. x; ntohflt = λ x. x }

-- Drivers whose state is the last number set.
abbrev sband : SbandHal ℕ
sband = record {
  get_freq = λ w. (0, 2200, w);
  get_control = λ w. (0, record { status = 1; mode = 2 }, w);
  get_encoder = λ w. (0, record { scrambler = 1; filter = 0; modulation = 1; rate = 0 }, w);
  get_pa_power = λ w. (0, 24, w);
  get_status = λ w. (0, 1 ∷ [], w);
  get_firmware_v = λ w. (0, 9, w);
  get_tr = λ w. (0, 1 ∷ [], w);
  get_hk = λ w. (
    0,
    record {
      output_power = 1;
      pa_temp = 1;
      top_temp = 1;
      bottom_temp = 1;
      bat_current = 1;
      bat_voltage = 1;
      pa_current = 1;
      pa_voltage = 1;
    },
    w,
  );
  get_buffer = λ i m w. (0, m, w);
  soft_reset_fpga = λ w. (0, w);
  set_freq = λ x w. (0, x);
  set_pa_power = λ x w. (0, w + x);
  set_control = λ x w. (0, w + x.mode);
  set_encoder = λ x w. (0, w + x.rate);
  control_bytes = λ c. c.status ∷ c.mode ∷ [];
  encoder_bytes = λ c. c.scrambler ∷ [];
  config_bytes = λ f p c n. f ∷ p ∷ [];
  firmware_bytes = λ f. f ∷ [];
  hk_bytes = λ hk. hk.pa_temp ∷ [];
  full_status_bytes = λ s f t hk m. s;
}

abbrev text : ConfigStruct
text = record { len = 3; message = λ i. 65 }

abbrev uhf : UhfHal ℕ
uhf = record {
  scw_len = 12;
  u_good_config = 0;
  u_bad_param = 254;
  set_scw = λ x w. (0, x 4);
  set_freq = λ x w. (0, x);
  set_pipe_t = λ x w. (0, w + x);
  set_beacon_t = λ x w. (0, w + x);
  set_audio_t = λ x w. (0, w + x);
  restore = λ x w. (0, w);
  low_pwr = λ x w. (0, w);
  secure = λ x w. (0, w);
  set_destination = λ x w. (0, x.message 0);
  set_source = λ x w. (0, x.message 0);
  set_morse = λ x w. (0, x.len);
  set_midi = λ x w. (0, x.len);
  set_beacon_msg = λ x w. (0, x.len);
  set_i2c = λ x w. (0, x);
  set_fram = λ a x w. (0, x a);
  get_scw = λ w. (0, λ i. 0, w);
  get_freq = λ w. (0, 437, w);
  get_uptime = λ w. (0, 1, w);
  get_pckts_out = λ w. (0, 1, w);
  get_pckts_in = λ w. (0, 1, w);
  get_pckts_in_crc16 = λ w. (0, 1, w);
  get_pipe_t = λ w. (0, 1, w);
  get_beacon_t = λ w. (0, 1, w);
  get_audio_t = λ w. (0, 1, w);
  get_temp = λ w. (0, 1, w);
  get_destination = λ w. (0, text, w);
  get_source = λ w. (0, text, w);
  get_morse = λ w. (0, text, w);
  get_midi = λ w. (0, text, w);
  get_beacon_msg = λ w. (0, text, w);
  get_fram = λ a w. (0, λ i. 1, w);
  get_secure_key = λ w. (0, 77, w);
  status_bytes = λ s. s.freq ∷ [];
}

abbrev stack : Memory
stack i = 0

-- Seven bytes of data and an 8-byte buffer.
abbrev seven : List ℕ
seven = 1 ∷ 2 ∷ 3 ∷ 4 ∷ 5 ∷ 6 ∷ 7 ∷ []

-- A text of three characters, one of them a bar.
abbrev bar : Packet
bar = packet_of (30 ∷ 65 ∷ 124 ∷ 66 ∷ [])

i2c_address_example : (uhf_set_i2c network floats uhf 100 stack (packet_of (33 ∷ 5 ∷ [])) 7).2 ≡ 17
i2c_address_example = i2c_address network floats uhf 100 stack (packet_of (33 ∷ 5 ∷ [])) 7

secure_key_bytes_example :
    slice 0 6 (uhf_get_secure_key network floats uhf 100 stack (packet_of (45 ∷ [])) 7).1.bytes
    ≡ 45 ∷ 0 ∷ 0 ∷ 0 ∷ 0 ∷ 77 ∷ []
secure_key_bytes_example =
    secure_key_bytes network floats 100 stack uhf (packet_of (45 ∷ [])) 7 (omega arith)

morse_text_example :
    (morse : ConfigStruct) × (uhf_set_morse network floats uhf 100 stack bar 7
      ≡ reply bar (0, morse.len))
    × (morse.len ≤ 36)
    × ((morse.len ≡ 36) ⊎ (bar.bytes (1 + morse.len) ≡ 0))
    × ((j : ℕ)
        → j < morse.len
        → (bar.bytes (1 + j) ≢ 0) × IsSpaced (bar.bytes (1 + j)) (morse.message j))
morse_text_example = morse_text network floats uhf 100 stack bar 7

-- The letter M and three characters.
abbrev midi : Packet
midi = packet_of (31 ∷ 77 ∷ 65 ∷ 66 ∷ 67 ∷ [])

midi_notes_example :
    (count : ℕ) × (message : Memory) × (count ≤ 60)
    × ((count ≡ 60) ⊎ (midi.bytes (2 + count) ≡ 0))
    × ((j : ℕ) → j < count → (message j ≡ midi.bytes (2 + j)) × (midi.bytes (2 + j) ≢ 0))
    × (((midi.bytes 1 ≡ 77)
          × (count % 3 ≡ 0)
          × (uhf_set_midi network floats uhf 100 stack midi 7 ≡ reply midi (0, count / 3)))
        ⊎ (((midi.bytes 1 ≢ 77) ⊎ (count % 3 ≢ 0))
            × (uhf_set_midi network floats uhf 100 stack midi 7 ≡ reply midi (254, 7))))
midi_notes_example = midi_notes network floats uhf 100 stack midi 7
