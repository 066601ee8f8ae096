-- ===== src/Communication/Sband.antt =====
-- The cases of `communication_service_app` for the S-band transmitter.
use ex2_services.Base.{ℕ, ◌+◌, ltb, if◌then◌else◌, List, [], ◌∷◌}
use ex2_services.Csp.Bytes.{Endian, Memory, u16_bytes, u32_bytes}
use ex2_services.Csp.Convert.{cnv8_f}
use ex2_services.Csp.Network.{Network}
use ex2_services.Csp.Packet.{Packet, SatReturn, satr_pkt_illegal_subservice, in_data_byte}
use ex2_services.Communication.Answer.{
  Reads, Sets, Floats, answer_data, check_size, reply, reply_data,
}

-- `Sband_PowerAmplifier`, `Sband_Encoder`, `Sband_config` and `Sband_Housekeeping`, with the fields
-- that the service names.
pub record PowerAmplifier : Type 0 where
  pub status : ℕ
  pub mode : ℕ

pub record Encoder : Type 0 where
  pub scrambler : ℕ
  pub filter : ℕ
  pub modulation : ℕ
  pub rate : ℕ

pub record SbandHousekeeping : Type 0 where
  pub output_power : ℕ
  pub pa_temp : ℕ
  pub top_temp : ℕ
  pub bottom_temp : ℕ
  pub bat_current : ℕ
  pub bat_voltage : ℕ
  pub pa_current : ℕ
  pub pa_voltage : ℕ

-- The driver, with the bytes that its structs have in memory: `status` and `tr` are structs that
-- the service only copies, and `buffer` is the array `pointer`.
pub record SbandHal (W : Type 0) : Type 0 where
  pub get_freq : Reads W ℕ
  pub get_control : Reads W PowerAmplifier
  pub get_encoder : Reads W Encoder
  pub get_pa_power : Reads W ℕ
  pub get_status : Reads W (List ℕ)
  pub get_firmware_v : Reads W ℕ
  pub get_tr : Reads W (List ℕ)
  pub get_hk : Reads W SbandHousekeeping
  pub get_buffer : ℕ → Memory → Reads W Memory
  pub soft_reset_fpga : W → ℕ × W
  pub set_freq : Sets W ℕ
  pub set_pa_power : Sets W ℕ
  pub set_control : Sets W PowerAmplifier
  pub set_encoder : Sets W Encoder
  pub control_bytes : PowerAmplifier → List ℕ
  pub encoder_bytes : Encoder → List ℕ
  pub config_bytes : (freq pa_power : ℕ) → PowerAmplifier → Encoder → List ℕ
  pub firmware_bytes : ℕ → List ℕ
  pub hk_bytes : SbandHousekeeping → List ℕ
  pub full_status_bytes :
      (status : List ℕ) → (firmware : ℕ) → (transmit : List ℕ) → SbandHousekeeping → Memory → List ℕ

module _ {e : Endian} (net : Network e) (fl : Floats) {W : Type 0} (hal : SbandHal W)
    (data_size : ℕ) where
  unfoldable pub s_get_freq : Packet → W → SatReturn × Packet × W
  s_get_freq packet w =
      let (status, freq, w₁) = hal.get_freq w in
      reply_data data_size packet status (u32_bytes e (fl.htonflt freq)) w₁

  unfoldable pub s_get_control : Packet → W → SatReturn × Packet × W
  s_get_control packet w =
      let (status, pa, w₁) = hal.get_control w in
      reply_data data_size packet status (hal.control_bytes pa) w₁

  unfoldable pub s_get_encoder : Packet → W → SatReturn × Packet × W
  s_get_encoder packet w =
      let (status, enc, w₁) = hal.get_encoder w in
      reply_data data_size packet status (hal.encoder_bytes enc) w₁

  unfoldable pub s_get_pa_power : Packet → W → SatReturn × Packet × W
  s_get_pa_power packet w =
      let (status, pa_power, w₁) = hal.get_pa_power w in
      reply_data data_size packet status (pa_power ∷ []) w₁

  -- C leaves open in which order the operands of `+` are evaluated; here from left to right.
  unfoldable pub s_get_config : Packet → W → SatReturn × Packet × W
  s_get_config packet w =
      let (s₁, freq, w₁) = hal.get_freq w in
      let (s₂, pa_power, w₂) = hal.get_pa_power w₁ in
      let (s₃, pa, w₃) = hal.get_control w₂ in
      let (s₄, enc, w₄) = hal.get_encoder w₃ in
      reply_data data_size packet (s₁ + s₂ + s₃ + s₄)
        (hal.config_bytes (fl.htonflt freq) pa_power pa enc) w₄

  -- The size that is checked is that of the status byte.
  unfoldable pub s_get_status : Packet → W → SatReturn × Packet × W
  s_get_status packet w =
      let (status, s_status, w₁) = hal.get_status w in
      (check_size data_size 1, answer_data packet status s_status, w₁)

  unfoldable pub s_get_fw : Packet → W → SatReturn × Packet × W
  s_get_fw packet w =
      let (status, firmware, w₁) = hal.get_firmware_v w in
      reply_data data_size packet status (hal.firmware_bytes (net.hton16 firmware)) w₁

  unfoldable pub s_get_tr : Packet → W → SatReturn × Packet × W
  s_get_tr packet w =
      let (status, transmit, w₁) = hal.get_tr w in reply_data data_size packet status transmit w₁

  unfoldable pub hk_to_network : SbandHousekeeping → SbandHousekeeping
  hk_to_network hk = record {
    output_power = fl.htonflt hk.output_power;
    pa_temp = fl.htonflt hk.pa_temp;
    top_temp = fl.htonflt hk.top_temp;
    bottom_temp = fl.htonflt hk.bottom_temp;
    bat_current = fl.htonflt hk.bat_current;
    bat_voltage = fl.htonflt hk.bat_voltage;
    pa_current = fl.htonflt hk.pa_current;
    pa_voltage = fl.htonflt hk.pa_voltage;
  }

  unfoldable pub s_get_hk : Packet → W → SatReturn × Packet × W
  s_get_hk packet w =
      let (status, hk, w₁) = hal.get_hk w in
      reply_data data_size packet status (hal.hk_bytes (hk_to_network hk)) w₁

  -- `stack` is what the local variable `buffer` holds before the call. The check is on the whole
  -- struct of three 16-bit pointers.
  unfoldable pub s_get_buffer : Memory → Packet → W → SatReturn × Packet × W
  s_get_buffer stack packet w =
      let sid = packet.bytes 1 in
      let (status, buffer, w₁) = hal.get_buffer sid stack w in
      let pointer = net.hton16 (buffer sid) in
      if ltb 2 sid
      then (satr_pkt_illegal_subservice, packet, w)
      else (check_size data_size 6, answer_data packet status (u16_bytes e pointer), w₁)

  unfoldable pub s_soft_reset : Packet → W → SatReturn × Packet × W
  s_soft_reset packet w = reply packet (hal.soft_reset_fpga w)

  unfoldable pub s_get_full_status : Memory → Packet → W → SatReturn × Packet × W
  s_get_full_status stack packet w =
      let (s₁, status, w₁) = hal.get_status w in
      let (s₂, firmware, w₂) = hal.get_firmware_v w₁ in
      let (s₃, transmit, w₃) = hal.get_tr w₂ in
      let (s₄, hk, w₄) = hal.get_hk w₃ in
      let (t₀, buffer₀, w₅) = hal.get_buffer 0 stack w₄ in
      let (t₁, buffer₁, w₆) = hal.get_buffer 1 buffer₀ w₅ in
      let (t₂, buffer₂, w₇) = hal.get_buffer 2 buffer₁ w₆ in
      reply_data data_size packet (s₁ + s₂ + s₃ + s₄ + t₀ + t₁ + t₂)
        (hal.full_status_bytes status firmware transmit (hk_to_network hk)
          (λ i. if ltb i 3 then net.hton16 (buffer₂ i) else buffer₂ i))
        w₇

  unfoldable pub s_set_freq : Packet → W → SatReturn × Packet × W
  s_set_freq packet w =
      reply packet (hal.set_freq (fl.ntohflt (cnv8_f e packet.bytes in_data_byte)) w)

  unfoldable pub s_set_pa_power : Packet → W → SatReturn × Packet × W
  s_set_pa_power packet w = reply packet (hal.set_pa_power (packet.bytes in_data_byte) w)

  -- The power amplifier, and the encoder, from the bytes at `i`.
  unfoldable pub control_at : Memory → ℕ → PowerAmplifier
  control_at m i = record { status = m i; mode = m (i + 1) }

  unfoldable pub encoder_at : Memory → ℕ → Encoder
  encoder_at m i = record {
    scrambler = m i;
    filter = m (i + 1);
    modulation = m (i + 2);
    rate = m (i + 3);
  }

  unfoldable pub s_set_control : Packet → W → SatReturn × Packet × W
  s_set_control packet w = reply packet (hal.set_control (control_at packet.bytes in_data_byte) w)

  unfoldable pub s_set_encoder : Packet → W → SatReturn × Packet × W
  s_set_encoder packet w = reply packet (hal.set_encoder (encoder_at packet.bytes in_data_byte) w)

  unfoldable pub s_set_config : Packet → W → SatReturn × Packet × W
  s_set_config packet w =
      let b = packet.bytes in
      let (s₁, w₁) = hal.set_freq (fl.ntohflt (cnv8_f e b in_data_byte)) w in
      let (s₂, w₂) = hal.set_pa_power (b (in_data_byte + 4)) w₁ in
      let (s₃, w₃) = hal.set_control (control_at b (in_data_byte + 5)) w₂ in
      let (s₄, w₄) = hal.set_encoder (encoder_at b (in_data_byte + 7)) w₃ in
      reply packet (s₁ + s₂ + s₃ + s₄, w₄)
