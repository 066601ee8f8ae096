-- ===== src/Communication/Uhf/Get.antt =====
-- The requests of `communication_service_app` that read something from the UHF radio.
use ex2_services.Base.{ℕ, ◌+◌, ◌*◌, ◌++◌}
use ex2_services.Csp.Bytes.{Endian, Memory, slice, u32_bytes}
use ex2_services.Csp.Convert.{cnv8_32}
use ex2_services.Csp.Network.{Network}
use ex2_services.Csp.Packet.{Packet, SatReturn, in_data_byte}
use ex2_services.Housekeeping.Timestamps.{Run, done, ◌>>=◌}
use ex2_services.Communication.Answer.{Floats, reply_data}
use ex2_services.Communication.Messages.{
  callsign_len, morse_beacon_msg_len_max, beacon_msg_len_max, fram_size, single_note_len, padded,
}
use ex2_services.Communication.Uhf.{UhfStatus, UhfHal}

-- `stack` is what a local array holds before it is filled.
module _ {e : Endian} (net : Network e) (fl : Floats) {W : Type 0} (hal : UhfHal W) (data_size : ℕ)
    (stack : Memory) where
  unfoldable pub status_to_network : UhfStatus → UhfStatus
  status_to_network s = record s {
    freq = net.hton32 s.freq;
    uptime = net.hton32 s.uptime;
    pckts_out = net.hton32 s.pckts_out;
    pckts_in = net.hton32 s.pckts_in;
    pckts_in_crc16 = net.hton32 s.pckts_in_crc16;
    pipe_t = net.hton32 s.pipe_t;
    beacon_t = net.hton32 s.beacon_t;
    audio_t = net.hton32 s.audio_t;
    temperature = fl.htonflt s.temperature;
  }

  -- What the ten calls read, with the sum of what they report.
  unfoldable pub read_status : W → ℕ × UhfStatus × W
  read_status w =
      let (s₀, scw, w₀) = hal.get_scw w in
      let (s₁, freq, w₁) = hal.get_freq w₀ in
      let (s₂, uptime, w₂) = hal.get_uptime w₁ in
      let (s₃, pckts_out, w₃) = hal.get_pckts_out w₂ in
      let (s₄, pckts_in, w₄) = hal.get_pckts_in w₃ in
      let (s₅, pckts_in_crc16, w₅) = hal.get_pckts_in_crc16 w₄ in
      let (s₆, pipe_t, w₆) = hal.get_pipe_t w₅ in
      let (s₇, beacon_t, w₇) = hal.get_beacon_t w₆ in
      let (s₈, audio_t, w₈) = hal.get_audio_t w₇ in
      let (s₉, temperature, w₉) = hal.get_temp w₈ in
      (
        s₀ + s₁ + s₂ + s₃ + s₄ + s₅ + s₆ + s₇ + s₈ + s₉,
        record {
          scw = scw;
          freq = freq;
          uptime = uptime;
          pckts_out = pckts_out;
          pckts_in = pckts_in;
          pckts_in_crc16 = pckts_in_crc16;
          pipe_t = pipe_t;
          beacon_t = beacon_t;
          audio_t = audio_t;
          temperature = temperature;
        },
        w₉,
      )

  unfoldable pub uhf_get_full_stat : Packet → W → SatReturn × Packet × W
  uhf_get_full_stat packet w =
      let (status, u_stat, w₁) = read_status w in
      reply_data data_size packet status (hal.status_bytes (status_to_network u_stat)) w₁

  unfoldable pub uhf_get_call_sign : Packet → W → SatReturn × Packet × W
  uhf_get_call_sign packet w =
      let (s₁, dest, w₁) = hal.get_destination w in
      let (s₂, src, w₂) = hal.get_source w₁ in
      reply_data data_size packet (s₁ + s₂)
        (slice 0 callsign_len dest.message ++ slice 0 callsign_len src.message) w₂

  unfoldable pub uhf_get_morse : Packet → W → Run (SatReturn × Packet × W)
  uhf_get_morse packet w =
      let (status, morse, w₁) = hal.get_morse w in
      padded morse_beacon_msg_len_max morse.len morse.message >>= λ mrs.
      done (reply_data data_size packet status mrs w₁)

  unfoldable pub uhf_get_midi : Packet → W → Run (SatReturn × Packet × W)
  uhf_get_midi packet w =
      let (status, midi_bcn, w₁) = hal.get_midi w in
      padded beacon_msg_len_max (midi_bcn.len * single_note_len) midi_bcn.message >>= λ midi.
      done (reply_data data_size packet status midi w₁)

  unfoldable pub uhf_get_beacon_msg : Packet → W → Run (SatReturn × Packet × W)
  uhf_get_beacon_msg packet w =
      let (status, beacon_msg, w₁) = hal.get_beacon_msg w in
      padded beacon_msg_len_max beacon_msg.len beacon_msg.message >>= λ beacon.
      done (reply_data data_size packet status beacon w₁)

  unfoldable pub uhf_get_fram : Packet → W → SatReturn × Packet × W
  uhf_get_fram packet w =
      let (status, cells, w₁) = hal.get_fram (cnv8_32 e packet.bytes in_data_byte) w in
      reply_data data_size packet status (slice 0 fram_size cells) w₁

  unfoldable pub uhf_get_secure_key : Packet → W → SatReturn × Packet × W
  uhf_get_secure_key packet w =
      let (status, key, w₁) = hal.get_secure_key w in
      reply_data data_size packet status (u32_bytes e (net.hton32 key)) w₁
