-- ===== src/Communication/Uhf/Set.antt =====
-- The requests of `communication_service_app` that set something of the UHF radio.
use ex2_services.Base.{ℕ, ◌+◌, ◌/◌, ◌%◌, ◌==◌, if◌then◌else◌, [], ◌∷◌}
use ex2_services.Csp.Bytes.{Endian, Memory, put, slice}
use ex2_services.Csp.Convert.{cnv8_32}
use ex2_services.Csp.Network.{Network}
use ex2_services.Csp.Packet.{Packet, SatReturn, in_data_byte}
use ex2_services.Communication.Answer.{Floats, reply}
use ex2_services.Communication.Messages.{
  ConfigStruct, callsign_len, morse_beacon_msg_len_max, beacon_msg_len_max, fram_size,
  single_note_len, copy_message, morse_char,
}
use ex2_services.Communication.Uhf.{UhfHal}

-- `stack` is what a local array holds before it is filled.
module _ {e : Endian} (net : Network e) (fl : Floats) {W : Type 0} (hal : UhfHal W) (data_size : ℕ)
    (stack : Memory) where
  -- `cnv8_32` and then `csp_ntoh32` at `i`.
  unfoldable pub u32_at : Packet → ℕ → ℕ
  u32_at packet i = net.ntoh32 (cnv8_32 e packet.bytes i)

  unfoldable pub uhf_set_scw : Packet → W → SatReturn × Packet × W
  uhf_set_scw packet w =
      reply packet (hal.set_scw (put 0 (slice in_data_byte hal.scw_len packet.bytes) stack) w)

  -- `scw[ser_subtype - UHF_SET_ECHO + 4] = 1` where the configuration could be read.
  unfoldable pub change_scw : ℕ → ℕ × Memory × W → ℕ × W
  change_scw i (status, scw, w) =
      if status % 256 == hal.u_good_config then hal.set_scw (put i (1 ∷ []) scw) w else (status, w)

  -- `case UHF_SET_ECHO`, `case UHF_SET_BCN` and `case UHF_SET_PIPE`; `bit` is
  -- `ser_subtype - UHF_SET_ECHO`.
  unfoldable pub uhf_set_bit : ℕ → Packet → W → SatReturn × Packet × W
  uhf_set_bit bit packet w = reply packet (change_scw (bit + 4) (hal.get_scw w))

  unfoldable pub uhf_set_freq : Packet → W → SatReturn × Packet × W
  uhf_set_freq packet w = reply packet (hal.set_freq (u32_at packet in_data_byte) w)

  unfoldable pub uhf_set_pipe_timeout : Packet → W → SatReturn × Packet × W
  uhf_set_pipe_timeout packet w = reply packet (hal.set_pipe_t (u32_at packet in_data_byte) w)

  unfoldable pub uhf_set_beacon_t : Packet → W → SatReturn × Packet × W
  uhf_set_beacon_t packet w = reply packet (hal.set_beacon_t (u32_at packet in_data_byte) w)

  unfoldable pub uhf_set_audio_t : Packet → W → SatReturn × Packet × W
  uhf_set_audio_t packet w = reply packet (hal.set_audio_t (u32_at packet in_data_byte) w)

  -- C leaves open in which order the operands of `+` are evaluated; here from left to right.
  unfoldable pub uhf_set_params : Packet → W → SatReturn × Packet × W
  uhf_set_params packet w =
      let (s₁, w₁) = hal.set_freq (u32_at packet in_data_byte) w in
      let (s₂, w₂) = hal.set_pipe_t (u32_at packet (in_data_byte + 4)) w₁ in
      let (s₃, w₃) = hal.set_beacon_t (u32_at packet (in_data_byte + 8)) w₂ in
      let (s₄, w₄) = hal.set_audio_t (u32_at packet (in_data_byte + 12)) w₃ in
      reply packet (s₁ + s₂ + s₃ + s₄, w₄)

  unfoldable pub uhf_restore_default : Packet → W → SatReturn × Packet × W
  uhf_restore_default packet w = reply packet (hal.restore (packet.bytes in_data_byte) w)

  unfoldable pub uhf_low_pwr : Packet → W → SatReturn × Packet × W
  uhf_low_pwr packet w = reply packet (hal.low_pwr (packet.bytes in_data_byte) w)

  -- The call sign of `case UHF_SET_DEST` and `case UHF_SET_SRC`.
  unfoldable pub callsign : Packet → ConfigStruct
  callsign packet =
      let (i, message) = copy_message (λ c. c) callsign_len packet.bytes in_data_byte 0 stack in
      record { len = callsign_len; message = message }

  unfoldable pub uhf_set_dest : Packet → W → SatReturn × Packet × W
  uhf_set_dest packet w = reply packet (hal.set_destination (callsign packet) w)

  unfoldable pub uhf_set_src : Packet → W → SatReturn × Packet × W
  uhf_set_src packet w = reply packet (hal.set_source (callsign packet) w)

  unfoldable pub morse_of : Packet → ConfigStruct
  morse_of packet =
      let (i, message) =
        copy_message morse_char morse_beacon_msg_len_max packet.bytes in_data_byte 0 stack in
      record { len = i; message = message }

  unfoldable pub uhf_set_morse : Packet → W → SatReturn × Packet × W
  uhf_set_morse packet w = reply packet (hal.set_morse (morse_of packet) w)

  -- The notes behind the letter M, where they are of three characters each.
  unfoldable pub set_notes : ℕ × Memory → W → ℕ × W
  set_notes (i, message) w =
      if i % single_note_len == 0
      then hal.set_midi (record { len = i / single_note_len; message = message }) w
      else (hal.u_bad_param, w)

  unfoldable pub uhf_set_midi : Packet → W → SatReturn × Packet × W
  uhf_set_midi packet w =
      let notes =
        copy_message (λ c. c) beacon_msg_len_max packet.bytes (in_data_byte + 1) 0 stack in
      reply packet
        (if packet.bytes in_data_byte == 77 then set_notes notes w else (hal.u_bad_param, w))

  unfoldable pub beacon_of : Packet → ConfigStruct
  beacon_of packet =
      let (i, message) =
        copy_message (λ c. c) beacon_msg_len_max packet.bytes in_data_byte 0 stack in
      record { len = i; message = message }

  unfoldable pub uhf_set_beacon_msg : Packet → W → SatReturn × Packet × W
  uhf_set_beacon_msg packet w = reply packet (hal.set_beacon_msg (beacon_of packet) w)

  -- The address is a uint8_t, which `csp_ntoh32` takes as 32 bits and whose result is cut again.
  unfoldable pub uhf_set_i2c : Packet → W → SatReturn × Packet × W
  uhf_set_i2c packet w =
      let i2c_address = (packet.bytes in_data_byte + 12) % 256 in
      reply packet (hal.set_i2c (net.ntoh32 i2c_address % 256) w)

  -- The address in the FRAM is taken in the order of the host.
  unfoldable pub uhf_write_fram : Packet → W → SatReturn × Packet × W
  uhf_write_fram packet w =
      let addr = cnv8_32 e packet.bytes in_data_byte in
      reply packet
        (hal.set_fram addr (put 0 (slice (in_data_byte + 4) fram_size packet.bytes) stack) w)

  unfoldable pub uhf_secure : Packet → W → SatReturn × Packet × W
  uhf_secure packet w = reply packet (hal.secure (packet.bytes in_data_byte) w)
