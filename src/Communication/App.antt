-- ===== src/Communication/App.antt =====
-- `communication_service_app`: the subservices of both radios.
use ex2_services.Base.{ℕ, ◌==◌, if◌then◌else◌}
use ex2_services.Csp.Bytes.{Endian, Memory}
use ex2_services.Csp.Network.{Network}
use ex2_services.Csp.Packet.{Packet, SatReturn, satr_pkt_illegal_subservice, subservice_byte}
use ex2_services.Housekeeping.Timestamps.{Run, done, ◌>>=◌}
use ex2_services.Communication.Answer.{within}
use ex2_services.Communication.Answer.{Floats}
use ex2_services.Communication.Sband.{
  SbandHal, s_get_freq, s_get_control, s_get_encoder, s_get_pa_power, s_get_config, s_get_status,
  s_get_fw, s_get_tr, s_get_hk, s_get_buffer, s_soft_reset, s_get_full_status, s_set_freq,
  s_set_pa_power, s_set_control, s_set_encoder, s_set_config,
}
use ex2_services.Communication.Uhf.{UhfHal}
use ex2_services.Communication.Uhf.Set.{
  uhf_set_scw, uhf_set_bit, uhf_set_freq, uhf_set_pipe_timeout, uhf_set_beacon_t, uhf_set_audio_t,
  uhf_set_params, uhf_restore_default, uhf_low_pwr, uhf_set_dest, uhf_set_src, uhf_set_morse,
  uhf_set_midi, uhf_set_beacon_msg, uhf_set_i2c, uhf_write_fram, uhf_secure,
}
use ex2_services.Communication.Uhf.Get.{
  uhf_get_full_stat, uhf_get_call_sign, uhf_get_morse, uhf_get_midi, uhf_get_beacon_msg,
  uhf_get_fram, uhf_get_secure_key,
}

-- `Sband_Subtype`, `UHF_Subtype`, and a number that is neither.
pub data Subtype : Type 0 where
  get_freq get_control get_encoder get_pa_power get_status get_fw get_tr get_buffer get_hk : Subtype
  soft_reset get_full_status set_freq set_control set_encoder set_pa_power get_config : Subtype
  set_config : Subtype
  set_scw set_uhf_freq set_pipe_timeout set_beacon_t set_audio_t set_params : Subtype
  restore_default low_pwr set_dest set_src set_morse set_midi set_beacon_msg set_i2c : Subtype
  write_fram secure get_full_stat get_call_sign get_morse get_midi get_beacon_msg : Subtype
  get_fram set_echo set_bcn set_pipe get_secure_key unknown : Subtype

-- The numbers of Services/include/communication/communication_service.h for the S-band; the 0 of
-- `S_GET_TEMP` has no case.
unfoldable pub sband_subtype : ℕ → Subtype
sband_subtype n =
    if n == 1
    then get_freq
    else if n == 2
    then get_control
    else if n == 3
    then get_encoder
    else if n == 4
    then get_pa_power
    else if n == 5
    then get_status
    else if n == 6
    then get_fw
    else if n == 7
    then get_tr
    else if n == 8
    then get_buffer
    else if n == 9
    then get_hk
    else if n == 10
    then soft_reset
    else if n == 11
    then get_full_status
    else if n == 12
    then set_freq
    else if n == 13
    then set_control
    else if n == 14
    then set_encoder
    else if n == 15
    then set_pa_power
    else if n == 16
    then get_config
    else if n == 17
    then set_config
    else unknown

unfoldable pub subtype : ℕ → Subtype
unfolding sband_subtype
subtype n =
    if n == 20
    then set_scw
    else if n == 21
    then set_uhf_freq
    else if n == 22
    then set_pipe_timeout
    else if n == 23
    then set_beacon_t
    else if n == 24
    then set_audio_t
    else if n == 25
    then set_params
    else if n == 26
    then restore_default
    else if n == 27
    then low_pwr
    else if n == 28
    then set_dest
    else if n == 29
    then set_src
    else if n == 30
    then set_morse
    else if n == 31
    then set_midi
    else if n == 32
    then set_beacon_msg
    else if n == 33
    then set_i2c
    else if n == 34
    then write_fram
    else if n == 35
    then secure
    else if n == 36
    then get_full_stat
    else if n == 37
    then get_call_sign
    else if n == 38
    then get_morse
    else if n == 39
    then get_midi
    else if n == 40
    then get_beacon_msg
    else if n == 41
    then get_fram
    else if n == 42
    then set_echo
    else if n == 43
    then set_bcn
    else if n == 44
    then set_pipe
    else if n == 45
    then get_secure_key
    else sband_subtype n

module _ {e : Endian} (net : Network e) (fl : Floats) {W : Type 0} (sband : SbandHal W)
    (uhf : UhfHal W) (data_size : ℕ) (stack : Memory) where
  -- The cases of the switch.
  unfoldable pub handle : Subtype → Packet → W → Run (SatReturn × Packet × W)
  unfolding within
  handle get_freq p w = within data_size (s_get_freq net fl sband data_size p w)
  handle get_control p w = within data_size (s_get_control net fl sband data_size p w)
  handle get_encoder p w = within data_size (s_get_encoder net fl sband data_size p w)
  handle get_pa_power p w = within data_size (s_get_pa_power net fl sband data_size p w)
  handle get_status p w = within data_size (s_get_status net fl sband data_size p w)
  handle get_fw p w = within data_size (s_get_fw net fl sband data_size p w)
  handle get_tr p w = within data_size (s_get_tr net fl sband data_size p w)
  handle get_buffer p w = within data_size (s_get_buffer net fl sband data_size stack p w)
  handle get_hk p w = within data_size (s_get_hk net fl sband data_size p w)
  handle soft_reset p w = done (s_soft_reset net fl sband data_size p w)
  handle get_full_status p w = within data_size (s_get_full_status net fl sband data_size stack p w)
  handle set_freq p w = done (s_set_freq net fl sband data_size p w)
  handle set_control p w = done (s_set_control net fl sband data_size p w)
  handle set_encoder p w = done (s_set_encoder net fl sband data_size p w)
  handle set_pa_power p w = done (s_set_pa_power net fl sband data_size p w)
  handle get_config p w = within data_size (s_get_config net fl sband data_size p w)
  handle set_config p w = done (s_set_config net fl sband data_size p w)
  handle set_scw p w = done (uhf_set_scw net fl uhf data_size stack p w)
  handle set_uhf_freq p w = done (uhf_set_freq net fl uhf data_size stack p w)
  handle set_pipe_timeout p w = done (uhf_set_pipe_timeout net fl uhf data_size stack p w)
  handle set_beacon_t p w = done (uhf_set_beacon_t net fl uhf data_size stack p w)
  handle set_audio_t p w = done (uhf_set_audio_t net fl uhf data_size stack p w)
  handle set_params p w = done (uhf_set_params net fl uhf data_size stack p w)
  handle restore_default p w = done (uhf_restore_default net fl uhf data_size stack p w)
  handle low_pwr p w = done (uhf_low_pwr net fl uhf data_size stack p w)
  handle set_dest p w = done (uhf_set_dest net fl uhf data_size stack p w)
  handle set_src p w = done (uhf_set_src net fl uhf data_size stack p w)
  handle set_morse p w = done (uhf_set_morse net fl uhf data_size stack p w)
  handle set_midi p w = done (uhf_set_midi net fl uhf data_size stack p w)
  handle set_beacon_msg p w = done (uhf_set_beacon_msg net fl uhf data_size stack p w)
  handle set_i2c p w = done (uhf_set_i2c net fl uhf data_size stack p w)
  handle write_fram p w = done (uhf_write_fram net fl uhf data_size stack p w)
  handle secure p w = done (uhf_secure net fl uhf data_size stack p w)
  handle get_full_stat p w = within data_size (uhf_get_full_stat net fl uhf data_size stack p w)
  handle get_call_sign p w = within data_size (uhf_get_call_sign net fl uhf data_size stack p w)
  handle get_morse p w = uhf_get_morse net fl uhf data_size stack p w >>= within data_size
  handle get_midi p w = uhf_get_midi net fl uhf data_size stack p w >>= within data_size
  handle get_beacon_msg p w = uhf_get_beacon_msg net fl uhf data_size stack p w >>= within data_size
  handle get_fram p w = within data_size (uhf_get_fram net fl uhf data_size stack p w)
  handle set_echo p w = done (uhf_set_bit net fl uhf data_size stack 0 p w)
  handle set_bcn p w = done (uhf_set_bit net fl uhf data_size stack 1 p w)
  handle set_pipe p w = done (uhf_set_bit net fl uhf data_size stack 2 p w)
  handle get_secure_key p w = within data_size (uhf_get_secure_key net fl uhf data_size stack p w)
  handle unknown p w = done (satr_pkt_illegal_subservice, p, w)

  unfoldable pub communication_service_app : Packet → W → Run (SatReturn × Packet × W)
  unfolding handle
  communication_service_app packet w = handle (subtype (packet.bytes subservice_byte)) packet w
