-- ===== src/Adcs/Settings.antt =====
-- The cases of `adcs_service_app` for memory scrubbing, the hole map and the clock.
use ex2_services.Base.{ℕ, ◌+◌, List, [], ◌∷◌}
use ex2_services.Csp.Bytes.{Endian, u16_bytes}
use ex2_services.Csp.Convert.{cnv8_16}
use ex2_services.Csp.Network.{Network}
use ex2_services.Csp.Packet.{
  Packet, SatReturn, satr_ok, in_data_byte, out_data_byte, set_packet_length, write, write_status,
}
use ex2_services.Communication.Answer.{Reads, reply, reply_data}
use ex2_services.Adcs.Answer.{
  FieldType, in_network, in_u16, in_u32, c_bool, uint16, Updates, reply_if_ok,
}

-- The structs that the service converts, at the values of their fields, or at the types of these.
pub record UnixtimeSaveConfig (A : Type 0) : Type 0 where
  pub when : A
  pub period : A

pub record AdcsUnixT (A : Type 0) : Type 0 where
  pub unix_t : A
  pub count_ms : A

-- The calls of the driver; a `_bytes` is the layout of a struct, a `_size` its `sizeof`. `satr_ok_number` is the enumerator `SATR_OK`.
pub record SettingsHal (W : Type 0) : Type 0 where
  pub satr_ok_number : ℕ
  pub set_cache_en_state : (en_state : ℕ) → W → ℕ × W
  pub set_sram_scrub_size : (size : ℕ) → W → ℕ × W
  pub set_unixtime_save_config : (when period : ℕ) → W → ℕ × W
  pub set_hole_map : ℕ → Updates W ℕ
  pub set_unix_t : (unix_t count_ms : ℕ) → W → ℕ × W
  pub get_cache_en_state : Updates W ℕ
  pub get_sram_scrub_size : Reads W ℕ
  pub get_unixtime_save_config : Reads W (UnixtimeSaveConfig ℕ)
  pub unixtime_save_config_types : UnixtimeSaveConfig FieldType
  pub unixtime_save_config_bytes : UnixtimeSaveConfig ℕ → List ℕ
  pub get_hole_map : ℕ → Reads W ℕ
  pub get_unix_t : Reads W (AdcsUnixT ℕ)
  pub adcs_unix_t_types : AdcsUnixT FieldType
  pub adcs_unix_t_bytes : AdcsUnixT ℕ → List ℕ

module _ {e : Endian} (net : Network e) {W : Type 0} (hal : SettingsHal W) (data_size : ℕ) where
  unfoldable pub adcs_set_cache_en_state : Packet → W → SatReturn × Packet × W
  adcs_set_cache_en_state packet w =
      reply packet (hal.set_cache_en_state (c_bool.of_u32 (packet.bytes in_data_byte)) w)

  unfoldable pub adcs_set_sram_scrub_size : Packet → W → SatReturn × Packet × W
  adcs_set_sram_scrub_size packet w =
      reply packet (hal.set_sram_scrub_size (cnv8_16 e packet.bytes in_data_byte) w)

  unfoldable pub adcs_set_unixtime_save_config : Packet → W → SatReturn × Packet × W
  adcs_set_unixtime_save_config packet w =
      reply packet (
        hal.set_unixtime_save_config (packet.bytes in_data_byte) (packet.bytes (in_data_byte + 1))
          w)

  -- The answer's data is written, and its length leaves it out.
  unfoldable pub adcs_set_hole_map : Packet → W → SatReturn × Packet × W
  adcs_set_hole_map packet w =
      let num : ℕ = packet.bytes (in_data_byte + 1) in
      let (status, hole_map, w₁) = hal.set_hole_map num (packet.bytes in_data_byte) w in
      let answer = write (write_status packet status) out_data_byte (hole_map ∷ []) in
      (satr_ok, set_packet_length answer 2, w₁)

  unfoldable pub adcs_set_unix_t : Packet → W → SatReturn × Packet × W
  adcs_set_unix_t packet w =
      reply packet (hal.set_unix_t (in_u32 net packet 0) (in_u16 net packet 4) w)

  unfoldable pub adcs_get_cache_en_state : Packet → W → SatReturn × Packet × W
  adcs_get_cache_en_state packet w =
      let (status, en_state, w₁) = hal.get_cache_en_state 0 w in
      reply_if_ok hal.satr_ok_number data_size packet status (in_network net c_bool en_state ∷ [])
        w₁

  unfoldable pub adcs_get_sram_scrub_size : Packet → W → SatReturn × Packet × W
  adcs_get_sram_scrub_size packet w =
      let (status, size, w₁) = hal.get_sram_scrub_size w in
      reply_if_ok hal.satr_ok_number data_size packet status
        (u16_bytes e (in_network net uint16 size)) w₁

  unfoldable pub adcs_get_unixtime_save_config : Packet → W → SatReturn × Packet × W
  adcs_get_unixtime_save_config packet w =
      let (status, x, w₁) = hal.get_unixtime_save_config w in
      let t = hal.unixtime_save_config_types in
      let converted : UnixtimeSaveConfig ℕ = record {
        when = in_network net t.when x.when;
        period = in_network net t.period x.period;
      } in
      reply_data data_size packet status (hal.unixtime_save_config_bytes converted) w₁

  unfoldable pub adcs_get_hole_map : Packet → W → SatReturn × Packet × W
  adcs_get_hole_map packet w =
      let (status, hole_map, w₁) = hal.get_hole_map (packet.bytes in_data_byte) w in
      reply_data data_size packet status (hole_map ∷ []) w₁

  unfoldable pub adcs_get_unix_t : Packet → W → SatReturn × Packet × W
  adcs_get_unix_t packet w =
      let (status, x, w₁) = hal.get_unix_t w in
      let t = hal.adcs_unix_t_types in
      let converted : AdcsUnixT ℕ = record {
        unix_t = in_network net t.unix_t x.unix_t;
        count_ms = in_network net t.count_ms x.count_ms;
      } in
      reply_data data_size packet status (hal.adcs_unix_t_bytes converted) w₁
