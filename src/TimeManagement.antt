-- ===== src/TimeManagement.antt =====
-- Services/source/time_management/time_management_service.c: the clock of the satellite, read and
-- set from the ground, and disciplined by the GPS.
pub mod Laws
pub mod Discipline
use ex2_services.Base.{ℕ, Bool, ◌&&◌, not, ltb, ◌==◌, if◌then◌else◌}
use ex2_services.Csp.Bytes.{Endian, u32_bytes}
use ex2_services.Csp.Packet.{
  Packet, SatReturn, satr_ok, satr_pkt_illegal_subservice, subservice_byte, in_data_byte,
  out_data_byte, minus_one, set_packet_length, write, write_status,
}
use ex2_services.Csp.Convert.{cnv8_32}
use ex2_services.Csp.Network.{Network}

-- `RTCMK_SetUnix` and `RTCMK_GetUnix` of the clock driver, over its state. Each returns a status;
-- the latter leaves the time in its argument.
pub record Rtc (W : Type 0) : Type 0 where
  pub set_unix : ℕ → W → ℕ × W
  pub get_unix : W → ℕ × ℕ

abbrev pub get_time : ℕ
get_time = 10

abbrev pub set_time : ℕ
set_time = 11

abbrev pub min_year : ℕ
min_year = 1_577_836_800

abbrev pub max_year : ℕ
max_year = 1_893_456_000

unfoldable pub timestamp_isok : ℕ → Bool
timestamp_isok x = ltb min_year x && ltb x max_year

module _ {e : Endian} (net : Network e) {W : Type 0} (rtc : Rtc W) where
  -- The guard of `SET_TIME`, and the status that it leaves.
  set_clock : ℕ → W → ℕ × W
  unfolding timestamp_isok
  set_clock t w = if not (timestamp_isok t) then (minus_one, w) else rtc.set_unix t w

  -- `case SET_TIME`
  unfoldable pub handle_set_time : Packet → W → SatReturn × Packet × W
  unfolding set_clock
  handle_set_time packet w =
      let temp_time = net.ntoh32 (cnv8_32 e packet.bytes in_data_byte) in
      let (status, w') = set_clock temp_time w in
      (satr_ok, set_packet_length (write_status packet status) 2, w')

  -- `case GET_TIME`
  unfoldable pub handle_get_time : Packet → W → SatReturn × Packet × W
  handle_get_time packet w =
      let (status, temp_time) = rtc.get_unix w in
      let answer =
        write (write_status packet status) out_data_byte (u32_bytes e (net.hton32 temp_time)) in
      (satr_ok, set_packet_length answer 6, w)

  unfoldable pub time_management_app : Packet → W → SatReturn × Packet × W
  unfolding handle_set_time handle_get_time
  time_management_app packet w =
      let ser_subtype = packet.bytes subservice_byte in
      if ser_subtype == set_time
      then handle_set_time packet w
      else if ser_subtype == get_time
      then handle_get_time packet w
      else (satr_pkt_illegal_subservice, packet, w)
