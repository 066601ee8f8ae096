-- ===== src/Housekeeping/App.antt =====
-- `hk_service_app`: the requests of the ground to the housekeeping service.
pub mod Laws
use ex2_services.Base.{
  ℕ, ◌+◌, ◌%◌, ◌^◌, Bool, true, false, Option, List, [], ◌∷◌, ◌==◌, if◌then◌else◌,
}
use ex2_services.Csp.Bytes.{Endian, u16_bytes, u16_of, u32_of}
use ex2_services.Csp.Convert.{cnv8_16}
use ex2_services.Csp.Network.{Network}
use ex2_services.Csp.Packet.{
  Packet, SatReturn, satr_ok, satr_error, satr_pkt_illegal_subservice, subservice_byte,
  in_data_byte, out_data_byte, minus_one, set_packet_length, write, write_status,
}
use ex2_services.Housekeeping.Timestamps.{Result, success, failure, Run, done, ◌>>=◌}
use ex2_services.Housekeeping.State.{RedFs, Link, Sizes, Hk}
use ex2_services.Housekeeping.Operations.{set_max_files}
use ex2_services.Housekeeping.Fetch.{Converters, get_hk, fetch_historic_hk_and_transmit}

abbrev pub set_max_files_subservice : ℕ
set_max_files_subservice = 1

abbrev pub get_max_files_subservice : ℕ
get_max_files_subservice = 2

module _ {W : Type 0} (link : Link W) where
  -- `if (!csp_send(conn, packet, 50)) csp_buffer_free(packet);`
  unfoldable pub send_or_free : Packet → W → W
  send_or_free packet w =
      let (sent, w') = link.send packet w in if sent then w' else link.buffer_free packet.buffer w'

abbrev pub status_of : Result → ℕ
status_of success = 0
status_of failure = minus_one

abbrev pub return_of : Result → SatReturn
return_of success = satr_ok
return_of failure = satr_error

module _ {e : Endian} (net : Network e) (c : Converters) (z : Sizes) {W : Type 0} (fs : RedFs W)
    (link : Link W) where
  -- `case SET_MAX_FILES`
  unfoldable pub handle_set_max_files : Option (ℕ → ℕ) → Packet → Hk W → Run (SatReturn × Hk W)
  handle_set_max_files malloc packet s =
      let new_max_files = net.ntoh16 (cnv8_16 e packet.bytes in_data_byte) in
      set_max_files e z fs new_max_files malloc s >>= λ r.
      let answer = set_packet_length (write_status packet (status_of r.0)) 2 in
      done (satr_ok, record (r.1) { world = send_or_free link answer r.1.world })

  -- The answer of `case GET_MAX_FILES`.
  unfoldable pub max_files_answer : Packet → Hk W → Packet
  max_files_answer packet s =
      set_packet_length
        (write (write_status packet 0) out_data_byte (u16_bytes e (net.hton16 s.max_files))) 4

  -- `case GET_MAX_FILES`
  unfoldable pub handle_get_max_files : Packet → Hk W → Run (SatReturn × Hk W)
  handle_get_max_files packet s =
      done (satr_ok, record s { world = send_or_free link (max_files_answer packet s) s.world })

  -- `case GET_HK`: the arguments lie in the packet in the order of the host.
  unfoldable pub handle_get_hk : Packet → Hk W → Run (SatReturn × Hk W)
  handle_get_hk packet s =
      let b = packet.bytes in
      let limit = u16_of e (b 1) (b 2) in
      let before_id = u16_of e (b 3) (b 4) in
      let before_time = u32_of e (b 5) (b 6) (b 7) (b 8) in
      let freed = record s { world = link.buffer_free packet.buffer s.world } in
      fetch_historic_hk_and_transmit net c z fs link limit before_id before_time freed >>= λ r.
      done (return_of r.0, r.1)

  unfoldable pub hk_service_app : Option (ℕ → ℕ) → Packet → Hk W → Run (SatReturn × Hk W)
  hk_service_app malloc packet s =
      let ser_subtype = packet.bytes subservice_byte in
      if ser_subtype == set_max_files_subservice
      then handle_set_max_files malloc packet s
      else if ser_subtype == get_max_files_subservice
      then handle_get_max_files packet s
      else if ser_subtype == get_hk
      then handle_get_hk packet s
      else done (satr_pkt_illegal_subservice, s)

  -- The packets of one connection of `housekeeping_service`, with what `pvPortMalloc` gives to
  -- each; what the application reports is only logged.
  unfoldable pub read_loop : List (Packet × Option (ℕ → ℕ)) → Hk W → Run (Hk W)
  read_loop [] s = done s
  read_loop ((packet, malloc) ∷ rest) s = hk_service_app malloc packet s >>= λ r. read_loop rest r.1
