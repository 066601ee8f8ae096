-- ===== src/Housekeeping/App/Laws.antt =====
-- What the requests mean on the wire, and which packets the service forgets.
use ex2_services.Base.{ℕ, ◌+◌, ◌*◌, ◌/◌, ◌%◌, ◌^◌, ◌<◌, ◌≡◌, Option, List, ◌∷◌, arith}
use ex2_services.Csp.Bytes.{Endian, big, u16_bytes, slice, slice-status_u16}
use ex2_services.Csp.Convert.{cnv8_16}
use ex2_services.Csp.Network.{Network, IsBytes, ntoh16-cnv8_16, hton16_bytes}
use ex2_services.Csp.Packet.{Packet, satr_ok, subservice_byte, set_packet_length, write_status}
use ex2_services.Housekeeping.Timestamps.{done, ◌>>=◌}
use ex2_services.Housekeeping.State.{RedFs, Link, Sizes, Hk}
use ex2_services.Housekeeping.Operations.{set_max_files}
use ex2_services.Housekeeping.Fetch.{Converters}
use ex2_services.Housekeeping.App.{
  set_max_files_subservice, get_max_files_subservice, send_or_free, status_of, handle_set_max_files,
  max_files_answer, handle_get_max_files, hk_service_app, read_loop,
}

module _ {e : Endian} (net : Network e) (c : Converters) (z : Sizes) {W : Type 0} (fs : RedFs W)
    (link : Link W) where
  -- On a host of either byte order `SET_MAX_FILES` takes its argument lowest byte first, and
  -- `GET_MAX_FILES` answers highest byte first: the two bytes of an answer, sent back in a request,
  -- ask for the number of files with its bytes swapped.
  pub max_files_swapped :
      (malloc : Option (ℕ → ℕ)) (p q : Packet) (s t : Hk W)
      → IsBytes q.bytes
      → s.max_files < 2 ^ 16
      → p.bytes subservice_byte ≡ get_max_files_subservice
      → q.bytes subservice_byte ≡ set_max_files_subservice
      → slice 1 2 q.bytes ≡ slice 2 2 (max_files_answer net c z fs link p s).bytes
      → (hk_service_app net c z fs link malloc p s
          ≡ done (
            satr_ok,
            record s { world = send_or_free link (max_files_answer net c z fs link p s) s.world },
          ))
        × (slice 0 4 (max_files_answer net c z fs link p s).bytes
            ≡ get_max_files_subservice ∷ 0 ∷ u16_bytes big s.max_files)
        × (hk_service_app net c z fs link malloc q t ≡ (
            set_max_files e z fs (s.max_files / 256 + s.max_files % 256 * 256) malloc t >>= λ r.
            done (
              satr_ok,
              record (r.1) {
                world =
                    send_or_free link
                      (set_packet_length (write_status q (status_of r.0)) 2)
                      r.1.world;
              },
            )))
  unfolding hk_service_app handle_set_max_files handle_get_max_files max_files_answer
  max_files_swapped malloc p q s t bytes few get set same =
      let answered = slice-status_u16 e p.bytes 0 (net.hton16 s.max_files) in
      let swapped = ntoh16-cnv8_16 net q.bytes 1 bytes in
      let stored = hton16_bytes e net s.max_files few in
      let asked : net.ntoh16 (cnv8_16 e q.bytes 1) ≡ s.max_files / 256 + s.max_files % 256 * 256 =
        ground (arith, answered, swapped, stored, same) in
      (ground arith, ground (arith, answered, stored), ground (arith, asked))

  -- A packet of an unknown subservice is neither answered nor freed: the connection goes on as if
  -- it had not been read.
  pub unknown_forgotten :
      (malloc : Option (ℕ → ℕ)) (p : Packet) (rest : List (Packet × Option (ℕ → ℕ))) (s : Hk W)
      → 2 < p.bytes subservice_byte
      → read_loop net c z fs link ((p, malloc) ∷ rest) s ≡ read_loop net c z fs link rest s
  unfolding read_loop hk_service_app
  unknown_forgotten malloc p rest s unknown = ground arith
