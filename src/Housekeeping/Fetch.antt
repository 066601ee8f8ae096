-- ===== src/Housekeeping/Fetch.antt =====
-- `convert_hk_endianness` and `fetch_historic_hk_and_transmit`: files are read back from a given one
-- on, sent one to a packet.
pub mod Ids
pub mod Loop
pub mod Sent
use ex2_services.Base.{
  ℕ, zero, suc, ◌+◌, ◌-◌, ◌%◌, ◌^◌, Bool, true, false, ◌||◌, Option, none, some, List, [], ◌∷◌,
  ◌++◌, replicate, ltb, ◌==◌, if◌then◌else◌,
}
use ex2_services.Csp.Bytes.{Endian}
use ex2_services.Csp.Network.{Network}
use ex2_services.Csp.Packet.{
  Packet, subservice_byte, status_byte, out_data_byte, set_packet_length, write, write_status,
}
use ex2_services.Housekeeping.Timestamps.{
  Result, success, failure, Run, done, null_pointer, ◌>>=◌, Timestamps,
}
use ex2_services.Housekeeping.Search.{get_file_id_from_timestamp}
use ex2_services.Housekeeping.State.{
  RedFs, Link, AllSystemsHousekeeping, Sizes, Hk, timeorder_size, timeorder_bytes,
}
use ex2_services.Housekeeping.Storage.{get_size_of_housekeeping, load_historic_hk_data}

abbrev pub get_hk : ℕ
get_hk = 0

-- The converters of the drivers that `convert_hk_endianness` calls.
pub record Converters : Type 0 where
  pub athena_convert : List ℕ → List ℕ
  pub eps_convert : List ℕ → List ℕ
  pub uhf_convert : List ℕ → List ℕ
  pub s_band_convert : List ℕ → List ℕ

unfoldable pub convert_hk_endianness :
    {e : Endian} → Network e → Converters → AllSystemsHousekeeping → AllSystemsHousekeeping
convert_hk_endianness net c hk = record hk {
  unix_timestamp = net.hton32 hk.unix_timestamp;
  data_position = net.hton16 hk.data_position;
  athena_hk = c.athena_convert hk.athena_hk;
  eps_hk = c.eps_convert hk.eps_hk;
  uhf_hk = c.uhf_convert hk.uhf_hk;
  s_band_hk = c.s_band_convert hk.s_band_hk;
}

-- The structs of a packet in the order of the copies, with their sizes. Neither the start-up
-- telemetry nor the DFGM's data are among them.
abbrev pub parts : Endian → Sizes → AllSystemsHousekeeping → List (List ℕ × ℕ)
parts e z d =
    (timeorder_bytes e d, timeorder_size)
    ∷ (d.adcs_hk, z.adcs)
    ∷ (d.athena_hk, z.athena)
    ∷ (d.eps_hk, z.eps)
    ∷ (d.uhf_hk, z.uhf)
    ∷ (d.s_band_hk, z.s_band)
    ∷ (d.hyperion_hk, z.hyperion)
    ∷ (d.charon_hk, z.charon)
    ∷ []

-- `memcpy(&packet->data[OUT_DATA_BYTE + used_size], ...); used_size += sizeof(...)`, and then the
-- length of the packet; `used_size` is a uint16_t.
unfoldable pub copy_parts : Packet → ℕ → List (List ℕ × ℕ) → Packet
copy_parts packet used_size [] = set_packet_length packet (used_size + 2)
copy_parts packet used_size ((bytes, size) ∷ rest) =
    copy_parts (write packet (out_data_byte + used_size) bytes) ((used_size + size) % 2 ^ 16) rest

-- `locked_before_id--; if (locked_before_id == 0) locked_before_id = locked_max;` of uint16_t.
unfoldable pub previous : ℕ → ℕ → ℕ
previous locked_max id = let id' = (id + 65535) % 2 ^ 16 in if id' == 0 then locked_max else id'

module _ {e : Endian} (net : Network e) (c : Converters) (z : Sizes) {W : Type 0} (fs : RedFs W)
    (link : Link W) where
  -- The answer of one file, in a fresh packet.
  unfoldable pub fill_packet : AllSystemsHousekeeping → Packet → Packet
  unfolding copy_parts
  fill_packet d packet =
      copy_parts (write_status (write packet subservice_byte (get_hk ∷ [])) 0) 0 (parts e z d)

  -- What becomes of the packet that `csp_buffer_get` gave; NULL is not tested for.
  unfoldable pub send_packet : AllSystemsHousekeeping → Option Packet × W → Run (Result × W)
  unfolding fill_packet
  send_packet d (none, w) = null_pointer
  send_packet d (some packet, w) =
      let filled = fill_packet d packet in
      let (sent, w') = link.send filled w in
      done (if sent then (success, w') else (failure, link.buffer_free filled.buffer w'))

  -- The rest of the loop's body behind a load that succeeded. `more` says that `limit > 1`.
  unfoldable pub transmit :
      Bool → Result × AllSystemsHousekeeping × W → Run (Result × AllSystemsHousekeeping × W)
  unfolding send_packet convert_hk_endianness
  transmit more (failure, d, w) = done (failure, d, w)
  transmit more (success, d, w) =
      let converted = convert_hk_endianness net c d in
      let d' = if more then record converted { final = 1 } else converted in
      let needed_size : ℕ = (get_size_of_housekeeping z + 2) % 2 ^ 16 in
      send_packet d' (link.buffer_get needed_size w) >>= λ r. done (r.0, d', r.1)

  -- The body of the loop for file `id`.
  unfoldable pub send_file :
      Bool → ℕ → AllSystemsHousekeeping → W → Run (Result × AllSystemsHousekeeping × W)
  unfolding transmit
  send_file more id d w = transmit more (load_historic_hk_data e z fs id d w)

  -- `return FAILURE`, or the next round.
  abbrev pub and_then :
      (AllSystemsHousekeeping → W → Run (Result × W))
      → Result × AllSystemsHousekeeping × W
      → Run (Result × W)
  and_then next (failure, d, w) = done (failure, w)
  and_then next (success, d, w) = next d w

  -- `while (limit > 0)`
  unfoldable pub fetch_loop : ℕ → ℕ → ℕ → AllSystemsHousekeeping → W → Run (Result × W)
  unfolding previous
  fetch_loop locked_max zero id d w = done (success, w)
  fetch_loop locked_max (suc limit) id d w =
      let id' = previous locked_max id in
      send_file (ltb 0 limit) id' d w >>= and_then (fetch_loop locked_max limit id')

  -- `All_systems_housekeeping all_hk_data = {0}`
  abbrev pub all_zero : AllSystemsHousekeeping
  all_zero = record {
    final = 0;
    unix_timestamp = 0;
    data_position = 0;
    adcs_hk = replicate z.adcs 0;
    athena_hk = replicate z.athena 0;
    eps_hk = replicate z.eps 0;
    eps_startup_hk = replicate z.eps_startup 0;
    uhf_hk = replicate z.uhf 0;
    s_band_hk = replicate z.s_band 0;
    hyperion_hk = replicate z.hyperion 0;
    charon_hk = replicate z.charon 0;
    dfgm_hk = replicate z.dfgm 0;
  }

  -- The file from which to go back: the one that the timestamp names, where one is given, else
  -- `before_id`; the current file for a number that is no file's.
  unfoldable pub start_id : Hk W → ℕ → ℕ → Run ℕ
  start_id s before_id before_time =
      (if before_time == 0
        then done before_id
        else get_file_id_from_timestamp s.array s.current_file before_time)
      >>= λ id. done (if id == 0 || ltb s.max_files id then s.current_file else id)

  -- The lock is held for the start only; nothing else of the service runs in between in the model.
  unfoldable pub fetch_historic_hk_and_transmit : ℕ → ℕ → ℕ → Hk W → Run (Result × Hk W)
  unfolding start_id
  fetch_historic_hk_and_transmit limit before_id before_time s =
      start_id s before_id before_time >>= λ id.
      let rounds = if ltb s.max_files limit then s.max_files else limit in
      fetch_loop s.max_files rounds id all_zero s.world >>= λ r.
      done (r.0, record s { locked = false; world = r.1 })
