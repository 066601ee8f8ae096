-- ===== src/Logger.antt =====
-- Services/source/logger/logger_service.c: the log files, sent to the ground as text.
pub mod Laws
use ex2_services.Base.{
  ℕ, ◌+◌, ◌%◌, ◌^◌, ◌==◌, ◌&&◌, ltb, leb, if◌then◌else◌, Bool, true, false, Option, none, some,
  List, [], ◌∷◌, ◌++◌, length,
}
use ex2_services.Csp.Bytes.{Endian, Memory, put, slice, u32_bytes, u32_of}
use ex2_services.Csp.Packet.{
  Packet, SatReturn, satr_ok, satr_pkt_illegal_subservice, subservice_byte, in_data_byte,
  out_data_byte, set_packet_length, write, write_status,
}
use ex2_services.Housekeeping.Timestamps.{Run, done, null_pointer, out_of_bounds, ◌>>=◌}

-- The logger and the file system. A file name is its characters. A descriptor is `none` where
-- `red_open` gives -1. `read_file` gives what `red_read` returns as 32 bits, and the buffer;
-- `errno_text` is `red_errno` in decimal.
pub record LogHal (W : Type 0) : Type 0 where
  pub get_file_size : W → ℕ × ℕ × W
  pub set_file_size : ℕ → W → ℕ × W
  pub get_logger_file : W → List ℕ
  pub get_logger_old_file : W → List ℕ
  pub create_excl : List ℕ → W → Option ℕ × W
  pub is_eexist : W → Bool
  pub open_rdonly : List ℕ → W → Option ℕ × W
  pub read_file : ℕ → ℕ → Memory → W → ℕ × Memory × W
  pub close_file : ℕ → W → W
  pub unlink : List ℕ → W → W
  pub errno_text : W → List ℕ

abbrev pub max_string_length : ℕ
max_string_length = 500

-- The pieces of the three texts of `get_file`.
abbrev pub log_file_text : List ℕ
log_file_text = 76 ∷ 111 ∷ 103 ∷ 32 ∷ 102 ∷ 105 ∷ 108 ∷ 101 ∷ 32 ∷ []

abbrev pub is_empty_text : List ℕ
is_empty_text = 32 ∷ 105 ∷ 115 ∷ 32 ∷ 101 ∷ 109 ∷ 112 ∷ 116 ∷ 121 ∷ 10 ∷ []

abbrev pub cannot_open_text : List ℕ
cannot_open_text =
    67 ∷ 97 ∷ 110 ∷ 39 ∷ 116 ∷ 32 ∷ 111 ∷ 112 ∷ 101 ∷ 110 ∷ 32 ∷ 108 ∷ 111 ∷ 103 ∷ 32 ∷ 102 ∷ 105
    ∷ 108 ∷ 101 ∷ 46 ∷ 32 ∷ 114 ∷ 101 ∷ 100 ∷ 95 ∷ 101 ∷ 114 ∷ 114 ∷ 110 ∷ 111 ∷ 58 ∷ 32 ∷ []

abbrev pub newline_text : List ℕ
newline_text = 10 ∷ []

abbrev pub not_exist_text : List ℕ
not_exist_text =
    32 ∷ 100 ∷ 111 ∷ 101 ∷ 115 ∷ 32 ∷ 110 ∷ 111 ∷ 116 ∷ 32 ∷ 101 ∷ 120 ∷ 105 ∷ 115 ∷ 116 ∷ 10 ∷ []

-- sprintf into a block of `size` bytes: the number of characters, and the block.
unfoldable pub sprintf : ℕ → Memory → List ℕ → Run (ℕ × Memory)
sprintf size block text =
    if ltb size (length text + 1)
    then out_of_bounds
    else done (length text, put 0 (text ++ 0 ∷ []) block)

-- The loop that sets the bytes from `data_size` to the end of the block to 0.
unfoldable pub pad : ℕ → ℕ → Memory → Memory
pad data_size size block i = if leb data_size i && ltb i size then 0 else block i

module _ (e : Endian) {W : Type 0} (hal : LogHal W) where
  -- The assignment binds less than `==`: `file` is 1 where `red_open` failed, and else 0. That
  -- number is closed, and not the descriptor.
  unfoldable pub exists_after : List ℕ → Option ℕ × W → Bool × W
  exists_after filename (some fd, w) = (false, hal.unlink filename (hal.close_file 0 w))
  exists_after filename (none, w) =
      if hal.is_eexist w
      then (true, hal.close_file 1 w)
      else (false, hal.unlink filename (hal.close_file 1 w))

  -- `file_exists`; `true` stands for 0.
  unfoldable pub file_exists : List ℕ → W → Bool × W
  file_exists filename w = exists_after filename (hal.create_excl filename w)

  -- What is read from an open file, with the status.
  unfoldable pub read_log : List ℕ → ℕ → Memory → Option ℕ × W → Run (ℕ × (ℕ × Memory) × W)
  read_log filename size block (none, w) =
      sprintf size block (cannot_open_text ++ hal.errno_text w ++ newline_text) >>= λ r.
      done (255, r, w)
  read_log filename size block (some file, w) =
      let (data_size, read, w₁) = hal.read_file file size block w in
      if data_size == 0
      then (sprintf size read (log_file_text ++ filename ++ is_empty_text) >>= λ r.
          done (255, r, w₁))
      else done (0, (data_size, read), w₁)

  unfoldable pub log_data : List ℕ → ℕ → Memory → Bool × W → Run (ℕ × (ℕ × Memory) × W)
  log_data filename size block (true, w) = read_log filename size block (hal.open_rdonly filename w)
  log_data filename size block (false, w) =
      sprintf size block (log_file_text ++ filename ++ not_exist_text) >>= λ r. done (255, r, w)

  -- What follows the branches. The copy is of `max_string_length` bytes, whatever the size of the
  -- block.
  unfoldable pub send_text : ℕ → Packet → ℕ × (ℕ × Memory) × W → Run (Packet × W)
  send_text size packet (status, (data_size, block), w) =
      if ltb size max_string_length
      then out_of_bounds
      else (let text = slice 0 max_string_length (pad data_size size block) in
          let answer = write (write_status packet status) out_data_byte text in
          done (set_packet_length answer (max_string_length + 2), w))

  -- `get_file`, with the block that `pvPortMalloc` gives, if it gives one. Without one the loop or
  -- the copy goes through NULL.
  unfoldable pub get_file : List ℕ → Option Memory → Packet → W → Run (Packet × W)
  get_file filename none packet w = null_pointer
  get_file filename (some block) packet w =
      let (status, size, w₁) = hal.get_file_size w in
      log_data filename size block (file_exists filename w₁) >>= send_text size packet

  unfoldable pub ok : Run (Packet × W) → Run (SatReturn × Packet × W)
  ok r = r >>= λ x. done (satr_ok, x.0, x.1)

  -- The new size is taken in the order of the host.
  unfoldable pub handle_set_size : Packet → W → SatReturn × Packet × W
  handle_set_size packet w =
      let b = packet.bytes in
      let (status, w₁) = hal.set_file_size (u32_of e (b 1) (b 2) (b 3) (b 4)) w in
      (satr_ok, set_packet_length (write_status packet status) 2, w₁)

  unfoldable pub handle_get_size : Packet → W → SatReturn × Packet × W
  handle_get_size packet w =
      let (status, file_size, w₁) = hal.get_file_size w in
      let answer = write (write_status packet status) out_data_byte (u32_bytes e file_size) in
      (satr_ok, set_packet_length answer 6, w₁)

  unfoldable pub logger_service_app : Option Memory → Packet → W → Run (SatReturn × Packet × W)
  logger_service_app malloc packet w =
      let ser_subtype = packet.bytes subservice_byte in
      if ser_subtype == 0
      then ok (get_file (hal.get_logger_file w) malloc packet w)
      else if ser_subtype == 1
      then ok (get_file (hal.get_logger_old_file w) malloc packet w)
      else if ser_subtype == 2
      then done (handle_get_size packet w)
      else if ser_subtype == 3
      then done (handle_set_size packet w)
      else done (satr_pkt_illegal_subservice, packet, w)
