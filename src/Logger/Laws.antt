-- ===== src/Logger/Laws.antt =====
-- What a request for a log file gives.
use ex2_services.Base.{
  ℕ, ◌+◌, ◌<◌, ◌≤◌, ◌≡◌, inl, inr, refl, arith, ◌==◌, ltb, if◌then◌else◌, Bool-cases, Bool, true,
  false, Option, none, some, List, [], length, ◌∙◌,
}
use ex2_services.Csp.Bytes.{
  Endian, Memory, slice, put_get, put_head, put_outside, slice_at, length-slice,
}
use ex2_services.Csp.Packet.{
  Packet, satr_ok, subservice_byte, set_packet_length, write, write_status,
}
use ex2_services.Housekeeping.Timestamps.{Run, done, null_pointer, out_of_bounds, ◌>>=◌}
use ex2_services.Logger.{
  LogHal, sprintf, pad, file_exists, read_log, log_data, send_text, get_file, ok,
  logger_service_app,
}

pad_lem :
    (n size j : ℕ) (read : Memory)
    → j < size
    → pad n size read (0 + j) ≡ (if ltb j n then read j else 0)
unfolding pad
pad_lem n size j read h = ground arith

module _ (e : Endian) {W : Type 0} (hal : LogHal W) where
  -- Where there is no memory for the text, a request for either log file goes through NULL: the
  -- status that is meant to report it is never sent.
  pub no_memory_faults :
      (p : Packet) (w : W)
      → p.bytes subservice_byte < 2
      → logger_service_app e hal none p w ≡ null_pointer
  unfolding logger_service_app get_file ok
  no_memory_faults p w file = ground arith

  send_small :
      (size : ℕ) (p : Packet) (x : ℕ × (ℕ × Memory) × W)
      → size < 500
      → send_text e hal size p x ≡ out_of_bounds
  unfolding send_text
  send_small size p (status, (n, block), w) small = ground arith

  sprintf_log :
      {A : Type 0} (size : ℕ) (block : Memory) (text : List ℕ) (w : W)
      (k : ℕ × (ℕ × Memory) × W → Run A)
      → ((y : ℕ × (ℕ × Memory) × W) → k y ≡ out_of_bounds)
      → ((sprintf size block text >>= λ r. done (255, r, w)) >>= k) ≡ out_of_bounds
  unfolding sprintf
  sprintf_log size block text w k faults = elim (Bool-cases (ltb size (length text + 1))) [
    | inl over ↦ rw over refl
    | inr fits ↦ rw fits (faults _)
  ]

  read_log_small :
      {A : Type 0} (filename : List ℕ) (size : ℕ) (block : Memory) (x : Option ℕ × W)
      (k : ℕ × (ℕ × Memory) × W → Run A)
      → ((y : ℕ × (ℕ × Memory) × W) → k y ≡ out_of_bounds)
      → (read_log e hal filename size block x >>= k) ≡ out_of_bounds
  unfolding read_log
  read_log_small filename size block (none, w) k faults = sprintf_log size block _ w k faults
  read_log_small filename size block (some file, w) k faults =
      elim (Bool-cases ((hal.read_file file size block w).0 == 0)) [
        | inl empty ↦ rw empty (sprintf_log size _ _ _ k faults)
        | inr data' ↦ rw data' (faults _)
      ]

  log_data_small :
      {A : Type 0} (filename : List ℕ) (size : ℕ) (block : Memory) (x : Bool × W)
      (k : ℕ × (ℕ × Memory) × W → Run A)
      → ((y : ℕ × (ℕ × Memory) × W) → k y ≡ out_of_bounds)
      → (log_data e hal filename size block x >>= k) ≡ out_of_bounds
  unfolding log_data
  log_data_small filename size block (true, w) k faults =
      read_log_small filename size block (hal.open_rdonly filename w) k faults
  log_data_small filename size block (false, w) k faults = sprintf_log size block _ w k faults

  get_file_small :
      (filename : List ℕ) (block : Memory) (p : Packet) (w : W)
      → (hal.get_file_size w).1 < 500
      → get_file e hal filename (some block) p w ≡ out_of_bounds
  unfolding get_file
  get_file_small filename block p w small =
      log_data_small filename _ block _ _ (λ y. send_small _ p y small)

  -- Where the size of the log files is set below 500 bytes, a request for either of them reads or
  -- writes outside the block of that size, whatever the file system does.
  pub small_size_faults :
      (block : Memory) (p : Packet) (w : W)
      → p.bytes subservice_byte < 2
      → (hal.get_file_size w).1 < 500
      → logger_service_app e hal (some block) p w ≡ out_of_bounds
  unfolding logger_service_app ok
  small_size_faults block p w file small =
      let current = get_file_small (hal.get_logger_file w) block p w small in
      let old = get_file_small (hal.get_logger_old_file w) block p w small in
      ground (arith, current, old)

  sent_text :
      (size n : ℕ) (p : Packet) (read : Memory) (w : W)
      → 500 ≤ size
      → (answer : Packet) × (send_text e hal size p (0, (n, read), w) ≡ done (answer, w))
        × (answer.length ≡ 502)
        × (answer.bytes 1 ≡ 0)
        × ((j : ℕ) → j < 500 → answer.bytes (2 + j) ≡ (if ltb j n then read j else 0))
  unfolding send_text
  sent_text size n p read w large =
      let sized : ltb size 500 ≡ false = ground arith in
      let text : List ℕ = slice 0 500 (pad n size read) in
      let long : length text ≡ 500 = length-slice 0 500 (pad n size read) in
      let headed = write_status p 0 in
      (
        set_packet_length (write headed 2 text) 502,
        rw sized refl,
        refl,
        put_outside 2 text headed.bytes 1 (inl (omega arith)) ∙ put_head 1 0 [] p.bytes,
        λ j h.
            put_get 2 text headed.bytes j (rw long h)
            ∙ slice_at 0 500 j (pad n size read) h
            ∙ pad_lem n size j read (omega arith),
      )

  -- Where the size is 500 bytes or more, the log file exists and can be opened, and the read of it
  -- does not report 0, a request for it is answered with status 0 and 500 bytes: what the read left
  -- in the block as far as it reports, and zeros behind that.
  pub log_text :
      (block read : Memory) (p : Packet) (w w₁ w₂ w₃ w₄ : W) (status size n fd : ℕ)
      → p.bytes subservice_byte ≡ 0
      → hal.get_file_size w ≡ (status, size, w₁)
      → 500 ≤ size
      → file_exists e hal (hal.get_logger_file w) w₁ ≡ (true, w₂)
      → hal.open_rdonly (hal.get_logger_file w) w₂ ≡ (some fd, w₃)
      → hal.read_file fd size block w₃ ≡ (n, read, w₄)
      → 0 < n
      → (answer : Packet) × (logger_service_app e hal (some block) p w ≡ done (satr_ok, answer, w₄))
        × (answer.length ≡ 502)
        × (answer.bytes 1 ≡ 0)
        × ((j : ℕ) → j < 500 → answer.bytes (2 + j) ≡ (if ltb j n then read j else 0))
  unfolding logger_service_app get_file ok log_data read_log
  log_text block read p w w₁ w₂ w₃ w₄ status size n fd zero' sized large there opened got some' =
      let nonzero : (n == 0) ≡ false = ground arith in
      let (answer, sent, long, good, text) = sent_text size n p read w₄ large in
      (answer, rw (zero', sized, there, opened, got, nonzero, sent) refl, long, good, text)
