-- ===== src/Updater/Laws.antt =====
-- What the updater does with the images.
use ex2_services.Base.{
  ℕ, ◌-◌, ◌*◌, ◌^◌, ◌≤◌, ◌<◌, ◌≡◌, ◌⊎◌, refl, inl, inr, arith, Bool-cases, [], ◌∷◌, leb, ltb, ◌==◌,
  if◌then◌else◌, Bool, false, List,
}
use ex2_services.Csp.Bytes.{Endian, Memory}
use ex2_services.Csp.Packet.{
  Packet, satr_ok, subservice_byte, minus_one, set_packet_length, write_status,
}
use ex2_services.Service.Task.{Accept, task}
use ex2_services.Service.Task.Laws.{released, received, released-task}
use ex2_services.Updater.{
  Board, attempts, attempt, get_buffer, program_block, with_buffer, only_status, send_info,
  set_info, verify, switch, finish, after_switch, updater_app,
}

-- The first of the sizes that fits.
first_fit : ℕ → List ℕ → ℕ
first_fit free [] = 0
first_fit free (size ∷ sizes) = if leb size free then size else first_fit free sizes

first_fit_lem :
    (free : ℕ)
    → let size = first_fit free attempts in
      ((size ≡ 0) × (free < 8)) ⊎ ((8 ≤ size) × (size ≤ free) × ((size ≡ 4096) ⊎ (free < 2 * size)))
unfolding first_fit
first_fit_lem free = ground arith

module _ {W : Type 0} (board : Board W) where
  attempt_lem :
      (free : ℕ) (sizes : List ℕ)
      → ((size : ℕ) (w : W) → board.malloc size w ≡ (leb size free, w))
      → (w : W) → attempt board sizes w ≡ (first_fit free sizes, w)
  unfolding attempt first_fit
  attempt_lem free [] heap w = refl
  attempt_lem free (size ∷ sizes) heap w = elim (Bool-cases (leb size free)) [
    | inl fits ↦ rw (heap size w, fits) refl
    | inr big ↦ rw (heap size w, big) (attempt_lem free sizes heap w)
  ]

  -- On a heap whose largest free block has `free` bytes, the buffer that `get_buffer` takes is the
  -- largest of its ten sizes that fits, each half of the one before; it gets none, and gives 0,
  -- only where not even eight bytes are free.
  pub get_buffer_largest :
      (free : ℕ)
      → ((size : ℕ) (w : W) → board.malloc size w ≡ (leb size free, w))
      → (w : W)
      → let (size, w') = get_buffer board w in
        (w' ≡ w)
        × (((size ≡ 0) × (free < 8))
            ⊎ ((8 ≤ size) × (size ≤ free) × ((size ≡ 4096) ⊎ (free < 2 * size))))
  unfolding get_buffer
  get_buffer_largest free heap w = rw (attempt_lem free attempts heap w) (refl, first_fit_lem free)

  -- In an image that is not the golden one the four requests that would change the application
  -- image or its description are answered with -1, and nothing is done but to open and close the
  -- EEPROM.
  pub only_golden_writes :
      (e : Endian) (p : Packet) (w : W)
      → let n = p.bytes subservice_byte in
        (n ≡ 0) ⊎ ((2 < n) × (n < 6))
        → updater_app board e false p w ≡ (
          satr_ok,
          write_status (set_packet_length p 2) minus_one,
          board.shutdown_eeprom (board.init_eeprom w).1,
        )
  unfolding updater_app after_switch switch finish only_status
  only_golden_writes e p w writes = ground arith

  -- Where the read of the image fails, `bytes_read` is -1, which as an unsigned number is not below
  -- the size of the buffer: the whole buffer, which the read did not fill, is programmed into the
  -- flash memory, and where that works the update is reported as done.
  pub failed_read_is_programmed :
      (fp addr size : ℕ) (buf : Memory) (w w₁ w₂ : W)
      → 0 < size
      → size ≤ 4096
      → board.read_image fp size w ≡ (2 ^ 32 - 1, buf, w₁)
      → board.block_program addr buf size w₁ ≡ (0, w₂)
      → with_buffer board fp addr (size, w) ≡ (0, w₂)
  unfolding with_buffer program_block
  failed_read_is_programmed fp addr size buf w w₁ w₂ some_bytes few failed programmed =
      let kept : ltb (2 ^ 32 - 1) size ≡ false = ground arith in
      let some' : (size == 0) ≡ false = ground arith in rw (some', failed, kept, programmed) refl

  module _ (e : Endian) (golden_image : Bool) where
    keeps_buffer : (p : Packet) (w : W) → (updater_app board e golden_image p w).1.buffer ≡ p.buffer
    unfolding updater_app after_switch switch finish only_status send_info set_info verify
    keeps_buffer p w = ground arith

    -- The task of the updater gives each packet that it reads back exactly once, in order.
    pub updater_releases :
        (top : ℕ) (inputs : List Accept) (w : W) (counter : ℕ)
        → released (task (updater_app board e golden_image) top inputs (w, counter)).0
          ≡ received inputs
    updater_releases = released-task (updater_app board e golden_image) keeps_buffer
