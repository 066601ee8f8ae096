-- ===== src/Updater.antt =====
-- Services/source/updater/updater.c: the images in the flash memory and their description in the
-- EEPROM.
pub mod Laws
use ex2_services.Base.{
  ℕ, ◌+◌, ◌*◌, ◌%◌, ◌^◌, ◌==◌, ltb, if◌then◌else◌, Bool, true, false, not, Option, none, some, List,
  [], ◌∷◌, length,
}
use ex2_services.Csp.Bytes.{Endian, Memory, u16_of, u32_of}
use ex2_services.Csp.Packet.{
  Packet, SatReturn, satr_ok, satr_pkt_illegal_subservice, subservice_byte, in_data_byte,
  out_data_byte, minus_one, set_packet_length, write, write_status,
}

-- `image_info`, with the fields that the service names, and the bytes of the others.
pub record ImageInfo : Type 0 where
  pub exists : ℕ
  pub addr : ℕ
  pub crc : ℕ
  pub others : List ℕ

-- The EEPROM, the flash memory, the file system and the heap. Where the source compares a result
-- with -1 the result is an option. `read_image` gives what it returns as 32 bits, -1 being
-- 2^32 - 1, and the buffer; the flash functions give a code that is 0 where all went well.
pub record Board (W : Type 0) : Type 0 where
  pub init_eeprom : W → Bool × W
  pub shutdown_eeprom : W → W
  pub get_golden_info : W → ImageInfo × W
  pub get_app_info : W → ImageInfo × W
  pub set_app_info : ImageInfo → W → W
  pub verify_application : W → Bool × W
  pub verify_golden : W → Bool × W
  pub open_image : W → Option ℕ × W
  pub stat_size : ℕ → W → Option ℕ × W
  pub read_image : ℕ → ℕ → W → ℕ × Memory × W
  pub malloc : ℕ → W → Bool × W
  pub start_addr_check : ℕ → ℕ → W → Bool
  pub block_erase : ℕ → ℕ → W → ℕ × W
  pub block_program : ℕ → Memory → ℕ → W → ℕ × W
  pub info_bytes : ImageInfo → List ℕ

abbrev pub attempts : List ℕ
attempts = 4096 ∷ 2048 ∷ 1024 ∷ 512 ∷ 256 ∷ 128 ∷ 64 ∷ 32 ∷ 16 ∷ 8 ∷ []

module _ {W : Type 0} (board : Board W) where
  -- The loop of `get_buffer` over the sizes that are left.
  unfoldable pub attempt : List ℕ → W → ℕ × W
  attempt [] w = (0, w)
  attempt (size ∷ sizes) w =
      let (got, w₁) = board.malloc size w in
      let rest = attempt sizes w₁ in if got then (size, w₁) else rest

  unfoldable pub get_buffer : W → ℕ × W
  get_buffer w = attempt attempts w

  -- `case FLASH_UPDATE` of the golden image, from the inside out: each step gives the status.
  unfoldable pub program_block : ℕ → ℕ → ℕ → W → ℕ × W
  program_block fp addr flash_size w =
      let (bytes_read, buf, w₁) = board.read_image fp flash_size w in
      let size = if ltb bytes_read flash_size then bytes_read else flash_size in
      let (error, w₂) = board.block_program addr buf size w₁ in
      (if error % 256 == 0 then 0 else minus_one, w₂)

  unfoldable pub with_buffer : ℕ → ℕ → ℕ × W → ℕ × W
  with_buffer fp addr (flash_size, w) =
      if flash_size == 0 then (minus_one, w) else program_block fp addr flash_size w

  unfoldable pub with_erased : ℕ → ℕ → ℕ × W → ℕ × W
  with_erased fp addr (error, w) =
      if error % 256 == 0 then with_buffer fp addr (get_buffer w) else (minus_one, w)

  unfoldable pub with_size : ℕ → Option ℕ × W → ℕ × W
  with_size fp (none, w) = (minus_one, w)
  with_size fp (some st_size, w) =
      let (app_info, w₁) = board.get_app_info w in
      let size = st_size % 2 ^ 32 in
      if not (board.start_addr_check app_info.addr size w₁)
      then (minus_one, w₁)
      else with_erased fp app_info.addr (board.block_erase app_info.addr size w₁)

  unfoldable pub with_image : Option ℕ × W → ℕ × W
  with_image (none, w) = (minus_one, w)
  with_image (some fp, w) = with_size fp (board.stat_size fp w)

  unfoldable pub flash_update : W → ℕ × W
  flash_update w = with_image (board.open_image w)

  -- A case that leaves a status and goes on behind the switch.
  unfoldable pub only_status : Packet → ℕ × W → ℕ × Packet × W
  only_status packet (status, w) = (status, packet, w)

  unfoldable pub send_info : Packet → ImageInfo × W → ℕ × Packet × W
  send_info packet (info, w) =
      let bs = board.info_bytes info in
      (0, set_packet_length (write packet out_data_byte bs) (1 + length bs + 1), w)

  unfoldable pub set_info : Packet → (ImageInfo → ImageInfo) → W → ℕ × Packet × W
  set_info packet change w =
      let (info, w₁) = board.get_app_info w in
      (0, set_packet_length packet 2, board.set_app_info (change info) w₁)

  unfoldable pub verify : Packet → Bool × W → ℕ × Packet × W
  verify packet (valid, w) =
      if valid then (0, set_packet_length packet 2, w) else (minus_one, packet, w)

  module _ (e : Endian) (golden_image : Bool) where
    -- The switch; `none` is the default. `golden_image` says whether GOLDEN_IMAGE is defined.
    unfoldable pub switch : Packet → W → Option (ℕ × Packet × W)
    switch packet w =
        let ser_subtype = packet.bytes subservice_byte in
        let b = packet.bytes in
        if ser_subtype == 0
        then some (only_status packet (if golden_image then flash_update w else (minus_one, w)))
        else if ser_subtype == 1
        then some (send_info packet (board.get_golden_info w))
        else if ser_subtype == 2
        then some (send_info packet (board.get_app_info w))
        else if ser_subtype == 3
        then some (
            if golden_image
            then set_info packet (λ i. record i { addr = u32_of e (b 1) (b 2) (b 3) (b 4) }) w
            else (minus_one, packet, w))
        else if ser_subtype == 4
        then some (
            if golden_image
            then set_info packet (λ i. record i { crc = u16_of e (b 1) (b 2) }) w
            else (minus_one, packet, w))
        else if ser_subtype == 5
        then some (
            if golden_image
            then set_info packet (λ i. record i { exists = 0 }) w
            else (minus_one, packet, w))
        else if ser_subtype == 6
        then some (verify packet (board.verify_application w))
        else if ser_subtype == 7
        then some (verify packet (board.verify_golden w))
        else none

    -- What stands behind the switch.
    unfoldable pub finish : ℕ × Packet × W → SatReturn × Packet × W
    finish (status, packet, w) =
        let sized = if status == minus_one then set_packet_length packet 2 else packet in
        (satr_ok, write_status sized status, board.shutdown_eeprom w)

    unfoldable pub after_switch : Packet → W → Option (ℕ × Packet × W) → SatReturn × Packet × W
    after_switch packet w none = (satr_pkt_illegal_subservice, packet, board.shutdown_eeprom w)
    after_switch packet w (some result) = finish result

    unfoldable pub updater_app : Packet → W → SatReturn × Packet × W
    updater_app packet w =
        let (ready, w₁) = board.init_eeprom w in
        if ready then after_switch packet w₁ (switch packet w₁) else finish (minus_one, packet, w₁)
