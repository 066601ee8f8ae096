-- ===== src/General.antt =====
-- Services/source/general.c: reboot, the deployables, their switches, and the delays of the
-- watchdogs of the radios and of the GPS board.
pub mod Laws
use ex2_services.Base.{
  ℕ, zero, suc, ◌+◌, ◌-◌, ◌%◌, ◌==◌, ◌||◌, ltb, if◌then◌else◌, Option, none, some, List, [], ◌∷◌,
  ◌^◌, map,
}
use ex2_services.Csp.Bytes.{Endian, slice, u16_bytes, u32_bytes}
use ex2_services.Csp.Packet.{
  Packet, SatReturn, satr_ok, satr_pkt_illegal_subservice, subservice_byte, in_data_byte,
  out_data_byte, minus_one, set_packet_length, write, write_status,
}
use ex2_services.Housekeeping.Timestamps.{Run, done, out_of_bounds, ◌>>=◌}
use ex2_services.Housekeeping.State.{Link}
use ex2_services.Housekeeping.App.{send_or_free}

-- A watchdog's `get_<name>_watchdog_delay` and `set_<name>_watchdog_delay`.
pub record Watchdog (W : Type 0) : Type 0 where
  pub get_delay : W → ℕ × W
  pub set_delay : ℕ → W → ℕ × W

-- The calls of the service. `deployable` is the value that a `Deployable_t` of 0 has once its first
-- byte is replaced; `deploy` gives a status and the current of the burn wire.
pub record GeneralHal (W : Type 0) : Type 0 where
  pub reboot_system : ℕ → W → W
  pub deployable : ℕ → ℕ
  pub deploy : ℕ → W → ℕ × ℕ × W
  pub switchstatus : ℕ → W → ℕ × W
  pub uhf : Watchdog W
  pub sband : Watchdog W
  pub charon : Watchdog W

-- `case 'A': case 'B': case 'G': status = 0` and the default.
unfoldable pub reboot_status : ℕ → ℕ
reboot_status reboot_type =
    if reboot_type == 65 || reboot_type == 66 || reboot_type == 71 then 0 else minus_one

-- memcpy of the bytes into a variable of `size` bytes.
unfoldable pub into_variable : ℕ → List ℕ → Run (List ℕ)
into_variable size [] = done []
into_variable size (b ∷ bs) =
    if size == 0 then out_of_bounds else (into_variable (size - 1) bs >>= λ rest. done (b ∷ rest))

-- The number that the bytes of a variable of one byte stand for.
abbrev pub u8_of : List ℕ → ℕ
u8_of [] = 0
u8_of (b ∷ bs) = b

module _ (e : Endian) {W : Type 0} (hal : GeneralHal W) (link : Link W) where
  -- `case REBOOT`: a failed send is not looked at.
  unfoldable pub handle_reboot : Packet → W → Run (SatReturn × W)
  handle_reboot packet w =
      let reboot_type = packet.bytes in_data_byte in
      let status = reboot_status reboot_type in
      let w₁ = (link.send (set_packet_length (write_status packet status) 2) w).1 in
      done (satr_ok, if status == 0 then hal.reboot_system reboot_type w₁ else w₁)

  unfoldable pub handle_deploy : Packet → W → Run (SatReturn × W)
  handle_deploy packet w =
      let (status, current, w₁) = hal.deploy (hal.deployable (packet.bytes in_data_byte)) w in
      let answer = write (write_status packet status) out_data_byte (u16_bytes e current) in
      done (satr_ok, send_or_free link (set_packet_length answer 4) w₁)

  -- The loop over the switches from `i` on, `n` of which are left.
  unfoldable pub read_switches : ℕ → ℕ → W → List ℕ × W
  read_switches zero i w = ([], w)
  read_switches (suc n) i w =
      let (status, w₁) = hal.switchstatus i w in
      let (later, w₂) = read_switches n (i + 1) w₁ in (status % 256 ∷ later, w₂)

  unfoldable pub handle_switches : Packet → W → Run (SatReturn × W)
  handle_switches packet w =
      let (sw, w₁) = read_switches 8 0 w in
      let answer = write (write_status packet 0) out_data_byte sw in
      done (satr_ok, send_or_free link (set_packet_length answer 10) w₁)

  -- The three `case GET_<name>_WATCHDOG_TIMEOUT`; the delay goes out in the order of the host.
  unfoldable pub handle_get_delay : Watchdog W → Packet → W → Run (SatReturn × W)
  handle_get_delay dog packet w =
      let (timeout, w₁) = dog.get_delay w in
      let answer = write (write_status packet 0) out_data_byte (u32_bytes e timeout) in
      done (satr_ok, (link.send (set_packet_length answer 6) w₁).1)

  -- The three `case SET_<name>_WATCHDOG_TIMEOUT`; `timeout_new` is a uint8_t.
  unfoldable pub handle_set_delay : Watchdog W → Packet → W → Run (SatReturn × W)
  handle_set_delay dog packet w =
      into_variable 1 (slice in_data_byte 4 packet.bytes) >>= λ timeout_new.
      let (status, w₁) = dog.set_delay (u8_of timeout_new) w in
      done (satr_ok, (link.send (set_packet_length (write_status packet status) 2) w₁).1)

  unfoldable pub general_app : Packet → W → Run (SatReturn × W)
  general_app packet w =
      let ser_subtype = packet.bytes subservice_byte in
      if ser_subtype == 0
      then handle_reboot packet w
      else if ser_subtype == 1
      then handle_deploy packet w
      else if ser_subtype == 2
      then handle_switches packet w
      else if ser_subtype == 3
      then handle_get_delay hal.uhf packet w
      else if ser_subtype == 4
      then handle_set_delay hal.uhf packet w
      else if ser_subtype == 5
      then handle_get_delay hal.sband packet w
      else if ser_subtype == 6
      then handle_set_delay hal.sband packet w
      else if ser_subtype == 7
      then handle_get_delay hal.charon packet w
      else if ser_subtype == 8
      then handle_set_delay hal.charon packet w
      else done (satr_pkt_illegal_subservice, w)

  -- One iteration of `for (;;)` of `general_service`, where a connection comes with these packets;
  -- what the application reports is only logged. `close` is `csp_close`.
  unfoldable pub read_loop : List Packet → W → Run W
  read_loop [] w = done w
  read_loop (packet ∷ rest) w = general_app packet w >>= λ r. read_loop rest r.1

  unfoldable pub iteration : (W → W) → Option (List Packet) → W × ℕ → Run (W × ℕ)
  iteration close none (w, counter) = done (w, (counter + 2) % 2 ^ 32)
  iteration close (some packets) (w, counter) =
      read_loop packets w >>= λ w₁. done (close w₁, (counter + 2) % 2 ^ 32)
