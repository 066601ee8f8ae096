-- ===== src/General/Laws.antt =====
-- What the general requests do.
use ex2_services.Base.{ℕ, ◌<◌, ◌≡◌, ◌≢◌, ◌⊎◌, inl, inr, arith, ◌==◌, ◌||◌, List, ◌∷◌, Bool-cases}
use ex2_services.Csp.Bytes.{Endian}
use ex2_services.Csp.Packet.{
  Packet, satr_ok, subservice_byte, minus_one, set_packet_length, write_status,
}
use ex2_services.Housekeeping.Timestamps.{done, out_of_bounds}
use ex2_services.Housekeeping.State.{Link}
use ex2_services.General.{
  GeneralHal, reboot_status, into_variable, handle_reboot, handle_set_delay, general_app, read_loop,
}

module _ (e : Endian) {W : Type 0} (hal : GeneralHal W) (link : Link W) where
  -- A reboot request answers first. Then it reboots if its type is A, B or G, having answered 0; for
  -- any other type it has answered -1 and does nothing more.
  pub reboot_types :
      (p : Packet) (w : W)
      → p.bytes subservice_byte ≡ 0
      → let t = p.bytes 1 in
        let answered =
          λ (status : ℕ). (link.send (set_packet_length (write_status p status) 2) w).1 in
        (((t ≡ 65) ⊎ (t ≡ 66) ⊎ (t ≡ 71))
          × (general_app e hal link p w ≡ done (satr_ok, hal.reboot_system t (answered 0))))
        ⊎ ((t ≢ 65)
            × (t ≢ 66)
            × (t ≢ 71)
            × (general_app e hal link p w ≡ done (satr_ok, answered minus_one)))
  unfolding general_app handle_reboot reboot_status
  reboot_types p w reboot =
      elim (Bool-cases (p.bytes 1 == 65 || p.bytes 1 == 66 || p.bytes 1 == 71)) [
        | inl known ↦ inl (ground arith)
        | inr other ↦ inr (ground arith)
      ]

  -- Each of the three requests that set the delay of a watchdog copies four bytes into a variable of
  -- one byte, and so writes outside it, whatever the request holds.
  pub set_delay_overruns :
      (p : Packet) (w : W)
      → let n = p.bytes subservice_byte in
        (n ≡ 4) ⊎ (n ≡ 6) ⊎ (n ≡ 8) → general_app e hal link p w ≡ out_of_bounds
  unfolding general_app handle_set_delay into_variable
  set_delay_overruns p w sets = ground arith

  -- A request that the service does not know leaves no trace: its packet is neither answered nor
  -- freed, and the connection goes on as if it had not been read.
  pub general_unknown :
      (p : Packet) (rest : List Packet) (w : W)
      → 8 < p.bytes subservice_byte
      → read_loop e hal link (p ∷ rest) w ≡ read_loop e hal link rest w
  unfolding read_loop general_app
  general_unknown p rest w unknown = ground arith
