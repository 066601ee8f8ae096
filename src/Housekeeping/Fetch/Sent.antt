-- ===== src/Housekeeping/Fetch/Sent.antt =====
-- What goes out for a request: the records of the files visited, one packet each, in order.
use ex2_services.Base.{
  ℕ, ◌<◌, ◌≤◌, ◌≡◌, Bool, true, ltb, if◌then◌else◌, some, List, [], ◌∷◌, ◌++◌, length,
}
use ex2_services.Csp.Bytes.{Endian}
use ex2_services.Csp.Network.{Network}
use ex2_services.Csp.Packet.{Packet}
use ex2_services.Housekeeping.Timestamps.{success}
use ex2_services.Housekeeping.State.{RedFs, Link, AllSystemsHousekeeping, Sizes}
use ex2_services.Housekeeping.Storage.{load_historic_hk_data}
use ex2_services.Housekeeping.Fetch.{Converters, convert_hk_endianness, fill_packet}

-- Each of these is a file of a ring of `max`.
unfoldable pub AreFiles : ℕ → List ℕ → Type 0
AreFiles max [] = Unit {0}
AreFiles max (id ∷ ids) = (0 < id) × (id ≤ max) × AreFiles max ids

-- The structs have their sizes. The start-up telemetry is not read back.
pub record IsShaped (z : Sizes) (d : AllSystemsHousekeeping) : Type 0 where
  pub adcs_size : length d.adcs_hk ≡ z.adcs
  pub athena_size : length d.athena_hk ≡ z.athena
  pub eps_size : length d.eps_hk ≡ z.eps
  pub uhf_size : length d.uhf_hk ≡ z.uhf
  pub s_band_size : length d.s_band_hk ≡ z.s_band
  pub hyperion_size : length d.hyperion_hk ≡ z.hyperion
  pub charon_size : length d.charon_hk ≡ z.charon
  pub dfgm_size : length d.dfgm_hk ≡ z.dfgm

module _ {e : Endian} (net : Network e) (c : Converters) (z : Sizes) {W : Type 0} (fs : RedFs W)
    (link : Link W) where
  -- A world in which the files of the ring can be read, a buffer is to be had, and sends succeed. What
  -- has gone out is recorded, by sends only. A record that is read leaves the start-up telemetry of
  -- the struct that it is read into, and the converters keep the sizes of the structs.
  pub record Serves (max : ℕ) : Type 0 where
    pub log : W → List Packet
    pub stored : ℕ → AllSystemsHousekeeping
    pub shaped : (id : ℕ) → IsShaped z (stored id)
    pub athena_keeps : (bs : List ℕ) → length (c.athena_convert bs) ≡ length bs
    pub eps_keeps : (bs : List ℕ) → length (c.eps_convert bs) ≡ length bs
    pub uhf_keeps : (bs : List ℕ) → length (c.uhf_convert bs) ≡ length bs
    pub s_band_keeps : (bs : List ℕ) → length (c.s_band_convert bs) ≡ length bs
    pub loads :
        (id : ℕ) (d : AllSystemsHousekeeping) (w : W)
        → IsShaped z d
        → 0 < id
        → id ≤ max
        → (w₁ : W) × (load_historic_hk_data e z fs id d w
            ≡ (success, record (stored id) { eps_startup_hk = d.eps_startup_hk }, w₁))
          × (log w₁ ≡ log w)
    pub gets :
        (n : ℕ) (w : W)
        → (q : Packet) × (w₁ : W) × (link.buffer_get n w ≡ (some q, w₁)) × (log w₁ ≡ log w)
    pub sends :
        (p : Packet) (w : W) → (w₁ : W) × (link.send p w ≡ (true, w₁)) × (log w₁ ≡ log w ++ p ∷ [])

  -- A record as it is answered: converted, and with the flag `final` set if more files follow.
  unfoldable pub flagged : Bool → AllSystemsHousekeeping → AllSystemsHousekeeping
  flagged more d =
      let converted = convert_hk_endianness net c d in
      if more then record converted { final = 1 } else converted

  -- The packets answer the files in order, each with its record in a buffer of its own.
  unfoldable pub AnswersOf : (ℕ → AllSystemsHousekeeping) → List ℕ → List Packet → Type 0
  AnswersOf stored [] [] = Unit {0}
  AnswersOf stored [] (p ∷ ps) = ⊥
  AnswersOf stored (id ∷ ids) [] = ⊥
  AnswersOf stored (id ∷ ids) (p ∷ ps) =
      ((q : Packet) × (p
          ≡ fill_packet net c z fs link (flagged (ltb 0 (length ids)) (stored id)) q))
      × AnswersOf stored ids ps
