-- ===== src/Housekeeping/Storage/Record.antt =====
-- A record as the parts that `write_hk_to_file` writes and `read_hk_from_file` reads.
use ex2_services.Base.{
  ℕ, zero, suc, ◌%◌, ◌/◌, ◌^◌, ◌≤◌, ◌<◌, ◌≡◌, ◌∙◌, refl, sym, arith, List, [], ◌∷◌, append-nil, map,
  length, drop,
}
use ex2_services.Csp.Bytes.{Endian, little, big, u32_of, u16_of}
use ex2_services.Housekeeping.State.{
  RedFs, AllSystemsHousekeeping, Sizes, timeorder_size, timeorder_bytes,
}
use ex2_services.Housekeeping.Storage.{over, write_all, read_timeorder, read_all}
use ex2_services.Housekeeping.Storage.Parts.{write_parts, read_parts}

-- Data whose structs are of the declared sizes, and whose numbers fit into their fields.
pub record Fits (z : Sizes) (d : AllSystemsHousekeeping) : Type 0 where
  pub final_fits : d.final < 256
  pub time_fits : d.unix_timestamp < 2 ^ 32
  pub position_fits : d.data_position < 2 ^ 16
  pub adcs_fits : length d.adcs_hk ≡ z.adcs
  pub athena_fits : length d.athena_hk ≡ z.athena
  pub eps_fits : length d.eps_hk ≡ z.eps
  pub uhf_fits : length d.uhf_hk ≡ z.uhf
  pub s_band_fits : length d.s_band_hk ≡ z.s_band
  pub hyperion_fits : length d.hyperion_hk ≡ z.hyperion
  pub charon_fits : length d.charon_hk ≡ z.charon
  pub dfgm_fits : length d.dfgm_hk ≡ z.dfgm

-- The parts of a record in the file, and their sizes.
abbrev pub parts_of : Endian → AllSystemsHousekeeping → List (List ℕ)
parts_of e d =
    timeorder_bytes e d
    ∷ d.adcs_hk
    ∷ d.athena_hk
    ∷ d.eps_hk
    ∷ d.uhf_hk
    ∷ d.s_band_hk
    ∷ d.hyperion_hk
    ∷ d.charon_hk
    ∷ d.dfgm_hk
    ∷ []

unfoldable pub sizes_of : Sizes → List ℕ
sizes_of z =
    timeorder_size ∷ z.adcs ∷ z.athena ∷ z.eps ∷ z.uhf ∷ z.s_band ∷ z.hyperion ∷ z.charon ∷ z.dfgm
    ∷ []

part : ℕ → List (List ℕ) → List ℕ
part k [] = []
part zero (p ∷ ps) = p
part (suc k) (p ∷ ps) = part k ps

timeorder_length :
    (e : Endian) (d : AllSystemsHousekeeping) → length (timeorder_bytes e d) ≡ timeorder_size
timeorder_length little d = refl
timeorder_length big d = refl

drop_all : (n : ℕ) (bs : List ℕ) → length bs ≤ n → drop n bs ≡ []
drop_all zero [] h = refl
drop_all zero (b ∷ bs) h = absurd (omega arith)
drop_all (suc n) [] h = refl
drop_all (suc n) (b ∷ bs) h = drop_all n bs (omega arith)

over_same : (read old : List ℕ) → length read ≡ length old → over read old ≡ read
over_same read old same = rw (drop_all (length read) old (omega (arith, same))) (append-nil read)

timeorder_back :
    (e : Endian) (z : Sizes) {W : Type 0} (fs : RedFs W) (d d₀ : AllSystemsHousekeeping)
    → Fits z d
    → read_timeorder e z fs (timeorder_bytes e d) d₀ ≡ record d₀ {
      final = d.final;
      unix_timestamp = d.unix_timestamp;
      data_position = d.data_position;
    }
unfolding read_timeorder
timeorder_back little z fs d d₀ fits =
    let final : d.final % 256 ≡ d.final = omega (arith, fits.final_fits) in
    let x : ℕ = d.unix_timestamp in
    let time : u32_of little (x % 256) (x / 2 ^ 8 % 256) (x / 2 ^ 16 % 256) (x / 2 ^ 24 % 256) ≡ x =
      omega (arith, fits.time_fits) in
    let y : ℕ = d.data_position in
    let position : u16_of little (y % 256) (y / 256 % 256) ≡ y =
      omega (arith, fits.position_fits) in
    rw (final, time, position) refl
timeorder_back big z fs d d₀ fits =
    let final : d.final % 256 ≡ d.final = omega (arith, fits.final_fits) in
    let x : ℕ = d.unix_timestamp in
    let time : u32_of big (x / 2 ^ 24 % 256) (x / 2 ^ 16 % 256) (x / 2 ^ 8 % 256) (x % 256) ≡ x =
      omega (arith, fits.time_fits) in
    let y : ℕ = d.data_position in
    let position : u16_of big (y / 256 % 256) (y % 256) ≡ y = omega (arith, fits.position_fits) in
    rw (final, time, position) refl

module _ (e : Endian) (z : Sizes) {W : Type 0} (fs : RedFs W) where
  pub map-length-parts_of :
      (d : AllSystemsHousekeeping) → Fits z d → map length (parts_of e d) ≡ sizes_of z
  unfolding sizes_of
  map-length-parts_of d fits =
      rw
        (
          timeorder_length e d,
          fits.adcs_fits,
          fits.athena_fits,
          fits.eps_fits,
          fits.uhf_fits,
          fits.s_band_fits,
          fits.hyperion_fits,
          fits.charon_fits,
          fits.dfgm_fits,
        )
        refl

  -- What `read_all` makes of the parts that it reads.
  pub rebuilt : AllSystemsHousekeeping → List (List ℕ) → AllSystemsHousekeeping
  rebuilt d ps = record (read_timeorder e z fs (part 0 ps) d) {
    adcs_hk = over (part 1 ps) d.adcs_hk;
    athena_hk = over (part 2 ps) d.athena_hk;
    eps_hk = over (part 3 ps) d.eps_hk;
    uhf_hk = over (part 4 ps) d.uhf_hk;
    s_band_hk = over (part 5 ps) d.s_band_hk;
    hyperion_hk = over (part 6 ps) d.hyperion_hk;
    charon_hk = over (part 7 ps) d.charon_hk;
    dfgm_hk = over (part 8 ps) d.dfgm_hk;
  }

  pub rebuilt_back :
      (d d₀ : AllSystemsHousekeeping)
      → Fits z d
      → Fits z d₀
      → rebuilt d₀ (parts_of e d) ≡ record d { eps_startup_hk = d₀.eps_startup_hk }
  unfolding rebuilt part
  rebuilt_back d d₀ fits fits₀ =
      rw
        (
          timeorder_back e z fs d d₀ fits,
          over_same d.adcs_hk d₀.adcs_hk (fits.adcs_fits ∙ sym fits₀.adcs_fits),
          over_same d.athena_hk d₀.athena_hk (fits.athena_fits ∙ sym fits₀.athena_fits),
          over_same d.eps_hk d₀.eps_hk (fits.eps_fits ∙ sym fits₀.eps_fits),
          over_same d.uhf_hk d₀.uhf_hk (fits.uhf_fits ∙ sym fits₀.uhf_fits),
          over_same d.s_band_hk d₀.s_band_hk (fits.s_band_fits ∙ sym fits₀.s_band_fits),
          over_same d.hyperion_hk d₀.hyperion_hk (fits.hyperion_fits ∙ sym fits₀.hyperion_fits),
          over_same d.charon_hk d₀.charon_hk (fits.charon_fits ∙ sym fits₀.charon_fits),
          over_same d.dfgm_hk d₀.dfgm_hk (fits.dfgm_fits ∙ sym fits₀.dfgm_fits),
        )
        refl

  pub read_all_parts :
      (fd : ℕ) (d : AllSystemsHousekeeping) (w : W)
      → let (ps, w') = read_parts fs fd (sizes_of z) w in
        read_all e z fs fd d w ≡ (rebuilt d ps, w')
  unfolding read_all read_timeorder read_parts rebuilt part sizes_of
  read_all_parts fd d w = refl

  write_all_parts :
      (fd : ℕ) (d : AllSystemsHousekeeping) (w : W)
      → write_all e z fs fd d w ≡ write_parts fs fd (parts_of e d) w
  unfolding write_all write_parts
  write_all_parts fd d w = refl
