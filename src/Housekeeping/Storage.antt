-- ===== src/Housekeeping/Storage.antt =====
-- `get_size_of_housekeeping`, `write_hk_to_file` and `read_hk_from_file`: one record of the data
-- file, at the place that its number gives.
pub mod Posix
pub mod Parts
pub mod Record
pub mod RoundTrip
use ex2_services.Base.{
  ℕ, ◌+◌, ◌*◌, ◌-◌, ◌%◌, ◌^◌, not, none, some, List, ◌++◌, if◌then◌else◌, length, drop, get_or,
}
use ex2_services.Csp.Bytes.{Endian, u16_of, u32_of}
use ex2_services.Housekeeping.Timestamps.{Result, success, failure}
use ex2_services.Housekeeping.State.{
  hk_data, creat, rdonly, RedFs, AllSystemsHousekeeping, Sizes, timeorder_size, timeorder_bytes,
}
use ex2_services.Housekeeping.Config.{exists}

-- The sum is cut to a uint16_t. The start-up telemetry of the EPS has no part in it.
unfoldable pub get_size_of_housekeeping : Sizes → ℕ
get_size_of_housekeeping z =
    (timeorder_size + z.athena + z.eps + z.uhf + z.s_band + z.adcs + z.hyperion + z.charon + z.dfgm)
    % 2 ^ 16

-- A struct behind a read of as many bytes as it has: those that the read did not give stay.
abbrev pub over : List ℕ → List ℕ → List ℕ
over read old = read ++ drop (length read) old

module _ (e : Endian) (z : Sizes) {W : Type 0} (fs : RedFs W) where
  -- `(filenumber - 1) * needed_size`. File numbers start at 1; -1 * needed_size is not modelled.
  abbrev pub offset : ℕ → ℕ
  offset filenumber = (filenumber - 1) * get_size_of_housekeeping z

  unfoldable pub write_all : ℕ → AllSystemsHousekeeping → W → W
  write_all fd d w =
      let w₁ = fs.write_file fd (timeorder_bytes e d) w in
      let w₂ = fs.write_file fd d.adcs_hk w₁ in
      let w₃ = fs.write_file fd d.athena_hk w₂ in
      let w₄ = fs.write_file fd d.eps_hk w₃ in
      let w₅ = fs.write_file fd d.uhf_hk w₄ in
      let w₆ = fs.write_file fd d.s_band_hk w₅ in
      let w₇ = fs.write_file fd d.hyperion_hk w₆ in
      let w₈ = fs.write_file fd d.charon_hk w₇ in fs.write_file fd d.dfgm_hk w₈

  unfoldable pub write_hk_to_file : ℕ → AllSystemsHousekeeping → W → Result × W
  unfolding write_all
  write_hk_to_file filenumber d w =
      let (fout, w₁) = fs.open_file hk_data creat w in
      elim fout [
        | none ↦ (failure, w₁)
        | some fd ↦
            let w₂ = fs.clear_errno (fs.seek_set fd (offset filenumber) w₁) in
            let w₃ = write_all fd d w₂ in
            (if fs.no_error w₃ then success else failure, fs.close_file (some fd) w₃)
      ]

  unfoldable pub read_timeorder : List ℕ → AllSystemsHousekeeping → AllSystemsHousekeeping
  read_timeorder read d =
      let b : ℕ → ℕ = λ i. get_or (over read (timeorder_bytes e d)) i 0 in
      record d {
        final = b 0;
        unix_timestamp = u32_of e (b 1) (b 2) (b 3) (b 4);
        data_position = u16_of e (b 5) (b 6);
      }

  unfoldable pub read_all : ℕ → AllSystemsHousekeeping → W → AllSystemsHousekeeping × W
  unfolding read_timeorder
  read_all fd d w =
      let (b₁, w₁) = fs.read_file fd timeorder_size w in
      let (b₂, w₂) = fs.read_file fd z.adcs w₁ in
      let (b₃, w₃) = fs.read_file fd z.athena w₂ in
      let (b₄, w₄) = fs.read_file fd z.eps w₃ in
      let (b₅, w₅) = fs.read_file fd z.uhf w₄ in
      let (b₆, w₆) = fs.read_file fd z.s_band w₅ in
      let (b₇, w₇) = fs.read_file fd z.hyperion w₆ in
      let (b₈, w₈) = fs.read_file fd z.charon w₇ in
      let (b₉, w₉) = fs.read_file fd z.dfgm w₈ in
      (
        record (read_timeorder b₁ d) {
          adcs_hk = over b₂ d.adcs_hk;
          athena_hk = over b₃ d.athena_hk;
          eps_hk = over b₄ d.eps_hk;
          uhf_hk = over b₅ d.uhf_hk;
          s_band_hk = over b₆ d.s_band_hk;
          hyperion_hk = over b₇ d.hyperion_hk;
          charon_hk = over b₈ d.charon_hk;
          dfgm_hk = over b₉ d.dfgm_hk;
        },
        w₉,
      )

  unfoldable pub read_hk_from_file :
      ℕ → AllSystemsHousekeeping → W → Result × AllSystemsHousekeeping × W
  unfolding exists read_all
  read_hk_from_file filenumber d w =
      let (exist, w₁) = exists fs hk_data w in
      let (fin, w₂) = fs.open_file hk_data rdonly w₁ in
      if not exist then (failure, d, w₁) else elim fin [
        | none ↦ (failure, d, w₂)
        | some fd ↦
            let w₃ = fs.clear_errno (fs.seek_set fd (offset filenumber) w₂) in
            let (d', w₄) = read_all fd d w₃ in
            (if fs.no_error w₄ then success else failure, d', fs.close_file (some fd) w₄)
      ]

  -- `load_historic_hk_data`
  unfoldable pub load_historic_hk_data :
      ℕ → AllSystemsHousekeeping → W → Result × AllSystemsHousekeeping × W
  unfolding read_hk_from_file
  load_historic_hk_data file_num d w = read_hk_from_file file_num d w
