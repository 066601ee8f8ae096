-- ===== src/Housekeeping/State.antt =====
-- The state of the housekeeping service, and what it asks of the file system (Reliance Edge), of
-- libcsp and of the device drivers. None of these is part of the repository, so they are parameters
-- over a world `W`.
use ex2_services.Base.{ℕ, ◌+◌, ◌%◌, ◌^◌, Bool, Option, List, ◌++◌, ◌∷◌}
use ex2_services.Csp.Bytes.{Endian, u16_bytes, u32_bytes}
use ex2_services.Csp.Packet.{Packet}
use ex2_services.Housekeeping.Timestamps.{Timestamps}

-- `fileName` and `hk_config`.
pub data File : Type 0 where
  hk_data hk_config : File

-- RED_O_CREAT | RED_O_EXCL | RED_O_RDWR, RED_O_CREAT | RED_O_RDWR, and RED_O_RDONLY.
pub data Flags : Type 0 where
  creat_excl creat rdonly : Flags

-- A descriptor is `none` where `red_open` gives -1. A read gives the bytes that it found, which
-- may be fewer than asked for. `write_null` and `read_null` are calls with the
-- NULL buffer.
pub record RedFs (W : Type 0) : Type 0 where
  pub open_file : File → Flags → W → Option ℕ × W
  pub write_file : ℕ → List ℕ → W → W
  pub write_null : ℕ → W → W
  pub read_file : ℕ → ℕ → W → List ℕ × W
  pub read_null : ℕ → W → W
  pub seek_set : ℕ → ℕ → W → W
  pub seek_cur : ℕ → ℕ → W → W
  pub close_file : Option ℕ → W → W
  pub unlink : File → W → W
  -- `red_errno = 0`, `red_errno == 0` and `red_errno == RED_EEXIST`.
  pub clear_errno : W → W
  pub no_error : W → Bool
  pub is_eexist : W → Bool

-- `csp_send`, `csp_buffer_free` and `csp_buffer_get`; the last may give NULL.
pub record Link (W : Type 0) : Type 0 where
  pub send : Packet → W → Bool × W
  pub buffer_free : ℕ → W → W
  pub buffer_get : ℕ → W → Option Packet × W

-- `All_systems_housekeeping`: the fields of `hk_timeorder`, and the bytes of the other structs.
pub record AllSystemsHousekeeping : Type 0 where
  pub final : ℕ
  pub unix_timestamp : ℕ
  pub data_position : ℕ
  pub adcs_hk : List ℕ
  pub athena_hk : List ℕ
  pub eps_hk : List ℕ
  pub eps_startup_hk : List ℕ
  pub uhf_hk : List ℕ
  pub s_band_hk : List ℕ
  pub hyperion_hk : List ℕ
  pub charon_hk : List ℕ
  pub dfgm_hk : List ℕ

-- `sizeof` of the structs that the drivers declare.
pub record Sizes : Type 0 where
  pub adcs : ℕ
  pub athena : ℕ
  pub eps : ℕ
  pub eps_startup : ℕ
  pub uhf : ℕ
  pub s_band : ℕ
  pub hyperion : ℕ
  pub charon : ℕ
  pub dfgm : ℕ

abbrev pub timeorder_size : ℕ
timeorder_size = 7

-- The packed `hk_time_and_order` in memory.
abbrev pub timeorder_bytes : Endian → AllSystemsHousekeeping → List ℕ
timeorder_bytes e d = d.final % 256 ∷ u32_bytes e d.unix_timestamp ++ u16_bytes e d.data_position

-- The globals of the file. `locked` says that this task holds `f_count_lock`.
pub record Hk (W : Type 0) : Type 0 where
  pub max_files : ℕ
  pub current_file : ℕ
  pub config_loaded : Bool
  pub temp_time : ℕ
  pub array : Timestamps
  pub locked : Bool
  pub world : W

-- `++current_file; if (current_file > MAX_FILES) current_file = 1` of uint16_t.
abbrev pub u16_suc : ℕ → ℕ
u16_suc n = (n + 1) % 2 ^ 16
