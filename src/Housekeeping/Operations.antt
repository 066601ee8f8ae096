-- ===== src/Housekeeping/Operations.antt =====
-- `populate_and_store_hk_data` and `set_max_files`: the operations that move the ring of files.
pub mod Ring
pub mod Shrink
pub mod Rounds
use ex2_services.Base.{
  ℕ, zero, suc, ◌+◌, ◌-◌, ◌%◌, ◌^◌, Bool, true, false, ◌||◌, not, Option, none, some, List, [], ◌∷◌,
  ltb, if◌then◌else◌,
}
use ex2_services.Csp.Bytes.{Endian}
use ex2_services.Housekeeping.Timestamps.{
  Result, success, failure, Run, done, ◌>>=◌, Timestamps, write_at, dynamic_timestamp_array_handler,
}
use ex2_services.Housekeeping.State.{
  File, hk_data, RedFs, AllSystemsHousekeeping, Sizes, Hk, u16_suc,
}
use ex2_services.Housekeeping.Config.{exists, store_config, load_config}
use ex2_services.Housekeeping.Storage.{write_hk_to_file}

-- `prv_get_lock` and `prv_give_lock`, as the task that takes the mutex sees them.
abbrev pub get_lock : {W : Type 0} → Hk W → Hk W
get_lock s = record s { locked = true }

abbrev pub give_lock : {W : Type 0} → Hk W → Hk W
give_lock s = record s { locked = false }

-- `++current_file; if (current_file > MAX_FILES) { current_file = 1; }`
abbrev pub step_file : {W : Type 0} → Hk W → Hk W
step_file s = record s {
  current_file = if ltb s.max_files (u16_suc s.current_file) then 1 else u16_suc s.current_file;
}

-- The timestamp of the file is noted, if there is an array to note it in.
unfoldable pub note_timestamp : {W : Type 0} → ℕ → Hk W → Result × Timestamps → Run (Hk W)
note_timestamp unix_timestamp s (failure, array) = done (record s { array = array })
note_timestamp unix_timestamp s (success, array) =
    write_at array.timestamps s.current_file unix_timestamp >>= λ p.
    done (record s { array = record array { timestamps = p } })

module _ (e : Endian) (z : Sizes) {W : Type 0} (fs : RedFs W) where
  -- `if (config_loaded == 0) load_config()`, with the result dropped; then the flag is set.
  unfoldable pub ensure_config : Option (ℕ → ℕ) → Hk W → Run (Hk W)
  ensure_config malloc s =
      if s.config_loaded
      then done (record s { config_loaded = true })
      else (load_config e fs malloc s >>= λ loaded.
          done (record (loaded.1) { config_loaded = true }))

  -- The part of `populate_and_store_hk_data` behind a successful `write_hk_to_file`.
  unfoldable pub record_file : Option (ℕ → ℕ) → ℕ → Hk W → Run (Result × Hk W)
  record_file malloc unix_timestamp s =
      dynamic_timestamp_array_handler s.max_files malloc s.array >>= λ handled.
      note_timestamp unix_timestamp s handled >>= λ noted.
      store_config e fs false noted >>= λ stored. done (success, give_lock (step_file stored.1))

  -- The part behind `write_hk_to_file`, on its result.
  unfoldable pub after_write : Option (ℕ → ℕ) → ℕ → Hk W → Result → Run (Result × Hk W)
  after_write malloc unix_timestamp s failure = done (failure, give_lock s)
  after_write malloc unix_timestamp s success = record_file malloc unix_timestamp s

  -- `populate_and_store_hk_data`. `collect` is `collect_hk_from_devices` into a struct that holds
  -- whatever the stack held; `malloc₁` and `malloc₂` are what `pvPortMalloc` gives to the two calls
  -- of `dynamic_timestamp_array_handler`.
  unfoldable pub populate_and_store_hk_data :
      (W → AllSystemsHousekeeping × W)
      → Option (ℕ → ℕ)
      → Option (ℕ → ℕ)
      → Hk W
      → Run (Result × Hk W)
  populate_and_store_hk_data collect malloc₁ malloc₂ s =
      let (collected, w₁) = collect s.world in
      ensure_config malloc₁ (get_lock (record s { world = w₁ })) >>= λ s₁.
      let d = record collected { data_position = s₁.current_file } in
      let (written, w₂) = write_hk_to_file e z fs s₁.current_file d s₁.world in
      let s₂ = record s₁ { world = w₂ } in after_write malloc₂ d.unix_timestamp s₂ written

  -- The part of `set_max_files` for a number of files that is not larger: everything is dropped.
  unfoldable pub drop_files : Option (ℕ → ℕ) → Hk W → Run (Result × Hk W)
  drop_files malloc s =
      let s₁ = record s { current_file = 1 } in
      let (exist, w₁) = exists fs hk_data s₁.world in
      let w₂ = if exist then fs.unlink hk_data w₁ else w₁ in
      dynamic_timestamp_array_handler 0 malloc s₁.array >>= λ handled.
      store_config e fs true (record s₁ { array = handled.1; world = w₂ }) >>= λ stored.
      done (success, give_lock stored.1)

  unfoldable pub set_max_files : ℕ → Option (ℕ → ℕ) → Hk W → Run (Result × Hk W)
  set_max_files new_max malloc s =
      if ltb new_max 1 || ltb 20160 new_max
      then done (failure, s)
      else (let s₁ = record (get_lock s) { max_files = new_max } in
          if ltb s.max_files new_max
          then (dynamic_timestamp_array_handler new_max malloc s₁.array >>= λ handled.
              done (success, give_lock (record s₁ { array = handled.1 })))
          else drop_files malloc s₁)
