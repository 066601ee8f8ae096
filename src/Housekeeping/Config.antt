-- ===== src/Housekeeping/Config.antt =====
-- `exists`, `store_config` and `load_config`: the configuration file, which keeps `MAX_FILES`,
-- `current_file`, `tempTime` and the array of timestamps over a restart.
pub mod Store
use ex2_services.Base.{
  ℕ, zero, suc, ◌+◌, ◌*◌, ◌-◌, ◌%◌, ◌^◌, Bool, true, false, ◌||◌, not, Option, none, some, List, [],
  ◌∷◌, ◌++◌, ltb, if◌then◌else◌, length, get_or, drop,
}
use ex2_services.Csp.Bytes.{Endian, u16_bytes, u32_bytes, u16_of, u32_of}
use ex2_services.Housekeeping.Timestamps.{
  Result, success, failure, Run, done, use_after_free, null_pointer, ◌>>=◌, Pointer, null, block,
  dangling, Timestamps, read_at, dynamic_timestamp_array_handler,
}
use ex2_services.Housekeeping.State.{
  File, hk_config, Flags, creat_excl, creat, rdonly, RedFs, Hk, u16_suc,
}

-- `exists`: the file is created exclusively, and deleted again if that went well. The flag is true
-- for FILE_EXISTS.
unfoldable pub exists : {W : Type 0} → RedFs W → File → W → Bool × W
exists fs file w =
    let (fd, w₁) = fs.open_file file creat_excl (fs.clear_errno w) in
    if fs.is_eexist w₁ then (true, w₁) else (false, fs.unlink file (fs.close_file fd w₁))

-- The bytes of `count` words of the array from item `i` on.
unfoldable pub words : Endian → Pointer → ℕ → ℕ → Run (List ℕ)
words e p zero i = done []
words e p (suc count) i =
    read_at p i >>= λ x. words e p count (i + 1) >>= λ rest. done (u32_bytes e x ++ rest)

module _ (e : Endian) {W : Type 0} (fs : RedFs W) where
  -- The writes of `store_config`, in an open file: all of the array, or the current item at its
  -- place.
  unfoldable pub store_array : Bool → ℕ → Hk W → Run W
  unfolding words
  store_array all fd s =
      let size : ℕ = s.array.array_size in
      let p : Pointer = s.array.timestamps in
      if all
      then (elim p [
        | null ↦ done (fs.write_null fd s.world)
        | other ↦ words e other (size + 1) 0 >>= λ bytes. done (fs.write_file fd bytes s.world)
      ])
      else (words e p 1 s.current_file >>= λ bytes.
          done (fs.write_file fd bytes (fs.seek_cur fd (s.current_file * 4) s.world)))

  unfoldable pub store_config : Bool → Hk W → Run (Result × Hk W)
  store_config rewrite_all s =
      let (exist, w₁) = exists fs hk_config s.world in
      let (fout, w₂) = fs.open_file hk_config creat w₁ in
      elim fout [
        | none ↦ done (failure, record s { world = w₂ })
        | some fd ↦
            let w₃ = fs.write_file fd (u32_bytes e s.temp_time) (
              fs.write_file fd (u16_bytes e s.current_file)
                (fs.write_file fd (u16_bytes e s.max_files) w₂)) in
            store_array (not exist || rewrite_all) fd (record s { world = w₃ }) >>= λ w₄.
            done (success, record s { world = fs.close_file (some fd) w₄ })
      ]

  -- What a variable holds behind `red_read` into it: the bytes read, and its old ones behind them.
  abbrev pub byte_of : List ℕ → List ℕ → ℕ → ℕ
  byte_of read old i = get_or (read ++ drop (length read) old) i 0

  abbrev pub read_u16 : List ℕ → ℕ → ℕ
  read_u16 read old = let b = byte_of read (u16_bytes e old) in u16_of e (b 0) (b 1)

  abbrev pub read_u32 : List ℕ → ℕ → ℕ
  read_u32 read old = let b = byte_of read (u32_bytes e old) in u32_of e (b 0) (b 1) (b 2) (b 3)

  -- `red_read(fin, timestamps, ...)` over a block: item `i` stands at the bytes from 4 * i on.
  abbrev pub read_cells : List ℕ → (ℕ → ℕ) → ℕ → ℕ
  read_cells read cells i = read_u32 (drop (4 * i) read) (cells i)

  -- The read of the array itself, and the step to the file behind the last one written.
  unfoldable pub load_array : ℕ → Hk W → Run (Result × Hk W)
  load_array fd s =
      let next : ℕ = u16_suc s.current_file in
      let current : ℕ = if ltb s.max_files next then 1 else next in
      elim s.array.timestamps [
        | null ↦ done (
          success,
          record s {
            current_file = current;
            world = fs.close_file (some fd) (fs.read_null fd s.world);
          },
        )
        | block items cells ↦
            let (read, w) = fs.read_file fd ((s.array.array_size + 1) * 4) s.world in
            done (
              success,
              record s {
                current_file = current;
                array = record (s.array) { timestamps = block items (read_cells read cells) };
                world = fs.close_file (some fd) w;
              },
            )
        | dangling ↦ use_after_free
      ]

  -- What follows the call of `dynamic_timestamp_array_handler`.
  unfoldable pub handled : ℕ → Hk W → Result × Timestamps → Run (Result × Hk W)
  unfolding load_array
  handled fd s (success, array) = load_array fd (record s { array = array })
  handled fd s (failure, array) = done (failure, record s { array = array })

  -- `malloc` is what `pvPortMalloc` gives.
  unfoldable pub load_config : Option (ℕ → ℕ) → Hk W → Run (Result × Hk W)
  unfolding handled
  load_config malloc s =
      let (exist, w₁) = exists fs hk_config s.world in
      let (fin, w₂) = fs.open_file hk_config rdonly w₁ in
      if not exist then done (failure, record s { world = w₁ }) else elim fin [
        | none ↦ done (failure, record s { world = w₂ })
        | some fd ↦
            let (b₁, w₃) = fs.read_file fd 2 w₂ in
            let (b₂, w₄) = fs.read_file fd 2 w₃ in
            let (b₃, w₅) = fs.read_file fd 4 w₄ in
            let loaded : Hk W = record s {
              max_files = read_u16 b₁ s.max_files;
              current_file = read_u16 b₂ s.current_file;
              temp_time = read_u32 b₃ s.temp_time;
              world = w₅;
            } in
            dynamic_timestamp_array_handler loaded.max_files malloc s.array >>= handled fd loaded
      ]
