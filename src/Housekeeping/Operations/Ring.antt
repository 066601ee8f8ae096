-- ===== src/Housekeeping/Operations/Ring.antt =====
-- In the ordinary course of operation the files are a ring: each call of
-- `populate_and_store_hk_data` that does not lose its data fills the current file and moves on by
-- one.
use ex2_services.Base.{
  ℕ, ◌+◌, ◌<◌, ◌≤◌, ◌≡◌, refl, Bool, true, false, Option, arith, ◌==◌, if◌then◌else◌,
}
use ex2_services.Csp.Bytes.{Endian}
use ex2_services.Housekeeping.Timestamps.{Result, success, failure, done, of_size, Returns}
use ex2_services.Housekeeping.Timestamps.Laws.{same_size}
use ex2_services.Housekeeping.State.{RedFs, AllSystemsHousekeeping, Sizes, Hk}
use ex2_services.Housekeeping.Config.Store.{store_config_returns}
use ex2_services.Housekeeping.Storage.{write_hk_to_file}
use ex2_services.Housekeeping.Operations.{
  ensure_config, note_timestamp, record_file, after_write, populate_and_store_hk_data, give_lock,
  step_file,
}

-- The configuration is loaded, the array is there, and the current file is one of the files.
pub record IsReady {W : Type 0} (cells : ℕ → ℕ) (s : Hk W) : Type 0 where
  pub loaded : s.config_loaded ≡ true
  pub array_of : s.array ≡ of_size s.max_files cells
  pub from_one : 0 < s.current_file
  pub to_max : s.current_file ≤ s.max_files
  pub few : s.max_files < 65535

-- The file that follows file `i` of a ring of `max` files.
abbrev pub next_file : ℕ → ℕ → ℕ
next_file max i = if i == max then 1 else i + 1

-- The timestamps with that of file `i` replaced.
abbrev pub noted : (ℕ → ℕ) → ℕ → ℕ → ℕ → ℕ
noted cells i t j = if j == i then t else cells j

-- What a call may do where the current file is `i` of `max` and the data that it collects are
-- stamped `t`: it loses the data, and the ring is as before, or it notes `t` for file `i` and moves
-- on. The state is ready again in either case, and the lock is given back.
pub data Populated {W : Type 0} (cells : ℕ → ℕ) (t max i : ℕ) : Result × Hk W → Type 0 where
  lost :
      {s : Hk W}
      → IsReady cells s
      → s.current_file ≡ i
      → s.max_files ≡ max
      → s.locked ≡ false
      → Populated cells t max i (failure, s)
  stored :
      {s : Hk W}
      → IsReady (noted cells i t) s
      → s.current_file ≡ next_file max i
      → s.max_files ≡ max
      → s.locked ≡ false
      → Populated cells t max i (success, s)

IsReady-record :
    {W : Type 0} (cells : ℕ → ℕ) (s : Hk W) (held : Bool) (w : W)
    → IsReady cells s
    → IsReady cells (record s { locked = held; world = w })
IsReady-record cells s held w v = record {
  loaded = v.loaded;
  array_of = v.array_of;
  from_one = v.from_one;
  to_max = v.to_max;
  few = v.few;
}

note_timestamp_ready :
    {W : Type 0} (t : ℕ) (s : Hk W) (cells : ℕ → ℕ)
    → IsReady cells s
    → note_timestamp t s (success, of_size s.max_files cells)
      ≡ done (record s { array = of_size s.max_files (noted cells s.current_file t) })
unfolding note_timestamp
note_timestamp_ready t s cells v = ground arith

module _ (e : Endian) (z : Sizes) {W : Type 0} (fs : RedFs W) where
  record_file_stores :
      (malloc : Option (ℕ → ℕ)) (t : ℕ) (s : Hk W) (cells : ℕ → ℕ)
      → IsReady cells s
      → (s' : Hk W) × (record_file e z fs malloc t s ≡ done (success, s'))
        × Populated cells t s.max_files s.current_file (success, s')
  unfolding record_file
  record_file_stores malloc t s cells v =
      let noted_state : Hk W = record s {
        array = of_size s.max_files (noted cells s.current_file t);
      } in
      let (r, w, stores) =
        store_config_returns e fs false noted_state s.max_files (noted cells s.current_file t) refl
          v.to_max in
      (
        give_lock (step_file (record noted_state { world = w })),
        ground
            (arith, same_size s.max_files malloc cells, note_timestamp_ready t s cells v, stores),
        stored
            (record {
              loaded = v.loaded;
              array_of = refl;
              from_one = ground arith;
              to_max = ground arith;
              few = v.few;
            })
            (ground arith) refl refl,
      )

  after_write_moves_on :
      (malloc : Option (ℕ → ℕ)) (t : ℕ) (s : Hk W) (cells : ℕ → ℕ) (written : Result)
      → IsReady cells s
      → Returns
          (after_write e z fs malloc t s written)
          (Populated cells t s.max_files s.current_file)
  unfolding after_write
  after_write_moves_on malloc t s cells failure v =
      lost (IsReady-record cells s false s.world v) refl refl refl
  after_write_moves_on malloc t s cells success v =
      let (s', r, p) = record_file_stores malloc t s cells v in rw r p

  -- From a ready state a call of `populate_and_store_hk_data` returns, whatever the devices, the
  -- file system and the memory do: it uses no freed memory and stays inside the array. It fails
  -- with the ring as it was, or it notes the timestamp of the collected data for the current file
  -- and moves on to the next one. The state is ready again, and the lock is given back.
  pub populate_moves_on :
      (collect : W → AllSystemsHousekeeping × W) (malloc₁ malloc₂ : Option (ℕ → ℕ)) (s : Hk W)
      (cells : ℕ → ℕ)
      → IsReady cells s
      → Returns
          (populate_and_store_hk_data e z fs collect malloc₁ malloc₂ s)
          (Populated cells (collect s.world).0.unix_timestamp s.max_files s.current_file)
  unfolding populate_and_store_hk_data ensure_config
  populate_moves_on collect malloc₁ malloc₂ s cells v =
      let (d, w₁) = collect s.world in
      let d' : AllSystemsHousekeeping = record d { data_position = s.current_file } in
      let (written, w₂) = write_hk_to_file e z fs s.current_file d' w₁ in
      let s₂ : Hk W = record s { config_loaded = true; locked = true; world = w₂ } in
      let v₂ : IsReady cells s₂ = record {
        loaded = refl;
        array_of = v.array_of;
        from_one = v.from_one;
        to_max = v.to_max;
        few = v.few;
      } in
      rw (v.loaded) (after_write_moves_on malloc₂ d.unix_timestamp s₂ cells written v₂)
