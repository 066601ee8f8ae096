-- ===== src/Housekeeping/Config/Store.antt =====
-- `store_config` on an array that is there: no fault, and nothing changes but the world.
use ex2_services.Base.{
  ℕ, zero, suc, ◌+◌, ◌*◌, ◌≤◌, ◌≡◌, refl, Bool, true, false, some, List, [], ◌++◌, arith,
  Option-cases, inl, inr, ◌||◌, not,
}
use ex2_services.Csp.Bytes.{Endian, u16_bytes, u32_bytes}
use ex2_services.Housekeeping.Timestamps.{Result, success, failure, done, block, of_size}
use ex2_services.Housekeeping.State.{hk_config, creat, RedFs, Hk}
use ex2_services.Housekeeping.Config.{exists, words, store_array, store_config}

words_returns :
    (e : Endian) (size : ℕ) (cells : ℕ → ℕ) (count i : ℕ)
    → i + count ≤ size + 1
    → (bytes : List ℕ) × (words e (block (size + 1) cells) count i ≡ done bytes)
unfolding words
words_returns e size cells zero i fits = ([], refl)
words_returns e size cells (suc count) i fits =
    let (bytes, r) = words_returns e size cells count (i + 1) (omega arith) in
    (u32_bytes e (cells i) ++ bytes, ground arith)

module _ (e : Endian) {W : Type 0} (fs : RedFs W) where
  store_array_returns :
      (all : Bool) (fd : ℕ) (s : Hk W) (size : ℕ) (cells : ℕ → ℕ)
      → s.array ≡ of_size size cells
      → s.current_file ≤ size
      → (w : W) × (store_array e fs all fd s ≡ done w)
  unfolding store_array
  store_array_returns true fd s size cells a high =
      let (bytes, r) = words_returns e size cells (size + 1) 0 (omega arith) in
      (fs.write_file fd bytes s.world, ground (arith, r))
  store_array_returns false fd s size cells a high =
      let (bytes, r) = words_returns e size cells 1 s.current_file (omega arith) in
      (fs.write_file fd bytes (fs.seek_cur fd (s.current_file * 4) s.world), ground (arith, r))

  pub store_config_returns :
      (rewrite_all : Bool) (s : Hk W) (size : ℕ) (cells : ℕ → ℕ)
      → s.array ≡ of_size size cells
      → s.current_file ≤ size
      → (r : Result) × (w : W) × (store_config e fs rewrite_all s
          ≡ done (r, record s { world = w }))
  unfolding store_config
  store_config_returns rewrite_all s size cells a high =
      let (exist, w₁) = exists fs hk_config s.world in
      let (fout, w₂) = fs.open_file hk_config creat w₁ in
      elim (Option-cases fout) [
        | inl closed ↦ (failure, w₂, ground arith)
        | inr (fd, opened) ↦
            let w₃ = fs.write_file fd (u32_bytes e s.temp_time) (
              fs.write_file fd (u16_bytes e s.current_file)
                (fs.write_file fd (u16_bytes e s.max_files) w₂)) in
            let (w₄, r) =
              store_array_returns (not exist || rewrite_all) fd (record s { world = w₃ }) size cells
                a high in
            (success, fs.close_file (some fd) w₄, ground (arith, r))
      ]
