-- ===== src/Housekeeping/Operations/Shrink.antt =====
-- `set_max_files`: what it refuses, how it grows the ring, and what becomes of the array when the
-- number of files does not grow.
use ex2_services.Base.{
  ℕ, ◌<◌, ◌≤◌, ◌≡◌, refl, true, false, Option, none, some, arith, if◌then◌else◌, ◌⊎◌,
}
use ex2_services.Csp.Bytes.{Endian}
use ex2_services.Housekeeping.Timestamps.{
  success, failure, done, use_after_free, double_free, dangling, of_size,
}
use ex2_services.Housekeeping.Timestamps.Laws.{grow_keeps, drop_array, free_then_grow_faults}
use ex2_services.Housekeeping.State.{hk_config, hk_data, creat, RedFs, Sizes, Hk}
use ex2_services.Housekeeping.Config.{exists, words, store_array, store_config}
use ex2_services.Housekeeping.Operations.{drop_files, set_max_files, record_file}
use ex2_services.Housekeeping.Operations.Ring.{IsReady}

module _ (e : Endian) (z : Sizes) {W : Type 0} (fs : RedFs W) where
  -- A number of files outside 1 to 20160 is refused, and nothing changes.
  pub set_max_files_refuses :
      (new_max : ℕ) (malloc : Option (ℕ → ℕ)) (s : Hk W)
      → (new_max ≡ 0) ⊎ (20160 < new_max)
      → set_max_files e z fs new_max malloc s ≡ done (failure, s)
  unfolding set_max_files
  set_max_files_refuses new_max malloc s h = ground arith

  -- A larger number of files, with memory at hand, leaves a ready ring ready, with the same current
  -- file. Every file but the last of the old ring keeps its timestamp, and the new ones have none.
  pub set_max_files_grows :
      (new_max : ℕ) (junk cells : ℕ → ℕ) (s : Hk W)
      → IsReady cells s
      → s.max_files < new_max
      → new_max ≤ 20160
      → (new : ℕ → ℕ) × (s' : Hk W) × (set_max_files e z fs new_max (some junk) s
          ≡ done (success, s'))
        × IsReady new s'
        × (s'.max_files ≡ new_max)
        × (s'.current_file ≡ s.current_file)
        × (s'.locked ≡ false)
        × ((i : ℕ) → i < s.max_files → new i ≡ cells i)
        × ((i : ℕ) → s.max_files < i → i ≤ new_max → new i ≡ 0)
  unfolding set_max_files
  set_max_files_grows new_max junk cells s v larger few =
      let (new, grown, kept, fresh) =
        grow_keeps s.max_files new_max cells junk larger (omega arith) in
      (
        new,
        record s { max_files = new_max; array = of_size new_max new; locked = false },
        ground (arith, grown, v.array_of, v.from_one),
        record {
          loaded = v.loaded;
          array_of = refl;
          from_one = v.from_one;
          to_max = ground (arith, v.to_max);
          few = omega arith;
        },
        refl,
        refl,
        refl,
        kept,
        fresh,
      )

  store_dangling :
      (s : Hk W)
      → ((w : W) → (fd : ℕ) × ((fs.open_file hk_config creat w).0 ≡ some fd))
      → store_config e fs true
          (record s { array = record { timestamps = dangling; array_size = 0 } })
        ≡ use_after_free
  unfolding store_config store_array words
  store_dangling s opens =
      let (exist, w₁) = exists fs hk_config s.world in
      let (fd, opened) = opens w₁ in ground (arith, opened)

  -- Where the array is there, the new number of files is not larger, and the configuration file can
  -- be opened, `set_max_files` frees the array and then stores it: it uses freed memory.
  pub set_max_files_faults :
      (new_max size : ℕ) (malloc : Option (ℕ → ℕ)) (cells : ℕ → ℕ) (s : Hk W)
      → s.array ≡ of_size size cells
      → 0 < new_max
      → new_max ≤ s.max_files
      → new_max ≤ 20160
      → ((w : W) → (fd : ℕ) × ((fs.open_file hk_config creat w).0 ≡ some fd))
      → set_max_files e z fs new_max malloc s ≡ use_after_free
  unfolding set_max_files drop_files
  set_max_files_faults new_max size malloc cells s a pos smaller few opens =
      let (exist, w₁) = exists fs hk_data s.world in
      let w₂ : W = if exist then fs.unlink hk_data w₁ else w₁ in
      let s₁ : Hk W = record s {
        max_files = new_max;
        current_file = 1;
        locked = true;
        world = w₂;
      } in
      ground (arith, drop_array size malloc cells, store_dangling s₁ opens)

  store_closed :
      (s : Hk W)
      → ((w : W) → (fs.open_file hk_config creat w).0 ≡ none)
      → (w' : W) × (store_config e fs true s ≡ done (failure, record s { world = w' }))
  unfolding store_config
  store_closed s closed =
      let (exist, w₁) = exists fs hk_config s.world in
      ((fs.open_file hk_config creat w₁).1, ground (arith, closed w₁))

  -- Where the configuration file cannot be opened, the same call reports success, but the next file
  -- that is stored, with memory at hand, frees the array a second time.
  pub set_max_files_then_faults :
      (new_max size t : ℕ) (malloc : Option (ℕ → ℕ)) (cells junk : ℕ → ℕ) (s : Hk W)
      → s.array ≡ of_size size cells
      → 0 < new_max
      → new_max ≤ s.max_files
      → new_max ≤ 20160
      → ((w : W) → (fs.open_file hk_config creat w).0 ≡ none)
      → (s' : Hk W) × (set_max_files e z fs new_max malloc s ≡ done (success, s'))
        × (record_file e z fs (some junk) t s' ≡ double_free)
  unfolding set_max_files drop_files record_file
  set_max_files_then_faults new_max size t malloc cells junk s a pos smaller few closed =
      let (exist, w₁) = exists fs hk_data s.world in
      let w₂ : W = if exist then fs.unlink hk_data w₁ else w₁ in
      let s₁ : Hk W = record s {
        max_files = new_max;
        current_file = 1;
        array = record { timestamps = dangling; array_size = 0 };
        locked = true;
        world = w₂;
      } in
      let (w₃, stored) = store_closed s₁ closed in
      (
        record s₁ { locked = false; world = w₃ },
        ground (arith, drop_array size malloc cells, stored),
        ground (arith, (free_then_grow_faults size new_max cells junk malloc pos).1),
      )
