-- ===== src/Housekeeping/Search/Sound.antt =====
-- The search is total, stays inside the array, and names no file whose timestamp is far away on the
-- clock of 32 bits.
use ex2_services.Base.{ℕ, suc, ◌+◌, ◌-◌, ◌<◌, ◌≤◌, ◌≡◌, ◌≢◌, arith, ◌⊎◌}
use ex2_services.Housekeeping.Timestamps.{Returns, of_size}
use ex2_services.Housekeeping.Search.{
  sub32, threshold, neighbours, search, get_file_id_from_timestamp,
}
use ex2_services.Housekeeping.Search.Loop.{search_loop_ends}

-- `k` names no file, or one of the `size` files with a timestamp at most 15 seconds from `t`, counted
-- modulo 2 ^ 32.
abbrev pub IsNear : (ℕ → ℕ) → ℕ → ℕ → ℕ → Type 0
IsNear cells size t k =
    k ≢ 0 → (k ≤ size) × ((sub32 t (cells k) ≤ threshold) ⊎ (sub32 (cells k) t ≤ threshold))

module _ (size : ℕ) (cells : ℕ → ℕ) (timestamp : ℕ) (small : size < 65536) where
  neighbours-IsNear :
      (p : ℕ)
      → 0 < p
      → p ≤ size
      → Returns (neighbours (of_size size cells) timestamp p) (IsNear cells size timestamp)
  unfolding neighbours
  neighbours-IsNear p pos high = ground arith

  search-IsNear :
      (left right offset : ℕ)
      → left ≤ right
      → offset < left
      → right ≤ size + offset
      → offset < 65536
      → Returns
          (search (of_size size cells) timestamp left right offset)
          (IsNear cells size timestamp)
  unfolding search
  search-IsNear left right offset order low high few =
      let (found, e, lo, hi) =
        search_loop_ends size cells timestamp offset (omega arith) (suc (right - left)) left right
          (omega arith) order low high in
      rw e (
        let position : sub32 found offset ≡ found - offset = omega arith in
        rw position (neighbours-IsNear (found - offset) (omega arith) (omega arith)))

  -- For an array of fewer than 65536 files and any contents, with the current file among its files,
  -- the search returns: it ends, reads nothing outside the array, and a file that it names is one
  -- of the array's, and its timestamp differs from the one asked for by at most 15 modulo 2 ^ 32.
  -- So from a timestamp within 15 seconds of 0 or of 2 ^ 32 the file named may lie at the other end
  -- of the clock.
  pub get_file_id-IsNear :
      (current_file : ℕ)
      → 0 < current_file
      → current_file ≤ size
      → Returns
          (get_file_id_from_timestamp (of_size size cells) current_file timestamp)
          (IsNear cells size timestamp)
  unfolding get_file_id_from_timestamp
  get_file_id-IsNear current_file pos high = ground (
    arith,
    search-IsNear 1 (current_file - 1) 0,
    search-IsNear current_file (current_file + size - 1) (current_file - 1),
  )
