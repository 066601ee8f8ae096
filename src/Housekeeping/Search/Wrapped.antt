-- ===== src/Housekeeping/Search/Wrapped.antt =====
-- What the search misses just after the storage has gone round: it looks through the array from item 1
-- on, though the oldest file is the current one.
use ex2_services.Base.{
  ℕ, zero, suc, ◌+◌, ◌-◌, ◌/◌, ◌^◌, ◌<◌, ◌≤◌, ◌≡◌, ◌≢◌, arith, ltb, Bool-cases, inl, inr,
}
use ex2_services.Housekeeping.Timestamps.{done, block, of_size}
use ex2_services.Housekeeping.Search.{
  add32, sub32, threshold, search_loop, neighbours, search, get_file_id_from_timestamp,
}

module _ (size : ℕ) (cells : ℕ → ℕ) (timestamp : ℕ) (small : size < 65536) where
  -- Where all items from the second on are earlier, the loop goes up to its upper bound.
  loop_goes_up :
      (fuel left right : ℕ)
      → right - left < fuel
      → left ≤ right
      → right ≤ size + 1
      → 6 ≤ left + right
      → ((j : ℕ) → 2 ≤ j → j ≤ size → cells j < timestamp)
      → search_loop (block (size + 1) cells) timestamp 1 fuel left right ≡ done right
  unfolding search_loop
  loop_goes_up zero left right enough order high far earlier = elim enough [ ]
  loop_goes_up (suc fuel) left right enough order high far earlier =
      elim (Bool-cases (ltb left right)) [
        | inr empty ↦ ground arith
        | inl more ↦
            let middle : ℕ = add32 left right / 2 in
            let position : ℕ = sub32 middle 1 in
            let low : 2 ≤ position = ground arith in
            let inside : position ≤ size = ground arith in
            let below = earlier position low inside in
            let rest =
              loop_goes_up fuel (add32 middle 1) right (ground arith) (ground arith) high
                (ground arith) earlier in
            ground (arith, below, rest)
      ]

module _ (size : ℕ) (cells : ℕ → ℕ) (timestamp : ℕ) (small : size < 65536) (three : 3 ≤ size) where
  -- At the last file, with it and the one before it too early, no file is named.
  neighbours_miss :
      cells size + threshold < timestamp
      → cells (size - 1) + threshold < timestamp
      → timestamp + threshold < 2 ^ 32
      → neighbours (of_size size cells) timestamp size ≡ done 0
  unfolding neighbours
  neighbours_miss last before word = ground arith

-- When file 1 has just been written again, so that the current file is file 2 of at least three and
-- fewer than 65536, and has a timestamp, and all other files are more than 15 seconds older than file
-- 1, a search for the timestamp of file 1, where it is more than 15 below 2 ^ 32, names no file.
pub search_misses_wrapped :
    (size : ℕ) (cells : ℕ → ℕ)
    → 3 ≤ size
    → size < 65536
    → cells 2 ≢ 0
    → cells 1 + threshold < 2 ^ 32
    → ((j : ℕ) → 2 ≤ j → j ≤ size → cells j + threshold < cells 1)
    → get_file_id_from_timestamp (of_size size cells) 2 (cells 1) ≡ done 0
unfolding get_file_id_from_timestamp search
search_misses_wrapped size cells three small written word older =
    let up =
      loop_goes_up size cells (cells 1) small (suc (size + 1 - 2)) 2 (size + 1) (omega arith)
        (omega arith) (omega arith) (omega arith) (λ j lo hi. omega (arith, older j lo hi)) in
    let bound : sub32 (add32 2 size) 1 ≡ size + 1 = omega arith in
    let last = older size (omega arith) (omega arith) in
    let before = older (size - 1) (omega arith) (omega arith) in
    let miss = neighbours_miss size cells (cells 1) small three last before word in
    let position : sub32 (size + 1) 1 ≡ size = omega arith in
    let found : search (of_size size cells) (cells 1) 2 (size + 1) 1 ≡ done 0 =
      rw (up, position) miss in
    rw bound (ground (arith, found))
