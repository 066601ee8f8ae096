-- ===== src/Housekeeping/Search/Found.antt =====
-- Which timestamps the search finds before the storage has gone round, and which it misses there.
use ex2_services.Base.{ℕ, suc, ◌+◌, ◌-◌, ◌^◌, ◌<◌, ◌≤◌, ◌≡◌, arith}
use ex2_services.Housekeeping.Timestamps.{done, Returns, of_size, Timestamps}
use ex2_services.Housekeeping.Search.{threshold, neighbours, search, get_file_id_from_timestamp}
use ex2_services.Housekeeping.Search.Loop.{IsSorted, search_loop_ends, search_loop_leftmost}

-- The array before the storage has gone round: files 1 to `current_file` - 1 are written, with
-- timestamps that do not fall, and the current file is not.
pub record IsFilling (size current_file : ℕ) (cells : ℕ → ℕ) : Type 0 where
  pub some_file : 1 < current_file
  pub in_array : current_file ≤ size
  pub few : size < 65536
  pub fresh : cells current_file ≡ 0
  pub sorted : IsSorted cells 1 (current_file - 1)
  pub words : (i : ℕ) → cells i < 2 ^ 32

-- Where the search arrives before the storage has gone round.
record Arrives (s : Timestamps) (cells : ℕ → ℕ) (current_file timestamp found : ℕ) : Type 0 where
  result : get_file_id_from_timestamp s current_file timestamp ≡ neighbours s timestamp found
  positive : 0 < found
  written : found < current_file
  before : (j : ℕ) → 0 < j → j < found → cells j < timestamp
  at : found < current_file - 1 → timestamp ≤ cells found

module _ (size current_file timestamp : ℕ) (cells : ℕ → ℕ)
    (f : IsFilling size current_file cells) where
  arrives : (found : ℕ) × Arrives (of_size size cells) cells current_file timestamp found
  unfolding get_file_id_from_timestamp search
  arrives =
      let last : ℕ = current_file - 1 in
      let pos : 1 ≤ last = ground (arith, f.some_file) in
      let fits : last ≤ size = ground (arith, f.in_array) in
      let small : size < 2 ^ 31 = ground (arith, f.few) in
      let (found, e, lo, hi) =
        search_loop_ends size cells timestamp 0 (omega arith) (suc (last - 1)) 1 last (omega arith)
          pos (omega arith) (omega arith) in
      let (before, at, _) =
        search_loop_leftmost size cells timestamp last (suc (last - 1)) 1 last small f.sorted
          (omega arith) pos (omega arith) fits e in
      (
        found,
        record {
          result = ground (arith, f.fresh, f.some_file, f.in_array, f.few);
          positive = lo;
          written = omega arith;
          before = before;
          at = at;
        },
      )

  module _ (word : timestamp < 2 ^ 32) where
    -- Before the storage of fewer than 65536 files has gone round, with timestamps that do not fall
    -- from file 1 to the one before the current file: where some file has this timestamp, or one up
    -- to 15 seconds later, the search names a file that is written, and whose timestamp is at most
    -- 15 seconds earlier or later than the one asked for.
    pub search_finds :
        (i : ℕ)
        → 0 < i
        → i < current_file
        → timestamp ≤ cells i
        → cells i ≤ timestamp + threshold
        → Returns (get_file_id_from_timestamp (of_size size cells) current_file timestamp) (λ k.
          (0 < k)
          × (k < current_file)
          × (timestamp ≤ cells k + threshold)
          × (cells k ≤ timestamp + threshold))
    unfolding neighbours
    search_finds i pos written low high =
        let (p, a) = arrives in
        rw a.result (
          let reaches : (p ≤ i) × (timestamp ≤ cells p) = ground (arith, a.before i, a.at) in
          ground (
            arith,
            f.sorted p i,
            f.in_array,
            f.few,
            f.words p,
            f.words (p - 1),
            a.before (p - 1),
            a.positive,
            a.written,
          ))

    -- But the newest of two or more files is missed by a timestamp that is later than its own by at
    -- most 15 seconds, if the file before it is more than 15 seconds earlier than that timestamp:
    -- the search then names no file.
    pub search_misses_newest :
        2 < current_file
        → cells (current_file - 1) < timestamp
        → timestamp ≤ cells (current_file - 1) + threshold
        → cells (current_file - 2) + threshold < timestamp
        → get_file_id_from_timestamp (of_size size cells) current_file timestamp ≡ done 0
    unfolding neighbours
    search_misses_newest two later near far =
        let (p, a) = arrives in
        rw a.result (
          let last : p ≡ current_file - 1 =
            ground (arith, a.at, a.written, a.positive, f.sorted p (current_file - 1)) in
          rw last (ground (arith, f.in_array, f.few, f.words (current_file - 2))))
