-- ===== src/Housekeeping/Search.antt =====
-- `get_file_id_from_timestamp` of Services/source/housekeeping/housekeeping_service.c: the file
-- whose timestamp lies within 15 seconds of the one asked for, by a leftmost binary search.
pub mod Loop
pub mod Sound
pub mod Found
pub mod Wrapped
use ex2_services.Base.{ℕ, zero, suc, ◌+◌, ◌-◌, ◌/◌, ◌%◌, ◌^◌, ltb, leb, ◌==◌, ◌&&◌, if◌then◌else◌}
use ex2_services.Housekeeping.Timestamps.{
  Run, done, use_after_free, null_pointer, diverges, ◌>>=◌, Pointer, null, block, dangling,
  Timestamps, read_at,
}

-- uint32_t arithmetic.
abbrev pub add32 : ℕ → ℕ → ℕ
add32 a b = (a + b) % 2 ^ 32

abbrev pub sub32 : ℕ → ℕ → ℕ
sub32 a b = (a + 2 ^ 32 - b) % 2 ^ 32

abbrev pub threshold : ℕ
threshold = 15

-- `while (left < right)`; the result is `left`.
unfoldable pub search_loop : Pointer → ℕ → ℕ → ℕ → ℕ → ℕ → Run ℕ
search_loop timestamps timestamp offset zero left right = diverges
search_loop timestamps timestamp offset (suc fuel) left right =
    let middle = add32 left right / 2 in
    let upper = search_loop timestamps timestamp offset fuel (add32 middle 1) right in
    let lower = search_loop timestamps timestamp offset fuel left middle in
    if ltb left right
    then (read_at timestamps (sub32 middle offset) >>= λ at_middle.
        if ltb at_middle timestamp then upper else lower)
    else done left

-- What follows the loop, at `true_position = left - offset`. The file id is a uint16_t.
unfoldable pub neighbours : Timestamps → ℕ → ℕ → Run ℕ
neighbours s timestamp true_position =
    if ltb 1 true_position
    then (read_at s.timestamps (sub32 true_position 1) >>= λ below.
        if leb (sub32 timestamp below) threshold
        then done (sub32 true_position 1 % 2 ^ 16)
        else (read_at s.timestamps true_position >>= λ here.
            if true_position == s.array_size
            then (if ltb here timestamp && leb (sub32 timestamp here) threshold
                then done (true_position % 2 ^ 16)
                else if leb (sub32 here timestamp) threshold
                then done (true_position % 2 ^ 16)
                else done 0)
            else if leb (sub32 here timestamp) threshold
            then done (true_position % 2 ^ 16)
            else done 0))
    else (read_at s.timestamps true_position >>= λ here.
        if leb (sub32 here timestamp) threshold then done (true_position % 2 ^ 16) else done 0)

-- The loop and what follows it; the fuel is one round more than there are items to search.
unfoldable pub search : Timestamps → ℕ → ℕ → ℕ → ℕ → Run ℕ
search s timestamp left right offset =
    search_loop s.timestamps timestamp offset (suc (right - left)) left right >>= λ found.
    neighbours s timestamp (sub32 found offset)

unfoldable pub get_file_id_from_timestamp : Timestamps → ℕ → ℕ → Run ℕ
get_file_id_from_timestamp s current_file timestamp = elim s.timestamps [
  | null ↦ done 0
  | _ ↦ read_at s.timestamps current_file >>= λ at_current.
      if at_current == 0
      then (if current_file == 1 then done 0 else search s timestamp 1 (sub32 current_file 1) 0)
      else search s timestamp current_file (sub32 (add32 current_file s.array_size) 1)
          (sub32 current_file 1)
]
