-- ===== src/Housekeeping/Search/Loop.antt =====
-- The binary search ends, stays inside the array, and finds the leftmost item that is not below the
-- timestamp.
use ex2_services.Base.{
  ℕ, zero, suc, ◌+◌, ◌-◌, ◌/◌, ◌^◌, ◌<◌, ◌≤◌, ◌≡◌, ltb, arith, Bool-cases, inl, inr,
}
use ex2_services.Housekeeping.Timestamps.{done, block}
use ex2_services.Housekeeping.Search.{add32, sub32, search_loop}

module _ (size : ℕ) (cells : ℕ → ℕ) (timestamp offset : ℕ) (small : size + offset < 2 ^ 31) where
  -- From bounds inside the array the loop ends within as many rounds as there are items left, with
  -- a position between its bounds, and touches nothing outside the array.
  pub search_loop_ends :
      (fuel left right : ℕ)
      → right - left < fuel
      → left ≤ right
      → offset < left
      → right ≤ size + offset
      → (found : ℕ) × (search_loop (block (size + 1) cells) timestamp offset fuel left right
          ≡ done found)
        × (left ≤ found)
        × (found ≤ right)
  unfolding search_loop
  search_loop_ends zero left right enough order low high = elim enough [ ]
  search_loop_ends (suc fuel) left right enough order low high =
      elim (Bool-cases (ltb left right)) [
        | inr empty ↦ (left, rw empty, ground arith, order)
        | inl more ↦
            let middle : ℕ = add32 left right / 2 in
            elim (Bool-cases (ltb (cells (sub32 middle offset)) timestamp)) [
              | inl below ↦
                  let (found, e, lo, hi) =
                    search_loop_ends fuel (add32 middle 1) right (ground arith) (ground arith)
                      (ground arith) high in
                  (found, ground arith, ground arith, hi)
              | inr above ↦
                  let (found, e, lo, hi) =
                    search_loop_ends fuel left middle (ground arith) (ground arith) low
                      (ground arith) in
                  (found, ground arith, lo, ground arith)
            ]
      ]

-- The items from `first` to `last` do not fall.
abbrev pub IsSorted : (ℕ → ℕ) → ℕ → ℕ → Type 0
IsSorted cells first last = (i j : ℕ) → first ≤ i → i ≤ j → j ≤ last → cells i ≤ cells j

module _ (size : ℕ) (cells : ℕ → ℕ) (timestamp last : ℕ) where
  -- On items that do not fall, with no offset, what lies left of the found position is below the
  -- timestamp, and the found item is not, unless the position is the upper bound.
  pub search_loop_leftmost :
      (fuel left right : ℕ) {found : ℕ}
      → size < 2 ^ 31
      → IsSorted cells 1 last
      → 0 < left
      → left ≤ right
      → right ≤ last
      → last ≤ size
      → search_loop (block (size + 1) cells) timestamp 0 fuel left right ≡ done found
      → ((j : ℕ) → left ≤ j → j < found → cells j < timestamp)
        × (found < right → timestamp ≤ cells found)
        × (found ≤ right)
  unfolding search_loop
  search_loop_leftmost zero left right small sorted pos order high fits e = cc
  search_loop_leftmost (suc fuel) left right {found} small sorted pos order high fits e =
      elim (Bool-cases (ltb left right)) [
        | inr empty ↦
            let stop : left ≡ found = ground arith in
            (λ j h k. absurd (omega arith), λ h. ground arith, ground arith)
        | inl more ↦
            let middle : ℕ = add32 left right / 2 in
            elim (Bool-cases (ltb (cells (sub32 middle 0)) timestamp)) [
              | inl below ↦
                  let next : search_loop (block (size + 1) cells) timestamp 0 fuel (add32 middle 1)
                        right
                      ≡ done found =
                    ground arith in
                  let (before, at, hi) =
                    search_loop_leftmost fuel (add32 middle 1) right small sorted (ground arith)
                      (ground arith) high fits next in
                  (λ j h k. ground (arith, before j, sorted j middle), at, hi)
              | inr above ↦
                  let next : search_loop (block (size + 1) cells) timestamp 0 fuel left middle
                      ≡ done found =
                    ground arith in
                  let (before, at, hi) =
                    search_loop_leftmost fuel left middle small sorted pos (ground arith)
                      (ground arith) fits next in
                  (before, λ h. ground arith, ground arith)
            ]
      ]
