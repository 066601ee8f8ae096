-- ===== src/Housekeeping/Timestamps/Laws.antt =====
-- What `dynamic_timestamp_array_handler` keeps, loses and breaks.
use ex2_services.Base.{
  ℕ, zero, suc, ◌+◌, ◌-◌, ◌%◌, ◌^◌, ◌<◌, ◌≤◌, ◌≡◌, ◌≢◌, ◌⊎◌, inl, inr, Option, none, some, arith,
  ltb, leb, ◌==◌, ◌&&◌, ◌↔◌, if◌then◌else◌, Bool-cases,
}
use ex2_services.Housekeeping.Timestamps.{
  Result, success, failure, done, double_free, null, dangling, Timestamps, of_size, read_at, clean,
  clean_new, dynamic_timestamp_array_handler,
}

clean_lem :
    (rounds i : ℕ) (cells : ℕ → ℕ) (j : ℕ)
    → clean rounds i cells j ≡ (if leb i j && ltb j (i + rounds) then 0 else cells j)
unfolding clean
clean_lem zero i cells j = ground arith
clean_lem (suc rounds) i cells j =
    ground (arith, clean_lem rounds (i + 1) (λ j. if j == i then 0 else cells j) j)

pub clean_new_lem :
    (size num_items : ℕ) (cells : ℕ → ℕ) (j : ℕ)
    → size < num_items
    → num_items < 65535
    → clean_new size num_items cells j ≡ (if ltb size j && leb j num_items then 0 else cells j)
unfolding clean_new
clean_new_lem size num_items cells j h k =
    ground (arith, clean_lem (num_items + 1 - (size + 1) % 2 ^ 16) ((size + 1) % 2 ^ 16) cells j)

-- Growing an array with memory at hand succeeds: the new one has room for the asked number of
-- items, keeps every item below the old size, and holds 0 from behind the old size on.
pub grow_keeps :
    (size num_items : ℕ) (cells junk : ℕ → ℕ)
    → size < num_items
    → num_items < 65535
    → (new : ℕ → ℕ) × (dynamic_timestamp_array_handler num_items (some junk) (of_size size cells)
        ≡ done (success, of_size num_items new))
      × ((i : ℕ) → i < size → new i ≡ cells i)
      × ((i : ℕ) → size < i → i ≤ num_items → new i ≡ 0)
unfolding dynamic_timestamp_array_handler
grow_keeps size num_items cells junk grows small =
    let moved : ℕ → ℕ = λ i. if ltb i size then cells i else junk i in
    (
      clean_new size num_items moved,
      ground arith,
      λ i h. ground (arith, clean_new_lem size num_items moved i),
      λ i h k. ground (arith, clean_new_lem size num_items moved i),
    )

-- But item `size`, the last of the old array, is not copied, and not cleaned either: behind the
-- growth it is whatever the new memory held.
pub grow_loses_last :
    (size num_items : ℕ) (cells junk : ℕ → ℕ)
    → size < num_items
    → num_items < 65535
    → (s : Timestamps) × (dynamic_timestamp_array_handler num_items (some junk) (of_size size cells)
        ≡ done (success, s))
      × (read_at s.timestamps size ≡ done (junk size))
unfolding dynamic_timestamp_array_handler
grow_loses_last size num_items cells junk grows small =
    let moved : ℕ → ℕ = λ i. if ltb i size then cells i else junk i in
    (
      of_size num_items (clean_new size num_items moved),
      ground arith,
      ground (arith, clean_new_lem size num_items moved size),
    )

-- The first allocation gives an array of zeros.
pub first_allocation :
    (num_items : ℕ) (junk : ℕ → ℕ)
    → 0 < num_items
    → num_items < 65535
    → (new : ℕ → ℕ) × (dynamic_timestamp_array_handler num_items
          (some junk)
          (record { timestamps = null; array_size = 0 })
        ≡ done (success, of_size num_items new))
      × ((i : ℕ) → 0 < i → i ≤ num_items → new i ≡ 0)
unfolding dynamic_timestamp_array_handler
first_allocation num_items junk pos small = (
  clean_new 0 num_items junk,
  ground arith,
  λ i h k. ground (arith, clean_new_lem 0 num_items junk i),
)

-- Without memory, and at the size that it has, a valid array stays as it is.
pub unchanged :
    (num_items : ℕ) (malloc : Option (ℕ → ℕ)) (s : Timestamps)
    → num_items ≢ 0
    → (malloc ≡ none) ⊎ (num_items ≡ s.array_size)
    → (r : Result) × (dynamic_timestamp_array_handler num_items malloc s ≡ done (r, s))
      × ((r ≡ success) ↔ (num_items ≡ s.array_size))
unfolding dynamic_timestamp_array_handler
unchanged num_items malloc s pos (inl none_left) = elim (Bool-cases (num_items == s.array_size)) [
  | inl same ↦ (success, ground arith, ground arith)
  | inr other ↦ (failure, ground arith, ground arith)
]
unchanged num_items malloc s pos (inr same) = (success, ground arith, ground arith)

-- Freeing an array leaves its address in `timestamps`; the next time that it is to hold items, with
-- memory at hand, the handler frees that address again.
pub free_then_grow_faults :
    (size num_items : ℕ) (cells junk : ℕ → ℕ) (malloc : Option (ℕ → ℕ))
    → 0 < num_items
    → (dynamic_timestamp_array_handler 0 malloc (of_size size cells)
        ≡ done (success, record { timestamps = dangling; array_size = 0 }))
      × (dynamic_timestamp_array_handler num_items
            (some junk)
            (record { timestamps = dangling; array_size = 0 })
          ≡ double_free)
unfolding dynamic_timestamp_array_handler
free_then_grow_faults size num_items cells junk malloc pos = (ground arith, ground arith)

pub same_size :
    (num_items : ℕ) (malloc : Option (ℕ → ℕ)) (cells : ℕ → ℕ)
    → 0 < num_items
    → dynamic_timestamp_array_handler num_items malloc (of_size num_items cells)
      ≡ done (success, of_size num_items cells)
unfolding dynamic_timestamp_array_handler
same_size num_items malloc cells pos = ground arith

pub drop_array :
    (size : ℕ) (malloc : Option (ℕ → ℕ)) (cells : ℕ → ℕ)
    → dynamic_timestamp_array_handler 0 malloc (of_size size cells)
      ≡ done (success, record { timestamps = dangling; array_size = 0 })
unfolding dynamic_timestamp_array_handler
drop_array size malloc cells = ground arith
