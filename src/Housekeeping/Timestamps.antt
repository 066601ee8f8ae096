-- ===== src/Housekeeping/Timestamps.antt =====
-- The dynamic array `timestamps` of Services/source/housekeeping/housekeeping_service.c and its
-- handler. The pointer is kept with what it points to, so that each use of freed memory, and each
-- access outside the block, is a fault of the model and not an assumption.
pub mod Laws
use ex2_services.Base.{
  ◌≡◌, refl, arith, ℕ, zero, suc, ◌+◌, ◌-◌, ◌%◌, ◌^◌, Option, none, some, ltb, leb, ◌==◌,
  if◌then◌else◌,
}

-- `Result` of housekeeping_service.h.
pub data Result : Type 0 where
  success failure : Result

-- What a call can do besides return: use freed or foreign memory, or never end.
pub data Run {ℓ} (A : Type ℓ) : Type ℓ where
  done : A → Run A
  use_after_free double_free out_of_bounds null_pointer diverges : Run A

infixl 5 ◌>>=◌
abbrev pub ◌>>=◌ {ℓ κ} : {A : Type ℓ} {B : Type κ} → Run A → (A → Run B) → Run B
done a >>= f = f a
use_after_free >>= f = use_after_free
double_free >>= f = double_free
out_of_bounds >>= f = out_of_bounds
null_pointer >>= f = null_pointer
diverges >>= f = diverges

-- The run ends normally, with a result that satisfies `P`.
abbrev pub Returns {ℓ} : {A : Type ℓ} → Run A → (A → Type 0) → Type 0
Returns (done a) P = P a
Returns _ P = ⊥

-- What holds of a result holds on with what follows from it, and through `>>=`.
pub Returns_map {ℓ} :
    {A : Type ℓ} (r : Run A) (P Q : A → Type 0) → Returns r P → ((a : A) → P a → Q a) → Returns r Q
Returns_map (done a) P Q h k = k a h
Returns_map use_after_free P Q h k = absurd h
Returns_map double_free P Q h k = absurd h
Returns_map out_of_bounds P Q h k = absurd h
Returns_map null_pointer P Q h k = absurd h
Returns_map diverges P Q h k = absurd h

pub Returns_bind {ℓ κ} :
    {A : Type ℓ} {B : Type κ} (r : Run A) (f : A → Run B) (P : A → Type 0) (Q : B → Type 0)
    → Returns r P
    → ((a : A) → P a → Returns (f a) Q)
    → Returns (r >>= f) Q
Returns_bind (done a) f P Q h k = k a h
Returns_bind use_after_free f P Q h k = absurd h
Returns_bind double_free f P Q h k = absurd h
Returns_bind out_of_bounds f P Q h k = absurd h
Returns_bind null_pointer f P Q h k = absurd h
Returns_bind diverges f P Q h k = absurd h

-- A result of `>>=` comes of one of what stands before it.
pub done_of-bind {ℓ κ} :
    {A : Type ℓ} {B : Type κ} (r : Run A) (f : A → Run B) (b : B)
    → (r >>= f) ≡ done b
    → (a : A) × (r ≡ done a) × (f a ≡ done b)
done_of-bind (done a) f b h = (a, refl, h)
done_of-bind use_after_free f b h = absurd (ground arith)
done_of-bind double_free f b h = absurd (ground arith)
done_of-bind out_of_bounds f b h = absurd (ground arith)
done_of-bind null_pointer f b h = absurd (ground arith)
done_of-bind diverges f b h = absurd (ground arith)

-- The pointer: NULL, a block of `items` words, or the address of a block that was freed.
pub data Pointer : Type 0 where
  null : Pointer
  block : (items : ℕ) → (ℕ → ℕ) → Pointer
  dangling : Pointer

-- `timestamps` and `hk_timestamp_array_size`.
pub record Timestamps : Type 0 where
  pub timestamps : Pointer
  pub array_size : ℕ

-- An array of `size` items is a block of one more word: item 0 is not used.
abbrev pub of_size : ℕ → (ℕ → ℕ) → Timestamps
of_size size cells = record { timestamps = block (size + 1) cells; array_size = size }

-- `timestamps[i]`.
abbrev pub read_at : Pointer → ℕ → Run ℕ
read_at null i = null_pointer
read_at (block items cells) i = if ltb i items then done (cells i) else out_of_bounds
read_at dangling i = use_after_free

-- `timestamps[i] = v`.
abbrev pub write_at : Pointer → ℕ → ℕ → Run Pointer
write_at null i v = null_pointer
write_at (block items cells) i v =
    if ltb i items then done (block items (λ j. if j == i then v else cells j)) else out_of_bounds
write_at dangling i v = use_after_free

-- `vPortFree(timestamps)`: the variable keeps its value, which now dangles.
abbrev pub free : Pointer → Run Pointer
free null = done null
free (block items cells) = done dangling
free dangling = double_free

-- `memcpy(tmp, timestamps, sizeof(*timestamps) * size)` into a block that holds `junk`.
abbrev pub copy : Pointer → ℕ → (ℕ → ℕ) → Run (ℕ → ℕ)
copy null size junk = null_pointer
copy (block items cells) size junk =
    if leb size items then done (λ i. if ltb i size then cells i else junk i) else out_of_bounds
copy dangling size junk = if size == 0 then done junk else use_after_free

-- `if (timestamps != NULL && hk_timestamp_array_size < num_items) { memcpy; vPortFree }`: what the
-- new block holds behind it.
unfoldable pub move : Timestamps → ℕ → (ℕ → ℕ) → Run (ℕ → ℕ)
move s num_items junk = elim s.timestamps [
  | null ↦ done junk
  | block items cells ↦
      if ltb s.array_size num_items then copy (block items cells) s.array_size junk else done junk
  | dangling ↦
      if ltb s.array_size num_items
      then (copy dangling s.array_size junk >>= λ cells. free dangling >>= λ _. done cells)
      else done junk
]

-- `for (i = size + 1; i <= num_items; i++) timestamps[i] = 0`, its rounds counted.
unfoldable pub clean : ℕ → ℕ → (ℕ → ℕ) → ℕ → ℕ
clean zero i cells = cells
clean (suc rounds) i cells = clean rounds (i + 1) (λ j. if j == i then 0 else cells j)

-- The counter is a uint16_t: it starts at 0 where the size is 65535.
unfoldable pub clean_new : ℕ → ℕ → (ℕ → ℕ) → ℕ → ℕ
unfolding clean
clean_new size num_items = let first = (size + 1) % 2 ^ 16 in clean (num_items + 1 - first) first

-- `dynamic_timestamp_array_handler`. `malloc` is what `pvPortMalloc` gives: nothing, or a block
-- that holds anything. At 65535 the counter of
-- the cleaning loop, a uint16_t, never passes the bound.
unfoldable pub dynamic_timestamp_array_handler :
    ℕ → Option (ℕ → ℕ) → Timestamps → Run (Result × Timestamps)
unfolding move
dynamic_timestamp_array_handler num_items malloc s =
    if num_items == 0
    then (free s.timestamps >>= λ p. done (success, record s { timestamps = p; array_size = 0 }))
    else if num_items == s.array_size
    then done (success, s)
    else elim malloc [
      | none ↦ done (failure, s)
      | some junk ↦ move s num_items junk >>= λ cells.
          if num_items == 65535
          then diverges
          else done (
            success,
            record s {
              timestamps = block (num_items + 1) (clean_new s.array_size num_items cells);
              array_size = num_items;
            },
          )
    ]
