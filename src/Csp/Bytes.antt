-- ===== src/Csp/Bytes.antt =====
-- Bytes in memory. A byte is a number below 256, an address is a number, and a `w`-bit integer is
-- a number below 2 ^ w that lies in memory in the order of the host.
use ex2_services.Base.{
  ℕ, zero, suc, ◌+◌, ◌*◌, ◌/◌, ◌%◌, ◌^◌, ◌≤◌, ◌<◌, ◌≡◌, refl, ap, ◌∙◌, ◌⊎◌, false, List, [], ◌∷◌,
  arith, ◌==◌, if◌then◌else◌, length, get_or,
}

-- The byte order of the host, which `SYSTEM_ENDIANESS` names for the services.
pub data Endian : Type 0 where
  little big : Endian

abbrev pub Memory : Type 0
Memory = ℕ → ℕ

-- memcpy of the bytes to the address `off`.
unfoldable pub put : ℕ → List ℕ → Memory → Memory
put off [] m i = m i
put off (b ∷ bs) m i = if i == off then b else put (off + 1) bs m i

-- The `n` bytes from the address `off` on.
abbrev pub slice : ℕ → ℕ → Memory → List ℕ
slice off zero m = []
slice off (suc n) m = m off ∷ slice (off + 1) n m

abbrev pub u16_bytes : Endian → ℕ → List ℕ
u16_bytes little x = x % 256 ∷ x / 256 % 256 ∷ []
u16_bytes big x = x / 256 % 256 ∷ x % 256 ∷ []

abbrev pub u32_bytes : Endian → ℕ → List ℕ
u32_bytes little x = x % 256 ∷ x / 2 ^ 8 % 256 ∷ x / 2 ^ 16 % 256 ∷ x / 2 ^ 24 % 256 ∷ []
u32_bytes big x = x / 2 ^ 24 % 256 ∷ x / 2 ^ 16 % 256 ∷ x / 2 ^ 8 % 256 ∷ x % 256 ∷ []

-- The integer whose bytes in memory are those given, lowest address first.
abbrev pub u16_of : Endian → ℕ → ℕ → ℕ
u16_of little a b = a + b * 256
u16_of big a b = a * 256 + b

abbrev pub u32_of : Endian → ℕ → ℕ → ℕ → ℕ → ℕ
u32_of little a b c d = a + b * 2 ^ 8 + c * 2 ^ 16 + d * 2 ^ 24
u32_of big a b c d = a * 2 ^ 24 + b * 2 ^ 16 + c * 2 ^ 8 + d

-- A write is read back byte by byte, and leaves the bytes below it and behind it alone.
pub put_get :
    (off : ℕ) (bs : List ℕ) (m : Memory) (k : ℕ)
    → k < length bs
    → put off bs m (off + k) ≡ get_or bs k 0
unfolding put
put_get off [] m k h = absurd (omega arith)
put_get off (b ∷ bs) m zero h = ground arith
put_get off (b ∷ bs) m (suc k) h =
    let e : off + suc k ≡ off + 1 + k = omega arith in
    let ne : ((off + 1 + k) == off) ≡ false = ground arith in
    rw (e, ne) (put_get (off + 1) bs m k (omega arith))

pub put_head : (off b : ℕ) (bs : List ℕ) (m : Memory) → put off (b ∷ bs) m off ≡ b
unfolding put
put_head off b bs m = ground arith

pub put_outside :
    (off : ℕ) (bs : List ℕ) (m : Memory) (i : ℕ)
    → (i < off) ⊎ (off + length bs ≤ i)
    → put off bs m i ≡ m i
unfolding put
put_outside off [] m i h = refl
put_outside off (b ∷ bs) m i h =
    let ne : (i == off) ≡ false = ground arith in
    rw ne (put_outside (off + 1) bs m i (ground arith))

pub slice_at : (off n k : ℕ) (m : Memory) → k < n → get_or (slice off n m) k 0 ≡ m (off + k)
slice_at off zero k m h = elim h [ ]
slice_at off (suc n) zero m h = ap m (omega arith)
slice_at off (suc n) (suc k) m h = slice_at (off + 1) n k m (omega arith) ∙ ap m (omega arith)

pub length-slice : (off n : ℕ) (m : Memory) → length (slice off n m) ≡ n
length-slice off zero m = refl
length-slice off (suc n) m = ap suc (length-slice (off + 1) n m)

put_behind :
    (off b : ℕ) (bs : List ℕ) (m : Memory) (i : ℕ)
    → off + 1 ≤ i
    → put off (b ∷ bs) m i ≡ put (off + 1) bs m i
unfolding put
put_behind off b bs m i h = ground arith

slice-agree :
    (off n : ℕ) (m m' : Memory) → ((i : ℕ) → off ≤ i → m i ≡ m' i) → slice off n m ≡ slice off n m'
slice-agree off zero m m' same = refl
slice-agree off (suc n) m m' same =
    rw (same off (omega arith))
      (ap (λ l. m' off ∷ l) (slice-agree (off + 1) n m m' (λ i h. same i (omega arith))))

-- The bytes that were written are read back as a whole.
pub slice-put : (off : ℕ) (bs : List ℕ) (m : Memory) → slice off (length bs) (put off bs m) ≡ bs
slice-put off [] m = refl
slice-put off (b ∷ bs) m =
    let behind : slice (off + 1) (length bs) (put off (b ∷ bs) m)
        ≡ slice (off + 1) (length bs) (put (off + 1) bs m) =
      slice-agree (off + 1) (length bs) _ _ (λ i h. put_behind off b bs m i h) in
    rw (put_head off b bs m, behind) (ap (λ l. b ∷ l) (slice-put (off + 1) bs m))

pub put_two :
    (off a b : ℕ) (m : Memory)
    → let m' = put off (a ∷ b ∷ []) m in (m' off ≡ a) × (m' (off + 1) ≡ b)
put_two off a b m = (put_head off a (b ∷ []) m, put_get off (a ∷ b ∷ []) m 1 (omega arith))

pub put_four :
    (off a b c d : ℕ) (m : Memory)
    → let m' = put off (a ∷ b ∷ c ∷ d ∷ []) m in
      (m' off ≡ a) × (m' (off + 1) ≡ b) × (m' (off + 2) ≡ c) × (m' (off + 3) ≡ d)
put_four off a b c d m = (
  put_head off a (b ∷ c ∷ d ∷ []) m,
  put_get off (a ∷ b ∷ c ∷ d ∷ []) m 1 (omega arith),
  put_get off (a ∷ b ∷ c ∷ d ∷ []) m 2 (omega arith),
  put_get off (a ∷ b ∷ c ∷ d ∷ []) m 3 (omega arith),
)

-- An answer of a status byte and 32, or 16, bits behind the subservice byte.
pub slice-status_u32 :
    (e : Endian) (m : Memory) (s x : ℕ)
    → slice 0 6 (put 2 (u32_bytes e x) (put 1 (s ∷ []) m)) ≡ m 0 ∷ s ∷ u32_bytes e x
unfolding put
slice-status_u32 little m s x = refl
slice-status_u32 big m s x = refl

pub slice-status_u16 :
    (e : Endian) (m : Memory) (s x : ℕ)
    → slice 0 4 (put 2 (u16_bytes e x) (put 1 (s ∷ []) m)) ≡ m 0 ∷ s ∷ u16_bytes e x
unfolding put
slice-status_u16 little m s x = refl
slice-status_u16 big m s x = refl
