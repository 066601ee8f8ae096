-- ===== src/Csp/Convert.antt =====
-- The conversions of Services/source/util/service_utilities.c over the union `_cnv` of
-- Services/include/services.h, and the network conversions of libcsp (csp/csp_endian.h), which the
-- services only call.
use ex2_services.Base.{ℕ, ◌+◌, ◌*◌, ◌/◌, ◌%◌, ◌^◌, ◌<◌, ◌≡◌, List, [], ◌∷◌, arith}
use ex2_services.Csp.Bytes.{
  Endian, little, big, Memory, put, put_two, put_four, u16_bytes, u32_bytes, u16_of, u32_of,
}

-- `cnv32_8`, `cnv16_8` and `cnvF_8` store the bytes of the union in the order of the host. A float
-- is its pattern of 32 bits.
unfoldable pub cnv32_8 : Endian → ℕ → List ℕ
cnv32_8 e from = u32_bytes e from

unfoldable pub cnv16_8 : Endian → ℕ → List ℕ
cnv16_8 e from = u16_bytes e from

unfoldable pub cnv_f_8 : Endian → ℕ → List ℕ
cnv_f_8 e from = u32_bytes e from

-- `cnv8_32`, `cnv8_F` and `cnv8_16LE` read at `from` in the order of the host.
unfoldable pub cnv8_32 : Endian → Memory → ℕ → ℕ
cnv8_32 e m from = u32_of e (m from) (m (from + 1)) (m (from + 2)) (m (from + 3))

unfoldable pub cnv8_f : Endian → Memory → ℕ → ℕ
cnv8_f e m from = u32_of e (m from) (m (from + 1)) (m (from + 2)) (m (from + 3))

unfoldable pub cnv8_16LE : Endian → Memory → ℕ → ℕ
cnv8_16LE e m from = u16_of e (m from) (m (from + 1))

-- `cnv8_16` puts from[0] into the second byte of the union and from[1] into the first.
unfoldable pub cnv8_16 : Endian → Memory → ℕ → ℕ
cnv8_16 e m from = u16_of e (m (from + 1)) (m from)

-- `cnvD_8` and `cnv8_D`: a double is its pattern of 64 bits.
abbrev pub u64_bytes : Endian → ℕ → List ℕ
u64_bytes little x =
    x % 256
    ∷ x / 2 ^ 8 % 256
    ∷ x / 2 ^ 16 % 256
    ∷ x / 2 ^ 24 % 256
    ∷ x / 2 ^ 32 % 256
    ∷ x / 2 ^ 40 % 256
    ∷ x / 2 ^ 48 % 256
    ∷ x / 2 ^ 56 % 256
    ∷ []
u64_bytes big x =
    x / 2 ^ 56 % 256
    ∷ x / 2 ^ 48 % 256
    ∷ x / 2 ^ 40 % 256
    ∷ x / 2 ^ 32 % 256
    ∷ x / 2 ^ 24 % 256
    ∷ x / 2 ^ 16 % 256
    ∷ x / 2 ^ 8 % 256
    ∷ x % 256
    ∷ []

abbrev pub u64_of : Endian → Memory → ℕ → ℕ
u64_of little m i =
    m i
    + m (i + 1) * 2 ^ 8
    + m (i + 2) * 2 ^ 16
    + m (i + 3) * 2 ^ 24
    + m (i + 4) * 2 ^ 32
    + m (i + 5) * 2 ^ 40
    + m (i + 6) * 2 ^ 48
    + m (i + 7) * 2 ^ 56
u64_of big m i =
    m i * 2 ^ 56
    + m (i + 1) * 2 ^ 48
    + m (i + 2) * 2 ^ 40
    + m (i + 3) * 2 ^ 32
    + m (i + 4) * 2 ^ 24
    + m (i + 5) * 2 ^ 16
    + m (i + 6) * 2 ^ 8
    + m (i + 7)

unfoldable pub cnv_d_8 : Endian → ℕ → List ℕ
cnv_d_8 e from = u64_bytes e from

unfoldable pub cnv8_d : Endian → Memory → ℕ → ℕ
cnv8_d e m from = u64_of e m from

-- `htons` and `ntohs`. The two halves share no bit, so `|=` adds them.
unfoldable pub htons : Endian → ℕ → ℕ
htons little x = x / 256 % 256 + x % 256 * 256
htons big x = x

unfoldable pub ntohs : Endian → ℕ → ℕ
ntohs e x = htons e x

-- The four bytes of a 32-bit integer in memory give it back.
pub u32_of-put :
    (e : Endian) (m : Memory) (to x : ℕ)
    → x < 2 ^ 32
    → let m' = put to (u32_bytes e x) m in
      u32_of e (m' to) (m' (to + 1)) (m' (to + 2)) (m' (to + 3)) ≡ x
u32_of-put little m to x h =
    omega (arith, put_four to (x % 256) (x / 2 ^ 8 % 256) (x / 2 ^ 16 % 256) (x / 2 ^ 24 % 256) m)
u32_of-put big m to x h =
    omega (arith, put_four to (x / 2 ^ 24 % 256) (x / 2 ^ 16 % 256) (x / 2 ^ 8 % 256) (x % 256) m)

-- On a host of either order `cnv8_32`, `cnv8_F` and `cnv8_16LE` read back what `cnv32_8`, `cnv_f_8`
-- and `cnv16_8` wrote, and `cnv8_16` reads the 16 bits of `cnv16_8` with their bytes swapped.
pub cnv_round_trip :
    (e : Endian) (m : Memory) (to x y : ℕ)
    → x < 2 ^ 32
    → y < 2 ^ 16
    → (cnv8_32 e (put to (cnv32_8 e x) m) to ≡ x)
      × (cnv8_f e (put to (cnv_f_8 e x) m) to ≡ x)
      × (cnv8_16LE e (put to (cnv16_8 e y) m) to ≡ y)
      × (cnv8_16 e (put to (cnv16_8 e y) m) to ≡ htons little y)
unfolding cnv8_32 cnv32_8 cnv8_f cnv_f_8 cnv8_16LE cnv16_8 cnv8_16 htons
cnv_round_trip little m to x y hx hy = (
  u32_of-put little m to x hx,
  u32_of-put little m to x hx,
  omega (arith, put_two to (y % 256) (y / 256 % 256) m),
  omega (arith, put_two to (y % 256) (y / 256 % 256) m),
)
cnv_round_trip big m to x y hx hy = (
  u32_of-put big m to x hx,
  u32_of-put big m to x hx,
  omega (arith, put_two to (y / 256 % 256) (y % 256) m),
  omega (arith, put_two to (y / 256 % 256) (y % 256) m),
)

-- `htons` leaves in memory the big-endian bytes of its argument, and `ntohs` undoes it.
pub htons_lem :
    (e : Endian) (x : ℕ)
    → x < 2 ^ 16
    → (u16_bytes e (htons e x) ≡ u16_bytes big x) × (ntohs e (htons e x) ≡ x)
unfolding htons ntohs
htons_lem little x h = ground arith
htons_lem big x h = ground arith
