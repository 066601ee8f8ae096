-- ===== src/Csp/Network.antt =====
-- The conversions of libcsp (csp/csp_endian.h) between the order of the host and that of the
-- network, which is big-endian. The services only call them, so they are parameters; the laws are
-- their documentation, on the bytes that the integers have in memory.
use ex2_services.Base.{ℕ, ◌+◌, ◌/◌, ◌%◌, ◌^◌, ◌<◌, ◌≡◌, ◌∙◌, ap, arith}
use ex2_services.Csp.Bytes.{Endian, little, big, Memory, u16_bytes, u32_bytes, u16_of, u32_of}
use ex2_services.Csp.Convert.{cnv8_32, cnv8_16}

pub record Network (e : Endian) : Type 0 where
  pub ntoh32 : ℕ → ℕ
  pub hton32 : ℕ → ℕ
  pub ntoh16 : ℕ → ℕ
  pub hton16 : ℕ → ℕ
  -- The integer that four network bytes stand for, and back.
  pub ntoh32_lem :
      (a b c d : ℕ)
      → a < 256
      → b < 256
      → c < 256
      → d < 256
      → ntoh32 (u32_of e a b c d) ≡ u32_of big a b c d
  pub hton32_lem :
      (a b c d : ℕ)
      → a < 256
      → b < 256
      → c < 256
      → d < 256
      → hton32 (u32_of big a b c d) ≡ u32_of e a b c d
  pub ntoh16_lem : (a b : ℕ) → a < 256 → b < 256 → ntoh16 (u16_of e a b) ≡ u16_of big a b
  pub hton16_lem : (a b : ℕ) → a < 256 → b < 256 → hton16 (u16_of big a b) ≡ u16_of e a b

-- A byte is below 256; a packet holds bytes.
abbrev pub IsBytes : Memory → Type 0
IsBytes m = (i : ℕ) → m i < 256

module _ {e : Endian} (n : Network e) where
  -- `cnv8_32` and then `csp_ntoh32` read four bytes in network order.
  pub ntoh32-cnv8_32 :
      (m : Memory) (i : ℕ)
      → IsBytes m
      → n.ntoh32 (cnv8_32 e m i) ≡ u32_of big (m i) (m (i + 1)) (m (i + 2)) (m (i + 3))
  unfolding cnv8_32
  ntoh32-cnv8_32 m i h = n.ntoh32_lem _ _ _ _ (h i) (h (i + 1)) (h (i + 2)) (h (i + 3))

  -- `cnv8_16` and then `csp_ntoh16` read two bytes in the order opposite to the network's.
  pub ntoh16-cnv8_16 :
      (m : Memory) (i : ℕ) → IsBytes m → n.ntoh16 (cnv8_16 e m i) ≡ u16_of big (m (i + 1)) (m i)
  unfolding cnv8_16
  ntoh16-cnv8_16 m i h = n.ntoh16_lem _ _ (h (i + 1)) (h i)

  pub hton32-digits :
      (x : ℕ)
      → x < 2 ^ 32
      → n.hton32 x ≡ u32_of e (x / 2 ^ 24 % 256) (x / 2 ^ 16 % 256) (x / 2 ^ 8 % 256) (x % 256)
  hton32-digits x h =
      let digits : x
          ≡ u32_of big (x / 2 ^ 24 % 256) (x / 2 ^ 16 % 256) (x / 2 ^ 8 % 256) (x % 256) =
        omega arith in
      ap n.hton32 digits
      ∙ n.hton32_lem _ _ _ _ (omega arith) (omega arith) (omega arith) (omega arith)

  hton16-digits : (x : ℕ) → x < 2 ^ 16 → n.hton16 x ≡ u16_of e (x / 256 % 256) (x % 256)
  hton16-digits x h =
      let digits : x ≡ u16_of big (x / 256 % 256) (x % 256) = omega arith in
      ap n.hton16 digits ∙ n.hton16_lem _ _ (omega arith) (omega arith)

-- What is stored of `csp_hton32 x` are the big-endian bytes of x.
pub hton32_bytes :
    (e : Endian) (n : Network e) (x : ℕ) → x < 2 ^ 32 → u32_bytes e (n.hton32 x) ≡ u32_bytes big x
hton32_bytes little n x h = ground (arith, hton32-digits n x h)
hton32_bytes big n x h = ground (arith, hton32-digits n x h)

pub hton16_bytes :
    (e : Endian) (n : Network e) (x : ℕ) → x < 2 ^ 16 → u16_bytes e (n.hton16 x) ≡ u16_bytes big x
hton16_bytes little n x h = ground (arith, hton16-digits n x h)
hton16_bytes big n x h = ground (arith, hton16-digits n x h)
