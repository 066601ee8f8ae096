-- ===== src/Housekeeping/Storage/Posix.antt =====
-- What Reliance Edge says of the data file, as far as the records rely on it: the laws that
-- `write_hk_to_file` and `read_hk_from_file` of
-- Services/source/housekeeping/housekeeping_service.c are proved under.
use ex2_services.Base.{ℕ, ◌+◌, ◌≤◌, ◌<◌, ◌≡◌, true, Option, some, List, length}
use ex2_services.Csp.Bytes.{Memory, put, slice}
use ex2_services.Housekeeping.State.{hk_data, Flags, creat_excl, RedFs}

-- The data file has contents and a size, of which an absent file has 0, and a descriptor that is
-- open on it has a position. `red_errno` stays set until the program clears it.
pub record Posix {W : Type 0} (fs : RedFs W) : Type 0 where
  pub contents : W → Memory
  pub size : W → ℕ
  pub position : W → ℕ → Option ℕ
  pub open_position :
      (flags : Flags) (w w' : W) (fd : ℕ)
      → fs.open_file hk_data flags w ≡ (some fd, w')
      → position w' fd ≡ some 0
  pub open_contents :
      (flags : Flags) (w : W)
      → (contents (fs.open_file hk_data flags w).1 ≡ contents w)
        × (size (fs.open_file hk_data flags w).1 ≡ size w)
  -- An exclusive creation of a file that is there fails.
  pub open_present :
      (w : W)
      → 0 < size w
      → fs.is_eexist (fs.open_file hk_data creat_excl (fs.clear_errno w)).1 ≡ true
  pub clear_contents :
      (w : W)
      → (contents (fs.clear_errno w) ≡ contents w)
        × (size (fs.clear_errno w) ≡ size w)
        × (position (fs.clear_errno w) ≡ position w)
  pub close_contents :
      (fd : Option ℕ) (w : W)
      → (contents (fs.close_file fd w) ≡ contents w) × (size (fs.close_file fd w) ≡ size w)
  pub seek_contents :
      (fd n : ℕ) (w : W)
      → (contents (fs.seek_set fd n w) ≡ contents w) × (size (fs.seek_set fd n w) ≡ size w)
  pub seek_position :
      (fd n p : ℕ) (w : W) → position w fd ≡ some p → position (fs.seek_set fd n w) fd ≡ some n
  -- The number of bytes that a write reports, which may be less than was asked for without an error.
  pub written : ℕ → List ℕ → W → ℕ
  pub write_no_error :
      (fd : ℕ) (bs : List ℕ) (w : W)
      → fs.no_error (fs.write_file fd bs w) ≡ true
      → fs.no_error w ≡ true
  -- A write that sets no error and reports all its bytes puts them where the descriptor stands, and
  -- moves it behind them.
  pub write_contents :
      (fd p : ℕ) (bs : List ℕ) (w : W)
      → position w fd ≡ some p
      → fs.no_error (fs.write_file fd bs w) ≡ true
      → written fd bs w ≡ length bs
      → let w' = fs.write_file fd bs w in
        (contents w' ≡ put p bs (contents w))
        × (position w' fd ≡ some (p + length bs))
        × (size w ≤ size w')
        × (p + length bs ≤ size w')
  -- A read inside the file that sets no error gives the bytes where the descriptor stands.
  pub read_no_error :
      (fd n : ℕ) (w : W) → fs.no_error (fs.read_file fd n w).1 ≡ true → fs.no_error w ≡ true
  pub read_contents :
      (fd n p : ℕ) (w : W)
      → position w fd ≡ some p
      → p + n ≤ size w
      → fs.no_error (fs.read_file fd n w).1 ≡ true
      → let (bytes, w') = fs.read_file fd n w in
        (bytes ≡ slice p n (contents w))
        × (position w' fd ≡ some (p + n))
        × (contents w' ≡ contents w)
        × (size w' ≡ size w)
