-- ===== src/Housekeeping/Storage/RoundTrip.antt =====
-- Records of the data file that are written and read back.
use ex2_services.Base.{
  ℕ, ◌+◌, ◌*◌, ◌-◌, ◌^◌, ◌≤◌, ◌<◌, ◌≡◌, ◌∙◌, refl, sym, ap, subst₂, ◌⊎◌, inl, inr, arith, Bool,
  true, not, Option, none, some, List, [], ◌∷◌, map, length, length-append, if◌then◌else◌,
}
use ex2_services.Csp.Bytes.{Endian}
use ex2_services.Housekeeping.Timestamps.{Result, success, failure}
use ex2_services.Housekeeping.State.{
  hk_data, creat, creat_excl, rdonly, RedFs, AllSystemsHousekeeping, Sizes, timeorder_size,
}
use ex2_services.Housekeeping.Config.{exists}
use ex2_services.Housekeeping.Storage.{
  get_size_of_housekeeping, offset, write_all, write_hk_to_file, read_all, read_hk_from_file,
}
use ex2_services.Housekeeping.Storage.Posix.{Posix}
use ex2_services.Housekeeping.Storage.Parts.{
  Holds, Grew, NoneShort, joined, write_parts, read_parts, write_parts-Wrote, read_parts_back,
}
use ex2_services.Housekeeping.Storage.Record.{
  sizes_of, map-length-parts_of, rebuilt, rebuilt_back, read_all_parts, Fits, parts_of,
}

total : List ℕ → ℕ
total [] = 0
total (n ∷ ns) = n + total ns

length-joined : (parts : List (List ℕ)) → length (joined parts) ≡ total (map length parts)
unfolding joined total
length-joined [] = refl
length-joined (part ∷ parts) =
    length-append part (joined parts) ∙ ap (λ n. length part + n) (length-joined parts)

places_apart : (i j size : ℕ) → i < j → i * size + size ≤ j * size
places_apart i j size h = grind arith

success_of : (b : Bool) → (if b then success else failure) ≡ success → b ≡ true
success_of b good = ground arith

module _ (e : Endian) (z : Sizes) {W : Type 0} (fs : RedFs W) (posix : Posix fs) where
  -- Behind `red_open`, in the file.
  finish_write : ℕ → AllSystemsHousekeeping → Option ℕ × W → Result × W
  finish_write i d opened =
      let (fout, w₁) = opened in
      elim fout [
        | none ↦ (failure, w₁)
        | some fd ↦
            let w₂ = fs.clear_errno (fs.seek_set fd (offset e z fs i) w₁) in
            let w₃ = write_all e z fs fd d w₂ in
            (if fs.no_error w₃ then success else failure, fs.close_file (some fd) w₃)
      ]

  -- The record stands in the file, from its place on, and the rest of the file is as before.
  pub record Stored (i : ℕ) (d : AllSystemsHousekeeping) (w w' : W) : Type 0 where
    pub grown :
        Grew (posix.contents w) (posix.contents w') (offset e z fs i) (joined (parts_of e d))
    pub inside : offset e z fs i + length (joined (parts_of e d)) ≤ posix.size w'

  -- While the record is written, no write is short: each reports all the bytes of its struct.
  unfoldable pub AllWritten : ℕ → AllSystemsHousekeeping → W → Type 0
  AllWritten i d w =
      (fd : ℕ) (w₁ : W)
      → fs.open_file hk_data creat w ≡ (some fd, w₁)
      → NoneShort fs posix fd (parts_of e d) (fs.clear_errno (fs.seek_set fd (offset e z fs i) w₁))

  part_long : (d : AllSystemsHousekeeping) → 0 < length (joined (parts_of e d))
  unfolding joined
  part_long d = omega arith

  placed :
      (i : ℕ) (d : AllSystemsHousekeeping) (w : W) (p : Option ℕ × W)
      → fs.open_file hk_data creat w ≡ p
      → AllWritten i d w
      → (finish_write i d p).0 ≡ success
      → Stored i d w (finish_write i d p).1
  unfolding finish_write write_all write_parts AllWritten
  placed i d w (none, w₁) opened whole good = absurd (ground arith)
  placed i d w (some fd, w₁) opened whole good =
      let off : ℕ = offset e z fs i in
      let w₂ : W = fs.seek_set fd off w₁ in
      let w₃ : W = fs.clear_errno w₂ in
      let w₄ : W = write_parts fs fd (parts_of e d) w₃ in
      let at₁ = posix.open_position creat w w₁ fd opened in
      let at₂ = posix.seek_position fd off 0 w₁ at₁ in
      let cleared = posix.clear_contents w₂ in
      let at₃ : posix.position w₃ fd ≡ some off = ap (λ f. f fd) cleared.2 ∙ at₂ in
      let clean : fs.no_error w₄ ≡ true = success_of _ good in
      let before : posix.contents w₃ ≡ posix.contents w =
        cleared.0
        ∙ (posix.seek_contents fd off w₁).0
        ∙ ap (λ q. posix.contents q.1) (sym opened)
        ∙ (posix.open_contents creat w).0 in
      let closed = posix.close_contents (some fd) w₄ in
      let wrote =
        write_parts-Wrote fs posix fd off (parts_of e d) w₃ at₃ (whole fd w₁ opened) clean in
      record {
        grown =
            subst₂ (λ m m'. Grew m m' off (joined (parts_of e d))) before (sym closed.0) wrote.grew;
        inside = rw closed.1 (ground (arith, wrote.reaches, part_long d));
      }

  pub write_hk-Stored :
      (i : ℕ) (d : AllSystemsHousekeeping) (w : W)
      → AllWritten i d w
      → (write_hk_to_file e z fs i d w).0 ≡ success
      → Stored i d w (write_hk_to_file e z fs i d w).1
  unfolding write_hk_to_file finish_write
  write_hk-Stored i d w whole good = placed i d w (fs.open_file hk_data creat w) refl whole good

  finish_read : ℕ → AllSystemsHousekeeping → Option ℕ × W → Result × AllSystemsHousekeeping × W
  finish_read i d opened =
      let (fin, w₁) = opened in
      elim fin [
        | none ↦ (failure, d, w₁)
        | some fd ↦
            let w₂ = fs.clear_errno (fs.seek_set fd (offset e z fs i) w₁) in
            let (d', w₃) = read_all e z fs fd d w₂ in
            (if fs.no_error w₃ then success else failure, d', fs.close_file (some fd) w₃)
      ]

  -- Behind `exists`.
  finish_exists : ℕ → AllSystemsHousekeeping → Bool × W → Result × AllSystemsHousekeeping × W
  unfolding finish_read
  finish_exists i d found =
      let (exist, w₁) = found in
      if not exist then (failure, d, w₁) else finish_read i d (fs.open_file hk_data rdonly w₁)

  exists_present :
      (w : W)
      → 0 < posix.size w
      → exists fs hk_data w ≡ (true, (fs.open_file hk_data creat_excl (fs.clear_errno w)).1)
  unfolding exists
  exists_present w there = rw (posix.open_present w there) refl

  -- A read of a file that is there goes on to open it.
  read_present :
      (i : ℕ) (d : AllSystemsHousekeeping) (w : W)
      → 0 < posix.size w
      → let w₁ = (fs.open_file hk_data creat_excl (fs.clear_errno w)).1 in
        read_hk_from_file e z fs i d w ≡ finish_read i d (fs.open_file hk_data rdonly w₁)
  unfolding read_hk_from_file finish_exists finish_read
  read_present i d w there = ap (finish_exists i d) (exists_present w there)

  fetched :
      (i : ℕ) (d d₀ : AllSystemsHousekeeping) (w : W) (p : Option ℕ × W)
      → Fits z d
      → Fits z d₀
      → fs.open_file hk_data rdonly w ≡ p
      → Holds (posix.contents w) (offset e z fs i) (joined (parts_of e d))
      → offset e z fs i + length (joined (parts_of e d)) ≤ posix.size w
      → (finish_read i d₀ p).0 ≡ success
      → (finish_read i d₀ p).1 ≡ record d { eps_startup_hk = d₀.eps_startup_hk }
  unfolding finish_read
  fetched i d d₀ w (none, w₁) fits fits₀ opened held inside good = absurd (ground arith)
  fetched i d d₀ w (some fd, w₁) fits fits₀ opened held inside good =
      let off : ℕ = offset e z fs i in
      let w₂ : W = fs.seek_set fd off w₁ in
      let w₃ : W = fs.clear_errno w₂ in
      let at₁ = posix.open_position rdonly w w₁ fd opened in
      let at₂ = posix.seek_position fd off 0 w₁ at₁ in
      let cleared = posix.clear_contents w₂ in
      let sought = posix.seek_contents fd off w₁ in
      let found = posix.open_contents rdonly w in
      let at₃ : posix.position w₃ fd ≡ some off = ap (λ f. f fd) cleared.2 ∙ at₂ in
      let same : posix.contents w₃ ≡ posix.contents w =
        cleared.0 ∙ sought.0 ∙ ap (λ q. posix.contents q.1) (sym opened) ∙ found.0 in
      let large : posix.size w₃ ≡ posix.size w =
        cleared.1 ∙ sought.1 ∙ ap (λ q. posix.size q.1) (sym opened) ∙ found.1 in
      let all = read_all_parts e z fs fd d₀ w₃ in
      let sizes = map-length-parts_of e z fs d fits in
      let clean : fs.no_error (read_parts fs fd (map length (parts_of e d)) w₃).1 ≡ true =
        success_of _ (rw (sizes, sym (ap (λ r. r.1) all)) good) in
      let back =
        read_parts_back fs posix fd off (parts_of e d) w₃ at₃ (rw same held) (rw large inside)
          clean in
      ap (λ r. r.0) all
      ∙ ap (rebuilt e z fs d₀) (ap (λ ns. (read_parts fs fd ns w₃).0) (sym sizes) ∙ back)
      ∙ rebuilt_back e z fs d d₀ fits fits₀

  -- A record that was written without an error and without a short write, and that is read without an
  -- error, into any struct, comes back with all that was written: all but the start-up telemetry of
  -- the EPS, which stays as it was.
  pub write_hk-read_hk :
      (i : ℕ) (d d₀ : AllSystemsHousekeeping) (w : W)
      → Fits z d
      → Fits z d₀
      → AllWritten i d w
      → (write_hk_to_file e z fs i d w).0 ≡ success
      → let w' = (write_hk_to_file e z fs i d w).1 in
        (read_hk_from_file e z fs i d₀ w').0 ≡ success
        → (read_hk_from_file e z fs i d₀ w').1 ≡ record d { eps_startup_hk = d₀.eps_startup_hk }
  write_hk-read_hk i d d₀ w fits fits₀ whole written read =
      let w' : W = (write_hk_to_file e z fs i d w).1 in
      let stored = write_hk-Stored i d w whole written in
      let there : 0 < posix.size w' = omega (arith, stored.inside, part_long d) in
      let w₁ : W = (fs.open_file hk_data creat_excl (fs.clear_errno w')).1 in
      let found = posix.open_contents creat_excl (fs.clear_errno w') in
      let cleared = posix.clear_contents w' in
      let same = found.0 ∙ cleared.0 in
      let large = found.1 ∙ cleared.1 in
      let present = read_present i d₀ w' there in
      ap (λ r. r.1) present
      ∙ fetched i d d₀ w₁ (fs.open_file hk_data rdonly w₁) fits fits₀ refl
          (rw same stored.grown.holds) (rw large stored.inside) (ap (λ r. r.0) (sym present) ∙ read)

  record_length :
      (d : AllSystemsHousekeeping)
      → Fits z d
      → timeorder_size + z.athena + z.eps + z.uhf + z.s_band + z.adcs + z.hyperion + z.charon
          + z.dfgm
        < 2 ^ 16
      → length (joined (parts_of e d)) ≡ get_size_of_housekeeping z
  unfolding get_size_of_housekeeping sizes_of total
  record_length d fits small =
      length-joined (parts_of e d) ∙ ap total (map-length-parts_of e z fs d fits) ∙ omega arith

  -- A record that is written without an error and without a short write leaves every record of another
  -- number as it was, where a record's size is the sum of its structs, below 2 ^ 16.
  pub write_hk-apart :
      (i j k : ℕ) (d : AllSystemsHousekeeping) (w : W)
      → Fits z d
      → timeorder_size + z.athena + z.eps + z.uhf + z.s_band + z.adcs + z.hyperion + z.charon
          + z.dfgm
        < 2 ^ 16
      → 0 < i
      → 0 < j
      → (i < j) ⊎ (j < i)
      → k < get_size_of_housekeeping z
      → AllWritten i d w
      → (write_hk_to_file e z fs i d w).0 ≡ success
      → let w' = (write_hk_to_file e z fs i d w).1 in
        let place : ℕ = (j - 1) * get_size_of_housekeeping z + k in
        posix.contents w' place ≡ posix.contents w place
  write_hk-apart i j k d w fits small hi hj other hk whole written =
      let size : ℕ = get_size_of_housekeeping z in
      let stored = write_hk-Stored i d w whole written in
      let long = record_length d fits small in
      elim other [
        | inl above ↦
            stored.grown.apart ((j - 1) * size + k)
              (inr (omega (arith, long, places_apart (i - 1) (j - 1) size (omega arith))))
        | inr below ↦
            stored.grown.apart ((j - 1) * size + k)
              (inl (omega (arith, long, places_apart (j - 1) (i - 1) size (omega arith))))
      ]
