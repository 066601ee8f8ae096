-- ===== src/Housekeeping/Fetch/Loop.antt =====
-- The loop of `fetch_historic_hk_and_transmit` is a pass over the files that it visits.
use ex2_services.Base.{
  ℕ, zero, suc, ◌<◌, ◌≤◌, ◌⊎◌, ◌||◌, ◌==◌, if◌then◌else◌, ◌≡◌, refl, false, List, [], ◌∷◌, arith,
  ltb, Bool-cases, inl, inr, ap, length,
}
use ex2_services.Csp.Bytes.{Endian}
use ex2_services.Csp.Network.{Network}
use ex2_services.Housekeeping.Timestamps.{Result, success, Run, done, ◌>>=◌}
use ex2_services.Housekeeping.State.{RedFs, Link, AllSystemsHousekeeping, Sizes, Hk}
use ex2_services.Housekeeping.Fetch.{
  Converters, previous, send_file, and_then, fetch_loop, all_zero, start_id,
  fetch_historic_hk_and_transmit,
}
use Prim.Native.Nat.{min}
use mathlib.Core.Path.{fun_ext}
use ex2_services.Housekeeping.Fetch.Ids.{visited, length-visited}

module _ {e : Endian} (net : Network e) (c : Converters) (z : Sizes) {W : Type 0} (fs : RedFs W)
    (link : Link W) where
  -- Each of the files in turn, up to the first that cannot be read or sent; the flag `final` is set
  -- in every answer but that of the last file.
  unfoldable pub send_files : List ℕ → AllSystemsHousekeeping → W → Run (Result × W)
  send_files [] d w = done (success, w)
  send_files (id ∷ ids) d w =
      send_file net c z fs link (ltb 0 (length ids)) id d w
      >>= and_then net c z fs link (send_files ids)

  loop_files :
      (max limit id : ℕ) (d : AllSystemsHousekeeping) (w : W)
      → fetch_loop net c z fs link max limit id d w ≡ send_files (visited max limit id) d w
  unfolding fetch_loop send_files visited
  loop_files max zero id d w = refl
  loop_files max (suc limit) id d w =
      let id' : ℕ = previous max id in
      let next : fetch_loop net c z fs link max limit id' ≡ send_files (visited max limit id') =
        fun_ext (λ d₁. fun_ext (λ w₁. loop_files max limit id' d₁ w₁)) in
      rw (length-visited max limit id') (
        ap
          (λ (f : AllSystemsHousekeeping → W → Run (Result × W)).
            send_file net c z fs link (ltb 0 limit) id' d w >>= and_then net c z fs link f)
          next)

  start_cases :
      (before_id : ℕ) (s : Hk W)
      → let id =
          if before_id == 0 || ltb s.max_files before_id then s.current_file else before_id in
        ((0 < before_id) × (before_id ≤ s.max_files) × (id ≡ before_id))
        ⊎ (((before_id ≡ 0) ⊎ (s.max_files < before_id)) × (id ≡ s.current_file))
  start_cases before_id s = elim (Bool-cases (before_id == 0 || ltb s.max_files before_id)) [
    | inl none ↦ inr (ground arith)
    | inr some ↦ inl (ground arith)
  ]

  -- A request without a timestamp passes over the files that lie before the given one on the ring, as
  -- many as asked for but at most all of them once; a number that is no file's stands for the current
  -- file. The globals but the lock and the world stay as they were.
  pub fetch_passes :
      (limit before_id : ℕ) (s : Hk W)
      → 0 < s.current_file
      → s.current_file ≤ s.max_files
      → s.max_files < 65536
      → (id : ℕ) × (0 < id)
        × (id ≤ s.max_files)
        × (((0 < before_id) × (before_id ≤ s.max_files) × (id ≡ before_id))
            ⊎ (((before_id ≡ 0) ⊎ (s.max_files < before_id)) × (id ≡ s.current_file)))
        × (fetch_historic_hk_and_transmit net c z fs link limit before_id 0 s ≡ (
            send_files
              (visited s.max_files (min limit s.max_files) id)
              (all_zero net c z fs link)
              s.world
            >>= λ r. done (r.0, record s { locked = false; world = r.1 })))
  unfolding fetch_historic_hk_and_transmit start_id
  fetch_passes limit before_id s pos high few =
      let id : ℕ =
        if before_id == 0 || ltb s.max_files before_id then s.current_file else before_id in
      let rounds : (if ltb s.max_files limit then s.max_files else limit) ≡ min limit s.max_files =
        ground arith in
      (
        id,
        ground arith,
        ground arith,
        start_cases before_id s,
        rw (rounds, loop_files s.max_files (min limit s.max_files) id) refl,
      )
