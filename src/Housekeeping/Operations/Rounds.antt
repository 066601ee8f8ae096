-- ===== src/Housekeeping/Operations/Rounds.antt =====
-- Repeated calls of `populate_and_store_hk_data`: the ring comes round to every file.
use ex2_services.Base.{
  ℕ, zero, suc, ◌+◌, ◌-◌, ◌<◌, ◌≤◌, ◌≡◌, ◌∙◌, refl, ap, subst₂, arith, Option, List, [], ◌∷◌, ltb,
  Bool-cases, inl, inr,
}
use ex2_services.Csp.Bytes.{Endian}
use ex2_services.Housekeeping.Timestamps.{
  Result, success, failure, Run, done, ◌>>=◌, Returns, Returns_map, Returns_bind,
}
use ex2_services.Housekeeping.State.{RedFs, AllSystemsHousekeeping, Sizes, Hk}
use ex2_services.Housekeeping.Operations.{populate_and_store_hk_data}
use ex2_services.Housekeeping.Operations.Ring.{
  IsReady, Populated, lost, stored, next_file, populate_moves_on,
}

-- What a call meets: the devices, and the two allocations.
pub record Call (W : Type 0) : Type 0 where
  pub collect : W → AllSystemsHousekeeping × W
  pub malloc₁ : Option (ℕ → ℕ)
  pub malloc₂ : Option (ℕ → ℕ)

-- How often a sequence of calls succeeds.
unfoldable pub successes : List Result → ℕ
successes [] = 0
successes (success ∷ rs) = suc (successes rs)
successes (failure ∷ rs) = successes rs

-- The file that is reached `n` files behind file `i`.
unfoldable pub steps : ℕ → ℕ → ℕ → ℕ
steps max zero i = i
steps max (suc n) i = steps max n (next_file max i)

steps-successes :
    (max i : ℕ) (r : Result) (rs : List Result)
    → steps max (successes rs) (steps max (successes (r ∷ [])) i) ≡ steps max (successes (r ∷ rs)) i
unfolding steps successes
steps-successes max i success rs = refl
steps-successes max i failure rs = refl

steps_up : (max n i : ℕ) → i + n ≤ max → steps max n i ≡ i + n
unfolding steps
steps_up max zero i h = omega arith
steps_up max (suc n) i h =
    let up : next_file max i ≡ i + 1 = ground arith in
    rw up (steps_up max n (i + 1) (omega arith) ∙ omega arith)

steps_add : (max m n i : ℕ) → steps max (m + n) i ≡ steps max n (steps max m i)
unfolding steps
steps_add max zero n i = let e : 0 + n ≡ n = omega arith in rw e refl
steps_add max (suc m) n i =
    let e : suc m + n ≡ suc (m + n) = omega arith in rw e (steps_add max m n (next_file max i))

-- Behind the last file, the ring begins again.
steps_round : (max n i : ℕ) → 0 < i → i ≤ max → n < max → steps max (max - i + suc n) i ≡ 1 + n
steps_round max n i hi fits few =
    let last : steps max (max - i) i ≡ max = steps_up max (max - i) i (omega arith) ∙ omega arith in
    let first : next_file max max ≡ 1 = ground arith in
    steps_add max (max - i) (suc n) i
    ∙ ap (steps max (suc n)) last
    ∙ unfold steps in (rw first (steps_up max n 1 (omega arith)))

every_file :
    (max i j : ℕ) → 0 < i → i ≤ max → 0 < j → j ≤ max → (k : ℕ) × (k < max) × (steps max k i ≡ j)
every_file max i j hi fits hj few = elim (Bool-cases (ltb j i)) [
  | inl before ↦ (
    max - i + suc (j - 1),
    ground arith,
    steps_round max (j - 1) i hi fits (omega arith) ∙ omega arith,
  )
  | inr behind ↦ (j - i, ground arith, steps_up max (j - i) i (ground arith) ∙ ground arith)
]

module _ (e : Endian) (z : Sizes) {W : Type 0} (fs : RedFs W) where
  -- The calls one after the other, and what each reports.
  unfoldable pub populate_all : List (Call W) → Hk W → Run (List Result × Hk W)
  populate_all [] s = done ([], s)
  populate_all (c ∷ cs) s =
      populate_and_store_hk_data e z fs c.collect c.malloc₁ c.malloc₂ s >>= λ first.
      populate_all cs first.1 >>= λ rest. done (first.0 ∷ rest.0, rest.1)

  -- Ready, at file `i` of `max`.
  pub At : ℕ → ℕ → Hk W → Type 0
  At max i s = ((cells : ℕ → ℕ) × IsReady cells s) × (s.max_files ≡ max) × (s.current_file ≡ i)

  moved_on :
      {cells : ℕ → ℕ} {t : ℕ} (max i : ℕ) (r : Result × Hk W)
      → Populated cells t max i r
      → At max (steps max (successes (r.0 ∷ [])) i) r.1
  unfolding At steps successes
  moved_on max i (failure, s) (lost ready here same free) = ((_, ready), same, here)
  moved_on max i (success, s) (stored ready here same free) = ((_, ready), same, here)

  -- A call leaves the ring where it was, or moves it on by one.
  one_call :
      (c : Call W) (s : Hk W) (cells : ℕ → ℕ)
      → IsReady cells s
      → let at_file : ℕ → ℕ = λ n. steps s.max_files n s.current_file in
        Returns
          (populate_and_store_hk_data e z fs c.collect c.malloc₁ c.malloc₂ s)
          (λ r. At s.max_files (at_file (successes (r.0 ∷ []))) r.1)
  one_call c s cells ready =
      let t : ℕ = (c.collect s.world).0.unix_timestamp in
      Returns_map (populate_and_store_hk_data e z fs c.collect c.malloc₁ c.malloc₂ s)
        (Populated cells t s.max_files s.current_file)
        (λ r. At s.max_files (steps s.max_files (successes (r.0 ∷ [])) s.current_file) r.1)
        (populate_moves_on e z fs c.collect c.malloc₁ c.malloc₂ s cells ready)
        (λ r moved. moved_on s.max_files s.current_file r moved)

  populate_all-At :
      (calls : List (Call W)) (max i : ℕ) (s : Hk W)
      → At max i s
      → Returns (populate_all calls s) (λ r. At max (steps max (successes r.0) i) r.1)
  unfolding populate_all At
  populate_all-At [] max i s at = unfold successes steps in at
  populate_all-At (c ∷ cs) max i s at =
      let ((cells, ready), same_max, here) = at in
      let call : Run (Result × Hk W) =
        populate_and_store_hk_data e z fs c.collect c.malloc₁ c.malloc₂ s in
      let after : ℕ → ℕ → Result × Hk W → Type 0 =
        λ m j r. At m (steps m (successes (r.0 ∷ [])) j) r.1 in
      Returns_bind call
        (λ first. populate_all cs first.1 >>= λ rest. done (first.0 ∷ rest.0, rest.1)) (after max i)
        (λ r. At max (steps max (successes r.0) i) r.1)
        (subst₂ (λ m j. Returns call (after m j)) same_max here (one_call c s cells ready))
        (λ first there.
          Returns_bind (populate_all cs first.1) (λ rest. done (first.0 ∷ rest.0, rest.1))
            (λ r. At max (steps max (successes r.0) (steps max (successes (first.0 ∷ [])) i)) r.1)
            (λ r. At max (steps max (successes r.0) i) r.1) (populate_all-At cs max _ first.1 there)
            (λ rest arrived.
              (arrived.0, arrived.1, arrived.2 ∙ steps-successes max i first.0 rest.0)))

  -- From a ready state any number of calls of `populate_and_store_hk_data` return, however each turns
  -- out, and the current file is as many files further along the ring as calls succeeded. Each file
  -- of the ring is fewer steps away than there are files: as calls go on to succeed, every file gets
  -- its turn.
  pub every_file_in_turn :
      (calls : List (Call W)) (s : Hk W) (cells : ℕ → ℕ) (j : ℕ)
      → IsReady cells s
      → 0 < j
      → j ≤ s.max_files
      → Returns (populate_all calls s) (λ r.
        (r.1.max_files ≡ s.max_files)
        × (r.1.current_file ≡ steps s.max_files (successes r.0) s.current_file))
        × ((k : ℕ) × (k < s.max_files) × (steps s.max_files k s.current_file ≡ j))
  unfolding At
  every_file_in_turn calls s cells j ready hj few = (
    Returns_map (populate_all calls s)
        (λ r. At s.max_files (steps s.max_files (successes r.0) s.current_file) r.1)
        (λ r.
          (r.1.max_files ≡ s.max_files)
          × (r.1.current_file ≡ steps s.max_files (successes r.0) s.current_file))
        (populate_all-At calls s.max_files s.current_file s ((cells, ready), refl, refl))
        (λ r there. (there.1, there.2)),
    every_file s.max_files s.current_file j ready.from_one ready.to_max hj few,
  )
