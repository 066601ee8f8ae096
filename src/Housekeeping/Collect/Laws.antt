-- ===== src/Housekeeping/Collect/Laws.antt =====
-- What a collection leaves as the stack had it.
use ex2_services.Base.{◌≡◌, ◌∙◌, refl, subst, arith, ℕ, Bool, true, false, not, Option}
use ex2_services.Csp.Bytes.{Endian}
use ex2_services.Housekeeping.Timestamps.{Returns}
use ex2_services.Housekeeping.State.{RedFs, AllSystemsHousekeeping, Sizes, Hk}
use ex2_services.Housekeeping.Operations.{populate_and_store_hk_data}
use ex2_services.Housekeeping.Operations.Ring.{IsReady, Populated, populate_moves_on}
use ex2_services.Housekeeping.Collect.{
  Stubs, Devices, Step, unless, get_adcs, get_athena, get_eps, get_uhf, get_s_band, get_hyperion_3u,
  get_hyperion_2u, get_hyperion, get_charon, get_dfgm, collect_hk_from_devices,
}

module _ {W : Type 0} where
  -- The part leaves the time in the struct alone.
  IsTimeless : Step W → Type 0
  IsTimeless step =
      (s : AllSystemsHousekeeping × W) → (step s).0.unix_timestamp ≡ s.0.unix_timestamp

  unless-IsTimeless :
      (stubbed : Bool) (step : Step W) → IsTimeless step → IsTimeless (unless stubbed step)
  unfolding unless IsTimeless
  unless-IsTimeless true step h s = refl
  unless-IsTimeless false step h s = h s

  module _ (dev : Devices W) where
    get_uhf-IsTimeless : IsTimeless (get_uhf dev)
    unfolding get_uhf IsTimeless
    get_uhf-IsTimeless (d, w) = ground arith

    get_hyperion-IsTimeless : (stubs : Stubs) → IsTimeless (get_hyperion stubs dev)
    unfolding get_hyperion get_hyperion_3u get_hyperion_2u IsTimeless
    get_hyperion-IsTimeless stubs s =
        unless-IsTimeless (not stubs.hyperion_panel_2u) (get_hyperion_2u dev) (λ x. refl) _
        ∙ unless-IsTimeless (not stubs.hyperion_panel_3u) (get_hyperion_3u dev) (λ x. refl) s

    collect_keeps_time :
        (stubs : Stubs) (d : AllSystemsHousekeeping) (w : W)
        → (collect_hk_from_devices stubs dev d w).1.unix_timestamp ≡ d.unix_timestamp
    unfolding collect_hk_from_devices get_adcs get_athena get_eps get_s_band get_charon get_dfgm
        IsTimeless
    collect_keeps_time stubs d w =
        let s₁ = unless stubs.adcs_is_stubbed (get_adcs dev) (d, w) in
        let s₂ = unless stubs.athena_is_stubbed (get_athena dev) s₁ in
        let s₃ = unless stubs.eps_is_stubbed (get_eps dev) s₂ in
        let s₄ = unless stubs.uhf_is_stubbed (get_uhf dev) s₃ in
        let s₅ = unless stubs.sband_is_stubbed (get_s_band dev) s₄ in
        let s₆ = unless stubs.hyperion_is_stubbed (get_hyperion stubs dev) s₅ in
        let s₇ = unless stubs.charon_is_stubbed (get_charon dev) s₆ in
        unless-IsTimeless stubs.dfgm_is_stubbed (get_dfgm dev) (λ x. refl) s₇
        ∙ unless-IsTimeless stubs.charon_is_stubbed (get_charon dev) (λ x. refl) s₆
        ∙ unless-IsTimeless stubs.hyperion_is_stubbed (get_hyperion stubs dev)
            (get_hyperion-IsTimeless stubs) s₅
        ∙ unless-IsTimeless stubs.sband_is_stubbed (get_s_band dev) (λ x. refl) s₄
        ∙ unless-IsTimeless stubs.uhf_is_stubbed (get_uhf dev) get_uhf-IsTimeless s₃
        ∙ unless-IsTimeless stubs.eps_is_stubbed (get_eps dev) (λ x. refl) s₂
        ∙ unless-IsTimeless stubs.athena_is_stubbed (get_athena dev) (λ x. refl) s₁
        ∙ unless-IsTimeless stubs.adcs_is_stubbed (get_adcs dev) (λ x. refl) (d, w)

-- Nothing sets the time of a record: with the collection from the devices, into a struct that holds
-- what the stack held, a call of `populate_and_store_hk_data` from a ready state loses the data, or
-- notes for the current file the number that the stack held, whatever the clock and the devices say.
pub populate_notes_stack :
    (e : Endian) (z : Sizes) {W : Type 0} (fs : RedFs W) (stubs : Stubs) (dev : Devices W)
    (stack : AllSystemsHousekeeping) (malloc₁ malloc₂ : Option (ℕ → ℕ)) (s : Hk W) (cells : ℕ → ℕ)
    → IsReady cells s
    → Returns
        (populate_and_store_hk_data e z fs
          (λ w. let (r, d, w₁) = collect_hk_from_devices stubs dev stack w in (d, w₁))
          malloc₁
          malloc₂
          s)
        (Populated cells stack.unix_timestamp s.max_files s.current_file)
populate_notes_stack e z {W} fs stubs dev stack malloc₁ malloc₂ s cells ready =
    let collect : W → AllSystemsHousekeeping × W =
      λ w. let (r, d, w₁) = collect_hk_from_devices stubs dev stack w in (d, w₁) in
    subst
      (λ t.
        Returns (populate_and_store_hk_data e z fs collect malloc₁ malloc₂ s)
          (Populated cells t s.max_files s.current_file))
      (collect_keeps_time dev stubs stack s.world)
      (populate_moves_on e z fs collect malloc₁ malloc₂ s cells ready)
