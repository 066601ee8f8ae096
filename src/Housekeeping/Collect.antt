-- ===== src/Housekeeping/Collect.antt =====
-- `collect_hk_from_devices`: the telemetry of the devices, as far as these are not stubbed.
pub mod Laws
use ex2_services.Base.{ℕ, Bool, not, List, if◌then◌else◌}
use ex2_services.Housekeeping.Timestamps.{Result, success}
use ex2_services.Housekeeping.State.{AllSystemsHousekeeping}

-- The macros of the build, `ADCS_IS_STUBBED` and so on.
pub record Stubs : Type 0 where
  pub adcs_is_stubbed : Bool
  pub athena_is_stubbed : Bool
  pub eps_is_stubbed : Bool
  pub uhf_is_stubbed : Bool
  pub sband_is_stubbed : Bool
  pub hyperion_is_stubbed : Bool
  pub hyperion_panel_3u : Bool
  pub hyperion_panel_2u : Bool
  pub charon_is_stubbed : Bool
  pub dfgm_is_stubbed : Bool

-- A driver fills a struct, of which it may leave bytes as they were.
abbrev pub Fills : Type 0 → Type 0
Fills W = List ℕ → W → List ℕ × W

-- The drivers. What the two `eps_refresh_` calls and the copies behind them give is not used.
pub record Devices (W : Type 0) : Type 0 where
  pub adcs_get_hk : Fills W
  pub athena_get_hk : Fills W
  pub eps_refresh_instantaneous_telemetry : W → W
  pub eps_refresh_startup_telemetry : W → W
  pub eps_get_hk : List ℕ → List ℕ → W → List ℕ × List ℕ × W
  pub uhf_is_busy : W → Bool × W
  pub uhf_get_hk : Fills W
  pub one_second : W → W
  pub s_get_hk : Fills W
  pub hyperion_config1_get_hk : Fills W
  pub hyperion_config3_get_hk : Fills W
  pub charon_get_hk : Fills W
  pub dfgm_get_hk : Fills W

-- A part of the collection, on the struct and the world.
abbrev pub Step : Type 0 → Type 0
Step W = AllSystemsHousekeeping × W → AllSystemsHousekeeping × W

-- `#ifndef`, and `#ifdef`, around a part.
unfoldable pub unless : {W : Type 0} → Bool → Step W → Step W
unless stubbed step s = if stubbed then s else step s

module _ {W : Type 0} (dev : Devices W) where
  unfoldable pub get_adcs : Step W
  get_adcs (d, w) = let (hk, w₁) = dev.adcs_get_hk d.adcs_hk w in (record d { adcs_hk = hk }, w₁)

  unfoldable pub get_athena : Step W
  get_athena (d, w) =
      let (hk, w₁) = dev.athena_get_hk d.athena_hk w in (record d { athena_hk = hk }, w₁)

  unfoldable pub get_s_band : Step W
  get_s_band (d, w) = let (hk, w₁) = dev.s_get_hk d.s_band_hk w in (record d { s_band_hk = hk }, w₁)

  unfoldable pub get_hyperion_3u : Step W
  get_hyperion_3u (d, w) =
      let (hk, w₁) = dev.hyperion_config1_get_hk d.hyperion_hk w in
      (record d { hyperion_hk = hk }, w₁)

  unfoldable pub get_hyperion_2u : Step W
  get_hyperion_2u (d, w) =
      let (hk, w₁) = dev.hyperion_config3_get_hk d.hyperion_hk w in
      (record d { hyperion_hk = hk }, w₁)

  unfoldable pub get_charon : Step W
  get_charon (d, w) =
      let (hk, w₁) = dev.charon_get_hk d.charon_hk w in (record d { charon_hk = hk }, w₁)

  unfoldable pub get_dfgm : Step W
  get_dfgm (d, w) = let (hk, w₁) = dev.dfgm_get_hk d.dfgm_hk w in (record d { dfgm_hk = hk }, w₁)

  unfoldable pub get_eps : Step W
  get_eps (d, w) =
      let w₁ = dev.eps_refresh_startup_telemetry (dev.eps_refresh_instantaneous_telemetry w) in
      let (eps, startup, w₂) = dev.eps_get_hk d.eps_hk d.eps_startup_hk w₁ in
      (record d { eps_hk = eps; eps_startup_hk = startup }, w₂)

  -- The radio is left alone while it is busy.
  unfoldable pub get_uhf : Step W
  get_uhf (d, w) =
      let (busy, w₁) = dev.uhf_is_busy w in
      let (hk, w₂) = dev.uhf_get_hk d.uhf_hk w₁ in
      if busy then (d, w₁) else (record d { uhf_hk = hk }, dev.one_second w₂)

module _ (stubs : Stubs) {W : Type 0} (dev : Devices W) where
  unfoldable pub get_hyperion : Step W
  unfolding unless get_hyperion_3u get_hyperion_2u
  get_hyperion s =
      unless (not stubs.hyperion_panel_2u) (get_hyperion_2u dev)
        (unless (not stubs.hyperion_panel_3u) (get_hyperion_3u dev) s)

  unfoldable pub collect_hk_from_devices :
      AllSystemsHousekeeping → W → Result × AllSystemsHousekeeping × W
  unfolding unless get_adcs get_athena get_eps get_uhf get_s_band get_hyperion get_charon get_dfgm
  collect_hk_from_devices d w =
      let s₁ = unless stubs.adcs_is_stubbed (get_adcs dev) (d, w) in
      let s₂ = unless stubs.athena_is_stubbed (get_athena dev) s₁ in
      let s₃ = unless stubs.eps_is_stubbed (get_eps dev) s₂ in
      let s₄ = unless stubs.uhf_is_stubbed (get_uhf dev) s₃ in
      let s₅ = unless stubs.sband_is_stubbed (get_s_band dev) s₄ in
      let s₆ = unless stubs.hyperion_is_stubbed get_hyperion s₅ in
      let s₇ = unless stubs.charon_is_stubbed (get_charon dev) s₆ in
      let s₈ = unless stubs.dfgm_is_stubbed (get_dfgm dev) s₇ in (success, s₈.0, s₈.1)
