-- ===== src/Cli/Time.antt =====
-- The command `time` beside the request `SET_TIME` of the time management service.
use ex2_services.Base.{ℕ, ◌≡◌, refl, arith, Option, some, List, ◌<◌, ◌⊎◌, inl, inr}
use ex2_services.Csp.Network.{Network, IsBytes}
use ex2_services.Csp.Bytes.{Endian}
use ex2_services.Csp.Packet.{Packet, minus_one, status_byte, subservice_byte}
use ex2_services.TimeManagement.{Rtc, set_time, min_year, time_management_app}
use ex2_services.TimeManagement.Laws.{requested, time_management_app_guards}
use ex2_services.Cli.{untouched, time_is, prv_time_command}

-- On a clock that keeps a time which it reports as set: whatever number its parameter reads as, if
-- the clock accepts it, the command `time` sets it, prints nothing, and gives it back when it is
-- called without a parameter. A request `SET_TIME` for the same number leaves the clock alone and is
-- answered with -1, unless the number is above `MIN_YEAR`.
pub time_command_unguarded :
    {e : Endian} (net : Network e) {W : Type 0} (rtc : Rtc W) (atoi : List ℕ → ℕ)
    (get_parameter : ℕ → Option (List ℕ)) (parameter : List ℕ) (p : Packet) (w : W)
    → ((t : ℕ) (x : W) → (rtc.set_unix t x).0 ≡ 0 → rtc.get_unix (rtc.set_unix t x).1 ≡ (0, t))
    → get_parameter 1 ≡ some parameter
    → (rtc.set_unix (atoi parameter) w).0 ≡ 0
    → IsBytes p.bytes
    → p.bytes subservice_byte ≡ set_time
    → requested p ≡ atoi parameter
    → let (text, w₁) = prv_time_command rtc atoi 1 get_parameter w in
      let (report, answer, w₂) = time_management_app net rtc p w in
      (text ≡ untouched)
      × (prv_time_command rtc atoi 0 get_parameter w₁ ≡ (time_is (atoi parameter), w₁))
      × ((min_year < atoi parameter) ⊎ ((w₂ ≡ w) × (answer.bytes status_byte ≡ minus_one)))
unfolding prv_time_command
time_command_unguarded net rtc atoi get_parameter parameter p w keeps named ok bytes sub same =
    let kept = keeps (atoi parameter) w ok in
    let refused = time_management_app_guards net rtc p w bytes in
    elim refused [
      | inl (_, late, _, _) ↦
          rw (named, ok, kept, prv_time_command) (refl, refl, inl (omega (arith, late, same)))
      | inr (alone, inl other) ↦ absurd (other sub)
      | inr (alone, inr minus) ↦
          rw (named, ok, kept, prv_time_command) (refl, refl, inr (alone, minus))
    ]
