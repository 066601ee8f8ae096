-- ===== src/TimeManagement/Discipline.antt =====
-- `RTC_discipline_service`: every ten seconds of delays the clock is set to the GPS time, if the
-- GPS has one. `vTaskDelay`, the GPS and the clock are outside the repository: a delay only counts,
-- and what `gps_get_utc_time` gives is an argument.
use ex2_services.Base.{
  ℕ, zero, suc, ◌+◌, ◌-◌, ◌%◌, ◌^◌, ◌<◌, ◌≤◌, ◌≡◌, Option, none, some, arith, ltb, if◌then◌else◌,
  Bool-cases, inl, inr,
}
use ex2_services.TimeManagement.{Rtc}

abbrev pub discipline_delay : ℕ
discipline_delay = 10_000

-- `while (total_delay < DISCIPLINE_DELAY)`: `total_delay` is a uint16_t, `rtc_wdt_counter` a
-- uint32_t, and `interval` is `DELAY_WAIT_INTERVAL`. `none`: the fuel ran out.
unfoldable pub delay_loop : ℕ → ℕ → ℕ → ℕ → Option (ℕ × ℕ)
delay_loop interval zero total_delay counter = none
delay_loop interval (suc fuel) total_delay counter =
    let rest =
      delay_loop interval fuel ((total_delay + interval) % 2 ^ 16) ((counter + 1) % 2 ^ 32) in
    if ltb total_delay discipline_delay then rest else some (total_delay, counter)

module _ {W : Type 0} (rtc : Rtc W) (interval : ℕ) where
  -- One iteration of `for (;;)` behind its delays: `utc_time` is `none` where `gps_get_utc_time`
  -- fails.
  unfoldable pub discipline : Option ℕ → W × ℕ → W × ℕ
  discipline none (w, counter) = (w, (counter + 1) % 2 ^ 32)
  discipline (some utc_time) (w, counter) =
      ((rtc.set_unix utc_time w).1, (counter + 1 + 1) % 2 ^ 32)

-- With an interval of 1 to 55535 ticks the delays end: from a `total_delay` that is less than one
-- interval above the limit, fuel above the number of missing ticks is enough, and the delay that is
-- waited is at least the limit and less than one interval above it.
pub delay_loop_ends :
    (interval fuel total_delay counter : ℕ)
    → 0 < interval
    → interval ≤ 55_535
    → total_delay < discipline_delay + interval
    → discipline_delay - total_delay < fuel
    → (t : ℕ) × (c : ℕ) × (delay_loop interval fuel total_delay counter ≡ some (t, c))
      × (discipline_delay ≤ t)
      × (t < discipline_delay + interval)
unfolding delay_loop
delay_loop_ends interval zero total_delay counter pos small start enough = elim enough [ ]
delay_loop_ends interval (suc fuel) total_delay counter pos small start enough =
    elim (Bool-cases (ltb total_delay discipline_delay)) [
      | inl more ↦ rw more (
          delay_loop_ends interval fuel ((total_delay + interval) % 2 ^ 16) ((counter + 1) % 2 ^ 32)
            pos small (ground arith) (ground arith))
      | inr done ↦ (total_delay, counter, rw done, ground arith, ground arith)
    ]
