-- ===== src/Examples/Storage.antt =====
-- The files of the housekeeping service.
use ex2_services.Base.{
  ℕ, ◌+◌, ◌%◌, ◌<◌, ◌≤◌, ◌≡◌, ◌≢◌, refl, arith, true, false, none, some, length, get_or, [], ◌∷◌,
  ◌==◌, if◌then◌else◌,
}
use ex2_services.Csp.Bytes.{big}
use ex2_services.Housekeeping.Timestamps.{
  success, done, use_after_free, Returns, Timestamps, of_size, read_at,
  dynamic_timestamp_array_handler,
}
use ex2_services.Housekeeping.Timestamps.Laws.{grow_keeps, grow_loses_last}
use ex2_services.Housekeeping.Search.{get_file_id_from_timestamp}
use ex2_services.Housekeeping.Search.Sound.{IsNear, get_file_id-IsNear}
use ex2_services.Housekeeping.Search.Found.{IsFilling, search_finds}
use ex2_services.Housekeeping.Search.Wrapped.{search_misses_wrapped}
use ex2_services.Housekeeping.State.{Hk}
use ex2_services.Housekeeping.Operations.{populate_and_store_hk_data, set_max_files}
use ex2_services.Housekeeping.Operations.Ring.{IsReady, Populated, populate_moves_on}
use ex2_services.Housekeeping.Operations.Rounds.{
  Call, populate_all, steps, successes, every_file_in_turn,
}
use ex2_services.Housekeeping.Operations.Shrink.{set_max_files_grows, set_max_files_faults}
use ex2_services.Housekeeping.Collect.{Stubs, Devices, collect_hk_from_devices}
use ex2_services.Housekeeping.Collect.Laws.{populate_notes_stack}
use ex2_services.Housekeeping.Fetch.Ids.{visited, visited_ring}
use ex2_services.Examples.Toys.{files, sizes, times, hk_state, collected}

-- A new block holds 7 everywhere.
abbrev junk : ℕ → ℕ
junk i = 7

is_ready : IsReady times hk_state
is_ready = record {
  loaded = refl;
  array_of = refl;
  from_one = omega arith;
  to_max = omega arith;
  few = omega arith;
}

is_filling : IsFilling 3 3 times
is_filling = record {
  some_file = omega arith;
  in_array = omega arith;
  few = omega arith;
  fresh = refl;
  sorted = λ i j lo le hi. ground arith;
  words = λ i. ground arith;
}

populate_moves_on_example :
    Returns
      (populate_and_store_hk_data big sizes
        (files (some 3))
        (λ w. (collected, w))
        none
        none
        hk_state)
      (Populated times 1050 3 3)
populate_moves_on_example =
    populate_moves_on big sizes (files (some 3)) (λ w. (collected, w)) none none hk_state times
      is_ready

visited_ring_example :
    (length (visited 3 3 2) ≡ 3)
    × ((k : ℕ)
        → k < 3
        → let file = get_or (visited 3 3 2) k 0 in
          (0 < file) × (file ≤ 3) × ((file + (k + 1)) % 3 ≡ 2))
    × ((j k : ℕ) → j < k → k < 3 → get_or (visited 3 3 2) j 0 ≢ get_or (visited 3 3 2) k 0)
visited_ring_example = visited_ring 3 3 2 (omega arith) (omega arith) (omega arith) (omega arith)

get_file_id-IsNear_example :
    Returns (get_file_id_from_timestamp (of_size 3 times) 3 1035) (IsNear times 3 1035)
get_file_id-IsNear_example =
    get_file_id-IsNear 3 times 1035 (omega arith) 3 (omega arith) (omega arith)

search_finds_example :
    Returns
      (get_file_id_from_timestamp (of_size 3 times) 3 1035)
      (λ k. (0 < k) × (k < 3) × (1035 ≤ times k + 15) × (times k ≤ 1035 + 15))
search_finds_example =
    search_finds 3 3 1035 times is_filling (omega arith) 2 (omega arith) (omega arith) (omega arith)
      (omega arith)

-- Three files, of which the first was written again.
search_misses_wrapped_example :
    get_file_id_from_timestamp (of_size 3 (λ i. if i == 1 then 130 else 70)) 2 130 ≡ done 0
search_misses_wrapped_example =
    search_misses_wrapped 3 (λ i. if i == 1 then 130 else 70) (omega arith) (omega arith)
      (omega arith) (omega arith) (λ j lo hi. ground arith)

grow_keeps_example :
    (new : ℕ → ℕ) × (dynamic_timestamp_array_handler 5 (some junk) (of_size 3 times)
      ≡ done (success, of_size 5 new))
    × ((i : ℕ) → i < 3 → new i ≡ times i)
    × ((i : ℕ) → 3 < i → i ≤ 5 → new i ≡ 0)
grow_keeps_example = grow_keeps 3 5 times junk (omega arith) (omega arith)

grow_loses_last_example :
    (s : Timestamps) × (dynamic_timestamp_array_handler 5 (some junk) (of_size 3 times)
      ≡ done (success, s))
    × (read_at s.timestamps 3 ≡ done 7)
grow_loses_last_example = grow_loses_last 3 5 times junk (omega arith) (omega arith)

set_max_files_grows_example :
    (new : ℕ → ℕ) × (s' : Hk ℕ) × (set_max_files big sizes (files none) 5 (some junk) hk_state
      ≡ done (success, s'))
    × IsReady new s'
    × (s'.max_files ≡ 5)
    × (s'.current_file ≡ 3)
    × (s'.locked ≡ false)
    × ((i : ℕ) → i < 3 → new i ≡ times i)
    × ((i : ℕ) → 3 < i → i ≤ 5 → new i ≡ 0)
set_max_files_grows_example =
    set_max_files_grows big sizes (files none) 5 junk times hk_state is_ready (omega arith)
      (omega arith)

set_max_files_faults_example :
    set_max_files big sizes (files (some 3)) 2 none hk_state ≡ use_after_free
set_max_files_faults_example =
    set_max_files_faults big sizes (files (some 3)) 2 3 none times hk_state refl (omega arith)
      (omega arith) (omega arith) (λ w. (3, refl))

-- A device that never fails, and no memory.
abbrev good_call : Call ℕ
good_call = record { collect = λ w. (collected, w); malloc₁ = none; malloc₂ = none }

every_file_in_turn_example :
    Returns
      (populate_all big sizes (files (some 3)) (good_call ∷ good_call ∷ []) hk_state)
      (λ r. (r.1.max_files ≡ 3) × (r.1.current_file ≡ steps 3 (successes r.0) 3))
    × ((k : ℕ) × (k < 3) × (steps 3 k 3 ≡ 2))
every_file_in_turn_example =
    every_file_in_turn big sizes (files (some 3)) (good_call ∷ good_call ∷ []) hk_state times 2
      is_ready (omega arith) (omega arith)

-- Every driver leaves what it is given.
abbrev devices : Devices ℕ
devices = record {
  adcs_get_hk = λ x w. (x, w);
  athena_get_hk = λ x w. (x, w);
  eps_refresh_instantaneous_telemetry = λ w. w;
  eps_refresh_startup_telemetry = λ w. w;
  eps_get_hk = λ x y w. (x, y, w);
  uhf_is_busy = λ w. (true, w);
  uhf_get_hk = λ x w. (x, w);
  one_second = λ w. w;
  s_get_hk = λ x w. (x, w);
  hyperion_config1_get_hk = λ x w. (x, w);
  hyperion_config3_get_hk = λ x w. (x, w);
  charon_get_hk = λ x w. (x, w);
  dfgm_get_hk = λ x w. (x, w);
}

abbrev stubs : Stubs
stubs = record {
  adcs_is_stubbed = true;
  athena_is_stubbed = false;
  eps_is_stubbed = false;
  uhf_is_stubbed = false;
  sband_is_stubbed = false;
  hyperion_is_stubbed = false;
  hyperion_panel_3u = true;
  hyperion_panel_2u = false;
  charon_is_stubbed = true;
  dfgm_is_stubbed = false;
}

populate_notes_stack_example :
    Returns
      (populate_and_store_hk_data big sizes
        (files (some 3))
        (λ w. let (r, d, w₁) = collect_hk_from_devices stubs devices collected w in (d, w₁))
        none
        none
        hk_state)
      (Populated times 1050 3 3)
populate_notes_stack_example =
    populate_notes_stack big sizes (files (some 3)) stubs devices collected none none hk_state times
      is_ready
