-- ===== src/Service/Task.antt =====
-- The FreeRTOS task of a service: `time_management_service`, `updater_service`, `dfgm_service`,
-- `logger_service`, `communication_service` and `adcs_service` differ only in the application that
-- they call and in how often an iteration counts for the watchdog.
pub mod Laws
use ex2_services.Base.{ℕ, ◌+◌, ◌%◌, ◌^◌, Bool, true, false, List, [], ◌∷◌, ◌++◌}
use ex2_services.Csp.Packet.{Packet, SatReturn, satr_ok, satr_error, satr_pkt_illegal_subservice}

-- An application answers in the packet that it is given; `W` is the state that it works on.
abbrev pub App : Type 0 → Type 0
App W = Packet → W → SatReturn × Packet × W

-- What `csp_accept` gives: no connection in time, or one, with the packets that `csp_read` gives
-- until it times out, and whether `csp_send` will take the answer to each.
pub data Accept : Type 0 where
  timeout : Accept
  connection : List (Packet × Bool) → Accept

-- What the task does with libcsp. `csp_send` takes the packet only where it succeeds.
pub data Event : Type 0 where
  sent : Packet → Event
  send_failed : Packet → Event
  freed : ℕ → Event
  closed : Event

unfoldable pub respond : SatReturn → Bool → Packet → List Event
respond satr_ok true answer = sent answer ∷ []
respond satr_ok false answer = send_failed answer ∷ freed answer.buffer ∷ []
respond satr_error sends answer = freed answer.buffer ∷ []
respond satr_pkt_illegal_subservice sends answer = freed answer.buffer ∷ []

module _ {W : Type 0} (app : App W) where
  -- `while ((packet = csp_read(conn, 50)) != NULL)`
  unfoldable pub read_loop : List (Packet × Bool) → W → List Event × W
  unfolding respond
  read_loop [] w = ([], w)
  read_loop ((packet, sends) ∷ rest) w =
      let (r, answer, w₁) = app packet w in
      let (events, w₂) = read_loop rest w₁ in (respond r sends answer ++ events, w₂)

  -- One iteration of `for (;;)`; `top` is 1 where the body begins with `svc_wdt_counter++`.
  unfoldable pub iteration : ℕ → Accept → W × ℕ → List Event × W × ℕ
  unfolding read_loop
  iteration top timeout (w, counter) = ([], w, (counter + top + 1) % 2 ^ 32)
  iteration top (connection packets) (w, counter) =
      let (events, w') = read_loop packets w in
      (events ++ closed ∷ [], w', (counter + top + 1) % 2 ^ 32)

  -- The task over what `csp_accept` gives in turn.
  unfoldable pub task : ℕ → List Accept → W × ℕ → List Event × W × ℕ
  unfolding iteration
  task top [] (w, counter) = ([], w, counter)
  task top (a ∷ rest) (w, counter) =
      let (events, w₁, counter₁) = iteration top a (w, counter) in
      let (later, w₂, counter₂) = task top rest (w₁, counter₁) in (events ++ later, w₂, counter₂)
