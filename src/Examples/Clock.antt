-- ===== src/Examples/Clock.antt =====
-- Requests to the clock, and the tasks.
use ex2_services.Base.{
  ℕ, ◌+◌, ◌<◌, ◌≤◌, ◌≡◌, ◌≢◌, ◌⊎◌, refl, arith, true, false, some, List, [], ◌∷◌, ◌++◌,
}
use ex2_services.Csp.Bytes.{slice}
use ex2_services.Csp.Packet.{Packet, satr_ok, subservice_byte, status_byte, minus_one}
use ex2_services.TimeManagement.{set_time, min_year, max_year, time_management_app}
use ex2_services.TimeManagement.Laws.{requested, time_management_app_guards, set_time-get_time}
use ex2_services.TimeManagement.Discipline.{delay_loop, discipline_delay, delay_loop_ends}
use ex2_services.Service.Task.{Accept, timeout, connection, App, task}
use ex2_services.Service.Task.Laws.{released, received, released-task}
use ex2_services.Service.Start.{
  Task, created, started, services, cli_actions, logging, start_service_server, server_starts,
}
use ex2_services.Examples.Toys.{network, packet_of, packet_of-IsBytes, clock}

-- A request to set the clock to 1600000000.
abbrev set_packet : Packet
set_packet = packet_of (11 ∷ 95 ∷ 94 ∷ 16 ∷ 0 ∷ [])

abbrev get_packet : Packet
get_packet = packet_of (10 ∷ [])

set_time-get_time_example :
    slice 0 6
      (time_management_app network clock get_packet
        (time_management_app network clock set_packet 0).2).1.bytes
    ≡ 10 ∷ 0 ∷ 95 ∷ 94 ∷ 16 ∷ 0 ∷ []
set_time-get_time_example =
    set_time-get_time network clock (λ t w h. refl) set_packet get_packet 0
      (packet_of-IsBytes (11 ∷ 95 ∷ 94 ∷ 16 ∷ 0 ∷ []) refl) refl refl (omega arith) (omega arith)
      refl

time_management_app_guards_example :
    let (r, answer, w') = time_management_app network clock get_packet 4 in
    ((get_packet.bytes subservice_byte ≡ set_time)
      × (min_year < requested get_packet)
      × (requested get_packet < max_year)
      × (w' ≡ (clock.set_unix (requested get_packet) 4).1))
    ⊎ ((w' ≡ 4)
        × ((get_packet.bytes subservice_byte ≢ set_time) ⊎ (answer.bytes status_byte ≡ minus_one)))
time_management_app_guards_example =
    time_management_app_guards network clock get_packet 4 (packet_of-IsBytes (10 ∷ []) refl)

delay_loop_ends_example :
    (t : ℕ) × (c : ℕ) × (delay_loop 1000 11000 0 7 ≡ some (t, c))
    × (discipline_delay ≤ t)
    × (t < discipline_delay + 1000)
delay_loop_ends_example =
    delay_loop_ends 1000 11000 0 7 (omega arith) (omega arith) (omega arith) (omega arith)

-- An application that answers every packet as it is.
abbrev echo : App ℕ
echo p w = (satr_ok, p, w)

abbrev inputs : List Accept
inputs = timeout ∷ connection ((set_packet, true) ∷ (get_packet, false) ∷ []) ∷ []

released-task_example : released (task echo 1 inputs (0, 0)).0 ≡ received inputs
released-task_example = released-task echo (λ p w. refl) 1 inputs 0 0

server_starts_example : start_service_server (logging (λ t. true)) [] ≡ (
  (started (λ t. true) services).0,
  created Task.csp_server ∷ (cli_actions (λ t. true) ++ (started (λ t. true) services).1),
)
server_starts_example = server_starts (λ t. true)
