-- ===== src/Service/Start.antt =====
-- `start_service_server` of Services/source/services.c, with `start_gps_services` and the function
-- `start_<name>_service` of each service, which create the tasks of FreeRTOS.
use ex2_services.Base.{
  Bool, true, false, ◌≡◌, refl, ◌∙◌, ap, List, [], ◌∷◌, ◌++◌, if◌then◌else◌, append_assoc,
  Bool-cases, inl, inr,
}
use ex2_services.Csp.Packet.{SatReturn, satr_ok, satr_error, satr_pkt_illegal_subservice}

-- The tasks.
pub data Task : Type 0 where
  csp_server cli communication time_management rtc nmea housekeeping general updater logger dfgm :
      Task

-- `xTaskCreate`, which succeeds or not, `ex2_register` and `register_commands`.
pub record Kernel (W : Type 0) : Type 0 where
  pub create : Task → W → Bool × W
  pub register : Task → W → W
  pub register_commands : W → W

module _ {W : Type 0} where
  -- The rest after a step that reported `SATR_OK`; what follows is not called otherwise.
  unfoldable pub and_start : SatReturn × W → (W → SatReturn × W) → SatReturn × W
  and_start (satr_ok, w) next = next w
  and_start (satr_error, w) next = (satr_error, w)
  and_start (satr_pkt_illegal_subservice, w) next = (satr_error, w)

  module _ (kernel : Kernel W) where
    -- The body that the functions `start_<name>_service` share.
    unfoldable pub start_task : Task → W → SatReturn × W
    start_task t w =
        let (made, w₁) = kernel.create t w in
        if made then (satr_ok, kernel.register t w₁) else (satr_error, w₁)

    unfoldable pub start_gps_services : W → SatReturn × W
    start_gps_services w = and_start (start_task rtc w) (start_task nmea)

    unfoldable pub start_time_management_service : W → SatReturn × W
    start_time_management_service w = and_start (start_task time_management w) start_gps_services

    unfoldable pub start_cli_service : W → SatReturn × W
    start_cli_service w =
        and_start (start_task cli w) (λ w₁. (satr_ok, kernel.register_commands w₁))

    -- The services behind `start_cli_service`, whose report is not looked at.
    unfoldable pub start_services : W → SatReturn × W
    start_services w = and_start (start_task communication w) (λ w₁.
        and_start (start_time_management_service w₁) (λ w₂.
          and_start (start_task housekeeping w₂) (λ w₃. and_start (start_task general w₃) (λ w₄.
            and_start (start_task updater w₄)
              (λ w₅. and_start (start_task logger w₅) (start_task dfgm))))))

    unfoldable pub start_service_server : W → SatReturn × W
    start_service_server w =
        let (made, w₁) = kernel.create csp_server w in
        if made then start_services (start_cli_service w₁).1 else (satr_error, w₁)

-- What a kernel has done.
pub data Action : Type 0 where
  created registered : Task → Action
  commands_registered : Action

-- A kernel that can create the tasks of `can`, over the list of what it has done.
unfoldable pub logging : (Task → Bool) → Kernel (List Action)
logging can = record {
  create = λ t log. if can t then (true, log ++ created t ∷ []) else (false, log);
  register = λ t log. log ++ registered t ∷ [];
  register_commands = λ log. log ++ commands_registered ∷ [];
}

-- The tasks that are started in turn until one cannot be created.
pub started : (Task → Bool) → List Task → SatReturn × List Action
started can [] = (satr_ok, [])
started can (t ∷ ts) =
    let (r, log) = started can ts in
    if can t then (r, created t ∷ registered t ∷ log) else (satr_error, [])

abbrev pub services : List Task
services =
    communication ∷ time_management ∷ rtc ∷ nmea ∷ housekeeping ∷ general ∷ updater ∷ logger ∷ dfgm
    ∷ []

end_append : (log : List Action) → log ≡ log ++ []
end_append [] = refl
end_append (a ∷ log) = ap (λ l. a ∷ l) (end_append log)

two_more :
    (log : List Action) (a b : Action) (rest : List Action)
    → ((log ++ a ∷ []) ++ b ∷ []) ++ rest ≡ log ++ a ∷ b ∷ rest
two_more log a b rest = rw (append_assoc, append_assoc) refl

then_started : (Task → Bool) → List Task → List Action → SatReturn × List Action
then_started can ts log = ((started can ts).0, log ++ (started can ts).1)

and_start_assoc :
    {W : Type 0} (r : SatReturn × W) (f g : W → SatReturn × W)
    → and_start (and_start r f) g ≡ and_start r (λ w. and_start (f w) g)
unfolding and_start
and_start_assoc (satr_ok, w) f g = refl
and_start_assoc (satr_error, w) f g = refl
and_start_assoc (satr_pkt_illegal_subservice, w) f g = refl

module _ (can : Task → Bool) where
  -- One task more at the front of the list.
  start_first :
      (t : Task) (ts : List Task) (log : List Action) (next : List Action → SatReturn × List Action)
      → ((l : List Action) → next l ≡ then_started can ts l)
      → and_start (start_task (logging can) t log) next ≡ then_started can (t ∷ ts) log
  unfolding and_start start_task logging then_started started
  start_first t ts log next rest = elim (Bool-cases (can t)) [
    | inl made ↦ rw made (rest _ ∙ ap (λ l. ((started can ts).0, l)) (two_more log _ _ _))
    | inr failed ↦ rw failed (ap (λ l. (satr_error, l)) (end_append log))
  ]

  start_last :
      (t : Task) (log : List Action)
      → start_task (logging can) t log ≡ then_started can (t ∷ []) log
  unfolding start_task logging then_started started
  start_last t log = elim (Bool-cases (can t)) [
    | inl made ↦ rw made (ap (λ l. (satr_ok, l)) (append_assoc log _ _))
    | inr failed ↦ rw failed (ap (λ l. (satr_error, l)) (end_append log))
  ]

  start_services_lem :
      (log : List Action) → start_services (logging can) log ≡ then_started can services log
  unfolding start_services start_time_management_service start_gps_services
  start_services_lem log = start_first communication _ log _ λ l₁.
      and_start_assoc (start_task (logging can) time_management l₁) _ _
      ∙ start_first time_management _ l₁ _ λ l₂.
        and_start_assoc (start_task (logging can) rtc l₂) _ _
        ∙ start_first rtc _ l₂ _ λ l₃. start_first nmea _ l₃ _ λ l₄.
          start_first housekeeping _ l₄ _ λ l₅. start_first general _ l₅ _ λ l₆.
            start_first updater _ l₆ _ λ l₇. start_first logger _ l₇ _ λ l₈. start_last dfgm l₈

  -- What the CLI service leaves in the log; its failure is not looked at.
  pub cli_actions : List Action
  cli_actions = if can cli then created cli ∷ registered cli ∷ commands_registered ∷ [] else []

  start_cli_lem : (log : List Action) → (start_cli_service (logging can) log).1 ≡ log ++ cli_actions
  unfolding start_cli_service and_start start_task logging cli_actions
  start_cli_lem log = elim (Bool-cases (can cli)) [
    | inl made ↦ rw made (two_more log _ _ _)
    | inr failed ↦ rw failed (end_append log)
  ]

  -- On a kernel that can create the tasks of `can`: without the task of `csp_server` nothing is
  -- started and `SATR_ERROR` is reported. Otherwise the CLI service is started if it can be, and
  -- then the other services one after the other until one cannot be created, whose followers stay
  -- unstarted; the report is `SATR_OK` exactly where all of these were created, CLI or not.
  pub server_starts : start_service_server (logging can) [] ≡ (
      if can csp_server
      then (
        (started can services).0,
        created csp_server ∷ (cli_actions ++ (started can services).1),
      )
      else (satr_error, []))
  unfolding start_service_server logging
  server_starts = elim (Bool-cases (can csp_server)) [
    | inl made ↦ rw made (
        ap (λ l. start_services (logging can) l) (start_cli_lem (created csp_server ∷ []))
        ∙ start_services_lem _
        ∙ unfold then_started in refl)
    | inr failed ↦ rw failed refl
  ]
