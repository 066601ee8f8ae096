-- ===== src/Response/Laws.antt =====
-- In whatever order the services queue responses and the task runs, the responses are taken in the
-- order in which they were accepted, and those whose sends succeed go out in this order.
use ex2_services.Base.{ℕ, Option, ◌≡◌, Bool, true, false, none, some, List, [], ◌∷◌, ◌++◌}
use ex2_services.Csp.Packet.{Packet, SatReturn, satr_ok, satr_error, satr_pkt_illegal_subservice}
use ex2_services.Response.{Response, Queue, Csp, response_round, queue_response}

-- What FreeRTOS says of a queue: first in, first out.
pub record Fifo {Q : Type 0} (queue : Queue Q) : Type 0 where
  pub items : Q → List Response
  pub sent :
      (r : Response) (q : Q)
      → (queue.send_to_back r q).0 ≡ true
      → items (queue.send_to_back r q).1 ≡ items q ++ r ∷ []
  pub full :
      (r : Response) (q : Q)
      → (queue.send_to_back r q).0 ≡ false
      → items (queue.send_to_back r q).1 ≡ items q
  pub empty : (q : Q) → (queue.receive q).0 ≡ none → items (queue.receive q).1 ≡ items q
  pub received :
      (r : Response) (q : Q)
      → (queue.receive q).0 ≡ some r
      → items q ≡ r ∷ items (queue.receive q).1

-- A network that records what goes out: a send that succeeds appends its packet, and nothing else
-- touches the record.
pub record Wire {W : Type 0} (csp : Csp W) : Type 0 where
  pub log : W → List Packet
  pub connect_log : (dest dport : ℕ) (w : W) → log (csp.connect dest dport w).1 ≡ log w
  pub sent_log :
      (conn : Option ℕ) (p : Packet) (w : W)
      → (csp.send conn p w).0 ≡ true
      → log (csp.send conn p w).1 ≡ log w ++ p ∷ []
  pub failed_log :
      (conn : Option ℕ) (p : Packet) (w : W)
      → (csp.send conn p w).0 ≡ false
      → log (csp.send conn p w).1 ≡ log w
  pub free_log : (b : ℕ) (w : W) → log (csp.buffer_free b w) ≡ log w
  pub close_log : (conn : Option ℕ) (w : W) → log (csp.close conn w) ≡ log w

-- The packets of the responses that were taken and sent.
unfoldable pub packets_sent : List (Response × Bool) → List Packet
packets_sent [] = []
packets_sent ((r, true) ∷ rs) = r.packet ∷ packets_sent rs
packets_sent ((r, false) ∷ rs) = packets_sent rs

-- A step of the system: a service queues a response, or the task runs one round.
pub data Step : Type 0 where
  queues : Response → Step
  runs : Step

-- What a call of `queue_response` accepts.
unfoldable pub accepted_by : Response → SatReturn → List Response
accepted_by r satr_ok = r ∷ []
accepted_by r satr_error = []
accepted_by r satr_pkt_illegal_subservice = []

module _ {Q W : Type 0} (queue : Queue Q) (csp : Csp W) where
  -- What one step accepts and delivers.
  unfoldable pub take_step : Step → Q × W → List Response × List (Response × Bool) × Q × W
  take_step (queues r) (q, w) =
      let (report, q₁) = queue_response queue csp r q in (accepted_by r report, [], q₁, w)
  take_step runs (q, w) =
      let (delivered, q₁, w₁) = response_round queue csp (q, w) in ([], delivered, q₁, w₁)

  -- What a sequence of steps accepts and delivers, in order.
  unfoldable pub take_steps : List Step → Q × W → List Response × List (Response × Bool) × Q × W
  unfolding take_step
  take_steps [] (q, w) = ([], [], q, w)
  take_steps (s ∷ ss) (q, w) =
      let (accepted, delivered, q₁, w₁) = take_step s (q, w) in
      let (more_accepted, more_delivered, q₂, w₂) = take_steps ss (q₁, w₁) in
      (accepted ++ more_accepted, delivered ++ more_delivered, q₂, w₂)
