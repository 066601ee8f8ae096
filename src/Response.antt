-- ===== src/Response.antt =====
-- Services/source/response/service_response.c: the queue of responses and the task that sends them.
pub mod Laws
use ex2_services.Base.{ℕ, Bool, true, false, Option, none, some, List, [], ◌∷◌, if◌then◌else◌}
use ex2_services.Csp.Packet.{Packet, SatReturn, satr_ok, satr_error}

-- A packet with the fields of its header that the task looks at, `id.src` and `id.dport`.
pub record Response : Type 0 where
  pub packet : Packet
  pub src : ℕ
  pub dport : ℕ

-- The queue of FreeRTOS, on a state `Q`: `xQueueSendToBack` may find it full, and `xQueueReceive`
-- empty. `xQueueCreate` may give none.
pub record Queue (Q : Type 0) : Type 0 where
  pub send_to_back : Response → Q → Bool × Q
  pub receive : Q → Option Response × Q
  pub create : Option Q

-- `csp_connect` may give NULL; `csp_send` and `csp_close` are given what it gave.
pub record Csp (W : Type 0) : Type 0 where
  pub connect : (dest dport : ℕ) → W → Option ℕ × W
  pub send : Option ℕ → Packet → W → Bool × W
  pub buffer_free : ℕ → W → W
  pub close : Option ℕ → W → W

module _ {Q W : Type 0} (queue : Queue Q) (csp : Csp W) where
  -- The response goes back to where its packet came from. The Boolean tells whether it was sent.
  unfoldable pub deliver : Response → W → Bool × W
  deliver r w =
      let (conn, w₁) = csp.connect r.src r.dport w in
      let (taken, w₂) = csp.send conn r.packet w₁ in
      (taken, csp.close conn (if taken then w₂ else csp.buffer_free r.packet.buffer w₂))

  -- One round of `service_response_task`, with what it delivers.
  unfoldable pub response_round : Q × W → List (Response × Bool) × Q × W
  unfolding deliver
  response_round (q, w) =
      let (received, q₁) = queue.receive q in
      elim received [
        | none ↦ ([], q₁, w)
        | some r ↦ let (taken, w₁) = deliver r w in ((r, taken) ∷ [], q₁, w₁)
      ]

  unfoldable pub queue_response : Response → Q → SatReturn × Q
  queue_response r q =
      let (accepted, q₁) = queue.send_to_back r q in (if accepted then satr_ok else satr_error, q₁)

  -- The queue is created before the task, which `xTaskCreate` may refuse.
  unfoldable pub start_service_response : Bool → SatReturn × Option Q
  start_service_response task_created = elim queue.create [
    | none ↦ (satr_error, none)
    | some q ↦ (if task_created then satr_ok else satr_error, some q)
  ]
