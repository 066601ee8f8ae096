-- ===== src/Service/Task/Laws.antt =====
-- What becomes of the packets that a task reads, and how its watchdog counter moves.
use ex2_services.Base.{
  ℕ, ◌+◌, ◌*◌, ◌%◌, ◌^◌, ◌≡◌, refl, Bool, List, [], ◌∷◌, ◌++◌, map, ap, append_assoc, arith, length,
  ◌<◌, ◌∙◌, true, false,
}
use ex2_services.Csp.Packet.{Packet, SatReturn, satr_ok, satr_error, satr_pkt_illegal_subservice}
use ex2_services.Service.Task.{
  App, Accept, timeout, connection, Event, sent, send_failed, freed, closed, respond, read_loop,
  iteration, task,
}

-- The buffers that a trace gives back to libcsp, by a successful `csp_send` or `csp_buffer_free`.
unfoldable pub released : List Event → List ℕ
released [] = []
released (sent p ∷ es) = p.buffer ∷ released es
released (send_failed p ∷ es) = released es
released (freed b ∷ es) = b ∷ released es
released (closed ∷ es) = released es

-- The buffers that `csp_read` handed to the task.
unfoldable pub received : List Accept → List ℕ
received [] = []
received (timeout ∷ rest) = received rest
received (connection packets ∷ rest) = map (λ x. x.0.buffer) packets ++ received rest

pub released-append : (es fs : List Event) → released (es ++ fs) ≡ released es ++ released fs
unfolding released
released-append [] fs = refl
released-append (sent p ∷ es) fs = ap (λ l. p.buffer ∷ l) (released-append es fs)
released-append (send_failed p ∷ es) fs = released-append es fs
released-append (freed b ∷ es) fs = ap (λ l. b ∷ l) (released-append es fs)
released-append (closed ∷ es) fs = released-append es fs

released-closed : (bs : List ℕ) → released (closed ∷ []) ++ bs ≡ bs
unfolding released
released-closed bs = refl

released-respond :
    (r : SatReturn) (sends : Bool) (p : Packet) → released (respond r sends p) ≡ p.buffer ∷ []
unfolding released respond
released-respond satr_ok true p = refl
released-respond satr_ok false p = refl
released-respond satr_error sends p = refl
released-respond satr_pkt_illegal_subservice sends p = refl

module _ {W : Type 0} (app : App W) where
  module _ (keeps : (p : Packet) (w : W) → (app p w).1.buffer ≡ p.buffer) where
    released-read_loop :
        (packets : List (Packet × Bool)) (w : W)
        → released (read_loop app packets w).0 ≡ map (λ x. x.0.buffer) packets
    unfolding read_loop
    released-read_loop [] w = unfold released in refl
    released-read_loop ((p, sends) ∷ rest) w =
        rw (released-append, released-respond, keeps p w)
          (ap (λ l. p.buffer ∷ l) (released-read_loop rest (app p w).2))

    -- Whatever the environment does, each packet that `csp_read` hands to the task is given back
    -- exactly once, by a successful send or by a free, and in the order of arrival: nothing leaks
    -- and nothing is freed twice.
    pub released-task :
        (top : ℕ) (inputs : List Accept) (w : W) (counter : ℕ)
        → released (task app top inputs (w, counter)).0 ≡ received inputs
    unfolding task iteration received
    released-task top [] w counter = unfold released in refl
    released-task top (timeout ∷ rest) w counter =
        released-task top rest w ((counter + top + 1) % 2 ^ 32)
    released-task top (connection packets ∷ rest) w counter =
        let w' : W = (read_loop app packets w).1 in
        let later = released-task top rest w' ((counter + top + 1) % 2 ^ 32) in
        rw
          (
            released-append,
            released-append,
            released-read_loop packets w,
            append_assoc,
            released-closed,
          )
          (ap (λ l. map (λ x. x.0.buffer) packets ++ l) later)

  -- The watchdog counter of a task goes up by the same amount in every iteration, with a connection
  -- or without one, whatever the application does.
  pub counter-task :
      (top : ℕ) (inputs : List Accept) (w : W) (counter : ℕ)
      → counter < 2 ^ 32
      → (task app top inputs (w, counter)).2 ≡ (counter + (top + 1) * length inputs) % 2 ^ 32
  unfolding task iteration
  counter-task top [] w counter h = omega arith
  counter-task top (timeout ∷ rest) w counter h =
      counter-task top rest w ((counter + top + 1) % 2 ^ 32) (omega arith) ∙ omega arith
  counter-task top (connection packets ∷ rest) w counter h =
      counter-task top rest _ ((counter + top + 1) % 2 ^ 32) (omega arith) ∙ omega arith
