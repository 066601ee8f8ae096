-- ===== src/Cli/App.antt =====
-- `cli_app` and the handling of one connection in `cli_service`, both of
-- Services/source/cli/cli.c, with the buffers that they take and give back.
use ex2_services.Base.{
  ℕ, zero, suc, ◌+◌, Bool, true, false, Option, none, some, List, [], ◌∷◌, ◌++◌, ltb, if◌then◌else◌,
}
use ex2_services.Csp.Bytes.{Memory, put, slice}
use ex2_services.Csp.Packet.{
  Packet, SatReturn, satr_ok, satr_error, satr_pkt_illegal_subservice, in_data_byte, status_byte,
  write,
}
use ex2_services.Housekeeping.Timestamps.{Run, done, out_of_bounds, null_pointer, diverges, ◌>>=◌}

-- What becomes of buffers: `csp_buffer_clone` gives one, `csp_send` takes one where it succeeds, and
-- `csp_buffer_free` takes one.
pub data Event : Type 0 where
  cloned : ℕ → Event
  sent : Packet → Event
  send_failed : Packet → Event
  freed : ℕ → Event

-- libcsp, and the command interpreter, which gives whether there is more to come and what it leaves
-- in the output buffer, of which it was given zeros.
pub record Shell (W : Type 0) : Type 0 where
  pub max_input_size : ℕ
  pub max_output_size : ℕ
  pub clone : Packet → W → Option Packet × W
  pub send : Packet → W → Bool × W
  pub process_command : Memory → W → Bool × Memory × W

-- `csp_buffer_free` of what may be NULL.
unfoldable pub free : Option Packet → List Event
free none = []
free (some p) = freed p.buffer ∷ []

abbrev pub Outcome : Type 0 → Type 0
Outcome W = SatReturn × List Event × W

-- What was done before an outcome.
abbrev pub after : {W : Type 0} → List Event → Outcome W → Outcome W
after events (r, more, w) = (r, events ++ more, w)

module _ {W : Type 0} (shell : Shell W) where
  -- The answer to one call of the interpreter. Its length is not set.
  unfoldable pub filled : Packet → Bool → Memory → Packet
  filled packet more text =
      let written = write packet (in_data_byte + 1) (slice 0 shell.max_output_size text) in
      write written status_byte ((if more then 1 else 0) ∷ [])

  -- The loop; the clone of a NULL original is a use of it.
  unfoldable pub answer_loop : ℕ → Memory → Option Packet → Packet → W → Run (Outcome W)
  unfolding free filled
  answer_loop zero input original packet w = diverges
  answer_loop (suc fuel) input original packet w =
      let (more, text, w₁) = shell.process_command input w in
      let answer = filled packet more text in
      let (taken, w₂) = shell.send answer w₁ in
      elim taken [
        | false ↦
            done (satr_error, send_failed answer ∷ free original ++ freed packet.buffer ∷ [], w₂)
        | true ↦ elim more [
          | false ↦ done (satr_ok, sent answer ∷ free original, w₂)
          | true ↦ elim original [
            | none ↦ null_pointer
            | some first ↦
                let (copy, w₃) = shell.clone first w₂ in
                elim copy [
                  | none ↦ null_pointer
                  | some next ↦ answer_loop fuel input (some first) next w₃ >>= λ outcome.
                      done (after (sent answer ∷ cloned next.buffer ∷ []) outcome)
                ]
          ]
        ]
      ]

  -- The string of the command, behind its length, in an array of zeros.
  unfoldable pub cli_app : ℕ → Packet → W → Run (Outcome W)
  unfolding answer_loop
  cli_app fuel packet w =
      let size : ℕ = packet.bytes in_data_byte in
      let input : Memory = put 0 (slice (in_data_byte + 1) size packet.bytes) (λ i. 0) in
      let (original, w₁) = shell.clone packet w in
      if ltb shell.max_input_size size then out_of_bounds else elim original [
        | none ↦ answer_loop fuel input none packet w₁
        | some copy ↦ answer_loop fuel input (some copy) packet w₁ >>= λ outcome.
            done (after (cloned copy.buffer ∷ []) outcome)
      ]

  -- What `cli_service` does behind `cli_app`.
  unfoldable pub finished : Packet → Outcome W → List Event × W
  finished packet (satr_ok, events, w) = (events, w)
  finished packet (satr_error, events, w) = (events ++ freed packet.buffer ∷ [], w)
  finished packet (satr_pkt_illegal_subservice, events, w) = (events ++ freed packet.buffer ∷ [], w)

  -- One packet that `cli_service` reads.
  unfoldable pub cli_packet : ℕ → Packet → W → Run (List Event × W)
  unfolding cli_app finished
  cli_packet fuel packet w = cli_app fuel packet w >>= λ outcome. done (finished packet outcome)
