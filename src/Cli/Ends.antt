-- ===== src/Cli/Ends.antt =====
-- `cli_app` comes to an end where the command interpreter does.
use ex2_services.Base.{
  ℕ, zero, suc, ◌+◌, ◌≤◌, ◌<◌, ◌≡◌, ◌⊎◌, refl, arith, true, false, Option, none, some, Option-cases,
  Bool-cases, ltb, inl, inr, List, [], ◌∷◌,
}
use ex2_services.Csp.Bytes.{Memory, put, slice}
use ex2_services.Csp.Packet.{Packet, in_data_byte}
use ex2_services.Housekeeping.Timestamps.{Run, done, null_pointer, ◌>>=◌}
use ex2_services.Cli.App.{Event, cloned, sent, Shell, Outcome, after, filled, answer_loop, cli_app}

-- The interpreter has ever fewer calls left while it says that there is more to come; sending and
-- cloning add none.
pub record Ends {W : Type 0} (shell : Shell W) : Type 0 where
  pub left : W → ℕ
  pub call_less :
      (input : Memory) (w : W)
      → (shell.process_command input w).0 ≡ true
      → left (shell.process_command input w).2 < left w
  pub send_same : (p : Packet) (w : W) → left (shell.send p w).1 ≤ left w
  pub clone_same : (p : Packet) (w : W) → left (shell.clone p w).1 ≤ left w

-- It returns, or it goes through the NULL that a call of `csp_buffer_clone` gave.
unfoldable pub ReturnsOrNull : {W : Type 0} → Shell W → Run (Outcome W) → Type 0
ReturnsOrNull {W} shell r =
    ((outcome : Outcome W) × (r ≡ done outcome))
    ⊎ ((r ≡ null_pointer) × ((p : Packet) × (w : W) × ((shell.clone p w).0 ≡ none)))

module _ {W : Type 0} (shell : Shell W) where
  -- What is done before a result.
  prefixed :
      (events : List Event) (r : Run (Outcome W))
      → ReturnsOrNull shell r
      → ReturnsOrNull shell (r >>= λ outcome. done (after events outcome))
  unfolding ReturnsOrNull
  prefixed events r (inl (outcome, e)) = rw e (inl (_, refl))
  prefixed events r (inr (e, missing)) = rw e (inr (refl, missing))

  module _ (ends : Ends shell) where
    -- A loop without an original has none because a clone gave NULL.
    loop_ends :
        (fuel : ℕ) (input : Memory) (original : Option Packet) (p : Packet) (w : W)
        → (original ≡ none → (q : Packet) × (x : W) × ((shell.clone q x).0 ≡ none))
        → ends.left w < fuel
        → ReturnsOrNull shell (answer_loop shell fuel input original p w)
    unfolding answer_loop ReturnsOrNull
    loop_ends zero input original p w missing few = absurd (omega arith)
    loop_ends (suc fuel) input original p w missing few =
        let (more, text, w₁) = shell.process_command input w in
        let answer : Packet = filled shell p more text in
        let (sends, w₂) = shell.send answer w₁ in
        elim (Bool-cases sends) [
          | inr failed ↦ rw (failed, answer_loop) (inl (_, refl))
          | inl good ↦ elim (Bool-cases more) [
            | inr last ↦ rw (good, last, answer_loop) (inl (_, refl))
            | inl again ↦ elim (Option-cases original) [
              | inl nothing ↦ rw (good, again, nothing, answer_loop) (inr (refl, missing nothing))
              | inr (first, there) ↦ elim (Option-cases (shell.clone first w₂).0) [
                | inl null ↦
                    rw (good, again, there, null, answer_loop) (inr (refl, (first, w₂, null)))
                | inr (next, found) ↦
                    let w₃ : W = (shell.clone first w₂).1 in
                    let fewer : ends.left w₃ < fuel = omega (
                      arith,
                      few,
                      ends.call_less input w again,
                      ends.send_same answer w₁,
                      ends.clone_same first w₂,
                    ) in
                    let rest =
                      loop_ends fuel input (some first) next w₃ (λ e. absurd (ground arith))
                        fewer in
                    rw (good, again, there, found, answer_loop)
                      (prefixed (sent answer ∷ cloned next.buffer ∷ []) _ rest)
              ]
            ]
          ]
        ]

    -- Where the string fits into its array and the interpreter comes to an end, fuel above the number
    -- of calls that it has left is enough for `cli_app`, whatever becomes of the sends: it returns,
    -- or it has gone through NULL after a call of `csp_buffer_clone` that gave NULL.
    pub cli_app_ends :
        (fuel : ℕ) (p : Packet) (w : W)
        → p.bytes in_data_byte ≤ shell.max_input_size
        → ends.left w < fuel
        → ((outcome : Outcome W) × (cli_app shell fuel p w ≡ done outcome))
          ⊎ ((cli_app shell fuel p w ≡ null_pointer)
              × ((q : Packet) × (x : W) × ((shell.clone q x).0 ≡ none)))
    unfolding cli_app ReturnsOrNull
    cli_app_ends fuel p w fits few =
        let input : Memory =
          put 0 (slice (in_data_byte + 1) (p.bytes in_data_byte) p.bytes) (λ i. 0) in
        let w₁ : W = (shell.clone p w).1 in
        let fewer : ends.left w₁ < fuel = omega (arith, few, ends.clone_same p w) in
        let short : ltb shell.max_input_size (p.bytes in_data_byte) ≡ false = ground arith in
        elim (Option-cases (shell.clone p w).0) [
          | inl null ↦
              rw (short, null, cli_app) (loop_ends fuel input none p w₁ (λ e. (p, w, null)) fewer)
          | inr (copy, found) ↦
              rw (short, found, cli_app)
                (prefixed (cloned copy.buffer ∷ []) _
                  (loop_ends fuel input (some copy) p w₁ (λ e. absurd (ground arith)) fewer))
        ]
