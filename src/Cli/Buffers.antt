-- ===== src/Cli/Buffers.antt =====
-- Which buffers `cli_service` gives back.
use ex2_services.Base.{
  ℕ, zero, suc, ◌+◌, ◌*◌, ◌≤◌, ◌≡◌, ◌∙◌, refl, subst, arith, Bool, Option, none, some, List, [],
  ◌∷◌, ◌++◌, ◌==◌, ltb, if◌then◌else◌, Bool-cases, inl, inr, Option-cases,
}
use ex2_services.Csp.Bytes.{Memory}
use ex2_services.Csp.Packet.{Packet, SatReturn, satr_ok, satr_error, satr_pkt_illegal_subservice}
use ex2_services.Housekeeping.Timestamps.{Run, done, null_pointer, ◌>>=◌, Returns, done_of-bind}
use ex2_services.Cli.App.{
  Event, cloned, sent, send_failed, freed, Shell, free, Outcome, after, filled, answer_loop,
  cli_app, finished, cli_packet,
}

abbrev pub one_if : Bool → ℕ
one_if b = if b then 1 else 0

-- How often buffer `b` was given back in the events, and how often it was taken as a clone.
unfoldable pub given_back : ℕ → List Event → ℕ
given_back b [] = 0
given_back b (cloned c ∷ es) = given_back b es
given_back b (sent p ∷ es) = one_if (p.buffer == b) + given_back b es
given_back b (send_failed p ∷ es) = given_back b es
given_back b (freed c ∷ es) = one_if (c == b) + given_back b es

unfoldable pub taken : ℕ → List Event → ℕ
taken b [] = 0
taken b (cloned c ∷ es) = one_if (c == b) + taken b es
taken b (sent p ∷ es) = taken b es
taken b (send_failed p ∷ es) = taken b es
taken b (freed c ∷ es) = taken b es

-- How many sends failed.
unfoldable pub failed_sends : List Event → ℕ
failed_sends [] = 0
failed_sends (cloned c ∷ es) = failed_sends es
failed_sends (sent p ∷ es) = failed_sends es
failed_sends (send_failed p ∷ es) = 1 + failed_sends es
failed_sends (freed c ∷ es) = failed_sends es

failed_sends-append :
    (es fs : List Event) → failed_sends (es ++ fs) ≡ failed_sends es + failed_sends fs
unfolding failed_sends
failed_sends-append [] fs = omega arith
failed_sends-append (cloned c ∷ es) fs = failed_sends-append es fs
failed_sends-append (sent p ∷ es) fs = failed_sends-append es fs
failed_sends-append (send_failed p ∷ es) fs = omega (arith, failed_sends-append es fs)
failed_sends-append (freed c ∷ es) fs = failed_sends-append es fs

-- Behind the loop's last send come only frees.
free-failed_sends : (original : Option Packet) → failed_sends (free original) ≡ 0
unfolding failed_sends free
free-failed_sends none = refl
free-failed_sends (some p) = refl

given_back-append :
    (b : ℕ) (es fs : List Event) → given_back b (es ++ fs) ≡ given_back b es + given_back b fs
unfolding given_back
given_back-append b [] fs = omega arith
given_back-append b (cloned c ∷ es) fs = given_back-append b es fs
given_back-append b (sent p ∷ es) fs = omega (arith, given_back-append b es fs)
given_back-append b (send_failed p ∷ es) fs = given_back-append b es fs
given_back-append b (freed c ∷ es) fs = omega (arith, given_back-append b es fs)

taken-append : (b : ℕ) (es fs : List Event) → taken b (es ++ fs) ≡ taken b es + taken b fs
unfolding taken
taken-append b [] fs = omega arith
taken-append b (cloned c ∷ es) fs = omega (arith, taken-append b es fs)
taken-append b (sent p ∷ es) fs = taken-append b es fs
taken-append b (send_failed p ∷ es) fs = taken-append b es fs
taken-append b (freed c ∷ es) fs = taken-append b es fs

-- The buffers held before the loop: the packet, and the original where there is one.
held : ℕ → Option Packet → ℕ
held b none = 0
held b (some p) = one_if (p.buffer == b)

failed_balance :
    (b : ℕ) (original : Option Packet) (p answer : Packet)
    → let es = send_failed answer ∷ free original ++ freed p.buffer ∷ [] in
      given_back b es ≡ taken b es + one_if (p.buffer == b) + held b original
unfolding given_back taken free held
failed_balance b none p answer = omega arith
failed_balance b (some o) p answer = omega arith

last_balance :
    (b : ℕ) (original : Option Packet) (p answer : Packet)
    → answer.buffer ≡ p.buffer
    → let es = sent answer ∷ free original in
      given_back b es ≡ taken b es + one_if (p.buffer == b) + held b original
unfolding given_back taken free held
last_balance b none p answer same = rw same (omega arith)
last_balance b (some o) p answer same = rw same (omega arith)

on_balance :
    (b : ℕ) (original : Option Packet) (p answer next : Packet) (es : List Event)
    → answer.buffer ≡ p.buffer
    → given_back b es ≡ taken b es + one_if (next.buffer == b) + held b original
    → given_back b (sent answer ∷ cloned next.buffer ∷ es)
      ≡ taken b (sent answer ∷ cloned next.buffer ∷ es) + one_if (p.buffer == b) + held b original
unfolding given_back taken
on_balance b original p answer next es same later = rw same (omega (arith, later))

start_balance :
    (b : ℕ) (p copy : Packet) (es : List Event)
    → given_back b es ≡ taken b es + one_if (p.buffer == b) + held b (some copy)
    → given_back b (cloned copy.buffer ∷ es)
      ≡ taken b (cloned copy.buffer ∷ es) + one_if (p.buffer == b)
unfolding given_back taken held
start_balance b p copy es later = omega (arith, later)

-- How many sends failed, by the report.
unfoldable too_often : SatReturn → ℕ
too_often satr_ok = 0
too_often satr_error = 1
too_often satr_pkt_illegal_subservice = 1

failed_told :
    (original : Option Packet) (p answer : Packet)
    → failed_sends (send_failed answer ∷ free original ++ freed p.buffer ∷ [])
      ≡ too_often satr_error
unfolding failed_sends too_often free
failed_told none p answer = refl
failed_told (some o) p answer = refl

freed_balance :
    (b c t : ℕ) (es : List Event)
    → given_back b es ≡ taken b es + t
    → given_back b (es ++ freed c ∷ []) ≡ taken b (es ++ freed c ∷ []) + t + one_if (c == b)
unfolding given_back taken
freed_balance b c t es h =
    rw (given_back-append b es (freed c ∷ []), taken-append b es (freed c ∷ [])) (omega (arith, h))

module _ {W : Type 0} (shell : Shell W) where
  -- The loop gives back what it holds and what it takes, and reports whether a send failed.
  IsBalanced : ℕ → Option Packet → Packet → Outcome W → Type 0
  IsBalanced b original p (r, es, w) =
      (given_back b es ≡ taken b es + one_if (p.buffer == b) + held b original)
      × (failed_sends es ≡ too_often r)

  -- The branch of the loop that goes on.
  going_on : ℕ → Memory → Option Packet → Packet → W → Run (Outcome W)
  going_on fuel input original answer w = elim original [
    | none ↦ null_pointer
    | some first ↦
        let (copy, w₁) = shell.clone first w in
        elim copy [
          | none ↦ null_pointer
          | some next ↦ answer_loop shell fuel input (some first) next w₁ >>= λ outcome.
              done (after (sent answer ∷ cloned next.buffer ∷ []) outcome)
        ]
  ]

  going_on-IsBalanced :
      (b fuel : ℕ) (input : Memory) (original : Option Packet) (p answer : Packet) (w : W)
      (outcome : Outcome W)
      → ((o : Option Packet) (q : Packet) (x : W) (out : Outcome W)
          → answer_loop shell fuel input o q x ≡ done out
          → IsBalanced b o q out)
      → answer.buffer ≡ p.buffer
      → going_on fuel input original answer w ≡ done outcome
      → IsBalanced b original p outcome
  unfolding going_on IsBalanced failed_sends
  going_on-IsBalanced b fuel input none p answer w outcome rest same ran = absurd (ground arith)
  going_on-IsBalanced b fuel input (some first) p answer w outcome rest same ran =
      elim (Option-cases (shell.clone first w).0) [
        | inl missing ↦ absurd (ground (arith, rw (missing, going_on) at ran))
        | inr (next, found) ↦
            let (out, inner, end) = done_of-bind _ _ _ (rw (found, going_on) at ran) in
            let held_later = rest (some first) next _ out inner in
            subst (λ r. Returns r (IsBalanced b (some first) p)) end
              (on_balance b (some first) p answer next out.1 same held_later.0, held_later.1)
      ]

  loop-IsBalanced :
      (b fuel : ℕ) (input : Memory) (original : Option Packet) (p : Packet) (w : W)
      (outcome : Outcome W)
      → answer_loop shell fuel input original p w ≡ done outcome
      → IsBalanced b original p outcome
  unfolding answer_loop IsBalanced going_on filled failed_sends too_often
  loop-IsBalanced b zero input original p w outcome ran = absurd (ground arith)
  loop-IsBalanced b (suc fuel) input original p w outcome ran =
      let (more, text, w₁) = shell.process_command input w in
      let answer : Packet = filled shell p more text in
      let (sends, w₂) = shell.send answer w₁ in
      elim (Bool-cases sends) [
        | inr failed ↦
            let end = rw (failed, answer_loop) at ran in
            subst (λ r. Returns r (IsBalanced b original p)) end
              (failed_balance b original p answer, failed_told original p answer)
        | inl good ↦ elim (Bool-cases more) [
          | inr last ↦
              let end = rw (good, last, answer_loop) at ran in
              subst (λ r. Returns r (IsBalanced b original p)) end
                (last_balance b original p answer refl, free-failed_sends original)
          | inl again ↦
              going_on-IsBalanced b fuel input original p answer w₂ outcome
                (loop-IsBalanced b fuel input) refl (rw (good, again, answer_loop) at ran)
        ]
      ]

  app-IsBalanced :
      (b fuel : ℕ) (p : Packet) (w : W) (outcome : Outcome W)
      → cli_app shell fuel p w ≡ done outcome
      → (given_back b outcome.1 ≡ taken b outcome.1 + one_if (p.buffer == b))
        × (failed_sends outcome.1 ≡ too_often outcome.0)
  unfolding cli_app IsBalanced held failed_sends
  app-IsBalanced b fuel p w outcome ran = elim (Bool-cases (ltb shell.max_input_size (p.bytes 1))) [
    | inl above ↦ absurd (ground (arith, rw (above, cli_app) at ran))
    | inr fits ↦ elim (Option-cases (shell.clone p w).0) [
      | inl missing ↦
          let balanced =
            loop-IsBalanced b fuel _ none p _ outcome (rw (fits, missing, cli_app) at ran) in
          (balanced.0 ∙ omega arith, balanced.1)
      | inr (copy, found) ↦
          let (out, inner, end) = done_of-bind _ _ _ (rw (fits, found, cli_app) at ran) in
          let balanced = loop-IsBalanced b fuel _ (some copy) p _ out inner in
          subst
            (λ r. Returns r (λ o.
              (given_back b o.1 ≡ taken b o.1 + one_if (p.buffer == b))
              × (failed_sends o.1 ≡ too_often o.0)))
            end (start_balance b p copy out.1 balanced.0, balanced.1)
    ]
  ]

  finished_balance :
      (b : ℕ) (p : Packet) (outcome : Outcome W)
      → given_back b outcome.1 ≡ taken b outcome.1 + one_if (p.buffer == b)
      → failed_sends outcome.1 ≡ too_often outcome.0
      → let es = (finished shell p outcome).0 in
        (given_back b es ≡ taken b es + (1 + failed_sends es) * one_if (p.buffer == b))
        × (failed_sends es ≤ 1)
  unfolding finished too_often failed_sends
  finished_balance b p (satr_ok, es, w) h told = rw told (omega (arith, h), omega arith)
  finished_balance b p (satr_error, es, w) h told =
      rw (failed_sends-append es (freed p.buffer ∷ []), told)
        (omega (arith, freed_balance b p.buffer _ es h), omega arith)
  finished_balance b p (satr_pkt_illegal_subservice, es, w) h told =
      rw (failed_sends-append es (freed p.buffer ∷ []), told)
        (omega (arith, freed_balance b p.buffer _ es h), omega arith)

  -- Where `cli_app` returns, so does `cli_service` with the packet, and each buffer is given back as
  -- often as it was handed to them, as the packet that was read or as a clone; but the packet that
  -- was read is given back once more for a send that failed, of which there is at most one.
  pub cli_packet_balance :
      (b fuel : ℕ) (p : Packet) (w : W) (outcome : Outcome W)
      → cli_app shell fuel p w ≡ done outcome
      → let (events, w₁) = finished shell p outcome in
        (cli_packet shell fuel p w ≡ done (events, w₁))
        × (given_back b events
            ≡ taken b events + (1 + failed_sends events) * one_if (p.buffer == b))
        × (failed_sends events ≤ 1)
  unfolding cli_packet
  cli_packet_balance b fuel p w outcome ran =
      let (balanced, told) = app-IsBalanced b fuel p w outcome ran in
      let (counts, few) = finished_balance b p outcome balanced told in (rw ran refl, counts, few)
