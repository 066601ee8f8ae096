-- ===== src/Communication/Laws/Strings.antt =====
-- The strings that are taken from a request.
use ex2_services.Base.{
  ℕ, zero, suc, ◌+◌, ◌≤◌, ◌<◌, ◌≡◌, ◌≢◌, refl, ◌∙◌, [], ◌∷◌, ◌⊎◌, inl, inr, arith, ◌==◌, ◌&&◌, ◌/◌,
  ◌%◌, Bool-cases,
}
use ex2_services.Csp.Bytes.{Endian, Memory, put}
use ex2_services.Csp.Network.{Network}
use ex2_services.Csp.Packet.{Packet}
use ex2_services.Communication.Answer.{Floats, reply}
use ex2_services.Communication.Messages.{
  ConfigStruct, morse_beacon_msg_len_max, beacon_msg_len_max, copy_message, morse_char,
}
use ex2_services.Communication.Uhf.{UhfHal}
use ex2_services.Communication.Uhf.Set.{morse_of, uhf_set_morse, set_notes, uhf_set_midi}

-- The characters from `i` on that a loop which ended at `k` has stored.
pub Copied : (ℕ → ℕ) → Memory → ℕ → ℕ → ℕ → Memory → Type 0
Copied put_char from at i k message =
    (j : ℕ) → i ≤ j → j < k → (message j ≡ put_char (from (at + j))) × (from (at + j) ≢ 0)

put_same : (i b : ℕ) (m : Memory) → put i (b ∷ []) m i ≡ b
unfolding put
put_same i b m = ground arith

put_other : (i b j : ℕ) (m : Memory) → j ≢ i → put i (b ∷ []) m j ≡ m j
unfolding put
put_other i b j m ne = ground arith

first_or_later : (i j : ℕ) → i ≤ j → (j ≡ i) ⊎ (i + 1 ≤ j)
first_or_later i j low = ground arith

pub copy_message-Copied :
    (put_char : ℕ → ℕ) (n : ℕ) (from : Memory) (at i : ℕ) (message : Memory)
    → let (k, message') = copy_message put_char n from at i message in
      (i ≤ k)
      × (k ≤ i + n)
      × ((k ≡ i + n) ⊎ (from (at + k) ≡ 0))
      × ((j : ℕ) → j < i → message' j ≡ message j)
      × Copied put_char from at i k message'
unfolding copy_message Copied
copy_message-Copied put_char zero from at i message = (
  omega arith,
  omega arith,
  inl (omega arith),
  λ j below. refl,
  λ j low high. absurd (omega arith),
)
copy_message-Copied put_char (suc n) from at i message = elim (Bool-cases (from (at + i) == 0)) [
  | inl stop ↦ rw stop (
    omega arith,
    omega arith,
    inr (ground arith),
    λ j below. refl,
    λ j low high. absurd (omega arith),
  )
  | inr more ↦
      let (least, most, ended, kept, copied) =
        copy_message-Copied put_char n from at (i + 1)
          (put i (put_char (from (at + i)) ∷ []) message) in
      rw more (
        omega arith,
        omega arith,
        ground arith,
        λ j below. kept j (omega arith) ∙ put_other i _ j message (omega arith),
        λ j low high. elim (first_or_later i j low) [
          | inl first ↦
              rw first
                (kept i (omega arith) ∙ put_same i (put_char (from (at + i))) message, ground arith)
          | inr later ↦ copied j later high
        ],
      )
]

-- A bar becomes a space, any other character stays.
abbrev pub IsSpaced : ℕ → ℕ → Type 0
IsSpaced c d = ((c ≡ 124) × (d ≡ 32)) ⊎ ((c ≢ 124) × (d ≡ c))

morse_at :
    {d : ℕ} (m : Memory) (j : ℕ)
    → (d ≡ morse_char (m (1 + j))) × (m (1 + j) ≢ 0)
    → (m (1 + j) ≢ 0) × IsSpaced (m (1 + j)) d
unfolding morse_char
morse_at m j (same, some) = elim (Bool-cases (m (1 + j) == 124)) [
  | inl bar ↦ (some, inl (ground arith))
  | inr other ↦ (some, inr (ground arith))
]

module _ {e : Endian} (net : Network e) (fl : Floats) {W : Type 0} (hal : UhfHal W) (data_size : ℕ)
    (stack : Memory) where
  -- `UHF_SET_MORSE` sets one beacon and answers what the driver reports. The beacon has at most 36
  -- characters, and fewer only where a zero follows them in the request; its characters are those of
  -- the request, none of them zero, but with a space for each bar.
  pub morse_text :
      (p : Packet) (w : W)
      → (morse : ConfigStruct) × (uhf_set_morse net fl hal data_size stack p w
          ≡ reply p (hal.set_morse morse w))
        × (morse.len ≤ 36)
        × ((morse.len ≡ 36) ⊎ (p.bytes (1 + morse.len) ≡ 0))
        × ((j : ℕ)
            → j < morse.len
            → (p.bytes (1 + j) ≢ 0) × IsSpaced (p.bytes (1 + j)) (morse.message j))
  unfolding uhf_set_morse morse_of Copied
  morse_text p w =
      let (least, most, ended, kept, copied) =
        copy_message-Copied morse_char morse_beacon_msg_len_max p.bytes 1 0 stack in
      (
        morse_of net fl hal data_size stack p,
        refl,
        most,
        ended,
        λ j below. morse_at p.bytes j (copied j (omega arith) below),
      )

  -- `UHF_SET_MIDI` reads at most 60 characters behind the first of the request, fewer only where a
  -- zero follows them; longer texts are cut. If the first character of the request is M and the
  -- number of those read is a multiple of three, it sets them, as a third as many notes, and answers
  -- what the driver reports. Otherwise it answers `U_BAD_PARAM` and leaves the radio alone.
  pub midi_notes :
      (p : Packet) (w : W)
      → (count : ℕ) × (message : Memory) × (count ≤ 60)
        × ((count ≡ 60) ⊎ (p.bytes (2 + count) ≡ 0))
        × ((j : ℕ) → j < count → (message j ≡ p.bytes (2 + j)) × (p.bytes (2 + j) ≢ 0))
        × (((p.bytes 1 ≡ 77)
              × (count % 3 ≡ 0)
              × (uhf_set_midi net fl hal data_size stack p w
                  ≡ reply p (hal.set_midi (record { len = count / 3; message = message }) w)))
            ⊎ (((p.bytes 1 ≢ 77) ⊎ (count % 3 ≢ 0))
                × (uhf_set_midi net fl hal data_size stack p w ≡ reply p (hal.u_bad_param, w))))
  unfolding uhf_set_midi set_notes Copied
  midi_notes p w =
      let (count, message) = copy_message (λ c. c) beacon_msg_len_max p.bytes 2 0 stack in
      let (least, most, ended, kept, copied) =
        copy_message-Copied (λ c. c) beacon_msg_len_max p.bytes 2 0 stack in
      (
        count,
        message,
        most,
        ended,
        λ j below. copied j (omega arith) below,
        elim (Bool-cases (p.bytes 1 == 77 && count % 3 == 0)) [
          | inl whole ↦ inl (ground arith)
          | inr broken ↦ inr (ground arith)
        ],
      )
