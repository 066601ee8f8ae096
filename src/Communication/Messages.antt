-- ===== src/Communication/Messages.antt =====
-- The character strings of `communication_service_app`: call signs and beacon messages.
use ex2_services.Base.{ℕ, zero, suc, ◌+◌, ◌%◌, ◌==◌, ltb, if◌then◌else◌, List, [], ◌∷◌}
use ex2_services.Csp.Bytes.{Memory, put, slice}
use ex2_services.Housekeeping.Timestamps.{Run, done, out_of_bounds}

-- `UHF_configStruct`: the array is a function of its index.
pub record ConfigStruct : Type 0 where
  pub len : ℕ
  pub message : Memory

abbrev pub callsign_len : ℕ
callsign_len = 6

abbrev pub morse_beacon_msg_len_max : ℕ
morse_beacon_msg_len_max = 36

abbrev pub beacon_msg_len_max : ℕ
beacon_msg_len_max = 60

abbrev pub fram_size : ℕ
fram_size = 16

abbrev pub single_note_len : ℕ
single_note_len = 3

-- The loop `for (i = 0; i < uhf_struct_len && packet->data[at + i] != 0; i++)`, with `n` rounds
-- left, which stores `put_char` of the character. It gives `i`.
unfoldable pub copy_message : (ℕ → ℕ) → ℕ → Memory → ℕ → ℕ → Memory → ℕ × Memory
copy_message put_char zero from at i message = (i, message)
copy_message put_char (suc n) from at i message =
    let rest =
      copy_message put_char n from at (i + 1) (put i (put_char (from (at + i)) ∷ []) message) in
    if from (at + i) == 0 then (i, message) else rest

-- `if (morse.message[i] == '|') morse.message[i] = ' ';`
unfoldable pub morse_char : ℕ → ℕ
morse_char c = if c == 124 then 32 else c

-- The array of `size` zeros in which the loop over `i < len` stores the message; `len` is a
-- uint8_t, and the loop does not look at `size`.
unfoldable pub padded : ℕ → ℕ → Memory → Run (List ℕ)
padded size len message =
    if ltb size (len % 256)
    then out_of_bounds
    else done (slice 0 size (λ i. if ltb i (len % 256) then message i else 0))
