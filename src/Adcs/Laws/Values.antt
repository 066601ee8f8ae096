-- ===== src/Adcs/Laws/Values.antt =====
-- Which numbers reach the driver of the ADCS, and which reach the ground.
use ex2_services.Base.{
  ℕ, zero, suc, ◌+◌, ◌%◌, ◌≤◌, ◌<◌, ◌≡◌, refl, ap, ◌∙◌, arith, true, inl, inr, Bool-cases, List, [],
  ◌∷◌, ◌++◌, get_or, length, ◌==◌, if◌then◌else◌,
}
use ex2_services.Csp.Bytes.{
  Endian, little, big, Memory, put, slice, u16_bytes, u16_of, u32_of, slice-status_u16,
}
use ex2_services.Csp.Convert.{cnv8_16}
use ex2_services.Csp.Network.{Network, IsBytes, hton32-digits, ntoh16-cnv8_16, ntoh32-cnv8_32}
use ex2_services.Csp.Packet.{Packet, subservice_byte}
use ex2_services.Service.Task.{read_loop, respond, sent}
use ex2_services.Communication.Answer.{reply, reply_data, answer_data}
use ex2_services.Adcs.Answer.{in_network, in_u16, in_u32, uint8, uint16, c_bool, reply_if_ok}
use ex2_services.Adcs.Files.{FilesHal, adcs_load_file_download_block, adcs_finalize_upload_block}
use ex2_services.Adcs.Status.{
  StatusHal, adcs_get_upload_crc16_checksum, adcs_get_comms_stat, adcs_get_finalize_upload_stat,
}
use ex2_services.Adcs.Settings.{SettingsHal, adcs_set_unix_t, adcs_set_sram_scrub_size}
use ex2_services.Adcs.Config.{ConfigHal, adcs_get_log_config, adcs_get_power_control}
use ex2_services.Adcs.App.{AdcsHal, subtypes, subtype, handle, adcs_service_app, unknown}

-- What is left of a number of 8 or 16 bits that is converted as 32 bits and stored back.
abbrev pub left : Endian → ℕ → ℕ
left little x = 0
left big x = x

uint16-left :
    (e : Endian) (net : Network e) (x : ℕ) → x < 65536 → in_network net uint16 x ≡ left e x
unfolding in_network
uint16-left little net x h = ground (arith, hton32-digits net x (omega arith))
uint16-left big net x h = ground (arith, hton32-digits net x (omega arith))

uint8-left : (e : Endian) (net : Network e) (x : ℕ) → x < 256 → in_network net uint8 x ≡ left e x
unfolding in_network
uint8-left little net x h = ground (arith, hton32-digits net x (omega arith))
uint8-left big net x h = ground (arith, hton32-digits net x (omega arith))

bool-left : (e : Endian) (net : Network e) (x : ℕ) → x < 2 → in_network net c_bool x ≡ x
unfolding in_network
bool-left little net x h = ground (arith, hton32-digits net x (omega arith))
bool-left big net x h = ground (arith, hton32-digits net x (omega arith))

left_bytes : (e : Endian) (x : ℕ) → u16_bytes e (left e x) ≡ u16_bytes big (left e x)
left_bytes little x = refl
left_bytes big x = refl

u16_length : (e : Endian) (x : ℕ) → length (u16_bytes e x) ≡ 2
u16_length little x = refl
u16_length big x = refl

two_written :
    (e : Endian) (x : ℕ) (m : Memory) → slice 2 2 (put 2 (u16_bytes e x) m) ≡ u16_bytes e x
unfolding put
two_written little x m = refl
two_written big x m = refl

overlap_bytes :
    (e : Endian) (s period dest : ℕ) (flags m : Memory)
    → let m₁ = put 2 (slice 0 10 flags) (put 1 (s ∷ []) m) in
      slice 0 16 (put 6 (0 ∷ []) (put 5 (dest ∷ []) (put 3 (u16_bytes e period) m₁)))
      ≡ (m 0 ∷ s ∷ flags 0 ∷ u16_bytes e period) ++ (dest ∷ 0 ∷ slice 5 5 flags) ++ slice 12 4 m
unfolding put
overlap_bytes little s period dest flags m = refl
overlap_bytes big s period dest flags m = refl

beyond : {A : Type 0} (xs : List A) (n : ℕ) (d : A) → length xs ≤ n → get_or xs n d ≡ d
beyond [] n d h = refl
beyond (x ∷ xs) zero d h = absurd (omega arith)
beyond (x ∷ xs) (suc n) d h = beyond xs n d (omega arith)

module _ {e : Endian} (net : Network e) {W : Type 0} (data_size : ℕ) where
  -- On a little-endian host the checksum of an upload goes to the ground as zeros, whatever the
  -- driver gave, and so does the power control; on a big-endian host they go in network order. The
  -- two Booleans of the end of an upload arrive on either.
  pub values_sent :
      (status_hal : StatusHal W) (config : ConfigHal W) (p : Packet) (w : W)
      → let (status, checksum, _) = status_hal.get_upload_crc16_checksum w in
        let (control_status, control, _) = config.get_power_control w in
        let (upload_status, busy, err, _) = status_hal.get_finalize_upload_stat 0 0 w in
        checksum < 65536
        → control < 256
        → busy < 2
        → err < 2
        → (slice 0 4 (adcs_get_upload_crc16_checksum net status_hal data_size p w).1.bytes
            ≡ p.bytes 0 ∷ status % 256 ∷ u16_bytes big (left e checksum))
          × (slice 0 3 (adcs_get_power_control net config data_size p w).1.bytes
              ≡ p.bytes 0 ∷ control_status % 256 ∷ left e control ∷ [])
          × (slice 0 4 (adcs_get_finalize_upload_stat net status_hal data_size p w).1.bytes
              ≡ p.bytes 0 ∷ upload_status % 256 ∷ busy ∷ err ∷ [])
  unfolding adcs_get_upload_crc16_checksum adcs_get_power_control adcs_get_finalize_upload_stat
      reply_data answer_data put
  values_sent status_hal config p w hc hp hb he = (
    slice-status_u16 e p.bytes _ _
        ∙ ap (λ bs. p.bytes 0 ∷ (status_hal.get_upload_crc16_checksum w).0 % 256 ∷ bs)
            (ap (u16_bytes e) (uint16-left e net _ hc) ∙ left_bytes e _),
    rw (uint8-left e net _ hp) refl,
    rw (bool-left e net _ hb, bool-left e net _ he) refl,
  )

  -- In the requests that load a block for download, finalize an upload, and set the UNIX time, the
  -- driver gets the 32-bit argument in network order, and the 16-bit argument with its two bytes
  -- swapped, on either host. In the request that sets the size of SRAM scrubbing, the second byte is
  -- the first in the host's order: the argument is right on a little-endian host, and swapped on a
  -- big-endian one.
  pub values_received :
      (files : FilesHal W) (settings : SettingsHal W) (p : Packet) (w : W)
      → IsBytes p.bytes
      → let m = p.bytes in
        let u32 : ℕ → ℕ = λ i. u32_of big (m i) (m (i + 1)) (m (i + 2)) (m (i + 3)) in
        let swapped : ℕ → ℕ = λ i. u16_of big (m (i + 1)) (m i) in
        (adcs_load_file_download_block net files data_size p w
          ≡ reply p (files.load_file_download_block (m 1) (m 2) (u32 3) (swapped 7) w))
        × (adcs_finalize_upload_block net files data_size p w
            ≡ reply p (files.finalize_upload_block (m 1) (u32 2) (swapped 6) w))
        × (adcs_set_unix_t net settings data_size p w
            ≡ reply p (settings.set_unix_t (u32 1) (swapped 5) w))
        × (adcs_set_sram_scrub_size net settings data_size p w
            ≡ reply p (settings.set_sram_scrub_size (u16_of e (m 2) (m 1)) w))
  unfolding adcs_load_file_download_block adcs_finalize_upload_block adcs_set_unix_t
      adcs_set_sram_scrub_size in_u16 in_u32 cnv8_16
  values_received files settings p w h = (
    rw (ntoh32-cnv8_32 net p.bytes 3 h, ntoh16-cnv8_16 net p.bytes 7 h) refl,
    rw (ntoh32-cnv8_32 net p.bytes 2 h, ntoh16-cnv8_16 net p.bytes 6 h) refl,
    rw (ntoh32-cnv8_32 net p.bytes 1 h, ntoh16-cnv8_16 net p.bytes 5 h) refl,
    refl,
  )

  -- The answer to the request for the communication status has four bytes. Where the driver reports
  -- `SATR_OK`, the last two are the status in network order on a big-endian host, but zeros on a
  -- little-endian one; otherwise they are the bytes of the request.
  pub comms_stat_answers :
      (hal : StatusHal W) (p : Packet) (w : W)
      → let (status, comm_status, _) = hal.get_comms_stat 0 w in
        let answer = (adcs_get_comms_stat net hal data_size p w).1 in
        comm_status < 65536
        → (answer.length ≡ 4)
          × (slice 2 2 answer.bytes ≡ (
              if (status % 256) == hal.satr_ok_number
              then u16_bytes e (left e comm_status)
              else slice 2 2 p.bytes))
  unfolding adcs_get_comms_stat reply_if_ok put
  comms_stat_answers hal p w h =
      let long : (x : ℕ) → (1 + length (u16_bytes e x) + 1) % 65536 ≡ 4 =
        λ x. ap (λ n. (1 + n + 1) % 65536) (u16_length e x) in
      elim (Bool-cases (((hal.get_comms_stat 0 w).0 % 256) == hal.satr_ok_number)) [
        | inl good ↦ rw (good, uint16-left e net _ h) (long _, two_written e _ _)
        | inr bad ↦ rw bad (long _, refl)
      ]

  -- The answer with the log configuration holds the first flag byte, the period, the destination and
  -- a zero, and then the last five flag bytes: the second to the fifth flag byte are written over,
  -- and the last four bytes of the answer are those of the request.
  pub log_config_overlaps :
      (hal : ConfigHal W) (p : Packet) (w : W)
      → let (status, flags, period, dest, _) = hal.get_log_config 0 w in
        slice 0 16 (adcs_get_log_config net hal data_size p w).1.bytes
        ≡ (p.bytes 0 ∷ status % 256 ∷ flags 0 ∷ u16_bytes e period)
          ++ (dest ∷ 0 ∷ slice 5 5 flags)
          ++ slice 12 4 p.bytes
  unfolding adcs_get_log_config put
  log_config_overlaps hal p w =
      let (status, flags, period, dest, w₁) = hal.get_log_config 0 w in
      overlap_bytes e (status % 256) period dest flags p.bytes

behind_last : (n : ℕ) → 107 < n → subtype n ≡ unknown
unfolding subtype
behind_last n h = beyond subtypes n unknown (omega arith)

-- A request whose number no subservice has is sent back as it came, as a good answer: the ground
-- reads its own first byte of data as the status.
pub unknown_sent_back :
    {e : Endian} (net : Network e) {W : Type 0} (hal : AdcsHal W) (data_size stack : ℕ) (p : Packet)
    (w : W)
    → 107 < p.bytes subservice_byte
    → read_loop (adcs_service_app net hal data_size stack) ((p, true) ∷ []) w ≡ (sent p ∷ [], w)
unfolding read_loop respond adcs_service_app handle
unknown_sent_back net hal data_size stack p w h = rw (behind_last (p.bytes subservice_byte) h) refl
