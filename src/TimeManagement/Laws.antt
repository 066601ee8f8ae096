-- ===== src/TimeManagement/Laws.antt =====
-- What the ground learns and changes through `time_management_app`.
use ex2_services.Service.Task.{Accept, task}
use ex2_services.Service.Task.Laws.{released, received, released-task}
use ex2_services.Base.{
  ℕ, ◌+◌, ◌%◌, ◌^◌, ◌<◌, ◌≡◌, ◌≢◌, ◌⊎◌, inl, inr, Bool-cases, arith, ◌==◌, ◌&&◌, List, [], ◌∷◌, ◌∙◌,
}
use ex2_services.Csp.Bytes.{Endian, Memory, slice-status_u32, put, slice, u32_bytes, u32_of, big}
use ex2_services.Csp.Packet.{Packet, satr_ok, subservice_byte, status_byte, minus_one}
use ex2_services.Csp.Network.{Network, IsBytes, ntoh32-cnv8_32, hton32_bytes}
use ex2_services.TimeManagement.{
  Rtc, get_time, set_time, min_year, max_year, timestamp_isok, time_management_app,
}

-- The time that the four bytes behind the subservice byte stand for, in network order.
abbrev pub requested : Packet → ℕ
requested p = u32_of big (p.bytes 1) (p.bytes 2) (p.bytes 3) (p.bytes 4)

big_digits :
    (m : Memory) (i : ℕ)
    → IsBytes m
    → ◌≡◌ {A = List ℕ}
        (get_time ∷ 0 ∷ u32_bytes big (u32_of big (m i) (m (i + 1)) (m (i + 2)) (m (i + 3))))
        (get_time ∷ 0 ∷ m i ∷ m (i + 1) ∷ m (i + 2) ∷ m (i + 3) ∷ [])
big_digits m i bytes =
    let a = bytes i in
    let b = bytes (i + 1) in let c = bytes (i + 2) in let d = bytes (i + 3) in ground arith

module _ {e : Endian} (net : Network e) {W : Type 0} (rtc : Rtc W) where
  -- `SET_TIME` with a time strictly between 2020 and 2030, in network order, hands that very time
  -- to the clock and answers with the clock's status.
  pub set_time-accepts :
      (p : Packet) (w : W)
      → IsBytes p.bytes
      → p.bytes subservice_byte ≡ set_time
      → min_year < requested p
      → requested p < max_year
      → let (r, answer, w') = time_management_app net rtc p w in
        (r ≡ satr_ok)
        × (answer.length ≡ 2)
        × (answer.bytes status_byte ≡ (rtc.set_unix (requested p) w).0 % 256)
        × (w' ≡ (rtc.set_unix (requested p) w).1)
  unfolding time_management_app put
  set_time-accepts p w bytes sub lo hi = ground (arith, ntoh32-cnv8_32 net p.bytes 1 bytes)

  -- The clock changes only by a `SET_TIME` whose time lies strictly between 2020 and 2030. Any other
  -- packet leaves it alone; if it was a `SET_TIME` the answer's status is then -1.
  pub time_management_app_guards :
      (p : Packet) (w : W)
      → IsBytes p.bytes
      → let (r, answer, w') = time_management_app net rtc p w in
        ((p.bytes subservice_byte ≡ set_time)
          × (min_year < requested p)
          × (requested p < max_year)
          × (w' ≡ (rtc.set_unix (requested p) w).1))
        ⊎ ((w' ≡ w)
            × ((p.bytes subservice_byte ≢ set_time) ⊎ (answer.bytes status_byte ≡ minus_one)))
  unfolding time_management_app put
  time_management_app_guards p w bytes =
      elim (Bool-cases (p.bytes subservice_byte == set_time && timestamp_isok (requested p))) [
        | inl accepted ↦ inl (ground (arith, ntoh32-cnv8_32 net p.bytes 1 bytes))
        | inr refused ↦ inr (ground (arith, ntoh32-cnv8_32 net p.bytes 1 bytes))
      ]

  -- `GET_TIME` answers with six bytes: the subservice, the clock's status, and the clock's time in
  -- network order, on a host of either byte order.
  pub get_time-answers :
      (p : Packet) (w : W)
      → p.bytes subservice_byte ≡ get_time
      → (rtc.get_unix w).1 < 2 ^ 32
      → let (r, answer, w') = time_management_app net rtc p w in
        (r ≡ satr_ok)
        × (answer.length ≡ 6)
        × (slice 0 6 answer.bytes
            ≡ get_time ∷ (rtc.get_unix w).0 % 256 ∷ u32_bytes big (rtc.get_unix w).1)
        × (w' ≡ w)
  unfolding time_management_app
  get_time-answers p w sub h =
      let (status, time) = rtc.get_unix w in
      ground (
        arith,
        slice-status_u32 e p.bytes (status % 256) (net.hton32 time),
        hton32_bytes e net time,
      )

  -- On a clock that keeps a time which it reports as set, `GET_TIME` after an accepted `SET_TIME`
  -- answers with success and with the very four bytes that the ground sent.
  pub set_time-get_time :
      (keeps : (t : ℕ) (w : W)
        → (rtc.set_unix t w).0 ≡ 0
        → rtc.get_unix (rtc.set_unix t w).1 ≡ (0, t))
      (p q : Packet) (w : W)
      → IsBytes p.bytes
      → p.bytes subservice_byte ≡ set_time
      → q.bytes subservice_byte ≡ get_time
      → min_year < requested p
      → requested p < max_year
      → (rtc.set_unix (requested p) w).0 ≡ 0
      → let (r, answer, w') = time_management_app net rtc p w in
        slice 0 6 (time_management_app net rtc q w').1.bytes ≡ get_time ∷ 0 ∷ slice 1 4 p.bytes
  set_time-get_time keeps p q w bytes set get lo hi done =
      let w' : W = (time_management_app net rtc p w).2 in
      let accepted = set_time-accepts p w bytes set lo hi in
      let clock : rtc.get_unix w' ≡ (0, requested p) =
        rw (accepted.3) (keeps (requested p) w done) in
      let small : (rtc.get_unix w').1 < 2 ^ 32 = rw clock (omega arith) in
      let answers = get_time-answers q w' get small in
      answers.2 ∙ rw clock (big_digits p.bytes 1 bytes)

  keeps_buffer : (p : Packet) (w : W) → (time_management_app net rtc p w).1.buffer ≡ p.buffer
  unfolding time_management_app
  keeps_buffer p w = ground arith

  -- The task of the clock gives each packet that it reads back exactly once, in order.
  pub time_management_releases :
      (top : ℕ) (inputs : List Accept) (w : W) (counter : ℕ)
      → released (task (time_management_app net rtc) top inputs (w, counter)).0 ≡ received inputs
  time_management_releases = released-task (time_management_app net rtc) keeps_buffer
