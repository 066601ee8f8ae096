-- ===== src/Communication/Laws/Keeps.antt =====
-- What an answer keeps of its request, which requests to a radio are refused, and how messages are
-- padded.
use ex2_services.Base.{ℕ, ◌%◌, ◌≤◌, ◌<◌, ◌≡◌, ◌⊎◌, inl, refl, arith, ltb, if◌then◌else◌, List}
use ex2_services.Csp.Bytes.{Endian, Memory, put, put_outside, slice}
use ex2_services.Csp.Network.{Network}
use ex2_services.Csp.Packet.{Packet, SatReturn, satr_pkt_illegal_subservice, subservice_byte}
use ex2_services.Housekeeping.Timestamps.{done}
use ex2_services.Communication.Answer.{Floats, reply, reply_data, answer_status, answer_data}
use ex2_services.Communication.Messages.{padded}
use ex2_services.Communication.Sband.{SbandHal}
use ex2_services.Communication.Uhf.{UhfHal}
use ex2_services.Communication.App.{
  unknown, subtype, sband_subtype, handle, communication_service_app,
}

-- A message that fits is padded with zeros.
pub padded_lem :
    (size n : ℕ) (m : Memory)
    → n % 256 ≤ size
    → padded size n m ≡ done (slice 0 size (λ i. if ltb i (n % 256) then m i else 0))
unfolding padded
padded_lem size n m fits = ground arith

subtype_unknown : (n : ℕ) → (n ≡ 0) ⊎ ((17 < n) × (n < 20)) ⊎ (45 < n) → subtype n ≡ unknown
unfolding subtype sband_subtype
subtype_unknown n none = ground arith

below_two : (bs : List ℕ) (m : Memory) → put 2 bs m 0 ≡ m 0
below_two bs m = put_outside 2 bs m 0 (inl (omega arith))

module _ {W : Type 0} where
  -- The packet keeps its address and its subservice.
  unfoldable pub Keeps : Packet → SatReturn × Packet × W → Type 0
  Keeps p r = (r.1.buffer ≡ p.buffer) × (r.1.bytes subservice_byte ≡ p.bytes subservice_byte)

  pub reply-Keeps : (p : Packet) (r : ℕ × W) → Keeps p (reply p r)
  unfolding Keeps reply answer_status put
  reply-Keeps p r = (refl, refl)

  pub answer_data-Keeps :
      (p : Packet) (r : SatReturn) (status : ℕ) (bs : List ℕ) (w : W)
      → Keeps p (r, answer_data p status bs, w)
  unfolding Keeps answer_data put
  answer_data-Keeps p r status bs w = (refl, below_two bs _)

  pub reply_data-Keeps :
      (size : ℕ) (p : Packet) (status : ℕ) (bs : List ℕ) (w : W)
      → Keeps p (reply_data size p status bs w)
  unfolding reply_data
  reply_data-Keeps size p status bs w = answer_data-Keeps p _ status bs w

-- A number that neither list of subservices has, or `S_GET_TEMP`, is refused: nothing is written,
-- and no driver is called.
pub communication_refuses :
    {e : Endian} (net : Network e) (fl : Floats) {W : Type 0} (sband : SbandHal W) (uhf : UhfHal W)
    (data_size : ℕ) (stack : Memory) (p : Packet) (w : W)
    → let n = p.bytes subservice_byte in
      (n ≡ 0) ⊎ ((17 < n) × (n < 20)) ⊎ (45 < n)
      → communication_service_app net fl sband uhf data_size stack p w
        ≡ done (satr_pkt_illegal_subservice, p, w)
unfolding communication_service_app handle
communication_refuses net fl sband uhf data_size stack p w none =
    rw (subtype_unknown (p.bytes subservice_byte) none) refl
