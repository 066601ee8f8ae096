-- ===== src/Dfgm/Laws.antt =====
-- What the requests to the magnetometer do.
use ex2_services.Base.{ℕ, ◌≡◌, arith, List}
use ex2_services.Csp.Bytes.{Endian, little, big, u32_bytes, slice}
use ex2_services.Csp.Convert.{cnv8_32}
use ex2_services.Csp.Network.{Network}
use ex2_services.Csp.Packet.{Packet, subservice_byte}
use ex2_services.Service.Task.{Accept, task}
use ex2_services.Service.Task.Laws.{released, received, released-task}
use ex2_services.Dfgm.{
  DfgmHal, dfgm_service_app, handle_run, handle_start, handle_stop, handle_get_hk, answer_status,
  max_runtime,
}

runtime_lem :
    (e : Endian) (p : Packet)
    → slice 1 4 p.bytes ≡ u32_bytes e max_runtime
    → cnv8_32 e p.bytes 1 ≡ max_runtime
unfolding cnv8_32
runtime_lem little p same = ground arith
runtime_lem big p same = ground arith

module _ {e : Endian} (net : Network e) {W : Type 0} (hal : DfgmHal W) where
  keeps_buffer : (p : Packet) (w : W) → (dfgm_service_app net hal p w).1.buffer ≡ p.buffer
  unfolding dfgm_service_app handle_run handle_start handle_stop handle_get_hk answer_status
  keeps_buffer p w = ground arith

  -- The task of the magnetometer gives each packet that it reads back exactly once, in order.
  pub dfgm_releases :
      (top : ℕ) (inputs : List Accept) (w : W) (counter : ℕ)
      → released (task (dfgm_service_app net hal) top inputs (w, counter)).0 ≡ received inputs
  dfgm_releases = released-task (dfgm_service_app net hal) keeps_buffer

  -- `DFGM_RUN` reads the time to run in the order of the host: a request whose bytes are those that
  -- INT_MAX has on the host does what `DFGM_START` does.
  pub run_is_start :
      (p q : Packet) (w : W)
      → p.bytes subservice_byte ≡ 0
      → q.bytes subservice_byte ≡ 1
      → slice 1 4 p.bytes ≡ u32_bytes e max_runtime
      → (dfgm_service_app net hal p w).2 ≡ (dfgm_service_app net hal q w).2
  unfolding dfgm_service_app handle_run handle_start answer_status
  run_is_start p q w run start time =
      let same : cnv8_32 e p.bytes 1 ≡ max_runtime = runtime_lem e p time in ground (arith, same)
