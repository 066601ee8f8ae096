-- ===== src/Adcs/Laws/Settings.antt =====
-- Settings of the ADCS that the ground sets and then asks for.
use ex2_services.Base.{ℕ, ◌≡◌, refl, sym, ap, ◌∙◌, List, get_or}
use ex2_services.Csp.Bytes.{Endian, Memory, put, slice, slice-put, length-slice, u16_of, big}
use ex2_services.Csp.Network.{Network, IsBytes, ntoh16-cnv8_16}
use ex2_services.Csp.Packet.{Packet, write_status}
use ex2_services.Communication.Answer.{reply, reply_data, answer_data}
use ex2_services.Adcs.Answer.{in_u16}
use ex2_services.Adcs.Config.{
  ConfigHal, adcs_set_attitude_angle, adcs_get_attitude_angle, adcs_set_track_controller,
  adcs_get_track_controller, adcs_set_inertial_ref, adcs_get_inertial_ref,
  adcs_set_sgp4_orbit_params, adcs_get_sgp4_orbit_params, adcs_set_system_config,
  adcs_get_system_config, adcs_set_log_config,
}

-- What the driver does with five settings: the struct that it was last given is the one that it
-- gives.
pub record Remembers {W : Type 0} (hal : ConfigHal W) : Type 0 where
  pub angle : (x : List ℕ) (w : W) → (hal.get_attitude_angle (hal.set_attitude_angle x w).1).1 ≡ x
  pub track :
      (x : List ℕ) (w : W) → (hal.get_track_controller (hal.set_track_controller x w).1).1 ≡ x
  pub inertial : (x : List ℕ) (w : W) → (hal.get_inertial_ref (hal.set_inertial_ref x w).1).1 ≡ x
  pub sgp4 :
      (x : List ℕ) (w : W) → (hal.get_sgp4_orbit_params (hal.set_sgp4_orbit_params x w).1).1 ≡ x
  pub system : (x : List ℕ) (w : W) → (hal.get_system_config (hal.set_system_config x w).1).1 ≡ x

-- Data that is `size` bytes of a memory goes to the ground as those bytes.
data_sent :
    {W : Type 0} (data_size size from status : ℕ) (q : Packet) (m : Memory) (bs : List ℕ) (w : W)
    → bs ≡ slice from size m
    → slice 2 size (reply_data data_size q status bs w).1.bytes ≡ slice from size m
unfolding reply_data answer_data
data_sent data_size size from status q m bs w same =
    let before : Memory = (write_status q status).bytes in
    let after : Memory = put 2 (slice from size m) before in
    rw same (
      ap (λ n. slice 2 n after) (sym (length-slice from size m))
      ∙ slice-put 2 (slice from size m) before)

module _ {e : Endian} (net : Network e) {W : Type 0} (hal : ConfigHal W) (data_size : ℕ) where
  -- With a driver that remembers what it was given, a request for the attitude angle, the tracking
  -- target, the inertial reference, the orbit parameters or the system configuration, made after a
  -- request that sets it, is answered with the bytes of that request.
  pub settings_come_back :
      (remembers : Remembers hal) (p q : Packet) (w : W)
      → let sent : ℕ → List ℕ = λ size. slice 1 size p.bytes in
        let got : ℕ → Packet → List ℕ = λ size a. slice 2 size a.bytes in
        let angle = (adcs_set_attitude_angle net hal data_size p w).2 in
        let track = (adcs_set_track_controller net hal data_size p w).2 in
        let inertial = (adcs_set_inertial_ref net hal data_size p w).2 in
        let orbit = (adcs_set_sgp4_orbit_params net hal data_size p w).2 in
        let system = (adcs_set_system_config net hal data_size p w).2 in
        let xyz = hal.xyz_size in
        let sgp4 = hal.adcs_sgp4_size in
        let config = hal.adcs_sys_config_size in
        (got xyz (adcs_get_attitude_angle net hal data_size q angle).1 ≡ sent xyz)
        × (got xyz (adcs_get_track_controller net hal data_size q track).1 ≡ sent xyz)
        × (got xyz (adcs_get_inertial_ref net hal data_size q inertial).1 ≡ sent xyz)
        × (got sgp4 (adcs_get_sgp4_orbit_params net hal data_size q orbit).1 ≡ sent sgp4)
        × (got config (adcs_get_system_config net hal data_size q system).1 ≡ sent config)
  unfolding adcs_set_attitude_angle adcs_get_attitude_angle adcs_set_track_controller
      adcs_get_track_controller adcs_set_inertial_ref adcs_get_inertial_ref
      adcs_set_sgp4_orbit_params adcs_get_sgp4_orbit_params adcs_set_system_config
      adcs_get_system_config reply
  settings_come_back remembers p q w = (
    data_sent data_size hal.xyz_size 1 _ q p.bytes _ _ (remembers.angle _ w),
    data_sent data_size hal.xyz_size 1 _ q p.bytes _ _ (remembers.track _ w),
    data_sent data_size hal.xyz_size 1 _ q p.bytes _ _ (remembers.inertial _ w),
    data_sent data_size hal.adcs_sgp4_size 1 _ q p.bytes _ _ (remembers.sgp4 _ w),
    data_sent data_size hal.adcs_sys_config_size 1 _ q p.bytes _ _ (remembers.system _ w),
  )

  -- The arguments of a request for a log configuration overlap: the period, the destination and the
  -- log are bytes of the flags, so that the ground cannot choose them apart. The period is made of
  -- the second and the third flag byte, whose third is the destination and whose fourth is the log.
  pub log_config_from_flags :
      (p : Packet) (w : W)
      → IsBytes p.bytes
      → let flags = slice 1 10 p.bytes in
        let period = u16_of big (get_or flags 2 0) (get_or flags 1 0) in
        let (status, after, w₁) =
          hal.set_log_config flags period (get_or flags 2 0) (get_or flags 3 0) w in
        adcs_set_log_config net hal data_size p w
        ≡ reply_data data_size p status (slice 0 10 after) w₁
  unfolding adcs_set_log_config in_u16
  log_config_from_flags p w bytes = rw (ntoh16-cnv8_16 net p.bytes 2 bytes) refl
