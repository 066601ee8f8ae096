-- ===== src/Communication/Laws/Settings.antt =====
-- How answers fit into the buffer, and which bytes of a key and of an address arrive.
use ex2_services.Base.{ℕ, ◌+◌, ◌%◌, ◌^◌, ◌<◌, ◌≡◌, ap, ◌∙◌, arith, ◌∷◌}
use ex2_services.Csp.Bytes.{Endian, little, big, Memory, slice, u32_bytes, slice-status_u32}
use ex2_services.Csp.Network.{Network, hton32_bytes}
use ex2_services.Csp.Packet.{Packet}
use ex2_services.Communication.Answer.{Floats, reply, reply_data, answer_data}
use ex2_services.Communication.Uhf.{UhfHal}
use ex2_services.Communication.Uhf.Set.{uhf_set_i2c}
use ex2_services.Communication.Uhf.Get.{uhf_get_secure_key}

module _ {e : Endian} (net : Network e) (fl : Floats) {W : Type 0} (data_size : ℕ)
    (stack : Memory) where
  -- A secure key of 32 bits goes to the ground in network order behind the status, on either host.
  pub secure_key_bytes :
      (hal : UhfHal W) (p : Packet) (w : W)
      → (hal.get_secure_key w).1 < 2 ^ 32
      → slice 0 6 (uhf_get_secure_key net fl hal data_size stack p w).1.bytes
        ≡ p.bytes 0 ∷ (hal.get_secure_key w).0 % 256 ∷ u32_bytes big (hal.get_secure_key w).1
  unfolding uhf_get_secure_key reply_data answer_data
  secure_key_bytes hal p w small =
      slice-status_u32 e p.bytes _ _
      ∙ ap (λ bs. p.bytes 0 ∷ (hal.get_secure_key w).0 % 256 ∷ bs) (hton32_bytes e net _ small)

-- What is left of a byte that is taken as 32 bits, converted, and cut to a byte.
abbrev pub kept : Endian → ℕ → ℕ
kept little x = 0
kept big x = x

kept_lem : (e : Endian) (net : Network e) (x : ℕ) → x < 256 → net.ntoh32 x % 256 ≡ kept e x
kept_lem little net x h =
    let address = net.ntoh32_lem x 0 0 0 h (omega arith) (omega arith) (omega arith) in
    ground (arith, address)
kept_lem big net x h =
    let address = net.ntoh32_lem 0 0 0 x (omega arith) (omega arith) (omega arith) h in
    ground (arith, address)

-- `UHF_SET_I2C` on a little-endian host sets the address 0, whatever the ground asks for, since the
-- conversion of the one-byte address keeps no bit of it; on a big-endian host it sets the byte of
-- the request plus 12, modulo 256.
pub i2c_address :
    {e : Endian} (net : Network e) (fl : Floats) {W : Type 0} (hal : UhfHal W) (data_size : ℕ)
    (stack : Memory) (p : Packet) (w : W)
    → (uhf_set_i2c net fl hal data_size stack p w).2
      ≡ (hal.set_i2c (kept e ((p.bytes 1 + 12) % 256)) w).1
unfolding uhf_set_i2c reply
i2c_address {e} net fl hal data_size stack p w =
    ap (λ x. (hal.set_i2c x w).1) (kept_lem e net ((p.bytes 1 + 12) % 256) (omega arith))
