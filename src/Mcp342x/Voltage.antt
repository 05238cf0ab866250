-- ===== src/Mcp342x/Voltage.antt =====
-- Samples and voltages that the device functions answer.
use leos_sdk.Prelude.{ℕ, zero, suc, ◌%◌, ◌^◌, ◌<◌, ◌≡◌, refl, ap, ◌∙◌, arith, some}
use leos_sdk.Prelude.Int.{ℤ, negsuc, IsWithin}
use leos_sdk.Mcp342x.Device.{Device, I2c, set_resolution, write_config}
use leos_sdk.Mcp342x.Read.{
  Reading, error, reading, read_blocking, resolution_of, gain_of, Floats, no_voltage, volts, lsb_of,
  voltage_from, to_voltage, with_outcome, read_voltage,
}
use leos_sdk.Mcp342x.Samples.{half_range, decode-IsWithin, decode-sample_value}
use leos_sdk.Mcp342x.Fields.{with_resolution-IsUpdate}
use leos_sdk.Mcp342x.Conversion.{
  Waits, fails, ready, waits, Reads, refused, started, continuous, read_blocking-Reads,
}

-- A transfer fills its buffer with bytes.
pub record ReadsBytes {W : Type 0} (bus : I2c W) (dev : Device) : Type 0 where
  pub first_byte : (w : W) → (bus.read dev.i2c dev.address w).1 < 256
  pub second_byte : (w : W) → (bus.read dev.i2c dev.address w).2 < 256

abbrev pub ReadingInRange : ℕ → Reading → Type 0
ReadingInRange res (error ret) = ret ≡ ret
ReadingInRange res (reading v) = IsWithin (half_range res) v

module _ {W : Type 0} (bus : I2c W) (dev : Device) (bytes : ReadsBytes bus dev) where
  Waits-InRange :
      {w : W} {n : ℕ} {r : Reading} {w' : W}
      → Waits bus dev w n r w'
      → ReadingInRange (resolution_of dev.config) r
  Waits-InRange (fails e neg) = refl
  Waits-InRange (ready {w} {w'} {ret} {b0} {b1} {b2} e ok low) =
      let first = bytes.first_byte w in
      let second = bytes.second_byte w in
      let h : b0 < 256 = rw e at first in
      let l : b1 < 256 = rw e at second in
      rw (← decode-sample_value (resolution_of dev.config) b0 b1)
        (decode-IsWithin (resolution_of dev.config) b0 b1 h l)
  Waits-InRange (waits e ok high d) = Waits-InRange d

  Reads-InRange :
      {start : ℕ} {w : W} {n : ℕ} {r : Reading} {w' : W}
      → Reads bus dev start w n r w'
      → ReadingInRange (resolution_of dev.config) r
  Reads-InRange (refused mode e neg) = refl
  Reads-InRange (started mode e ok d) = Waits-InRange d
  Reads-InRange (continuous mode d) = Waits-InRange d

  -- Where transfers fill the buffer with bytes, a value that read_blocking answers lies in the
  -- range of the resolution in the configuration: 12, 14 or else 16 bits, signed.
  pub read_blocking-IsWithin :
      (fuel : ℕ) (w : W) (v : ℤ) (w' : W)
      → read_blocking bus fuel dev w ≡ some (reading v, w')
      → IsWithin (half_range (resolution_of dev.config)) v
  read_blocking-IsWithin fuel w v w' done =
      let (n, h, d) = read_blocking-Reads bus dev fuel done in Reads-InRange d

-- The weight of a sample's last bit at a resolution that the device has.
abbrev pub lsb_at : {F : Type 0} → Floats F → ℕ → F
lsb_at fl zero = fl.lsb_1mv
lsb_at fl (suc zero) = fl.lsb_250uv
lsb_at fl (suc (suc _)) = fl.lsb_62uv5

module _ {F : Type 0} (fl : Floats F) where
  to_voltage_at :
      (config k : ℕ) (v : ℤ)
      → k < 3
      → resolution_of config ≡ k
      → to_voltage fl config (reading v)
        ≡ volts (fl.divide (fl.scale v (lsb_at fl k)) (2 ^ gain_of config))
  unfolding to_voltage lsb_of voltage_from
  to_voltage_at config zero v h e = rw e
  to_voltage_at config (suc zero) v h e = rw e
  to_voltage_at config (suc (suc zero)) v h e = rw e
  to_voltage_at config (suc (suc (suc k))) v h e = absurd (omega arith)

  to_voltage_3 :
      (config : ℕ) (v : ℤ)
      → resolution_of config ≡ 3
      → to_voltage fl config (reading v) ≡ no_voltage (negsuc 0)
  unfolding to_voltage lsb_of voltage_from
  to_voltage_3 config v e = rw e

read_voltage-reading :
    {W F : Type 0} (bus : I2c W) (fl : Floats F) (fuel : ℕ) (dev : Device) (w w' : W) {r : Reading}
    → read_blocking bus fuel dev w ≡ some (r, w')
    → read_voltage bus fl fuel dev w ≡ some (to_voltage fl dev.config r, w')
unfolding read_voltage with_outcome
read_voltage-reading bus fl fuel dev w w' e = ap (with_outcome bus fl dev.config) e

module _ {W F : Type 0} (bus : I2c W) (fl : Floats F) (dev : Device) (res : ℕ) (w : W) where
  after_set : Device
  after_set = (set_resolution bus dev res w).1

  after_set-resolution : dev.config < 256 → resolution_of after_set.config ≡ res % 4
  unfolding after_set set_resolution write_config
  after_set-resolution h = (with_resolution-IsUpdate dev.config res h).resolution_bits

  after_set-gain : dev.config < 256 → gain_of after_set.config ≡ gain_of dev.config
  unfolding after_set set_resolution write_config
  after_set-gain h = (with_resolution-IsUpdate dev.config res h).gain_bits

  -- After set_resolution, a conversion that ends in a sample gives the voltage sample * LSB / gain
  -- with the LSB of the resolution that was set and the gain from before, and the error -1 where
  -- the low bits of the resolution are 3, which the device does not have.
  pub read_voltage-set_resolution :
      dev.config < 256
      → (fuel : ℕ) (v : ℤ) (w₁ w' : W)
      → let dev' = (set_resolution bus dev res w).1 in
        read_blocking bus fuel dev' w₁ ≡ some (reading v, w')
        → (res % 4 ≡ 3 → read_voltage bus fl fuel dev' w₁ ≡ some (no_voltage (negsuc 0), w'))
          × (res % 4 < 3
              → read_voltage bus fl fuel dev' w₁
                ≡ some (
                  volts (fl.divide (fl.scale v (lsb_at fl (res % 4))) (2 ^ gain_of dev.config)),
                  w',
                ))
  unfolding after_set
  read_voltage-set_resolution h fuel v w₁ w' e =
      let gain =
        ap (λ g. volts (fl.divide (fl.scale v (lsb_at fl (res % 4))) (2 ^ g))) (after_set-gain h) in
      let outcome = read_voltage-reading bus fl fuel after_set w₁ w' e in
      (
        λ k.
            outcome
            ∙ ap (λ u. some (u, w'))
                (to_voltage_3 fl after_set.config v (after_set-resolution h ∙ k)),
        λ k.
            outcome
            ∙ ap (λ u. some (u, w'))
                (to_voltage_at fl after_set.config (res % 4) v k (after_set-resolution h) ∙ gain),
      )
