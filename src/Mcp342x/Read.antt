-- ===== src/Mcp342x/Read.antt =====
-- Reading the ADC: one sample, the conversion loop, and the voltage.
use Prim.Native.Nat.{bit_or}
use leos_sdk.Prelude.{
  ℕ, zero, suc, ◌+◌, ◌*◌, ◌/◌, ◌%◌, ◌^◌, Bool, true, false, if◌then◌else◌, ◌==◌, Option, none, some,
}
use leos_sdk.Prelude.Int.{ℤ, pos, negsuc, is_negative, int16, shift_right}
use leos_sdk.Mcp342x.Device.{Device, I2c, cfg_rdy}

-- `(dev->config >> 2) & 0x3`, `dev->config & 0x3` and `(dev->config & MCP342X_CFG_OC) == 0`.
abbrev pub resolution_of : ℕ → ℕ
resolution_of config = config / 4 % 4

abbrev pub gain_of : ℕ → ℕ
gain_of config = config % 4

abbrev pub is_one_shot : ℕ → Bool
is_one_shot config = config / 16 % 2 == 0

-- The places by which a sample is shifted: MCP342X_RES_12 is 0, MCP342X_RES_14 is 1.
unfoldable pub shift_of : ℕ → ℕ
shift_of zero = 4
shift_of (suc zero) = 2
shift_of (suc (suc _)) = 0

-- The two data bytes as an int16_t, shifted by the resolution.
unfoldable pub decode : ℕ → ℕ → ℕ → ℤ
decode res b0 b1 = shift_right (int16 (b0 * 256 + b1)) (shift_of res)

-- The bit RDY of the third byte is low once the conversion is done.
abbrev pub ready_bit : ℕ → Bool
ready_bit b2 = b2 / 128 % 2 == 0

-- What read_raw answers: a negative code, or 0 with `*value` and `*ready`.
pub data Sample : Type 0 where
  failed : ℤ → Sample
  sampled : ℤ → Bool → Sample

-- What read_blocking answers: a negative code, or 0 with `*value`. (Before an error `*value` may
-- have been written by a sample that was not ready; a caller has no use for it.)
pub data Reading : Type 0 where
  error : ℤ → Reading
  reading : ℤ → Reading

module _ {W : Type 0} (bus : I2c W) where
  unfoldable pub read_raw : Device → W → Sample × W
  read_raw dev w =
      let (ret, b0, b1, b2, w') = bus.read dev.i2c dev.address w in
      (
        if is_negative ret
            then failed ret
            else sampled (decode (resolution_of dev.config) b0 b1) (ready_bit b2),
        w',
      )

  -- One round of the loop: the outcome, or what is left to do after another 200 us.
  unfoldable pub after_sample : (W → Option (Reading × W)) → Sample × W → Option (Reading × W)
  after_sample rest (failed ret, w) = some (error ret, w)
  after_sample rest (sampled value true, w) = some (reading value, w)
  after_sample rest (sampled value false, w) = rest (bus.sleep_us 200 w)

  -- The do-while loop; `none` when the fuel runs out.
  unfoldable pub wait_ready : ℕ → Device → W → Option (Reading × W)
  unfolding after_sample
  wait_ready zero dev w = none
  wait_ready (suc fuel) dev w = after_sample (λ w₁. wait_ready fuel dev w₁) (read_raw dev w)

  -- A write with RDY set starts a conversion in one-shot mode; the device record keeps its byte.
  unfoldable pub trigger : Device → W → ℤ × W
  trigger dev w =
      if is_one_shot dev.config
      then bus.write dev.i2c dev.address (bit_or dev.config cfg_rdy) w
      else (pos 0, w)

  unfoldable pub read_blocking : ℕ → Device → W → Option (Reading × W)
  read_blocking fuel dev w =
      let (ret, w') = trigger dev w in
      if is_negative ret then some (error ret, w') else wait_ready fuel dev w'

-- The float operations of read_voltage: `raw * lsb`, a quotient by the int gain, and the three
-- constants.
pub record Floats (F : Type 0) : Type 0 where
  pub scale : ℤ → F → F
  pub divide : F → ℕ → F
  pub lsb_1mv : F
  pub lsb_250uv : F
  pub lsb_62uv5 : F

pub data Voltage (F : Type 0) : Type 0 where
  no_voltage : ℤ → Voltage F
  volts : F → Voltage F

module _ {F : Type 0} (fl : Floats F) where
  unfoldable pub lsb_of : ℕ → Option F
  lsb_of zero = some fl.lsb_1mv
  lsb_of (suc zero) = some fl.lsb_250uv
  lsb_of (suc (suc zero)) = some fl.lsb_62uv5
  lsb_of (suc (suc (suc _))) = none

  unfoldable pub voltage_from : Option F → ℕ → ℤ → Voltage F
  voltage_from none gain raw = no_voltage (negsuc 0)
  voltage_from (some lsb) gain raw = volts (fl.divide (fl.scale raw lsb) (2 ^ gain))

  unfoldable pub to_voltage : ℕ → Reading → Voltage F
  unfolding lsb_of voltage_from
  to_voltage config (error ret) = no_voltage ret
  to_voltage config (reading raw) =
      voltage_from (lsb_of (resolution_of config)) (gain_of config) raw

module _ {W F : Type 0} (bus : I2c W) (fl : Floats F) where
  unfoldable pub with_outcome : ℕ → Option (Reading × W) → Option (Voltage F × W)
  with_outcome config none = none
  with_outcome config (some (r, w)) = some (to_voltage fl config r, w)

  unfoldable pub read_voltage : ℕ → Device → W → Option (Voltage F × W)
  unfolding with_outcome
  read_voltage fuel dev w = with_outcome dev.config (read_blocking bus fuel dev w)
