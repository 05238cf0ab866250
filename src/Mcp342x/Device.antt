-- ===== src/Mcp342x/Device.antt =====
-- The device record and the functions that set it up.
use Prim.Native.Nat.{bit_and, bit_or}
use leos_sdk.Prelude.{ℕ, ◌*◌, ◌%◌, Option, none, some}
use leos_sdk.Prelude.Int.{ℤ, pos, negsuc}

pub record Device : Type 0 where
  pub i2c : ℕ
  pub address : ℕ
  pub config : ℕ

-- The Pico SDK, over a state `W` of the bus, the pins and the time. A transfer answers the SDK's
-- int: negative for an error, else the number of bytes.
pub record I2c (W : Type 0) : Type 0 where
  -- i2c_init at 400 kHz, then gpio_set_function and gpio_pull_up for the pins sda and scl.
  pub setup : ℕ → ℕ → ℕ → W → W
  -- i2c_write_blocking of one byte to an address.
  pub write : ℕ → ℕ → ℕ → W → ℤ × W
  -- i2c_read_blocking of three bytes from an address.
  pub read : ℕ → ℕ → W → ℤ × ℕ × ℕ × ℕ × W
  pub sleep_us : ℕ → W → W

abbrev pub cfg_rdy : ℕ
cfg_rdy = 0x80

abbrev pub cfg_oc : ℕ
cfg_oc = 0x10

abbrev pub default_config : ℕ
default_config = bit_or cfg_rdy cfg_oc

-- The updates of the configuration byte: clear the field, then set it. `& 0x3` is `% 4`.
unfoldable pub with_channel : ℕ → ℕ → ℕ
with_channel config channel = bit_or (bit_and config 0x9F) (channel % 4 * 32)

unfoldable pub with_gain : ℕ → ℕ → ℕ
with_gain config gain = bit_or (bit_and config 0xFC) (gain % 4)

unfoldable pub with_resolution : ℕ → ℕ → ℕ
with_resolution config resolution = bit_or (bit_and config 0xF3) (resolution % 4 * 4)

unfoldable pub with_mode : ℕ → ℕ → ℕ
with_mode config mode = bit_or (bit_and config 0xEF) (mode % 2 * 16)

module _ {W : Type 0} (bus : I2c W) where
  -- A NULL device is refused with -2; otherwise what `*dev` held before does not matter.
  unfoldable pub init : Option Device → ℕ → ℕ → ℕ → ℕ → W → ℤ × Option Device × W
  init none block sda scl addr w = (negsuc 1, none, w)
  init (some dev) block sda scl addr w = (
    pos 0,
    some (record { i2c = block; address = addr; config = default_config }),
    bus.setup block sda scl w,
  )

  -- The end of the four setters: the new byte is kept, and written to the device.
  unfoldable pub write_config : Device → ℕ → W → ℤ × Device × W
  write_config dev config w =
      let (ret, w') = bus.write dev.i2c dev.address config w in
      (ret, record dev { config = config }, w')

  unfoldable pub set_channel : Device → ℕ → W → ℤ × Device × W
  unfolding write_config
  set_channel dev channel w = write_config dev (with_channel dev.config channel) w

  unfoldable pub set_gain : Device → ℕ → W → ℤ × Device × W
  unfolding write_config
  set_gain dev gain w = write_config dev (with_gain dev.config gain) w

  unfoldable pub set_resolution : Device → ℕ → W → ℤ × Device × W
  unfolding write_config
  set_resolution dev resolution w = write_config dev (with_resolution dev.config resolution) w

  unfoldable pub set_mode : Device → ℕ → W → ℤ × Device × W
  unfolding write_config
  set_mode dev mode w = write_config dev (with_mode dev.config mode) w
