-- ===== src/LinuxPort/Gpiod.antt =====
-- What the port calls: libgpiod, spidev, the clock and usleep; and the state that it keeps.
use leos_sdk.Prelude.{ℕ, Bool, Option, List, Buffer}
use leos_sdk.Prelude.Int.{ℤ}

pub data Direction : Type 0 where
  -- An output that starts active.
  output_active : Direction
  input : Direction

pub data Consumer : Type 0 where
  leos_sx126x_reset leos_sx126x_nss leos_sx126x_busy : Consumer

-- `struct spi_ioc_transfer`: what is sent from `tx_buf`, or a number of bytes to receive. The
-- word size is always 8 bits.
pub data Transfer : Type 0 where
  sends : Buffer → ℕ → ℕ → Transfer
  receives : ℕ → ℕ → Transfer

-- Objects of libgpiod are addresses, `none` for NULL. A value of a line is true for
-- GPIOD_LINE_VALUE_ACTIVE; a call that can fail answers a number that is negative then.
pub record Gpiod (W : Type 0) : Type 0 where
  pub chip_open : W → Option ℕ × W
  pub line_settings_new : W → Option ℕ × W
  pub line_settings_free : ℕ → W → W
  -- gpiod_line_settings_set_direction, and for an output gpiod_line_settings_set_output_value.
  pub line_settings_set : ℕ → Direction → W → W
  pub line_config_new : W → Option ℕ × W
  pub line_config_free : ℕ → W → W
  pub add_line_settings : ℕ → ℕ → ℕ → W → W
  pub request_config_new : W → Option ℕ × W
  pub request_config_free : ℕ → W → W
  pub set_consumer : ℕ → Consumer → W → W
  -- gpiod_chip_request_lines: the chip, the request's configuration and the lines'.
  pub request_lines : Option ℕ → ℕ → ℕ → W → Option ℕ × W
  pub request_release : ℕ → W → W
  pub set_value : ℕ → ℕ → Bool → W → ℤ × W
  -- 1 for an active line and 0 for an inactive one.
  pub get_value : ℕ → ℕ → W → ℤ × W
  -- The int that `platform_spi` points to.
  pub read_fd : ℕ → W → ℤ
  -- The ioctls that set SPI_MODE_0 without chip select, 8 bits per word, and the speed.
  pub spi_set_mode : ℤ → W → ℤ × W
  pub spi_set_bits_per_word : ℤ → W → ℤ × W
  pub spi_set_max_speed : ℤ → ℕ → W → ℤ × W
  -- SPI_IOC_MESSAGE; what it receives is in the world.
  pub spi_message : ℤ → List Transfer → W → ℤ × W
  pub usleep : ℕ → W → W
  -- clock_gettime of the monotonic clock: its result, the seconds and the nanoseconds.
  pub clock_gettime : W → ℤ × ℕ × ℕ

-- `leos_sx126x_linux_gpio_t`.
pub record Gpio : Type 0 where
  pub nss_req : Option ℕ
  pub busy_req : Option ℕ
  pub nss_offset : ℕ
  pub busy_offset : ℕ
  pub requested : Bool

-- The static variables of the port.
pub record State (W : Type 0) : Type 0 where
  pub g_gpio_chip : Option ℕ
  pub g_reset_req : Option ℕ
  pub g_reset_offset : ℕ
  pub g_sx1262_gpio : Gpio
  pub g_sx1268_gpio : Gpio
  pub world : W
