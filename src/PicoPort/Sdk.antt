-- ===== src/PicoPort/Sdk.antt =====
-- What the port calls of the Pico SDK, and the state that it keeps.
use leos_sdk.Prelude.{ℕ, Bool, Buffer}
use leos_sdk.Prelude.Int.{ℤ}

pub data Direction : Type 0 where
  gpio_out gpio_in : Direction

-- A SPI block is a number, 0 for NULL. The format is always 8 bits, mode 0, the high bit first.
pub record Sdk (W : Type 0) : Type 0 where
  pub spi_init : ℕ → ℕ → W → W
  pub spi_set_format : ℕ → W → W
  pub gpio_set_function_spi : ℕ → W → W
  pub gpio_init : ℕ → W → W
  pub gpio_deinit : ℕ → W → W
  pub gpio_set_dir : ℕ → Direction → W → W
  pub gpio_put : ℕ → Bool → W → W
  pub gpio_get : ℕ → W → Bool
  -- The bytes written, or a negative error.
  pub spi_write_blocking : ℕ → Buffer → ℕ → W → ℤ × W
  -- The bytes read, which are in the world, or a negative error.
  pub spi_read_blocking : ℕ → ℕ → W → ℤ × W
  pub sleep_ms : ℕ → W → W
  -- to_ms_since_boot(get_absolute_time()).
  pub ms_since_boot : W → ℕ
  pub tight_loop_contents : W → W

-- The static variables, which both radios share.
pub record State (W : Type 0) : Type 0 where
  pub g_spi_initialized : Bool
  pub g_spi_port : ℕ
  pub g_spi_baud_hz : ℕ
  pub g_spi_pin_sck : ℕ
  pub g_spi_pin_mosi : ℕ
  pub g_spi_pin_miso : ℕ
  pub world : W
