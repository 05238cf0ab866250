-- ===== src/PicoPort/Port.antt =====
-- The functions of the port.
use leos_sdk.Prelude.{
  ℕ, zero, suc, Bool, true, false, if◌then◌else◌, ltb, ◌==◌, not, Option, none, some, Buffer,
}
use leos_sdk.Prelude.Int.{ℤ, is_negative}
use leos_sdk.Sx126x.Context.{Context}
use leos_sdk.PicoPort.Sdk.{gpio_out, gpio_in, Sdk, State}

module _ {W : Type 0} (sdk : Sdk W) where
  unfoldable pub set_up_spi : State W → State W
  set_up_spi s = record s {
    g_spi_initialized = true;
    world = sdk.gpio_set_function_spi s.g_spi_pin_miso (
        sdk.gpio_set_function_spi s.g_spi_pin_mosi (
          sdk.gpio_set_function_spi s.g_spi_pin_sck
            (sdk.spi_set_format s.g_spi_port (sdk.spi_init s.g_spi_port s.g_spi_baud_hz s.world))));
  }

  unfoldable pub spi_hw_init : State W → ℕ × State W
  unfolding set_up_spi
  spi_hw_init s =
      if s.g_spi_initialized
      then (0, s)
      else if s.g_spi_port == 0
      then (1, s)
      else (0, set_up_spi s)

  unfoldable pub spi_hw_deinit : State W → ℕ × State W
  spi_hw_deinit s = (0, s)

  unfoldable pub gpio_init_ctx : Context → W → ℕ × W
  gpio_init_ctx ctx w =
      let hw = ctx.hw_config in
      let w =
        sdk.gpio_put hw.pin_nss true
          (sdk.gpio_set_dir hw.pin_nss gpio_out (sdk.gpio_init hw.pin_nss w)) in
      let w =
        sdk.gpio_put hw.pin_reset true
          (sdk.gpio_set_dir hw.pin_reset gpio_out (sdk.gpio_init hw.pin_reset w)) in
      let w = sdk.gpio_set_dir hw.pin_busy gpio_in (sdk.gpio_init hw.pin_busy w) in
      (0, sdk.gpio_set_dir hw.pin_dio1 gpio_in (sdk.gpio_init hw.pin_dio1 w))

  unfoldable pub gpio_deinit_ctx : Context → W → ℕ × W
  gpio_deinit_ctx ctx w =
      let hw = ctx.hw_config in
      (
        0,
        sdk.gpio_deinit hw.pin_dio1 (
            sdk.gpio_deinit hw.pin_busy
              (sdk.gpio_deinit hw.pin_reset (sdk.gpio_deinit hw.pin_nss w))),
      )

  unfoldable pub reset_write_ctx : Context → ℕ → W → ℕ × W
  reset_write_ctx ctx value w = (0, sdk.gpio_put ctx.hw_config.pin_reset (not (value == 0)) w)

  -- The result, and what is stored through a value pointer that is not NULL.
  unfoldable pub busy_read_ctx : Context → Bool → W → ℕ × Option ℕ
  busy_read_ctx ctx false w = (1, none)
  busy_read_ctx ctx true w = (0, some (if sdk.gpio_get ctx.hw_config.pin_busy w then 1 else 0))

  abbrev pub succeeded : ℤ × W → Bool × W
  succeeded (n, w) = (not (is_negative n), w)

  -- A buffer that is there is written, and read bytes that are wanted; a length of 0 is neither.
  abbrev pub written : Option Buffer → ℕ → ℕ → W → Bool × W
  written none len port w = (true, w)
  written (some buf) len port w =
      if ltb 0 len then succeeded (sdk.spi_write_blocking port buf len w) else (true, w)

  abbrev pub was_read : Bool → ℕ → ℕ → W → Bool × W
  was_read false len port w = (true, w)
  was_read true len port w =
      if ltb 0 len then succeeded (sdk.spi_read_blocking port len w) else (true, w)

  -- NSS goes high, and the answer is 1 after an error.
  abbrev pub raised : ℕ → Bool × W → ℕ × W
  raised nss (fine, w) = (if fine then 0 else 1, sdk.gpio_put nss true w)

  abbrev pub read_after : ℕ → Bool → ℕ → ℕ → Bool × W → ℕ × W
  read_after nss out out_len port (false, w) = raised nss (false, w)
  read_after nss out out_len port (true, w) = raised nss (was_read out out_len port w)

  unfoldable pub spi_write_read_ctx :
      Option Context → Option Buffer → ℕ → Bool → ℕ → State W → ℕ × W
  spi_write_read_ctx none in_buf in_len out out_len s = (1, s.world)
  spi_write_read_ctx (some ctx) in_buf in_len out out_len s =
      let nss = ctx.hw_config.pin_nss in
      read_after nss out out_len s.g_spi_port
        (written in_buf in_len s.g_spi_port (sdk.gpio_put nss false s.world))

  unfoldable pub delay_ms : ℕ → W → W
  delay_ms ms w = sdk.sleep_ms ms w

  unfoldable pub now_ms : W → ℕ
  now_ms w = sdk.ms_since_boot w

  unfoldable pub platform_idle : W → W
  platform_idle w = sdk.tight_loop_contents w

  unfoldable pub read_dio1 : Option Context → W → ℕ
  read_dio1 none w = 0
  read_dio1 (some ctx) w = if sdk.gpio_get ctx.hw_config.pin_dio1 w then 1 else 0

  -- 0 after a failure, and where nothing was stored, since the variable starts as 0.
  abbrev pub or_zero : ℕ × Option ℕ → ℕ
  or_zero (suc _, stored) = 0
  or_zero (zero, none) = 0
  or_zero (zero, some value) = value

  unfoldable pub read_busy : Context → W → ℕ
  unfolding busy_read_ctx
  read_busy ctx w = or_zero (busy_read_ctx ctx true w)

module _ {W : Type 0} where
  -- The static variables that linking the handle of a context sets.
  unfoldable pub link_bus : Context → State W → State W
  link_bus ctx s = record s {
    g_spi_port = ctx.hw_config.platform_spi;
    g_spi_baud_hz = ctx.hw_config.spi_baud_hz;
    g_spi_pin_sck = ctx.hw_config.pin_sck;
    g_spi_pin_mosi = ctx.hw_config.pin_mosi;
    g_spi_pin_miso = ctx.hw_config.pin_miso;
  }
