-- ===== src/LinuxPort/Links.antt =====
-- The functions that the port links into a radio's handle.
use leos_sdk.Prelude.{ℕ, Bool, Option, none, some, Buffer}
use leos_sdk.Sx126x.Types.{Radio}
use leos_sdk.Sx126x.Context.{Context}
use leos_sdk.LinuxPort.Gpiod.{Gpiod, State}
use leos_sdk.LinuxPort.Lines.{gpio_init_ctx, gpio_deinit_ctx}
use leos_sdk.LinuxPort.Bus.{
  in_world, spi_hw_init, spi_hw_deinit, spi_write_read_ctx, reset_write_ctx, busy_read_ctx,
  delay_ms,
}

-- The contexts of the driver, which the linked functions name.
pub record Contexts : Type 0 where
  pub g_sx1262 : Context
  pub g_sx1268 : Context

-- What the DRIVER_SX1262_LINK_ macros set, less debug_print, which only prints. The receive
-- callback is the radio whose context it passes on.
pub record Linked (W : Type 0) : Type 0 where
  pub spi_init : Contexts → State W → ℕ × State W
  pub spi_deinit : Contexts → State W → ℕ × State W
  pub spi_write_read : Option Buffer → ℕ → Bool → ℕ → Contexts → State W → ℕ × State W
  pub reset_gpio_init : Contexts → State W → ℕ × State W
  pub reset_gpio_deinit : Contexts → State W → ℕ × State W
  pub reset_gpio_write : ℕ → Contexts → State W → ℕ × State W
  pub busy_gpio_init : Contexts → State W → ℕ × State W
  pub busy_gpio_deinit : Contexts → State W → ℕ × State W
  pub busy_gpio_read : Bool → Contexts → State W → (ℕ × Option ℕ) × State W
  pub delay_ms : ℕ → State W → State W
  pub receive_callback : Radio

module _ {W : Type 0} (lib : Gpiod W) where
  unfoldable pub sx1262_links : Linked W
  sx1262_links = record {
    spi_init = λ g s. in_world lib s (spi_hw_init lib (some g.g_sx1262) s.world);
    spi_deinit = λ g s. in_world lib s (spi_hw_deinit lib s.world);
    spi_write_read = λ in_buf in_len out out_len g s.
        spi_write_read_ctx lib (some g.g_sx1262) in_buf in_len out out_len s;
    reset_gpio_init = λ g s. gpio_init_ctx lib (some g.g_sx1262) s;
    reset_gpio_deinit = λ g s. gpio_deinit_ctx lib (some g.g_sx1262) s;
    reset_gpio_write = λ value g s. reset_write_ctx lib (some g.g_sx1262) value s;
    busy_gpio_init = λ g s. (0, s);
    busy_gpio_deinit = λ g s. (0, s);
    busy_gpio_read = λ value g s. busy_read_ctx lib (some g.g_sx1262) value s;
    delay_ms = λ ms s. record s { world = delay_ms lib ms s.world };
    receive_callback = Radio.sx1262;
  }

  unfoldable pub sx1268_links : Linked W
  sx1268_links = record {
    spi_init = λ g s. in_world lib s (spi_hw_init lib (some g.g_sx1268) s.world);
    spi_deinit = λ g s. in_world lib s (spi_hw_deinit lib s.world);
    spi_write_read = λ in_buf in_len out out_len g s.
        spi_write_read_ctx lib (some g.g_sx1268) in_buf in_len out out_len s;
    reset_gpio_init = λ g s. gpio_init_ctx lib (some g.g_sx1268) s;
    reset_gpio_deinit = λ g s. gpio_deinit_ctx lib (some g.g_sx1268) s;
    reset_gpio_write = λ value g s. reset_write_ctx lib (some g.g_sx1268) value s;
    busy_gpio_init = λ g s. (0, s);
    busy_gpio_deinit = λ g s. (0, s);
    busy_gpio_read = λ value g s. busy_read_ctx lib (some g.g_sx1268) value s;
    delay_ms = λ ms s. record s { world = delay_ms lib ms s.world };
    receive_callback = Radio.sx1268;
  }

  -- The functions that a context's handle has afterwards; `old` are those of before. Every radio
  -- but SX1262 is linked as SX1268.
  unfoldable pub link_handle : Option Context → Linked W → Linked W
  link_handle none old = old
  link_handle (some ctx) old = elim ctx.radio [
    | Radio.sx1262 ↦ sx1262_links
    | Radio.sx1268 ↦ sx1268_links
    | Radio.other _ ↦ sx1268_links
  ]
