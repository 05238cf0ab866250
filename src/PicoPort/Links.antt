-- ===== src/PicoPort/Links.antt =====
-- The functions that the port links into a radio's handle.
use leos_sdk.Prelude.{ℕ, Bool, Option, some, Buffer}
use leos_sdk.Sx126x.Types.{Radio}
use leos_sdk.Sx126x.Context.{Context}
use leos_sdk.PicoPort.Sdk.{Sdk, State}
use leos_sdk.PicoPort.Port.{
  spi_hw_init, spi_hw_deinit, gpio_init_ctx, gpio_deinit_ctx, reset_write_ctx, busy_read_ctx,
  spi_write_read_ctx, delay_ms, link_bus,
}

-- The contexts of the driver, which the linked functions name.
pub record Contexts : Type 0 where
  pub g_sx1262 : Context
  pub g_sx1268 : Context

-- What the DRIVER_SX1262_LINK_ macros set, less debug_print, which only prints. The receive
-- callback is the radio whose context it passes on.
pub record Linked (W : Type 0) : Type 0 where
  pub spi_init : Contexts → State W → ℕ × State W
  pub spi_deinit : Contexts → State W → ℕ × State W
  pub spi_write_read : Option Buffer → ℕ → Bool → ℕ → Contexts → State W → ℕ × State W
  pub reset_gpio_init : Contexts → State W → ℕ × State W
  pub reset_gpio_deinit : Contexts → State W → ℕ × State W
  pub reset_gpio_write : ℕ → Contexts → State W → ℕ × State W
  pub busy_gpio_init : Contexts → State W → ℕ × State W
  pub busy_gpio_deinit : Contexts → State W → ℕ × State W
  pub busy_gpio_read : Bool → Contexts → State W → ℕ × Option ℕ
  pub delay_ms : ℕ → State W → State W
  pub receive_callback : Radio

module _ {W : Type 0} (sdk : Sdk W) where
  abbrev in_world : State W → ℕ × W → ℕ × State W
  in_world s (r, w) = (r, record s { world = w })

  unfoldable pub sx1262_links : Linked W
  sx1262_links = record {
    spi_init = λ g s. spi_hw_init sdk s;
    spi_deinit = λ g s. spi_hw_deinit sdk s;
    spi_write_read = λ in_buf in_len out out_len g s.
        in_world s (spi_write_read_ctx sdk (some g.g_sx1262) in_buf in_len out out_len s);
    reset_gpio_init = λ g s. in_world s (gpio_init_ctx sdk g.g_sx1262 s.world);
    reset_gpio_deinit = λ g s. in_world s (gpio_deinit_ctx sdk g.g_sx1262 s.world);
    reset_gpio_write = λ value g s. in_world s (reset_write_ctx sdk g.g_sx1262 value s.world);
    busy_gpio_init = λ g s. (0, s);
    busy_gpio_deinit = λ g s. (0, s);
    busy_gpio_read = λ value g s. busy_read_ctx sdk g.g_sx1262 value s.world;
    delay_ms = λ ms s. record s { world = delay_ms sdk ms s.world };
    receive_callback = Radio.sx1262;
  }

  unfoldable pub sx1268_links : Linked W
  sx1268_links = record {
    spi_init = λ g s. spi_hw_init sdk s;
    spi_deinit = λ g s. spi_hw_deinit sdk s;
    spi_write_read = λ in_buf in_len out out_len g s.
        in_world s (spi_write_read_ctx sdk (some g.g_sx1268) in_buf in_len out out_len s);
    reset_gpio_init = λ g s. in_world s (gpio_init_ctx sdk g.g_sx1268 s.world);
    reset_gpio_deinit = λ g s. in_world s (gpio_deinit_ctx sdk g.g_sx1268 s.world);
    reset_gpio_write = λ value g s. in_world s (reset_write_ctx sdk g.g_sx1268 value s.world);
    busy_gpio_init = λ g s. (0, s);
    busy_gpio_deinit = λ g s. (0, s);
    busy_gpio_read = λ value g s. busy_read_ctx sdk g.g_sx1268 value s.world;
    delay_ms = λ ms s. record s { world = delay_ms sdk ms s.world };
    receive_callback = Radio.sx1268;
  }

  -- The functions of the context's handle, and the static state. Every radio but SX1262 is linked
  -- as SX1268.
  unfoldable pub link_handle : Context → State W → Linked W × State W
  link_handle ctx s = (
    elim ctx.radio [
      | Radio.sx1262 ↦ sx1262_links
      | Radio.sx1268 ↦ sx1268_links
      | Radio.other _ ↦ sx1268_links
    ],
    link_bus ctx s,
  )
