-- ===== src/Mcp251xfd/Driver.antt =====
-- The functions of src/leos_mcp251xfd/mcp251xfd.c.
use leos_sdk.Prelude.{
  ℕ, Bool, true, false, if◌then◌else◌, leb, ◌==◌, Option, none, some, List, [], ◌∷◌,
}
use leos_sdk.Prelude.Maps.{put}
use leos_sdk.Mcp251xfd.Types.{Hw, Config, Context, Device, McpConfig, Reply, Platform}
use leos_sdk.Mcp251xfd.State.{
  gpio_count, Action, pure, ◌>>=◌, ◌>>◌, effect, get_device, set_device, get_context, set_context,
  modify_context, set_entry,
}

-- `if (!ctx) return; ctx->irq_pending = true;`
unfoldable pub latch : {W : Type 0} → Option ℕ → Action W (Unit {0})
latch none = pure tt
latch (some a) = modify_context a (λ c. record c { irq_pending = true })

-- The handler, with the bit GPIO_IRQ_EDGE_FALL of the events.
unfoldable pub irq_handler : {W : Type 0} → ℕ → Bool → Action W (Unit {0})
unfolding latch
irq_handler gpio false s = some (tt, s)
irq_handler gpio true s = if leb gpio_count gpio then some (tt, s) else latch (s.ctx_by_gpio gpio) s

-- The handler runs for each pin that falls.
unfoldable pub handle_edges : {W : Type 0} → List ℕ → Action W (Unit {0})
unfolding irq_handler
handle_edges [] = pure tt
handle_edges (gpio ∷ edges) = irq_handler gpio true >> handle_edges edges

-- A call of the library, with the interrupts during it.
unfoldable pub call : {W A : Type 0} → (W → Reply W A) → Action W (ℕ × A)
unfolding handle_edges
call f s =
    let r = f s.world in
    (handle_edges r.edges >> pure (r.err, r.out)) (record s { world = r.world })

abbrev pub zero_device : Device
zero_device = record {
  user_driver_data = none;
  spi_chip_select = 0;
  spi_clock_speed = 0;
  interface_device = none;
  functions = false;
  gpios_out_level = 0;
}

abbrev pub new_context : Hw → Config → Context
new_context hw config = record {
  hw = hw;
  cfg = config;
  irq_pending = false;
  rx_cb = none;
  cb_user_reference = 0;
}

abbrev pub mcp_config_of : Config → McpConfig
mcp_config_of config = record {
  xtal_freq = config.xtal_hz;
  osc_freq = config.osc_hz;
  sysclk_config = config.sysclk_config;
  nominal_bitrate = config.nominal_bitrate;
  data_bitrate = config.data_bitrate;
  bandwidth = config.data_bitrate;
  control_flags = config.ctrl_flags;
  sys_interrupt_flags = config.irq_flags;
}

abbrev pub linked_device : Device → Hw → Device
linked_device d hw = record d {
  spi_chip_select = hw.pin_cs;
  spi_clock_speed = hw.spi_baud;
  interface_device = some hw;
  functions = true;
  gpios_out_level = 0;
}

-- `if (result != ERR_OK) return result;`
unfoldable pub unless_failed : {W : Type 0} → ℕ × Unit {0} → Action W ℕ → Action W ℕ
unless_failed (err, _) rest = if err == 0 then rest else pure err

unfoldable pub checked : {W : Type 0} → (W → Reply W (Unit {0})) → Action W ℕ → Action W ℕ
unfolding call unless_failed
checked f rest = do r ← call f; unless_failed r rest

module _ {W : Type 0} (p : Platform W) where
  -- From Init_MCP251XFD to the end; a frequency error is returned as the others are.
  unfoldable pub start_chip : ℕ → Config → Action W ℕ
  unfolding checked
  start_chip dev config = do
    d ← get_device dev
    checked (p.init_mcp251xfd d (mcp_config_of config)) (
        checked (p.configure_time_stamp d 40) (
          checked (p.configure_fifo_list d config.fifo config.num_fifos) (
            checked (p.configure_filter_list d config.filter config.num_filters)
              (checked (p.request_operation_mode d config.initial_mode) (pure 0)))))

  -- From the entry in the table on.
  unfoldable pub register : ℕ → Hw → Config → ℕ → Action W ℕ
  unfolding start_chip set_entry
  register dev hw config a = do
    set_entry hw.pin_irq (some a)
    d ← get_device dev
    set_device dev (linked_device d hw)
    call (p.sleep_ms 3)
    start_chip dev config

  -- The set-up of the interrupt pin.
  unfoldable pub setup_irq : Hw → Bool → Action W (Unit {0})
  setup_irq hw attach = do
    effect (p.gpio_setup hw.pin_irq)
    effect (λ w. if attach then p.gpio_set_irq_callback w else w)
    effect p.irq_set_enabled
    effect (p.gpio_set_irq_enabled hw.pin_irq true)

  -- What follows malloc.
  unfoldable pub init_allocated : ℕ → Hw → Config → Bool → Option ℕ → Action W ℕ
  unfolding setup_irq register set_context
  init_allocated dev hw config attach none = pure p.err_out_of_memory
  init_allocated dev hw config attach (some a) = do
    set_context a (new_context hw config)
    d ← get_device dev
    set_device dev (record d { user_driver_data = some a })
    setup_irq hw attach
    if leb gpio_count hw.pin_irq then pure p.err_out_of_range else register dev hw config a

  unfoldable pub malloc : Action W (Option ℕ)
  malloc s = let (a, w) = p.malloc s.contexts s.world in some (a, record s { world = w })

  unfoldable pub init : ℕ → Hw → Config → Bool → Action W ℕ
  unfolding malloc init_allocated
  init dev hw config attach = do
    set_device dev zero_device
    a ← malloc
    init_allocated dev hw config attach a

  -- `free(ctx)`: freeing what is not allocated is a fault.
  unfoldable pub free_context : ℕ → Action W (Unit {0})
  unfolding get_context
  free_context a = do
    get_context a
    λ s. some (tt, record s { contexts = put s.contexts a none; world = p.free a s.world })

  unfoldable pub deinit_context : ℕ → Option ℕ → Action W (Unit {0})
  unfolding free_context get_context set_entry
  deinit_context dev none = pure tt
  deinit_context dev (some a) = do
    c ← get_context a
    effect (p.gpio_set_irq_enabled c.hw.pin_irq false)
    set_entry c.hw.pin_irq none
    free_context a
    d ← get_device dev
    set_device dev (record d { user_driver_data = none })

  -- A device pointer may be NULL.
  unfoldable pub deinit : Option ℕ → Action W (Unit {0})
  unfolding deinit_context
  deinit none = pure tt
  deinit (some dev) = do d ← get_device dev; deinit_context dev d.user_driver_data

  unfoldable pub set_handler : Option ℕ → ℕ → Option ℕ → Action W (Unit {0})
  unfolding modify_context
  set_handler callback user_reference none = pure tt
  set_handler callback user_reference (some a) =
      modify_context a (λ c. record c { rx_cb = callback; cb_user_reference = user_reference })

  unfoldable pub set_rx_handler : Option ℕ → Option ℕ → ℕ → Action W (Unit {0})
  unfolding set_handler
  set_rx_handler none callback user_reference = pure tt
  set_rx_handler (some dev) callback user_reference = do
    d ← get_device dev
    set_handler callback user_reference d.user_driver_data
