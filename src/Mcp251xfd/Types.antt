-- ===== src/Mcp251xfd/Types.antt =====
-- The data of the CAN controller's driver (src/leos_mcp251xfd/mcp251xfd.c and include/leos).
use leos_sdk.Prelude.{ℕ, Bool, Option, List}

-- `leos_mcp251xfd_hw_t`; the SPI block is a number that stands for the pointer.
pub record Hw : Type 0 where
  pub spi : ℕ
  pub pin_mosi : ℕ
  pub pin_miso : ℕ
  pub pin_sck : ℕ
  pub pin_cs : ℕ
  pub pin_int : ℕ
  pub pin_irq : ℕ
  pub spi_baud : ℕ

-- `leos_mcp251xfd_config_t`; the lists of FIFOs and filters are numbers that stand for them.
pub record Config : Type 0 where
  pub xtal_hz : ℕ
  pub osc_hz : ℕ
  pub sysclk_config : ℕ
  pub nominal_bitrate : ℕ
  pub data_bitrate : ℕ
  pub bandwidth : ℕ
  pub ctrl_flags : ℕ
  pub irq_flags : ℕ
  pub fifo : ℕ
  pub num_fifos : ℕ
  pub filter : ℕ
  pub num_filters : ℕ
  pub initial_mode : ℕ

-- `leos_mcp251xfd_ctx_t`. The structures behind `hw` and `cfg` are constant, and stand here
-- themselves; a callback and its reference are numbers that name them.
pub record Context : Type 0 where
  pub hw : Hw
  pub cfg : Config
  pub irq_pending : Bool
  pub rx_cb : Option ℕ
  pub cb_user_reference : ℕ

-- The fields of MCP251XFD that the driver sets; `interface_device` is the pointer to the hardware
-- configuration, and `functions` says whether the four function pointers are set.
pub record Device : Type 0 where
  pub user_driver_data : Option ℕ
  pub spi_chip_select : ℕ
  pub spi_clock_speed : ℕ
  pub interface_device : Option Hw
  pub functions : Bool
  pub gpios_out_level : ℕ

-- The fields of MCP251XFD_Config that depend on the arguments of init.
pub record McpConfig : Type 0 where
  pub xtal_freq : ℕ
  pub osc_freq : ℕ
  pub sysclk_config : ℕ
  pub nominal_bitrate : ℕ
  pub data_bitrate : ℕ
  pub bandwidth : ℕ
  pub control_flags : ℕ
  pub sys_interrupt_flags : ℕ

-- The codes of pending events, and the flags that the driver clears.
pub data Code : Type 0 where
  no_interrupt error_interrupt wakeup_interrupt opmode_change_occured : Code
  txq_interrupt fifo1_interrupt : Code
  other : ℕ → Code

pub data Flags : Type 0 where
  bus_error_event bus_wakeup_event operation_mode_change_event rx_event : Flags
  clearable_flags_mask : Flags

-- What a call answers: an error (0 for ERR_OK), the value stored through its out pointer, and the
-- world after it. `edges` are the pins that fell during the call, for which the handler ran.
pub record Reply (W A : Type 0) : Type 0 where
  pub err : ℕ
  pub out : A
  pub world : W
  pub edges : List ℕ

-- The controller's library, the Pico SDK and the heap, over a world `W`.
pub record Platform (W : Type 0) : Type 0 where
  pub err_out_of_memory : ℕ
  pub err_out_of_range : ℕ
  pub err_frequency : ℕ
  -- malloc of a context: it sees which addresses hold one.
  pub malloc : (ℕ → Option Context) → W → Option ℕ × W
  pub free : ℕ → W → W
  -- gpio_init, gpio_set_dir and gpio_pull_up of an input.
  pub gpio_setup : ℕ → W → W
  pub gpio_set_irq_callback : W → W
  pub irq_set_enabled : W → W
  -- gpio_set_irq_enabled for falling edges.
  pub gpio_set_irq_enabled : ℕ → Bool → W → W
  pub sleep_ms : ℕ → W → Reply W (Unit {0})
  pub init_mcp251xfd : Device → McpConfig → W → Reply W (Unit {0})
  -- At the start of frames, with a prescaler and no interrupt at rollover.
  pub configure_time_stamp : Device → ℕ → W → Reply W (Unit {0})
  pub configure_fifo_list : Device → ℕ → ℕ → W → Reply W (Unit {0})
  pub configure_filter_list : Device → ℕ → ℕ → W → Reply W (Unit {0})
  pub request_operation_mode : Device → ℕ → W → Reply W (Unit {0})
  pub get_current_interrupt_event : Device → W → Reply W Code
  pub clear_interrupt_events : Device → Flags → W → Reply W (Unit {0})
  pub get_transmit_receive_error_status : Device → W → Reply W ℕ
  pub get_actual_operation_mode : Device → W → Reply W ℕ
  -- The status, as its bit MCP251XFD_TXQ_ATTEMPTS_EXHAUSTED.
  pub get_txq_status : Device → W → Reply W Bool
  pub reset_txq : Device → W → Reply W (Unit {0})
  -- The status of FIFO1, as its bit MCP251XFD_RX_FIFO_NOT_EMPTY.
  pub get_fifo1_status : Device → W → Reply W Bool
  pub clear_fifo1_events : Device → W → Reply W (Unit {0})
  -- The application's receive callback, with its reference.
  pub callback : ℕ → ℕ → Device → W → Reply W (Unit {0})
