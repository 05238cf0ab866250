-- ===== src/Mcp251xfd/Simulation.antt =====
-- A controller, an SDK and a heap, for the examples.
use leos_sdk.Prelude.{
  ℕ, ◌+◌, ◌<◌, true, false, ◌≡◌, refl, sym, ap, ◌∙◌, arith, Option, none, some, List, [], ◌∷◌,
  length, drop,
}
use mathlib.Core.Option.{some-injective}
use leos_sdk.Mcp251xfd.Types.{
  Hw, Config, Context, Device, Code, no_interrupt, error_interrupt, wakeup_interrupt,
  opmode_change_occured, txq_interrupt, fifo1_interrupt, other, Reply, Platform,
}
use leos_sdk.Mcp251xfd.Events.{Clears}
use leos_sdk.Mcp251xfd.Operations.{Lawful}

abbrev pub quiet : {A : Type 0} → A → ℕ → Reply ℕ A
quiet v w = record { err = 0; out = v; world = w; edges = [] }

-- An address is given out if it holds no context.
abbrev pub give : ℕ → Option Context → Option ℕ
give a none = some a
give a (some _) = none

give-fresh : (b : ℕ) (o : Option Context) (a : ℕ) → give b o ≡ some a → (b ≡ a) × (o ≡ none)
give-fresh b none a e = (some-injective _ _ e, refl)
give-fresh b (some c) a e = absurd (cc e)

-- The controller reports one event for ever; the pin falls during the start.
abbrev pub insisting : Code → Platform ℕ
insisting code = record {
  err_out_of_memory = 1;
  err_out_of_range = 2;
  err_frequency = 3;
  malloc = λ contexts w. (give w (contexts w), w + 1);
  free = λ a w. w;
  gpio_setup = λ pin w. w;
  gpio_set_irq_callback = λ w. w;
  irq_set_enabled = λ w. w;
  gpio_set_irq_enabled = λ pin on w. w;
  sleep_ms = λ ms w. quiet tt w;
  init_mcp251xfd = λ d config w. record { err = 0; out = tt; world = w; edges = 5 ∷ [] };
  configure_time_stamp = λ d prescaler w. quiet tt w;
  configure_fifo_list = λ d fifo count w. quiet tt w;
  configure_filter_list = λ d filter count w. quiet tt w;
  request_operation_mode = λ d mode w. quiet tt w;
  get_current_interrupt_event = λ d w. quiet code w;
  clear_interrupt_events = λ d flags w. quiet tt w;
  get_transmit_receive_error_status = λ d w. quiet 0 w;
  get_actual_operation_mode = λ d w. quiet 0 w;
  get_txq_status = λ d w. quiet false w;
  reset_txq = λ d w. quiet tt w;
  get_fifo1_status = λ d w. quiet true w;
  clear_fifo1_events = λ d w. quiet tt w;
  callback = λ f ref d w. quiet tt w;
}

pub insisting-Lawful : (code : Code) → Lawful (insisting code)
insisting-Lawful code = record {
  fresh = λ contexts w a e.
      let (same, free) = give-fresh w (contexts w) a e in ap contexts (sym same) ∙ free;
}

abbrev pub pins : ℕ → Hw
pins irq = record {
  spi = 0;
  pin_mosi = 3;
  pin_miso = 4;
  pin_sck = 2;
  pin_cs = 1;
  pin_int = 6;
  pin_irq = irq;
  spi_baud = 10_000_000;
}

abbrev pub settings : Config
settings = record {
  xtal_hz = 40_000_000;
  osc_hz = 0;
  sysclk_config = 0;
  nominal_bitrate = 1_000_000;
  data_bitrate = 4_000_000;
  bandwidth = 0;
  ctrl_flags = 0;
  irq_flags = 0;
  fifo = 0;
  num_fifos = 2;
  filter = 0;
  num_filters = 1;
  initial_mode = 0;
}

-- The flag of an event is cleared: the events that are left.
abbrev pub cleared : List Code → Reply (List Code) (Unit {0})
cleared w = record { err = 0; out = tt; world = drop 1 w; edges = 5 ∷ [] }

abbrev pub first : List Code → Code
first [] = no_interrupt
first (code ∷ w) = code

abbrev answering : {A : Type 0} → A → List Code → Reply (List Code) A
answering v w = record { err = 0; out = v; world = w; edges = [] }

-- The world is the events that are pending; the interrupt pin falls when a flag is cleared.
abbrev pub clearing : Platform (List Code)
clearing = record {
  err_out_of_memory = 1;
  err_out_of_range = 2;
  err_frequency = 3;
  malloc = λ contexts w. (none, w);
  free = λ a w. w;
  gpio_setup = λ pin w. w;
  gpio_set_irq_callback = λ w. w;
  irq_set_enabled = λ w. w;
  gpio_set_irq_enabled = λ pin on w. w;
  sleep_ms = λ ms w. answering tt w;
  init_mcp251xfd = λ d config w. answering tt w;
  configure_time_stamp = λ d prescaler w. answering tt w;
  configure_fifo_list = λ d fifo count w. answering tt w;
  configure_filter_list = λ d filter count w. answering tt w;
  request_operation_mode = λ d mode w. answering tt w;
  get_current_interrupt_event = λ d w. answering (first w) w;
  clear_interrupt_events = λ d flags w. cleared w;
  get_transmit_receive_error_status = λ d w. answering 0 w;
  get_actual_operation_mode = λ d w. answering 0 w;
  get_txq_status = λ d w. answering true w;
  reset_txq = λ d w. cleared w;
  get_fifo1_status = λ d w. answering true w;
  clear_fifo1_events = λ d w. answering tt w;
  callback = λ f ref d w. answering tt w;
}

abbrev pub IsFirst : Code → List Code → Type 0
IsFirst code w = (code ≡ first w)

shorter :
    (code : Code) (w : List Code)
    → ¬ (code ≡ no_interrupt)
    → IsFirst code w
    → length (drop 1 w) < length w
shorter code [] ne e = absurd (ne e)
shorter code (c ∷ w) ne e = omega arith

pub clearing-Clears :
    (d : Device) (f reference : ℕ)
    → Clears clearing d f reference (λ w. length w) IsFirst (IsFirst fifo1_interrupt)
clearing-Clears d f reference = record {
  asks = λ w. (omega arith, λ e. refl);
  error_read = λ w h. (omega arith, h);
  error_clear = λ w h. shorter error_interrupt w (λ k. cc k) h;
  wakeup_clear = λ w h. shorter wakeup_interrupt w (λ k. cc k) h;
  opmode_read = λ w h. (omega arith, h);
  opmode_clear = λ w h. shorter opmode_change_occured w (λ k. cc k) h;
  other_clear = λ n w h. shorter (other n) w (λ k. cc k) h;
  txq_read = λ w h. (refl, refl, omega arith, h);
  txq_reset = λ w h. shorter txq_interrupt w (λ k. cc k) h;
  fifo1_read = λ w h. (refl, omega arith, h, λ _. h);
  callback = λ w h. (omega arith, h);
  fifo1_clear = λ w h. (omega arith, h);
  rx_clear = λ w h. shorter fifo1_interrupt w (λ k. cc k) h;
}
