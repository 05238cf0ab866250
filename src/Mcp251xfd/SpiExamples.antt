-- ===== src/Mcp251xfd/SpiExamples.antt =====
-- The transfer on the SPI bus at a board.
use leos_sdk.Prelude.{ℕ, ◌==◌, Bool, true, false, if◌then◌else◌, some, List, [], ◌∷◌, ◌≡◌, refl}
use leos_sdk.Prelude.Maps.{put}
use leos_sdk.Mcp251xfd.Types.{Hw}
use leos_sdk.Mcp251xfd.Spi.{
  Board, Exchange, Obeys, Transferred, interface_transfer, interface_transfer-Transferred,
}

record Bench : Type 0 where
  pins : ℕ → Bool
  open_interrupts : Bool
  done : List Exchange

abbrev bench : Board Bench
bench = record {
  spi_init = λ spi freq w. w;
  spi_set_format = λ spi w. w;
  gpio_set_function_spi = λ p w. w;
  gpio_init = λ p w. w;
  gpio_set_dir_out = λ p w. w;
  gpio_put = λ p v w. record w { pins = put w.pins p v };
  save_and_disable_interrupts =
      λ w. (if w.open_interrupts then 0 else 1, record w { open_interrupts = false });
  restore_interrupts = λ irqs w. record w { open_interrupts = irqs == 0 };
  spi_write_read_blocking = λ spi bytes size w. record w {
    done = record { levels = w.pins; enabled = w.open_interrupts } ∷ w.done;
  };
  ms_since_boot = λ w. 0;
  spi_parameter_error = 70;
}

restored : (b : Bool) → ((if b then 0 else 1) == 0) ≡ b
restored true = refl
restored false = refl

bench-Obeys : Obeys bench (λ q w. w.pins q) (λ w. w.open_interrupts) (λ w. w.done)
bench-Obeys = record {
  put_level = λ q p v w. refl;
  put_enabled = λ p v w. refl;
  put_exchanges = λ p v w. refl;
  save_level = λ q w. refl;
  save_disables = λ w. refl;
  save_exchanges = λ w. refl;
  restore_level = λ q irqs w. refl;
  restore_enabled = λ v w. restored v.open_interrupts;
  restore_exchanges = λ irqs w. refl;
  exchange_level = λ q spi bytes size w. refl;
  exchange_exchanges = λ spi bytes size w. refl;
}

abbrev wires : Hw
wires = record {
  spi = 1;
  pin_mosi = 11;
  pin_miso = 12;
  pin_sck = 10;
  pin_cs = 9;
  pin_int = 5;
  pin_irq = 5;
  spi_baud = 1000000;
}

abbrev idle : Bench
idle = record { pins = λ q. true; open_interrupts = true; done = [] }

interface_transfer-Transferred_example :
    Transferred
      (λ q w. w.pins q)
      (λ w. w.open_interrupts)
      (λ w. w.done)
      9
      idle
      (interface_transfer bench (some wires) 9 (some (3 ∷ 0 ∷ [])) 2 idle)
interface_transfer-Transferred_example =
    interface_transfer-Transferred bench (λ q w. w.pins q) (λ w. w.open_interrupts) (λ w. w.done)
      bench-Obeys wires 9 (3 ∷ 0 ∷ []) 2 idle
