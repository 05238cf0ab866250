-- ===== src/PicoPort/Examples.antt =====
-- The theorems about the port to the Pico at examples.
use leos_sdk.Prelude.{ℕ, Bool, true, false, some, List, [], ◌∷◌, ◌≡◌, refl, arith}
use leos_sdk.Prelude.Int.{pos}
use leos_sdk.Prelude.Maps.{put, put_here}
use leos_sdk.Sx126x.Types.{Radio}
use leos_sdk.Sx126x.Context.{Context}
use leos_sdk.Sx126x.Globals.{initial_context}
use leos_sdk.PicoPort.Sdk.{Sdk, State}
use leos_sdk.PicoPort.Port.{spi_write_read_ctx}
use leos_sdk.PicoPort.Select.{DrivesPins, spi_write_read_ctx-level}
use leos_sdk.PicoPort.Sharing.{
  Call, links, spi_inits, gpio_inits, transfers, run, KeepsBlocks, IsServed, run-IsServed,
}

-- The levels of the pins, and the blocks that were initialised.
record Board : Type 0 where
  levels : ℕ → Bool
  blocks : ℕ → Bool

abbrev board : Sdk Board
board = record {
  spi_init = λ p baud w. record w { blocks = put w.blocks p true };
  spi_set_format = λ p w. w;
  gpio_set_function_spi = λ p w. w;
  gpio_init = λ p w. w;
  gpio_deinit = λ p w. w;
  gpio_set_dir = λ p d w. w;
  gpio_put = λ p v w. record w { levels = put w.levels p v };
  gpio_get = λ p w. w.levels p;
  spi_write_blocking = λ p buf len w. (pos len, w);
  spi_read_blocking = λ p len w. (pos len, w);
  sleep_ms = λ ms w. w;
  ms_since_boot = λ w. 0;
  tight_loop_contents = λ w. w;
}

board-DrivesPins : DrivesPins board (λ pin w. w.levels pin)
board-DrivesPins = record {
  gpio_put = λ pin p v w. refl;
  spi_write_blocking = λ pin p buf len w. refl;
  spi_read_blocking = λ pin p len w. refl;
}

board-KeepsBlocks : KeepsBlocks board (λ q w. w.blocks q)
board-KeepsBlocks = record {
  spi_init = λ p baud w. put_here w.blocks p true;
  spi_set_format = λ q p w. refl;
  gpio_set_function_spi = λ q p w. refl;
  gpio_init = λ q p w. refl;
  gpio_deinit = λ q p w. refl;
  gpio_set_dir = λ q p d w. refl;
  gpio_put = λ q p v w. refl;
  spi_write_blocking = λ q p buf len w. refl;
  spi_read_blocking = λ q p len w. refl;
  sleep_ms = λ q ms w. refl;
  tight_loop_contents = λ q w. refl;
}

abbrev wired : Radio → ℕ → ℕ → Context
wired radio block nss = record (initial_context radio) {
  hw_config = record {
    platform_spi = block;
    spi_baud_hz = 1000000;
    pin_sck = 2;
    pin_mosi = 3;
    pin_miso = 4;
    pin_nss = nss;
    pin_busy = 6;
    pin_reset = 7;
    pin_dio1 = 8;
  };
}

abbrev boot : State Board
boot = record {
  g_spi_initialized = false;
  g_spi_port = 0;
  g_spi_baud_hz = 0;
  g_spi_pin_sck = 0;
  g_spi_pin_mosi = 0;
  g_spi_pin_miso = 0;
  world = record { levels = λ pin. false; blocks = λ p. false };
}

abbrev two_radios : List Call
two_radios =
    links (wired Radio.sx1262 1 5)
    ∷ spi_inits
    ∷ gpio_inits (wired Radio.sx1262 1 5)
    ∷ links (wired Radio.sx1268 1 9)
    ∷ spi_inits
    ∷ transfers (some (wired Radio.sx1268 1 9)) (some (λ i. i)) 2 true 4
    ∷ []

run-IsServed_example : IsServed (λ q w. w.blocks q) 1 (run board two_radios boot)
run-IsServed_example =
    run-IsServed board (λ q w. w.blocks q) board-KeepsBlocks 1 two_radios boot
      (refl, (tt, (tt, (refl, (tt, (tt, tt))))))
      (record { port = λ ne. absurd (ne refl); marked = λ e. absurd (ground arith) })

spi_write_read_ctx-level_example :
    (spi_write_read_ctx board
        (some (wired Radio.sx1262 1 5))
        (some (λ i. i))
        2
        true
        4
        boot).1.levels
      5
    ≡ true
spi_write_read_ctx-level_example =
    spi_write_read_ctx-level board (λ pin w. w.levels pin) board-DrivesPins (wired Radio.sx1262 1 5)
      (some (λ i. i)) 2 true 4 boot 5
