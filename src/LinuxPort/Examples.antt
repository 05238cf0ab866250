-- ===== src/LinuxPort/Examples.antt =====
-- The theorems about the port to Linux at examples.
use leos_sdk.Prelude.{ℕ, true, false, some, ◌≡◌, refl, arith}
use leos_sdk.Prelude.Int.{pos, negsuc}
use leos_sdk.Sx126x.Types.{Radio, err_timeout, tx}
use leos_sdk.Sx126x.Vendor.{Handle, Call, finished, Driver}
use leos_sdk.Sx126x.Context
use leos_sdk.Sx126x.Context.{Context}
use leos_sdk.Sx126x.Receive.{service_deferred_irq}
use leos_sdk.Sx126x.Transmit.{tx_outcome, finish_poll, poll_ctx}
use leos_sdk.Sx126x.Globals.{initial_context}
use leos_sdk.LinuxPort.Gpiod.{Gpiod, State}
use leos_sdk.LinuxPort.Lines.{
  gpio_of, set_gpio, request_with, config_with, settings_with, request_line, open_chip,
  gpio_chip_open, keep_reset, ensure_reset, reset_gpio_ensure, keep_busy, request_busy, keep_nss,
  request_nss, unless_failed, request_all, gpio_init_open, gpio_init_ctx, gpio_deinit_ctx,
}
use leos_sdk.LinuxPort.Balance.{line_request}
use leos_sdk.LinuxPort.Bus.{spi_write_read_ctx, now_ms}
use leos_sdk.LinuxPort.Ownership.{held, IsAccounted, IsReleased, Accounts}
use leos_sdk.LinuxPort.Initialisation.{gpio_init_ctx-Accounts}
use leos_sdk.LinuxPort.Release.{init-deinit_IsReleased}
use leos_sdk.LinuxPort.Outcome.{Ends, gpio_init_ctx-Ends}
use leos_sdk.LinuxPort.Select.{Deselected, spi_write_read_ctx-Deselected}
use leos_sdk.LinuxPort.Clock.{on_linux, poll_ctx-clock_fails}
use leos_sdk.LinuxPort.Simulation.{Bench, bench, bench-CountsObjects, bench-DrivesLines, at_start}

-- The context of SX1262 with its pins.
abbrev wired : Context
unfolding initial_context
wired = record (initial_context Radio.sx1262) {
  hw_config = record {
    platform_spi = 8;
    spi_baud_hz = 1000000;
    pin_sck = 0;
    pin_mosi = 0;
    pin_miso = 0;
    pin_nss = 21;
    pin_busy = 22;
    pin_reset = 23;
    pin_dio1 = 24;
  };
}

abbrev initialised : ℕ → ℕ × State Bench
initialised spare = gpio_init_ctx bench (some wired) (at_start spare)

at_start-IsReleased : (spare : ℕ) → IsReleased Radio.sx1262 (at_start spare)
unfolding gpio_of
at_start-IsReleased spare = record { nss_none = refl; busy_none = refl; not_requested = refl }

at_start-IsAccounted : (spare : ℕ) → IsAccounted (λ w. w.books) (λ x. 0) (at_start spare)
at_start-IsAccounted spare x = record { made_freed = refl }

-- With six objects, RESET and NSS are requested and the settings for BUSY cannot be made; the
-- next initialisation requests NSS again, and then no field holds the first request for NSS, at 17,
-- which is still open.
abbrev twice : ℕ × State Bench
twice =
    let s = (initialised 6).1 in
    gpio_init_ctx bench (some wired) (record s { world = record (s.world) { spare = 6 } })

lost_request :
    (twice.0 ≡ 0)
    × ((held (line_request, 17) twice.1 ≡ 0) × (twice.1.world.books (line_request, 17) ≡ (1, 0)))
unfolding gpio_of set_gpio request_with config_with settings_with request_line open_chip
    gpio_chip_open keep_reset ensure_reset reset_gpio_ensure keep_busy request_busy keep_nss
    request_nss unless_failed request_all gpio_init_open gpio_init_ctx wired initial_context
lost_request = (refl, (refl, refl))

gpio_init_ctx-Accounts_example :
    Accounts
      (λ w. w.books)
      (λ x. 0)
      Radio.sx1262
      (at_start 9)
      (gpio_init_ctx bench (some wired) (at_start 9)).1
unfolding wired
gpio_init_ctx-Accounts_example =
    gpio_init_ctx-Accounts bench (λ w. w.books) bench-CountsObjects (λ x. 0) wired (at_start 9)
      (λ _. (at_start-IsReleased 9).busy_none) (at_start-IsAccounted 9)

gpio_init_ctx-Ends_example : Ends Radio.sx1262 (gpio_init_ctx bench (some wired) (at_start 9))
unfolding wired
gpio_init_ctx-Ends_example = gpio_init_ctx-Ends bench wired (at_start 9) (at_start-IsReleased 9)

init-deinit_IsReleased_example :
    let t =
      (gpio_deinit_ctx bench (some wired) (gpio_init_ctx bench (some wired) (at_start 6)).1).1 in
    IsReleased Radio.sx1262 t × IsAccounted (λ w. w.books) (λ x. 0) t
unfolding wired
init-deinit_IsReleased_example =
    init-deinit_IsReleased bench (λ w. w.books) bench-CountsObjects (λ x. 0) wired (at_start 6)
      (at_start-IsReleased 6) (at_start-IsAccounted 6)

-- NSS is request 11, BUSY request 12, and both are high.
abbrev in_use : State Bench
in_use = record (at_start 0) {
  g_gpio_chip = some 1;
  g_reset_req = some 10;
  g_reset_offset = 23;
  g_sx1262_gpio = record {
    nss_req = some 11;
    busy_req = some 12;
    nss_offset = 21;
    busy_offset = 22;
    requested = true;
  };
  world = record { books = λ x. (0, 0); spare = 0; levels = λ q. true; next = 13 };
}

spi_write_read_ctx-Deselected_example :
    let p = spi_write_read_ctx bench (some wired) (some (λ i. i)) 2 true 4 in_use in
    Deselected bench (λ q o w. w.levels q) 11 21 (p.0, p.1.world)
unfolding gpio_of wired
spi_write_read_ctx-Deselected_example =
    spi_write_read_ctx-Deselected bench (λ q o w. w.levels q) bench-DrivesLines wired
      (some (λ i. i)) 2 true 4 11 in_use refl refl

-- A bench whose clock cannot be read.
abbrev timeless : Gpiod Bench
timeless = record bench { clock_gettime = λ w. (negsuc 0, 0, 0) }

-- A vendor library that does nothing.
abbrev silent : Handle → State Bench → Call (State Bench)
silent h w = record { rc = 0; out = 0; handle = h; world = w; dio1 = false }

abbrev silent_radio : Driver (State Bench) ℕ
silent_radio = record {
  exec = λ radio cmd h w. silent h w;
  link_handle = λ radio hw h w. (h, w);
  irq_handler = λ radio h w. finished (silent h w);
  get_lora_packet_status = λ radio h w. (silent h w, 0, 0);
  now_ms = λ w. 0;
  to_int16 = λ f. pos f;
  to_int8 = λ f. pos f;
}

-- A transmission that started at 100 ms.
abbrev just_sent : Context.State (State Bench)
just_sent = record {
  ctx = record wired { initialized = true; mode = tx; tx_in_flight = true; tx_started_at_ms = 100 };
  world = at_start 9;
}

poll_ctx-clock_fails_example :
    let t = (poll_ctx (on_linux timeless silent_radio) just_sent).1 in
    (t.ctx.tx_in_flight ≡ false) × (t.ctx.last_tx_status ≡ err_timeout)
unfolding poll_ctx finish_poll service_deferred_irq tx_outcome initial_context on_linux now_ms
poll_ctx-clock_fails_example =
    poll_ctx-clock_fails timeless silent_radio 0 just_sent refl refl (omega arith) (omega arith)
      refl refl refl
