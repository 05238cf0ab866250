-- ===== src/LinuxPort/Simulation.antt =====
-- A libgpiod to try the port with: it counts its objects, keeps the levels of the lines of each
-- request, and makes a given number of objects before it is out of memory.
use leos_sdk.Prelude.{
  ℕ, zero, suc, ◌+◌, Bool, true, false, Option, none, some, ◌≡◌, refl, ap, arith, if◌then◌else◌,
}
use leos_sdk.Prelude.Int.{pos}
use leos_sdk.Prelude.Maps.{put, put_here}
use leos_sdk.LinuxPort.Gpiod.{Gpiod, Gpio, State}
use leos_sdk.LinuxPort.Balance.{
  Class, line_settings, line_config, request_config, line_request, Name, Books, add, drop,
  CountsObjects,
}
use leos_sdk.LinuxPort.Select.{DrivesLines}

pub record Bench : Type 0 where
  pub books : Name → Books
  -- Objects that can still be made.
  pub spare : ℕ
  pub levels : ℕ → Bool
  pub next : ℕ

abbrev make_object : Class → ℕ → Bench → Option ℕ × Bench
make_object c zero w = (none, w)
make_object c (suc n) w = (
  some w.next,
  record w { books = λ x. add x c (some w.next) (w.books x); spare = n; next = w.next + 1 },
)

abbrev free_object : Class → ℕ → Bench → Bench
free_object c a w = record w { books = λ x. drop x c a (w.books x) }

abbrev pub bench : Gpiod Bench
bench = record {
  chip_open = λ w. (some 1, w);
  line_settings_new = λ w. make_object line_settings w.spare w;
  line_settings_free = free_object line_settings;
  line_settings_set = λ a d w. w;
  line_config_new = λ w. make_object line_config w.spare w;
  line_config_free = free_object line_config;
  add_line_settings = λ a o b w. w;
  request_config_new = λ w. make_object request_config w.spare w;
  request_config_free = free_object request_config;
  set_consumer = λ a c w. w;
  request_lines = λ chip a b w. (
    some w.next,
    record w {
      books = λ x. add x line_request (some w.next) (w.books x);
      levels = put w.levels w.next true;
      next = w.next + 1;
    },
  );
  request_release = free_object line_request;
  set_value = λ q o v w. (pos 0, record w { levels = put w.levels q v });
  get_value = λ q o w. (if w.levels q then pos 1 else pos 0, w);
  read_fd = λ a w. pos 3;
  spi_set_mode = λ fd w. (pos 0, w);
  spi_set_bits_per_word = λ fd w. (pos 0, w);
  spi_set_max_speed = λ fd speed w. (pos 0, w);
  spi_message = λ fd ts w. (pos 4, w);
  usleep = λ us w. w;
  clock_gettime = λ w. (pos 0, 5, 700000000);
}

make_object-books :
    (x : Name) (c : Class) (n : ℕ) (w : Bench)
    → (make_object c n w).1.books x ≡ add x c (make_object c n w).0 (w.books x)
make_object-books x c zero w = ap (λ (n : ℕ). (n, (w.books x).1)) (omega arith)
make_object-books x c (suc n) w = refl

pub bench-CountsObjects : (x : Name) → CountsObjects bench x (λ w. w.books x)
bench-CountsObjects x = record {
  chip_open = λ w. refl;
  line_settings_new = λ w. make_object-books x line_settings w.spare w;
  line_settings_free = λ a w. refl;
  line_settings_set = λ a d w. refl;
  line_config_new = λ w. make_object-books x line_config w.spare w;
  line_config_free = λ a w. refl;
  add_line_settings = λ a o b w. refl;
  request_config_new = λ w. make_object-books x request_config w.spare w;
  request_config_free = λ a w. refl;
  set_consumer = λ a c w. refl;
  request_lines = λ chip a b w. refl;
  request_release = λ a w. refl;
}

pub bench-DrivesLines : DrivesLines bench (λ q o w. w.levels q)
bench-DrivesLines = record {
  set_value = λ q o v w. put_here w.levels q v;
  spi_message = λ q o fd ts w. refl;
}

abbrev no_lines : Gpio
no_lines = record {
  nss_req = none;
  busy_req = none;
  nss_offset = 0;
  busy_offset = 0;
  requested = false;
}

-- Before the first call, where `spare` objects can be made.
abbrev pub at_start : ℕ → State Bench
at_start spare = record {
  g_gpio_chip = none;
  g_reset_req = none;
  g_reset_offset = 0;
  g_sx1262_gpio = no_lines;
  g_sx1268_gpio = no_lines;
  world = record { books = λ x. (0, 0); spare = spare; levels = λ q. false; next = 10 };
}
