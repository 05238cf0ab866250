-- ===== src/Log/Examples.antt =====
-- The logger on a board whose clock stands at 61005 ms.
use leos_sdk.Prelude.{contains, ℕ, true, false, some, List, [], ◌∷◌, ◌++◌, ◌≡◌, refl}
use leos_sdk.Log.Text.{codes, decimal, decimal_padded}
use leos_sdk.Log.Reader.{read_line}
use leos_sdk.Log.Console.{
  Level, ulog_warning_level, ulog_error_level, Platform, color_of, head, platform_time_ms,
  console_logger, log_init_console,
}
use leos_sdk.Log.Lines.{console_logger-read_line}

-- The world is the output. ulog refuses to subscribe below the warnings.
abbrev names : Level → List ℕ
names ulog_warning_level = codes "WARN"
names _ = codes "?"

abbrev pico : Platform (List ℕ)
pico = record {
  is_linux = false;
  clock_gettime = λ w. (7, 999000000);
  ms_since_boot = λ w. 61005;
  level_name = names;
  print = λ text w. w ++ text;
  stdio_init_all = λ w. (true, w);
  ulog_init = λ w. w;
  ulog_subscribe = λ level w. (0, w);
}

console_logger_line :
    console_logger pico ulog_warning_level (codes "ADC: late") []
    ≡ 27 ∷ (codes "[33m[WARN]" ++ 27 ∷ codes "[0m 61.005: ADC: late" ++ 10 ∷ [])
unfolding console_logger head color_of platform_time_ms decimal decimal_padded
console_logger_line = refl

platform_time_ms_linux : platform_time_ms (record pico { is_linux = true }) [] ≡ 7999
unfolding platform_time_ms
platform_time_ms_linux = refl

log_init_console_stdio :
    log_init_console (record pico { stdio_init_all = λ w. (false, w) }) ulog_error_level []
    ≡ (false, [])
unfolding log_init_console
log_init_console_stdio = refl

console_logger-read_line_example :
    (l : List ℕ) × (console_logger pico ulog_warning_level (codes "ADC: late") [] ≡ l)
    × (read_line l
        ≡ some (record { level_name = codes "WARN"; ms = 61005; message = codes "ADC: late" }))
unfolding platform_time_ms contains
console_logger-read_line_example =
    console_logger-read_line pico (λ w. w) (λ text w. refl) ulog_warning_level (codes "ADC: late")
      [] refl
