-- ===== src/Log/Console.antt =====
-- The console logger and its registration.
use Prim.Native.String.{String}
use leos_sdk.Prelude.{
  ℕ, ◌+◌, ◌*◌, ◌/◌, ◌%◌, ◌^◌, Bool, true, false, if◌then◌else◌, ◌==◌, List, [], ◌∷◌, ◌++◌,
}
use leos_sdk.Log.Text.{codes, decimal, decimal_padded}

-- `ulog_level_t`; any other value is `other`.
pub data Level : Type 0 where
  ulog_trace_level ulog_debug_level ulog_info_level ulog_warning_level : Level
  ulog_error_level ulog_critical_level : Level
  other : ℕ → Level

-- ulog, the clocks and the standard output. `is_linux` is the macro IS_LINUX.
pub record Platform (W : Type 0) : Type 0 where
  pub is_linux : Bool
  -- The seconds and nanoseconds of the monotonic clock.
  pub clock_gettime : W → ℕ × ℕ
  -- to_ms_since_boot(get_absolute_time()).
  pub ms_since_boot : W → ℕ
  pub level_name : Level → List ℕ
  pub print : List ℕ → W → W
  pub stdio_init_all : W → Bool × W
  pub ulog_init : W → W
  -- ulog_subscribe of console_logger: an error, 0 for ULOG_ERR_NONE.
  pub ulog_subscribe : Level → W → ℕ × W

-- The escape sequence of a colour: ESC, and what follows it.
abbrev pub escape : String → List ℕ
escape s = 27 ∷ codes s

abbrev pub col_reset : List ℕ
col_reset = escape "[0m"

unfoldable pub color_of : Level → List ℕ
color_of ulog_trace_level = escape "[35m"
color_of ulog_debug_level = escape "[34m"
color_of ulog_info_level = escape "[37m"
color_of ulog_warning_level = escape "[33m"
color_of ulog_error_level = escape "[31m"
color_of ulog_critical_level = escape "[31m"
color_of (other _) = col_reset

-- `%lu.%03lu` of the seconds and the milliseconds.
unfoldable pub time_text : ℕ → List ℕ
unfolding decimal decimal_padded
time_text ms = decimal (ms / 1000) ++ b'.' ∷ decimal_padded 3 (ms % 1000)

-- `%s[%s]` COL_RESET ` %lu.%03lu: `.
unfoldable pub head : List ℕ → List ℕ → ℕ → List ℕ
unfolding time_text
head color level_name ms =
    color ++ b'[' ∷ (level_name ++ b']' ∷ (col_reset ++ b' ' ∷ (time_text ms ++ b':' ∷ b' ' ∷ [])))

module _ {W : Type 0} (p : Platform W) where
  unfoldable pub platform_time_ms : W → ℕ
  platform_time_ms w =
      if p.is_linux
      then (let (sec, nsec) = p.clock_gettime w in (sec * 1000 + nsec / 1000000) % 2 ^ 32)
      else p.ms_since_boot w

  unfoldable pub console_logger : Level → List ℕ → W → W
  unfolding color_of platform_time_ms head
  console_logger severity msg w =
      let text = head (color_of severity) (p.level_name severity) (platform_time_ms w) in
      p.print (msg ++ 10 ∷ []) (p.print text w)

  unfoldable pub subscribe_console : Level → W → Bool × W
  subscribe_console level w =
      let (result, w') = p.ulog_subscribe level (p.ulog_init w) in (result == 0, w')

  abbrev pub if_ready : Level → Bool × W → Bool × W
  if_ready level (false, w) = (false, w)
  if_ready level (true, w) = subscribe_console level w

  unfoldable pub log_init_console : Level → W → Bool × W
  unfolding subscribe_console
  log_init_console level w =
      if p.is_linux then subscribe_console level w else if_ready level (p.stdio_init_all w)
