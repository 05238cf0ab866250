-- ===== src/Mcp251xfd/Spi.antt =====
-- The platform functions that the controller's library calls (src/leos_mcp251xfd/platform.c).
use leos_sdk.Prelude.{
  ℕ, Bool, true, false, if◌then◌else◌, if-if, ap, ◌==◌, ==_iff, Option, none, some, List, ◌∷◌, ◌≡◌,
  refl, ◌∙◌,
}
use leos_sdk.Mcp251xfd.Types.{Hw}
use leos_sdk.Mcp251xfd.Crc.{crc16_cms}

-- What the functions call of the Pico SDK. The bytes that an exchange sends are given, and those
-- that it receives are in the world. The format is always 8 bits, mode 0, the high bit first.
pub record Board (W : Type 0) : Type 0 where
  pub spi_init : ℕ → ℕ → W → W
  pub spi_set_format : ℕ → W → W
  pub gpio_set_function_spi : ℕ → W → W
  pub gpio_init : ℕ → W → W
  pub gpio_set_dir_out : ℕ → W → W
  pub gpio_put : ℕ → Bool → W → W
  pub save_and_disable_interrupts : W → ℕ × W
  pub restore_interrupts : ℕ → W → W
  pub spi_write_read_blocking : ℕ → List ℕ → ℕ → W → W
  -- to_ms_since_boot(get_absolute_time()).
  pub ms_since_boot : W → ℕ
  -- ERR__SPI_PARAMETER_ERROR, of the controller's library.
  pub spi_parameter_error : ℕ

module _ {W : Type 0} (board : Board W) where
  unfoldable pub get_current_ms : W → ℕ
  get_current_ms w = board.ms_since_boot w

  unfoldable pub compute_crc16 : List ℕ → ℕ
  compute_crc16 bytes = crc16_cms bytes

  -- `pIntDev` may be NULL, else it leads to the pins.
  unfoldable pub interface_init : Option Hw → ℕ → ℕ → W → ℕ × W
  interface_init none chip_select freq w = (board.spi_parameter_error, w)
  interface_init (some hw) chip_select freq w =
      let w = board.gpio_set_function_spi hw.pin_sck (
        board.gpio_set_function_spi hw.pin_mosi
          (board.gpio_set_function_spi hw.pin_miso (board.spi_init hw.spi freq w))) in
      let w =
        board.gpio_put chip_select true
          (board.gpio_set_dir_out chip_select (board.gpio_init chip_select w)) in
      (0, board.spi_set_format hw.spi w)

  unfoldable pub interface_transfer : Option Hw → ℕ → Option (List ℕ) → ℕ → W → ℕ × W
  interface_transfer none chip_select tx size w = (board.spi_parameter_error, w)
  interface_transfer (some hw) chip_select none size w = (board.spi_parameter_error, w)
  interface_transfer (some hw) chip_select (some bytes) size w =
      let (irqs, w) = board.save_and_disable_interrupts w in
      let w =
        board.spi_write_read_blocking hw.spi bytes size (board.gpio_put chip_select false w) in
      (0, board.restore_interrupts irqs (board.gpio_put chip_select true w))

-- An exchange on the bus: the levels of the pins, and whether interrupts could come.
pub record Exchange : Type 0 where
  pub levels : ℕ → Bool
  pub enabled : Bool

-- What the SDK documents of pins and interrupts; `exchanges` are those done, the last first.
pub record Obeys {W : Type 0} (board : Board W) (level : ℕ → W → Bool) (enabled : W → Bool)
    (exchanges : W → List Exchange) : Type 0 where
  pub put_level :
      (q p : ℕ) (v : Bool) (w : W)
      → level q (board.gpio_put p v w) ≡ (if q == p then v else level q w)
  pub put_enabled : (p : ℕ) (v : Bool) (w : W) → enabled (board.gpio_put p v w) ≡ enabled w
  pub put_exchanges : (p : ℕ) (v : Bool) (w : W) → exchanges (board.gpio_put p v w) ≡ exchanges w
  pub save_level : (q : ℕ) (w : W) → level q (board.save_and_disable_interrupts w).1 ≡ level q w
  pub save_disables : (w : W) → enabled (board.save_and_disable_interrupts w).1 ≡ false
  pub save_exchanges : (w : W) → exchanges (board.save_and_disable_interrupts w).1 ≡ exchanges w
  pub restore_level : (q irqs : ℕ) (w : W) → level q (board.restore_interrupts irqs w) ≡ level q w
  pub restore_enabled :
      (v w : W)
      → enabled (board.restore_interrupts (board.save_and_disable_interrupts v).0 w) ≡ enabled v
  pub restore_exchanges :
      (irqs : ℕ) (w : W) → exchanges (board.restore_interrupts irqs w) ≡ exchanges w
  pub exchange_level :
      (q spi : ℕ) (bytes : List ℕ) (size : ℕ) (w : W)
      → level q (board.spi_write_read_blocking spi bytes size w) ≡ level q w
  pub exchange_exchanges :
      (spi : ℕ) (bytes : List ℕ) (size : ℕ) (w : W)
      → exchanges (board.spi_write_read_blocking spi bytes size w)
        ≡ record { levels = λ q. level q w; enabled = enabled w } ∷ exchanges w

module _ {W : Type 0} (level : ℕ → W → Bool) (enabled : W → Bool)
    (exchanges : W → List Exchange) where
  -- After a transfer with nothing NULL: one exchange more, with the chip select low and no
  -- interrupts; then the chip select is high, and every other pin and the interrupts are as before.
  pub record Transferred (cs : ℕ) (w : W) (p : ℕ × W) : Type 0 where
    pub ok : p.0 ≡ 0
    pub selected :
        (e : Exchange) × (exchanges p.1 ≡ e ∷ exchanges w)
        × (e.levels cs ≡ false)
        × (e.enabled ≡ false)
    pub levels : (q : ℕ) → level q p.1 ≡ (if q == cs then true else level q w)
    pub interrupts : enabled p.1 ≡ enabled w

module _ {W : Type 0} (board : Board W) (level : ℕ → W → Bool) (enabled : W → Bool)
    (exchanges : W → List Exchange) (obeys : Obeys board level enabled exchanges) where
  -- A transfer with nothing NULL answers 0 and does one exchange, with the chip select low and
  -- interrupts disabled; afterwards the chip select is high, and every other pin and the interrupts
  -- are as before.
  pub interface_transfer-Transferred :
      (hw : Hw) (cs : ℕ) (bytes : List ℕ) (size : ℕ) (w : W)
      → Transferred level enabled exchanges cs w
          (interface_transfer board (some hw) cs (some bytes) size w)
  unfolding interface_transfer
  interface_transfer-Transferred hw cs bytes size w =
      let s = board.save_and_disable_interrupts w in
      let low = board.gpio_put cs false s.1 in
      let after = board.spi_write_read_blocking hw.spi bytes size low in
      let up = board.gpio_put cs true after in
      record {
        ok = refl;
        selected = (
          record { levels = λ q. level q low; enabled = enabled low },
          obeys.restore_exchanges s.0 up
              ∙ obeys.put_exchanges cs true after
              ∙ obeys.exchange_exchanges hw.spi bytes size low
              ∙ ap (λ l. record { levels = λ q. level q low; enabled = enabled low } ∷ l)
                  (obeys.put_exchanges cs false s.1 ∙ obeys.save_exchanges w),
          rw (obeys.put_level cs cs false s.1, (==_iff cs cs).1 refl) refl,
          obeys.put_enabled cs false s.1 ∙ obeys.save_disables w,
        );
        levels = λ q.
            rw
              (
                obeys.restore_level q s.0 up,
                obeys.put_level q cs true after,
                obeys.exchange_level q hw.spi bytes size low,
                obeys.put_level q cs false s.1,
                obeys.save_level q w,
              )
              (if-if (q == cs) true false (level q w));
        interrupts = obeys.restore_enabled w up;
      }
